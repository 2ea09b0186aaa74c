-- ===== src/VirtualDns/Disk.antt =====
-- The file system under the journal of virtual_dns/persistence.rs: the two files that it uses, and
-- the outcomes of the coming system calls.
use tun2proxy.Prelude.{
  ℕ, Bool, true, false, ◌&&◌, Option, none, some, List, [], ◌∷◌, ◌++◌, Result, ok, err, take,
  if◌then◌else◌,
}

abbrev pub Bytes : Type 0
Bytes = List ℕ

-- `out_of_fuel` is the model's own.
pub data Error : Type 0 where
  io exhausted out_of_fuel : Error

-- A call works, or fails after so many bytes (or lines, when reading) have gone through.
pub data Outcome : Type 0 where
  works : Outcome
  fails : ℕ → Outcome

pub record Disk : Type 0 where
  pub windows : Bool
  pub file : Option Bytes
  pub temporary : Option Bytes
  pub outcomes : List Outcome

abbrev pub Io : Type 0 → Type 0
Io A = Disk → Disk × Result Error A

-- An error ends the chain.
abbrev pub resume : {A B : Type 0} → (A → Io B) → Disk × Result Error A → Disk × Result Error B
resume f (d, ok a) = f a d
resume f (d, err e) = (d, err e)

infixl 5 ◌>>=◌ ◌>>◌
abbrev pub ◌>>=◌ : {A B : Type 0} → Io A → (A → Io B) → Io B
◌>>=◌ m f d = resume f (m d)

abbrev pub ◌>>◌ : {A B : Type 0} → Io A → Io B → Io B
m >> k = m >>= λ _. k

-- Past the end of the list every call works.
unfoldable pub next_outcome : Disk → Disk × Outcome
next_outcome d = elim d.outcomes [ [] ↦ (d, works) | o ∷ os ↦ (record d { outcomes = os }, o) ]

-- A call that changes the files by `change`, or by `partial` when it fails.
unfoldable pub settle :
    (Disk → Disk) → (ℕ → Disk → Disk) → Disk × Outcome → Disk × Result Error Unit
settle change partial (d, works) = (change d, ok tt)
settle change partial (d, fails n) = (partial n d, err io)

unfoldable pub syscall : (Disk → Disk) → (ℕ → Disk → Disk) → Io Unit
unfolding next_outcome settle
syscall change partial d = settle change partial (next_outcome d)

unfoldable pub create_dir_all : Io Unit
create_dir_all = syscall (λ d. d) (λ n d. d)

-- File::create truncates.
unfoldable pub create_temporary : Io Unit
create_temporary = syscall (λ d. record d { temporary = some [] }) (λ n d. d)

unfoldable pub write_temporary : Bytes → Io Unit
write_temporary content =
    syscall (λ d. record d { temporary = some content })
      (λ n d. record d { temporary = some (take n content) })

abbrev contents : Option Bytes → Bytes
contents none = []
contents (some bytes) = bytes

-- Opening creates the file, and a failed write may leave a part of the record.
unfoldable pub append_file : Bytes → Io Unit
append_file line d =
    (do
      syscall (λ d. record d { file = some (contents d.file) }) (λ n d. d)
      syscall (λ d. record d { file = some (contents d.file ++ line) })
          (λ n d. record d { file = some (contents d.file ++ take n line) }))
      d

unfoldable pub rename : Io Unit
rename = syscall (λ d. record d { file = d.temporary; temporary = none }) (λ n d. d)

unfoldable pub remove_file : Io Unit
remove_file = syscall (λ d. record d { file = none }) (λ n d. d)

exists : Option Bytes → Bool
exists none = false
exists (some bytes) = true

unfoldable pub replace_file : Io Unit
unfolding exists
replace_file d = (if d.windows && exists d.file then (do remove_file; rename) d else rename d)
