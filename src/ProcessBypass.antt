-- ===== src/ProcessBypass.antt =====
-- process_bypass.rs: the names of the processes that bypass the proxy. A text is the list of its
-- characters' numbers here, whose order is that of the texts.
pub mod Sets
pub mod Profile
use tun2proxy.Prelude.{
  true, false, [], ◌∷◌, ◌+◌, ◌%◌, ◌^◌, ◌==◌, ◌&&◌, ◌||◌, ℕ, Bool, List, eqb, ltb, leb,
  if◌then◌else◌, not, bytes_eq, codes, to_ascii_lowercase,
}

abbrev pub Name : Type 0
Name = List ℕ

-- `char::is_whitespace`
abbrev pub is_whitespace : ℕ → Bool
is_whitespace c =
    (leb 9 c && leb c 13)
    || (eqb c 32
        || (eqb c 133
            || (eqb c 160
                || (eqb c 5760
                    || ((leb 8192 c && leb c 8202)
                        || (eqb c 8232
                            || (eqb c 8233 || (eqb c 8239 || (eqb c 8287 || eqb c 12288)))))))))

abbrev pub trim_start : Name → Name
trim_start [] = []
trim_start (c ∷ cs) = let rest = trim_start cs in if is_whitespace c then rest else c ∷ cs

abbrev pub is_blank : Name → Bool
is_blank [] = true
is_blank (c ∷ cs) = false

abbrev pub trim_end : Name → Name
trim_end [] = []
trim_end (c ∷ cs) =
    let rest = trim_end cs in if is_blank rest && is_whitespace c then [] else c ∷ rest

abbrev pub exe : Name
exe = codes ".exe"

-- `strip_suffix(".exe").unwrap_or`
abbrev pub without_exe : Name → Name
without_exe [] = []
without_exe (c ∷ cs) = let rest = without_exe cs in if (c ∷ cs) == exe then [] else c ∷ rest

unfoldable pub normalize_process_name : Name → Name
normalize_process_name name = without_exe (to_ascii_lowercase (trim_start (trim_end name)))

abbrev pub name_ltb : Name → Name → Bool
name_ltb [] [] = false
name_ltb [] (d ∷ ds) = true
name_ltb (c ∷ cs) [] = false
name_ltb (c ∷ cs) (d ∷ ds) = ltb c d || (eqb c d && name_ltb cs ds)

-- A `BTreeSet` is the list of its elements in order.
abbrev pub insert : Name → List Name → List Name
insert name [] = name ∷ []
insert name (other ∷ names) =
    let rest = insert name names in
    if name == other
    then other ∷ names
    else if name_ltb name other
    then name ∷ other ∷ names
    else other ∷ rest

-- The normal forms that are not empty, in order and once each.
unfoldable pub collect : List Name → List Name
collect [] = []
collect (name ∷ names) =
    let rest = collect names in
    let normal = normalize_process_name name in if is_blank normal then rest else insert normal rest

abbrev pub contains : Name → List Name → Bool
contains name [] = false
contains name (candidate ∷ names) = (candidate == name) || contains name names

pub record ProcessBypass : Type 0 where
  pub names : List Name
  pub revision : ℕ

abbrev pub names_beq : List Name → List Name → Bool
names_beq [] [] = true
names_beq [] (d ∷ ds) = false
names_beq (c ∷ cs) [] = false
names_beq (c ∷ cs) (d ∷ ds) = (c == d) && names_beq cs ds

-- The subscribers are woken by a new revision.
unfoldable pub set_names : List Name → ProcessBypass → ProcessBypass
set_names given bypass =
    let names = collect given in
    if names_beq bypass.names names
    then bypass
    else record { names = names; revision = (bypass.revision + 1) % 2 ^ 64 }

abbrev pub default : ProcessBypass
default = record { names = []; revision = 0 }

abbrev pub new : List Name → ProcessBypass
new names = set_names names default

abbrev pub is_configured : ProcessBypass → Bool
is_configured bypass = not (names_beq bypass.names [])

abbrev pub contains_normalized : Name → ProcessBypass → Bool
contains_normalized name bypass = contains name bypass.names
