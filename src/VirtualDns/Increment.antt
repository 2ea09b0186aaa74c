-- ===== src/VirtualDns/Increment.antt =====
-- `VirtualDns::increment_ip`: the byte loop with its carry.
use native.Mathlib.Nat.{pow-suc, mod-eq_of_lt}
use tun2proxy.Prelude.{
  ℕ, zero, suc, ◌+◌, ◌*◌, ◌/◌, ◌%◌, ◌^◌, ◌≤◌, ◌<◌, ◌≡◌, refl, ap, sym, subst, ◌∙◌, List, [], ◌∷◌,
  ◌++◌, arith, eqb, ◌⊎◌, inl, inr, Bool-cases, if◌then◌else◌, length, get_or, set, length-append,
  length-set, get_or-set_self, get_or-set_ne, get_or-append, get_or-append_end,
}
use tun2proxy.Ip.{IpAddr, v4, v6, from_octets, octets}

-- The loop over `j in 0..ip_bytes.len()`, from the right: `i` rounds are left, so the byte at hand
-- is number `i - 1`.
unfoldable pub carry_loop : ℕ → List ℕ → List ℕ
carry_loop zero bytes = bytes
carry_loop (suc i) bytes =
    let carried = carry_loop i (set bytes i 0) in
    if eqb (get_or bytes i 0) 255 then carried else set bytes i (get_or bytes i 0 + 1)

-- The result of `try_into` on as many bytes as were taken is always an array, so it cannot fail.
unfoldable pub increment_ip : IpAddr → IpAddr
unfolding carry_loop octets from_octets
increment_ip (v4 n) = v4 (from_octets 4 (carry_loop 4 (octets 4 n)))
increment_ip (v6 n) = v6 (from_octets 16 (carry_loop 16 (octets 16 n)))

-- Bytes from `k` on do not count.
from_octets-set :
    (k : ℕ) (bytes : List ℕ) (i v : ℕ) → k ≤ i → from_octets k (set bytes i v) ≡ from_octets k bytes
unfolding from_octets
from_octets-set zero bytes i v h = refl
from_octets-set (suc k) bytes i v h =
    omega
      (arith, from_octets-set k bytes i v (omega arith), get_or-set_ne bytes i k v 0 (omega arith))

from_octets-append :
    (k : ℕ) (xs ys : List ℕ) → k ≤ length xs → from_octets k (xs ++ ys) ≡ from_octets k xs
unfolding from_octets
from_octets-append zero xs ys h = refl
from_octets-append (suc k) xs ys h =
    omega (arith, from_octets-append k xs ys (omega arith), get_or-append xs ys k 0 (omega arith))

pub length-octets : (k n : ℕ) → length (octets k n) ≡ k
unfolding octets
length-octets zero n = refl
length-octets (suc k) n =
    omega (arith, length-octets k (n / 256), length-append (octets k (n / 256)) ((n % 256) ∷ []))

pub from_octets-octets : (k n : ℕ) → n < 256 ^ k → from_octets k (octets k n) ≡ n
unfolding octets from_octets
from_octets-octets zero n h = omega arith
from_octets-octets (suc k) n h =
    let xs = octets k (n / 256) in
    let len : length xs ≡ k = length-octets k (n / 256) in
    let last : get_or (xs ++ (n % 256) ∷ []) k 0 ≡ n % 256 =
      subst (λ j. get_or (xs ++ (n % 256) ∷ []) j 0 ≡ n % 256) len
        (get_or-append_end xs (n % 256) 0) in
    let p : 256 ^ suc k ≡ 256 ^ k * 256 = pow-suc 256 k in
    omega (
      arith,
      last,
      p,
      from_octets-append k xs ((n % 256) ∷ []) (omega arith),
      from_octets-octets k (n / 256) (omega arith),
    )

abbrev AreBytes : List ℕ → Type 0
AreBytes bytes = (j : ℕ) → get_or bytes j 0 < 256

AreBytes-set : (bytes : List ℕ) (i v : ℕ) → v < 256 → AreBytes bytes → AreBytes (set bytes i v)
AreBytes-set [] i v h b j = b j
AreBytes-set (x ∷ xs) zero v h b zero = h
AreBytes-set (x ∷ xs) zero v h b (suc j) = b (suc j)
AreBytes-set (x ∷ xs) (suc i) v h b zero = b zero
AreBytes-set (x ∷ xs) (suc i) v h b (suc j) = AreBytes-set xs i v h (λ j'. b (suc j')) j

AreBytes-snoc : (xs : List ℕ) (y : ℕ) → y < 256 → AreBytes xs → AreBytes (xs ++ y ∷ [])
AreBytes-snoc [] y h b zero = h
AreBytes-snoc [] y h b (suc j) = omega arith
AreBytes-snoc (x ∷ xs) y h b zero = b zero
AreBytes-snoc (x ∷ xs) y h b (suc j) = AreBytes-snoc xs y h (λ j'. b (suc j')) j

octets-AreBytes : (k n : ℕ) → AreBytes (octets k n)
unfolding octets
octets-AreBytes zero n = λ j. omega arith
octets-AreBytes (suc k) n =
    AreBytes-snoc (octets k (n / 256)) (n % 256) (omega arith) (octets-AreBytes k (n / 256))

from_octets-lt : (k : ℕ) (bytes : List ℕ) → AreBytes bytes → from_octets k bytes < 256 ^ k
unfolding from_octets
from_octets-lt zero bytes b = omega arith
from_octets-lt (suc k) bytes b = omega (arith, pow-suc 256 k, from_octets-lt k bytes b, b k)

-- The carry stays below the bytes that are left.
carry_loop-above :
    (k : ℕ) (bytes : List ℕ) (j : ℕ) → k ≤ j → get_or (carry_loop k bytes) j 0 ≡ get_or bytes j 0
unfolding carry_loop
carry_loop-above zero bytes j h = refl
carry_loop-above (suc i) bytes j h = elim (Bool-cases (eqb (get_or bytes i 0) 255)) [
  | inl full ↦ rw full (
      carry_loop-above i (set bytes i 0) j (omega arith)
      ∙ get_or-set_ne bytes i j 0 0 (omega arith))
  | inr room ↦ rw room (get_or-set_ne bytes i j (get_or bytes i 0 + 1) 0 (omega arith))
]

-- The loop adds one to the number that the bytes spell, or wraps it to zero.
carry_loop_lem :
    (k : ℕ) (bytes : List ℕ)
    → k ≤ length bytes
    → AreBytes bytes
    → (((from_octets k bytes + 1 < 256 ^ k)
          × (from_octets k (carry_loop k bytes) ≡ from_octets k bytes + 1))
        ⊎ ((from_octets k bytes + 1 ≡ 256 ^ k) × (from_octets k (carry_loop k bytes) ≡ 0)))
unfolding carry_loop from_octets
carry_loop_lem zero bytes h b = inr (omega arith)
carry_loop_lem (suc i) bytes h b = elim (Bool-cases (eqb (get_or bytes i 0) 255)) [
  | inl full ↦
      let is_255 : get_or bytes i 0 ≡ 255 = ground arith in
      let zeroed : get_or (carry_loop i (set bytes i 0)) i 0 ≡ 0 =
        carry_loop-above i (set bytes i 0) i (omega arith)
        ∙ get_or-set_self bytes i 0 0 (omega arith) in
      let same : from_octets i (set bytes i 0) ≡ from_octets i bytes =
        from_octets-set i bytes i 0 (omega arith) in
      let len : length (set bytes i 0) ≡ length bytes = length-set bytes i 0 in
      rw full
        (elim (carry_loop_lem i (set bytes i 0) (omega arith)
          (AreBytes-set bytes i 0 (omega arith) b)) [
            | inl (lt, eq) ↦ inl (omega (arith, pow-suc 256 i), omega (arith, zeroed))
            | inr (top, eq) ↦ inr (omega (arith, pow-suc 256 i), omega (arith, zeroed))
          ])
  | inr room ↦
      let small : get_or bytes i 0 < 255 = ground (arith, b i) in
      rw room (
        inl (
          omega (arith, pow-suc 256 i, from_octets-lt i bytes b),
          omega (
            arith,
            get_or-set_self bytes i (get_or bytes i 0 + 1) 0 (omega arith),
            from_octets-set i bytes i (get_or bytes i 0 + 1) (omega arith),
          ),
        ))
]

wraps : (n m : ℕ) → n ≡ m → n % m ≡ 0
wraps n m h = grind arith

carry_loop-octets :
    (k n : ℕ) → n < 256 ^ k → from_octets k (carry_loop k (octets k n)) ≡ (n + 1) % 256 ^ k
carry_loop-octets k n h =
    let e : from_octets k (octets k n) ≡ n = from_octets-octets k n h in
    elim (carry_loop_lem k (octets k n) (omega (arith, length-octets k n)) (octets-AreBytes k n)) [
      | inl (lt, eq) ↦ eq ∙ ap (λ (t : ℕ). t + 1) e ∙ sym (mod-eq_of_lt (omega arith))
      | inr (top, eq) ↦ eq ∙ sym (wraps (n + 1) (256 ^ k) (omega (arith, e)))
    ]

-- Incrementing an IPv4 address adds one to its value, and wraps at the end of the family.
pub increment_ip_v4 : (n : ℕ) → n < 2 ^ 32 → increment_ip (v4 n) ≡ v4 ((n + 1) % 2 ^ 32)
unfolding increment_ip
increment_ip_v4 n h = ap v4 (carry_loop-octets 4 n h)

-- Incrementing an IPv6 address adds one to its value, and wraps at the end of the family.
pub increment_ip_v6 : (n : ℕ) → n < 2 ^ 128 → increment_ip (v6 n) ≡ v6 ((n + 1) % 2 ^ 128)
unfolding increment_ip
increment_ip_v6 n h = ap v6 (carry_loop-octets 16 n h)
