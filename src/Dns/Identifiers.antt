-- ===== src/Dns/Identifiers.antt =====
-- dns_transactions.rs: the identifiers of the requests in flight.
use tun2proxy.Maps.{lookup, without, lookup-without}
use tun2proxy.Dns.Transactions.{free_id, Pending, wrapping_add}
use tun2proxy.Prelude.{
  zero, suc, none, some, inl, inr, [], ◌∷◌, ◌+◌, ◌%◌, ◌≡◌, nat_eq, refl, arith, ℕ, List, length,
  ◌<◌, Option-cases, ◌≤◌, ◌≢◌, ap, ◌∙◌, sym,
}

length-without : (k : ℕ) (l : List (ℕ × Pending)) → length (without k l) ≤ length l
length-without k [] = omega arith
length-without k ((i, v) ∷ l) = ground (arith, length-without k l)

length-without-lookup :
    (k : ℕ) (l : List (ℕ × Pending)) → lookup k l ≢ none → length (without k l) < length l
length-without-lookup k [] h = absurd (h refl)
length-without-lookup k ((i, v) ∷ l) h =
    ground (arith, length-without k l, length-without-lookup k l)

wrap_step : (id k : ℕ) → (wrapping_add id + k) % 65536 ≡ (id + (k + 1)) % 65536
wrap_step id k = omega arith

suc_last : (id k : ℕ) → (id + (k + 1)) % 65536 ≡ (id + suc k) % 65536
suc_last id k = omega arith

wrap_other : (id k : ℕ) → id < 65536 → k + 1 < 65536 → (id + (k + 1)) % 65536 ≢ id
wrap_other id k i h e = omega (arith, e)

lookup_elsewhere :
    (k j : ℕ) (l : List (ℕ × Pending)) → j ≢ k → lookup j (without k l) ≡ none → lookup j l ≡ none
lookup_elsewhere k j l ne h = ground (arith, lookup-without k j l, ne, h)

-- Fewer requests than rounds leave an identifier free within these rounds.
free_within :
    (fuel id : ℕ) (l : List (ℕ × Pending))
    → length l < fuel
    → fuel ≤ 65536
    → id < 65536
    → (k : ℕ) × (k < fuel) × (lookup ((id + k) % 65536) l ≡ none)
free_within zero id l h b i = elim h [ ]
free_within (suc fuel) id l h b i = elim (Option-cases (lookup id l)) [
  | inl free ↦ (0, omega arith, ap (λ j. lookup j l) (omega arith) ∙ free)
  | inr (p, taken) ↦
      let shorter = length-without-lookup id l (λ e. cc (e, taken)) in
      let (k, lt, gone) =
        free_within fuel (wrapping_add id) (without id l) (omega (arith, shorter)) (omega arith)
          (omega arith) in
      (
        k + 1,
        omega arith,
        lookup_elsewhere id ((id + (k + 1)) % 65536) l (wrap_other id k i (omega (arith, lt)))
            (ap (λ j. lookup j (without id l)) (sym (wrap_step id k)) ∙ gone),
      )
]

-- The loop finds the first of them.
free_id_lem :
    (fuel k id : ℕ) (l : List (ℕ × Pending))
    → k < fuel
    → id < 65536
    → lookup ((id + k) % 65536) l ≡ none
    → (i : ℕ) × (free_id fuel id l ≡ some i) × (lookup i l ≡ none) × (i < 65536)
unfolding free_id
free_id_lem zero k id l h i free = elim h [ ]
free_id_lem (suc fuel) zero id l h i free =
    let now : lookup id l ≡ none = ap (λ j. lookup j l) (omega arith) ∙ free in
    (id, rw now refl, now, i)
free_id_lem (suc fuel) (suc k) id l h i free = elim (Option-cases (lookup id l)) [
  | inl now ↦ (id, rw now refl, now, i)
  | inr (p, taken) ↦
      let (j, found, unused, small) =
        free_id_lem fuel k (wrapping_add id) l (omega (arith, h)) (omega arith)
          (ap (λ m. lookup m l) (wrap_step id k ∙ suc_last id k) ∙ free) in
      (j, rw taken found, unused, small)
]

-- While an identifier is left for one more request, there is a free identifier, and the loop finds one.
pub free_id_total :
    (id : ℕ) (l : List (ℕ × Pending))
    → length l < 65536
    → id < 65536
    → (i : ℕ) × (free_id (suc (length l)) id l ≡ some i) × (lookup i l ≡ none) × (i < 65536)
free_id_total id l h i =
    let (k, lt, free) = free_within (suc (length l)) id l (omega arith) (omega arith) i in
    free_id_lem (suc (length l)) k id l lt i free
