-- ===== src/ProcessBypass/Sets.antt =====
-- process_bypass.rs: the names are the set of the normal forms, whatever their order, and only a new
-- set wakes the subscribers.
use tun2proxy.ProcessBypass.{
  Name, normalize_process_name, is_blank, name_ltb, insert, collect, ProcessBypass, names_beq,
  set_names, contains,
}
use tun2proxy.Prelude.{
  refl, true, false, inl, inr, [], ◌∷◌, ◌≡◌, ◌↔◌, ◌==◌, ◌&&◌, ◌||◌, Bool, List, not, bytes_eq,
  arith, bytes_beq_iff, bytes_beq, Bool-cases, ap, sym, ◌∙◌, beq_self, subst,
}

-- Texts are in strict linear order.
name_ltb_self : (a : Name) → name_ltb a a ≡ false
name_ltb_self [] = refl
name_ltb_self (c ∷ cs) = ground (arith, name_ltb_self cs)

name_ltb_trans : (a b c : Name) → name_ltb a b ≡ true → name_ltb b c ≡ true → name_ltb a c ≡ true
name_ltb_trans [] [] c p q = ground (arith, p)
name_ltb_trans [] (y ∷ ys) [] p q = ground (arith, q)
name_ltb_trans [] (y ∷ ys) (z ∷ zs) p q = refl
name_ltb_trans (x ∷ xs) [] c p q = ground (arith, p)
name_ltb_trans (x ∷ xs) (y ∷ ys) [] p q = ground (arith, q)
name_ltb_trans (x ∷ xs) (y ∷ ys) (z ∷ zs) p q = ground (arith, p, q, name_ltb_trans xs ys zs)

name_ltb_total : (a b : Name) → bytes_beq a b ≡ false → name_ltb a b ≡ false → name_ltb b a ≡ true
name_ltb_total [] [] p q = ground (arith, p)
name_ltb_total [] (y ∷ ys) p q = ground (arith, q)
name_ltb_total (x ∷ xs) [] p q = refl
name_ltb_total (x ∷ xs) (y ∷ ys) p q = ground (arith, p, q, name_ltb_total xs ys)

-- Below every name of the list, and a list in order.
abbrev pub IsBelow : Name → List Name → Type 0
IsBelow a [] = Unit
IsBelow a (b ∷ bs) = (name_ltb a b ≡ true) × IsBelow a bs

abbrev pub IsSorted : List Name → Type 0
IsSorted [] = Unit
IsSorted (a ∷ l) = IsBelow a l × IsSorted l

IsBelow-trans : (a b : Name) (bs : List Name) → name_ltb a b ≡ true → IsBelow b bs → IsBelow a bs
IsBelow-trans a b [] p q = tt
IsBelow-trans a b (c ∷ cs) p (q, qs) = (name_ltb_trans a b c p q, IsBelow-trans a b cs p qs)

IsBelow-insert :
    (a n : Name) (l : List Name) → name_ltb a n ≡ true → IsBelow a l → IsBelow a (insert n l)
IsBelow-insert a n [] p q = (p, tt)
IsBelow-insert a n (m ∷ ms) p (q, qs) = ground (arith, p, q, qs, IsBelow-insert a n ms p qs)

insert-IsSorted : (n : Name) (l : List Name) → IsSorted l → IsSorted (insert n l)
insert-IsSorted n [] s = (tt, tt)
insert-IsSorted n (m ∷ ms) (b, s) = elim (Bool-cases (bytes_beq n m)) [
  | inl e ↦ rw (e, insert) (b, s)
  | inr e ↦ elim (Bool-cases (name_ltb n m)) [
    | inl f ↦ rw (e, f, insert) ((f, IsBelow-trans n m ms f b), (b, s))
    | inr f ↦
        rw (e, f, insert) (IsBelow-insert m n ms (name_ltb_total n m e f) b, insert-IsSorted n ms s)
  ]
]

contains-insert :
    (j n : Name) (l : List Name) → contains j (insert n l) ≡ ((n == j) || contains j l)
contains-insert j n [] = refl
contains-insert j n (m ∷ ms) = ground (arith, contains-insert j n ms, bytes_beq_iff n m)

contains-below : (a : Name) (l : List Name) → IsBelow a l → contains a l ≡ false
contains-below a [] b = refl
contains-below a (c ∷ cs) (p, ps) =
    ground (arith, p, contains-below a cs ps, bytes_beq_iff c a, name_ltb_self a)

-- The same elements.
abbrev pub Same : List Name → List Name → Type 0
Same l k = (j : Name) → contains j l ≡ contains j k

below-absent :
    (a b : Name) (k : List Name) → name_ltb a b ≡ true → IsBelow b k → contains a (b ∷ k) ≡ false
below-absent a b k p q = contains-below a (b ∷ k) (p, IsBelow-trans a b k p q)

heads_agree :
    (a b : Name) (l k : List Name) → IsBelow a l → IsBelow b k → Same (a ∷ l) (b ∷ k) → a ≡ b
heads_agree a b l k p q same = elim (Bool-cases (bytes_beq a b)) [
  | inl e ↦ (bytes_beq_iff a b).0 e
  | inr e ↦ elim (Bool-cases (name_ltb a b)) [
    | inl f ↦ ground (arith, same a, below-absent a b k f q, beq_self a)
    | inr f ↦ ground (arith, same b, below-absent b a l (name_ltb_total a b e f) p, beq_self b)
  ]
]

-- Two lists in order with the same elements are equal.
sorted_unique : (l k : List Name) → IsSorted l → IsSorted k → Same l k → l ≡ k
sorted_unique [] [] s t same = refl
sorted_unique [] (b ∷ k) s t same = ground (arith, same b, beq_self b)
sorted_unique (a ∷ l) [] s t same = ground (arith, same a, beq_self a)
sorted_unique (a ∷ l) (b ∷ k) (p, s) (q, t) same =
    let e : a ≡ b = heads_agree a b l k p q same in
    let tails = sorted_unique l k s t (λ j. ground (
      arith,
      e,
      same j,
      contains-below a l p,
      contains-below b k q,
      bytes_beq_iff a j,
      bytes_beq_iff b j,
    )) in
    rw (e, tails) refl

-- The name is the normal form of one of the given names, and not empty.
abbrev pub asks_for : Name → List Name → Bool
asks_for j [] = false
asks_for j (name ∷ names) =
    ((normalize_process_name name == j) && not (is_blank j)) || asks_for j names

contains-collect : (j : Name) (given : List Name) → contains j (collect given) ≡ asks_for j given
unfolding collect
contains-collect j [] = refl
contains-collect j (name ∷ names) = elim (Bool-cases (is_blank (normalize_process_name name))) [
  | inl e ↦
      rw (e, collect)
        (ground (arith, e, contains-collect j names, bytes_beq_iff (normalize_process_name name) j))
  | inr e ↦
      rw (e, collect)
        (contains-insert j (normalize_process_name name) (collect names)
          ∙ ground
              (arith, e, contains-collect j names, bytes_beq_iff (normalize_process_name name) j))
]

collect-IsSorted : (given : List Name) → IsSorted (collect given)
unfolding collect
collect-IsSorted [] = tt
collect-IsSorted (name ∷ names) = elim (Bool-cases (is_blank (normalize_process_name name))) [
  | inl e ↦ rw (e, collect) (collect-IsSorted names)
  | inr e ↦
      rw (e, collect)
        (insert-IsSorted (normalize_process_name name) (collect names) (collect-IsSorted names))
]

names_beq_iff : (l k : List Name) → (names_beq l k ≡ true) ↔ (l ≡ k)
names_beq_iff [] [] = (λ h. refl, λ h. refl)
names_beq_iff [] (d ∷ ds) = (λ h. cc, λ h. cc)
names_beq_iff (c ∷ cs) [] = (λ h. cc, λ h. cc)
names_beq_iff (c ∷ cs) (d ∷ ds) =
    let rest = names_beq_iff cs ds in
    (λ h. ground (arith, rest, bytes_beq_iff c d), λ h. ground (arith, rest, bytes_beq_iff c d))

set_names-names :
    (given : List Name) (b : ProcessBypass) → (set_names given b).names ≡ collect given
unfolding set_names
set_names-names given b = elim (Bool-cases (names_beq b.names (collect given))) [
  | inl e ↦ rw (e, set_names) ((names_beq_iff b.names (collect given)).0 e)
  | inr e ↦ rw (e, set_names) refl
]

set_names-same :
    (again : List Name) (b : ProcessBypass) → b.names ≡ collect again → set_names again b ≡ b
unfolding set_names
set_names-same again b h =
    let e : names_beq b.names (collect again) ≡ true =
      (names_beq_iff b.names (collect again)).1 h in
    rw (e, set_names) refl

-- After the names were set, a name bypasses the proxy exactly where it is the normal form of a given
-- one and not empty, the names are in order and once each, and setting names with the same normal
-- forms, in any order and number, changes nothing and wakes nobody.
pub set_names-set :
    (given again : List Name) (b : ProcessBypass)
    → ((j : Name) → asks_for j given ≡ asks_for j again)
    → ((j : Name) → contains j (set_names given b).names ≡ asks_for j given)
      × IsSorted (set_names given b).names
      × (set_names again (set_names given b) ≡ set_names given b)
set_names-set given again b same =
    let names = set_names-names given b in
    let equal : collect given ≡ collect again =
      sorted_unique (collect given) (collect again) (collect-IsSorted given)
        (collect-IsSorted again)
        (λ j. contains-collect j given ∙ same j ∙ sym (contains-collect j again)) in
    (
      λ j. ap (contains j) names ∙ contains-collect j given,
      subst IsSorted (sym names) (collect-IsSorted given),
      set_names-same again (set_names given b) (names ∙ equal),
    )
