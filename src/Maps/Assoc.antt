-- ===== src/Maps/Assoc.antt =====
-- Lists of entries: what the containers' laws speak of.
use tun2proxy.Prelude.{
  ◌≡◌, ◌≢◌, refl, Option, none, some, List, [], ◌∷◌, ◌++◌, Eq, ◌==◌, if◌then◌else◌, arith, beq_self,
  Option-cases, inl, inr, ◌∙◌,
}

module _ {K V : Type 0} where
  abbrev pub head : List (K × V) → Option (K × V)
  head [] = none
  head (p ∷ l) = some p

  abbrev pub drop_first : List (K × V) → List (K × V)
  drop_first [] = []
  drop_first (p ∷ l) = l

module _ {K V : Type 0} ⦃e : Eq K⦄ where
  abbrev pub lookup : K → List (K × V) → Option V
  lookup j [] = none
  lookup j ((k, v) ∷ l) = if k == j then some v else lookup j l

  -- Every entry with another key.
  abbrev pub without : K → List (K × V) → List (K × V)
  without k [] = []
  without k ((i, v) ∷ l) = if i == k then without k l else (i, v) ∷ without k l

  -- An entry that is there moves to the end.
  abbrev pub touch : K → List (K × V) → List (K × V)
  touch k l = elim (lookup k l) [ none ↦ l | some v ↦ without k l ++ (k, v) ∷ [] ]

  -- No key stands twice.
  abbrev pub Distinct : List (K × V) → Type 0
  Distinct [] = Unit
  Distinct ((k, v) ∷ l) = (lookup k l ≡ none) × Distinct l

  pub lookup-without :
      (k j : K) (l : List (K × V)) → lookup j (without k l) ≡ (if k == j then none else lookup j l)
  lookup-without k j [] = ground arith
  lookup-without k j ((i, v) ∷ l) =
      ground (arith, lookup-without k j l, e.beq_iff i k, e.beq_iff k j, e.beq_iff i j)

  pub lookup-snoc :
      (l : List (K × V)) (k : K) (v : V) (j : K)
      → lookup k l ≡ none
      → lookup j (l ++ (k, v) ∷ []) ≡ (if k == j then some v else lookup j l)
  lookup-snoc [] k v j h = refl
  lookup-snoc ((i, w) ∷ l) k v j h =
      ground (arith, lookup-snoc l k v j, e.beq_iff i k, e.beq_iff k j, e.beq_iff i j)

  pub lookup-without_snoc :
      (l : List (K × V)) (k : K) (v : V) (j : K)
      → lookup j (without k l ++ (k, v) ∷ []) ≡ (if k == j then some v else lookup j l)
  lookup-without_snoc l k v j = ground (
    arith,
    lookup-snoc (without k l) k v j,
    lookup-without k k l,
    lookup-without k j l,
    beq_self k,
  )

  -- Using an entry changes the order and no lookup.
  pub lookup-touch : (k j : K) (l : List (K × V)) → lookup j (touch k l) ≡ lookup j l
  lookup-touch k j l = elim (Option-cases (lookup k l)) [
    | inl absent ↦ rw (absent, touch)
    | inr (v, found) ↦
        rw (found, touch) (ground (arith, lookup-without_snoc l k v j, e.beq_iff k j))
  ]

  pub without-absent : (k : K) (l : List (K × V)) → lookup k l ≡ none → without k l ≡ l
  without-absent k [] h = refl
  without-absent k ((i, v) ∷ l) h = ground (arith, without-absent k l)

  pub Distinct-without : (k : K) (l : List (K × V)) → Distinct l → Distinct (without k l)
  Distinct-without k [] d = tt
  Distinct-without k ((i, v) ∷ l) d = ground (arith, Distinct-without k l, lookup-without k i l)

  pub Distinct-snoc :
      (l : List (K × V)) (k : K) (v : V)
      → Distinct l
      → lookup k l ≡ none
      → Distinct (l ++ (k, v) ∷ [])
  Distinct-snoc [] k v d h = ground arith
  Distinct-snoc ((i, w) ∷ l) k v d h =
      ground
        (arith, Distinct-snoc l k v, lookup-snoc l k v i, beq_self k, e.beq_iff i k, e.beq_iff k i)

  pub Distinct-touch : (k : K) (l : List (K × V)) → Distinct l → Distinct (touch k l)
  Distinct-touch k l d = elim (Option-cases (lookup k l)) [
    | inl absent ↦ rw (absent, touch) d
    | inr (v, found) ↦
        rw (found, touch)
          (Distinct-snoc (without k l) k v (Distinct-without k l d)
            (ground (arith, lookup-without k k l, beq_self k)))
  ]

  pub lookup-drop_first :
      (k : K) (v : V) (l : List (K × V)) (j : K)
      → Distinct ((k, v) ∷ l)
      → lookup j l ≡ (if k == j then none else lookup j ((k, v) ∷ l))
  lookup-drop_first k v l j d = ground (arith, e.beq_iff k j)

  -- The first entry of a list with distinct keys, and the list without it.
  pub lookup-head : (l : List (K × V)) (k : K) (v : V) → head l ≡ some (k, v) → lookup k l ≡ some v
  lookup-head [] k v h = cc
  lookup-head ((i, w) ∷ l) k v h = ground (arith, e.beq_iff i k)

  pub lookup-drop_head :
      (l : List (K × V)) (k : K) (v : V) (j : K)
      → head l ≡ some (k, v)
      → Distinct l
      → lookup j (drop_first l) ≡ (if k == j then none else lookup j l)
  lookup-drop_head [] k v j h d = cc
  lookup-drop_head ((i, w) ∷ l) k v j h d =
      ground (arith, lookup-drop_first i w l j, e.beq_iff i k, e.beq_iff k j, e.beq_iff i j)

  -- Where a lookup succeeds there is a first entry.
  pub head_of_lookup :
      (l : List (K × V)) (j : K) → lookup j l ≢ none → (k : K) × (v : V) × (head l ≡ some (k, v))
  head_of_lookup [] j h = absurd (h refl)
  head_of_lookup ((i, w) ∷ l) j h = (i, w, refl)

  pub Distinct-drop_first : (l : List (K × V)) → Distinct l → Distinct (drop_first l)
  Distinct-drop_first [] d = tt
  Distinct-drop_first ((k, v) ∷ l) d = d.1

  pub Distinct-replaced :
      (k : K) (v : V) (l : List (K × V)) → Distinct l → Distinct (without k l ++ (k, v) ∷ [])
  Distinct-replaced k v l d =
      Distinct-snoc (without k l) k v (Distinct-without k l d)
        (lookup-without k k l ∙ rw (beq_self k))
