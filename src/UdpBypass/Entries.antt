-- ===== src/UdpBypass/Entries.antt =====
-- udp_bypass.rs: what the steps on the map of endpoints do to its entries.
use tun2proxy.UdpBypass.{Entries, Endpoint, kept, closed_by, addr_eq, oldest, is_empty}
use tun2proxy.Maps.Assoc.{lookup, without, Distinct}
use tun2proxy.Proxy.{SocketAddr}
use tun2proxy.Prelude.{
  refl, true, none, some, inl, inr, [], ◌∷◌, ◌≡◌, ◌≤◌, ◌<◌, ◌++◌, Eq, arith, ◌∙◌, ℕ, List, length,
  Bool, Option, Bool-cases, if◌then◌else◌, Option-cases, leb,
}

-- An endpoint that left the pool: flows that hold it neither send nor receive.
abbrev pub IsDead : {Owner : Type 0} → Endpoint Owner → Type 0
IsDead e = (e.closed ≡ true) × (e.routes ≡ [])

abbrev pub AreDead : {Owner : Type 0} → List (Endpoint Owner) → Type 0
AreDead [] = Unit
AreDead (e ∷ es) = IsDead e × AreDead es

abbrev pub when : {A : Type 0} → (A → Bool) → Option A → Option A
when p none = none
when p (some a) = if p a then some a else none

module _ {Owner : Type 0} ⦃same : Eq Owner⦄ where
  pub AreDead-append :
      (gone bs : List (Endpoint Owner)) → AreDead gone → AreDead bs → AreDead (gone ++ bs)
  AreDead-append [] bs p q = q
  AreDead-append (a ∷ l) bs (d, p) q = (d, AreDead-append l bs p q)

  pub AreDead-closed_by :
      (keep : SocketAddr → Endpoint Owner → Bool) (es : Entries Owner) → AreDead (closed_by keep es)
  unfolding closed_by
  AreDead-closed_by keep [] = tt
  AreDead-closed_by keep ((s, e) ∷ es) = ground (arith, AreDead-closed_by keep es)

  pub lookup-kept-none :
      (keep : SocketAddr → Endpoint Owner → Bool) (s : SocketAddr) (es : Entries Owner)
      → lookup s es ≡ none
      → lookup s (kept keep es) ≡ none
  unfolding kept
  lookup-kept-none keep s [] h = refl
  lookup-kept-none keep s ((t, e) ∷ es) h = ground (arith, lookup-kept-none keep s es)

  pub lookup-kept :
      (keep : SocketAddr → Endpoint Owner → Bool) (s : SocketAddr) (es : Entries Owner)
      → Distinct es
      → lookup s (kept keep es) ≡ when (keep s) (lookup s es)
  unfolding kept
  lookup-kept keep s [] d = refl
  lookup-kept keep s ((t, e) ∷ es) (absent, d) =
      ground (arith, lookup-kept keep s es d, lookup-kept-none keep s es, addr_eq.beq_iff t s)

  pub Distinct-kept :
      (keep : SocketAddr → Endpoint Owner → Bool) (es : Entries Owner)
      → Distinct es
      → Distinct (kept keep es)
  unfolding kept
  Distinct-kept keep [] d = tt
  Distinct-kept keep ((t, e) ∷ es) (absent, d) =
      ground (arith, Distinct-kept keep es d, lookup-kept-none keep t es absent)

  pub length-kept :
      (keep : SocketAddr → Endpoint Owner → Bool) (es : Entries Owner)
      → length (kept keep es) ≤ length es
  unfolding kept
  length-kept keep [] = omega arith
  length-kept keep ((t, e) ∷ es) = ground (arith, length-kept keep es)

  pub length-without : (s : SocketAddr) (es : Entries Owner) → length (without s es) ≤ length es
  length-without s [] = omega arith
  length-without s ((t, e) ∷ es) = ground (arith, length-without s es)

  pub length-without_found :
      (s : SocketAddr) (es : Entries Owner) (e : Endpoint Owner)
      → lookup s es ≡ some e
      → length (without s es) < length es
  length-without_found s [] e h = cc
  length-without_found s ((t, x) ∷ es) e h =
      ground (arith, length-without_found s es e, length-without s es)

  -- The endpoint that is taken to make room has no routes.
  pub oldest_idle :
      (es : Entries Owner) (s : SocketAddr) (activity : ℕ)
      → Distinct es
      → oldest es ≡ some (s, activity)
      → (e : Endpoint Owner) × (lookup s es ≡ some e) × (is_empty e.routes ≡ true)
  unfolding oldest
  oldest_idle [] s activity d h = cc
  oldest_idle ((t, e) ∷ es) s activity (absent, d) h =
      let here : is_empty e.routes ≡ true
          → t ≡ s
          → (x : Endpoint Owner) × (lookup s ((t, e) ∷ es) ≡ some x) × (is_empty x.routes ≡ true) =
        λ idle same_source. (e, rw ((addr_eq.beq_iff t s).1 same_source) refl, idle) in
      let later : oldest es ≡ some (s, activity)
          → (x : Endpoint Owner) × (lookup s ((t, e) ∷ es) ≡ some x) × (is_empty x.routes ≡ true) =
        λ found.
          let (x, at, idle) = oldest_idle es s activity d found in
          (x, ground (arith, at, absent, addr_eq.beq_iff t s), idle) in
      elim (Bool-cases (is_empty e.routes)) [
        | inr busy ↦ later (rw (busy, oldest) at h)
        | inl idle ↦ elim (Option-cases (oldest es)) [
          | inl f ↦ here idle (ground (arith, (rw (idle, f, oldest) at h)))
          | inr ((s', a'), f) ↦ elim (Bool-cases (leb e.last_activity a')) [
            | inl older ↦ here idle (ground (arith, (rw (idle, f, older, oldest) at h)))
            | inr newer ↦ later (f ∙ (rw (idle, f, newer, oldest) at h))
          ]
        ]
      ]
