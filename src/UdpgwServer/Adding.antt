-- ===== src/UdpgwServer/Adding.antt =====
-- bin/udpgw_server.rs: a new session in the map, and a new session that is dropped at once.
use tun2proxy.UdpgwServer.Requests.{Waits}
use tun2proxy.UdpgwServer.Current.{IsCurrent, Owned, of_is_own, is_own_of}
use tun2proxy.UdpgwServer.{
  ClientSessions, Session, Reader, awaiting, resolving, replying, forget_own, put, is_own, contains,
}
use tun2proxy.Maps.Assoc.{lookup, lookup-without, lookup-without_snoc}
use tun2proxy.Prelude.{
  refl, true, none, some, inl, inr, ◌≡◌, arith, ℕ, eqb, nat_eq, Bool-cases, if◌then◌else◌, sym, ◌∙◌,
  ap, beq_self,
}

-- A session that is added where there is none.
module _ (st : ClientSessions) (d g : ℕ) (x : Session) (of_g : x.generation ≡ g)
    (at : lookup d st.generations ≡ some g) (absent : lookup d st.sessions ≡ none) where
  abbrev pub added : ClientSessions
  added = record st { sessions = put d x st.sessions }

  added_lookup :
      (c : ℕ) → lookup c added.sessions ≡ (if eqb d c then some x else lookup c st.sessions)
  added_lookup c = lookup-without_snoc st.sessions d x c

  pub added-IsCurrent : IsCurrent st → IsCurrent added
  unfolding IsCurrent
  added-IsCurrent current c y found =
      let there = sym (added_lookup c) ∙ found in
      elim (Bool-cases (eqb d c)) [
        | inl e ↦ ground (arith, at, of_g, e, (rw e at there))
        | inr e ↦ current c y (rw e at there)
      ]

  pub added-Owned : (c h : ℕ) → Owned st c h → Owned added c h
  added-Owned c h (inl stopped) = inl stopped
  added-Owned c h (inr own) =
      let (y, there, of_h) = is_own_of c h st own in
      elim (Bool-cases (eqb d c)) [
        | inl e ↦ ground (arith, absent, there, e)
        | inr e ↦ inr (of_is_own c h added y (added_lookup c ∙ rw e there) of_h)
      ]

  pub added_own : is_own d g added ≡ true
  added_own = of_is_own d g added x (added_lookup d ∙ rw (beq_self d) refl) of_g

  pub dropped_lookup :
      (c : ℕ)
      → lookup c (forget_own d g added).sessions ≡ (if eqb d c then none else lookup c st.sessions)
  unfolding forget_own
  dropped_lookup c =
      rw (added_own, forget_own)
        (lookup-without d c added.sessions ∙ ground (arith, added_lookup c))

  dropped-cancelled : (forget_own d g added).cancelled ≡ st.cancelled
  unfolding forget_own
  dropped-cancelled = rw (added_own, forget_own) refl

  pub dropped-Owned : (c h : ℕ) → Owned st c h → Owned (forget_own d g added) c h
  dropped-Owned c h (inl stopped) = inl (ap (contains h) dropped-cancelled ∙ stopped)
  dropped-Owned c h (inr own) =
      let (y, there, of_h) = is_own_of c h st own in
      elim (Bool-cases (eqb d c)) [
        | inl e ↦ ground (arith, absent, there, e)
        | inr e ↦ inr (of_is_own c h (forget_own d g added) y (dropped_lookup c ∙ rw e there) of_h)
      ]

  pub dropped-Waits : (reader : Reader) → Waits st reader → Waits (forget_own d g added) reader
  unfolding forget_own
  dropped-Waits awaiting w = tt
  dropped-Waits (replying item) w = tt
  dropped-Waits (resolving c h a bs) w =
      (rw (added_own, forget_own) w.0, dropped_lookup c ∙ ground (arith, w))

  pub dropped-IsCurrent : IsCurrent st → IsCurrent (forget_own d g added)
  unfolding IsCurrent forget_own
  dropped-IsCurrent current c y found =
      let there = sym (dropped_lookup c) ∙ found in
      elim (Bool-cases (eqb d c)) [
        | inl e ↦ ground (arith, (rw e at there))
        | inr e ↦ rw (added_own, forget_own) (current c y (rw e at there))
      ]
