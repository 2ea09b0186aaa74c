-- ===== src/UdpgwServer/Reading.antt =====
-- bin/udpgw_server.rs: what the reader's steps do to the sessions in the map.
use tun2proxy.UdpgwServer.Current.{IsCurrent}
use tun2proxy.UdpgwServer.Effects.{Effect, kept, removed, forgot, stored}
use tun2proxy.UdpgwServer.Sessions.{SameGenerations, remove_session-SameGenerations}
use tun2proxy.UdpgwServer.Tasks.{store_last_act}
use tun2proxy.UdpgwServer.{
  ClientSessions, Session, Phase, remove_session, replace_generation, close_session, forget_own,
  put, is_own, address_eq,
}
use tun2proxy.Maps.Assoc.{lookup, without, lookup-without, lookup-without_snoc, without-absent}
use tun2proxy.Prelude.{
  refl, false, none, some, inl, inr, ◌+◌, ◌%◌, ◌^◌, ◌≡◌, arith, ℕ, eqb, List, nat_eq, Bool-cases,
  Option-cases, sym, ◌∙◌, ap, beq_self,
}

remove_session-without :
    (d : ℕ) (st : ClientSessions) → (remove_session d st).sessions ≡ without d st.sessions
unfolding remove_session
remove_session-without d st = elim (Option-cases (lookup d st.sessions)) [
  | inl e ↦ rw (e, remove_session) (sym (without-absent d st.sessions e))
  | inr (old, e) ↦ rw (e, remove_session) refl
]

-- The first state's sessions, or some of them, with the same generations.
pub record Shrinks (st st' : ClientSessions) : Type 0 where
  pub same : SameGenerations st st'
  pub from :
      (c : ℕ) (y : Session)
      → lookup c st'.sessions ≡ some y
      → (x : Session) × (lookup c st.sessions ≡ some x) × (y.generation ≡ x.generation)

without-from :
    (d c : ℕ) (ss : List (ℕ × Session)) (y : Session)
    → lookup c (without d ss) ≡ some y
    → (lookup c ss ≡ some y) × (eqb d c ≡ false)
without-from d c ss y found =
    let at = sym (lookup-without d c ss) ∙ found in
    elim (Bool-cases (eqb d c)) [ inl e ↦ ground (arith, (rw e at at)) | inr e ↦ (rw e at at, e) ]

put-from :
    (d c : ℕ) (x y z : Session) (ss : List (ℕ × Session))
    → lookup d ss ≡ some x
    → y.generation ≡ x.generation
    → lookup c (put d y ss) ≡ some z
    → (w : Session) × (lookup c ss ≡ some w) × (z.generation ≡ w.generation)
put-from d c x y z ss e same found =
    let at = sym (lookup-without_snoc ss d y c) ∙ found in
    elim (Bool-cases (eqb d c)) [
      | inl f ↦ (x, ground (arith, e, f), ground (arith, same, (rw f at at)))
      | inr f ↦ (z, rw f at at, refl)
    ]

same-Shrinks : (st : ClientSessions) → Shrinks st st
same-Shrinks st = record { same = (refl, refl); from = λ c y e. (y, e, refl) }

remove_session-Shrinks : (d : ℕ) (st : ClientSessions) → Shrinks st (remove_session d st)
remove_session-Shrinks d st = record {
  same = remove_session-SameGenerations d st;
  from = λ c y found.
      let at = ap (lookup c) (sym (remove_session-without d st)) ∙ found in
      (y, (without-from d c st.sessions y at).0, refl);
}

forget_own-Shrinks : (d h : ℕ) (st : ClientSessions) → Shrinks st (forget_own d h st)
unfolding forget_own
forget_own-Shrinks d h st = elim (Bool-cases (is_own d h st)) [
  | inr e ↦ rw (e, forget_own) (same-Shrinks st)
  | inl e ↦
      rw (e, forget_own)
        (record {
          same = (refl, refl);
          from = λ c y found. (y, (without-from d c st.sessions y found).0, refl);
        })
]

pub put-Shrinks :
    (d : ℕ) (x y : Session) (st : ClientSessions)
    → lookup d st.sessions ≡ some x
    → y.generation ≡ x.generation
    → Shrinks st (record st { sessions = put d y st.sessions })
put-Shrinks d x y st e same = record {
  same = (refl, refl);
  from = λ c z found. put-from d c x y z st.sessions e same found;
}

store_last_act-Shrinks :
    (now d h : ℕ) (st : ClientSessions) → Shrinks st (store_last_act now d h st)
unfolding store_last_act
store_last_act-Shrinks now d h st = elim (Option-cases (lookup d st.sessions)) [
  | inl e ↦ rw (e, store_last_act) (same-Shrinks st)
  | inr (x, e) ↦ elim (Bool-cases (eqb x.generation h)) [
    | inl f ↦ rw (e, f, store_last_act) (put-Shrinks d x _ st e refl)
    | inr f ↦ rw (e, f, store_last_act) (same-Shrinks st)
  ]
]

pub Effect-Shrinks :
    (d g : ℕ) (st : ClientSessions) (out : ClientSessions × Phase)
    → Effect d g st out
    → Shrinks st out.0
Effect-Shrinks d g st _ (kept phase) = same-Shrinks st
Effect-Shrinks d g st _ (removed phase) = remove_session-Shrinks d st
Effect-Shrinks d g st _ forgot = forget_own-Shrinks d g st
Effect-Shrinks d g st _ (stored now phase) = store_last_act-Shrinks now d g st

pub Shrinks-IsCurrent : (st st' : ClientSessions) → Shrinks st st' → IsCurrent st → IsCurrent st'
unfolding IsCurrent
Shrinks-IsCurrent st st' shrinks current c y found =
    let (x, at, same) = shrinks.from c y found in
    ap (lookup c) shrinks.same.0 ∙ current c x at ∙ ap some (sym same)

pub Shrinks-absent :
    (st st' : ClientSessions) (c : ℕ)
    → Shrinks st st'
    → lookup c st.sessions ≡ none
    → lookup c st'.sessions ≡ none
Shrinks-absent st st' c shrinks absent = elim (Option-cases (lookup c st'.sessions)) [
  | inl e ↦ e
  | inr (y, e) ↦ let (x, at, same) = shrinks.from c y e in ground (arith, at, absent)
]

-- The generation of one connection changes, and its session is removed.
replaced-IsCurrent :
    (d : ℕ) (st st' : ClientSessions)
    → st'.sessions ≡ without d st.sessions
    → ((c : ℕ) → eqb d c ≡ false → lookup c st'.generations ≡ lookup c st.generations)
    → IsCurrent st
    → IsCurrent st'
unfolding IsCurrent
replaced-IsCurrent d st st' left same current c x found =
    let (at, other) = without-from d c st.sessions x (ap (lookup c) (sym left) ∙ found) in
    same c other ∙ current c x at

pub replace_generation-IsCurrent :
    (d : ℕ) (st : ClientSessions) → IsCurrent st → IsCurrent (replace_generation d st).0
unfolding replace_generation
replace_generation-IsCurrent d st =
    let st1 : ClientSessions = record st {
      next_generation = (st.next_generation + 1) % 2 ^ 64;
      generations = put d st.next_generation st.generations;
    } in
    replaced-IsCurrent d st (remove_session d st1) (remove_session-without d st1) (λ c other.
      ap (lookup c) (remove_session-SameGenerations d st1).0
      ∙ lookup-without_snoc st.generations d st.next_generation c
      ∙ rw other refl)

pub close_session-IsCurrent :
    (d : ℕ) (st : ClientSessions) → IsCurrent st → IsCurrent (close_session d st).0
unfolding close_session
close_session-IsCurrent d st =
    let st1 : ClientSessions = record st { generations = without d st.generations } in
    replaced-IsCurrent d st (remove_session d st1) (remove_session-without d st1) (λ c other.
      ap (lookup c) (remove_session-SameGenerations d st1).0
      ∙ lookup-without d c st.generations
      ∙ rw other refl)

-- The new generation, and no session.
pub replace_generation-replaced :
    (d : ℕ) (st : ClientSessions)
    → (lookup d (replace_generation d st).0.generations ≡ some (replace_generation d st).1)
      × (lookup d (replace_generation d st).0.sessions ≡ none)
unfolding replace_generation
replace_generation-replaced d st =
    let st1 : ClientSessions = record st {
      next_generation = (st.next_generation + 1) % 2 ^ 64;
      generations = put d st.next_generation st.generations;
    } in
    (
      ap (lookup d) (remove_session-SameGenerations d st1).0
          ∙ lookup-without_snoc st.generations d st.next_generation d
          ∙ rw (beq_self d) refl,
      ap (lookup d) (remove_session-without d st1)
          ∙ lookup-without d d st.sessions
          ∙ rw (beq_self d) refl,
    )
