-- ===== src/UdpgwServer/Current.antt =====
-- bin/udpgw_server.rs: which sessions are in the map, and which relay tasks own one, for the changes
-- of the shared state.
use tun2proxy.UdpgwServer.Effects.{Effect, kept, removed, forgot, stored, IsRunning}
use tun2proxy.UdpgwServer.Tasks.{store_last_act}
use tun2proxy.UdpgwServer.{
  ClientSessions, Session, Phase, remove_session, replace_generation, close_session, forget_own,
  put, is_own, is_cancelled,
}
use tun2proxy.Maps.Assoc.{lookup, without, lookup-without, lookup-without_snoc}
use tun2proxy.Prelude.{
  refl, true, some, inl, inr, ◌∷◌, ◌+◌, ◌%◌, ◌^◌, ◌≡◌, ◌≢◌, ◌⊎◌, arith, ℕ, eqb, nat_eq, Bool-cases,
  Option-cases, ◌∙◌,
}

-- Every session in the map has the current generation of its connection.
unfoldable pub IsCurrent : ClientSessions → Type 0
IsCurrent st =
    (c : ℕ) (x : Session)
    → lookup c st.sessions ≡ some x
    → lookup c st.generations ≡ some x.generation

-- The token of the generation is cancelled, or the session of the connection is of the generation.
abbrev pub Owned : ClientSessions → ℕ → ℕ → Type 0
Owned st c g = (is_cancelled st g ≡ true) ⊎ (is_own c g st ≡ true)

pub is_own_of :
    (c g : ℕ) (st : ClientSessions)
    → is_own c g st ≡ true
    → (x : Session) × (lookup c st.sessions ≡ some x) × (x.generation ≡ g)
is_own_of c g st h = elim (Option-cases (lookup c st.sessions)) [
  | inl e ↦ ground (arith, e, (rw (e, is_own) at h))
  | inr (x, e) ↦ (x, e, ground (arith, (rw (e, is_own) at h)))
]

pub of_is_own :
    (c g : ℕ) (st : ClientSessions) (x : Session)
    → lookup c st.sessions ≡ some x
    → x.generation ≡ g
    → is_own c g st ≡ true
of_is_own c g st x e same = rw (e, is_own) (ground (arith, same))

remove_session-Owned :
    (d c g : ℕ) (st : ClientSessions) → Owned st c g → Owned (remove_session d st) c g
unfolding remove_session
remove_session-Owned d c g st o = elim (Option-cases (lookup d st.sessions)) [
  | inl e ↦ rw (e, remove_session) o
  | inr (old, e) ↦
      let st' : ClientSessions = record st {
        sessions = without d st.sessions;
        cancelled = old.generation ∷ st.cancelled;
      } in
      rw (e, remove_session)
        (elim o [
          | inl stopped ↦ inl (ground (arith, stopped))
          | inr own ↦
              let (x, at, same) = is_own_of c g st own in
              elim (Bool-cases (eqb d c)) [
                | inl f ↦ inl (ground (arith, f, e, at, same))
                | inr f ↦ inr (of_is_own c g st' x (lookup-without d c st.sessions ∙ rw f at) same)
              ]
        ])
]

pub put-Owned :
    (d c g : ℕ) (x y : Session) (st : ClientSessions)
    → lookup d st.sessions ≡ some x
    → y.generation ≡ x.generation
    → Owned st c g
    → Owned (record st { sessions = put d y st.sessions }) c g
put-Owned d c g x y st e same (inl stopped) = inl stopped
put-Owned d c g x y st e same (inr own) =
    let (z, at, of_g) = is_own_of c g st own in
    let st' : ClientSessions = record st { sessions = put d y st.sessions } in
    let there = lookup-without_snoc st.sessions d y c in
    inr (elim (Bool-cases (eqb d c)) [
      | inl f ↦ of_is_own c g st' y (there ∙ rw f refl) (ground (arith, f, e, at, same, of_g))
      | inr f ↦ of_is_own c g st' z (there ∙ rw f at) of_g
    ])

store_last_act-Owned :
    (now d h c g : ℕ) (st : ClientSessions) → Owned st c g → Owned (store_last_act now d h st) c g
unfolding store_last_act
store_last_act-Owned now d h c g st o = elim (Option-cases (lookup d st.sessions)) [
  | inl e ↦ rw (e, store_last_act) o
  | inr (x, e) ↦ elim (Bool-cases (eqb x.generation h)) [
    | inl f ↦ rw (e, f, store_last_act) (put-Owned d c g x _ st e refl o)
    | inr f ↦ rw (e, f, store_last_act) o
  ]
]

-- What a session of another generation than the one that is forgotten keeps.
forget_own-Owned :
    (d h c g : ℕ) (st : ClientSessions) → h ≢ g → Owned st c g → Owned (forget_own d h st) c g
unfolding forget_own
forget_own-Owned d h c g st differ o = elim (Bool-cases (is_own d h st)) [
  | inr e ↦ rw (e, forget_own) o
  | inl e ↦
      let st' : ClientSessions = record st { sessions = without d st.sessions } in
      rw (e, forget_own)
        (elim o [
          | inl stopped ↦ inl stopped
          | inr own ↦
              let (x, at, of_g) = is_own_of c g st own in
              let (y, at', of_h) = is_own_of d h st e in
              inr (elim (Bool-cases (eqb d c)) [
                | inl f ↦ absurd (differ (ground (arith, f, at, at', of_g, of_h)))
                | inr f ↦ of_is_own c g st' x (lookup-without d c st.sessions ∙ rw f at) of_g
              ])
        ])
]

-- A step of another task.
pub Effect-Owned :
    (d h c g : ℕ) (st : ClientSessions) (out : ClientSessions × Phase)
    → h ≢ g
    → Effect d h st out
    → Owned st c g
    → Owned out.0 c g
Effect-Owned d h c g st _ differ (kept phase) o = o
Effect-Owned d h c g st _ differ (removed phase) o = remove_session-Owned d c g st o
Effect-Owned d h c g st _ differ forgot o = forget_own-Owned d h c g st differ o
Effect-Owned d h c g st _ differ (stored now phase) o = store_last_act-Owned now d h c g st o

-- A step of the task itself, which still runs.
pub Effect-Owned_self :
    (c g : ℕ) (st : ClientSessions) (out : ClientSessions × Phase)
    → Effect c g st out
    → IsRunning out.1
    → Owned st c g
    → Owned out.0 c g
Effect-Owned_self c g st _ (kept phase) on o = o
Effect-Owned_self c g st _ (removed phase) on o = remove_session-Owned c c g st o
Effect-Owned_self c g st _ forgot on o = absurd on
Effect-Owned_self c g st _ (stored now phase) on o = store_last_act-Owned now c g c g st o

pub replace_generation-Owned :
    (d c g : ℕ) (st : ClientSessions) → Owned st c g → Owned (replace_generation d st).0 c g
unfolding replace_generation
replace_generation-Owned d c g st o =
    remove_session-Owned d c g
      (record st {
        next_generation = (st.next_generation + 1) % 2 ^ 64;
        generations = put d st.next_generation st.generations;
      })
      o

pub close_session-Owned :
    (d c g : ℕ) (st : ClientSessions) → Owned st c g → Owned (close_session d st).0 c g
unfolding close_session
close_session-Owned d c g st o =
    remove_session-Owned d c g (record st { generations = without d st.generations }) o
