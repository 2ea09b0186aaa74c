-- ===== src/UdpgwServer/Superseded.antt =====
-- bin/udpgw_server.rs: what holds after any steps of a client's tasks, and the end of a relay task
-- whose connection has another request.
use tun2proxy.UdpgwServer.Relays.{IsSoundServer}
use tun2proxy.UdpgwServer.Supervised.{step-IsSound}
use tun2proxy.UdpgwServer.Tasks.{
  datagram, silence, broken_socket, offer, clean_up, listen, relay_step, end_relay,
}
use tun2proxy.UdpgwServer.{listening, leaving, ended, Phase}
use tun2proxy.UdpgwServer.Current.{IsCurrent, is_own_of}
use tun2proxy.UdpgwServer.Effects.{IsRunning}
use tun2proxy.UdpgwServer.Schedule.{step, run, connected}
use tun2proxy.UdpgwServer.Tasks.{Event, Server, RelayEvent, relay_event}
use tun2proxy.UdpgwServer.{UdpGwArgs, ClientSessions, Relay, put, is_own, is_cancelled}
use tun2proxy.Maps.Assoc.{lookup, lookup-without_snoc}
use tun2proxy.Udpgw.{AddressCodec}
use tun2proxy.Prelude.{
  refl, true, false, some, inl, inr, [], ◌∷◌, ◌≡◌, ◌≢◌, arith, ℕ, Bool, List, nat_eq, Bool-cases,
  ◌∙◌, ap, beq_self,
}

connected-IsSound : (now next : ℕ) → IsSoundServer (connected now next)
unfolding IsCurrent
connected-IsSound now next = record {
  current = λ c x found. ground (arith, found);
  owned = λ g r found on. ground (arith, found);
  waits = tt;
}

-- What wakes a relay that waits for datagrams.
abbrev pub is_wake : RelayEvent → Bool
is_wake (datagram source bytes) = true
is_wake silence = true
is_wake broken_socket = true
is_wake offer = false
is_wake clean_up = false

-- The relay of another generation than its connection's owns nothing.
superseded-cancelled :
    (s : Server) (g : ℕ) (r : Relay)
    → IsSoundServer s
    → lookup g s.relays ≡ some r
    → IsRunning r.phase
    → lookup r.conn_id s.state.generations ≢ some g
    → (is_cancelled s.state g ≡ true) × (is_own r.conn_id g s.state ≡ false)
unfolding IsCurrent
superseded-cancelled s g r sound found on other =
    let not_own : is_own r.conn_id g s.state ≡ false =
      elim (Bool-cases (is_own r.conn_id g s.state)) [
        | inr e ↦ e
        | inl e ↦
            let (x, at, of_g) = is_own_of r.conn_id g s.state e in
            absurd (other (sound.current r.conn_id x at ∙ ap some of_g))
      ] in
    elim (sound.owned g r found on) [
      | inl stopped ↦ (stopped, not_own)
      | inr own ↦ ground (arith, own, not_own)
    ]

module _ (C : AddressCodec) (args : UdpGwArgs) where
  pub run-IsSound :
      (events : List Event) (s : Server) → IsSoundServer s → IsSoundServer (run C args events s)
  unfolding run
  run-IsSound [] s sound = sound
  run-IsSound (event ∷ events) s sound =
      run-IsSound events (step C args event s) (step-IsSound C args event s sound)

  -- After any steps of a client's tasks every session in the map is of its connection's current
  -- generation, every relay that runs owns its connection's session or has a cancelled token, and
  -- a reader that waits for the resolver holds the current generation.
  pub run-connected-IsSound :
      (now next : ℕ) (events : List Event) → IsSoundServer (run C args events (connected now next))
  run-connected-IsSound now next events =
      run-IsSound events (connected now next) (connected-IsSound now next)

  cancelled_listen :
      (now g : ℕ) (r : Relay) (event : RelayEvent) (st : ClientSessions)
      → is_wake event ≡ true
      → is_cancelled st g ≡ true
      → listen C args now g r event st ≡ (st, leaving)
  unfolding listen
  cancelled_listen now g r (datagram source bytes) st w e = rw (e, listen) refl
  cancelled_listen now g r silence st w e = rw (e, listen) refl
  cancelled_listen now g r broken_socket st w e = refl
  cancelled_listen now g r offer st w e = ground (arith, w)
  cancelled_listen now g r clean_up st w e = ground (arith, w)

  abbrev at_phase : ℕ → Relay → Phase → Server → Server
  at_phase g r phase s = record s { relays = put g (record r { phase = phase }) s.relays }

  lookup-at_phase :
      (g : ℕ) (r : Relay) (phase : Phase) (s : Server)
      → lookup g (at_phase g r phase s).relays ≡ some (record r { phase = phase })
  lookup-at_phase g r phase s =
      lookup-without_snoc s.relays g (record r { phase = phase }) g ∙ rw (beq_self g) refl

  wake-cancelled :
      (s : Server) (g : ℕ) (r : Relay) (event : RelayEvent) (now : ℕ)
      → lookup g s.relays ≡ some r
      → r.phase ≡ listening
      → is_wake event ≡ true
      → is_cancelled s.state g ≡ true
      → step C args (relay_event now g event) s ≡ at_phase g r leaving s
  unfolding step relay_step
  wake-cancelled s g r event now found at wakes stopped =
      rw
        (found, at, step, relay_step, cancelled_listen now g r event s.state wakes stopped, stopped)
        refl

  clean_up-leaving :
      (s : Server) (g : ℕ) (r : Relay) (now : ℕ)
      → lookup g s.relays ≡ some r
      → r.phase ≡ leaving
      → is_own r.conn_id g s.state ≡ false
      → step C args (relay_event now g clean_up) s ≡ at_phase g r ended s
  unfolding step relay_step end_relay
  clean_up-leaving s g r now found at foreign =
      rw (found, at, step, relay_step, foreign, end_relay) refl

  -- A relay that waits while its connection has another generation ends with the next datagram,
  -- silent second or failed read and its clean-up, and leaves the shared state as it was.
  pub superseded_ends :
      (s : Server) (g : ℕ) (r : Relay) (event : RelayEvent) (now later : ℕ)
      → IsSoundServer s
      → lookup g s.relays ≡ some r
      → r.phase ≡ listening
      → is_wake event ≡ true
      → lookup r.conn_id s.state.generations ≢ some g
      → let s' = run C args (relay_event now g event ∷ relay_event later g clean_up ∷ []) s in
        (lookup g s'.relays ≡ some (record r { phase = ended })) × (s'.state ≡ s.state)
  unfolding run
  superseded_ends s g r event now later sound found at wakes other =
      let (stopped, foreign) = superseded-cancelled s g r sound found (rw at tt) other in
      let s1 = at_phase g r leaving s in
      let r1 : Relay = record r { phase = leaving } in
      let e =
        ap (step C args (relay_event later g clean_up))
          (wake-cancelled s g r event now found at wakes stopped)
        ∙ clean_up-leaving s1 g r1 later (lookup-at_phase g r leaving s) refl foreign in
      (ap (λ t. lookup g t.relays) e ∙ lookup-at_phase g r1 ended s1, ap (λ t. t.state) e)
