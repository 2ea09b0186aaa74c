-- ===== src/UdpgwServer/Effects.antt =====
-- bin/udpgw_server.rs: what a relay task does to the shared state, in one of four ways.
use tun2proxy.UdpgwServer.Tasks.{
  Server, RelayEvent, relay_step, datagram, silence, broken_socket, offer, clean_up, listen,
  on_silence, on_stranger, store_last_act, end_relay, idle_for, idle_ms, is_expired,
}
use tun2proxy.UdpgwServer.{
  UdpGwArgs, ClientSessions, OutboundItem, Relay, remove_session, forget_own, put, is_own,
  is_cancelled, listening, offering, leaving, ended, Phase, outbound_capacity,
}
use tun2proxy.UdpBypass.{addr_eq}
use tun2proxy.Udpgw.{AddressCodec}
use tun2proxy.Prelude.{
  refl, inl, inr, ◌≡◌, ℕ, leb, ltb, length, nat_eq, not, Bool-cases, Option-cases, ◌==◌, bytes_eq,
}

-- The task runs its loop.
abbrev pub IsRunning : Phase → Type 0
IsRunning listening = Unit
IsRunning (offering item) = Unit
IsRunning leaving = ⊥
IsRunning ended = ⊥

-- What the task of a connection's generation does to the shared state, and the phase it is in then.
pub data Effect (conn_id g : ℕ) (st : ClientSessions) : ClientSessions × Phase → Type 0 where
  kept : (phase : Phase) → Effect conn_id g st (st, phase)
  removed : (phase : Phase) → Effect conn_id g st (remove_session conn_id st, phase)
  forgot : Effect conn_id g st (forget_own conn_id g st, leaving)
  stored : (now : ℕ) (phase : Phase) → Effect conn_id g st (store_last_act now conn_id g st, phase)

-- A step of the task, or none.
pub data Stepped (g : ℕ) (r : Relay) (s s' : Server) : Type 0 where
  unchanged : s' ≡ s → Stepped g r s s'
  moved :
      (st : ClientSessions) (phase : Phase)
      → Effect r.conn_id g s.state (st, phase)
      → (IsRunning phase → IsRunning r.phase)
      → s'.state ≡ st
      → s'.relays ≡ put g (record r { phase = phase }) s.relays
      → s'.reader ≡ s.reader
      → Stepped g r s s'

on_silence-Effect :
    (args : UdpGwArgs) (now conn_id g : ℕ) (st : ClientSessions)
    → Effect conn_id g st (on_silence args now conn_id g st)
unfolding on_silence
on_silence-Effect args now conn_id g st = elim (Option-cases (idle_for now conn_id g st)) [
  | inl e ↦ rw (e, on_silence) (kept leaving)
  | inr (idle, e) ↦ elim (Bool-cases (leb (idle_ms args) idle)) [
    | inl long ↦ rw (e, long, on_silence) (removed leaving)
    | inr short ↦ rw (e, short, on_silence) (kept listening)
  ]
]

on_stranger-Effect :
    (args : UdpGwArgs) (now conn_id g : ℕ) (st : ClientSessions)
    → Effect conn_id g st (on_stranger args now conn_id g st)
unfolding on_stranger
on_stranger-Effect args now conn_id g st =
    elim (Bool-cases (is_expired (idle_ms args) (idle_for now conn_id g st))) [
      | inl long ↦ rw (long, on_stranger) forgot
      | inr short ↦ rw (short, on_stranger) (kept listening)
    ]

module _ (C : AddressCodec) (args : UdpGwArgs) where
  listen-Effect :
      (now g : ℕ) (r : Relay) (event : RelayEvent) (st : ClientSessions)
      → Effect r.conn_id g st (listen C args now g r event st)
  unfolding listen
  listen-Effect now g r (datagram source bytes) st = elim (Bool-cases (is_cancelled st g)) [
    | inl e ↦ rw (e, listen) (kept leaving)
    | inr e ↦ elim (Bool-cases (not (source == r.dst))) [
      | inl f ↦ rw (e, f, listen) (on_stranger-Effect args now r.conn_id g st)
      | inr f ↦ rw (e, f, listen) (stored now _)
    ]
  ]
  listen-Effect now g r silence st = elim (Bool-cases (is_cancelled st g)) [
    | inl e ↦ rw (e, listen) (kept leaving)
    | inr e ↦ rw (e, listen) (on_silence-Effect args now r.conn_id g st)
  ]
  listen-Effect now g r broken_socket st = kept leaving
  listen-Effect now g r offer st = kept listening
  listen-Effect now g r clean_up st = kept listening

  offer_item-Stepped :
      (now g : ℕ) (r : Relay) (item : OutboundItem) (s : Server)
      → r.phase ≡ offering item
      → Stepped g r s (relay_step C args now g offer r (offering item) s)
  unfolding relay_step
  offer_item-Stepped now g r item s at =
      let on : IsRunning r.phase = rw at tt in
      elim (Bool-cases (is_cancelled s.state g)) [
        | inl e ↦ rw (e, relay_step) (moved s.state leaving (kept leaving) (λ _. on) refl refl refl)
        | inr e ↦ elim (Bool-cases (not s.is_open)) [
          | inl f ↦
              rw (e, f, relay_step) (moved s.state leaving (kept leaving) (λ _. on) refl refl refl)
          | inr f ↦ elim (Bool-cases (ltb (length s.queue) outbound_capacity)) [
            | inl room ↦
                rw (e, f, room, relay_step)
                  (moved s.state listening (kept listening) (λ _. on) refl refl refl)
            | inr full ↦ rw (e, f, full, relay_step) (unchanged refl)
          ]
        ]
      ]

  end_relay-Stepped :
      (now g : ℕ) (r : Relay) (s : Server)
      → Stepped g r s (relay_step C args now g clean_up r leaving s)
  unfolding relay_step end_relay
  end_relay-Stepped now g r s = elim (Bool-cases (is_own r.conn_id g s.state)) [
    | inl e ↦
        moved _ ended (removed ended) (λ v. absurd v) (rw (e, relay_step, end_relay) refl) refl refl
    | inr e ↦
        moved _ ended (kept ended) (λ v. absurd v) (rw (e, relay_step, end_relay) refl) refl refl
  ]

  pub relay_step-Stepped :
      (now g : ℕ) (event : RelayEvent) (r : Relay) (phase : Phase) (s : Server)
      → r.phase ≡ phase
      → Stepped g r s (relay_step C args now g event r phase s)
  unfolding relay_step
  relay_step-Stepped now g event r listening s at =
      moved _ _ (listen-Effect now g r event s.state) (λ _. rw at tt) refl refl refl
  relay_step-Stepped now g offer r (offering item) s at = offer_item-Stepped now g r item s at
  relay_step-Stepped now g clean_up r leaving s at = end_relay-Stepped now g r s
  relay_step-Stepped now g (datagram source bytes) r (offering item) s at = unchanged refl
  relay_step-Stepped now g silence r (offering item) s at = unchanged refl
  relay_step-Stepped now g broken_socket r (offering item) s at = unchanged refl
  relay_step-Stepped now g clean_up r (offering item) s at = unchanged refl
  relay_step-Stepped now g (datagram source bytes) r leaving s at = unchanged refl
  relay_step-Stepped now g silence r leaving s at = unchanged refl
  relay_step-Stepped now g broken_socket r leaving s at = unchanged refl
  relay_step-Stepped now g offer r leaving s at = unchanged refl
  relay_step-Stepped now g event r ended s at = unchanged refl
