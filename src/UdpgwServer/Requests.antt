-- ===== src/UdpgwServer/Requests.antt =====
-- bin/udpgw_server.rs: the reader's steps keep the sessions current and the relays in charge.
use tun2proxy.UdpgwServer.Reading.{
  put-Shrinks, Shrinks-IsCurrent, replace_generation-IsCurrent, close_session-IsCurrent,
  replace_generation-replaced,
}
use tun2proxy.UdpgwServer.Current.{
  IsCurrent, Owned, replace_generation-Owned, close_session-Owned, put-Owned,
}
use tun2proxy.UdpgwServer.Tasks.{dispatch}
use tun2proxy.UdpgwServer.{
  UdpGwArgs, ClientSessions, Session, Reader, Relay, awaiting, resolving, replying,
  replace_generation, forget_own, put, used_again, process_udp, open_session, reusable, address_eq,
  failed,
}
use tun2proxy.Maps.Assoc.{lookup}
use tun2proxy.Udpgw.{AddressCodec, Packet, keepalive_flag, close_flag, data_flag}
use tun2proxy.Socks.{Address}
use tun2proxy.Proxy.{SocketAddr}
use tun2proxy.Prelude.{
  refl, true, false, none, some, inl, inr, ◌≡◌, arith, Option, ℕ, Bool, eqb, ltb, length, nat_eq,
  not, Bool-cases, Option-cases, if◌then◌else◌, ◌==◌, ◌∙◌,
}

-- A reader that waits for the resolver holds the connection's generation, and there is no session.
abbrev pub Waits : ClientSessions → Reader → Type 0
Waits st awaiting = Unit
Waits st (replying item) = Unit
Waits st (resolving c g a bs) = (lookup c st.generations ≡ some g) × (lookup c st.sessions ≡ none)

-- What a request does.
pub record Handled (st st' : ClientSessions) (reader : Reader) : Type 0 where
  pub current : IsCurrent st → IsCurrent st'
  pub owned : (c g : ℕ) → Owned st c g → Owned st' c g
  pub waits : Waits st' reader

same-Handled : (st : ClientSessions) (reader : Reader) → Waits st reader → Handled st st reader
same-Handled st reader w = record { current = λ h. h; owned = λ c g o. o; waits = w }

replaced-Handled :
    (d : ℕ) (st : ClientSessions) (reader : Reader)
    → Waits (replace_generation d st).0 reader
    → Handled st (replace_generation d st).0 reader
replaced-Handled d st reader w = record {
  current = replace_generation-IsCurrent d st;
  owned = λ c g. replace_generation-Owned d c g st;
  waits = w;
}

reusable_of :
    (d : ℕ) (a : Address) (st : ClientSessions) (x : Session)
    → reusable d a st ≡ some x
    → lookup d st.sessions ≡ some x
unfolding reusable
reusable_of d a st x h = elim (Option-cases (lookup d st.sessions)) [
  | inl e ↦ ground (arith, (rw (e, reusable) at h))
  | inr (y, e) ↦ elim (Bool-cases (y.req_addr == a)) [
    | inl f ↦ e ∙ rw (e, f, reusable) at h
    | inr f ↦ ground (arith, (rw (e, f, reusable) at h))
  ]
]

Waits-reuse :
    (is_sent : Bool) (st : ClientSessions) (c g : ℕ)
    → Waits st (if is_sent then awaiting else failed c g)
Waits-reuse true st c g = tt
Waits-reuse false st c g = tt

process_udp-Handled :
    (mtu now : ℕ) (is_sent : Bool) (packet : Packet) (st : ClientSessions)
    → Handled st (process_udp mtu now is_sent packet st).0 (process_udp mtu now is_sent packet st).1
unfolding process_udp
process_udp-Handled mtu now is_sent packet st =
    let d = packet.header.conn_id in
    elim (Option-cases packet.address) [
      | inl e ↦ rw (e, process_udp) (replaced-Handled d st _ tt)
      | inr (req, e) ↦ elim (Bool-cases (ltb mtu (length packet.payload))) [
        | inl long ↦ rw (e, long, process_udp) (replaced-Handled d st _ tt)
        | inr fits ↦ elim (Option-cases (reusable d req st)) [
          | inl other ↦
              rw (e, fits, other, process_udp)
                (replaced-Handled d st (resolving d _ req packet.payload)
                  (replace_generation-replaced d st))
          | inr (x, again) ↦
              let at = reusable_of d req st x again in
              let st' : ClientSessions = record st {
                sessions = put d (used_again now x) st.sessions;
              } in
              rw (e, fits, again, process_udp)
                (record {
                  current =
                      Shrinks-IsCurrent st st' (put-Shrinks d x (used_again now x) st at refl);
                  owned = λ c g. put-Owned d c g x (used_again now x) st at refl;
                  waits = Waits-reuse is_sent st' d x.generation;
                })
        ]
      ]
    ]

module _ (C : AddressCodec) (args : UdpGwArgs) where
  pub dispatch-Handled :
      (now : ℕ) (is_sent : Bool) (packet : Packet) (st : ClientSessions)
      → Handled st
          (dispatch C args now is_sent packet st).0
          (dispatch C args now is_sent packet st).1
  unfolding dispatch
  dispatch-Handled now is_sent packet st =
      let d = packet.header.conn_id in
      elim (Bool-cases (eqb packet.header.flags keepalive_flag)) [
        | inl e ↦ rw (e, dispatch) (same-Handled st _ tt)
        | inr e ↦ elim (Bool-cases (eqb packet.header.flags close_flag)) [
          | inl f ↦
              rw (e, f, dispatch)
                (record {
                  current = close_session-IsCurrent d st;
                  owned = λ c g. close_session-Owned d c g st;
                  waits = tt;
                })
          | inr f ↦ elim (Bool-cases (not (eqb packet.header.flags data_flag))) [
            | inl odd ↦ rw (e, f, odd, dispatch) (replaced-Handled d st _ tt)
            | inr plain ↦
                rw (e, f, plain, dispatch) (process_udp-Handled args.udp_mtu now is_sent packet st)
          ]
        ]
      ]

-- What becomes of a new session: nothing changed, or the session stands, with its relay.
pub data Opened (st : ClientSessions) (d g : ℕ)
    : ClientSessions × Reader × Option Relay → Type 0 where
  refused : (reader : Reader) → Waits st reader → Opened st d g (st, reader, none)
  dropped :
      (x : Session) (reader : Reader)
      → x.generation ≡ g
      → Waits st reader
      → Opened st d g (forget_own d g (record st { sessions = put d x st.sessions }), reader, none)
  opened :
      (x : Session) (r : Relay)
      → x.generation ≡ g
      → r.conn_id ≡ d
      → Opened st d g (record st { sessions = put d x st.sessions }, awaiting, some r)

pub open_session-Opened :
    (now : ℕ) (dst : Option SocketAddr) (bound is_sent : Bool) (d g : ℕ) (req : Address)
    (st : ClientSessions)
    → Opened st d g (open_session now dst bound is_sent d g req st)
unfolding open_session
open_session-Opened now none bound is_sent d g req st = refused _ tt
open_session-Opened now (some dst) false is_sent d g req st = refused _ tt
open_session-Opened now (some dst) true true d g req st = opened _ _ refl refl
open_session-Opened now (some dst) true false d g req st = dropped _ _ refl tt
