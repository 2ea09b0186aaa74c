-- ===== src/UdpgwServer/Sessions.antt =====
-- bin/udpgw_server.rs: the steps that leave the generations of the connections as they are.
use tun2proxy.UdpgwServer.Effects.{Effect, Stepped, kept, removed, forgot, stored, unchanged, moved}
use tun2proxy.UdpgwServer.Tasks.{Server, store_last_act}
use tun2proxy.UdpgwServer.{
  ClientSessions, Relay, remove_session, open_session, forget_own, is_own, Phase,
}
use tun2proxy.UdpBypass.{addr_eq}
use tun2proxy.Maps.Assoc.{lookup}
use tun2proxy.Socks.{Address}
use tun2proxy.Proxy.{SocketAddr}
use tun2proxy.Prelude.{
  refl, true, false, none, some, inl, inr, ◌≡◌, arith, Option, ℕ, Bool, nat_eq, Bool-cases,
  Option-cases, bytes_eq,
}

-- The generations and the counter stay as they are.
abbrev pub SameGenerations : ClientSessions → ClientSessions → Type 0
SameGenerations st st' =
    (st'.generations ≡ st.generations) × (st'.next_generation ≡ st.next_generation)

pub remove_session-SameGenerations :
    (conn_id : ℕ) (st : ClientSessions) → SameGenerations st (remove_session conn_id st)
unfolding remove_session
remove_session-SameGenerations conn_id st = elim (Option-cases (lookup conn_id st.sessions)) [
  | inl e ↦ rw (e, remove_session) (refl, refl)
  | inr (s, e) ↦ rw (e, remove_session) (refl, refl)
]

pub forget_own-SameGenerations :
    (conn_id g : ℕ) (st : ClientSessions) → SameGenerations st (forget_own conn_id g st)
unfolding forget_own
forget_own-SameGenerations conn_id g st = elim (Bool-cases (is_own conn_id g st)) [
  | inl e ↦ rw (e, forget_own) (refl, refl)
  | inr e ↦ rw (e, forget_own) (refl, refl)
]

store_last_act-SameGenerations :
    (now conn_id g : ℕ) (st : ClientSessions) → SameGenerations st (store_last_act now conn_id g st)
unfolding store_last_act
store_last_act-SameGenerations now conn_id g st = ground arith

-- All that a relay does.
pub Effect-SameGenerations :
    (conn_id g : ℕ) (st : ClientSessions) (out : ClientSessions × Phase)
    → Effect conn_id g st out
    → SameGenerations st out.0
Effect-SameGenerations conn_id g st _ (kept phase) = (refl, refl)
Effect-SameGenerations conn_id g st _ (removed phase) = remove_session-SameGenerations conn_id st
Effect-SameGenerations conn_id g st _ forgot = forget_own-SameGenerations conn_id g st
Effect-SameGenerations conn_id g st _ (stored now phase) =
    store_last_act-SameGenerations now conn_id g st

pub Stepped-SameGenerations :
    (g : ℕ) (r : Relay) (s s' : Server) → Stepped g r s s' → SameGenerations s.state s'.state
Stepped-SameGenerations g r s s' (unchanged e) = rw e (refl, refl)
Stepped-SameGenerations g r s s' (moved st phase effect on e rs rd) =
    rw e (Effect-SameGenerations r.conn_id g s.state (st, phase) effect)

pub open_session-SameGenerations :
    (now : ℕ) (dst : Option SocketAddr) (bound is_sent : Bool) (conn_id g : ℕ) (req : Address)
    (st : ClientSessions)
    → SameGenerations st (open_session now dst bound is_sent conn_id g req st).0
unfolding open_session
open_session-SameGenerations now none bound is_sent conn_id g req st = (refl, refl)
open_session-SameGenerations now (some dst) false is_sent conn_id g req st = (refl, refl)
open_session-SameGenerations now (some dst) true true conn_id g req st = (refl, refl)
open_session-SameGenerations now (some dst) true false conn_id g req st =
    forget_own-SameGenerations conn_id g _
