-- ===== src/Udpgw/Heartbeat.antt =====
-- udpgw.rs: which connections a round of the heartbeat keeps, and the limit of the queue under any
-- interleaving of its callers.
use tun2proxy.Udpgw.Pool.{
  UdpGwClientStream, UdpGwClient, Turn, keep_streams, await_keepalive, update_activity, add_traffic,
}
use tun2proxy.Udpgw.{AddressCodec}
use tun2proxy.Prelude.{
  true, false, none, some, [], ◌∷◌, ◌-◌, ◌≡◌, ◌++◌, ◌≢◌, Bool, ℕ, List, if◌then◌else◌, not, ◌&&◌,
  ltb, Option,
}

module _ (C : AddressCodec) {R W : Type 0} (turn : UdpGwClientStream R W → Turn) where
  abbrev is_idle : ℕ → UdpGwClientStream R W → Bool
  is_idle keepalive_time s = not (ltb ((turn s).looked_at - s.last_activity) keepalive_time)

  abbrev are_both : Option R → Option W → Bool
  are_both none w = false
  are_both (some r) none = false
  are_both (some r) (some w) = true

  -- What becomes of an open connection: it stays as it is, it stays with a new time, or it is dropped.
  abbrev pub kept : ℕ → UdpGwClientStream R W → List (UdpGwClientStream R W)
  kept keepalive_time s =
      if not (is_idle keepalive_time s)
      then s ∷ []
      else if are_both s.reader s.writer
          && ((turn s).is_written && (await_keepalive (turn s).received).0)
      then update_activity (turn s).answered_at s ∷ []
      else []

  abbrev pub all_kept : ℕ → List (UdpGwClientStream R W) → List (UdpGwClientStream R W)
  all_kept keepalive_time [] = []
  all_kept keepalive_time (s ∷ ss) = kept keepalive_time s ++ all_kept keepalive_time ss

  -- The addresses of all sockets can be read.
  abbrev pub HaveAddress : Type 0
  HaveAddress = (s : UdpGwClientStream R W) → (turn s).has_address ≡ true

  abbrev pub holding : UdpGwClient R W → List (UdpGwClientStream R W) → UdpGwClient R W
  holding c ss = record c { server_connections = ss }

  -- What a turn does to the queue.
  abbrev Keeps : UdpGwClient R W → UdpGwClientStream R W → UdpGwClient R W × Option (ℕ × ℕ) → Type 0
  Keeps c s o = (o.0 ≡ holding c (c.server_connections ++ kept c.keepalive_time s)) × (o.1 ≢ none)

  abbrev after :
      List (UdpGwClientStream R W) → ℕ × ℕ → UdpGwClient R W → UdpGwClient R W × Option (ℕ × ℕ)
  after ss t c = ((keep_streams C turn c ss).0, add_traffic C turn t (keep_streams C turn c ss).1)
