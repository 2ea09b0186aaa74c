-- ===== src/Tunnel.antt =====
-- proxy_handler.rs: what every kind of proxy connection gives the relay, as an interface: its four
-- queues, its calls, and the law of a step that the kinds have in common.
pub mod Streams
pub mod Steps
pub mod Session
use tun2proxy.Prelude.{
  true, false, some, ◌≡◌, ◌≤◌, ◌⊎◌, ◌++◌, [], ◌∷◌, Bool, ℕ, Result, length, drop, Option,
}
use tun2proxy.Proxy.{
  from_server, from_client, to_server, to_client, Bytes, IncomingDirection, OutgoingDirection,
}

pub record Queues : Type 0 where
  pub client_inbuf : Bytes
  pub server_inbuf : Bytes
  pub client_outbuf : Bytes
  pub server_outbuf : Bytes

abbrev pub arrived : IncomingDirection → Queues → Bytes → Queues
arrived from_server q buffer = record q { server_inbuf = q.server_inbuf ++ buffer }
arrived from_client q buffer = record q { client_inbuf = q.client_inbuf ++ buffer }

-- The tunnel stays closed: what the client sent waits, it is sent nothing, and of the server's bytes
-- at most a first part is read.
pub record Holds (q : Queues) (was : Bool) (q' : Queues) (is : Bool) : Type 0 where
  pub was_closed : was ≡ false
  pub closed : is ≡ false
  pub client_waits : q'.client_inbuf ≡ q.client_inbuf
  pub client_unsent : q'.client_outbuf ≡ q.client_outbuf
  pub server_read :
      (n : ℕ) × (n ≤ length q.server_inbuf) × (q'.server_inbuf ≡ drop n q.server_inbuf)

-- The tunnel is open: all of the client's bytes are queued for the server, last, and all of the
-- server's after the first `reply` for the client. Of an open tunnel nothing is read.
pub record Passes (q : Queues) (was : Bool) (q' : Queues) (is : Bool) : Type 0 where
  pub open_now : is ≡ true
  pub reply : ℕ
  pub reply_read : reply ≤ length q.server_inbuf
  pub no_reply :
      (was ≡ false) ⊎ ((reply ≡ 0) × (q'.server_outbuf ≡ q.server_outbuf ++ q.client_inbuf))
  pub to_client_sent : q'.client_outbuf ≡ q.client_outbuf ++ drop reply q.server_inbuf
  pub to_server_sent : (hello : Bytes) × (q'.server_outbuf ≡ hello ++ q.client_inbuf)
  pub client_read : q'.client_inbuf ≡ []
  pub server_read_all : q'.server_inbuf ≡ []

abbrev pub Moves : Queues → Bool → Queues → Bool → Type 0
Moves q was q' is = Holds q was q' is ⊎ Passes q was q' is

-- The trait `ProxyHandler`, as the relay uses it, and its contract. `Regular` holds of the input that
-- the law of a step is stated for.
pub record ProxyHandler : Type 1 where
  pub State : Type 0
  pub Failure : Type 0
  pub queues : State → Queues
  pub connection_established : State → Bool
  pub push_data : State → IncomingDirection → Bytes → State × Result Failure Unit
  pub consume_data : State → OutgoingDirection → ℕ → Option State
  pub peek_data : State → OutgoingDirection → Bytes
  pub Regular : State → IncomingDirection → Bytes → Type 0
  pub push_data-Moves :
      (s : State) (direction : IncomingDirection) (buffer : Bytes)
      → Regular s direction buffer
      → Moves
          (arrived direction (queues s) buffer)
          (connection_established s)
          (queues (push_data s direction buffer).0)
          (connection_established (push_data s direction buffer).0)
  pub peek_client : (s : State) → peek_data s to_client ≡ (queues s).client_outbuf
  pub peek_server : (s : State) → peek_data s to_server ≡ (queues s).server_outbuf
  pub consume_all :
      (s : State)
      → (s' : State) × (consume_data s to_client (length (peek_data s to_client)) ≡ some s')
  pub consume_client :
      (s s' : State) (size : ℕ)
      → consume_data s to_client size ≡ some s'
      → (queues s' ≡ record (queues s) { client_outbuf = drop size (queues s).client_outbuf })
        × (connection_established s' ≡ connection_established s)
  pub consume_server :
      (s s' : State) (size : ℕ)
      → consume_data s to_server size ≡ some s'
      → (queues s' ≡ record (queues s) { server_outbuf = drop size (queues s).server_outbuf })
        × (connection_established s' ≡ connection_established s)
