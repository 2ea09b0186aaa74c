-- ===== src/Proxy.antt =====
-- directions.rs, proxy_handler.rs and session_info.rs: what the two kinds of proxy connections have
-- in common.
use tun2proxy.Prelude.{ℕ, List}
use tun2proxy.Ip.{IpAddr}

abbrev pub Bytes : Type 0
Bytes = List ℕ

pub data IncomingDirection : Type 0 where
  from_server from_client : IncomingDirection

pub data OutgoingDirection : Type 0 where
  to_server to_client : OutgoingDirection

pub record SocketAddr : Type 0 where
  pub ip : IpAddr
  pub port : ℕ

pub data IpProtocol : Type 0 where
  tcp udp icmp : IpProtocol
  other : ℕ → IpProtocol

pub record SessionInfo : Type 0 where
  pub src : SocketAddr
  pub dst : SocketAddr
  pub protocol : IpProtocol

-- socks5_impl::UserKey
pub record UserKey : Type 0 where
  pub username : Bytes
  pub password : Bytes
