-- ===== src/Socks/Session.antt =====
-- socks.rs: a whole connection, as the calls that the relay makes on one client.
use tun2proxy.Socks.Talk.{Told}
use tun2proxy.Socks.Talk.Runs.{Run-Told}
use tun2proxy.Socks.Opening.{new-IsFresh}
use tun2proxy.Socks.Handler.{handler}
use tun2proxy.Tunnel.Session.{Run}
use tun2proxy.Proxy.{SocketAddr, SessionInfo, Bytes, UserKey}
use tun2proxy.Socks.{Protocol, SocketAddr, Version, Command, SocksProxyImpl, new}
use tun2proxy.Prelude.{◌≡◌, ok, Option}

module _ (P : Protocol) where
  -- In every connection from new on, whatever the two sides send and in whatever pieces it comes
  -- and is taken, what is read and said before the tunnel opens is a handshake of SOCKS, message
  -- by message: of the server's stream exactly its replies are read, each of the length that the
  -- protocol gives it, and the client says the greeting that new queued, then a password or a
  -- request as the replies ask. Until the tunnel is open the client was given nothing, and its
  -- bytes and the server's unread ones wait; in an open tunnel the client is given exactly the
  -- server's bytes after the replies, the server exactly the handshake and then the client's
  -- bytes, in order, and nothing waits.
  pub Run-streams :
      (addr : SocketAddr) (info : SessionInfo) (domain : Option Bytes)
      (credentials : Option UserKey) (version : Version) (command : Command)
      (first s : SocksProxyImpl) (c r x y : Bytes)
      → new P addr info domain credentials version command ≡ ok first
      → Run (handler P) first s c r x y
      → Told P first s c r x y
  Run-streams addr info domain credentials version command first s c r x y made run =
      let (fresh, greets) = new-IsFresh P addr info domain credentials version command first made in
      Run-Told P first s c r x y greets fresh run
