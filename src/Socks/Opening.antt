-- ===== src/Socks/Opening.antt =====
-- socks.rs: the first message, and the client that `new` makes.
use tun2proxy.Socks.Handler.{handler}
use tun2proxy.Tunnel.Session.{IsFresh}
use tun2proxy.Prelude.{
  none, inl, inr, [], ◌≡◌, refl, arith, ok, Result-cases, Option-cases, Option, subst,
}
use tun2proxy.Proxy.{SocketAddr, SessionInfo, Bytes, UserKey}
use tun2proxy.Socks.{
  socks4, socks5, client_hello, server_hello, Protocol, greet, SocksProxyImpl, send_client_hello,
  send_client_hello_socks4, new, send_client_hello_socks5, socks4_host, Version, Command,
}

module _ (P : Protocol) where
  -- The first message leaves three queues alone.
  abbrev Keeps : SocksProxyImpl → SocksProxyImpl → Type 0
  Keeps s s' =
      (s'.client_inbuf ≡ s.client_inbuf)
      × (s'.server_inbuf ≡ s.server_inbuf)
      × (s'.client_outbuf ≡ s.client_outbuf)

  hello4-Keeps : (s : SocksProxyImpl) → Keeps s (send_client_hello_socks4 s).0
  unfolding send_client_hello_socks4
  hello4-Keeps s = elim (Option-cases (socks4_host s.info.dst s.domain_name)) [
    | inl e ↦ rw (e, send_client_hello_socks4) (refl, refl, refl)
    | inr ((a, b), e) ↦ rw (e, send_client_hello_socks4) (refl, refl, refl)
  ]

  greet-Keeps : (v : Version) (s : SocksProxyImpl) → Keeps s (greet P v s).0
  unfolding greet send_client_hello_socks5
  greet-Keeps socks4 s = hello4-Keeps s
  greet-Keeps socks5 s = (refl, refl, refl)

  hello_lem :
      (s : SocksProxyImpl)
      → (send_client_hello P s).1 ≡ ok tt
      → Keeps s (send_client_hello P s).0 × ((send_client_hello P s).0.state ≡ server_hello)
  unfolding send_client_hello
  hello_lem s h = elim (Result-cases (greet P s.version s).1) [
    | inl (u, e) ↦ rw (e, send_client_hello) (greet-Keeps s.version s, refl)
    | inr (x, e) ↦ ground (arith, (rw (e, send_client_hello) at h))
  ]

  -- The record that `new` makes, before it sends.
  abbrev unsent :
      SocketAddr → SessionInfo → Option Bytes → Option UserKey → Version → Command → SocksProxyImpl
  unsent server_addr info domain_name credentials version command = record {
    server_addr = server_addr;
    info = info;
    domain_name = domain_name;
    state = client_hello;
    client_inbuf = [];
    server_inbuf = [];
    client_outbuf = [];
    server_outbuf = [];
    version = version;
    credentials = credentials;
    command = command;
    udp_associate = none;
  }

  pub new-IsFresh :
      (addr : SocketAddr) (info : SessionInfo) (domain : Option Bytes)
      (credentials : Option UserKey) (version : Version) (command : Command) (s : SocksProxyImpl)
      → new P addr info domain credentials version command ≡ ok s
      → IsFresh (handler P) s × (s.state ≡ server_hello)
  unfolding new
  new-IsFresh addr info domain credentials version command s h =
      let start = unsent addr info domain credentials version command in
      elim (Result-cases (send_client_hello P start).1) [
        | inr (x, e) ↦ ground (arith, (rw (e, new) at h))
        | inl (u, e) ↦
            let ((a, b, d), st) = hello_lem start e in
            let same : (send_client_hello P start).0 ≡ s = cc (rw (e, new) at h) in
            subst (λ t. IsFresh (handler P) t × (t.state ≡ server_hello)) same
              (record { no_client = a; no_server = b; no_answer = d }, st)
      ]
