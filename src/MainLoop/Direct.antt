-- ===== src/MainLoop/Direct.antt =====
-- lib.rs: a TCP session without a proxy.
use tun2proxy.MainLoop.Setup.{handle_tcp_session, handle_proxy_session, relay, until_eof}
use tun2proxy.NoProxy.{new, consume_data, peek_data, handler}
use tun2proxy.Proxy.{Bytes, SessionInfo}
use tun2proxy.Dns.{Hickory, Message}
use tun2proxy.Prelude.{refl, some, ok, false, ◌≡◌, List, Option, Bool}

-- A session without a proxy and without the filter always gives each side exactly the bytes that the other sent before the
-- end of its stream.
pub handle_tcp_session-new :
    (D : Hickory) (to_vec : Message → Option Bytes) (info : SessionInfo)
    (domain_name : Option Bytes) (udp_associate : Bool) (client_reads server_reads : List Bytes)
    → handle_tcp_session handler D to_vec false client_reads server_reads
        (new info domain_name udp_associate)
      ≡ some (record {
        to_local = (until_eof server_reads, ok tt);
        to_remote = until_eof client_reads;
      })
unfolding new consume_data peek_data handle_tcp_session handle_proxy_session relay
handle_tcp_session-new D to_vec info domain_name udp_associate client_reads server_reads = refl
