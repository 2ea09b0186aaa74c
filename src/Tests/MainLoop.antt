-- ===== src/Tests/MainLoop.antt =====
-- Inputs for the theorems about the main loop: two permits, a SOCKS5 session and a stream of DNS.
use tun2proxy.MainLoop.Counts.{
  Permits, Reach, IsCounted, Reach-IsCounted, admitted, acquired, start, later, no_sessions,
  take_total, on_protocol_count,
}
use tun2proxy.MainLoop.Setup.{
  handle_tcp_session, handle_proxy_session, negotiate, answer, flush, relay,
}
use tun2proxy.MainLoop.Sessions.{Outcome, handle_tcp_session-Outcome}
use tun2proxy.MainLoop.Filter.{
  incomplete, and_then, at_end, write_messages, write_message, drained, copy_ipv4_dns_responses,
}
use tun2proxy.MainLoop.Cuts.{copy_ipv4_dns_responses-cuts}
use tun2proxy.Tests.Relay.{protocol, opened_client}
use tun2proxy.Tests.Dns.{hickory, request_two, asked}
use tun2proxy.Socks.Handler.{handler}
use tun2proxy.Socks.{
  push_data, state_change, receive, dispatch, relay_traffic, receive_server_hello,
  receive_server_hello_socks4, receive_server_hello_socks5, receive_auth_data,
  receive_connection_status, send_auth, send_request_socks5, send_client_hello,
  send_client_hello_socks4, send_client_hello_socks5, consume_data, peek_data,
  connection_established, user_name,
}
use tun2proxy.Proxy.{tcp, Bytes}
use tun2proxy.Dns.{drain_tcp_messages, drain_loop, parse_data_to_dns_message, Message}
use tun2proxy.Dns.Answers.{remove_ipv6_entries}
use tun2proxy.Prelude.{
  refl, arith, none, some, inl, [], ◌∷◌, err, ◌≡◌, List, true, false, ok, Option,
}

abbrev one_entering : Permits
one_entering = record no_sessions {
  counts = record { total = 1; tcp_count = 0; udp_count = 0 };
  entering = tcp ∷ [];
}

abbrev one_held : Permits
one_held = record no_sessions {
  counts = record { total = 1; tcp_count = 1; udp_count = 0 };
  held = tcp ∷ [];
}

one_held-Reach : Reach 1 one_held
unfolding take_total on_protocol_count
one_held-Reach =
    later (later start (admitted tcp one_entering.counts refl))
      (acquired tcp [] [] one_held.counts refl refl)

Reach-IsCounted_example : IsCounted 1 one_held
Reach-IsCounted_example = Reach-IsCounted 1 (omega arith) one_held one_held-Reach

full : take_total 1 one_held.counts ≡ none
unfolding take_total
full = refl

abbrev one_byte : Message → Option Bytes
one_byte m = some (m.id ∷ [])

abbrev client_reads : List Bytes
client_reads = (7 ∷ 7 ∷ []) ∷ (8 ∷ []) ∷ []

abbrev server_reads : List Bytes
server_reads = (5 ∷ 0 ∷ []) ∷ (5 ∷ 0 ∷ 1 ∷ 8 ∷ 9 ∷ []) ∷ (10 ∷ []) ∷ [] ∷ (11 ∷ []) ∷ []

opened_client_asks : connection_established opened_client ≡ true → opened_client.server_outbuf ≡ []
unfolding connection_established
opened_client_asks e = cc

handle_tcp_session-Outcome_example :
    Outcome (handler protocol) hickory one_byte false opened_client client_reads server_reads (
      handle_tcp_session
        (handler protocol)
        hickory
        one_byte
        false
        client_reads
        server_reads
        opened_client)
handle_tcp_session-Outcome_example =
    handle_tcp_session-Outcome (handler protocol) hickory one_byte false client_reads server_reads
      opened_client (record { no_client = refl; no_server = refl; no_answer = refl })
      opened_client_asks (λ s r sent buffer later run e. tt)

session_relays :
    handle_tcp_session
      (handler protocol)
      hickory
      one_byte
      false
      client_reads
      server_reads
      opened_client
    ≡ some (record {
      to_local = (8 ∷ 9 ∷ 10 ∷ [], ok tt);
      to_remote = 5 ∷ 0 ∷ 4 ∷ 100 ∷ 5 ∷ 7 ∷ 7 ∷ 8 ∷ [];
    })
unfolding push_data state_change dispatch receive relay_traffic receive_server_hello
    receive_server_hello_socks4 receive_server_hello_socks5 receive_auth_data
    receive_connection_status send_auth send_request_socks5 send_client_hello
    send_client_hello_socks4 send_client_hello_socks5 consume_data peek_data connection_established
    user_name handle_tcp_session handle_proxy_session negotiate answer flush relay
session_relays = refl

-- One message, with the first byte of another frame behind it.
copy_ipv4_dns_responses-cuts_example :
    copy_ipv4_dns_responses hickory one_byte ((255 ∷ 2 ∷ []) ∷ (0 ∷ []) ∷ []) (0 ∷ 3 ∷ 255 ∷ [])
    ≡ and_then (write_messages hickory one_byte (asked ∷ [])) (at_end (0 ∷ []))
copy_ipv4_dns_responses-cuts_example =
    copy_ipv4_dns_responses-cuts hickory one_byte ((255 ∷ 2 ∷ []) ∷ (0 ∷ []) ∷ [])
      (0 ∷ 3 ∷ 255 ∷ []) (0 ∷ []) ((request_two, asked) ∷ []) (omega arith, omega arith, refl, tt)
      (inl (omega arith)) refl

incomplete_stream :
    copy_ipv4_dns_responses hickory one_byte ((255 ∷ 2 ∷ []) ∷ (0 ∷ []) ∷ []) (0 ∷ 3 ∷ 255 ∷ [])
    ≡ (0 ∷ 1 ∷ 65535 ∷ [], err incomplete)
unfolding copy_ipv4_dns_responses drained write_message drain_tcp_messages remove_ipv6_entries
    drain_loop parse_data_to_dns_message
incomplete_stream = refl
