-- ===== src/Tests/Server.antt =====
-- Inputs for the theorems about bin/udpgw_server.rs: one client, its first session, and what comes
-- after it.
use tun2proxy.Tests.Udpgw.{addresses}
use tun2proxy.UdpgwServer.Tagged.{run-connected-Tagged}
use tun2proxy.UdpgwServer.Closing.{run-close, AllFrom}
use tun2proxy.UdpgwServer.Superseded.{superseded_ends, run-connected-IsSound}
use tun2proxy.UdpgwServer.Relays.{IsSoundServer}
use tun2proxy.UdpgwServer.Replies.{reply_packet-retrieve, answer_for}
use tun2proxy.UdpgwServer.Client.{mask_ip, mask_from, retrieve_packet_or_disconnect}
use tun2proxy.UdpgwServer.Schedule.{
  run, step, client_step, write_step, reply_step, clean_up_client, cancel_all, count_elsewhere,
  connected, is_deliverable, sent_to_client,
}
use tun2proxy.UdpgwServer.Tasks.{
  Event, Server, RelayEvent, receive, resolved, relay_event, write, silence, offer, clean_up,
  receive_step, resolved_step, relay_step, dispatch, listen, on_silence, on_stranger,
  store_last_act, end_relay, reply_packet,
}
use tun2proxy.UdpgwServer.{
  UdpGwArgs, OutboundItem, Relay, listening, ended, awaiting, process_udp, open_session, reusable,
  remove_session, replace_generation, close_session, forget_own,
}
use tun2proxy.Maps.Assoc.{lookup}
use tun2proxy.Udpgw.{
  Packet, data_packet, build_close_packet, build_packet_from_address, write_to_buf,
  retrieve_from_stream,
}
use tun2proxy.Socks.{socket_address}
use tun2proxy.Proxy.{SocketAddr}
use tun2proxy.Ip.{v4}
use tun2proxy.Prelude.{
  refl, true, some, [], ◌∷◌, ok, arith, ◌≡◌, ◌<◌, ◌++◌, ◌+◌, List, length, sym, subst, ◌∙◌, ◌^◌,
  nat_eq,
}

abbrev settings : UdpGwArgs
settings = record { udp_mtu = 100; udp_timeout = 3 }

abbrev resolver : SocketAddr
resolver = record { ip = v4 7; port = 53 }

abbrev mirror : SocketAddr
mirror = record { ip = v4 9; port = 53 }

abbrev question : Packet
question = data_packet 8 (socket_address resolver) (1 ∷ 2 ∷ [])

abbrev other_question : Packet
other_question = data_packet 8 (socket_address mirror) (1 ∷ 2 ∷ [])

-- A request, its session, a reply and its way to the queue.
abbrev answered : List Event
answered =
    receive 10 true question
    ∷ resolved 11 (some resolver) true true
    ∷ relay_event 12 1 (RelayEvent.datagram resolver (5 ∷ 6 ∷ []))
    ∷ relay_event 13 1 offer
    ∷ []

abbrev server_program : Unit {0}
unfolding run step client_step write_step reply_step clean_up_client cancel_all count_elsewhere
    is_deliverable receive_step resolved_step relay_step dispatch listen on_silence on_stranger
    store_last_act end_relay reply_packet process_udp open_session reusable remove_session
    replace_generation close_session forget_own build_packet_from_address
    retrieve_packet_or_disconnect mask_ip mask_from sent_to_client write_to_buf
server_program = tt

abbrev busy : Server
busy = run addresses settings answered (connected 0 1)

busy_waits : busy.reader ≡ awaiting
unfolding server_program
busy_waits = refl

busy_open : busy.is_open ≡ true
unfolding server_program
busy_open = refl

-- The reply stands in the queue.
busy_queue :
    busy.queue
    ≡ record { packet = data_packet 8 (socket_address resolver) (5 ∷ 6 ∷ []); generation = some 1 }
      ∷ []
unfolding server_program
busy_queue = refl

busy_next : busy.state.next_generation ≡ 2
unfolding server_program
busy_next = refl

-- Without a CLOSE it is written, and with one it is not.
written_open : length (run addresses settings (write 14 true ∷ []) busy).written ≡ 1
unfolding server_program
written_open = refl

written_closed :
    (run addresses settings
      (receive 14 true (build_close_packet 8) ∷ write 15 true ∷ [])
      busy).written
    ≡ []
unfolding server_program
written_closed = refl

run-close_example :
    (later : List OutboundItem) × ((run addresses settings
        (receive 14 true (build_close_packet 8) ∷ write 15 true ∷ [])
        busy).written
      ≡ busy.written ++ later)
    × AllFrom 8 busy.state.next_generation later
run-close_example =
    run-close addresses settings 14 true (build_close_packet 8) (write 15 true ∷ []) busy refl
      busy_waits busy_open (subst (λ n. n + 1 < 2 ^ 64) (sym busy_next) (omega arith))
      (run-connected-Tagged addresses settings 0 1 answered)

run-connected-IsSound_example : IsSoundServer busy
run-connected-IsSound_example = run-connected-IsSound addresses settings 0 1 answered

-- A request for another address takes the connection over.
abbrev taken_over : List Event
taken_over =
    receive 10 true question
    ∷ resolved 11 (some resolver) true true
    ∷ receive 14 true other_question
    ∷ []

abbrev moved_on : Server
moved_on = run addresses settings taken_over (connected 0 1)

abbrev first_relay : Relay
first_relay = record { conn_id = 8; dst = resolver; phase = listening }

first_relay_there : lookup 1 moved_on.relays ≡ some first_relay
unfolding server_program
first_relay_there = refl

generation_now : lookup 8 moved_on.state.generations ≡ some 2
unfolding server_program
generation_now = refl

superseded_ends_example :
    let s' =
      run addresses settings (relay_event 15 1 silence ∷ relay_event 16 1 clean_up ∷ []) moved_on in
    (lookup 1 s'.relays ≡ some (record first_relay { phase = ended })) × (s'.state ≡ moved_on.state)
superseded_ends_example =
    superseded_ends addresses settings moved_on 1 first_relay silence 15 16
      (run-connected-IsSound addresses settings 0 1 taken_over) first_relay_there refl refl
      (λ e. ground (arith, sym generation_now ∙ e))

reply_packet-retrieve_example :
    (p : Packet) × (reply_packet addresses settings 8 resolver (5 ∷ 6 ∷ []) ≡ some p)
    × (p ≡ answer_for addresses settings 8 resolver (5 ∷ 6 ∷ []))
    × (retrieve_from_stream addresses (write_to_buf addresses p ++ (9 ∷ [])) ≡ ok (p, 9 ∷ []))
reply_packet-retrieve_example =
    reply_packet-retrieve addresses settings 8 resolver (5 ∷ 6 ∷ []) (9 ∷ []) (omega arith) refl
      (omega arith)

masked : mask_ip (49 ∷ 50 ∷ 46 ∷ 51 ∷ 52 ∷ []) ≡ 49 ∷ 42 ∷ 46 ∷ 42 ∷ 52 ∷ []
unfolding server_program
masked = refl
