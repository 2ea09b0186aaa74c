-- ===== src/MainLoop/Setup.antt =====
-- lib.rs: handle_proxy_session, which talks to the proxy until the handler's tunnel is open, and
-- handle_tcp_session, which relays from then on. The handler is any implementation of the trait. A
-- read gives some bytes, or none at the end of the stream; connecting, writing and the timeout that
-- ends a set-up are left out.
use tun2proxy.MainLoop.Filter.{Copied, copy_ipv4_dns_responses}
use tun2proxy.Dns.{Hickory, Message}
use tun2proxy.Tunnel.{ProxyHandler}
use tun2proxy.Proxy.{Bytes, from_server, to_client, to_server}
use tun2proxy.Prelude.{
  true, false, none, some, [], ◌∷◌, ok, err, ◌++◌, Option, Bool, List, length, if◌then◌else◌,
}

-- The bytes of the reads up to the end of the stream.
abbrev pub until_eof : List Bytes → Bytes
until_eof [] = []
until_eof ([] ∷ reads) = []
until_eof ((b ∷ bs) ∷ reads) = (b ∷ bs) ++ until_eof reads

module _ (H : ProxyHandler) where
  open H use {State, connection_established, push_data, consume_data, peek_data}

  -- A set-up that is done, with the handler, what was sent to the server and the reads to come; one
  -- that failed; and one that waits for the server.
  pub data Setup : Type 0 where
    ready : State → Bytes → List Bytes → Setup
    failed waiting : Setup

  abbrev pub is_ready : Setup → Bool
  is_ready (ready s sent rest) = true
  is_ready _ = false

  -- What the handler has for the server, if anything, and the handler without it.
  unfoldable pub flush : State → Option (State × Bytes)
  flush s = elim (peek_data s to_server) [
    | [] ↦ some (s, [])
    | b ∷ bs ↦ elim (consume_data s to_server (length (b ∷ bs))) [
      | none ↦ none
      | some s' ↦ some (s', b ∷ bs)
    ]
  ]

  -- A round with the bytes that were read: the handler, and what goes to the server.
  unfoldable pub answer : Bytes → State → Option (State × Bytes)
  answer buffer s =
      let (s', result) = push_data s from_server buffer in
      elim result [ err e ↦ none | ok done ↦ flush s' ]

  -- The loop from its read to the test that ends it.
  unfoldable pub negotiate : List Bytes → State → Bytes → Setup
  negotiate [] s sent = waiting
  negotiate ([] ∷ reads) s sent = failed
  negotiate ((b ∷ bs) ∷ reads) s sent = elim (answer (b ∷ bs) s) [
    | none ↦ failed
    | some (s', bytes) ↦
        if connection_established s'
        then ready s' (sent ++ bytes) reads
        else negotiate reads s' (sent ++ bytes)
  ]

  -- The first message is the handler's; there has to be one.
  abbrev pub launched : List Bytes → Option (State × Bytes) → Setup
  launched reads none = failed
  launched reads (some (s', [])) = failed
  launched reads (some (s', b ∷ bs)) = negotiate reads s' (b ∷ bs)

  unfoldable pub handle_proxy_session : List Bytes → State → Setup
  handle_proxy_session reads s =
      if connection_established s then ready s [] reads else launched reads (flush s)

  -- What the two sides are given in a session, up to the ends of their streams.
  pub record Relayed : Type 0 where
    pub to_local : Copied
    pub to_remote : Bytes

  module _ (D : Hickory) (to_vec : Message → Option Bytes) (filter_dns_ipv6 : Bool) where
    -- The server's stream to the local side, from the bytes that the set-up read beyond its end.
    abbrev pub copied : List Bytes → Bytes → Copied
    copied reads prefetched =
        if filter_dns_ipv6
        then copy_ipv4_dns_responses D to_vec reads prefetched
        else (prefetched ++ until_eof reads, ok tt)

    unfoldable pub relay : List Bytes → State → Bytes → List Bytes → Option Relayed
    relay client_reads s sent server_reads =
        let prefetched = peek_data s to_client in
        elim (consume_data s to_client (length prefetched)) [
          | none ↦ none
          | some s' ↦ some (record {
            to_local = copied server_reads prefetched;
            to_remote = sent ++ until_eof client_reads;
          })
        ]

    -- None where the set-up does not end, or fails. Where the filter fails, which ends the session, the
    -- server has at most `to_remote`.
    unfoldable pub handle_tcp_session : List Bytes → List Bytes → State → Option Relayed
    handle_tcp_session client_reads server_reads s = elim (handle_proxy_session server_reads s) [
      | ready s' sent rest ↦ relay client_reads s' sent rest
      | failed ↦ none
      | waiting ↦ none
    ]
