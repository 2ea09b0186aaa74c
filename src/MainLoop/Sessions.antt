-- ===== src/MainLoop/Sessions.antt =====
-- lib.rs: a TCP session over any handler: where the bytes of the two sides go.
use tun2proxy.MainLoop.Setup.{
  Setup, ready, failed, waiting, until_eof, handle_proxy_session, Relayed, copied, relay, is_ready,
  handle_tcp_session, is_ready,
}
use tun2proxy.Tunnel.Session.{Run, IsFresh, Run-divides, Open}
use tun2proxy.Tunnel.{ProxyHandler}
use tun2proxy.Proxy.{Bytes, to_client}
use tun2proxy.Prelude.{
  refl, true, false, none, some, inl, inr, [], ◌≡◌, ◌≤◌, ◌++◌, ◌∙◌, ap, sym, Option, List, ℕ,
  length, drop, drop-append_within, ◌⊎◌, Bool, if◌then◌else◌, ok, Bool-cases,
}
use tun2proxy.MainLoop.SetUps.{IsSetUp, SetsUp, IsRegularStream, handle_proxy_session-SetsUp}
use tun2proxy.MainLoop.Cuts.{copy_ipv4_dns_responses-cuts}
use tun2proxy.MainLoop.Filter.{and_then, write_messages, at_end, copy_ipv4_dns_responses}
use tun2proxy.Dns.Frames.{AreParsed, IsPartial, frames, messages_of}
use tun2proxy.Dns.{Hickory, Message}

module _ (H : ProxyHandler) where
  open H use {State, queues, connection_established, push_data, consume_data, peek_data}

  module _ (D : Hickory) (to_vec : Message → Option Bytes) (filter_dns_ipv6 : Bool) where
    -- The set-up ran to `last` over the server's bytes `got`, of which the handler read the first
    -- `read`. The rest of the server's stream is copied to the local side, with the rest of `got` in
    -- front of the reads to come, and the client's stream follows `hello`.
    pub record IsRelayed (s : State) (client server : Bytes) (d : Relayed H) : Type 0 where
      pub last : State
      pub got : Bytes
      pub later : List Bytes
      pub hello : Bytes
      pub read : ℕ
      pub talk : Run H s last [] got [] hello
      pub open_now : connection_established last ≡ true
      pub none_left : (queues last).server_outbuf ≡ []
      pub within : read ≤ length got
      pub beyond : (queues last).client_outbuf ≡ drop read got
      pub all_read : server ≡ got ++ until_eof later
      pub stream : drop read server ≡ drop read got ++ until_eof later
      pub local_bytes : d.to_local ≡ (
          if filter_dns_ipv6
          then copy_ipv4_dns_responses D to_vec later (drop read got)
          else (drop read server, ok tt))
      pub remote_bytes : d.to_remote ≡ hello ++ client

    -- What is copied to the local side, through the filter or as it is.
    copied_lem :
        (reads : List Bytes) (prefetched beyond stream : Bytes)
        → prefetched ≡ beyond
        → stream ≡ beyond ++ until_eof reads
        → copied H D to_vec filter_dns_ipv6 reads prefetched ≡ (
            if filter_dns_ipv6
            then copy_ipv4_dns_responses D to_vec reads beyond
            else (stream, ok tt))
    copied_lem reads prefetched beyond stream e f = elim (Bool-cases filter_dns_ipv6) [
      | inl g ↦ rw g (ap (copy_ipv4_dns_responses D to_vec reads) e)
      | inr g ↦ rw g (ap (λ k. (k, ok tt)) (ap (λ k. k ++ until_eof reads) e ∙ sym f))
    ]

    set_up-Open :
        (s last : State) (sent server : Bytes) (rest : List Bytes)
        → IsFresh H s
        → (i : IsSetUp H s last sent server rest) → Open H last [] i.got [] sent
    set_up-Open s last sent server rest fresh i =
        elim (Run-divides H s last [] i.got [] sent fresh i.talk.0) [
          | inl c ↦
              let shut : connection_established last ≡ false = c.closed in
              let open_now : connection_established last ≡ true = i.open_now in cc
          | inr o ↦ o
        ]

    set_up-IsRelayed :
        (s last : State) (client sent server : Bytes) (rest : List Bytes)
        → (i : IsSetUp H s last sent server rest) → Open H last [] i.got [] sent
        → IsRelayed s client server (record {
          to_local = copied H D to_vec filter_dns_ipv6 rest (peek_data last to_client);
          to_remote = sent ++ client;
        })
    set_up-IsRelayed s last client sent server rest i o = record {
      last = last;
      got = i.got;
      later = rest;
      hello = sent;
      read = o.read;
      talk = i.talk.0;
      open_now = i.open_now;
      none_left = i.talk.1;
      within = o.within;
      beyond = o.given;
      all_read = i.all_read;
      stream =
          ap (drop o.read) i.all_read ∙ drop-append_within o.read i.got (until_eof rest) o.within;
      local_bytes =
          copied_lem rest (peek_data last to_client) (drop o.read i.got) (drop o.read server)
            (H.peek_client last ∙ o.given)
            (ap (drop o.read) i.all_read
              ∙ drop-append_within o.read i.got (until_eof rest) o.within);
      remote_bytes = refl;
    }

    abbrev pub Outcome : State → List Bytes → List Bytes → Option (Relayed H) → Type 0
    Outcome s client_reads server_reads result =
        ((d : Relayed H) × (result ≡ some d)
          × IsRelayed s (until_eof client_reads) (until_eof server_reads) d)
        ⊎ ((result ≡ none) × (is_ready H (handle_proxy_session H server_reads s) ≡ false))

    relay-Outcome :
        (s last : State) (client_reads server_reads rest : List Bytes) (sent : Bytes)
        → IsFresh H s
        → IsSetUp H s last sent (until_eof server_reads) rest
        → Outcome s client_reads server_reads
            (relay H D to_vec filter_dns_ipv6 client_reads last sent rest)
    unfolding relay
    relay-Outcome s last client_reads server_reads rest sent fresh i =
        rw (relay, (H.consume_all last).1)
          (inl (
            _,
            refl,
            set_up-IsRelayed s last (until_eof client_reads) sent (until_eof server_reads) rest i
                (set_up-Open s last sent (until_eof server_reads) rest fresh i),
          ))

    set_up-Outcome :
        (client_reads server_reads : List Bytes) (s : State) (result : Setup H)
        → IsFresh H s
        → handle_proxy_session H server_reads s ≡ result
        → SetsUp H s (until_eof server_reads) result
        → Outcome s client_reads server_reads (elim result [
          | ready s' sent rest ↦ relay H D to_vec filter_dns_ipv6 client_reads s' sent rest
          | failed ↦ none
          | waiting ↦ none
        ])
    set_up-Outcome client_reads server_reads s (ready s' sent rest) fresh e i =
        relay-Outcome s s' client_reads server_reads rest sent fresh i
    set_up-Outcome client_reads server_reads s failed fresh e i = inr (refl, ap (is_ready H) e)
    set_up-Outcome client_reads server_reads s waiting fresh e i = inr (refl, ap (is_ready H) e)

    -- A TCP session over a fresh handler of any kind that has nothing for the server once its
    -- tunnel is open, where what the server sends is regular input of the handler, gives the local
    -- side all of the server's bytes after those that the handler took in the set-up, also those
    -- that were read with them: as they are without the filter of DNS answers, and through the
    -- filter with it. The server gets what the handler said and then exactly the client's bytes.
    -- There is no such session only where the set-up is not done.
    pub handle_tcp_session-Outcome :
        (client_reads server_reads : List Bytes) (s : State)
        → IsFresh H s
        → (connection_established s ≡ true → (queues s).server_outbuf ≡ [])
        → IsRegularStream H s (until_eof server_reads)
        → Outcome s client_reads server_reads
            (handle_tcp_session H D to_vec filter_dns_ipv6 client_reads server_reads s)
    unfolding handle_tcp_session
    handle_tcp_session-Outcome client_reads server_reads s fresh quiet regular =
        set_up-Outcome client_reads server_reads s (handle_proxy_session H server_reads s) fresh
          refl
          (handle_proxy_session-SetsUp H s (until_eof server_reads) regular server_reads quiet refl)

  -- With the filter the local side is given the server's stream after the set-up as it was framed,
  -- however it came in.
  filtered_lem :
      (D : Hickory) (to_vec : Message → Option Bytes) (s : State) (client server tail : Bytes)
      (d : Relayed H) (ps : List (Bytes × Message))
      → (i : IsRelayed D to_vec true s client server d) → AreParsed D ps
      → IsPartial tail
      → drop i.read server ≡ frames D ps ++ tail
      → d.to_local ≡ and_then (write_messages D to_vec (messages_of D ps)) (at_end tail)
  filtered_lem D to_vec s client server tail d ps i parsed partial e =
      i.local_bytes
      ∙ copy_ipv4_dns_responses-cuts D to_vec i.later (drop i.read i.got) tail ps parsed partial
          (sym i.stream ∙ e)
