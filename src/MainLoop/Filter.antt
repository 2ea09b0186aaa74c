-- ===== src/MainLoop/Filter.antt =====
-- lib.rs: copy_ipv4_dns_responses, which passes on the messages of a stream of DNS over TCP without
-- their IPv6 addresses. Encoding a message is hickory_proto's. The bytes that were written before an
-- error are part of the result; the count of the bytes read is left out.
use tun2proxy.Dns.Answers.{remove_ipv6_entries}
use tun2proxy.Proxy.{Bytes}
use tun2proxy.Dns.{Hickory, Message, DnsError, drain_tcp_messages}
use tun2proxy.Prelude.{
  none, some, [], ◌∷◌, ok, err, ◌++◌, ◌/◌, ◌%◌, Option, List, Result, ltb, length, if◌then◌else◌,
}

pub data CopyError : Type 0 where
  refused_stream : DnsError → CopyError
  unencodable too_long incomplete : CopyError

abbrev pub Copied : Type 0
Copied = Bytes × Result CopyError Unit

-- What is written before an error, or before and after.
abbrev pub and_then : Copied → Copied → Copied
and_then (before, err e) after = (before, err e)
and_then (before, ok done) (after, result) = (before ++ after, result)

-- At the end of the stream, with what is left of it.
abbrev pub at_end : Bytes → Copied
at_end [] = ([], ok tt)
at_end (b ∷ bs) = ([], err incomplete)

module _ (H : Hickory) (to_vec : Message → Option Bytes) where
  unfoldable pub write_message : Message → Copied
  write_message message = elim (to_vec (remove_ipv6_entries message)) [
    | none ↦ ([], err unencodable)
    | some packet ↦
        if ltb (length packet) 65536
        then ((length packet / 256) ∷ (length packet % 256) ∷ packet, ok tt)
        else ([], err too_long)
  ]

  abbrev pub write_messages : List Message → Copied
  write_messages [] = ([], ok tt)
  write_messages (m ∷ ms) = and_then (write_message m) (write_messages ms)

  -- The messages are written, and then comes `next` with the bytes that are left.
  abbrev pub pass_on : Bytes × Result DnsError (List Message) → (Bytes → Copied) → Copied
  pass_on (left, err e) next = ([], err (refused_stream e))
  pass_on (left, ok messages) next = and_then (write_messages messages) (next left)

  -- A turn of the loop up to its read.
  unfoldable pub drained : Bytes → (Bytes → Copied) → Copied
  drained pending next = pass_on (drain_tcp_messages H pending) next

  unfoldable pub copy_ipv4_dns_responses : List Bytes → Bytes → Copied
  copy_ipv4_dns_responses [] pending = drained pending at_end
  copy_ipv4_dns_responses ([] ∷ reads) pending = drained pending at_end
  copy_ipv4_dns_responses ((b ∷ bs) ∷ reads) pending =
      drained pending (λ left. copy_ipv4_dns_responses reads (left ++ b ∷ bs))
