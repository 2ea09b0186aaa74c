-- ===== src/Dns.antt =====
-- dns.rs and dns_transactions.rs: DNS messages, and the requests that are in flight on one
-- connection. Parsing and the comparison of names come from the crate hickory_proto.
pub mod Transactions
pub mod Identifiers
pub mod Matching
pub mod Frames
pub mod Answers
pub mod Lookup
use tun2proxy.VirtualDns.{is_empty}
use tun2proxy.Proxy.{Bytes}
use tun2proxy.Prelude.{
  zero, suc, true, false, none, some, [], ◌∷◌, ok, err, ◌+◌, ◌%◌, ◌≡◌, ℕ, Bool, Result, List,
  if◌then◌else◌, Option, not, eqb, ◌||◌, length, get_or, ◌*◌, drop, ltb, take,
}

-- hickory_proto's types, as far as the code reads them. The operation code 0 is `Query`.
pub record Query : Type 0 where
  pub name : Bytes
  pub query_type : ℕ
  pub query_class : ℕ

pub data MessageType : Type 0 where
  query response : MessageType

-- A resource record: an address, another name, or anything else.
pub data RData : Type 0 where
  a aaaa : ℕ → RData
  cname : Bytes → RData
  other_data : Bytes → RData

pub record Record : Type 0 where
  pub name : Bytes
  pub ttl : ℕ
  pub dns_class : ℕ
  pub rdata : RData

-- The response code 0 is `NoError`.
pub record Message : Type 0 where
  pub id : ℕ
  pub message_type : MessageType
  pub op_code : ℕ
  pub queries : List Query
  pub response_code : ℕ
  pub authoritative : Bool
  pub truncation : Bool
  pub recursion_available : Bool
  pub authentic_data : Bool
  pub answers : List Record
  pub authorities : List Record
  pub additionals : List Record
  pub signature : Option Bytes

-- Parsing an unframed message, equality of names without case and root, the text of a name, and the
-- message that answers a query before anything is put into it.
pub record Hickory : Type 0 where
  pub from_vec : Bytes → Option Message
  pub eq_ignore_root : Bytes → Bytes → Bool
  pub to_ascii : Bytes → Bytes
  pub into_response : Message → Message
  pub eq_ignore_root-self : (n : Bytes) → eq_ignore_root n n ≡ true
  pub into_response-type : (m : Message) → (into_response m).message_type ≡ response
  pub into_response-id : (m : Message) → (into_response m).id ≡ m.id
  pub into_response-op_code : (m : Message) → (into_response m).op_code ≡ m.op_code
  pub into_response-queries : (m : Message) → (into_response m).queries ≡ m.queries

pub data DnsError : Type 0 where
  malformed not_a_query not_a_response wrong_opcode wrong_id wrong_question_count : DnsError
  wrong_question limit_reached unsolicited empty_frame out_of_fuel : DnsError
  failed_response no_question cname_loop no_address chain_too_long : DnsError
  only_cname : Bytes → DnsError

abbrev pub is_query : MessageType → Bool
is_query query = true
is_query response = false

unfoldable pub validate_dns_query : Message → Result DnsError Query
validate_dns_query message =
    if not (is_query message.message_type)
    then err not_a_query
    else if not (eqb message.op_code 0)
    then err wrong_opcode
    else elim message.queries [ q ∷ [] ↦ ok q | _ ↦ err wrong_question_count ]

module _ (H : Hickory) where
  open H use {from_vec, eq_ignore_root}

  -- `queries.first()`, then the comparison, which has the test on their number.
  same_question : List Query → Query → Result DnsError Unit
  same_question [] expected = err wrong_question_count
  same_question (actual ∷ others) expected =
      if not (eqb (length (actual ∷ others)) 1)
        || not (eq_ignore_root actual.name expected.name)
        || not (eqb actual.query_type expected.query_type)
        || not (eqb actual.query_class expected.query_class)
      then err wrong_question
      else ok tt

  unfoldable pub validate_dns_response : Message → ℕ → Query → Result DnsError Unit
  unfolding same_question
  validate_dns_response message request_id expected =
      if is_query message.message_type
      then err not_a_response
      else if not (eqb message.op_code 0)
      then err wrong_opcode
      else if not (eqb message.id request_id)
      then err wrong_id
      else same_question message.queries expected

  -- Without the frame of DNS over TCP.
  unfoldable pub parse_data_to_dns_message : Bytes → Result DnsError Message
  parse_data_to_dns_message bytes = elim (from_vec bytes) [
    | some message ↦ ok message
    | none ↦ err malformed
  ]

  -- With the frame of DNS over TCP, which holds exactly one message.
  unfoldable pub parse_framed : Bytes → Result DnsError Message
  parse_framed bytes =
      let len = get_or bytes 0 0 * 256 + get_or bytes 1 0 in
      if ltb (length bytes) 2
      then err malformed
      else if not (eqb (length bytes) (len + 2))
      then err malformed
      else parse_data_to_dns_message (drop 2 bytes)

  -- The loop of `drain_tcp_messages`, with the bytes that it has not read: a frame is two bytes of
  -- length and the message. Without fuel it stands still, with an error of the model's own.
  unfoldable pub drain_loop : ℕ → Bytes → Result DnsError (List Message × Bytes)
  unfolding parse_data_to_dns_message
  drain_loop zero remaining = err out_of_fuel
  drain_loop (suc fuel) remaining =
      let message_len = get_or remaining 0 0 * 256 + get_or remaining 1 0 in
      let rest = drain_loop fuel (drop (2 + message_len) remaining) in
      if ltb (length remaining) 2
      then ok ([], remaining)
      else if eqb message_len 0
      then err empty_frame
      else if ltb (length remaining) (2 + message_len)
      then ok ([], remaining)
      else elim (parse_data_to_dns_message (take message_len (drop 2 remaining))) [
        | err e ↦ err e
        | ok message ↦ elim rest [
          | err e ↦ err e
          | ok (messages, left) ↦ ok (message ∷ messages, left)
        ]
      ]

  -- An error leaves the buffer as it was.
  unfoldable pub drain_tcp_messages : Bytes → Bytes × Result DnsError (List Message)
  unfolding drain_loop
  drain_tcp_messages buffer = elim (drain_loop (suc (length buffer)) buffer) [
    | err e ↦ (buffer, err e)
    | ok (messages, left) ↦ (left, ok messages)
  ]
