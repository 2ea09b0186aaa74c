-- ===== src/Tests/Icmp.antt =====
-- Inputs for the theorems about icmp.rs: the ones' complement sum of 16-bit words as the checksum.
use tun2proxy.Icmp.Framing.{write_packet-read_packet, AllProgress}
use tun2proxy.Icmp.Limits.{Reach-IsBounded, IsBounded}
use tun2proxy.Icmp.Answers.{run_flow-AllAnswers, AllAnswers}
use tun2proxy.Icmp.Replies.{
  InternetChecksum, Turn, pseudo_header, packet_checksum, is_reply_to, with_checksum, exchange,
  run_flow,
}
use tun2proxy.Icmp.Flows.{
  EchoPacket, EchoFlows, dispatch, retain_open, try_send, is_malformed, start, later, packet_in,
  is_echo,
}
use tun2proxy.Icmp.{
  accepted, Write, read_packet, write_packet, write_loop, be16_bytes, framed, connect_request,
  is_accepted, echo_endpoint, endpoint_of, without_brackets, validate_options, socks5,
  ProxyParameters,
}
use tun2proxy.Socks.{socket_address}
use tun2proxy.Proxy.{Bytes}
use tun2proxy.Ip.{IpAddr, v4}
use tun2proxy.Prelude.{
  refl, true, false, none, some, [], ◌∷◌, ok, arith, ◌+◌, ◌-◌, ◌*◌, ◌/◌, ◌%◌, ◌≡◌, ◌++◌, ℕ, List,
  Option, length, ◌∙◌, ap, zero, suc,
}

abbrev words : Bytes → ℕ
words [] = 0
words (a ∷ []) = a * 256
words (a ∷ b ∷ bs) = a * 256 + b + words bs

words-append : (bs cs : Bytes) → length bs % 2 ≡ 0 → words (bs ++ cs) ≡ words bs + words cs
words-append [] cs h = omega arith
words-append (a ∷ []) cs h = ground (arith, h)
words-append (a ∷ b ∷ bs) cs h = omega (arith, words-append bs cs (omega (arith, h)))

abbrev complement : ℕ → ℕ
complement n = (65535 - n % 65535) % 65535

abbrev sum_of : Bytes → ℕ
sum_of bs = complement (words bs)

complement_zero : (n m : ℕ) → complement (n + (complement (n + (0 + m)) + m)) ≡ 0
complement_zero n m = omega arith

sum_verifies :
    (before after : Bytes)
    → length before % 2 ≡ 0
    → sum_of (before ++ (be16_bytes (sum_of (before ++ (0 ∷ 0 ∷ after))) ++ after)) ≡ 0
sum_verifies before after even =
    let n = sum_of (before ++ (0 ∷ 0 ∷ after)) in
    let e : n ≡ complement (words before + (0 + words after)) =
      ap complement (words-append before (0 ∷ 0 ∷ after) even) in
    let two : n / 256 * 256 + n % 256 ≡ n = omega arith in
    ap complement (words-append before (be16_bytes n ++ after) even)
    ∙ rw (two, e) (complement_zero (words before) (words after))

abbrev ones_complement : InternetChecksum
ones_complement = record { checksum = sum_of; checksum_verifies = sum_verifies }

abbrev icmp_program : Unit {0}
unfolding read_packet write_packet write_loop dispatch retain_open try_send is_malformed is_echo
    pseudo_header packet_checksum is_reply_to with_checksum exchange run_flow connect_request
    is_accepted echo_endpoint endpoint_of without_brackets validate_options
icmp_program = tt

abbrev host : IpAddr
host = v4 167772161

abbrev far : IpAddr
far = v4 134744072

abbrev ping : Bytes
ping = 8 ∷ 0 ∷ 243 ∷ 249 ∷ 1 ∷ 2 ∷ 3 ∷ 4 ∷ []

abbrev pong : Bytes
pong = 0 ∷ 0 ∷ 9 ∷ 9 ∷ 1 ∷ 2 ∷ 3 ∷ 4 ∷ []

abbrev request : EchoPacket
request = record { protocol = 1; src_addr = host; dst_addr = far; payload = ping }

abbrev ones : ℕ → List Write
ones zero = []
ones (suc n) = accepted 1 ∷ ones n

ones-AllProgress : (n : ℕ) → AllProgress (ones n)
ones-AllProgress zero = tt
ones-AllProgress (suc n) = (λ e. omega (arith, e), ones-AllProgress n)

abbrev one_by_one : List Write
one_by_one = accepted 4 ∷ ones 9

abbrev some_text : IpAddr → Bytes
some_text ip = 56 ∷ []

abbrev empty_flows : EchoFlows
empty_flows = record { flows = []; mtu = 1500 }

abbrev checksum_now : Bytes → IpAddr → IpAddr → ℕ
checksum_now = packet_checksum ones_complement

-- The request is valid and makes a flow.
flows_grow : length (dispatch checksum_now some_text 5 request none empty_flows).flows ≡ 1
unfolding icmp_program
flows_grow = refl

Reach-IsBounded_example : IsBounded (dispatch checksum_now some_text 5 request none empty_flows)
Reach-IsBounded_example =
    Reach-IsBounded checksum_now some_text 1500
      (dispatch checksum_now some_text 5 request none empty_flows)
      (later start (packet_in 5 request none))

write_packet-read_packet_example :
    ((write_packet one_by_one ping).1 ≡ some (ok tt))
    × (read_packet ((write_packet one_by_one ping).0 ++ (7 ∷ [])) ≡ ok (ping, 7 ∷ []))
write_packet-read_packet_example =
    write_packet-read_packet one_by_one ping (7 ∷ []) (omega arith) (omega arith)
      (λ e. omega (arith, e), ones-AllProgress 9) (omega arith)

abbrev turns : List Turn
turns =
    record { packet = request; deadline = 10; now = 5; writes = one_by_one; in_time = true } ∷ []

-- The answer has a checksum of its own.
answered_flow :
    run_flow ones_complement false (framed pong) turns
    ≡ (request, 0 ∷ 0 ∷ 251 ∷ 249 ∷ 1 ∷ 2 ∷ 3 ∷ 4 ∷ []) ∷ []
unfolding icmp_program
answered_flow = refl

run_flow-AllAnswers_example :
    AllAnswers ones_complement false (run_flow ones_complement false (framed pong) turns)
run_flow-AllAnswers_example = run_flow-AllAnswers ones_complement false (framed pong) turns

abbrev parse_none : Bytes → Option IpAddr
parse_none bs = none

abbrev local_proxy : ProxyParameters
local_proxy = record {
  proxy_type = socks5;
  addr = some (socket_address (record { ip = v4 2130706433; port = 1080 }));
  credentials = none;
}

local_endpoint :
    validate_options parse_none true local_proxy
    ≡ ok (some (record { ip = v4 2130706433; port = 1080 }))
unfolding icmp_program
local_endpoint = refl

host_request :
    connect_request parse_none (97 ∷ []) false
    ≡ ok (5 ∷ 1 ∷ 0 ∷ 5 ∷ 224 ∷ 0 ∷ 3 ∷ 1 ∷ 97 ∷ 0 ∷ 4 ∷ [])
unfolding icmp_program
host_request = refl
