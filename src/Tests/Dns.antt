-- ===== src/Tests/Dns.antt =====
-- Inputs for the theorems about dns_transactions.rs: one byte of question behind the identifier.
use tun2proxy.Dns.Lookup.{build_dns_response_answers, extract-remove_ipv6_entries, of_type}
use tun2proxy.Dns.Answers.{
  address, build_dns_response, extract_ipaddr_from_dns_message, extract_address_or_cname,
  remove_ipv6_entries, follow, scan_answers,
}
use tun2proxy.Dns.{a, aaaa, cname}
use tun2proxy.Ip.{v4}
use tun2proxy.Dns.Identifiers.{free_id_total}
use tun2proxy.Dns.Matching.{IsNew, prepare_forwards, complete-prepare}
use tun2proxy.Maps.{lookup}
use tun2proxy.Proxy.{Bytes}
use tun2proxy.Dns.Transactions.{Transactions, prepare, forward, free_id, in_flight, complete}
use tun2proxy.Prelude.{
  false, beq_self, none, some, [], ◌∷◌, ok, ◌+◌, ◌≡◌, nat_eq, bytes_eq, refl, arith, ℕ, ◌==◌,
  Option, ◌<◌, ◌*◌, if◌then◌else◌, ◌/◌, ◌%◌, drop,
}
use tun2proxy.Dns.{
  query, response, Hickory, parse_data_to_dns_message, Message, validate_dns_query, Query,
  validate_dns_response,
}

abbrev question_of : ℕ → Query
question_of n = record { name = n ∷ []; query_type = 1; query_class = 1 }

abbrev parse_message : Bytes → Option Message
parse_message (x ∷ y ∷ n ∷ []) = some (record {
  id = x * 256 + y;
  message_type = query;
  op_code = 0;
  response_code = 0;
  authoritative = false;
  truncation = false;
  recursion_available = false;
  authentic_data = false;
  answers = [];
  authorities = [];
  additionals = [];
  signature = none;
  queries = question_of n ∷ [];
})
parse_message _ = none

abbrev pub hickory : Hickory
hickory = record {
  from_vec = parse_message;
  eq_ignore_root = λ m n. m == n;
  to_ascii = λ n. n;
  into_response = λ m. record m { message_type = response };
  eq_ignore_root-self = λ n. beq_self n;
  into_response-type = λ m. refl;
  into_response-id = λ m. refl;
  into_response-op_code = λ m. refl;
  into_response-queries = λ m. refl;
}

-- One request in flight, under the identifier that the next one has too.
abbrev request_one : Bytes
request_one = 255 ∷ 255 ∷ 1 ∷ []

abbrev pub request_two : Bytes
request_two = 255 ∷ 255 ∷ 2 ∷ []

abbrev busy : Transactions
busy = record {
  pending =
      (65535, record { request = request_one; question = question_of 1; client_id = 65535 }) ∷ [];
}

abbrev pub asked : Message
asked = record {
  id = 65535;
  message_type = query;
  op_code = 0;
  response_code = 0;
  authoritative = false;
  truncation = false;
  recursion_available = false;
  authentic_data = false;
  answers = [];
  authorities = [];
  additionals = [];
  signature = none;
  queries = question_of 2 ∷ [];
}

two-IsNew : IsNew hickory busy request_two asked (question_of 2)
unfolding parse_data_to_dns_message validate_dns_query in_flight
two-IsNew = record {
  parsed = refl;
  asked = refl;
  not_in_flight = refl;
  room = omega arith;
  small = omega arith;
}

prepare_forwards_example :
    (i : ℕ) × (i < 65536)
    × (lookup i busy.pending ≡ none)
    × ((prepare hickory busy request_two).1
        ≡ ok (some ((i / 256) ∷ (i % 256) ∷ drop 2 request_two)))
    × ((j : ℕ)
        → lookup j (prepare hickory busy request_two).0.pending ≡ (
            if i == j
            then some
                (record { request = request_two; question = question_of 2; client_id = 65535 })
            else lookup j busy.pending))
prepare_forwards_example = prepare_forwards hickory busy request_two asked (question_of 2) two-IsNew

abbrev answer : Message
answer = record {
  id = 0;
  message_type = response;
  op_code = 0;
  response_code = 0;
  authoritative = false;
  truncation = false;
  recursion_available = false;
  authentic_data = false;
  answers = [];
  authorities = [];
  additionals = [];
  signature = none;
  queries = question_of 2 ∷ [];
}

complete-prepare_example :
    ((complete hickory (prepare hickory busy request_two).0 answer).1
      ≡ ok (record answer { id = 65535 }))
    × ((j : ℕ)
        → lookup j (complete hickory (prepare hickory busy request_two).0 answer).0.pending
          ≡ lookup j busy.pending)
unfolding prepare forward free_id in_flight parse_data_to_dns_message validate_dns_query
    validate_dns_response
complete-prepare_example =
    complete-prepare hickory busy request_two asked (question_of 2) answer two-IsNew refl
      (λ e. grind (arith, e)) refl

free_id_total_example :
    (i : ℕ) × (free_id 2 65535 busy.pending ≡ some i) × (lookup i busy.pending ≡ none) × (i < 65536)
free_id_total_example = free_id_total 65535 busy.pending (omega arith) (omega arith)

asked_is_valid : validate_dns_query asked ≡ ok (question_of 2)
unfolding validate_dns_query
asked_is_valid = refl

build_dns_response_answers_example :
    (m : Message) × (build_dns_response hickory asked (some (v4 7)) 60 ≡ ok m)
    × (validate_dns_response hickory m 65535 (question_of 2) ≡ ok tt)
    × (extract_ipaddr_from_dns_message hickory m ≡ of_type hickory 1 (some (v4 7)))
build_dns_response_answers_example =
    build_dns_response_answers hickory asked (question_of 2) (some (v4 7)) 60 asked_is_valid

-- An address behind another name, and an IPv6 record.
abbrev answered : Message
answered = record asked {
  message_type = response;
  answers =
      record { name = 2 ∷ []; ttl = 60; dns_class = 1; rdata = aaaa 9 }
      ∷ record { name = 2 ∷ []; ttl = 60; dns_class = 1; rdata = cname (5 ∷ []) }
      ∷ record { name = 5 ∷ []; ttl = 60; dns_class = 1; rdata = a 7 }
      ∷ [];
}

extract-remove_ipv6_entries_example :
    extract_address_or_cname hickory (remove_ipv6_entries answered) (question_of 2)
    ≡ extract_address_or_cname hickory answered (question_of 2)
extract-remove_ipv6_entries_example =
    extract-remove_ipv6_entries hickory answered (question_of 2) (λ e. omega (arith, e))

address_is_found : extract_address_or_cname hickory answered (question_of 2) ≡ ok (address (v4 7))
unfolding extract_address_or_cname follow scan_answers
address_is_found = refl
