-- ===== src/Tests/Routing.antt =====
-- Inputs for the theorems about dns_routing.rs: messages of three bytes, their kind, their identifier
-- and their name.
use tun2proxy.DnsRouting.Routes.{tcp_routes, AllRouted, SendsOnly}
use tun2proxy.DnsRouting.Fuel.{Session, tcp-Session}
use tun2proxy.DnsRouting.{
  RoutingError, DnsOverride, Upstream, Answered, read_frame, write_request, send, checked, receive,
  question_of, exchange, answer_client, serve, tcp,
}
use tun2proxy.Dns.Answers.{remove_ipv6_entries, keep_ipv4}
use tun2proxy.Dns.{
  query, response, Hickory, parse_data_to_dns_message, Message, MessageType, validate_dns_query,
  validate_dns_response,
}
use tun2proxy.Proxy.{Bytes}
use tun2proxy.Prelude.{
  refl, true, false, none, some, [], ◌∷◌, ok, arith, ◌≡◌, ◌==◌, ℕ, List, Option, Result, get_or,
  eqb, beq_self, bytes_eq, map, if◌then◌else◌,
}

abbrev kind_of : ℕ → MessageType
kind_of k = if eqb k 0 then query else response

abbrev message_of : ℕ → ℕ → ℕ → Message
message_of k id n = record {
  id = id;
  message_type = kind_of k;
  op_code = 0;
  queries = record { name = n ∷ []; query_type = 1; query_class = 1 } ∷ [];
  response_code = 0;
  authoritative = false;
  truncation = false;
  recursion_available = false;
  authentic_data = false;
  answers = [];
  authorities = [];
  additionals = [];
  signature = none;
}

abbrev parse_three : Bytes → Option Message
parse_three (k ∷ id ∷ n ∷ []) = some (message_of k id n)
parse_three _ = none

abbrev three_bytes : Hickory
three_bytes = record {
  from_vec = parse_three;
  eq_ignore_root = λ m n. m == n;
  to_ascii = λ n. n;
  into_response = λ m. record m { message_type = response };
  eq_ignore_root-self = λ n. beq_self n;
  into_response-type = λ m. refl;
  into_response-id = λ m. refl;
  into_response-op_code = λ m. refl;
  into_response-queries = λ m. refl;
}

abbrev encode : Message → Option Bytes
encode m = some (1 ∷ m.id ∷ [])

-- It claims the name 7.
abbrev claims_seven : DnsOverride
claims_seven = record {
  matches = λ request. ok (eqb (get_or request 2 0) 7);
  answer = λ request udp. ok (1 ∷ get_or request 1 0 ∷ get_or request 2 0 ∷ []);
}

abbrev routing_program : Unit {0}
unfolding read_frame write_request send checked receive question_of exchange answer_client serve tcp
    parse_data_to_dns_message validate_dns_query validate_dns_response remove_ipv6_entries keep_ipv4
routing_program = tt

-- A question for the name 7 and one for the name 9.
abbrev two_questions : Bytes
two_questions = 0 ∷ 3 ∷ 0 ∷ 4 ∷ 7 ∷ 0 ∷ 3 ∷ 0 ∷ 5 ∷ 9 ∷ []

abbrev closed_upstream : Upstream
closed_upstream = record { is_open = false; sent = []; incoming = 0 ∷ 3 ∷ 1 ∷ 5 ∷ 9 ∷ [] }

abbrev session : ℕ → Upstream × List Answered × Result RoutingError (Unit {0})
session fuel = tcp three_bytes encode false claims_seven true fuel two_questions closed_upstream

-- Both are answered, and the proxy sees the second only.
answered_both :
    (map (λ a. a.is_direct) (session 11).1 ≡ true ∷ false ∷ [])
    × ((session 11).0.sent ≡ 0 ∷ 3 ∷ 0 ∷ 5 ∷ 9 ∷ [])
unfolding routing_program
answered_both = (refl, refl)

tcp_routes_example :
    AllRouted three_bytes encode false claims_seven true closed_upstream.incoming (session 11).1
    × SendsOnly claims_seven [] (session 11).0.sent
tcp_routes_example =
    tcp_routes three_bytes encode false claims_seven true 11 two_questions closed_upstream

tcp-Session_example :
    Session three_bytes encode false claims_seven true two_questions closed_upstream (session 11)
tcp-Session_example =
    tcp-Session three_bytes encode false claims_seven true 11 two_questions closed_upstream
      (omega arith)
