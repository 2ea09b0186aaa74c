-- ===== src/Dns/Answers.antt =====
-- dns.rs: building responses, and reading addresses from them along a chain of names.
use tun2proxy.Dns.{
  a, aaaa, cname, other_data, only_cname, failed_response, no_question, cname_loop, no_address,
  chain_too_long, RData, Record, Message, Query, Hickory, DnsError, validate_dns_query, Result, ℕ,
  Bool, Option, List, not, eqb,
}
use tun2proxy.Proxy.{Bytes}
use tun2proxy.Ip.{v4, v6, IpAddr}
use tun2proxy.Prelude.{
  zero, suc, true, false, none, some, [], ◌∷◌, ok, err, ◌>>=◌, Result, ℕ, Bool, Option, List, ok_or,
  if◌then◌else◌, eqb, not,
}

abbrev pub max_cname_depth : ℕ
max_cname_depth = 8

-- hickory_proto's numbers of the record types.
abbrev pub type_a : ℕ
type_a = 1

abbrev pub type_aaaa : ℕ
type_aaaa = 28

pub data AddressLookup : Type 0 where
  address : IpAddr → AddressLookup
  cname_of : Bytes → AddressLookup

-- The record for an address of the type that is asked for.
unfoldable pub answer_data : ℕ → Option IpAddr → Option RData
answer_data query_type none = none
answer_data query_type (some (v4 ip)) = if eqb query_type type_a then some (a ip) else none
answer_data query_type (some (v6 ip)) = if eqb query_type type_aaaa then some (aaaa ip) else none

abbrev pub answers_of : Query → ℕ → Option RData → List Record
answers_of q ttl none = []
answers_of q ttl (some data_of) =
    record { name = q.name; ttl = ttl; dns_class = q.query_class; rdata = data_of } ∷ []

unfoldable pub keep_ipv4 : List Record → List Record
keep_ipv4 [] = []
keep_ipv4 (r ∷ rs) = let rest = keep_ipv4 rs in elim r.rdata [ aaaa n ↦ rest | _ ↦ r ∷ rest ]

unfoldable pub remove_ipv6_entries : Message → Message
remove_ipv6_entries m = record m {
  answers = keep_ipv4 m.answers;
  authorities = keep_ipv4 m.authorities;
  additionals = keep_ipv4 m.additionals;
  authentic_data = false;
  signature = none;
}

-- What a pass over the answers for one name gives: an address, or the last other name.
pub data Scanned : Type 0 where
  found : IpAddr → Scanned
  renamed : Option Bytes → Scanned

module _ (H : Hickory) where
  open H use {eq_ignore_root, to_ascii, into_response}

  unfoldable pub build_dns_response : Message → Option IpAddr → ℕ → Result DnsError Message
  build_dns_response request ip ttl = do
    q ← validate_dns_query request
    ok (record (into_response request) {
      authoritative = false;
      truncation = false;
      recursion_available = true;
      authentic_data = false;
      response_code = 0;
      answers = answers_of q ttl (answer_data q.query_type ip);
      authorities = [];
      additionals = [];
      signature = none;
    })

  unfoldable pub scan_answers : Bool → Bytes → List Record → Option Bytes → Scanned
  scan_answers want_ipv6 current [] last = renamed last
  scan_answers want_ipv6 current (r ∷ rs) last =
      let skip = scan_answers want_ipv6 current rs last in
      if not (eq_ignore_root r.name current) then skip else elim r.rdata [
        | a n ↦ if want_ipv6 then skip else found (v4 n)
        | aaaa n ↦ if want_ipv6 then found (v6 n) else skip
        | cname name ↦ scan_answers want_ipv6 current rs (some name)
        | other_data bytes ↦ skip
      ]

  -- The loop over the chain, with the rounds that are left.
  unfoldable pub follow : ℕ → Bool → List Record → Bytes → Bool → Result DnsError AddressLookup
  follow zero want_ipv6 answers current followed_cname = err chain_too_long
  follow (suc rounds) want_ipv6 answers current followed_cname =
      elim (scan_answers want_ipv6 current answers none) [
        | found ip ↦ ok (address ip)
        | renamed none ↦ if followed_cname then ok (cname_of (to_ascii current)) else err no_address
        | renamed (some name) ↦
            if eq_ignore_root name current
            then err cname_loop
            else follow rounds want_ipv6 answers name true
      ]

  unfoldable pub extract_address_or_cname : Message → Query → Result DnsError AddressLookup
  extract_address_or_cname m q =
      if not (eqb m.response_code 0)
      then err failed_response
      else follow max_cname_depth (eqb q.query_type type_aaaa) m.answers q.name false

  -- A name at the end of the chain is an error here.
  abbrev pub address_only : AddressLookup → Result DnsError IpAddr
  address_only (address ip) = ok ip
  address_only (cname_of name) = err (only_cname name)

  abbrev pub first_query : List Query → Option Query
  first_query [] = none
  first_query (q ∷ qs) = some q

  unfoldable pub extract_ipaddr_from_dns_message : Message → Result DnsError IpAddr
  extract_ipaddr_from_dns_message m = do
    q ← ok_or (first_query m.queries) no_question
    lookup ← extract_address_or_cname m q
    address_only lookup

  unfoldable pub extract_domain_from_dns_message : Message → Result DnsError Bytes
  extract_domain_from_dns_message m = do
    q ← ok_or (first_query m.queries) no_question
    ok (to_ascii q.name)
