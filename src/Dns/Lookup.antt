-- ===== src/Dns/Lookup.antt =====
-- dns.rs: that an answer is built as it is read, what a lookup rests on, and what filtering leaves.
use tun2proxy.Dns.Answers.{
  answers_of, address, found, renamed, Scanned, type_a, type_aaaa, answer_data, keep_ipv4,
  remove_ipv6_entries, build_dns_response, scan_answers, follow, extract_address_or_cname,
  extract_ipaddr_from_dns_message, address_only,
}
use tun2proxy.Dns.{
  a, aaaa, cname, other_data, RData, Record, Message, Query, Hickory, DnsError, validate_dns_query,
  validate_dns_response, same_question, List, ℕ, eqb, Option, Bool, no_address,
  wrong_question_count, Result, not, is_query,
}
use tun2proxy.Proxy.{Bytes}
use tun2proxy.Ip.{v4, v6, IpAddr}
use tun2proxy.Prelude.{
  ◌>>=◌, refl, zero, suc, true, false, none, some, inl, inr, [], ◌∷◌, ok, err, ◌≡◌, ◌≢◌, arith, ap,
  ◌∙◌, List, eqb, ℕ, Option, Bool, ◌⊎◌, Result, Bool-cases, not, if◌then◌else◌,
}

Scanned-cases :
    (x : Scanned)
    → ((ip : IpAddr) × (x ≡ found ip))
      ⊎ (x ≡ renamed none)
      ⊎ ((name : Bytes) × (x ≡ renamed (some name)))
Scanned-cases (found ip) = inl (ip, refl)
Scanned-cases (renamed none) = inr (inl refl)
Scanned-cases (renamed (some name)) = inr (inr (name, refl))

abbrev only : List Query → Result DnsError Query
only (q ∷ []) = ok q
only _ = err wrong_question_count

abbrev value_or : Query → Result DnsError Query → Query
value_or d (ok q) = q
value_or d (err e) = d

only_query : (qs : List Query) (q : Query) → only qs ≡ ok q → qs ≡ q ∷ []
only_query [] q h = cc
only_query (x ∷ []) q h = ap (λ r. value_or q r ∷ []) h
only_query (x ∷ y ∷ qs) q h = cc

valid_query :
    (m : Message) (q : Query)
    → validate_dns_query m ≡ ok q
    → (eqb m.op_code 0 ≡ true) × (m.queries ≡ q ∷ [])
unfolding validate_dns_query
valid_query m q h = elim (Bool-cases (not (is_query m.message_type))) [
  | inl bad ↦ ground (arith, (rw (bad, validate_dns_query) at h))
  | inr fine ↦ elim (Bool-cases (eqb m.op_code 0)) [
    | inr bad ↦ ground (arith, (rw (fine, bad, validate_dns_query) at h))
    | inl good ↦ (good, only_query m.queries q (rw (fine, good, validate_dns_query) at h))
  ]
]

module _ (H : Hickory) where
  scan_record :
      (current : Bytes) (r : Record) (rs : List Record) (d : RData) (last : Option Bytes)
      → r.rdata ≡ d
      → ((l : Option Bytes)
          → scan_answers H false current (keep_ipv4 rs) l ≡ scan_answers H false current rs l)
      → scan_answers H false current (keep_ipv4 (r ∷ rs)) last
        ≡ scan_answers H false current (r ∷ rs) last
  unfolding scan_answers keep_ipv4
  scan_record current r rs (a n) last e ih = ground (arith, e, ih last)
  scan_record current r rs (aaaa n) last e ih = ground (arith, e, ih last)
  scan_record current r rs (cname name) last e ih = ground (arith, e, ih last, ih (some name))
  scan_record current r rs (other_data bytes) last e ih = ground (arith, e, ih last)

  -- Lookups of IPv4 addresses do not see the records that are removed.
  scan_answers-keep_ipv4 :
      (current : Bytes) (rs : List Record) (last : Option Bytes)
      → scan_answers H false current (keep_ipv4 rs) last ≡ scan_answers H false current rs last
  unfolding scan_answers keep_ipv4
  scan_answers-keep_ipv4 current [] last = refl
  scan_answers-keep_ipv4 current (r ∷ rs) last =
      scan_record current r rs r.rdata last refl (scan_answers-keep_ipv4 current rs)

  follow-keep_ipv4 :
      (rounds : ℕ) (rs : List Record) (current : Bytes) (followed_cname : Bool)
      → follow H rounds false (keep_ipv4 rs) current followed_cname
        ≡ follow H rounds false rs current followed_cname
  unfolding follow
  follow-keep_ipv4 zero rs current followed_cname = refl
  follow-keep_ipv4 (suc rounds) rs current followed_cname =
      let same = scan_answers-keep_ipv4 current rs none in
      elim (Scanned-cases (scan_answers H false current rs none)) [
        | inl (ip, e) ↦ rw (same, e, follow) refl
        | inr (inl e) ↦ rw (same, e, follow) refl
        | inr (inr (name, e)) ↦ rw (same, e, follow-keep_ipv4 rounds rs name true, follow) refl
      ]

  -- Removing IPv6 records changes no lookup of another type than AAAA.
  pub extract-remove_ipv6_entries :
      (m : Message) (q : Query)
      → q.query_type ≢ type_aaaa
      → extract_address_or_cname H (remove_ipv6_entries m) q ≡ extract_address_or_cname H m q
  unfolding extract_address_or_cname remove_ipv6_entries
  extract-remove_ipv6_entries m q other =
      let v4_only : eqb q.query_type type_aaaa ≡ false = ground (arith, other) in
      rw (v4_only, follow-keep_ipv4 8 m.answers q.name false) refl

  -- The message that `build_dns_response` makes.
  abbrev made : Message → Query → Option IpAddr → ℕ → Message
  made request q ip ttl = record (H.into_response request) {
    authoritative = false;
    truncation = false;
    recursion_available = true;
    authentic_data = false;
    response_code = 0;
    answers = answers_of q ttl (answer_data q.query_type ip);
    authorities = [];
    additionals = [];
    signature = none;
  }

  build_lem :
      (request : Message) (q : Query) (ip : Option IpAddr) (ttl : ℕ)
      → validate_dns_query request ≡ ok q
      → build_dns_response H request ip ttl ≡ ok (made request q ip ttl)
  unfolding build_dns_response
  build_lem request q ip ttl valid = rw (valid, build_dns_response) refl

  same_question_self : (q : Query) → same_question H (q ∷ []) q ≡ ok tt
  unfolding same_question
  same_question_self q = ground (arith, H.eq_ignore_root-self q.name)

  made_validates :
      (request : Message) (q : Query) (ip : Option IpAddr) (ttl : ℕ)
      → validate_dns_query request ≡ ok q
      → validate_dns_response H (made request q ip ttl) request.id q ≡ ok tt
  unfolding validate_dns_response
  made_validates request q ip ttl valid =
      let (op_code, queries) = valid_query request q valid in
      let same_id : eqb (H.into_response request).id request.id ≡ true =
        ground (arith, H.into_response-id request) in
      let same_code : eqb (H.into_response request).op_code 0 ≡ true =
        ap (λ k. eqb k 0) (H.into_response-op_code request) ∙ op_code in
      let same_queries : (H.into_response request).queries ≡ q ∷ [] =
        H.into_response-queries request ∙ queries in
      rw (H.into_response-type request, same_code, same_id, same_queries, validate_dns_response)
        (same_question_self q)

  -- The address, where it is an IPv4 one and type A (1) was asked for, or an IPv6 one and type AAAA
  -- (28).
  abbrev pub of_type : ℕ → Option IpAddr → Result DnsError IpAddr
  of_type query_type none = err no_address
  of_type query_type (some (v4 n)) = if eqb query_type 1 then ok (v4 n) else err no_address
  of_type query_type (some (v6 n)) = if eqb query_type 28 then ok (v6 n) else err no_address

  -- One answer is read in the first round.
  follow_one :
      (want_ipv6 : Bool) (q : Query) (ttl : ℕ) (d : RData) (ip : IpAddr)
      → scan_answers H want_ipv6 q.name (answers_of q ttl (some d)) none ≡ found ip
      → follow H 8 want_ipv6 (answers_of q ttl (some d)) q.name false ≡ ok (address ip)
  unfolding follow
  follow_one want_ipv6 q ttl d ip e = rw (e, follow) refl

  scan_v4 :
      (q : Query) (ttl n : ℕ)
      → scan_answers H false q.name (answers_of q ttl (some (a n))) none ≡ found (v4 n)
  unfolding scan_answers
  scan_v4 q ttl n = rw (H.eq_ignore_root-self q.name) refl

  scan_v6 :
      (q : Query) (ttl n : ℕ)
      → scan_answers H true q.name (answers_of q ttl (some (aaaa n))) none ≡ found (v6 n)
  unfolding scan_answers
  scan_v6 q ttl n = rw (H.eq_ignore_root-self q.name) refl

  follow_none :
      (want_ipv6 : Bool) (q : Query) → follow H 8 want_ipv6 [] q.name false ≡ err no_address
  unfolding follow scan_answers
  follow_none want_ipv6 q = refl

  abbrev read_answers : Query → ℕ → Option RData → Result DnsError IpAddr
  read_answers q ttl d =
      follow H 8 (eqb q.query_type type_aaaa) (answers_of q ttl d) q.name false >>= address_only H

  reads_lem :
      (q : Query) (ip : Option IpAddr) (ttl : ℕ)
      → read_answers q ttl (answer_data q.query_type ip) ≡ of_type q.query_type ip
  unfolding answer_data
  reads_lem q none ttl = rw (follow_none (eqb q.query_type type_aaaa) q) refl
  reads_lem q (some (v4 n)) ttl = elim (Bool-cases (eqb q.query_type type_a)) [
    | inr other ↦ rw (other, follow_none (eqb q.query_type type_aaaa) q) refl
    | inl asked ↦
        let v4_only : eqb q.query_type type_aaaa ≡ false = ground (arith, asked) in
        rw (asked, v4_only, follow_one false q ttl (a n) (v4 n) (scan_v4 q ttl n)) refl
  ]
  reads_lem q (some (v6 n)) ttl = elim (Bool-cases (eqb q.query_type type_aaaa)) [
    | inr other ↦ rw (other, follow_none false q) refl
    | inl asked ↦ rw (asked, follow_one true q ttl (aaaa n) (v6 n) (scan_v6 q ttl n)) refl
  ]

  made_reads :
      (request : Message) (q : Query) (ip : Option IpAddr) (ttl : ℕ)
      → validate_dns_query request ≡ ok q
      → extract_ipaddr_from_dns_message H (made request q ip ttl) ≡ of_type q.query_type ip
  unfolding extract_ipaddr_from_dns_message extract_address_or_cname
  made_reads request q ip ttl valid =
      let (op_code, queries) = valid_query request q valid in
      let same_queries : (H.into_response request).queries ≡ q ∷ [] =
        H.into_response-queries request ∙ queries in
      rw same_queries (reads_lem q ip ttl)

  -- What answers a valid query passes the test on responses to that query; an IPv4 address is read
  -- from it where type A was asked for and an IPv6 one where type AAAA was, and otherwise no address
  -- is.
  pub build_dns_response_answers :
      (request : Message) (q : Query) (ip : Option IpAddr) (ttl : ℕ)
      → validate_dns_query request ≡ ok q
      → (m : Message) × (build_dns_response H request ip ttl ≡ ok m)
        × (validate_dns_response H m request.id q ≡ ok tt)
        × (extract_ipaddr_from_dns_message H m ≡ of_type q.query_type ip)
  build_dns_response_answers request q ip ttl valid = (
    made request q ip ttl,
    build_lem request q ip ttl valid,
    made_validates request q ip ttl valid,
    made_reads request q ip ttl valid,
  )
