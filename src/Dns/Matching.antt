-- ===== src/Dns/Matching.antt =====
-- dns_transactions.rs: requests, and the answers that come back for them.
use tun2proxy.Dns.Identifiers.{free_id_total}
use tun2proxy.Maps.{lookup, lookup-without_snoc, lookup-without}
use tun2proxy.Proxy.{Bytes}
use tun2proxy.Dns.Transactions.{
  Transactions, prepare, forward, in_flight, with_id, max_outstanding_dns_queries, complete,
  Pending,
}
use tun2proxy.Dns.{
  Hickory, Bytes, Message, Query, parse_data_to_dns_message, ℕ, validate_dns_query, length,
  validate_dns_response, drop,
}
use tun2proxy.Prelude.{
  false, none, some, ok, ◌≡◌, nat_eq, bytes_eq, refl, arith, ℕ, ◌<◌, length, if◌then◌else◌, ◌==◌,
  leb, ◌≢◌, ◌/◌, ◌∷◌, ◌%◌, drop,
}

module _ (H : Hickory) where
  -- The tests of `prepare` that a new request passes.
  pub record IsNew (t : Transactions) (request : Bytes) (q : Message) (question : Query)
      : Type 0 where
    pub parsed : parse_data_to_dns_message H request ≡ ok q
    pub asked : validate_dns_query q ≡ ok question
    pub not_in_flight : in_flight request t.pending ≡ false
    pub room : length t.pending < max_outstanding_dns_queries
    pub small : q.id < 65536

  -- A new request is forwarded with its first two bytes, the identifier, replaced by one that no
  -- request in flight has, high byte first; it is in flight under that, and every other request keeps
  -- its own.
  pub prepare_forwards :
      (t : Transactions) (request : Bytes) (q : Message) (question : Query)
      → IsNew t request q question
      → (i : ℕ) × (i < 65536)
        × (lookup i t.pending ≡ none)
        × ((prepare H t request).1 ≡ ok (some ((i / 256) ∷ (i % 256) ∷ drop 2 request)))
        × ((j : ℕ)
            → lookup j (prepare H t request).0.pending ≡ (
                if i == j
                then some (record { request = request; question = question; client_id = q.id })
                else lookup j t.pending))
  unfolding prepare forward with_id
  prepare_forwards t request q question n =
      let (i, found, unused, small) =
        free_id_total q.id t.pending (omega (arith, n.room)) n.small in
      let fits : leb max_outstanding_dns_queries (length t.pending) ≡ false =
        ground (arith, n.room) in
      (
        i,
        small,
        unused,
        rw (n.parsed, n.asked, n.not_in_flight, fits, found, prepare, forward) refl,
        λ j.
            rw (n.parsed, n.asked, n.not_in_flight, fits, found, prepare, forward)
              (lookup-without_snoc t.pending i
                (record { request = request; question = question; client_id = q.id }) j),
      )

  -- After a new request was forwarded, an answer that has the identifier that is new in the table,
  -- and that is valid for the request's question, comes back under the client's identifier, and the
  -- requests in flight are those from before.
  pub complete-prepare :
      (t : Transactions) (request : Bytes) (q : Message) (question : Query) (answer : Message)
      → IsNew t request q question
      → lookup answer.id t.pending ≡ none
      → lookup answer.id (prepare H t request).0.pending ≢ none
      → validate_dns_response H answer answer.id question ≡ ok tt
      → ((complete H (prepare H t request).0 answer).1 ≡ ok (record answer { id = q.id }))
        × ((j : ℕ)
            → lookup j (complete H (prepare H t request).0 answer).0.pending ≡ lookup j t.pending)
  unfolding complete
  complete-prepare t request q question answer n unused new_there valid =
      let (i, small, free, sent, after) = prepare_forwards t request q question n in
      let entry : Pending = record { request = request; question = question; client_id = q.id } in
      let waits : lookup answer.id (prepare H t request).0.pending ≡ some entry =
        ground (arith, after answer.id, unused, new_there) in
      (
        rw (waits, valid, complete) refl,
        λ j.
            rw (waits, valid, complete)
              (ground (
                arith,
                lookup-without answer.id j (prepare H t request).0.pending,
                after j,
                after answer.id,
                unused,
              )),
      )
