-- ===== src/Dns/Transactions.antt =====
-- dns_transactions.rs: requests of several clients on one DNS connection, each under an identifier of
-- its own.
use tun2proxy.Maps.{lookup, is_none, without}
use tun2proxy.Proxy.{Bytes}
use tun2proxy.Dns.{
  Hickory, Result, Bool, Message, Option, Query, DnsError, parse_data_to_dns_message, out_of_fuel,
  unsolicited, validate_dns_query, validate_dns_response, limit_reached,
}
use tun2proxy.Prelude.{
  zero, suc, false, none, some, [], ◌∷◌, ok, err, ◌+◌, ◌%◌, bytes_eq, nat_eq, ℕ, List, Bool, Option,
  Result, ◌/◌, suc, ◌==◌, drop, ◌||◌, if◌then◌else◌, length, leb, ◌++◌,
}

pub record Pending : Type 0 where
  pub request : Bytes
  pub question : Query
  pub client_id : ℕ

-- `HashMap<u16, Pending>`, as its entries; `insert` replaces.
pub record Transactions : Type 0 where
  pub pending : List (ℕ × Pending)

abbrev pub max_outstanding_dns_queries : ℕ
max_outstanding_dns_queries = 256

-- `pending.values().any(|pending| pending.request == request)`
unfoldable pub in_flight : Bytes → List (ℕ × Pending) → Bool
in_flight request [] = false
in_flight request ((id, p) ∷ ps) = (p.request == request) || in_flight request ps

abbrev pub wrapping_add : ℕ → ℕ
wrapping_add id = (id + 1) % 65536

-- The `while` loop; without fuel it stands still, which is `none`.
unfoldable pub free_id : ℕ → ℕ → List (ℕ × Pending) → Option ℕ
free_id zero upstream_id pending = none
free_id (suc fuel) upstream_id pending =
    let next = free_id fuel (wrapping_add upstream_id) pending in
    if is_none (lookup upstream_id pending) then some upstream_id else next

-- `forwarded[..2].copy_from_slice(...)`: the parsed request has two bytes at least.
unfoldable pub with_id : ℕ → Bytes → Bytes
with_id id bytes = (id / 256) ∷ (id % 256) ∷ drop 2 bytes

module _ (H : Hickory) where
  -- The part of `prepare` after the tests.
  unfoldable pub forward :
      Transactions → Bytes → Message → Query → Transactions × Result DnsError (Option Bytes)
  unfolding free_id with_id
  forward t request q question = elim (free_id (suc (length t.pending)) q.id t.pending) [
    | none ↦ (t, err out_of_fuel)
    | some upstream_id ↦ (
      record {
        pending =
            without upstream_id t.pending
            ++ (upstream_id, record { request = request; question = question; client_id = q.id })
              ∷ [];
      },
      ok (some (with_id upstream_id request)),
    )
  ]

  unfoldable pub prepare : Transactions → Bytes → Transactions × Result DnsError (Option Bytes)
  unfolding forward in_flight
  prepare t request = elim (parse_data_to_dns_message H request) [
    | err e ↦ (t, err e)
    | ok q ↦ elim (validate_dns_query q) [
      | err e ↦ (t, err e)
      | ok question ↦
          if in_flight request t.pending
          then (t, ok none)
          else if leb max_outstanding_dns_queries (length t.pending)
          then (t, err limit_reached)
          else forward t request q question
    ]
  ]

  -- The response comes back with the client's identifier.
  unfoldable pub complete : Transactions → Message → Transactions × Result DnsError Message
  complete t response = elim (lookup response.id t.pending) [
    | none ↦ (t, err unsolicited)
    | some p ↦ elim (validate_dns_response H response response.id p.question) [
      | err e ↦ (t, err e)
      | ok _ ↦ (
        record { pending = without response.id t.pending },
        ok (record response { id = p.client_id }),
      )
    ]
  ]
