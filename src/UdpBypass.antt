-- ===== src/UdpBypass.antt =====
-- udp_bypass.rs: the pool of physical UDP sockets, one per application socket, with the routes to
-- the peers that were contacted. Time is a number of seconds, and binding a socket may fail.
pub mod Entries
pub mod Limits
pub mod Active
use tun2proxy.Maps.Assoc.{lookup, without}
use tun2proxy.Proxy.{Bytes, SocketAddr}
use tun2proxy.Ip.{ip_beq_iff, ip_eq, v4, v6, IpAddr, is_ipv4, value}
use tun2proxy.Prelude.{
  zero, suc, true, false, none, some, [], ◌∷◌, ok, err, arith, ◌+◌, ◌-◌, ◌*◌, ◌/◌, ◌^◌, ◌≡◌, ◌≤◌,
  ◌<◌, ◌++◌, ◌&&◌, ◌||◌, ◌==◌, Eq, if◌then◌else◌, Option, Bool, ℕ, List, ◌↔◌, not, ltb, leb, Result,
  eqb, bool_beq, length,
}

abbrev pub idle_timeout : ℕ
idle_timeout = 120

abbrev pub owner_failure_grace : ℕ
owner_failure_grace = 6

abbrev pub queued_bytes : ℕ
queued_bytes = 8 * 1024 * 1024

abbrev pub peer_queue : ℕ
peer_queue = 16

-- The interface indices of direct::BindInterface.
pub record BindInterface : Type 0 where
  pub ipv4_index : ℕ
  pub ipv6_index : ℕ

abbrev pub addr_beq : SocketAddr → SocketAddr → Bool
addr_beq a b = (a.ip == b.ip) && eqb a.port b.port

pub addr_beq_iff : (a b : SocketAddr) → (addr_beq a b ≡ true) ↔ (a ≡ b)
addr_beq_iff a b = ground (arith, ip_beq_iff a.ip b.ip)

instance abbrev pub addr_eq : Eq SocketAddr
addr_eq = record { beq = addr_beq; beq_iff = addr_beq_iff }

abbrev is_multicast : IpAddr → Bool
is_multicast (v4 n) = eqb (n / 2 ^ 28) 14
is_multicast (v6 n) = eqb (n / 2 ^ 120) 255

abbrev is_unspecified : IpAddr → Bool
is_unspecified ip = eqb (value ip) 0

abbrev pub is_refused : SocketAddr → SocketAddr → Bool
is_refused source peer =
    not (bool_beq (is_ipv4 source.ip) (is_ipv4 peer.ip))
    || (is_multicast peer.ip || is_unspecified peer.ip)

-- The queues of a route stand for the channel between the receiver and the flow.
abbrev pub Routes : Type 0
Routes = List (SocketAddr × List Bytes)

pub record Endpoint (Owner : Type 0) : Type 0 where
  pub owner : Owner
  pub interface : BindInterface
  pub routes : Routes
  pub last_activity : ℕ
  pub closed : Bool

-- `retired` are the endpoints that left the pool, which flows may still hold.
pub record Pool (Owner : Type 0) : Type 0 where
  pub endpoints : List (SocketAddr × Endpoint Owner)
  pub retired : List (Endpoint Owner)
  pub owner_failure_since : Option ℕ
  pub limit : ℕ

pub record Flow : Type 0 where
  pub source : SocketAddr
  pub peer : SocketAddr

pub data BypassError : Type 0 where
  invalid_input broken_pipe bind_failed missing : BypassError

abbrev is_empty : {A : Type 0} → List A → Bool
is_empty [] = true
is_empty (a ∷ l) = false

abbrev pub Entries : Type 0 → Type 0
Entries Owner = List (SocketAddr × Endpoint Owner)

-- Whether the owners count as unknown, and since when they are. `owners` is the table of the
-- operating system, where it could be read.
abbrev pub ownership_unknown : ℕ → Bool → Option ℕ → Bool
ownership_unknown now true since = false
ownership_unknown now false none = ltb 0 owner_failure_grace
ownership_unknown now false (some t) = ltb (now - t) owner_failure_grace

abbrev failure_since : ℕ → Bool → Option ℕ → Option ℕ
failure_since now true since = none
failure_since now false none = some now
failure_since now false (some t) = some t

abbrev is_some : {A : Type 0} → Option A → Bool
is_some none = false
is_some (some a) = true

module _ {Owner : Type 0} ⦃same : Eq Owner⦄ where
  unfoldable pub uses_interface : Endpoint Owner → SocketAddr → BindInterface → Bool
  uses_interface e source interface =
      if is_ipv4 source.ip
      then eqb e.interface.ipv4_index interface.ipv4_index
      else eqb e.interface.ipv6_index interface.ipv6_index

  abbrev pub close : Endpoint Owner → Endpoint Owner
  close e = record e { routes = []; closed = true }

  unfoldable pub expired : ℕ → Endpoint Owner → Bool
  expired now e = e.closed || (is_empty e.routes && leb idle_timeout (now - e.last_activity))

  unfoldable pub new : ℕ → Pool Owner
  new limit = record {
    endpoints = [];
    retired = [];
    owner_failure_since = none;
    limit = if ltb limit 1024 then limit else 1024;
  }

  -- `retain` with a close of what goes: what stays.
  unfoldable pub kept : (SocketAddr → Endpoint Owner → Bool) → Entries Owner → Entries Owner
  kept keep [] = []
  kept keep ((s, e) ∷ es) = let rest = kept keep es in if keep s e then (s, e) ∷ rest else rest

  -- What `retain` closes.
  unfoldable pub closed_by :
      (SocketAddr → Endpoint Owner → Bool) → Entries Owner → List (Endpoint Owner)
  closed_by keep [] = []
  closed_by keep ((s, e) ∷ es) =
      let rest = closed_by keep es in if keep s e then rest else close e ∷ rest

  abbrev pub retain : (SocketAddr → Endpoint Owner → Bool) → Pool Owner → Pool Owner
  retain keep p = record p {
    endpoints = kept keep p.endpoints;
    retired = closed_by keep p.endpoints ++ p.retired;
  }

  -- The endpoint of a source is closed and removed.
  unfoldable pub retire : SocketAddr → Pool Owner → Pool Owner
  retire source p = elim (lookup source p.endpoints) [
    | none ↦ p
    | some e ↦ record p { endpoints = without source p.endpoints; retired = close e ∷ p.retired }
  ]

  abbrev pub retire_expired : ℕ → Pool Owner → Pool Owner
  retire_expired now p = retain (λ s e. not (expired now e)) p

  unfoldable pub retire_changed : SocketAddr → Owner → BindInterface → Pool Owner → Pool Owner
  retire_changed source owner interface p = elim (lookup source p.endpoints) [
    | none ↦ p
    | some e ↦
        if not (e.owner == owner) || not (uses_interface e source interface)
        then retire source p
        else p
  ]

  -- The endpoint without routes that was idle the longest.
  unfoldable pub oldest : Entries Owner → Option (SocketAddr × ℕ)
  oldest [] = none
  oldest ((s, e) ∷ es) =
      let rest = oldest es in
      if is_empty e.routes
      then elim rest [
        | none ↦ some (s, e.last_activity)
        | some (s', activity) ↦
            if leb e.last_activity activity then some (s, e.last_activity) else some (s', activity)
      ]
      else rest

  -- Room for one more endpoint, if there is or can be made some.
  unfoldable pub make_room : Pool Owner → Option (Pool Owner)
  make_room p =
      if leb p.limit (length p.endpoints)
      then elim (oldest p.endpoints) [ none ↦ none | some (s, activity) ↦ some (retire s p) ]
      else some p

  abbrev pub bound_endpoint : ℕ → Owner → BindInterface → Endpoint Owner
  bound_endpoint now owner interface = record {
    owner = owner;
    interface = interface;
    routes = [];
    last_activity = now;
    closed = false;
  }

  abbrev pub replace : SocketAddr → Endpoint Owner → Pool Owner → Pool Owner
  replace source e p = record p { endpoints = without source p.endpoints ++ (source, e) ∷ [] }

  unfoldable pub add_route :
      ℕ → Pool Owner → SocketAddr → SocketAddr → Pool Owner × Result BypassError (Option Flow)
  add_route now p source peer = elim (lookup source p.endpoints) [
    | none ↦ (p, err missing)
    | some e ↦ if e.closed then (p, err broken_pipe) else elim (lookup peer e.routes) [
      | some q ↦ (p, ok none)
      | none ↦ (
        replace source (record e { routes = e.routes ++ (peer, []) ∷ []; last_activity = now }) p,
        ok (some (record { source = source; peer = peer })),
      )
    ]
  ]

  -- A new endpoint for a source that has none. `bound` says whether the socket can be bound.
  unfoldable pub open_new :
      ℕ
      → Bool
      → Pool Owner
      → SocketAddr
      → SocketAddr
      → Owner
      → BindInterface
      → Pool Owner × Result BypassError (Option Flow)
  open_new now bound p source peer owner interface = elim (make_room p) [
    | none ↦ (p, ok none)
    | some p' ↦
        if bound
        then add_route now (replace source (bound_endpoint now owner interface) p') source peer
        else (p', err bind_failed)
  ]

  unfoldable pub open_with :
      ℕ
      → Bool
      → Pool Owner
      → SocketAddr
      → SocketAddr
      → Owner
      → BindInterface
      → Pool Owner × Result BypassError (Option Flow)
  open_with now bound p source peer owner interface =
      if is_refused source peer
      then (p, err invalid_input)
      else (let p1 = retire_changed source owner interface (retire_expired now p) in
          elim (lookup source p1.endpoints) [
            | some e ↦ add_route now p1 source peer
            | none ↦ open_new now bound p1 source peer owner interface
          ])

  abbrev owner_of : Option (SocketAddr → Option Owner) → SocketAddr → Option Owner
  owner_of none source = none
  owner_of (some owners) source = owners source

  abbrev is_owned : Option Owner → Endpoint Owner → Bool
  is_owned none e = false
  is_owned (some o) e = o == e.owner

  abbrev on_interface : Option BindInterface → SocketAddr → Endpoint Owner → Bool
  on_interface none source e = false
  on_interface (some interface) source e = uses_interface e source interface

  unfoldable pub maintain_with :
      ℕ → Option (SocketAddr → Option Owner) → Option BindInterface → Pool Owner → Pool Owner
  maintain_with now owners interface p =
      let unknown = ownership_unknown now (is_some owners) p.owner_failure_since in
      retain
        (λ source e.
          (unknown || is_owned (owner_of owners source) e)
          && (on_interface interface source e && not (expired now e)))
        (record p {
          owner_failure_since = failure_since now (is_some owners) p.owner_failure_since;
        })

  unfoldable pub shutdown : Pool Owner → Pool Owner
  shutdown p = retain (λ s e. false) p

  -- A datagram of a peer, and the bytes that may still be queued.
  unfoldable pub receive : ℕ → ℕ → Endpoint Owner → SocketAddr → Bytes → Endpoint Owner × ℕ
  receive now budget e peer bytes = elim (lookup peer e.routes) [
    | none ↦ (e, budget)
    | some queue ↦
        let cost = if leb 1 (length bytes) then length bytes else 1 in
        if leb cost budget && ltb (length queue) peer_queue
        then (
          record e {
            routes = without peer e.routes ++ (peer, queue ++ bytes ∷ []) ∷ [];
            last_activity = now;
          },
          budget - cost,
        )
        else (e, budget)
  ]

  -- `Drop for Flow`, on the endpoint of the flow.
  abbrev pub drop_flow : Flow → Endpoint Owner → Endpoint Owner
  drop_flow flow e = record e { routes = without flow.peer e.routes }
