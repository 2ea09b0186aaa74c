-- ===== src/Icmp/Limits.antt =====
-- icmp.rs: the limits of the flows and of their queues.
use tun2proxy.Icmp.Flows.{
  EchoPacket, FlowKey, EchoRequest, Sender, EchoFlows, key_eq, key_of, put, retain_open, try_send,
  is_malformed, dispatch, taken, with_flow, ended, Step, Reach, packet_in, worker_takes,
  worker_ends, start, later,
}
use tun2proxy.Icmp.{queue_depth, max_flows}
use tun2proxy.Maps.Sizes.{length-replaced, length-replaced_found}
use tun2proxy.Maps.Assoc.{lookup, without, Distinct, Distinct-replaced}
use tun2proxy.Proxy.{Bytes}
use tun2proxy.Ip.{IpAddr}
use tun2proxy.Prelude.{
  refl, false, none, some, inl, inr, [], ◌∷◌, arith, ◌≡◌, ◌≤◌, ◌<◌, ◌++◌, Option, ℕ, List, leb,
  length, drop, Bool-cases, Option-cases, length-append,
}

abbrev pub IsShort : Sender → Type 0
IsShort sender = length sender.queue ≤ queue_depth

abbrev pub AllShort : List (FlowKey × Sender) → Type 0
AllShort [] = Unit
AllShort ((key, sender) ∷ flows) = IsShort sender × AllShort flows

-- One flow for a key, at most 64 of them, and at most four requests in each queue.
pub record IsBounded (e : EchoFlows) : Type 0 where
  pub distinct : Distinct e.flows
  pub few : length e.flows ≤ max_flows
  pub short : AllShort e.flows

AllShort-without :
    (key : FlowKey) (flows : List (FlowKey × Sender))
    → AllShort flows
    → AllShort (without key flows)
AllShort-without key [] s = tt
AllShort-without key ((k, x) ∷ flows) (s, ss) = ground (arith, s, AllShort-without key flows ss)

AllShort-snoc :
    (key : FlowKey) (x : Sender) (flows : List (FlowKey × Sender))
    → AllShort flows
    → IsShort x
    → AllShort (flows ++ (key, x) ∷ [])
AllShort-snoc key x [] ss s = (s, tt)
AllShort-snoc key x ((k, y) ∷ flows) (t, ss) s = (t, AllShort-snoc key x flows ss s)

IsShort-lookup :
    (key : FlowKey) (flows : List (FlowKey × Sender)) (x : Sender)
    → AllShort flows
    → lookup key flows ≡ some x
    → IsShort x
IsShort-lookup key [] x s h = cc
IsShort-lookup key ((k, y) ∷ flows) x (s, ss) h =
    ground (arith, IsShort-lookup key flows x ss, s, h)

lookup-retain_open :
    (key : FlowKey) (flows : List (FlowKey × Sender))
    → lookup key flows ≡ none
    → lookup key (retain_open flows) ≡ none
unfolding retain_open
lookup-retain_open key [] h = refl
lookup-retain_open key ((k, x) ∷ flows) h = ground (arith, lookup-retain_open key flows)

Distinct-retain_open :
    (flows : List (FlowKey × Sender)) → Distinct flows → Distinct (retain_open flows)
unfolding retain_open
Distinct-retain_open [] d = tt
Distinct-retain_open ((k, x) ∷ flows) (absent, d) =
    ground (arith, Distinct-retain_open flows d, lookup-retain_open k flows absent)

AllShort-retain_open :
    (flows : List (FlowKey × Sender)) → AllShort flows → AllShort (retain_open flows)
unfolding retain_open
AllShort-retain_open [] s = tt
AllShort-retain_open ((k, x) ∷ flows) (s, ss) = ground (arith, s, AllShort-retain_open flows ss)

length-retain_open : (flows : List (FlowKey × Sender)) → length (retain_open flows) ≤ length flows
unfolding retain_open
length-retain_open [] = omega arith
length-retain_open ((k, x) ∷ flows) = ground (arith, length-retain_open flows)

retain_open-IsBounded :
    (e : EchoFlows) → IsBounded e → IsBounded (record e { flows = retain_open e.flows })
retain_open-IsBounded e b = record {
  distinct = Distinct-retain_open e.flows b.distinct;
  few = let le = b.few in omega (arith, le, length-retain_open e.flows);
  short = AllShort-retain_open e.flows b.short;
}

-- A sender takes the place of one of its key, or there is room.
put-IsBounded :
    (key : FlowKey) (x : Sender) (e : EchoFlows)
    → IsBounded e
    → IsShort x
    → length (put key x e.flows) ≤ max_flows
    → IsBounded (record e { flows = put key x e.flows })
put-IsBounded key x e b s le = record {
  distinct = Distinct-replaced key x e.flows b.distinct;
  few = le;
  short = AllShort-snoc key x (without key e.flows) (AllShort-without key e.flows b.short) s;
}

added-IsBounded :
    (key : FlowKey) (x : Sender) (e : EchoFlows)
    → IsBounded e
    → IsShort x
    → leb max_flows (length e.flows) ≡ false
    → IsBounded (record e { flows = put key x e.flows })
added-IsBounded key x e b s room =
    let lt : length e.flows < max_flows = ground (arith, room) in
    put-IsBounded key x e b s (omega (arith, lt, length-replaced key e.flows x))

try_send-IsShort : (request : EchoRequest) (x : Sender) → IsShort x → IsShort (try_send request x)
unfolding try_send
try_send-IsShort request x s = ground (arith, s, length-append x.queue (request ∷ []))

with_flow-IsBounded :
    (key : FlowKey) (f : Sender → Sender) (e : EchoFlows)
    → ((x : Sender) → IsShort x → IsShort (f x))
    → IsBounded e
    → IsBounded (with_flow key f e)
with_flow-IsBounded key f e keeps b = elim (Option-cases (lookup key e.flows)) [
  | inl absent ↦ rw (absent, with_flow) b
  | inr (x, found) ↦
      rw (found, with_flow)
        (put-IsBounded key (f x) e b (keeps x (IsShort-lookup key e.flows x b.short found))
          (let le = b.few in omega (arith, le, length-replaced_found key e.flows (f x) x found)))
]

length-drop_one : {A : Type 0} (xs : List A) → length (drop 1 xs) ≤ length xs
length-drop_one [] = omega arith
length-drop_one (x ∷ xs) = omega arith

taken-IsShort : (x : Sender) → IsShort x → IsShort (taken x)
taken-IsShort x s = omega (arith, s, length-drop_one x.queue)

module _ (packet_checksum : Bytes → IpAddr → IpAddr → ℕ) (ip_text : IpAddr → Bytes) where
  dispatch-IsBounded :
      (now : ℕ) (packet : EchoPacket) (domain : Option Bytes) (e : EchoFlows)
      → IsBounded e
      → IsBounded (dispatch packet_checksum ip_text now packet domain e)
  unfolding dispatch
  dispatch-IsBounded now packet domain e b =
      let r : EchoFlows = record e { flows = retain_open e.flows } in
      let br = retain_open-IsBounded e b in
      elim (Bool-cases (is_malformed packet_checksum ip_text e packet)) [
        | inl bad ↦ rw (bad, dispatch) b
        | inr fine ↦ elim (Option-cases (lookup (key_of packet) r.flows)) [
          | inr (x, found) ↦
              rw (fine, found, dispatch)
                (put-IsBounded (key_of packet) (try_send _ x) r br
                  (try_send-IsShort _ x (IsShort-lookup (key_of packet) r.flows x br.short found))
                  (let le = br.few in
                    omega (
                      arith,
                      le,
                      length-replaced_found (key_of packet) r.flows (try_send _ x) x found,
                    )))
          | inl absent ↦ elim (Bool-cases (leb max_flows (length r.flows))) [
            | inl full ↦ rw (fine, absent, full, dispatch) br
            | inr room ↦
                rw (fine, absent, room, dispatch)
                  (added-IsBounded (key_of packet) _ r br (try_send-IsShort _ _ (omega arith)) room)
          ]
        ]
      ]

  Step-IsBounded :
      (e e' : EchoFlows) → Step packet_checksum ip_text e e' → IsBounded e → IsBounded e'
  Step-IsBounded e _ (packet_in now packet domain) b = dispatch-IsBounded now packet domain e b
  Step-IsBounded e _ (worker_takes key) b = with_flow-IsBounded key taken e taken-IsShort b
  Step-IsBounded e _ (worker_ends key) b = with_flow-IsBounded key ended e (λ x s. s) b

  -- In every order of packets and workers there is one flow for a key, at most 64 flows, and at most
  -- four requests in the queue of each.
  pub Reach-IsBounded :
      (mtu : ℕ) (e : EchoFlows) → Reach packet_checksum ip_text mtu e → IsBounded e
  Reach-IsBounded mtu _ start = record { distinct = tt; few = omega arith; short = tt }
  Reach-IsBounded mtu e' (later before step) =
      Step-IsBounded _ e' step (Reach-IsBounded mtu _ before)
