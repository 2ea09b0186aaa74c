-- ===== src/MainLoop/Counts.antt =====
-- lib.rs: SessionCounts and SessionPermit. The three counters are atomic one by one, so that a task
-- that takes or drops a permit is between two of them when others run.
use tun2proxy.Proxy.{IpProtocol, tcp, udp, icmp, other}
use tun2proxy.Prelude.{
  refl, none, some, [], ◌∷◌, arith, ◌+◌, ◌-◌, ◌%◌, ◌^◌, ◌≡◌, ◌≤◌, ◌<◌, ◌++◌, ℕ, List, Option, ltb,
  length, if◌then◌else◌, length-append, ap,
}

pub record SessionCounts : Type 0 where
  pub total : ℕ
  pub tcp_count : ℕ
  pub udp_count : ℕ

abbrev pub fetch_add : ℕ → ℕ
fetch_add n = (n + 1) % 2 ^ 64

abbrev pub fetch_sub : ℕ → ℕ
fetch_sub n = (n + 2 ^ 64 - 1) % 2 ^ 64

-- None is the `unreachable!`.
unfoldable pub on_protocol_count : IpProtocol → (ℕ → ℕ) → SessionCounts → Option SessionCounts
on_protocol_count tcp f c = some (record c { tcp_count = f c.tcp_count })
on_protocol_count udp f c = some (record c { udp_count = f c.udp_count })
on_protocol_count icmp f c = none
on_protocol_count (other n) f c = none

-- The `try_update` of `try_acquire`.
unfoldable pub take_total : ℕ → SessionCounts → Option SessionCounts
take_total max_sessions c =
    if ltb c.total max_sessions then some (record c { total = c.total + 1 }) else none

unfoldable pub drop_total : SessionCounts → SessionCounts
drop_total c = record c { total = fetch_sub c.total }

-- The counters, the tasks inside `try_acquire`, the permits, and the tasks inside `drop`.
pub record Permits : Type 0 where
  pub counts : SessionCounts
  pub entering : List IpProtocol
  pub held : List IpProtocol
  pub dropping : List IpProtocol

-- A step of any task; which of several is told by what stands before it.
pub data Step (max_sessions : ℕ) (s : Permits) : Permits → Type 0 where
  admitted :
      (p : IpProtocol) (c : SessionCounts)
      → take_total max_sessions s.counts ≡ some c
      → Step max_sessions s (record s { counts = c; entering = p ∷ s.entering })
  refused : take_total max_sessions s.counts ≡ none → Step max_sessions s s
  acquired :
      (p : IpProtocol) (before after : List IpProtocol) (c : SessionCounts)
      → s.entering ≡ before ++ p ∷ after
      → on_protocol_count p fetch_add s.counts ≡ some c
      → Step max_sessions s (record s { counts = c; entering = before ++ after; held = p ∷ s.held })
  released :
      (p : IpProtocol) (before after : List IpProtocol) (c : SessionCounts)
      → s.held ≡ before ++ p ∷ after
      → on_protocol_count p fetch_sub s.counts ≡ some c
      → Step max_sessions s
          (record s { counts = c; held = before ++ after; dropping = p ∷ s.dropping })
  left :
      (p : IpProtocol) (before after : List IpProtocol)
      → s.dropping ≡ before ++ p ∷ after
      → Step max_sessions s (record s { counts = drop_total s.counts; dropping = before ++ after })

abbrev pub no_sessions : Permits
no_sessions = record {
  counts = record { total = 0; tcp_count = 0; udp_count = 0 };
  entering = [];
  held = [];
  dropping = [];
}

pub data Reach (max_sessions : ℕ) : Permits → Type 0 where
  start : Reach max_sessions no_sessions
  later : {s t : Permits} → Reach max_sessions s → Step max_sessions s t → Reach max_sessions t

abbrev pub tcp_of : List IpProtocol → ℕ
tcp_of [] = 0
tcp_of (p ∷ ps) = elim p [ tcp ↦ 1 + tcp_of ps | other_one ↦ tcp_of ps ]

abbrev pub udp_of : List IpProtocol → ℕ
udp_of [] = 0
udp_of (p ∷ ps) = elim p [ udp ↦ 1 + udp_of ps | other_one ↦ udp_of ps ]

-- Every session counts once in the total, from its admission to the end of its drop, and once for
-- its protocol while its permit is held.
pub record IsCounted (max_sessions : ℕ) (s : Permits) : Type 0 where
  pub all_sessions : s.counts.total ≡ length s.entering + length s.held + length s.dropping
  pub limited : s.counts.total ≤ max_sessions
  pub tcp_sessions : s.counts.tcp_count ≡ tcp_of s.held
  pub udp_sessions : s.counts.udp_count ≡ udp_of s.held

-- What taking one out leaves.
length-middle :
    (before after : List IpProtocol) (p : IpProtocol)
    → length (before ++ p ∷ after) ≡ length (before ++ after) + 1
length-middle before after p =
    omega (arith, length-append before (p ∷ after), length-append before after)

tcp_middle :
    (before after : List IpProtocol) (p : IpProtocol)
    → tcp_of (before ++ p ∷ after) ≡ tcp_of (p ∷ []) + tcp_of (before ++ after)
tcp_middle [] after p = ground arith
tcp_middle (q ∷ before) after p = ground (arith, tcp_middle before after p)

udp_middle :
    (before after : List IpProtocol) (p : IpProtocol)
    → udp_of (before ++ p ∷ after) ≡ udp_of (p ∷ []) + udp_of (before ++ after)
udp_middle [] after p = ground arith
udp_middle (q ∷ before) after p = ground (arith, udp_middle before after p)

tcp-udp_within : (ps : List IpProtocol) → tcp_of ps + udp_of ps ≤ length ps
tcp-udp_within [] = omega arith
tcp-udp_within (p ∷ ps) = ground (arith, tcp-udp_within ps)

module _ (max_sessions : ℕ) (fits : max_sessions < 2 ^ 64) where
  admitted-IsCounted :
      (s : Permits) (p : IpProtocol) (c : SessionCounts)
      → take_total max_sessions s.counts ≡ some c
      → IsCounted max_sessions s
      → IsCounted max_sessions (record s { counts = c; entering = p ∷ s.entering })
  unfolding take_total
  admitted-IsCounted s p c h i = ground (arith, h, i, fits)

  acquired-IsCounted :
      (s : Permits) (p : IpProtocol) (before after : List IpProtocol) (c : SessionCounts)
      → s.entering ≡ before ++ p ∷ after
      → on_protocol_count p fetch_add s.counts ≡ some c
      → IsCounted max_sessions s
      → IsCounted max_sessions
          (record s { counts = c; entering = before ++ after; held = p ∷ s.held })
  unfolding on_protocol_count
  acquired-IsCounted s tcp before after c e h i =
      ground (arith, ap length e, h, i, fits, length-middle before after tcp, tcp-udp_within s.held)
  acquired-IsCounted s udp before after c e h i =
      ground (arith, ap length e, h, i, fits, length-middle before after udp, tcp-udp_within s.held)
  acquired-IsCounted s icmp before after c e h i = ground (arith, h)
  acquired-IsCounted s (other n) before after c e h i = ground (arith, h)

  released-IsCounted :
      (s : Permits) (p : IpProtocol) (before after : List IpProtocol) (c : SessionCounts)
      → s.held ≡ before ++ p ∷ after
      → on_protocol_count p fetch_sub s.counts ≡ some c
      → IsCounted max_sessions s
      → IsCounted max_sessions
          (record s { counts = c; held = before ++ after; dropping = p ∷ s.dropping })
  unfolding on_protocol_count
  released-IsCounted s tcp before after c e h i = ground (
    arith,
    ap length e,
    ap tcp_of e,
    ap udp_of e,
    h,
    i,
    fits,
    length-middle before after tcp,
    tcp_middle before after tcp,
    udp_middle before after tcp,
    tcp-udp_within s.held,
  )
  released-IsCounted s udp before after c e h i = ground (
    arith,
    ap length e,
    ap tcp_of e,
    ap udp_of e,
    h,
    i,
    fits,
    length-middle before after udp,
    tcp_middle before after udp,
    udp_middle before after udp,
    tcp-udp_within s.held,
  )
  released-IsCounted s icmp before after c e h i = ground (arith, h)
  released-IsCounted s (other n) before after c e h i = ground (arith, h)

  left-IsCounted :
      (s : Permits) (p : IpProtocol) (before after : List IpProtocol)
      → s.dropping ≡ before ++ p ∷ after
      → IsCounted max_sessions s
      → IsCounted max_sessions
          (record s { counts = drop_total s.counts; dropping = before ++ after })
  unfolding drop_total
  left-IsCounted s p before after e i =
      ground (arith, ap length e, i, fits, length-middle before after p)

  Step-IsCounted :
      (s t : Permits) → Step max_sessions s t → IsCounted max_sessions s → IsCounted max_sessions t
  Step-IsCounted s _ (admitted p c h) i = admitted-IsCounted s p c h i
  Step-IsCounted s _ (refused h) i = i
  Step-IsCounted s _ (acquired p before after c e h) i = acquired-IsCounted s p before after c e h i
  Step-IsCounted s _ (released p before after c e h) i = released-IsCounted s p before after c e h i
  Step-IsCounted s _ (left p before after e) i = left-IsCounted s p before after e i

  -- In every order of tasks that take and drop permits, the total counts each session from its
  -- admission to the end of its drop and is never over the limit, the TCP and UDP counters count the
  -- permits held, where the limit is below 2^64.
  pub Reach-IsCounted : (s : Permits) → Reach max_sessions s → IsCounted max_sessions s
  Reach-IsCounted _ start = record {
    all_sessions = refl;
    limited = omega arith;
    tcp_sessions = refl;
    udp_sessions = refl;
  }
  Reach-IsCounted t (later before step) = Step-IsCounted _ t step (Reach-IsCounted _ before)
