-- ===== src/Tests/Bypass.antt =====
-- Inputs for the theorems about udp_bypass.rs: numbers for owners, and pools of one or two sources.
use tun2proxy.UdpBypass.Limits.{IsSound, started, opened, Uses-new}
use tun2proxy.UdpBypass.Active.{open_with_keeps}
use tun2proxy.UdpBypass.Entries.{AreDead}
use tun2proxy.UdpBypass.{
  Pool, Endpoint, BindInterface, new, open_with, maintain_with, addr_eq, expired, uses_interface,
  kept, closed_by, retire, retire_changed, oldest, make_room, add_route, open_new, shutdown,
}
use tun2proxy.Maps.Assoc.{lookup, Distinct}
use tun2proxy.Proxy.{SocketAddr}
use tun2proxy.Ip.{v4}
use tun2proxy.Prelude.{
  refl, ap, true, false, none, some, [], ◌∷◌, ◌≡◌, ◌≤◌, arith, ℕ, nat_eq, Option, length,
}

abbrev bypass_program : Unit {0}
unfolding uses_interface expired new kept closed_by retire retire_changed oldest make_room add_route
    open_new open_with maintain_with shutdown
bypass_program = tt

abbrev app : SocketAddr
app = record { ip = v4 1; port = 1000 }

abbrev game : SocketAddr
game = record { ip = v4 1; port = 2000 }

abbrev remote : SocketAddr
remote = record { ip = v4 8; port = 53 }

abbrev ethernet : BindInterface
ethernet = record { ipv4_index = 7; ipv6_index = 7 }

abbrev playing : Endpoint ℕ
playing = record {
  owner = 42;
  interface = ethernet;
  routes = (remote, []) ∷ [];
  last_activity = 0;
  closed = false;
}

-- A full pool: its one endpoint is in use.
abbrev full : Pool ℕ
full = record {
  endpoints = (game, playing) ∷ [];
  retired = [];
  owner_failure_since = none;
  limit = 1;
}

full-IsSound : IsSound full
full-IsSound = record { distinct = (refl, tt); within = omega arith; dead = tt }

Uses-new_example :
    Distinct (open_with 5 true (new {Owner = ℕ} 1) app remote 9 ethernet).0.endpoints
    × (length (open_with 5 true (new {Owner = ℕ} 1) app remote 9 ethernet).0.endpoints
        ≤ (open_with 5 true (new {Owner = ℕ} 1) app remote 9 ethernet).0.limit)
    × AreDead (open_with 5 true (new {Owner = ℕ} 1) app remote 9 ethernet).0.retired
Uses-new_example =
    Uses-new 1 (open_with 5 true (new 1) app remote 9 ethernet).0
      (opened 5 true app remote 9 ethernet started)

open_with_keeps_example :
    lookup game (open_with 5 true full app remote 9 ethernet).0.endpoints ≡ some playing
open_with_keeps_example =
    open_with_keeps 5 true full app remote game 9 ethernet playing full-IsSound
      (λ e. omega (arith, ap (λ (a : SocketAddr). a.port) e)) refl refl refl

abbrev owners : SocketAddr → Option ℕ
owners a = some 42
