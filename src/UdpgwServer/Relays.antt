-- ===== src/UdpgwServer/Relays.antt =====
-- bin/udpgw_server.rs: in any order of the tasks, a session in the map is that of its connection's
-- last request, and a relay task that runs owns one or has a cancelled token.
use tun2proxy.UdpgwServer.Adding.{
  added, added-IsCurrent, added-Owned, added_own, dropped-Owned, dropped-Waits, dropped-IsCurrent,
}
use tun2proxy.UdpgwServer.Requests.{Waits, Opened, refused, dropped, opened}
use tun2proxy.UdpgwServer.Reading.{Effect-Shrinks, Shrinks-IsCurrent, Shrinks-absent, Shrinks}
use tun2proxy.UdpgwServer.Current.{IsCurrent, Owned, Effect-Owned, Effect-Owned_self}
use tun2proxy.UdpgwServer.Effects.{Stepped, unchanged, moved, IsRunning}
use tun2proxy.UdpgwServer.Tasks.{Server, spawned}
use tun2proxy.UdpgwServer.{
  ClientSessions, Reader, Relay, awaiting, resolving, replying, put, is_own,
}
use tun2proxy.Maps.Assoc.{lookup, lookup-without_snoc}
use tun2proxy.Socks.{Address}
use tun2proxy.Proxy.{Bytes}
use tun2proxy.Prelude.{
  true, some, inl, inr, ◌≡◌, ◌≢◌, arith, Option, ℕ, eqb, List, nat_eq, Bool-cases, sym, ◌∙◌, ap,
  subst, eqb_iff,
}

-- Every relay of the table that runs.
abbrev pub AllOwned : ClientSessions → List (ℕ × Relay) → Type 0
AllOwned st relays =
    (g : ℕ) (r : Relay) → lookup g relays ≡ some r → IsRunning r.phase → Owned st r.conn_id g

pub record IsSound (st : ClientSessions) (reader : Reader) (relays : List (ℕ × Relay))
    : Type 0 where
  pub current : IsCurrent st
  pub owned : AllOwned st relays
  pub waits : Waits st reader

abbrev pub IsSoundServer : Server → Type 0
IsSoundServer s = IsSound s.state s.reader s.relays

-- A relay in the table, and what the others keep.
put-AllOwned :
    (st : ClientSessions) (g : ℕ) (r : Relay) (relays : List (ℕ × Relay))
    → ((h : ℕ) (x : Relay)
        → g ≢ h
        → lookup h relays ≡ some x
        → IsRunning x.phase
        → Owned st x.conn_id h)
    → (IsRunning r.phase → Owned st r.conn_id g)
    → AllOwned st (put g r relays)
put-AllOwned st g r relays others mine h x found on =
    let there = sym (lookup-without_snoc relays g r h) ∙ found in
    elim (Bool-cases (eqb g h)) [
      | inl e ↦
          let same : r ≡ x = cc (rw e at there) in
          let key : g ≡ h = (eqb_iff g h).0 e in
          subst (λ k. Owned st x.conn_id k) key
            (subst (λ y. Owned st y.conn_id g) same
              (mine (subst (λ y. IsRunning y.phase) (sym same) on)))
      | inr e ↦ others h x (λ q. ground (arith, e, q)) (rw e at there) on
    ]

-- The reader's wait outlasts what the relays do.
Waits-Shrinks :
    (st st' : ClientSessions) (reader : Reader)
    → Shrinks st st'
    → Waits st reader
    → Waits st' reader
Waits-Shrinks st st' awaiting shrinks w = tt
Waits-Shrinks st st' (replying item) shrinks w = tt
Waits-Shrinks st st' (resolving c g a bs) shrinks w =
    (ap (lookup c) shrinks.same.0 ∙ w.0, Shrinks-absent st st' c shrinks w.1)

pub Stepped-IsSound :
    (g : ℕ) (r : Relay) (s s' : Server)
    → lookup g s.relays ≡ some r
    → Stepped g r s s'
    → IsSoundServer s
    → IsSoundServer s'
Stepped-IsSound g r s s' found (unchanged e) sound = rw e sound
Stepped-IsSound g r s s' found (moved st phase effect on es er ed) sound =
    let shrinks = Effect-Shrinks r.conn_id g s.state (st, phase) effect in
    rw (es, er, ed)
      (record {
        current = Shrinks-IsCurrent s.state st shrinks sound.current;
        owned =
            put-AllOwned st g (record r { phase = phase }) s.relays
              (λ h x differ there runs.
                Effect-Owned r.conn_id g x.conn_id h s.state (st, phase) differ effect
                  (sound.owned h x there runs))
              (λ runs.
                Effect-Owned_self r.conn_id g s.state (st, phase) effect runs
                  (sound.owned g r found (on runs)));
        waits = Waits-Shrinks s.state st s.reader shrinks sound.waits;
      })

pub opened-IsSound :
    (st : ClientSessions) (d g : ℕ) (a : Address) (bs : Bytes) (relays : List (ℕ × Relay))
    (out : ClientSessions × Reader × Option Relay)
    → Opened st d g out
    → IsSound st (resolving d g a bs) relays
    → IsSound out.0 out.1 (spawned g out.2 relays)
opened-IsSound st d g a bs relays _ (refused reader w) sound = record {
  current = sound.current;
  owned = sound.owned;
  waits = w;
}
opened-IsSound st d g a bs relays _ (dropped x reader of_g w) sound =
    let (at, absent) = sound.waits in
    record {
      current = dropped-IsCurrent st d g x of_g at absent sound.current;
      owned = λ h r found on.
          dropped-Owned st d g x of_g at absent r.conn_id h (sound.owned h r found on);
      waits = dropped-Waits st d g x of_g at absent reader w;
    }
opened-IsSound st d g a bs relays _ (opened x r of_g at_d) sound =
    let (at, absent) = sound.waits in
    let st' = added st d g x of_g at absent in
    record {
      current = added-IsCurrent st d g x of_g at absent sound.current;
      owned =
          put-AllOwned st' g r relays
            (λ h y differ found on.
              added-Owned st d g x of_g at absent y.conn_id h (sound.owned h y found on))
            (λ on.
              inr (
                subst (λ c. is_own c g st' ≡ true) (sym at_d) (added_own st d g x of_g at absent)));
      waits = tt;
    }
