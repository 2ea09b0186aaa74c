-- ===== src/UdpgwServer/Closing.antt =====
-- bin/udpgw_server.rs: after a CLOSE, what the client can still get on the connection.
use tun2proxy.UdpgwServer.Delivery.{IsFresh, AllFresh, Grows, run_written}
use tun2proxy.UdpgwServer.Tagged.{IsTagged, AllTagged, AllTagged-after, IsTaggedServer, run-Tagged}
use tun2proxy.UdpgwServer.Schedule.{step, run, client_step}
use tun2proxy.UdpgwServer.Tasks.{Event, Server, receive, receive_step, dispatch}
use tun2proxy.UdpgwServer.{
  UdpGwArgs, ClientSessions, OutboundItem, awaiting, close_session, has_value,
}
use tun2proxy.UdpgwServer.Sessions.{remove_session-SameGenerations}
use tun2proxy.Maps.Assoc.{lookup, without, lookup-without}
use tun2proxy.Udpgw.{AddressCodec, Packet, close_flag, build_keepalive_packet}
use tun2proxy.Prelude.{
  ◌⊎◌, Option-cases, refl, true, none, some, inl, inr, [], ◌∷◌, ◌+◌, ◌^◌, ◌≡◌, ◌≤◌, ◌<◌, ◌++◌,
  arith, ℕ, Bool, List, length, nat_eq, sym, ◌∙◌, ap, beq_self, subst,
}

-- Whatever is on the connection answers a keepalive, or has a generation from `next` on.
unfoldable pub AllFrom : ℕ → ℕ → List OutboundItem → Type 0
AllFrom conn_id next [] = Unit
AllFrom conn_id next (item ∷ items) =
    (item.packet.header.conn_id ≡ conn_id
      → (item.packet ≡ build_keepalive_packet conn_id)
        ⊎ ((g : ℕ) × (item.generation ≡ some g) × (next ≤ g)))
    × AllFrom conn_id next items

-- An item with a tag, of a connection that has no generation.
item-from :
    (conn_id : ℕ) (st : ClientSessions) (item : OutboundItem)
    → lookup conn_id st.generations ≡ none
    → IsFresh st item
    → IsTagged item
    → item.packet.header.conn_id ≡ conn_id
    → (item.packet ≡ build_keepalive_packet conn_id)
      ⊎ ((g : ℕ) × (item.generation ≡ some g) × (st.next_generation ≤ g))
unfolding IsFresh
item-from conn_id st item absent f (inr keepalive) same =
    inl (keepalive ∙ ap build_keepalive_packet same)
item-from conn_id st item absent f (inl tagged) same = elim (Option-cases item.generation) [
  | inl e ↦ ground (arith, sym (ap has_value e) ∙ tagged)
  | inr (g, e) ↦ inr (
    g,
    e,
    elim (f g e) [
      | inl found ↦ ground (arith, sym found ∙ ap (λ c. lookup c st.generations) same ∙ absent)
      | inr later ↦ later
    ],
  )
]

AllFrom-absent :
    (conn_id : ℕ) (st : ClientSessions) (items : List OutboundItem)
    → lookup conn_id st.generations ≡ none
    → AllFresh st items
    → AllTagged items
    → AllFrom conn_id st.next_generation items
unfolding AllFrom AllFresh AllTagged
AllFrom-absent conn_id st [] absent f t = tt
AllFrom-absent conn_id st (item ∷ items) absent (f, fs) (t, ts) = (
  λ same. item-from conn_id st item absent f t same,
  AllFrom-absent conn_id st items absent fs ts,
)

close_session-closed :
    (conn_id : ℕ) (st : ClientSessions)
    → (lookup conn_id (close_session conn_id st).0.generations ≡ none)
      × ((close_session conn_id st).0.next_generation ≡ st.next_generation)
unfolding close_session
close_session-closed conn_id st =
    let st1 : ClientSessions = record st { generations = without conn_id st.generations } in
    let same = remove_session-SameGenerations conn_id st1 in
    (
      ap (lookup conn_id) same.0
          ∙ lookup-without conn_id conn_id st.generations
          ∙ rw (beq_self conn_id) refl,
      same.1,
    )

module _ (C : AddressCodec) (args : UdpGwArgs) where
  step-close :
      (now : ℕ) (is_sent : Bool) (packet : Packet) (s : Server)
      → packet.header.flags ≡ close_flag
      → s.reader ≡ awaiting
      → s.is_open ≡ true
      → step C args (receive now is_sent packet) s ≡ record s {
        state = (close_session packet.header.conn_id s.state).0;
        reader = awaiting;
        last_activity = now;
      }
  unfolding step client_step receive_step dispatch
  step-close now is_sent packet s close waits on = rw (on, waits, close, step) refl

  -- After a CLOSE from a client whose items all have a generation or answer a keepalive, as those
  -- of every client do that has connected, in every order of the tasks: whatever the server still
  -- writes on the connection answers a keepalive, or has a generation that the counter gave after
  -- the CLOSE, as long as the counter does not reach the end of its 64 bits.
  pub run-close :
      (now : ℕ) (is_sent : Bool) (packet : Packet) (events : List Event) (s : Server)
      → packet.header.flags ≡ close_flag
      → s.reader ≡ awaiting
      → s.is_open ≡ true
      → s.state.next_generation + length events < 2 ^ 64
      → IsTaggedServer s
      → (later : List OutboundItem) × ((run C args (receive now is_sent packet ∷ events) s).written
          ≡ s.written ++ later)
        × AllFrom packet.header.conn_id s.state.next_generation later
  unfolding run Grows
  run-close now is_sent packet events s close waits on room tagged =
      let conn_id = packet.header.conn_id in
      let closed = close_session-closed conn_id s.state in
      let t : Server = record s {
        state = (close_session conn_id s.state).0;
        reader = awaiting;
        last_activity = now;
      } in
      let (later, e, fresh) = run_written C args events t (ground (arith, closed)) in
      (
        later,
        ap (λ u. (run C args events u).written) (step-close now is_sent packet s close waits on)
            ∙ e,
        subst (λ n. AllFrom conn_id n later) closed.1
            (AllFrom-absent conn_id t.state later closed.0 fresh (
              AllTagged-after s.written later (
                subst AllTagged e
                  (run-Tagged C args events t (record {
                    all_written = tagged.all_written;
                    all_queued = tagged.all_queued;
                    reader_item = tt;
                    relay_items = tagged.relay_items;
                  })).all_written))),
      )
