-- ===== src/NoProxy/Session.antt =====
-- no_proxy.rs: whole connections without a proxy.
use tun2proxy.Tunnel.Streams.{retaken_all}
use tun2proxy.Tunnel.{Queues}
use tun2proxy.NoProxy.{
  peek_data, new, push_data, NoProxyHandler, Bytes, SessionInfo, Option, ℕ, sym, Bool, consume_data,
  consume_data-server, handler, consume_data-client, Queues,
}
use tun2proxy.Prelude.{refl, some, ◌++◌, ◌≡◌, ℕ, sym, Option, Bool, append_assoc, ◌∙◌, take, ap}
use tun2proxy.Proxy.{from_server, from_client, to_server, to_client, Bytes, SessionInfo}
use tun2proxy.Tunnel.Session.{
  opened, client_pushed, server_pushed, client_consumed, server_consumed, Run,
}

-- What was given to each side and what is queued for it.
abbrev IsTransparent : NoProxyHandler → Bytes → Bytes → Bytes → Bytes → Type 0
IsTransparent s c r x y = (x ++ s.client_outbuf ≡ r) × (y ++ s.server_outbuf ≡ c)

consumed_client :
    (s s' : NoProxyHandler) (c r x y : Bytes) (size : ℕ)
    → consume_data s to_client size ≡ some s'
    → IsTransparent s c r x y
    → IsTransparent s' c r (x ++ take size (peek_data s to_client)) y
unfolding peek_data
consumed_client s s' c r x y size h (a, b) =
    let (e, f) = consume_data-client s s' size h in
    (
      ap (λ (q : Queues). (x ++ take size s.client_outbuf) ++ q.client_outbuf) e
          ∙ retaken_all x size s.client_outbuf
          ∙ a,
      ap (λ (q : Queues). y ++ q.server_outbuf) e ∙ b,
    )

consumed_server :
    (s s' : NoProxyHandler) (c r x y : Bytes) (size : ℕ)
    → consume_data s to_server size ≡ some s'
    → IsTransparent s c r x y
    → IsTransparent s' c r x (y ++ take size (peek_data s to_server))
unfolding peek_data
consumed_server s s' c r x y size h (a, b) =
    let (e, f) = consume_data-server s s' size h in
    (
      ap (λ (q : Queues). x ++ q.client_outbuf) e ∙ a,
      ap (λ (q : Queues). (y ++ take size s.server_outbuf) ++ q.server_outbuf) e
          ∙ retaken_all y size s.server_outbuf
          ∙ b,
    )

pushed :
    (s : NoProxyHandler) (c r x y buffer : Bytes)
    → IsTransparent s c r x y
    → IsTransparent (push_data s from_client buffer) (c ++ buffer) r x y
      × IsTransparent (push_data s from_server buffer) c (r ++ buffer) x y
unfolding push_data
pushed s c r x y buffer (a, b) = (
  (a, sym (append_assoc y s.server_outbuf buffer) ∙ ap (λ k. k ++ buffer) b),
  (sym (append_assoc x s.client_outbuf buffer) ∙ ap (λ k. k ++ buffer) a, b),
)

-- Without a proxy each side is given, or has queued for it, exactly what the other sent, in order,
-- in every sequence of calls on a new handler.
pub Run-transparent :
    (info : SessionInfo) (domain_name : Option Bytes) (udp_associate : Bool) (s : NoProxyHandler)
    (c r x y : Bytes)
    → Run handler (new info domain_name udp_associate) s c r x y
    → (x ++ s.client_outbuf ≡ r) × (y ++ s.server_outbuf ≡ c)
unfolding new
Run-transparent info d u s c r x y opened = (refl, refl)
Run-transparent info d u s c r x y (client_pushed {s = s0} {c = c0} buffer regular run) =
    (pushed s0 c0 r x y buffer (Run-transparent info d u s0 c0 r x y run)).0
Run-transparent info d u s c r x y (server_pushed {s = s0} {r = r0} buffer regular run) =
    (pushed s0 c r0 x y buffer (Run-transparent info d u s0 c r0 x y run)).1
Run-transparent info d u s c r x y (client_consumed {s = s0} {x = x0} size h run) =
    consumed_client s0 s c r x0 y size h (Run-transparent info d u s0 c r x0 y run)
Run-transparent info d u s c r x y (server_consumed {s = s0} {y = y0} size h run) =
    consumed_server s0 s c r x y0 size h (Run-transparent info d u s0 c r x y0 run)
