-- ===== src/Tunnel/Steps.antt =====
-- proxy_handler.rs: steps of a handler from their parts.
use tun2proxy.Proxy.{Bytes}
use tun2proxy.Tunnel.{Queues, Bytes, Moves}
use tun2proxy.Prelude.{
  zero, suc, ◌∷◌, refl, false, inl, inr, [], ◌≡◌, ◌≤◌, arith, ℕ, Bool, drop, length, suc, ◌∷◌, ◌∙◌,
  ◌+◌, ap, length-drop, drop-drop, ◌++◌,
}

pub drop_capped : (n : ℕ) (bs : Bytes) → (m : ℕ) × (m ≤ length bs) × (drop n bs ≡ drop m bs)
drop_capped zero bs = (0, omega arith, refl)
drop_capped (suc n) [] = (0, omega arith, refl)
drop_capped (suc n) (b ∷ bs) = let (m, h, e) = drop_capped n bs in (suc m, omega (arith, h), e)

-- A closed tunnel that reads `n` bytes of the server and stays closed.
pub Holds-reads :
    (q q' : Queues) (was is : Bool) (n : ℕ)
    → was ≡ false
    → is ≡ false
    → q'.client_inbuf ≡ q.client_inbuf
    → q'.client_outbuf ≡ q.client_outbuf
    → q'.server_inbuf ≡ drop n q.server_inbuf
    → Moves q was q' is
Holds-reads q q' was is n a b c d e =
    let (m, h, f) = drop_capped n q.server_inbuf in
    inl (record {
      was_closed = a;
      closed = b;
      client_waits = c;
      client_unsent = d;
      server_read = (m, h, e ∙ f);
    })

module _ (q q1 q' : Queues) (was was1 is : Bool) (n : ℕ) where
  -- What a closed tunnel does after it read `n` bytes.
  reads_more :
      was ≡ false
      → n ≤ length q.server_inbuf
      → q1.client_inbuf ≡ q.client_inbuf
      → q1.client_outbuf ≡ q.client_outbuf
      → q1.server_inbuf ≡ drop n q.server_inbuf
      → Moves q1 was1 q' is
      → Moves q was q' is
  reads_more closed h a b e (inl w) =
      let (m, k, f) = w.server_read in
      inl (record {
        was_closed = closed;
        closed = w.closed;
        client_waits = w.client_waits ∙ a;
        client_unsent = w.client_unsent ∙ b;
        server_read = (
          n + m,
          omega (arith, h, k, ap length e, length-drop n q.server_inbuf),
          f ∙ ap (drop m) e ∙ drop-drop m n q.server_inbuf,
        );
      })
  reads_more closed h a b e (inr o) =
      let (hello, sent) = o.to_server_sent in
      inr (record {
        open_now = o.open_now;
        reply = n + o.reply;
        reply_read = omega (arith, h, o.reply_read, ap length e, length-drop n q.server_inbuf);
        no_reply = inl closed;
        to_client_sent =
            o.to_client_sent
            ∙ ap (λ k. k ++ drop o.reply q1.server_inbuf) b
            ∙ ap (λ k. q.client_outbuf ++ drop o.reply k) e
            ∙ ap (λ k. q.client_outbuf ++ k) (drop-drop o.reply n q.server_inbuf);
        to_server_sent = (hello, sent ∙ ap (λ k. hello ++ k) a);
        client_read = o.client_read;
        server_read_all = o.server_read_all;
      })

pub Moves-after :
    (q q1 q' : Queues) (was was1 is : Bool) (n : ℕ)
    → was ≡ false
    → q1.client_inbuf ≡ q.client_inbuf
    → q1.client_outbuf ≡ q.client_outbuf
    → q1.server_inbuf ≡ drop n q.server_inbuf
    → Moves q1 was1 q' is
    → Moves q was q' is
Moves-after q q1 q' was was1 is n closed a b e m =
    let (k, h, f) = drop_capped n q.server_inbuf in
    reads_more q q1 q' was was1 is k closed h a b (e ∙ f) m
