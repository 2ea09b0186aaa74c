-- ===== src/Tunnel/Streams.antt =====
-- proxy_handler.rs: where the bytes of the two sides are while a connection lasts.
use tun2proxy.Tunnel.{Queues, Moves, Holds, arrived, Passes}
use tun2proxy.Prelude.{
  refl, refl, true, false, inl, inr, [], ◌≡◌, ◌≤◌, arith, ◌++◌, Bool, ap, ℕ, drop, length,
  append-nil, take, append_assoc, ◌∙◌, ◌+◌, length-append, take-append-drop, length-drop, sym,
  drop-drop, drop-append_within,
}
use tun2proxy.Proxy.{from_server, from_client, Bytes}

-- Where the bytes are: before the tunnel is open the client's wait and it was given none; once it
-- is open all of the client's follow the handshake, and it is given all of the server's after the
-- `read` bytes of the handshake.
pub record Streams (q : Queues) (is : Bool) (c r x y : Bytes) : Type 0 where
  pub read : ℕ
  pub within : read ≤ length r
  pub waiting :
      is ≡ false
      → (q.server_inbuf ≡ drop read r) × (q.client_inbuf ≡ c) × (x ++ q.client_outbuf ≡ [])
  pub passed :
      is ≡ true
      → (x ++ (q.client_outbuf ++ q.server_inbuf) ≡ drop read r)
        × ((hello : Bytes) × (y ++ (q.server_outbuf ++ q.client_inbuf) ≡ hello ++ c))

-- An open tunnel keeps nothing back.
abbrev pub IsSettled : Queues → Bool → Type 0
IsSettled q is = is ≡ true → (q.server_inbuf ≡ []) × (q.client_inbuf ≡ [])

pub arrived_server :
    (q : Queues) (is : Bool) (c r x y buffer : Bytes)
    → Streams q is c r x y
    → Streams (arrived from_server q buffer) is c (r ++ buffer) x y
arrived_server q is c r x y buffer i = record {
  read = i.read;
  within = omega (arith, i.within, length-append r buffer);
  waiting = λ e.
      let (a, b, d) = i.waiting e in
      (ap (λ k. k ++ buffer) a ∙ sym (drop-append_within i.read r buffer i.within), b, d);
  passed = λ e.
      let (a, b) = i.passed e in
      let p = ap (λ (k : Bytes). k ++ buffer) a in
      ((simp append_assoc at p) ∙ sym (drop-append_within i.read r buffer i.within), b);
}

pub arrived_client :
    (q : Queues) (is : Bool) (c r x y buffer : Bytes)
    → Streams q is c r x y
    → Streams (arrived from_client q buffer) is (c ++ buffer) r x y
arrived_client q is c r x y buffer i = record {
  read = i.read;
  within = i.within;
  waiting = λ e. let (a, b, d) = i.waiting e in (a, ap (λ k. k ++ buffer) b, d);
  passed = λ e.
      let (a, (hello, b)) = i.passed e in
      let p = ap (λ (k : Bytes). k ++ buffer) b in (a, (hello, simp append_assoc at p));
}

-- What a step appends to a queue, after what was taken from it.
queued :
    {out left : Bytes} (x old new : Bytes)
    → out ≡ old ++ new
    → left ≡ []
    → x ++ (out ++ left) ≡ (x ++ old) ++ new
queued x old new a b =
    rw (a, b) (ap (λ k. x ++ k) (append-nil (old ++ new)) ∙ sym (append_assoc x old new))

module _ (q q' : Queues) (is : Bool) (c r x y : Bytes) where
  passed_open : Passes q true q' is → Streams q true c r x y → Streams q' is c r x y
  passed_open o i =
      let (a, (hello, b)) = i.passed refl in
      let (zero_reply, sent) : (o.reply ≡ 0)
          × (q'.server_outbuf ≡ q.server_outbuf ++ q.client_inbuf) =
        (elim o.no_reply [ inl closed_now ↦ cc | inr z ↦ z ]) in
      record {
        read = i.read;
        within = i.within;
        waiting = λ f. ground (arith, f, o.open_now);
        passed = λ f. (
          queued x q.client_outbuf (drop o.reply q.server_inbuf) o.to_client_sent o.server_read_all
              ∙ ap (λ k. (x ++ q.client_outbuf) ++ drop k q.server_inbuf) zero_reply
              ∙ append_assoc x q.client_outbuf q.server_inbuf
              ∙ a,
          (
            hello,
            queued y q.server_outbuf q.client_inbuf sent o.client_read
                ∙ append_assoc y q.server_outbuf q.client_inbuf
                ∙ b,
          ),
        );
      }

  passed_closed : Passes q false q' is → Streams q false c r x y → Streams q' is c r x y
  passed_closed o i =
      let (a, b, d) = i.waiting refl in
      let (hello, sent) = o.to_server_sent in
      record {
        read = i.read + o.reply;
        within = omega (arith, i.within, o.reply_read, ap length a, length-drop i.read r);
        waiting = λ f. ground (arith, f, o.open_now);
        passed = λ f. (
          queued x q.client_outbuf (drop o.reply q.server_inbuf) o.to_client_sent o.server_read_all
              ∙ ap (λ k. k ++ drop o.reply q.server_inbuf) d
              ∙ ap (drop o.reply) a
              ∙ drop-drop o.reply i.read r,
          (
            y ++ hello,
            queued y hello q.client_inbuf sent o.client_read ∙ ap (λ k. (y ++ hello) ++ k) b,
          ),
        );
      }

  held : (was : Bool) → Holds q was q' is → Streams q was c r x y → Streams q' is c r x y
  held was w i =
      let (a, b, d) = i.waiting w.was_closed in
      let (n, h, e) = w.server_read in
      record {
        read = i.read + n;
        within = omega (arith, i.within, h, ap length a, length-drop i.read r);
        waiting = λ f. (
          e ∙ ap (drop n) a ∙ drop-drop n i.read r,
          w.client_waits ∙ b,
          ap (λ k. x ++ k) w.client_unsent ∙ d,
        );
        passed = λ f. ground (arith, f, w.closed);
      }

  -- A step keeps the account of the bytes, and leaves nothing behind in an open tunnel.
  pub moved :
      (was : Bool)
      → Moves q was q' is
      → Streams q was c r x y
      → Streams q' is c r x y × IsSettled q' is
  moved was (inl w) i = (held was w i, λ f. ground (arith, f, w.closed))
  moved true (inr o) i = (passed_open o i, λ f. (o.server_read_all, o.client_read))
  moved false (inr o) i = (passed_closed o i, λ f. (o.server_read_all, o.client_read))

-- What is taken from a queue and what is left in it are what was in it.
retaken :
    (x : Bytes) (k : ℕ) (out left : Bytes)
    → (x ++ take k out) ++ (drop k out ++ left) ≡ x ++ (out ++ left)
retaken x k out left =
    append_assoc x (take k out) (drop k out ++ left)
    ∙ ap (λ t. x ++ t) (sym (append_assoc (take k out) (drop k out) left))
    ∙ ap (λ t. x ++ (t ++ left)) (take-append-drop k out)

pub retaken_all : (x : Bytes) (k : ℕ) (out : Bytes) → (x ++ take k out) ++ drop k out ≡ x ++ out
retaken_all x k out =
    append_assoc x (take k out) (drop k out) ∙ ap (λ t. x ++ t) (take-append-drop k out)

pub taken_client :
    (q : Queues) (is : Bool) (c r x y : Bytes) (size : ℕ)
    → Streams q is c r x y
    → Streams
        (record q { client_outbuf = drop size q.client_outbuf })
        is
        c
        r
        (x ++ take size q.client_outbuf)
        y
taken_client q is c r x y size i = record {
  read = i.read;
  within = i.within;
  waiting = λ f. let (a, b, d) = i.waiting f in (a, b, retaken_all x size q.client_outbuf ∙ d);
  passed = λ f. let (a, b) = i.passed f in (retaken x size q.client_outbuf q.server_inbuf ∙ a, b);
}

pub taken_server :
    (q : Queues) (is : Bool) (c r x y : Bytes) (size : ℕ)
    → Streams q is c r x y
    → Streams
        (record q { server_outbuf = drop size q.server_outbuf })
        is
        c
        r
        x
        (y ++ take size q.server_outbuf)
taken_server q is c r x y size i = record {
  read = i.read;
  within = i.within;
  waiting = i.waiting;
  passed = λ f.
      let (a, (hello, b)) = i.passed f in
      (a, (hello, retaken y size q.server_outbuf q.client_inbuf ∙ b));
}
