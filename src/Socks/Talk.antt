-- ===== src/Socks/Talk.antt =====
-- socks.rs: the handshake of a whole connection, message by message.
pub mod Runs
use tun2proxy.Socks.Order.{
  waits, fails, relays, granted, asks_password, asks_nothing, authenticated, accepted, nothing,
  method, password, connection, association, Next, Refused, Moved, SameRequest, Advances, IsResting,
  push_data-Advances,
}
use tun2proxy.Socks.Handler.{handler, queues, consume_data-client, consume_data-server}
use tun2proxy.Tunnel.Session.{
  IsFresh, Run, opened, client_pushed, server_pushed, client_consumed, server_consumed,
}
use tun2proxy.Tunnel.Streams.{retaken_all}
use tun2proxy.Tunnel.{Queues}
use tun2proxy.Proxy.{Bytes, from_server, from_client, to_server, to_client}
use tun2proxy.Socks.{
  client_hello, server_hello, send_auth_data, receive_auth_response, send_request, receive_response,
  established, Protocol, SocksProxyImpl, SocksState, Error, push_data, receive, consume_data,
  peek_data, is_established, Outcome,
}
use tun2proxy.Prelude.{
  refl, true, false, some, inl, inr, [], ◌∷◌, ok, err, arith, ◌≡◌, ◌≤◌, ◌+◌, ◌++◌, ◌∙◌, ap, sym,
  subst, ℕ, Result, length, drop, take, append-nil, append_assoc, drop-drop, drop-append_within,
  length-drop, length-append, Bool-cases, leb, ◌-◌,
}

module _ (P : Protocol) where
  -- The handshake with the server's stream `r` up to a state: how many of the bytes were read, and
  -- what the client said. Each step is one of a client like `first` that has in front of it the
  -- unread part of what had come in by then.
  pub data Talk (first : SocksProxyImpl) (r : Bytes) : SocksState → ℕ → Bytes → Type 0 where
    greeted : Talk first r server_hello 0 first.server_outbuf
    told :
        {st st' : SocksState} {k n : ℕ} {hello message : Bytes} {result : Result Error Unit}
        (s : SocksProxyImpl) (came later : Bytes)
        → came ++ later ≡ r
        → SameRequest P first s
        → s.server_inbuf ≡ drop k came
        → Talk first r st k hello
        → Next P s st st' n message result
        → is_established st ≡ false
        → Talk first r st' (k + n) (hello ++ message)

  grown :
      (first : SocksProxyImpl) (r more : Bytes) (st : SocksState) (k : ℕ) (hello : Bytes)
      → Talk first r st k hello
      → Talk first (r ++ more) st k hello
  grown first r more st k hello greeted = greeted
  grown first r more st k hello
        (told {st = st0} {k = k0} {hello = hello0} s came later e same here talk next closed) =
      told s came (later ++ more) (sym (append_assoc came later more) ∙ ap (λ z. z ++ more) e) same
        here (grown first r more st0 k0 hello0 talk) next closed

  -- Where everything is: what was given to the two sides and what waits.
  abbrev pub Waiting : SocksProxyImpl → Bytes → Bytes → Bytes → Bytes → ℕ → Bytes → Type 0
  Waiting s c r x y k hello =
      (x ++ s.client_outbuf ≡ [])
      × (y ++ s.server_outbuf ≡ hello)
      × (s.server_inbuf ≡ drop k r)
      × (s.client_inbuf ≡ c)

  abbrev pub Passing : SocksProxyImpl → Bytes → Bytes → Bytes → Bytes → ℕ → Bytes → Type 0
  Passing s c r x y k hello =
      (x ++ s.client_outbuf ≡ drop k r)
      × (y ++ s.server_outbuf ≡ hello ++ c)
      × (s.server_inbuf ≡ [])
      × (s.client_inbuf ≡ [])

  abbrev pub Placed :
      SocksState → SocksProxyImpl → Bytes → Bytes → Bytes → Bytes → ℕ → Bytes → Type 0
  Placed established s c r x y k hello = Passing s c r x y k hello
  Placed _ s c r x y k hello = Waiting s c r x y k hello

  -- The same when more has come in.
  abbrev Arrived : SocksState → SocksProxyImpl → Bytes → Bytes → Bytes → Bytes → ℕ → Bytes → Type 0
  Arrived established s c r x y k hello =
      (x ++ (s.client_outbuf ++ s.server_inbuf) ≡ drop k r)
      × (y ++ (s.server_outbuf ++ s.client_inbuf) ≡ hello ++ c)
  Arrived _ s c r x y k hello = Waiting s c r x y k hello

  module _ (s : SocksProxyImpl) (c r x y : Bytes) (k : ℕ) (hello : Bytes) where
    kept_closed :
        (st : SocksState)
        → is_established st ≡ false
        → Waiting s c r x y k hello
        → Placed st s c r x y k hello
    unfolding is_established
    kept_closed client_hello e w = w
    kept_closed server_hello e w = w
    kept_closed send_auth_data e w = w
    kept_closed receive_auth_response e w = w
    kept_closed send_request e w = w
    kept_closed receive_response e w = w
    kept_closed established e w = cc

    still_closed :
        (st : SocksState)
        → is_established st ≡ false
        → Arrived st s c r x y k hello
        → Waiting s c r x y k hello
    unfolding is_established
    still_closed client_hello e w = w
    still_closed server_hello e w = w
    still_closed send_auth_data e w = w
    still_closed receive_auth_response e w = w
    still_closed send_request e w = w
    still_closed receive_response e w = w
    still_closed established e w = cc

  -- A step in which the client still waits, and one after which the tunnel is open.
  keeps_Waiting :
      (s s' : SocksProxyImpl) (c r x y : Bytes) (k n : ℕ) (hello message : Bytes)
      → Moved P server_hello s s' n message
      → Waiting s c r x y k hello
      → Waiting s' c r x y (k + n) (hello ++ message)
  keeps_Waiting s s' c r x y k n hello message (co, so, si, ci) (a, b, d, e) = (
    ap (λ z. x ++ z) co ∙ a,
    ap (λ z. y ++ z) so ∙ sym (append_assoc y s.server_outbuf message) ∙ ap (λ z. z ++ message) b,
    si ∙ ap (drop n) d ∙ drop-drop n k r,
    ci ∙ e,
  )

  opens_lem :
      (s s' : SocksProxyImpl) (c r x y : Bytes) (k n : ℕ) (hello : Bytes)
      → Moved P established s s' n []
      → Waiting s c r x y k hello
      → Passing s' c r x y (k + n) (hello ++ [])
  opens_lem s s' c r x y k n hello (co, so, si, ci) (a, b, d, e) = (
    ap (λ z. x ++ z) co
        ∙ sym (append_assoc x s.client_outbuf (drop n s.server_inbuf))
        ∙ ap (λ z. z ++ drop n s.server_inbuf) a
        ∙ ap (drop n) d
        ∙ drop-drop n k r,
    ap (λ z. y ++ z) so
        ∙ sym (append_assoc y s.server_outbuf s.client_inbuf)
        ∙ ap (λ z. z ++ s.client_inbuf) (b ∙ sym (append-nil hello))
        ∙ ap (λ z. (hello ++ []) ++ z) e,
    si,
    ci,
  )

  Moved-waiting :
      (st : SocksState) (s s' : SocksProxyImpl) (n : ℕ) (message : Bytes)
      → is_established st ≡ false
      → Moved P st s s' n message
      → Moved P server_hello s s' n message
  unfolding is_established
  Moved-waiting client_hello s s' n message e m = m
  Moved-waiting server_hello s s' n message e m = m
  Moved-waiting send_auth_data s s' n message e m = m
  Moved-waiting receive_auth_response s s' n message e m = m
  Moved-waiting send_request s s' n message e m = m
  Moved-waiting receive_response s s' n message e m = m
  Moved-waiting established s s' n message e m = cc

  -- A step of a client that waits.
  step-Placed :
      (s s' : SocksProxyImpl) (st st' : SocksState) (c r x y : Bytes) (k n : ℕ)
      (hello message : Bytes) (result : Result Error Unit)
      → is_established st ≡ false
      → Next P s st st' n message result
      → Moved P st' s s' n message
      → Waiting s c r x y k hello
      → Placed st' s' c r x y (k + n) (hello ++ message)
  unfolding is_established
  step-Placed s s' st st' c r x y k n hello message result closed (waits e) m w =
      kept_closed s' c r x y (k + 0) (hello ++ []) st e
        (keeps_Waiting s s' c r x y k 0 hello [] (Moved-waiting st s s' 0 [] e m) w)
  step-Placed s s' st st' c r x y k n hello message result closed (fails e d) m w =
      kept_closed s' c r x y (k + n) (hello ++ []) st e
        (keeps_Waiting s s' c r x y k n hello [] (Moved-waiting st s s' n [] e m) w)
  step-Placed s s' st st' c r x y k n hello message result closed relays m w = cc
  step-Placed s s' st st' c r x y k n hello message result closed (granted v l e) m w =
      opens_lem s s' c r x y k 8 hello m w
  step-Placed s s' st st' c r x y k n hello message result closed (asks_password v d e) m w =
      keeps_Waiting s s' c r x y k n hello message m w
  step-Placed s s' st st' c r x y k n hello message result closed (asks_nothing v e) m w =
      keeps_Waiting s s' c r x y k n hello message m w
  step-Placed s s' st st' c r x y k n hello message result closed (authenticated e) m w =
      keeps_Waiting s s' c r x y k n hello message m w
  step-Placed s s' st st' c r x y k n hello message result closed (accepted e) m w =
      opens_lem s s' c r x y k n hello m w

  -- A step of an open tunnel.
  relays-Passing :
      (s s' : SocksProxyImpl) (st' : SocksState) (c r x y : Bytes) (k n : ℕ) (hello message : Bytes)
      (result : Result Error Unit)
      → Next P s established st' n message result
      → Moved P st' s s' n message
      → Arrived established s c r x y k hello
      → (st' ≡ established) × Passing s' c r x y k hello
  unfolding is_established
  relays-Passing s s' st' c r x y k n hello message result (waits e) m w = cc
  relays-Passing s s' st' c r x y k n hello message result (fails e d) m w = cc
  relays-Passing s s' st' c r x y k n hello message result relays (co, so, si, ci) (a, b) =
      (refl, (ap (λ z. x ++ z) co ∙ a, ap (λ z. y ++ z) so ∙ b, si, ci))

  Next-within :
      (s : SocksProxyImpl) (st st' : SocksState) (n : ℕ) (message : Bytes)
      (result : Result Error Unit)
      → Next P s st st' n message result
      → n ≤ length s.server_inbuf
  Next-within s st st' n message result (waits c) = omega arith
  Next-within s st st' n message result (fails c nothing) = omega arith
  Next-within s st st' n message result (fails c (method e d)) =
      P.handshake_response-length s.server_inbuf _ n e
  Next-within s st st' n message result (fails c (password e)) =
      P.password_response-length s.server_inbuf false n e
  Next-within s st st' n message result (fails c (connection {a = a} e)) =
      P.response-length s.server_inbuf (false, a) n e
  Next-within s st st' n message result (fails c (association {a = a} e d)) =
      P.response-length s.server_inbuf (true, a) n e
  Next-within s st st' n message result relays = omega arith
  Next-within s st st' n message result (granted v l e) = l
  Next-within s st st' n message result (asks_password v d e) =
      P.handshake_response-length s.server_inbuf _ n e
  Next-within s st st' n message result (asks_nothing v e) =
      P.handshake_response-length s.server_inbuf _ n e
  Next-within s st st' n message result (authenticated e) =
      P.password_response-length s.server_inbuf true n e
  Next-within s st st' n message result (accepted {a = a} e) =
      P.response-length s.server_inbuf (true, a) n e

  Next-IsResting :
      (s : SocksProxyImpl) (st st' : SocksState) (n : ℕ) (message : Bytes)
      (result : Result Error Unit)
      → Next P s st st' n message result
      → IsResting P st
      → IsResting P st'
  Next-IsResting s st st' n message result (waits c) rests = rests
  Next-IsResting s st st' n message result (fails c d) rests = rests
  Next-IsResting s st st' n message result relays rests = tt
  Next-IsResting s st st' n message result (granted v l e) rests = tt
  Next-IsResting s st st' n message result (asks_password v d e) rests = tt
  Next-IsResting s st st' n message result (asks_nothing v e) rests = tt
  Next-IsResting s st st' n message result (authenticated e) rests = tt
  Next-IsResting s st st' n message result (accepted e) rests = tt

  -- A client after a sequence of calls: the handshake so far, and where every byte is.
  pub record Told (first s : SocksProxyImpl) (c r x y : Bytes) : Type 0 where
    pub read : ℕ
    pub hello : Bytes
    pub within : read ≤ length r
    pub talk : Talk first r s.state read hello
    pub same : SameRequest P first s
    pub rests : IsResting P s.state
    pub placed : Placed s.state s c r x y read hello

  SameRequest-trans :
      (a b d : SocksProxyImpl) → SameRequest P a b → SameRequest P b d → SameRequest P a d
  SameRequest-trans a b d (p, q, r, s, t) (p', q', r', s', t') =
      (p' ∙ p, q' ∙ q, r' ∙ r, s' ∙ s, t' ∙ t)

  module _ (first s : SocksProxyImpl) (o : Outcome) (c r x y : Bytes) (k : ℕ) (hello : Bytes)
      (within : k ≤ length r) (same : SameRequest P first s) where
    stepped_closed :
        (st : SocksState)
        → is_established st ≡ false
        → IsResting P st
        → Talk first r st k hello
        → Waiting s c r x y k hello
        → Advances P s st o
        → Told first o.0 c r x y
    stepped_closed st closed rests talk w a = record {
      read = k + a.read;
      hello = hello ++ a.message;
      within =
          let few = Next-within s st o.0.state a.read a.message o.1 a.next in
          let len : length s.server_inbuf ≡ length r - k = ap length w.2 ∙ length-drop k r in
          omega (arith, few, len, within);
      talk = told s r [] (append-nil r) same w.2 talk a.next closed;
      same = SameRequest-trans first s o.0 same a.same;
      rests = Next-IsResting s st o.0.state a.read a.message o.1 a.next rests;
      placed =
          step-Placed s o.0 st o.0.state c r x y k a.read hello a.message o.1 closed a.next a.moved
            w;
    }

    stepped_open :
        Talk first r established k hello
        → Arrived established s c r x y k hello
        → Advances P s established o
        → Told first o.0 c r x y
    stepped_open talk at a =
        let (e, passing) =
          relays-Passing s o.0 o.0.state c r x y k a.read hello a.message o.1 a.next a.moved at in
        record {
          read = k;
          hello = hello;
          within = within;
          talk = subst (λ st. Talk first r st k hello) (sym e) talk;
          same = SameRequest-trans first s o.0 same a.same;
          rests = subst (IsResting P) (sym e) tt;
          placed = subst (λ st. Placed st o.0 c r x y k hello) (sym e) passing;
        }

    stepped :
        (st : SocksState)
        → IsResting P st
        → Talk first r st k hello
        → Arrived st s c r x y k hello
        → Advances P s st o
        → Told first o.0 c r x y
    unfolding is_established
    stepped client_hello rests talk at a = absurd rests
    stepped server_hello rests talk at a = stepped_closed server_hello refl rests talk at a
    stepped send_auth_data rests talk at a = absurd rests
    stepped receive_auth_response rests talk at a =
        stepped_closed receive_auth_response refl rests talk at a
    stepped send_request rests talk at a = absurd rests
    stepped receive_response rests talk at a = stepped_closed receive_response refl rests talk at a
    stepped established rests talk at a = stepped_open talk at a
