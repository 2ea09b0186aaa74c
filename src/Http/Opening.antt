-- ===== src/Http/Opening.antt =====
-- http.rs: the reply that opens the tunnel, with data of the server right behind it.
use tun2proxy.Http.Reply.{complete, Response, scan_headers}
use tun2proxy.Http.{
  expect_response_headers, established, HttpCrates, HttpConnection, push_data, state_change,
  dispatch, receive_headers, receive_reply, relay, receive, Outcome, enough,
}
use tun2proxy.Proxy.{Bytes, from_server}
use tun2proxy.Prelude.{
  suc, refl, true, some, [], ◌∷◌, ok, arith, ◌≡◌, ◌+◌, ◌*◌, ◌++◌, ◌∙◌, ◌&&◌, ap, sym, ℕ, Bool, List,
  length, drop, eqb, not, append_assoc, drop-append, length-append, subst,
}

-- Bytes of a line.
abbrev pub is_plain : Bytes → Bool
is_plain [] = true
is_plain (b ∷ bs) = (not (eqb b 13) && not (eqb b 10)) && is_plain bs

-- Lines with something in them, each with CR and LF behind it.
abbrev pub lines_of : List (ℕ × Bytes) → Bytes
lines_of [] = []
lines_of ((b, bs) ∷ ls) = (b ∷ bs) ++ (13 ∷ 10 ∷ lines_of ls)

abbrev pub ArePlain : List (ℕ × Bytes) → Type 0
ArePlain [] = Unit
ArePlain ((b, bs) ∷ ls) = (is_plain (b ∷ bs) ≡ true) × ArePlain ls

scan_line :
    (k crlf b : ℕ) (bs rest : Bytes)
    → is_plain (b ∷ bs) ≡ true
    → scan_headers k crlf ((b ∷ bs) ++ (13 ∷ 10 ∷ rest))
      ≡ scan_headers (k + (length (b ∷ bs) + 2)) 1 rest
unfolding scan_headers
scan_line k crlf b [] rest h = ground (arith, h)
scan_line k crlf b (b' ∷ bs) rest h = ground (arith, h, scan_line (k + 1) 0 b' bs rest)

scan_lines :
    (k crlf : ℕ) (ls : List (ℕ × Bytes)) (rest : Bytes)
    → ArePlain ls
    → crlf ≡ 1
    → scan_headers k crlf (lines_of ls ++ (13 ∷ 10 ∷ rest)) ≡ (k + (length (lines_of ls) + 2), 2)
unfolding scan_headers
scan_lines k crlf [] rest p e = ground (arith, e)
scan_lines k crlf ((b, bs) ∷ ls) rest (p, ps) e =
    ap (scan_headers k crlf) (append_assoc (b ∷ bs) (13 ∷ 10 ∷ lines_of ls) (13 ∷ 10 ∷ rest))
    ∙ scan_line k crlf b bs (lines_of ls ++ (13 ∷ 10 ∷ rest)) p
    ∙ scan_lines (k + (length (b ∷ bs) + 2)) 1 ls rest ps refl
    ∙ ap (λ n. (n, 2)) (omega (arith, length-append bs (13 ∷ 10 ∷ lines_of ls)))

-- A head: lines, the first of them not empty, and an empty one.
abbrev pub head_of : ℕ → Bytes → List (ℕ × Bytes) → Bytes
head_of b bs ls = lines_of ((b, bs) ∷ ls) ++ (13 ∷ 10 ∷ [])

scan_head :
    (b : ℕ) (bs : Bytes) (ls : List (ℕ × Bytes)) (rest : Bytes)
    → ArePlain ((b, bs) ∷ ls)
    → scan_headers 0 0 (head_of b bs ls ++ rest) ≡ (length (head_of b bs ls), 2)
scan_head b bs ls rest (p, ps) =
    ap (scan_headers 0 0) (
      append_assoc (lines_of ((b, bs) ∷ ls)) (13 ∷ 10 ∷ []) rest
      ∙ append_assoc (b ∷ bs) (13 ∷ 10 ∷ lines_of ls) (13 ∷ 10 ∷ rest))
    ∙ scan_line 0 0 b bs (lines_of ls ++ (13 ∷ 10 ∷ rest)) p
    ∙ scan_lines (0 + (length (b ∷ bs) + 2)) 1 ls rest ps refl
    ∙ ap (λ n. (n, 2))
        (omega (
          arith,
          length-append bs (13 ∷ 10 ∷ lines_of ls),
          length-append (lines_of ((b, bs) ∷ ls)) (13 ∷ 10 ∷ []),
        ))

module _ (E : HttpCrates) where
  -- What an open tunnel is left with.
  pub record Opens (c : HttpConnection E) (rest : Bytes) (o : Outcome E) : Type 0 where
    pub succeeded : o.1 ≡ ok tt
    pub open_now : o.0.state ≡ established
    pub for_client : o.0.client_outbuf ≡ c.client_outbuf ++ rest
    pub for_server : o.0.server_outbuf ≡ c.server_outbuf ++ c.client_inbuf
    pub client_read : o.0.client_inbuf ≡ []
    pub server_read : o.0.server_inbuf ≡ []

  headers-Opens :
      (fuel : ℕ) (c : HttpConnection E) (b : ℕ) (bs : Bytes) (ls : List (ℕ × Bytes)) (rest : Bytes)
      (len version : ℕ) (res : Response)
      → c.counter ≡ 0
      → c.crlf_state ≡ 0
      → c.server_inbuf ≡ head_of b bs ls ++ rest
      → ArePlain ((b, bs) ∷ ls)
      → E.parse (head_of b bs ls ++ rest) ≡ complete len res
      → res.code ≡ some 200
      → res.version ≡ some version
      → Opens c rest (receive_headers E (state_change E (suc fuel)) c)
  unfolding receive_headers receive_reply state_change dispatch relay
  headers-Opens fuel c b bs ls rest len version res counter crlf bytes plain parses code v =
      let found : scan_headers c.counter c.crlf_state (drop c.counter c.server_inbuf)
          ≡ (length (head_of b bs ls), 2) =
        rw (counter, crlf, bytes) (scan_head b bs ls rest plain) in
      let parsed : E.parse c.server_inbuf ≡ complete len res = rw bytes parses in
      let behind : drop (length (head_of b bs ls)) c.server_inbuf ≡ rest =
        ap (drop (length (head_of b bs ls))) bytes ∙ drop-append (head_of b bs ls) rest in
      rw (receive_headers, receive_reply, found, parsed, code, v)
        (record {
          succeeded = refl;
          open_now = refl;
          for_client =
              ap (λ z. c.client_outbuf ++ z)
                (ap (λ (q : ℕ × ℕ). drop q.0 c.server_inbuf) found ∙ behind);
          for_server = refl;
          client_read = refl;
          server_read = refl;
        })

  -- On a connection that waits for a reply and has got none of it, where the server's bytes are a
  -- head of lines with an empty one behind them, which parses as a reply with code 200, and then
  -- any others, push_data succeeds and opens the tunnel: the client gets exactly the bytes behind
  -- the empty line, the server all that the client has sent, each after what was queued, and
  -- nothing stays behind.
  pub push_data-Opens :
      (c : HttpConnection E) (b : ℕ) (bs : Bytes) (ls : List (ℕ × Bytes)) (rest : Bytes)
      (len version : ℕ) (res : Response)
      → c.state ≡ expect_response_headers
      → c.counter ≡ 0
      → c.crlf_state ≡ 0
      → c.server_inbuf ≡ []
      → ArePlain ((b, bs) ∷ ls)
      → E.parse (head_of b bs ls ++ rest) ≡ complete len res
      → res.code ≡ some 200
      → res.version ≡ some version
      → Opens
          (receive E from_server c (head_of b bs ls ++ rest))
          rest
          (push_data E c from_server (head_of b bs ls ++ rest))
  unfolding push_data state_change dispatch
  push_data-Opens c b bs ls rest len version res waits counter crlf empty plain parses code v =
      let c' = receive E from_server c (head_of b bs ls ++ rest) in
      let turns : suc (suc (2 * length c'.server_inbuf + 1)) ≡ enough E c' = omega arith in
      subst (λ n. Opens c' rest (state_change E n c')) turns
        (subst
          (λ st.
            Opens c' rest
              (dispatch E (state_change E (suc (2 * length c'.server_inbuf + 1))) st c'))
          (sym waits)
          (headers-Opens (2 * length c'.server_inbuf + 1) c' b bs ls rest len version res counter
            crlf (ap (λ z. z ++ (head_of b bs ls ++ rest)) empty) plain parses code v))
