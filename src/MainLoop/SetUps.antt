-- ===== src/MainLoop/SetUps.antt =====
-- lib.rs: the set-up of a session over any handler, as a run of the handler.
use tun2proxy.MainLoop.Setup.{
  Setup, ready, failed, waiting, until_eof, flush, answer, negotiate, launched,
  handle_proxy_session,
}
use tun2proxy.Tunnel.Session.{Run, opened, server_pushed, server_consumed}
use tun2proxy.Tunnel.{ProxyHandler}
use tun2proxy.Proxy.{Bytes, from_server, to_server}
use tun2proxy.Prelude.{
  refl, true, none, some, inl, inr, [], ◌∷◌, ◌≡◌, ◌++◌, ◌∙◌, ap, sym, List, ℕ, length, take, drop,
  if◌then◌else◌, Bool-cases, Option-cases, Result-cases, append-nil, append_assoc, subst,
  take-append, drop-append, ◌⊎◌,
}

take_all : (bs : Bytes) → take (length bs) bs ≡ bs
take_all bs = ap (take (length bs)) (sym (append-nil bs)) ∙ take-append bs []

drop_all : (bs : Bytes) → drop (length bs) bs ≡ []
drop_all bs = ap (drop (length bs)) (sym (append-nil bs)) ∙ drop-append bs []

bytes-cases : (bs : Bytes) → (bs ≡ []) ⊎ ((b : ℕ) × (rest : Bytes) × (bs ≡ b ∷ rest))
bytes-cases [] = inl refl
bytes-cases (b ∷ rest) = inr (b, rest, refl)

module _ (H : ProxyHandler) where
  open H use {State, queues, connection_established, push_data, consume_data, peek_data}

  -- A flush takes all that is queued for the server.
  flush_lem :
      (s s' : State) (bytes : Bytes)
      → flush H s ≡ some (s', bytes)
      → ((s' ≡ s) × (bytes ≡ []) × (peek_data s to_server ≡ []))
        ⊎ ((consume_data s to_server (length bytes) ≡ some s') × (peek_data s to_server ≡ bytes))
  unfolding flush
  flush_lem s s' bytes h = elim (bytes-cases (peek_data s to_server)) [
    | inl e ↦ let h' : some (s, []) ≡ some (s', bytes) = rw (flush, e) at h in inl (cc, cc, e)
    | inr (b, rest, e) ↦ elim (Option-cases (consume_data s to_server (length (b ∷ rest)))) [
      | inl k ↦ cc
      | inr (t, k) ↦
          let h' : some (t, b ∷ rest) ≡ some (s', bytes) = rw (flush, e, k) at h in inr (cc, cc)
    ]
  ]

  -- A handshake so far, with nothing left for the server.
  abbrev pub Talked : State → State → Bytes → Bytes → Type 0
  Talked first s r sent = Run H first s [] r [] sent × ((queues s).server_outbuf ≡ [])

  flush-Talked :
      (first s s' : State) (r sent bytes : Bytes)
      → Run H first s [] r [] sent
      → flush H s ≡ some (s', bytes)
      → Talked first s' r (sent ++ bytes)
  flush-Talked first s s' r sent bytes run h = elim (flush_lem s s' bytes h) [
    | inl (e, k, none_left) ↦ (
      subst (λ t. Run H first t [] r [] (sent ++ bytes)) (sym e)
          (subst (λ k. Run H first s [] r [] k) (sym (ap (λ k. sent ++ k) k ∙ append-nil sent))
            run),
      ap (λ t. (queues t).server_outbuf) e ∙ sym (H.peek_server s) ∙ none_left,
    )
    | inr (k, e) ↦ (
      subst (λ k. Run H first s' [] r [] (sent ++ k)) (ap (take (length bytes)) e ∙ take_all bytes)
          (server_consumed (length bytes) k run),
      ap (λ q. q.server_outbuf) (H.consume_server s s' (length bytes) k).0
          ∙ ap (drop (length bytes)) (sym (H.peek_server s) ∙ e)
          ∙ drop_all bytes,
    )
  ]

  answer_lem :
      (buffer : Bytes) (s s' : State) (bytes : Bytes)
      → answer H buffer s ≡ some (s', bytes)
      → flush H (push_data s from_server buffer).0 ≡ some (s', bytes)
  unfolding answer
  answer_lem buffer s s' bytes h = elim (Result-cases (push_data s from_server buffer).1) [
    | inl (u, e) ↦ rw (answer, e) at h
    | inr (f, e) ↦ let h' : none ≡ some (s', bytes) = rw (answer, e) at h in cc
  ]

  -- Where a set-up is done, what the handler was given and what is still to come are the server's
  -- bytes.
  pub record IsSetUp (first s : State) (sent read : Bytes) (rest : List Bytes) : Type 0 where
    pub got : Bytes
    pub talk : Talked first s got sent
    pub open_now : connection_established s ≡ true
    pub all_read : read ≡ got ++ until_eof rest

  abbrev pub SetsUp : State → Bytes → Setup H → Type 0
  SetsUp first read (ready s sent rest) = IsSetUp first s sent read rest
  SetsUp first read failed = Unit
  SetsUp first read waiting = Unit

  checked-SetsUp :
      (reads : List Bytes) (first s : State) (r server sent : Bytes)
      → Talked first s r sent
      → r ++ until_eof reads ≡ server
      → SetsUp first server (negotiate H reads s sent)
      → SetsUp first server
          (if connection_established s then ready s sent reads else negotiate H reads s sent)
  checked-SetsUp reads first s r server sent talk e later =
      elim (Bool-cases (connection_established s)) [
        | inl k ↦ rw k (record { got = r; talk = talk; open_now = k; all_read = sym e })
        | inr k ↦ rw k later
      ]

  -- What the server sends is regular input wherever it is cut and whatever was sent to it before.
  abbrev pub IsRegularStream : State → Bytes → Type 0
  IsRegularStream first server =
      (s : State) (r sent buffer later : Bytes)
      → Run H first s [] r [] sent
      → (r ++ buffer) ++ later ≡ server
      → H.Regular s from_server buffer

  module _ (first : State) (server : Bytes) (regular : IsRegularStream first server) where
    answer-SetsUp :
        (reads : List Bytes) (s : State) (r sent buffer : Bytes)
        → ((s' : State) (r' sent' : Bytes)
            → Talked first s' r' sent'
            → r' ++ until_eof reads ≡ server
            → SetsUp first server (negotiate H reads s' sent'))
        → Talked first s r sent
        → (r ++ buffer) ++ until_eof reads ≡ server
        → SetsUp first server (elim (answer H buffer s) [
          | none ↦ failed
          | some (s', bytes) ↦
              if connection_established s'
              then ready s' (sent ++ bytes) reads
              else negotiate H reads s' (sent ++ bytes)
        ])
    answer-SetsUp reads s r sent buffer later talk e = elim (Option-cases (answer H buffer s)) [
      | inl k ↦ rw k tt
      | inr ((s', bytes), k) ↦
          let talk' : Talked first s' (r ++ buffer) (sent ++ bytes) =
            flush-Talked first (push_data s from_server buffer).0 s' (r ++ buffer) sent bytes
              (server_pushed buffer (regular s r sent buffer (until_eof reads) talk.0 e) talk.0)
              (answer_lem buffer s s' bytes k) in
          rw k (
            checked-SetsUp reads first s' (r ++ buffer) server (sent ++ bytes) talk' e
              (later s' (r ++ buffer) (sent ++ bytes) talk' e))
    ]

    negotiate-SetsUp :
        (reads : List Bytes) (s : State) (r sent : Bytes)
        → Talked first s r sent
        → r ++ until_eof reads ≡ server
        → SetsUp first server (negotiate H reads s sent)
    unfolding negotiate
    negotiate-SetsUp [] s r sent talk e = tt
    negotiate-SetsUp ([] ∷ reads) s r sent talk e = tt
    negotiate-SetsUp ((b ∷ bs) ∷ reads) s r sent talk e =
        answer-SetsUp reads s r sent (b ∷ bs) (λ s' r' sent'. negotiate-SetsUp reads s' r' sent')
          talk (append_assoc r (b ∷ bs) (until_eof reads) ∙ e)

    launched-SetsUp :
        (reads : List Bytes)
        → until_eof reads ≡ server
        → SetsUp first server (launched H reads (flush H first))
    launched-SetsUp reads e = elim (Option-cases (flush H first)) [
      | inl k ↦ rw k tt
      | inr ((s, []), k) ↦ rw k tt
      | inr ((s, b ∷ bs), k) ↦ rw k (
          negotiate-SetsUp reads s [] (b ∷ bs) (flush-Talked first first s [] [] (b ∷ bs) opened k)
            e)
    ]

    pub handle_proxy_session-SetsUp :
        (reads : List Bytes)
        → (connection_established first ≡ true → (queues first).server_outbuf ≡ [])
        → until_eof reads ≡ server
        → SetsUp first server (handle_proxy_session H reads first)
    unfolding handle_proxy_session
    handle_proxy_session-SetsUp reads quiet e = elim (Bool-cases (connection_established first)) [
      | inl k ↦ rw k (record { got = []; talk = (opened, quiet k); open_now = k; all_read = sym e })
      | inr k ↦ rw k (launched-SetsUp reads e)
    ]
