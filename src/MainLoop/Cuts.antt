-- ===== src/MainLoop/Cuts.antt =====
-- lib.rs: how a stream of DNS over TCP is cut into reads makes no difference to the filter.
use tun2proxy.MainLoop.Filter.{
  Copied, and_then, at_end, write_messages, drained, copy_ipv4_dns_responses, write_message,
  pass_on,
}
use tun2proxy.MainLoop.Setup.{until_eof}
use tun2proxy.Dns.Frames.{
  frame, frames, messages_of, AreParsed, IsPartial, drain_tcp_messages-frames,
}
use tun2proxy.Proxy.{Bytes}
use tun2proxy.Dns.{Hickory, Message}
use tun2proxy.Prelude.{
  refl, inl, inr, [], ◌∷◌, ok, err, arith, ◌++◌, ◌/◌, ◌%◌, ◌≡◌, ◌≤◌, ◌<◌, ◌∙◌, ap, sym, subst,
  Option, List, ltb, length, drop, Bool-cases, append_assoc, append-nil, length-append,
}

-- A first part that is long enough starts with the other's first part.
append-starts :
    (p rest a b : Bytes)
    → p ++ rest ≡ a ++ b
    → length a ≤ length p
    → (p ≡ a ++ drop (length a) p) × (drop (length a) p ++ rest ≡ b)
append-starts p rest [] b e h = (refl, e)
append-starts [] rest (x ∷ a) b e h = elim h [ ]
append-starts (y ∷ p) rest (x ∷ a) b e h =
    let e' : (y ≡ x) × (p ++ rest ≡ a ++ b) = (cc, cc) in
    let (i, j) = append-starts p rest a b e'.1 (omega (arith, h)) in (rw (e'.0, ← i) refl, j)

IsPartial-prefix : (p rest : Bytes) → IsPartial (p ++ rest) → IsPartial p
IsPartial-prefix [] rest h = inl (omega arith)
IsPartial-prefix (x ∷ []) rest h = inl (omega arith)
IsPartial-prefix (x ∷ y ∷ p) rest (inl few) = inl (omega (arith, few))
IsPartial-prefix (x ∷ y ∷ p) rest (inr (nonzero, few)) =
    inr (nonzero, omega (arith, few, length-append p rest))

-- Fewer bytes than a frame has.
IsPartial-frame :
    (p rest payload b : Bytes)
    → p ++ rest ≡ frame payload ++ b
    → 0 < length payload
    → length p < length (frame payload)
    → IsPartial p
IsPartial-frame [] rest payload b e pos h = inl (omega arith)
IsPartial-frame (x ∷ []) rest payload b e pos h = inl (omega arith)
IsPartial-frame (x ∷ y ∷ p) rest payload b e pos h =
    let first : x ≡ length payload / 256 = cc in
    let second : y ≡ length payload % 256 = cc in
    inr (omega (arith, first, second, pos), omega (arith, first, second, h))

module _ (H : Hickory) where
  -- What came in so far, of a stream of frames and a part of one more: some frames, and a part of
  -- the next.
  record IsCut (p rest tail : Bytes) (ps : List (Bytes × Message)) : Type 0 where
    whole : List (Bytes × Message)
    to_come : List (Bytes × Message)
    left : Bytes
    all_frames : messages_of H ps ≡ messages_of H whole ++ messages_of H to_come
    came : p ≡ frames H whole ++ left
    partial : IsPartial left
    comes : left ++ rest ≡ frames H to_come ++ tail
    whole_parsed : AreParsed H whole
    others_parsed : AreParsed H to_come

  cut :
      (ps : List (Bytes × Message)) (p rest tail : Bytes)
      → AreParsed H ps
      → IsPartial tail
      → p ++ rest ≡ frames H ps ++ tail
      → IsCut p rest tail ps
  cut [] p rest tail parsed partial e = record {
    whole = [];
    to_come = [];
    left = p;
    all_frames = refl;
    came = refl;
    partial = IsPartial-prefix p rest (subst IsPartial (sym e) partial);
    comes = e;
    whole_parsed = tt;
    others_parsed = tt;
  }
  cut ((payload, m) ∷ ps) p rest tail (pos, small, parses, others) partial e =
      let e' : p ++ rest ≡ frame payload ++ (frames H ps ++ tail) =
        e ∙ append_assoc (frame payload) (frames H ps) tail in
      elim (Bool-cases (ltb (length p) (length (frame payload)))) [
        | inr enough ↦
            let (i, j) =
              append-starts p rest (frame payload) (frames H ps ++ tail) e'
                (ground (arith, enough)) in
            let next = cut ps (drop (length (frame payload)) p) rest tail others partial j in
            record {
              whole = (payload, m) ∷ next.whole;
              to_come = next.to_come;
              left = next.left;
              all_frames = ap (◌∷◌ m) next.all_frames;
              came =
                  i
                  ∙ ap (λ k. frame payload ++ k) next.came
                  ∙ sym (append_assoc (frame payload) (frames H next.whole) next.left);
              partial = next.partial;
              comes = next.comes;
              whole_parsed = (pos, small, parses, next.whole_parsed);
              others_parsed = next.others_parsed;
            }
        | inl short ↦ record {
          whole = [];
          to_come = (payload, m) ∷ ps;
          left = p;
          all_frames = refl;
          came = refl;
          partial =
              IsPartial-frame p rest payload (frames H ps ++ tail) e' pos (ground (arith, short));
          comes = e;
          whole_parsed = tt;
          others_parsed = (pos, small, parses, others);
        }
      ]

  and_then_assoc : (a b c : Copied) → and_then (and_then a b) c ≡ and_then a (and_then b c)
  and_then_assoc (x, err e) b c = refl
  and_then_assoc (x, ok u) (y, err e) c = refl
  and_then_assoc (x, ok u) (y, ok v) (z, r) = ap (λ k. (k, r)) (append_assoc x y z)

  module _ (to_vec : Message → Option Bytes) where
    write_messages-append :
        (ms ns : List Message)
        → write_messages H to_vec (ms ++ ns)
          ≡ and_then (write_messages H to_vec ms) (write_messages H to_vec ns)
    write_messages-append [] ns = refl
    write_messages-append (m ∷ ms) ns =
        ap (and_then (write_message H to_vec m)) (write_messages-append ms ns)
        ∙ sym (
            and_then_assoc (write_message H to_vec m) (write_messages H to_vec ms)
              (write_messages H to_vec ns))

    drained-frames :
        (ps : List (Bytes × Message)) (tail : Bytes) (next : Bytes → Copied)
        → AreParsed H ps
        → IsPartial tail
        → drained H to_vec (frames H ps ++ tail) next
          ≡ and_then (write_messages H to_vec (messages_of H ps)) (next tail)
    unfolding drained
    drained-frames ps tail next parsed partial =
        ap (λ r. pass_on H to_vec r next) (drain_tcp_messages-frames H ps tail parsed partial)

    -- A turn of the loop on what came in so far.
    drained-cut :
        (ps : List (Bytes × Message)) (p rest tail : Bytes) (next : Bytes → Copied)
        → (c : IsCut p rest tail ps)
        → next c.left ≡ and_then (write_messages H to_vec (messages_of H c.to_come)) (at_end tail)
        → drained H to_vec p next
          ≡ and_then (write_messages H to_vec (messages_of H ps)) (at_end tail)
    drained-cut ps p rest tail next c e =
        ap (λ k. drained H to_vec k next) c.came
        ∙ drained-frames c.whole c.left next c.whole_parsed c.partial
        ∙ ap (and_then (write_messages H to_vec (messages_of H c.whole))) e
        ∙ sym (
            and_then_assoc (write_messages H to_vec (messages_of H c.whole))
              (write_messages H to_vec (messages_of H c.to_come)) (at_end tail))
        ∙ ap (λ k. and_then k (at_end tail))
            (sym (write_messages-append (messages_of H c.whole) (messages_of H c.to_come)))
        ∙ ap (λ k. and_then (write_messages H to_vec k) (at_end tail)) (sym c.all_frames)

    last_turn :
        (ps : List (Bytes × Message)) (pending tail : Bytes)
        → AreParsed H ps
        → IsPartial tail
        → pending ++ [] ≡ frames H ps ++ tail
        → drained H to_vec pending at_end
          ≡ and_then (write_messages H to_vec (messages_of H ps)) (at_end tail)
    last_turn ps pending tail parsed partial e =
        ap (λ k. drained H to_vec k at_end) (sym (append-nil pending) ∙ e)
        ∙ drained-frames ps tail at_end parsed partial

    -- However a stream of frames, which may end within one, is cut into reads and the bytes before
    -- them, what is written is each message of a complete frame, filtered, in order, up to one that
    -- cannot be written, and the result is the error of that one, an error for a part at the end, or
    -- success.
    pub copy_ipv4_dns_responses-cuts :
        (reads : List Bytes) (pending tail : Bytes) (ps : List (Bytes × Message))
        → AreParsed H ps
        → IsPartial tail
        → pending ++ until_eof reads ≡ frames H ps ++ tail
        → copy_ipv4_dns_responses H to_vec reads pending
          ≡ and_then (write_messages H to_vec (messages_of H ps)) (at_end tail)
    unfolding copy_ipv4_dns_responses
    copy_ipv4_dns_responses-cuts [] pending tail ps parsed partial e =
        last_turn ps pending tail parsed partial e
    copy_ipv4_dns_responses-cuts ([] ∷ reads) pending tail ps parsed partial e =
        last_turn ps pending tail parsed partial e
    copy_ipv4_dns_responses-cuts ((b ∷ bs) ∷ reads) pending tail ps parsed partial e =
        let c = cut ps pending (until_eof ((b ∷ bs) ∷ reads)) tail parsed partial e in
        drained-cut ps pending (until_eof ((b ∷ bs) ∷ reads)) tail
          (λ left. copy_ipv4_dns_responses H to_vec reads (left ++ b ∷ bs)) c
          (copy_ipv4_dns_responses-cuts reads (c.left ++ b ∷ bs) tail c.to_come c.others_parsed
            partial (append_assoc c.left (b ∷ bs) (until_eof reads) ∙ c.comes))
