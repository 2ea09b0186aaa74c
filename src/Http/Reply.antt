-- ===== src/Http/Reply.antt =====
-- http.rs: what is read of a proxy's reply. httparse parses its head.
use tun2proxy.Prelude.{
  true, false, none, some, [], ◌∷◌, ok, err, ◌+◌, ◌&&◌, bytes_eq, ◌>>=◌, ◌>>◌, guard, ok_or, codes,
  eq_ignore_ascii_case, ℕ, List, Result, if◌then◌else◌, Bool, Option, parse_usize, ◌||◌, ltb,
  length, eqb, not, take, split,
}
use tun2proxy.Proxy.{Bytes}

-- httparse::Response, with the headers in their order.
pub record Response : Type 0 where
  pub code : Option ℕ
  pub version : Option ℕ
  pub reason : Option Bytes
  pub headers : List (Bytes × Bytes)

pub data Status : Type 0 where
  partial invalid : Status
  complete : ℕ → Response → Status

-- `out_of_fuel` is the model's own.
pub data HttpError : Type 0 where
  bad_response no_status_code no_version no_reason unexpected_status : HttpError
  no_challenge unsupported_scheme not_text bad_challenge bad_credentials : HttpError
  transfer_encoding malformed_length digest_failed digest_missing wrong_protocol out_of_fuel :
      HttpError

-- The header of a name, without case: the last one, as the map keeps it.
unfoldable pub find_header : Bytes → List (Bytes × Bytes) → Option Bytes
find_header name [] = none
find_header name ((n, v) ∷ hs) = elim (find_header name hs) [
  | some w ↦ some w
  | none ↦ if eq_ignore_ascii_case n name then some v else none
]

-- The loop of `ExpectResponseHeaders`, over what it has not seen: the new `counter` and `crlf_state`.
unfoldable pub scan_headers : ℕ → ℕ → Bytes → ℕ × ℕ
scan_headers counter crlf [] = (counter, crlf)
scan_headers counter crlf (b ∷ bs) =
    let crlf' = if eqb b b'\n' then crlf + 1 else if not (eqb b b'\r') then 0 else crlf in
    let rest = scan_headers (counter + 1) crlf' bs in
    if eqb crlf' 2 then (counter + 1, crlf') else rest

unfoldable pub is_digest_scheme : Bytes → Bool
is_digest_scheme auth_data =
    not (ltb (length auth_data) 6) && eq_ignore_ascii_case (take 6 auth_data) (codes "digest")

-- Lists of lengths: the first one, if all the others are numbers equal to it.
unfoldable pub all_equal : ℕ → List Bytes → Bool
all_equal n [] = true
all_equal n (piece ∷ pieces) = elim (parse_usize piece) [
  | none ↦ false
  | some k ↦ eqb k n && all_equal n pieces
]

repeated_length : List Bytes → Option ℕ
unfolding all_equal
repeated_length [] = none
repeated_length (piece ∷ pieces) = elim (parse_usize piece) [
  | none ↦ none
  | some n ↦ if all_equal n pieces then some n else none
]

-- The value of `Content-Length`.
unfoldable pub content_length : Bytes → Option ℕ
unfolding repeated_length
content_length value = elim (parse_usize value) [
  | some n ↦ some n
  | none ↦ repeated_length (split b',' value)
]

-- The headers of a reply that is 407.
unfoldable pub framing : (Bytes → Bool) → Response → ℕ → Result HttpError (Option ℕ)
unfolding find_header content_length
framing is_utf8 res version =
    if elim (find_header (codes "Connection") res.headers) [
      | some v ↦ eq_ignore_ascii_case v (codes "close")
      | none ↦ false
    ]
      || eqb version 0
    then ok none
    else elim (find_header (codes "Transfer-Encoding") res.headers) [
      | some v ↦ err transfer_encoding
      | none ↦ elim (find_header (codes "Content-Length") res.headers) [
        | none ↦ ok none
        | some v ↦ do
          guard (is_utf8 v) not_text
          n ← ok_or (content_length v) malformed_length
          ok (some n)
      ]
    ]
