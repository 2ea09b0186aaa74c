-- ===== src/Prelude/Text.antt =====
-- Texts as their bytes: constants, ASCII case, and numbers in decimal as the standard library reads
-- them.
use Prim.Native.Char.{code}
use Prim.Native.Nat.{ℕ, ◌+◌, ◌-◌, ◌*◌, ◌^◌}
use Prim.Native.String.{String}
use mathlib.Core.Bool.{Bool, true, false, ◌&&◌}
use mathlib.Core.List.{List, [], ◌∷◌}
use mathlib.Core.Option.{Option, none, some}
use tun2proxy.Prelude.Tests.{leb, ltb, eqb, if◌then◌else◌, bytes_beq}

-- The bytes of an ASCII text.
abbrev pub codes : String → List ℕ
codes String.[] = []
codes (String.◌∷◌ c s) = code c ∷ codes s

abbrev pub lower : ℕ → ℕ
lower b = if leb 65 b && leb b 90 then b + 32 else b

abbrev pub to_ascii_lowercase : List ℕ → List ℕ
to_ascii_lowercase [] = []
to_ascii_lowercase (b ∷ bs) = lower b ∷ to_ascii_lowercase bs

abbrev pub eq_ignore_ascii_case : List ℕ → List ℕ → Bool
eq_ignore_ascii_case a b = bytes_beq (to_ascii_lowercase a) (to_ascii_lowercase b)

abbrev pub starts_with : List ℕ → List ℕ → Bool
starts_with [] bs = true
starts_with (p ∷ ps) [] = false
starts_with (p ∷ ps) (b ∷ bs) = eqb p b && starts_with ps bs

-- The digits of `str::parse::<usize>`, on a 64-bit target, after the number so far.
abbrev digits_from : ℕ → List ℕ → Option ℕ
digits_from n [] = some n
digits_from n (b ∷ bs) =
    let rest = digits_from (n * 10 + (b - 48)) bs in
    if leb 48 b && leb b 57 && ltb (n * 10 + (b - 48)) (2 ^ 64) then rest else none

-- One `+` may stand before the digits, of which there is one at least.
unfoldable pub parse_usize : List ℕ → Option ℕ
parse_usize [] = none
parse_usize (b ∷ []) = digits_from 0 (b ∷ [])
parse_usize (b ∷ c ∷ bs) = if eqb b 43 then digits_from 0 (c ∷ bs) else digits_from 0 (b ∷ c ∷ bs)

-- `str::split`: the pieces between the separators, one at least.
abbrev cons_first : ℕ → List (List ℕ) → List (List ℕ)
cons_first b [] = (b ∷ []) ∷ []
cons_first b (piece ∷ pieces) = (b ∷ piece) ∷ pieces

abbrev pub split : ℕ → List ℕ → List (List ℕ)
split separator [] = [] ∷ []
split separator (b ∷ bs) =
    let pieces = split separator bs in if eqb b separator then [] ∷ pieces else cons_first b pieces
