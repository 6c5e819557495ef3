-- ===== src/Dotjson/Number.antt =====
-- `decode_number` of c/dotjson/dotjson.c.
pub mod Numeral
pub mod Ends
use model_lib.Common.{
  ℕ, zero, suc, ◌-◌, ◌%◌, [], ◌∷◌, Bool, ◌&&◌, ◌||◌, ◌==◌, leb, if◌then◌else◌, Option, none, some,
  length, take,
}
use model_lib.Dotjson.Text.{Bytes, peek, next, ignore}
use model_lib.Dotjson.Node.{number, Decoded, ok, unset, out_of_fuel}

unfoldable pub is_digit : ℕ → Bool
is_digit c = leb 0x30 c && leb c 0x39

-- The state that a digit leads to.
unfoldable pub after_digit : ℕ → ℕ
after_digit state =
    if state == 0 then 1 else if state == 2 then 3 else if state == 4 then 5 else state

-- `while (*p >= '0' && *p <= '9')`
unfoldable pub scan_digits : ℕ → Bytes → ℕ × Bytes
scan_digits state [] = (state, [])
scan_digits state (c ∷ p) =
    let rest = scan_digits (after_digit state) p in if is_digit c then rest else (state, c ∷ p)

-- From the label `num_exp` up to `num_frac`.
unfoldable pub skip_sign : Bytes → Bytes
skip_sign p = if peek p == 0x2b then next p else if peek p == 0x2d then next p else p

-- What the tests behind the digits decide: a fraction, an exponent, or the end.
pub data Tail : Type 0 where
  fraction_next : Tail
  exponent_next : Tail
  ended : Tail

unfoldable pub num_tail : ℕ → Bytes → Tail
num_tail state p =
    if state == 1 && peek p == 0x2e
    then fraction_next
    else if (state == 1 || state == 3) && (peek p == 0x45 || peek p == 0x65)
    then exponent_next
    else ended

-- From the label `num_frac` on; each `goto` costs a unit of fuel. The result is the final state and
-- pointer.
unfoldable pub num_frac : ℕ → ℕ → Bytes → Option (ℕ × Bytes)
num_frac zero state p = none
num_frac (suc f) state p =
    let (state', q) = scan_digits state p in
    elim (num_tail state' q) [
      | fraction_next ↦ num_frac f 2 (next q)
      | exponent_next ↦ num_frac f 4 (skip_sign (next q))
      | ended ↦ some (state', q)
    ]

-- The scan from `b`: at most two jumps back are ever made.
unfoldable pub scan_number : Bytes → Option (ℕ × Bytes)
scan_number b = num_frac 3 0 (skip_sign b)

-- What the source makes of the scan from `b`, in a call at `s`.
abbrev number_result : Bytes → Bytes → Option (ℕ × Bytes) → Decoded
number_result s b none = out_of_fuel
number_result s b (some (state, p)) =
    if state % 2 == 0 then unset s else ok (number (take (length b - length p) b)) p

abbrev number_at : Bytes → Bytes → Decoded
number_at s b = number_result s b (scan_number b)

unfoldable pub decode_number : Bool → Bytes → Decoded
decode_number comments s = number_at s (ignore comments s)
