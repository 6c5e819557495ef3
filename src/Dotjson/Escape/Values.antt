-- ===== src/Dotjson/Escape/Values.antt =====
-- What the escapes of a JSON string stand for, and that the tables of c/dotjson/dotjson.c agree.
use model_lib.Common.{
  ℕ, suc, ◌+◌, ◌-◌, ◌*◌, ◌<◌, ◌≡◌, refl, ap, ◌∙◌, [], ◌∷◌, arith, Option, none, some, ◌==◌, leb,
  ◌&&◌, ◌>>=◌, if◌then◌else◌, inl, inr, Option-cases,
}
use model_lib.Common.Bits.{bit_and-mask}
use model_lib.Common.BitOr.{bit_or_low}
use model_lib.Dotjson.Text.{Bytes}
use model_lib.Dotjson.Escape.{hex_digit, read_hex, escaped_char}

-- RFC 8259: what the letter of a two-character escape stands for, and the value of a digit of four.
unfoldable pub letter_value : ℕ → Option ℕ
letter_value c =
    if c == 0x22
    then some 0x22
    else if c == 0x5c
    then some 0x5c
    else if c == 0x2f
    then some 0x2f
    else if c == 0x62
    then some 0x08
    else if c == 0x66
    then some 0x0c
    else if c == 0x6e
    then some 0x0a
    else if c == 0x72
    then some 0x0d
    else if c == 0x74
    then some 0x09
    else none

unfoldable pub digit_value : ℕ → Option ℕ
digit_value c =
    if leb 0x30 c && leb c 0x39
    then some (c - 0x30)
    else if leb 0x41 c && leb c 0x46
    then some (c - 0x37)
    else if leb 0x61 c && leb c 0x66
    then some (c - 0x57)
    else none

unfoldable pub code_value : (a b c d : ℕ) → Option ℕ
code_value a b c d = do
  x ← digit_value a
  y ← digit_value b
  z ← digit_value c
  t ← digit_value d
  some (4096 * x + 256 * y + 16 * z + t)

-- The table and the digits of the source are those of the standard.
pub escaped_char-letter_value : (c : ℕ) → escaped_char c ≡ letter_value c
unfolding escaped_char letter_value
escaped_char-letter_value c = refl

hex_digit-digit_value : (c : ℕ) → hex_digit c ≡ digit_value c
unfolding hex_digit digit_value
hex_digit-digit_value c = let low = bit_and-mask 4 c in ground arith

digit_value_below : (c d : ℕ) → digit_value c ≡ some d → d < 16
unfolding digit_value
digit_value_below c d h = ground arith

read_hex-digit :
    (k c d : ℕ) (p : Bytes) (uc : ℕ)
    → digit_value c ≡ some d
    → read_hex (suc k) (c ∷ p) uc ≡ read_hex k p (uc * 16 + d)
unfolding read_hex
read_hex-digit k c d p uc h =
    rw (hex_digit-digit_value c, h, read_hex)
      (ap (read_hex k p) (bit_or_low 4 uc d (digit_value_below c d h)))

pub read_hex-code_value :
    (a b c d uc : ℕ) → code_value a b c d ≡ some uc → read_hex 4 (a ∷ b ∷ c ∷ d ∷ []) 0 ≡ some uc
unfolding code_value
read_hex-code_value a b c d uc h = elim (Option-cases (digit_value a)) [
  | inl e ↦ absurd (ground (arith, h, e))
  | inr (x, ea) ↦ elim (Option-cases (digit_value b)) [
    | inl e ↦ absurd (ground (arith, h, ea, e))
    | inr (y, eb) ↦ elim (Option-cases (digit_value c)) [
      | inl e ↦ absurd (ground (arith, h, ea, eb, e))
      | inr (z, ec) ↦ elim (Option-cases (digit_value d)) [
        | inl e ↦ absurd (ground (arith, h, ea, eb, ec, e))
        | inr (t, ed) ↦
            read_hex-digit 3 a x (b ∷ c ∷ d ∷ []) 0 ea
            ∙ read_hex-digit 2 b y (c ∷ d ∷ []) _ eb
            ∙ read_hex-digit 1 c z (d ∷ []) _ ec
            ∙ read_hex-digit 0 d t [] _ ed
            ∙ unfold read_hex in ap some (omega arith) ∙ (rw (ea, eb, ec, ed) at h)
      ]
    ]
  ]
]
