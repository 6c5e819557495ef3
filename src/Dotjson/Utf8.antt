-- ===== src/Dotjson/Utf8.antt =====
-- `uc_2_utf8` of c/dotjson/dotjson.c: a code point as one to six bytes.
pub mod Bytes
use model_lib.Common.{
  ℕ, ◌+◌, ◌/◌, ◌%◌, ◌^◌, ◌<◌, bit_and, bit_or, List, [], ◌∷◌, leb, if◌then◌else◌, length,
}

-- A byte stored in a `char`.
abbrev char_of : ℕ → ℕ
char_of x = x % 2 ^ 8

-- A continuation byte, `0x80 | ((uc >> k) & 0x3f)`.
unfoldable pub tail_byte : ℕ → ℕ → ℕ
tail_byte uc k = char_of (bit_or 0x80 (bit_and (uc / 2 ^ k) 0x3f))

-- The bytes that `uc_2_utf8(uc, u8)` stores from `u8` on: its result is their number, and with no
-- `u8` it stores nothing and returns that number all the same.
unfoldable pub uc_2_utf8 : ℕ → List ℕ
uc_2_utf8 uc =
    if leb uc 0x7f
    then char_of uc ∷ []
    else if leb uc 0x7ff
    then char_of (bit_or 0xc0 (uc / 2 ^ 6)) ∷ tail_byte uc 0 ∷ []
    else if leb uc 0xffff
    then char_of (bit_or 0xe0 (uc / 2 ^ 12)) ∷ tail_byte uc 6 ∷ tail_byte uc 0 ∷ []
    else if leb uc 0x1fffff
    then char_of (bit_or 0xf0 (uc / 2 ^ 18))
      ∷ tail_byte uc 12
      ∷ tail_byte uc 6
      ∷ tail_byte uc 0
      ∷ []
    else if leb uc 0x3ffffff
    then char_of (bit_or 0xf8 (uc / 2 ^ 24))
      ∷ tail_byte uc 18
      ∷ tail_byte uc 12
      ∷ tail_byte uc 6
      ∷ tail_byte uc 0
      ∷ []
    else if leb uc 0x7fffffff
    then char_of (bit_or 0xfc (uc / 2 ^ 30))
      ∷ tail_byte uc 24
      ∷ tail_byte uc 18
      ∷ tail_byte uc 12
      ∷ tail_byte uc 6
      ∷ tail_byte uc 0
      ∷ []
    else []
