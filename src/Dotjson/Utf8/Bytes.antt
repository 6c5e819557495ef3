-- ===== src/Dotjson/Utf8/Bytes.antt =====
-- What the bytes of `uc_2_utf8` stand for, by a decoder written from the table of RFC 2279.
use model_lib.Common.{
  ℕ, zero, suc, ◌+◌, ◌-◌, ◌*◌, ◌/◌, ◌%◌, ◌^◌, ◌≤◌, ◌<◌, ◌≡◌, ◌∙◌, refl, ap, List, [], ◌∷◌, ◌++◌,
  ltb, leb, ◌==◌, if◌then◌else◌, arith, true, ==→eq, bit_or, Option, none, some, length,
}
use model_lib.Common.Bits.{checked, checked_below, bit_and-mask}
use model_lib.Dotjson.Utf8.{tail_byte, uc_2_utf8}

-- `n` continuation bytes, six bits each.
utf8_tails : ℕ → ℕ → List ℕ → Option (ℕ × List ℕ)
utf8_tails zero acc bs = some (acc, bs)
utf8_tails (suc n) acc [] = none
utf8_tails (suc n) acc (b ∷ bs) =
    let more = utf8_tails n (acc * 64 + (b - 0x80)) bs in
    if leb 0x80 b then (if ltb b 0xc0 then more else none) else none

-- One code point off the front, with the bytes behind it.
pub utf8_value : List ℕ → Option (ℕ × List ℕ)
unfolding utf8_tails
utf8_value [] = none
utf8_value (b ∷ bs) =
    if ltb b 0x80
    then some (b, bs)
    else if ltb b 0xc0
    then none
    else if ltb b 0xe0
    then utf8_tails 1 (b - 0xc0) bs
    else if ltb b 0xf0
    then utf8_tails 2 (b - 0xe0) bs
    else if ltb b 0xf8
    then utf8_tails 3 (b - 0xf0) bs
    else if ltb b 0xfc
    then utf8_tails 4 (b - 0xf8) bs
    else if ltb b 0xfe
    then utf8_tails 5 (b - 0xfc) bs
    else none

-- `m` has no bit among those of numbers below `n`.
bit_or_table :
    (m n x : ℕ)
    → checked (λ y. bit_or m y % 256 == m + y) n ≡ true
    → x < n
    → bit_or m x % 2 ^ 8 ≡ m + x
bit_or_table m n x h lt = ==→eq _ _ (checked_below (λ y. bit_or m y % 256 == m + y) n x lt h)

pub tail_byte_value : (uc k : ℕ) → tail_byte uc k ≡ 0x80 + uc / 2 ^ k % 64
unfolding tail_byte checked
tail_byte_value uc k =
    ap (λ x. bit_or 0x80 x % 2 ^ 8) (bit_and-mask 6 (uc / 2 ^ k))
    ∙ bit_or_table 0x80 64 (uc / 2 ^ k % 64) refl (omega arith)

utf8_tails_step :
    (n acc x : ℕ) (bs : List ℕ)
    → x < 64
    → utf8_tails (suc n) acc ((0x80 + x) ∷ bs) ≡ utf8_tails n (acc * 64 + x) bs
unfolding utf8_tails
utf8_tails_step n acc x bs h =
    let low : leb 0x80 (0x80 + x) ≡ true = ground arith in
    let high : ltb (0x80 + x) 0xc0 ≡ true = ground arith in
    let value : 0x80 + x - 0x80 ≡ x = omega arith in rw (low, high, value)

utf8_tails-tail_byte :
    (n acc uc k : ℕ) (bs : List ℕ)
    → utf8_tails (suc n) acc (tail_byte uc k ∷ bs) ≡ utf8_tails n (acc * 64 + uc / 2 ^ k % 64) bs
utf8_tails-tail_byte n acc uc k bs =
    rw (tail_byte_value uc k) (utf8_tails_step n acc (uc / 2 ^ k % 64) bs (omega arith))

lead_two : (x : ℕ) (bs : List ℕ) → x < 32 → utf8_value ((0xc0 + x) ∷ bs) ≡ utf8_tails 1 x bs
unfolding utf8_value
lead_two x bs h = ground arith

lead_three : (x : ℕ) (bs : List ℕ) → x < 16 → utf8_value ((0xe0 + x) ∷ bs) ≡ utf8_tails 2 x bs
unfolding utf8_value
lead_three x bs h = ground arith

lead_four : (x : ℕ) (bs : List ℕ) → x < 8 → utf8_value ((0xf0 + x) ∷ bs) ≡ utf8_tails 3 x bs
unfolding utf8_value
lead_four x bs h = ground arith

lead_five : (x : ℕ) (bs : List ℕ) → x < 4 → utf8_value ((0xf8 + x) ∷ bs) ≡ utf8_tails 4 x bs
unfolding utf8_value
lead_five x bs h = ground arith

lead_six : (x : ℕ) (bs : List ℕ) → x < 2 → utf8_value ((0xfc + x) ∷ bs) ≡ utf8_tails 5 x bs
unfolding utf8_value
lead_six x bs h = ground arith

utf8_tails-zero : (acc uc : ℕ) (bs : List ℕ) → acc ≡ uc → utf8_tails 0 acc bs ≡ some (uc, bs)
unfolding utf8_tails
utf8_tails-zero acc uc bs e = ap (λ x. some (x, bs)) e

module _ (uc : ℕ) (rest : List ℕ) where
  one_byte : uc < 2 ^ 7 → utf8_value (uc % 2 ^ 8 ∷ rest) ≡ some (uc, rest)
  unfolding utf8_value
  one_byte h = ground arith

  two_bytes :
      uc < 2 ^ 11
      → utf8_value (bit_or 0xc0 (uc / 2 ^ 6) % 2 ^ 8 ∷ tail_byte uc 0 ∷ rest) ≡ some (uc, rest)
  unfolding checked
  two_bytes h =
      rw
        (
          bit_or_table 0xc0 32 (uc / 2 ^ 6) refl (omega arith),
          lead_two (uc / 2 ^ 6) (tail_byte uc 0 ∷ rest) (omega arith),
          utf8_tails-tail_byte,
        )
        (utf8_tails-zero _ uc rest (omega arith))

  three_bytes :
      uc < 2 ^ 16
      → utf8_value (bit_or 0xe0 (uc / 2 ^ 12) % 2 ^ 8 ∷ tail_byte uc 6 ∷ tail_byte uc 0 ∷ rest)
        ≡ some (uc, rest)
  unfolding checked
  three_bytes h =
      rw
        (
          bit_or_table 0xe0 16 (uc / 2 ^ 12) refl (omega arith),
          lead_three (uc / 2 ^ 12) _ (omega arith),
          utf8_tails-tail_byte,
          utf8_tails-tail_byte,
        )
        (utf8_tails-zero _ uc rest (omega arith))

  four_bytes :
      uc < 2 ^ 21
      → utf8_value (
          bit_or 0xf0 (uc / 2 ^ 18) % 2 ^ 8
          ∷ tail_byte uc 12
          ∷ tail_byte uc 6
          ∷ tail_byte uc 0
          ∷ rest)
        ≡ some (uc, rest)
  unfolding checked
  four_bytes h =
      rw
        (
          bit_or_table 0xf0 8 (uc / 2 ^ 18) refl (omega arith),
          lead_four (uc / 2 ^ 18) _ (omega arith),
          utf8_tails-tail_byte,
          utf8_tails-tail_byte,
          utf8_tails-tail_byte,
        )
        (utf8_tails-zero _ uc rest (omega arith))

  five_bytes :
      uc < 2 ^ 26
      → utf8_value (
          bit_or 0xf8 (uc / 2 ^ 24) % 2 ^ 8
          ∷ tail_byte uc 18
          ∷ tail_byte uc 12
          ∷ tail_byte uc 6
          ∷ tail_byte uc 0
          ∷ rest)
        ≡ some (uc, rest)
  unfolding checked
  five_bytes h =
      rw
        (
          bit_or_table 0xf8 4 (uc / 2 ^ 24) refl (omega arith),
          lead_five (uc / 2 ^ 24) _ (omega arith),
          utf8_tails-tail_byte,
          utf8_tails-tail_byte,
          utf8_tails-tail_byte,
          utf8_tails-tail_byte,
        )
        (utf8_tails-zero _ uc rest (omega arith))

  six_bytes :
      uc < 2 ^ 31
      → utf8_value (
          bit_or 0xfc (uc / 2 ^ 30) % 2 ^ 8
          ∷ tail_byte uc 24
          ∷ tail_byte uc 18
          ∷ tail_byte uc 12
          ∷ tail_byte uc 6
          ∷ tail_byte uc 0
          ∷ rest)
        ≡ some (uc, rest)
  unfolding checked
  six_bytes h =
      rw
        (
          bit_or_table 0xfc 2 (uc / 2 ^ 30) refl (omega arith),
          lead_six (uc / 2 ^ 30) _ (omega arith),
          utf8_tails-tail_byte,
          utf8_tails-tail_byte,
          utf8_tails-tail_byte,
          utf8_tails-tail_byte,
          utf8_tails-tail_byte,
        )
        (utf8_tails-zero _ uc rest (omega arith))

-- For a code point below 2 ^ 31 the bytes of `uc_2_utf8`, whatever follows them, are read by the
-- decoder of RFC 2279 as that code point, and nothing behind them is read.
pub utf8_value-uc_2_utf8 :
    (uc : ℕ) (rest : List ℕ) → uc < 2 ^ 31 → utf8_value (uc_2_utf8 uc ++ rest) ≡ some (uc, rest)
unfolding uc_2_utf8
utf8_value-uc_2_utf8 uc rest h = ground (
  arith,
  one_byte uc rest,
  two_bytes uc rest,
  three_bytes uc rest,
  four_bytes uc rest,
  five_bytes uc rest,
  six_bytes uc rest,
)

-- `uc_2_utf8` stores at most six bytes; none exactly when the code point is 2 ^ 31 or more.
pub length-uc_2_utf8 : (uc : ℕ) → length (uc_2_utf8 uc) ≤ 6
unfolding uc_2_utf8
length-uc_2_utf8 uc = ground arith

pub length-uc_2_utf8_pos : (uc : ℕ) → uc < 2 ^ 31 → 0 < length (uc_2_utf8 uc)
unfolding uc_2_utf8
length-uc_2_utf8_pos uc h = ground arith
