-- ===== src/ZaxRt/RoundTrip.antt =====
-- `rt_stodw` on the decimal texts of `rt_dwtos`.
use model_lib.Common.{
  ℕ, zero, suc, ◌+◌, ◌-◌, ◌*◌, ◌/◌, ◌%◌, ◌^◌, ◌≤◌, ◌<◌, ◌≡◌, refl, sym, ap, ◌∙◌, List, [], ◌∷◌,
  ◌++◌, true, false, ◌==◌, ==→eq, ltb, leb, Bool-cases, inl, inr, some, arith, length, All,
  append-nil, length-append,
}
use model_lib.ZaxRt.{
  u32, digit_char, temp_digits, temp_text, reversed, rt_dwtos, char_value, stodw_loop, rt_stodw,
  has_hex_mark,
}
use native.Mathlib.Nat.{pow-suc}

abbrev pub IsDigit : ℕ → Type 0
IsDigit c = (0x30 ≤ c) × (c ≤ 0x39)

char_value-digit : (c : ℕ) → IsDigit c → char_value false c ≡ some (c - 0x30)
unfolding char_value
char_value-digit c h = let lo = h.0 in let hi = h.1 in ground arith

-- Digits are read one by one.
stodw_loop-append :
    (acc : ℕ) (xs : List ℕ) (c : ℕ)
    → All IsDigit xs
    → IsDigit c
    → stodw_loop false 10 acc (xs ++ c ∷ [])
      ≡ (u32 (u32 ((stodw_loop false 10 acc xs).0 * 10) + (c - 0x30)), [])
unfolding stodw_loop
stodw_loop-append acc [] c h d = rw (stodw_loop, char_value-digit c d, stodw_loop) refl
stodw_loop-append acc (x ∷ xs) c h d =
    rw (stodw_loop, char_value-digit x h.0, stodw_loop)
      (stodw_loop-append (u32 (u32 (acc * 10) + (x - 0x30))) xs c h.1 d)

All-append : (xs : List ℕ) (c : ℕ) → All IsDigit xs → IsDigit c → All IsDigit (xs ++ c ∷ [])
All-append [] c h d = (d, tt)
All-append (x ∷ xs) c h d = (h.0, All-append xs c h.1 d)

digit_char-IsDigit : (d : ℕ) → d < 10 → IsDigit (digit_char d)
digit_char-IsDigit d lt = (ground arith, ground arith)

digit_char_value : (d : ℕ) → d < 10 → digit_char d - 0x30 ≡ d
digit_char_value d lt = ground arith

digits_decimal : (f n : ℕ) → All IsDigit (reversed (temp_digits f n 10))
unfolding temp_digits reversed
digits_decimal zero n = tt
digits_decimal (suc f) n = elim (Bool-cases (n == 0)) [
  | inl e ↦ rw e tt
  | inr e ↦
      rw e (All-append _ _ (digits_decimal f (n / 10)) (digit_char-IsDigit (n % 10) (omega arith)))
]

digits_value :
    (f n : ℕ)
    → n < 10 ^ f
    → n < 2 ^ 32
    → stodw_loop false 10 0 (reversed (temp_digits f n 10)) ≡ (n, [])
unfolding temp_digits reversed stodw_loop
digits_value zero n lt small = let e : 0 ≡ n = omega arith in ap (λ k. (k, [])) e
digits_value (suc f) n lt small = elim (Bool-cases (n == 0)) [
  | inl e ↦ rw e (ap (λ k. (k, [])) (sym (==→eq n 0 e)))
  | inr e ↦
      let upper =
        ap (λ r. r.0) (digits_value f (n / 10) (omega (arith, pow-suc 10 f)) (omega arith)) in
      let last = digit_char_value (n % 10) (omega arith) in
      let whole : u32 (u32 (n / 10 * 10) + n % 10) ≡ n = omega arith in
      rw e (
        stodw_loop-append 0 (reversed (temp_digits f (n / 10) 10)) (digit_char (n % 10))
          (digits_decimal f (n / 10)) (digit_char-IsDigit (n % 10) (omega arith))
        ∙ rw (upper, last, whole))
]

no_hex_mark : (s : List ℕ) → All IsDigit s → has_hex_mark s ≡ false
no_hex_mark [] h = refl
no_hex_mark (a ∷ []) h = refl
no_hex_mark (a ∷ b ∷ s) h = let lo = h.1.0.1 in ground arith

-- `rt_stodw` reads a text of digits, if it has any, as a decimal number.
stodw_decimal :
    (s : List ℕ) (v : ℕ)
    → All IsDigit s
    → 0 < length s
    → stodw_loop false 10 0 s ≡ (v, [])
    → rt_stodw s ≡ (some v, [])
unfolding rt_stodw
stodw_decimal s v h some_digit e =
    let read : ltb 0 (length s - 0) ≡ true = ground arith in rw (no_hex_mark s h, e, read) refl

zero_text : rt_stodw (reversed (0x30 ∷ [])) ≡ (some 0, [])
unfolding rt_stodw reversed stodw_loop char_value
zero_text = refl

digits_there : (f n : ℕ) → (n == 0) ≡ false → 0 < length (reversed (temp_digits (suc f) n 10))
unfolding temp_digits reversed
digits_there f n e = rw e (
    omega
      (arith, length-append {0} (reversed (temp_digits f (n / 10) 10)) (digit_char (n % 10) ∷ [])))

text_value : (n : ℕ) → n < 2 ^ 32 → rt_stodw (reversed (temp_text n 10)) ≡ (some n, [])
unfolding temp_text
text_value n lt = elim (Bool-cases (n == 0)) [
  | inl e ↦ rw e (zero_text ∙ ap (λ k. (some k, [])) (sym (==→eq n 0 e)))
  | inr e ↦ rw e (
      stodw_decimal _ n (digits_decimal 10 n) (digits_there 9 n e)
        (digits_value 10 n (omega arith) lt))
]

length-temp_digits : (f n : ℕ) → length (temp_digits f n 10) ≤ f
unfolding temp_digits
length-temp_digits zero n = omega arith
length-temp_digits (suc f) n = elim (Bool-cases (n == 0)) [
  | inl e ↦ rw e (omega arith)
  | inr e ↦ rw e (omega (arith, length-temp_digits f (n / 10)))
]

length-temp_text : (n : ℕ) → length (temp_text n 10) ≤ 10
unfolding temp_text
length-temp_text n = elim (Bool-cases (n == 0)) [
  | inl e ↦ rw e (omega arith)
  | inr e ↦ rw e (length-temp_digits 10 n)
]

-- Every DWORD is put out by `rt_dwtos` in radix 10 without fill, if there is room for more than ten
-- characters; nothing is written behind its buffer of 16, and `rt_stodw` reads the text to its end as
-- the same number.
pub rt_stodw-rt_dwtos :
    (n out_length : ℕ)
    → n < 2 ^ 32
    → 10 < out_length
    → (text : List ℕ) × (rt_dwtos n 10 0 out_length ≡ some text) × (rt_stodw text ≡ (some n, []))
unfolding rt_dwtos
rt_stodw-rt_dwtos n out_length lt room =
    let size = length-temp_text n in
    let no_fill : 0 - length (temp_text n 10) ≡ 0 = omega arith in
    let some_room : leb out_length 0 ≡ false = ground arith in
    let fits : ltb 16 (length (temp_text n 10)) ≡ false = ground (arith, size) in
    let stored : ltb (length (temp_text n 10)) out_length ≡ true = ground (arith, size, room) in
    (
      reversed (temp_text n 10),
      rw (some_room, no_fill, append-nil (temp_text n 10), fits, stored) refl,
      text_value n lt,
    )
