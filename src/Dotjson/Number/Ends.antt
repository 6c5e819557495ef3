-- ===== src/Dotjson/Number/Ends.antt =====
-- The end of the scan in `decode_number`.
use model_lib.Common.{
  ℕ, suc, ◌<◌, ◌≤◌, ◌≡◌, ◌≢◌, refl, ap, ◌∙◌, ◌⊎◌, [], ◌∷◌, Bool, ◌==◌, ◌%◌, Bool-cases, inl, inr,
  Option, none, some, length, arith,
}
use model_lib.Dotjson.Text.{Bytes, peek, next, ignore}
use model_lib.Dotjson.Text.Skip.{length-ignore}
use model_lib.Dotjson.Number.{
  is_digit, after_digit, scan_digits, skip_sign, Tail, num_tail, fraction_next, exponent_next,
  ended, num_frac, scan_number, decode_number, number_result,
}
use model_lib.Dotjson.Number.Numeral.{round_ended, round_fraction, round_exponent}
use model_lib.Dotjson.Decode.Settled.{SettledAt}

-- The pointer is not behind the end, and has moved if the state has changed.
abbrev Onward : ℕ → Bytes → ℕ × Bytes → Type 0
Onward state p (state', q) = (length q ≤ length p) × (state' ≢ state → length q < length p)

scan_digits-Onward : (state : ℕ) (p : Bytes) → Onward state p (scan_digits state p)
unfolding scan_digits
scan_digits-Onward state [] = (omega arith, λ h. absurd (h refl))
scan_digits-Onward state (c ∷ p) = elim (Bool-cases (is_digit c)) [
  | inl d ↦
      let less = (scan_digits-Onward (after_digit state) p).0 in
      rw d (omega arith, λ h. omega arith)
  | inr d ↦ rw d (omega arith, λ h. absurd (h refl))
]

length-next_le : (p : Bytes) → length (next p) ≤ length p
length-next_le [] = omega arith
length-next_le (c ∷ p) = omega arith

length-skip_sign : (p : Bytes) → length (skip_sign p) ≤ length p
unfolding skip_sign
length-skip_sign p = elim (Bool-cases (peek p == 0x2b)) [
  | inl e ↦ rw e (length-next_le p)
  | inr e ↦ elim (Bool-cases (peek p == 0x2d)) [
    | inl m ↦ rw (e, m) (length-next_le p)
    | inr m ↦ rw (e, m) (omega arith)
  ]
]

scan_digits-state :
    (state : ℕ) (p : Bytes)
    → after_digit (after_digit state) ≡ after_digit state
    → ((scan_digits state p).0 ≡ state) ⊎ ((scan_digits state p).0 ≡ after_digit state)
unfolding scan_digits
scan_digits-state state [] stable = inl refl
scan_digits-state state (c ∷ p) stable = elim (Bool-cases (is_digit c)) [
  | inr d ↦ rw d (inl refl)
  | inl d ↦ rw d (elim (scan_digits-state (after_digit state) p (ap after_digit stable)) [
    | inl e ↦ inr e
    | inr e ↦ inr (e ∙ stable)
  ])
]

abbrev Ends : ℕ → Bytes → Option (ℕ × Bytes) → Type 0
Ends state p none = ⊥
Ends state p (some r) = Onward state p r

Ends-behind :
    (state later : ℕ) (p q : Bytes) (r : Option (ℕ × Bytes))
    → length q < length p
    → Ends later q r
    → Ends state p r
Ends-behind state later p q none less h = h
Ends-behind state later p q (some (x, rest)) less h = (omega (arith, h.0), λ d. omega (arith, h.0))

-- A character that leads on is not the end.
num_tail-more : (state : ℕ) (q : Bytes) → num_tail state q ≢ ended → length (next q) < length q
unfolding num_tail
num_tail-more state [] h = absurd (h (unfold num_tail in ground arith))
num_tail-more state (c ∷ q) h = omega arith

-- A round whose two jumps end well ends well.
round_Ends :
    (f state : ℕ) (p : Bytes) (x : ℕ) (q : Bytes) (tail : Tail)
    → scan_digits state p ≡ (x, q)
    → num_tail x q ≡ tail
    → (tail ≡ fraction_next → Ends 2 (next q) (num_frac f 2 (next q)))
    → (tail ≡ exponent_next → Ends 4 (skip_sign (next q)) (num_frac f 4 (skip_sign (next q))))
    → Ends state p (num_frac (suc f) state p)
round_Ends f state p x q fraction_next digits e left right =
    let inside = rw digits at (scan_digits-Onward state p) in
    let less = num_tail-more x q (λ z. cc) in
    rw (round_fraction f state p digits e)
      (Ends-behind state 2 p (next q) _ (omega (arith, inside.0, less)) (left refl))
round_Ends f state p x q exponent_next digits e left right =
    let inside = rw digits at (scan_digits-Onward state p) in
    let less = num_tail-more x q (λ z. cc) in
    rw (round_exponent f state p digits e) (
      Ends-behind state 4 p (skip_sign (next q)) _
        (omega (arith, inside.0, less, length-skip_sign (next q))) (right refl))
round_Ends f state p x q ended digits e left right =
    rw (round_ended f state p digits e) (rw digits at (scan_digits-Onward state p))

no_tail : (x : ℕ) (q : Bytes) → (x ≡ 4) ⊎ (x ≡ 5) → num_tail x q ≡ ended
unfolding num_tail
no_tail x q (inl e) = rw e refl
no_tail x q (inr e) = rw e refl

no_fraction_tail : (x : ℕ) (q : Bytes) → (x ≡ 2) ⊎ (x ≡ 3) → num_tail x q ≢ fraction_next
unfolding num_tail
no_fraction_tail x q (inl e) = rw e (λ z. cc)
no_fraction_tail x q (inr e) = rw e (λ z. ground arith)

exponent_Ends : (f : ℕ) (p : Bytes) → Ends 4 p (num_frac (suc f) 4 p)
exponent_Ends f p =
    let e =
      no_tail (scan_digits 4 p).0 (scan_digits 4 p).1
        (unfold after_digit in scan_digits-state 4 p refl) in
    round_Ends f 4 p _ _ ended refl e (λ z. cc) (λ z. cc)

fraction_Ends : (f : ℕ) (p : Bytes) → Ends 2 p (num_frac (suc (suc f)) 2 p)
fraction_Ends f p =
    let e =
      no_fraction_tail (scan_digits 2 p).0 (scan_digits 2 p).1
        (unfold after_digit in scan_digits-state 2 p refl) in
    round_Ends (suc f) 2 p _ _ _ refl refl (λ z. absurd (e z)) (λ z. exponent_Ends f _)

-- Two jumps back are enough, and an odd state is reached only behind a digit.
scan_number-Ends : (b : Bytes) → Ends 0 (skip_sign b) (scan_number b)
unfolding scan_number
scan_number-Ends b =
    round_Ends 2 0 (skip_sign b) _ _ _ refl refl (λ z. fraction_Ends 0 _) (λ z. exponent_Ends 1 _)

number_result-Settled :
    (s b : Bytes) (r : Option (ℕ × Bytes))
    → length b ≤ length s
    → Ends 0 (skip_sign b) r
    → SettledAt s s (number_result s b r)
number_result-Settled s b none le h = elim h [ ]
number_result-Settled s b (some (state, p)) le h = elim (Bool-cases (state % 2 == 0)) [
  | inl even ↦ rw even refl
  | inr odd ↦
      let changed : state ≢ 0 = λ z. cc in
      rw odd (omega (arith, h.1 changed, length-skip_sign b, le))
]

-- `decode_number` ends on every text: it sets a node and moves the pointer, or does neither.
pub decode_number-Settled : (comments : Bool) (s : Bytes) → SettledAt s s (decode_number comments s)
unfolding decode_number
decode_number-Settled comments s =
    number_result-Settled s (ignore comments s) (scan_number (ignore comments s))
      (length-ignore comments s) (scan_number-Ends (ignore comments s))
