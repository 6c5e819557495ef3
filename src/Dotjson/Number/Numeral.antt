-- ===== src/Dotjson/Number/Numeral.antt =====
-- The numerals that `decode_number` reads: a sign, digits, a fraction and an exponent.
use model_lib.Common.{
  ℕ, suc, ◌-◌, ◌%◌, ◌≡◌, ◌⊎◌, inl, inr, refl, ap, ◌∙◌, [], ◌∷◌, ◌++◌, append_assoc, arith, length,
  length-append, take, take-append, Bool, true, false, ◌==◌, not, if◌then◌else◌, ◌||◌, some,
}
use model_lib.Dotjson.Text.{Bytes, peek, next, ignore}
use model_lib.Dotjson.Node.{number, ok}
use model_lib.Dotjson.Number.{
  is_digit, after_digit, scan_digits, skip_sign, num_tail, fraction_next, exponent_next, ended,
  num_frac, scan_number, decode_number, number_at, number_result,
}

-- Digits.
abbrev Digits : Bytes → Type 0
Digits [] = Unit
Digits (d ∷ ds) = (is_digit d ≡ true) × Digits ds

pub data Sign : Type 0 where
  unsigned : Sign
  plus : Sign
  minus : Sign

pub data Fraction : Type 0 where
  no_fraction : Fraction
  fraction : ℕ → Bytes → Fraction

pub data Exponent : Type 0 where
  no_exponent : Exponent
  exponent : (capital : Bool) → Sign → ℕ → Bytes → Exponent

-- One digit at least in each place.
pub record Numeral : Type 0 where
  pub sign : Sign
  pub first : ℕ
  pub more : Bytes
  pub frac : Fraction
  pub expo : Exponent

abbrev pub sign_text : Sign → Bytes
sign_text unsigned = []
sign_text plus = 0x2b ∷ []
sign_text minus = 0x2d ∷ []

abbrev pub fraction_text : Fraction → Bytes
fraction_text no_fraction = []
fraction_text (fraction d ds) = 0x2e ∷ d ∷ ds

abbrev pub exponent_text : Exponent → Bytes
exponent_text no_exponent = []
exponent_text (exponent capital s d ds) = (if capital then 0x45 else 0x65) ∷ (sign_text s ++ d ∷ ds)

unfoldable pub numeral_text : Numeral → Bytes
numeral_text n =
    sign_text n.sign ++ n.first ∷ (n.more ++ (fraction_text n.frac ++ exponent_text n.expo))

abbrev InFraction : Fraction → Type 0
InFraction no_fraction = Unit
InFraction (fraction d ds) = Digits (d ∷ ds)

abbrev InExponent : Exponent → Type 0
InExponent no_exponent = Unit
InExponent (exponent capital s d ds) = Digits (d ∷ ds)

abbrev pub DigitsOnly : Numeral → Type 0
DigitsOnly n = Digits (n.first ∷ n.more) × InFraction n.frac × InExponent n.expo

-- A byte that continues no numeral.
unfoldable pub stops : ℕ → Bool
unfolding is_digit
stops c = not (is_digit c || c == 0x2e || c == 0x45 || c == 0x65)

scan_end :
    (state : ℕ) (rest : Bytes)
    → is_digit (peek rest) ≡ false
    → scan_digits state rest ≡ (state, rest)
unfolding scan_digits
scan_end state [] h = refl
scan_end state (c ∷ rest) h = rw h

scan_more :
    (state : ℕ) (ds rest : Bytes)
    → after_digit state ≡ state
    → Digits ds
    → is_digit (peek rest) ≡ false
    → scan_digits state (ds ++ rest) ≡ (state, rest)
unfolding scan_digits
scan_more state [] rest e h stop = scan_end state rest stop
scan_more state (d ∷ ds) rest e h stop = rw (h.0, e) (scan_more state ds rest e h.1 stop)

scan_first :
    (state d : ℕ) (ds rest : Bytes)
    → Digits (d ∷ ds)
    → is_digit (peek rest) ≡ false
    → scan_digits state (d ∷ (ds ++ rest)) ≡ (after_digit state, rest)
unfolding scan_digits
scan_first state d ds rest h stop =
    rw h.0 (scan_more (after_digit state) ds rest (unfold after_digit in ground arith) h.1 stop)

skip_sign-sign_text :
    (s : Sign) (d : ℕ) (p : Bytes) → is_digit d ≡ true → skip_sign (sign_text s ++ d ∷ p) ≡ d ∷ p
unfolding skip_sign is_digit
skip_sign-sign_text unsigned d p h = ground arith
skip_sign-sign_text plus d p h = refl
skip_sign-sign_text minus d p h = refl

-- One round of `num_frac`, by what its tests decide.
module _ (f state : ℕ) (p : Bytes) {state' : ℕ} {q : Bytes}
    (digits : scan_digits state p ≡ (state', q)) where
  pub round_ended : num_tail state' q ≡ ended → num_frac (suc f) state p ≡ some (state', q)
  unfolding num_frac
  round_ended t = rw (digits, num_frac, t, num_frac) (rw digits)

  pub round_fraction :
      num_tail state' q ≡ fraction_next → num_frac (suc f) state p ≡ num_frac f 2 (next q)
  unfolding num_frac
  round_fraction t = rw (digits, num_frac, t, num_frac) (rw digits)

  pub round_exponent :
      num_tail state' q ≡ exponent_next
      → num_frac (suc f) state p ≡ num_frac f 4 (skip_sign (next q))
  unfolding num_frac
  round_exponent t = rw (digits, num_frac, t, num_frac) (rw digits)

module _ (rest : Bytes) (stop : stops (peek rest) ≡ true) where
  no_digit : is_digit (peek rest) ≡ false
  unfolding stops
  no_digit = ground arith

  tail_ended : (state : ℕ) → num_tail state rest ≡ ended
  unfolding stops num_tail is_digit
  tail_ended state = ground arith

  -- The digits of an exponent, behind its mark.
  in_exponent :
      (f : ℕ) (s : Sign) (d : ℕ) (ds : Bytes)
      → Digits (d ∷ ds)
      → num_frac (suc f) 4 (skip_sign ((sign_text s ++ d ∷ ds) ++ rest)) ≡ some (5, rest)
  unfolding after_digit
  in_exponent f s d ds h =
      rw (append_assoc (sign_text s) (d ∷ ds) rest, skip_sign-sign_text s d (ds ++ rest) h.0)
        (round_ended f 4 (d ∷ (ds ++ rest)) (scan_first 4 d ds rest h no_digit) (tail_ended 5))

  at_mark :
      (capital : Bool) (state : ℕ) (p : Bytes)
      → (state ≡ 1) ⊎ (state ≡ 3)
      → num_tail state ((if capital then 0x45 else 0x65) ∷ p) ≡ exponent_next
  unfolding num_tail
  at_mark true state p odd = ground arith
  at_mark false state p odd = ground arith

  mark_no_digit : (capital : Bool) → is_digit (if capital then 0x45 else 0x65) ≡ false
  unfolding is_digit
  mark_no_digit true = refl
  mark_no_digit false = refl

  -- The last digits of a whole part or a fraction, and the exponent.
  last_scan :
      (f state d : ℕ) (ds : Bytes) (x : Exponent)
      → (after_digit state ≡ 1) ⊎ (after_digit state ≡ 3)
      → Digits (d ∷ ds)
      → InExponent x
      → (end : ℕ) × (num_frac (suc (suc f)) state (d ∷ (ds ++ (exponent_text x ++ rest)))
          ≡ some (end, rest))
        × (end % 2 ≡ 1)
  last_scan f state d ds no_exponent odd h hx = (
    after_digit state,
    round_ended (suc f) state _ (scan_first state d ds rest h no_digit) (tail_ended _),
    ground arith,
  )
  last_scan f state d ds (exponent capital s e es) odd h hx = (
    5,
    round_exponent (suc f) state _ (scan_first state d ds _ h (mark_no_digit capital))
          (at_mark capital (after_digit state) ((sign_text s ++ e ∷ es) ++ rest) odd)
        ∙ in_exponent f s e es hx,
    refl,
  )

  unsigned_numeral :
      (d : ℕ) (ds : Bytes) (fr : Fraction) (x : Exponent)
      → Digits (d ∷ ds)
      → InFraction fr
      → InExponent x
      → (end : ℕ) × (num_frac 3 0 (d ∷ (ds ++ (fraction_text fr ++ (exponent_text x ++ rest))))
          ≡ some (end, rest))
        × (end % 2 ≡ 1)
  unfolding after_digit is_digit num_tail
  unsigned_numeral d ds no_fraction x h hf hx = last_scan 1 0 d ds x (inl refl) h hx
  unsigned_numeral d ds (fraction e es) x h hf hx =
      let (end, run, odd) = last_scan 0 2 e es x (inr refl) hf hx in
      (
        end,
        round_fraction 2 0 _ {q = fraction_text (fraction e es) ++ (exponent_text x ++ rest)}
              (scan_first 0 d ds _ h refl) refl
            ∙ run,
        odd,
      )

  -- The whole scan of a numeral.
  scan_numeral :
      (n : Numeral)
      → DigitsOnly n
      → (end : ℕ) × (scan_number (numeral_text n ++ rest) ≡ some (end, rest)) × (end % 2 ≡ 1)
  unfolding scan_number numeral_text
  scan_numeral n h =
      let (end, run, odd) = unsigned_numeral n.first n.more n.frac n.expo h.0 h.1 h.2 in
      (
        end,
        simp append_assoc (ap (num_frac 3 0) (skip_sign-sign_text n.sign n.first _ h.0.0) ∙ run),
        odd,
      )

number_result-odd :
    (s b p : Bytes) (end : ℕ)
    → end % 2 ≡ 1
    → number_result s b (some (end, p)) ≡ ok (number (take (length b - length p) b)) p
number_result-odd s b p end odd = rw odd

-- At a numeral whose first digits, fraction and exponent are made of digits, with white space and
-- comments before it and a byte behind it that continues no numeral, `decode_number` makes a number
-- node of exactly the numeral's text and stops behind it.
pub decode_number-numeral_text :
    (comments : Bool) (s : Bytes) (n : Numeral) (rest : Bytes)
    → DigitsOnly n
    → stops (peek rest) ≡ true
    → ignore comments s ≡ numeral_text n ++ rest
    → decode_number comments s ≡ ok (number (numeral_text n)) rest
unfolding decode_number
decode_number-numeral_text comments s n rest h stop e =
    let (end, run, odd) = scan_numeral rest stop n h in
    let len : length (numeral_text n ++ rest) - length rest ≡ length (numeral_text n) =
      omega (arith, length-append {0} (numeral_text n) rest) in
    ap (number_at s) e
    ∙ ap (number_result s (numeral_text n ++ rest)) run
    ∙ number_result-odd s (numeral_text n ++ rest) rest end odd
    ∙ rw (len, take-append)
