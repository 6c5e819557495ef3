-- ===== src/Dotjson/Escape/Measure.antt =====
-- Two calls of `unescape_str` on one text, and the end of a call.
use model_lib.Common.{
  ℕ, zero, suc, ◌+◌, ◌<◌, ◌≤◌, ◌≡◌, refl, [], ◌∷◌, true, ◌==◌, Bool-cases, Option-cases, inl, inr,
  ◌⊎◌, length, arith,
}
use model_lib.Dotjson.Text.{Bytes, peek, next, quote, backslash}
use model_lib.Dotjson.Escape.{
  Round, emit, read_hex, escaped_char, unescape_char, Unescaped, closed, out_of_fuel, unescape_loop,
  unescape_str,
}

-- The same outcome, the same count and the same pointer; the buffers may differ.
abbrev pub Agree : Unescaped → Unescaped → Type 0
Agree (closed n b r) (closed n' b' r') = (n ≡ n') × (r ≡ r')
Agree Unescaped.bad Unescaped.bad = Unit
Agree out_of_fuel out_of_fuel = Unit
Agree _ _ = ⊥

Round-cases :
    (r : Round) → (r ≡ Round.bad) ⊎ ((bytes : Bytes) × (rest : Bytes) × (r ≡ emit bytes rest))
Round-cases (emit bytes rest) = inr (bytes, rest, refl)
Round-cases Round.bad = inl refl

unescape_loop-Agree :
    (f l l' : ℕ) (p : Bytes) (n : ℕ) (buf buf' : Bytes)
    → Agree (unescape_loop f l p n buf) (unescape_loop f l' p n buf')
unfolding unescape_loop
unescape_loop-Agree zero l l' p n buf buf' = tt
unescape_loop-Agree (suc f) l l' p n buf buf' = elim (Bool-cases (peek p == quote)) [
  | inl e ↦ rw (e, unescape_loop) (refl, refl)
  | inr e ↦ elim (Round-cases (unescape_char p)) [
    | inl b ↦ rw (e, unescape_loop, b, unescape_loop) tt
    | inr (bytes, rest, b) ↦
        rw (e, unescape_loop, b, unescape_loop)
          (unescape_loop-Agree f l l' rest (n + length bytes) _ _)
  ]
]

-- The buffer and its size decide neither the result of `unescape_str` nor the count.
pub unescape_str-Agree :
    (s : Bytes) (l l' : ℕ) (buf buf' : Bytes)
    → Agree (unescape_str s l buf) (unescape_str s l' buf')
unfolding unescape_str
unescape_str-Agree s l l' buf buf' = elim (Bool-cases (peek s == quote)) [
  | inl e ↦ rw e (unescape_loop-Agree (suc (length s)) l l' (next s) 0 buf buf')
  | inr e ↦ rw e tt
]

length-next : (p : Bytes) → length (next p) ≤ length p
length-next [] = omega arith
length-next (c ∷ p) = omega arith

-- The pointer moves in every round.
abbrev Moves : Bytes → Round → Type 0
Moves p (emit bytes rest) = length rest < length p
Moves p Round.bad = Unit

unescape_char-Moves : (p : Bytes) → Moves p (unescape_char p)
unfolding unescape_char
unescape_char-Moves [] = tt
unescape_char-Moves (c ∷ p) = elim (Bool-cases (c == 0)) [
  | inl z ↦ rw z tt
  | inr z ↦ elim (Bool-cases (c == backslash)) [
    | inr plain ↦ rw (z, plain) (omega arith)
    | inl b ↦ elim (Bool-cases (peek p == 0x75)) [
      | inl u ↦ elim (Option-cases (read_hex 4 (next p) 0)) [
        | inl no_code ↦ rw (z, b, u, no_code) tt
        | inr (uc, code) ↦
            rw (z, b, u, code)
              (omega (
                arith,
                length-next p,
                length-next (next p),
                length-next (next (next p)),
                length-next (next (next (next p))),
                length-next (next (next (next (next p)))),
              ))
      ]
      | inr u ↦ elim (Option-cases (escaped_char (peek p))) [
        | inl no_char ↦ rw (z, b, u, no_char) tt
        | inr (e, char) ↦ rw (z, b, u, char) (omega (arith, length-next p))
      ]
    ]
  ]
]

-- The pointer behind a literal that is closed, short of where it was.
abbrev pub Closes : Bytes → Unescaped → Type 0
Closes s (closed n buf rest) = length rest < length s
Closes s Unescaped.bad = Unit
Closes s out_of_fuel = ⊥

Closes-behind : (s t : Bytes) (u : Unescaped) → length s ≤ length t → Closes s u → Closes t u
Closes-behind s t (closed n buf rest) le h = omega arith
Closes-behind s t Unescaped.bad le h = tt
Closes-behind s t out_of_fuel le h = h

quote-shorter : (p : Bytes) → (peek p == quote) ≡ true → length (next p) < length p
quote-shorter [] e = cc
quote-shorter (c ∷ p) e = omega arith

unescape_loop-Closes :
    (f l : ℕ) (p : Bytes) (n : ℕ) (buf : Bytes)
    → length p < f
    → Closes p (unescape_loop f l p n buf)
unfolding unescape_loop
unescape_loop-Closes zero l p n buf lt = absurd (omega arith)
unescape_loop-Closes (suc f) l p n buf lt = elim (Bool-cases (peek p == quote)) [
  | inl e ↦ rw (e, unescape_loop) (quote-shorter p e)
  | inr e ↦ elim (Round-cases (unescape_char p)) [
    | inl b ↦ rw (e, unescape_loop, b, unescape_loop) tt
    | inr (bytes, rest, b) ↦
        let less : length rest < length p = rw b at (unescape_char-Moves p) in
        rw (e, unescape_loop, b, unescape_loop)
          (Closes-behind rest p _ (omega arith)
            (unescape_loop-Closes f l rest (n + length bytes) _ (omega arith)))
  ]
]

-- `unescape_str` comes to an end on every text, closed or not; at a closed literal it moves on.
pub unescape_str-Closes : (s : Bytes) (l : ℕ) (buf : Bytes) → Closes s (unescape_str s l buf)
unfolding unescape_str
unescape_str-Closes s l buf = elim (Bool-cases (peek s == quote)) [
  | inl e ↦ rw e (
      Closes-behind (next s) s _ (length-next s)
        (unescape_loop-Closes (suc (length s)) l (next s) 0 buf (omega (arith, length-next s))))
  | inr e ↦ rw e tt
]
