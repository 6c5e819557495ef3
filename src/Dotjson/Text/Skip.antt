-- ===== src/Dotjson/Text/Skip.antt =====
-- What `IGNORE_CHARS` passes over.
use model_lib.Common.{
  ℕ, zero, suc, ◌≤◌, ◌<◌, ◌≡◌, refl, [], ◌∷◌, Bool, true, false, ◌==◌, ◌||◌, ◌&&◌, not, arith,
  ==→eq, length, Bool-cases, inl, inr,
}
use model_lib.Dotjson.Text.{
  Bytes, peek, next, slash, is_space, ignore_space, skip_line, skip_block, ignore_rounds, ignore,
}

-- A byte at which nothing is passed over.
unfoldable pub starts_token : ℕ → Bool
unfolding is_space
starts_token c = not (is_space c || c == slash)

pub ignore-start :
    (comments : Bool) (p : Bytes) → starts_token (peek p) ≡ true → ignore comments p ≡ p
unfolding ignore ignore_rounds ignore_space starts_token is_space
ignore-start true [] h = refl
ignore-start false [] h = refl
ignore-start true (c ∷ p) h = ground arith
ignore-start false (c ∷ p) h = ground arith

length-ignore_space : (p : Bytes) → length (ignore_space p) ≤ length p
unfolding ignore_space
length-ignore_space [] = omega arith
length-ignore_space (c ∷ p) = elim (Bool-cases (is_space c)) [
  | inl e ↦ rw e (omega (arith, length-ignore_space p))
  | inr e ↦ rw e (omega arith)
]

length-skip_line : (p : Bytes) → length (skip_line p) ≤ length p
unfolding skip_line
length-skip_line [] = omega arith
length-skip_line (c ∷ p) = ground (arith, length-skip_line p)

length-next : (p : Bytes) → length (next p) ≤ length p
length-next [] = omega arith
length-next (c ∷ p) = omega arith

length-skip_block : (p : Bytes) → length (skip_block p) ≤ length p
unfolding skip_block
length-skip_block [] = omega arith
length-skip_block (c ∷ p) = ground (arith, length-skip_block p, length-next p)

length-ignore_rounds : (f : ℕ) (p : Bytes) → length (ignore_rounds f p) ≤ length p
unfolding ignore_rounds
length-ignore_rounds zero p = omega arith
length-ignore_rounds (suc f) p = ground (
  arith,
  length-ignore_space p,
  length-skip_line (ignore_space p),
  length-next (ignore_space p),
  length-next (next (ignore_space p)),
  length-skip_block (next (next (ignore_space p))),
  length-ignore_rounds f (skip_line (ignore_space p)),
  length-ignore_rounds f (skip_block (next (next (ignore_space p)))),
)

-- `IGNORE_CHARS` never moves the pointer back.
pub length-ignore : (comments : Bool) (p : Bytes) → length (ignore comments p) ≤ length p
unfolding ignore
length-ignore true p = length-ignore_rounds (suc (length p)) p
length-ignore false p = length-ignore_space p

-- A comment opens at `p`.
abbrev opens_comment : Bytes → Bool
opens_comment p = peek p == slash && (peek (next p) == slash || peek (next p) == 0x2a)

ignore_space-clean : (p : Bytes) → is_space (peek (ignore_space p)) ≡ false
unfolding ignore_space
ignore_space-clean [] = unfold is_space in refl
ignore_space-clean (c ∷ p) = elim (Bool-cases (is_space c)) [
  | inl e ↦ rw e (ignore_space-clean p)
  | inr e ↦ rw e e
]

ignore_space-stop : (p : Bytes) → is_space (peek p) ≡ false → ignore_space p ≡ p
unfolding ignore_space
ignore_space-stop [] h = refl
ignore_space-stop (c ∷ p) h = rw h

-- Neither a space nor a comment stands at `p`.
abbrev Clean : Bytes → Type 0
Clean p = (is_space (peek p) ≡ false) × (opens_comment p ≡ false)

skip_line-shorter : (p : Bytes) → peek p ≡ slash → length (skip_line p) < length p
unfolding skip_line
skip_line-shorter [] h = absurd (omega arith)
skip_line-shorter (c ∷ p) h = rw h (omega (arith, length-skip_line p))

skip_block-shorter : (p : Bytes) → peek p ≡ slash → length (skip_block (next (next p))) < length p
skip_block-shorter [] h = absurd (omega arith)
skip_block-shorter (c ∷ p) h = omega (arith, length-skip_block (next p), length-next p)

ignore_rounds-Clean : (f : ℕ) (p : Bytes) → length p < f → Clean (ignore_rounds f p)
unfolding ignore_rounds
ignore_rounds-Clean zero p h = absurd (omega arith)
ignore_rounds-Clean (suc f) p h =
    let q = ignore_space p in
    let short = length-ignore_space p in
    elim (Bool-cases (peek q == slash)) [
      | inr plain ↦ rw plain (ignore_space-clean p, rw plain)
      | inl yes_slash ↦
          let at = ==→eq (peek q) slash yes_slash in
          elim (Bool-cases (peek (next q) == slash)) [
            | inl line ↦
                rw (yes_slash, line)
                  (ignore_rounds-Clean f (skip_line q) (omega (arith, skip_line-shorter q at)))
            | inr not_line ↦ elim (Bool-cases (peek (next q) == 0x2a)) [
              | inl block ↦
                  rw (yes_slash, not_line, block)
                    (ignore_rounds-Clean f (skip_block (next (next q)))
                      (omega (arith, skip_block-shorter q at)))
              | inr not_block ↦
                  rw (yes_slash, not_line, not_block)
                    (ignore_space-clean p, rw (yes_slash, not_line, not_block))
            ]
          ]
    ]

ignore_rounds-stop : (f : ℕ) (p : Bytes) → Clean p → ignore_rounds f p ≡ p
unfolding ignore_rounds
ignore_rounds-stop zero p h = refl
ignore_rounds-stop (suc f) p h = rw (ignore_space-stop p h.0) (ground (arith, h.1))

-- Once passed over, nothing is left to pass over.
pub ignore-ignore :
    (comments : Bool) (p : Bytes) → ignore comments (ignore comments p) ≡ ignore comments p
unfolding ignore
ignore-ignore true p =
    ignore_rounds-stop (suc (length (ignore true p))) (ignore true p)
      (ignore_rounds-Clean (suc (length p)) p (omega arith))
ignore-ignore false p = ignore_space-stop (ignore_space p) (ignore_space-clean p)
