-- ===== src/Dotjson/Escape/Buffer.antt =====
-- What `store` leaves in the buffer.
use model_lib.Common.{
  ℕ, suc, ◌+◌, ◌≡◌, refl, ap, sym, ◌∙◌, [], ◌∷◌, ◌++◌, arith, length, set, append_assoc,
  length-append,
}
use model_lib.Dotjson.Text.{Bytes}
use model_lib.Dotjson.Escape.{store}

pub store-nil : (n : ℕ) (bytes : Bytes) → store [] n bytes ≡ []
unfolding store
store-nil n [] = refl
store-nil n (c ∷ cs) = store-nil (suc n) cs

pub store-append :
    (buf : Bytes) (n : ℕ) (xs ys : Bytes)
    → store buf n (xs ++ ys) ≡ store (store buf n xs) (n + length xs) ys
unfolding store
store-append buf n [] ys = ap (λ k. store buf k ys) (omega arith)
store-append buf n (c ∷ xs) ys =
    store-append (set buf n c) (suc n) xs ys
    ∙ ap (λ k. store (store (set buf n c) (suc n) xs) k ys) (omega arith)

set-behind :
    (out : Bytes) (b c : ℕ) (pad : Bytes) → set (out ++ b ∷ pad) (length out) c ≡ out ++ c ∷ pad
set-behind [] b c pad = refl
set-behind (o ∷ out) b c pad = ap (λ xs. o ∷ xs) (set-behind out b c pad)

-- Bytes stored behind `out` replace as many of those that stand there.
pub store-behind :
    (out pad bytes : Bytes)
    → length pad ≡ length bytes
    → store (out ++ pad) (length out) bytes ≡ out ++ bytes
unfolding store
store-behind out [] [] h = refl
store-behind out (b ∷ pad) [] h = absurd (omega arith)
store-behind out [] (c ∷ cs) h = absurd (omega arith)
store-behind out (b ∷ pad) (c ∷ cs) h = rw (set-behind out b c pad) (
    ap (λ k. store (out ++ c ∷ pad) k cs) (omega arith)
    ∙ ap (λ xs. store xs (length out + 1) cs) (sym (append_assoc out (c ∷ []) pad))
    ∙ ap (λ k. store ((out ++ c ∷ []) ++ pad) k cs) (omega (arith, length-append {0} out (c ∷ [])))
    ∙ store-behind (out ++ c ∷ []) pad cs (omega arith)
    ∙ append_assoc out (c ∷ []) cs)

-- A buffer of just the right size holds the bytes afterwards, whatever it held before.
pub store-full : (buf bytes : Bytes) → length buf ≡ length bytes → store buf 0 bytes ≡ bytes
store-full buf bytes h = store-behind [] buf bytes h
