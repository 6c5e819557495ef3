-- ===== src/Md5/Lists.antt =====
-- Parts of a message, for cpp/md5/md5p.cpp.
use model_lib.Common.{
  ℕ, zero, suc, ◌+◌, ◌-◌, ◌≤◌, ◌≡◌, refl, ap, sym, ◌∙◌, List, [], ◌∷◌, ◌++◌, drop, take, length,
  arith,
}

drop-none : (n : ℕ) → drop {A = ℕ} n [] ≡ []
drop-none zero = refl
drop-none (suc n) = refl

pub drop-drop : (n p : ℕ) (xs : List ℕ) → drop n (drop p xs) ≡ drop (p + n) xs
drop-drop n zero xs = ap (λ k. drop k xs) (omega arith)
drop-drop n (suc p) [] = drop-none n ∙ sym (drop-none (suc p + n))
drop-drop n (suc p) (x ∷ xs) =
    let e : suc p + n ≡ suc (p + n) = omega arith in
    drop-drop n p xs ∙ ap (λ k. drop k (x ∷ xs)) (sym e)

pub drop-append : (p : ℕ) (xs ys : List ℕ) → p ≤ length xs → drop p (xs ++ ys) ≡ drop p xs ++ ys
drop-append zero xs ys le = refl
drop-append (suc p) [] ys le = absurd (omega arith)
drop-append (suc p) (x ∷ xs) ys le = drop-append p xs ys (omega arith)

pub take-append_left : (n : ℕ) (xs ys : List ℕ) → n ≤ length xs → take n (xs ++ ys) ≡ take n xs
take-append_left zero xs ys le = refl
take-append_left (suc n) [] ys le = absurd (omega arith)
take-append_left (suc n) (x ∷ xs) ys le = ap (λ t. x ∷ t) (take-append_left n xs ys (omega arith))

pub length-drop : (p : ℕ) (xs : List ℕ) → length (drop p xs) ≡ length xs - p
length-drop zero xs = omega arith
length-drop (suc p) [] = omega arith
length-drop (suc p) (x ∷ xs) = omega (arith, length-drop p xs)

pub take-all : (xs : List ℕ) → take (length xs) xs ≡ xs
take-all [] = refl
take-all (x ∷ xs) = ap (λ t. x ∷ t) (take-all xs)
