-- ===== src/Dotjson/Table/Hash.antt =====
-- `hash` on equal keys, and `min_bucket` on full tables.
use model_lib.Common.{
  ℕ, suc, ◌+◌, ◌-◌, ◌*◌, ◌^◌, ◌<◌, ◌≡◌, refl, sym, ◌∙◌, [], ◌∷◌, true, ◌==◌, ==→eq, Bool-cases, inl,
  inr, arith,
}
use model_lib.Common.Bits.{checked, checked_below}
use model_lib.Dotjson.Text.{Bytes, until_nul}
use model_lib.Dotjson.Table.{hash_from, hash, widened, u32, min_bucket, same_text}

hash_from-lt : (h : ℕ) (s : Bytes) → h < 2 ^ 32 → hash_from h s < 2 ^ 32
unfolding hash_from
hash_from-lt h [] lt = lt
hash_from-lt h (c ∷ s) lt = elim (Bool-cases (c == 0)) [
  | inl e ↦ rw e lt
  | inr e ↦ rw e (hash_from-lt (u32 (h * 1313 + widened c)) s (omega arith))
]

pub hash-lt : (s : Bytes) → hash s < 2 ^ 32
unfolding hash
hash-lt s = hash_from-lt 1313 s (omega arith)

hash_from-same_text : (h : ℕ) (a b : Bytes) → same_text a b ≡ true → hash_from h a ≡ hash_from h b
unfolding hash_from same_text
hash_from-same_text h [] [] e = refl
hash_from-same_text h [] (d ∷ t) e = rw e
hash_from-same_text h (c ∷ s) [] e = rw e
hash_from-same_text h (c ∷ s) (d ∷ t) e = elim (Bool-cases (c == d)) [
  | inl same ↦
      let eq = ==→eq c d same in
      elim (Bool-cases (c == 0)) [
        | inl z ↦ rw (← eq, z)
        | inr nz ↦
            rw (← eq, nz)
              (hash_from-same_text (u32 (h * 1313 + widened c)) s t (rw (same, nz) at e))
      ]
  | inr other ↦ cc (rw other at e)
]

-- Texts that are equal up to their first NUL have one hash.
pub hash-same_text : (a b : Bytes) → same_text a b ≡ true → hash a ≡ hash b
unfolding hash
hash-same_text a b e = hash_from-same_text 1313 a b e

pub same_text_refl : (a : Bytes) → same_text a a ≡ true
unfolding same_text
same_text_refl [] = refl
same_text_refl (c ∷ s) = ground (arith, same_text_refl s)

same_text→eq : (a b : Bytes) → same_text a b ≡ true → until_nul a ≡ until_nul b
unfolding same_text until_nul
same_text→eq [] [] h = refl
same_text→eq [] (d ∷ t) h = rw h
same_text→eq (c ∷ s) [] h = rw h
same_text→eq (c ∷ s) (d ∷ t) h = ground (arith, same_text→eq s t)

eq→same_text : (a b : Bytes) → until_nul a ≡ until_nul b → same_text a b ≡ true
unfolding same_text until_nul
eq→same_text [] [] h = refl
eq→same_text [] (d ∷ t) h = ground arith
eq→same_text (c ∷ s) [] h = ground arith
eq→same_text (c ∷ s) (d ∷ t) h = ground (arith, eq→same_text s t)

pub same_text_trans :
    (a b c : Bytes) → same_text a b ≡ true → same_text b c ≡ true → same_text a c ≡ true
same_text_trans a b c p q = eq→same_text a c (same_text→eq a b p ∙ same_text→eq b c q)

pub same_text_symm : (a b : Bytes) → same_text a b ≡ true → same_text b a ≡ true
same_text_symm a b p = eq→same_text b a (sym (same_text→eq a b p))

doubling : checked (λ k. min_bucket (2 ^ k + 1) == 2 ^ suc k) 32 ≡ true
unfolding checked min_bucket
doubling = refl

-- A full table of 2 ^ k slots grows to 2 ^ (k + 1) slots, below 2 ^ 32.
pub min_bucket_doubles : (k : ℕ) → k < 32 → min_bucket (2 ^ k + 1) ≡ 2 ^ suc k
min_bucket_doubles k h =
    ==→eq _ _ (checked_below (λ k. min_bucket (2 ^ k + 1) == 2 ^ suc k) 32 k h doubling)

-- From 2 ^ 32 slots on it does not: the source has no `n |= n >> 32`.
pub min_bucket_misses : min_bucket (2 ^ 33 + 1) ≡ 2 ^ 34 - 3
unfolding min_bucket
min_bucket_misses = refl
