-- ===== src/Zik/Image/Visits.antt =====
-- Which sections `RVAToRaw` looks at.
use model_lib.Common.{
  ℕ, zero, suc, ◌+◌, ◌-◌, ◌*◌, ◌/◌, ◌%◌, ◌^◌, ◌<◌, ◌≡◌, ◌≢◌, refl, sym, ap, ◌∙◌, subst, true, false,
  ◌==◌, Bool-cases, inl, inr, ◌⊎◌, ==→eq, arith,
}
use model_lib.Zik.Image.{Section, Image, holds_address, raw_of, section_loop, rva_to_raw}

-- How many headers behind the first one round `k` looks: 0, 1, 3, 6, 10, ...
abbrev pub header_of : ℕ → ℕ
header_of k = k * (k + 1) / 2

-- The address lies behind the start of the section and before its end.
abbrev pub Inside : ℕ → Section → Type 0
Inside a s = (s.virtual_address < a) × (a < (s.virtual_address + s.size_of_raw_data) % 2 ^ 32)

-- The result of a search for `a` among the places of the first rounds: the offset in the file of the
-- first section that has it, or 0.
pub data Located (img : Image) (a : ℕ) : ℕ → Type 0 where
  found :
      (k : ℕ)
      → k < img.number_of_sections
      → Inside a (img.section (header_of k))
      → ((j : ℕ) → j < k → ¬ Inside a (img.section (header_of j)))
      → (raw : ℕ)
      → raw
        ≡ ((a + 2 ^ 32 - (img.section (header_of k)).virtual_address % 2 ^ 32) % 2 ^ 32
            + (img.section (header_of k)).pointer_to_raw_data)
          % 2 ^ 32
      → Located img a raw
  missing :
      ((j : ℕ) → j < img.number_of_sections → ¬ Inside a (img.section (header_of j)))
      → Located img a 0

header_of-suc : (k : ℕ) → header_of (k + 1) ≡ header_of k + (k + 1)
header_of-suc k =
    let square : (k + 1) * (k + 1 + 1) ≡ k * (k + 1) + 2 * (k + 1) = grind arith in omega arith

holds_address-Inside : (a : ℕ) (s : Section) → holds_address a s ≡ true → Inside a s
unfolding holds_address
holds_address-Inside a s e = (ground arith, ground arith)

holds_address-not_Inside : (a : ℕ) (s : Section) → holds_address a s ≡ false → ¬ Inside a s
unfolding holds_address
holds_address-not_Inside a s e (low, high) = ground arith

module _ (img : Image) (a : ℕ) where
  abbrev Passed : ℕ → Type 0
  Passed i = (j : ℕ) → j < i → ¬ Inside a (img.section (header_of j))

  Passed-next : (i : ℕ) → Passed i → ¬ Inside a (img.section (header_of i)) → Passed (i + 1)
  Passed-next i before now j lt = elim (Bool-cases (j == i)) [
    | inl e ↦ subst (λ k. ¬ Inside a (img.section (header_of k))) (sym (==→eq j i e)) now
    | inr e ↦ before j (ground arith)
  ]

  section_loop-Located :
      (rounds i at : ℕ)
      → i + rounds ≡ img.number_of_sections
      → at + i ≡ header_of i
      → Passed i
      → Located img a (section_loop img a rounds i at)
  unfolding section_loop raw_of
  section_loop-Located zero i at all here before = missing (λ j lt. before j (omega arith))
  section_loop-Located (suc rounds) i at all here before =
      elim (Bool-cases (holds_address a (img.section (at + i)))) [
        | inl e ↦
            let inside : Inside a (img.section (header_of i)) =
              subst (λ k. Inside a (img.section k)) here (holds_address-Inside a _ e) in
            rw (e, section_loop)
              (found i (omega arith) inside before _ (ap (λ k. raw_of a (img.section k)) here))
        | inr e ↦
            let outside : ¬ Inside a (img.section (header_of i)) =
              subst (λ k. ¬ Inside a (img.section k)) here (holds_address-not_Inside a _ e) in
            rw (e, section_loop)
              (section_loop-Located rounds (i + 1) (at + i) (omega arith)
                (ap (λ k. k + (i + 1)) here ∙ sym (header_of-suc i)) (Passed-next i before outside))
      ]

-- Without the signature of an image `RVAToRaw` returns 0. With it the offset of the address from the
-- image's base is searched, not through the table of sections but through the headers at the distances
-- 0, 1, 3, 6, 10, ... (k (k + 1) / 2 in round k) from its start, in as many rounds as the table has
-- entries: the first of these sections that has the offset behind its start and before its end gives
-- the result, the place in the file, and the result is 0 if none has it.
pub rva_to_raw-Located :
    (img : Image) (address : ℕ)
    → ((img.e_magic ≢ 0x5a4d) × (rva_to_raw img address ≡ 0))
      ⊎ ((img.e_magic ≡ 0x5a4d)
          × Located img ((address + 2 ^ 32 - img.base % 2 ^ 32) % 2 ^ 32) (rva_to_raw img address))
unfolding rva_to_raw
rva_to_raw-Located img address = elim (Bool-cases (img.e_magic == 0x5a4d)) [
  | inr e ↦ inl (λ q. absurd (ground (arith, q)), rw e refl)
  | inl e ↦ inr (
    ==→eq img.e_magic 0x5a4d e,
    rw e (
        section_loop-Located img _ img.number_of_sections 0 0 (omega arith) refl
          (λ j lt. absurd (omega arith))),
  )
]
