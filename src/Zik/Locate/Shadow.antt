-- ===== src/Zik/Locate/Shadow.antt =====
-- The search of `LocateSSDTShadowBase` through the instructions of a page.
use model_lib.Common.{
  ℕ, zero, suc, ◌+◌, ◌<◌, ◌≡◌, ◌≢◌, refl, false, ◌==◌, ==→eq, ltb, ltb→lt, Bool-cases, inl, inr,
  arith,
}
use model_lib.Zik.Locate.{
  Code, Search, found, not_found, out_of_fuel, page_size, lea_word, shadow_loop,
  locate_ssdt_shadow_base,
}

-- `q` is reached from `p` over whole instructions, none of which starts with the word.
pub data Reaches (code : Code) (p : ℕ) : ℕ → Type 0 where
  here : Reaches code p p
  over :
      {q : ℕ}
      → Reaches code p q
      → code.word q ≢ lea_word
      → Reaches code p (q + (code.size_of_code q).length)

-- The result is what the first such instruction refers to, and lies in the page; or the search has
-- stopped without one. It never runs out of fuel.
abbrev pub Sound : Code → ℕ → Search → Type 0
Sound code start (found v) =
    (q : ℕ) × Reaches code start q
    × (q < start + page_size)
    × (code.word q ≡ lea_word)
    × (v ≡ code.double_word ((code.size_of_code q).opcode + 2))
Sound code start not_found = Unit
Sound code start out_of_fuel = ⊥

ne_of : (a b : ℕ) → (a == b) ≡ false → a ≢ b
ne_of a b h = ground arith

shadow_loop-Sound :
    (code : Code) (start f p : ℕ)
    → Reaches code start p
    → 0 < f
    → start + page_size < p + f
    → Sound code start (shadow_loop code (start + page_size) f p)
unfolding shadow_loop
shadow_loop-Sound code start zero p reach some_fuel fuel = absurd (omega arith)
shadow_loop-Sound code start (suc f) p reach some_fuel fuel =
    elim (Bool-cases (ltb p (start + page_size))) [
      | inr out ↦ rw (out, shadow_loop) tt
      | inl inside ↦ elim (Bool-cases ((code.size_of_code p).length == 0)) [
        | inl none_here ↦ rw (inside, shadow_loop, none_here, shadow_loop) tt
        | inr some_here ↦
            let moves = ne_of _ _ some_here in
            elim (Bool-cases (code.word p == lea_word)) [
              | inl hit ↦
                  rw (inside, shadow_loop, some_here, shadow_loop, hit, shadow_loop)
                    (p, reach, ltb→lt _ _ inside, ==→eq _ _ hit, refl)
              | inr miss ↦
                  rw (inside, shadow_loop, some_here, shadow_loop, miss, shadow_loop)
                    (shadow_loop-Sound code start f (p + (code.size_of_code p).length)
                      (over reach (ne_of _ _ miss))
                      (omega (arith, ltb→lt p (start + page_size) inside)) (omega arith))
            ]
      ]
    ]

-- For any disassembler and any code `LocateSSDTShadowBase` comes to an end within a page, and a base
-- that it finds is the operand of the first instruction, counted from the function on, that starts
-- with the bytes looked for, and that instruction starts in the page.
pub locate_ssdt_shadow_base-Sound :
    (code : Code) (start : ℕ) → Sound code start (locate_ssdt_shadow_base code start)
unfolding locate_ssdt_shadow_base
locate_ssdt_shadow_base-Sound code start =
    shadow_loop-Sound code start (suc page_size) start here (omega arith) (omega arith)
