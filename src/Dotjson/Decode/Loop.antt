-- ===== src/Dotjson/Decode/Loop.antt =====
-- Rules for `decode_loop`.
use model_lib.Common.{ℕ, zero, suc, ◌<◌, ◌≡◌, Bool, true, false, Bool-cases, inl, inr, arith, refl}
use model_lib.Dotjson.Node.{Decoded}
use model_lib.Dotjson.Decode.{Step, go, leave, halt, decode_loop}

module _ {ℓ κ} {A : Type ℓ} (over : A → Bool) (round : A → Step A) (finish : A → Decoded)
    (Inv : A → Type κ) (size : A → ℕ) (Good : Decoded → Type κ) where
  -- A round keeps the invariant and makes progress, or leaves with a good result.
  abbrev pub Fine : A → Step A → Type κ
  Fine v (go w) = Inv w × (size w < size v)
  Fine v (leave w) = Good (finish w)
  Fine v (halt d) = Good d

  loop_step :
      (f : ℕ) (v : A) (s : Step A)
      → round v ≡ s
      → over v ≡ false
      → Fine v s
      → ((w : A) → Inv w → size w < size v → Good (decode_loop over round finish f w))
      → Good (decode_loop over round finish (suc f) v)
  unfolding decode_loop
  loop_step f v (go w) e o fine rest = rw (o, decode_loop, e, decode_loop) (rest w fine.0 fine.1)
  loop_step f v (leave w) e o fine rest = rw (o, decode_loop, e, decode_loop) fine
  loop_step f v (halt d) e o fine rest = rw (o, decode_loop, e, decode_loop) fine

  -- With more fuel than the size of its variables a loop of fine rounds ends well.
  pub decode_loop-Good :
      ((v : A) → Inv v → over v ≡ true → Good (finish v))
      → ((v : A) → Inv v → over v ≡ false → Fine v (round v))
      → (f : ℕ) (v : A) → Inv v
      → size v < f
      → Good (decode_loop over round finish f v)
  decode_loop-Good ends rounds zero v inv lt = absurd (omega arith)
  decode_loop-Good ends rounds (suc f) v inv lt = elim (Bool-cases (over v)) [
    | inl o ↦ unfold decode_loop in rw (o, decode_loop) (ends v inv o)
    | inr o ↦
        loop_step f v (round v) refl o (rounds v inv o)
          (λ w keep less. decode_loop-Good ends rounds f w keep (omega arith))
  ]
