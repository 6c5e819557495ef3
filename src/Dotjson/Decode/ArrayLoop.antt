-- ===== src/Dotjson/Decode/ArrayLoop.antt =====
-- The loop of `decode_array`, state by state.
use model_lib.Common.{
  suc, ◌<◌, ◌≤◌, ◌≡◌, ◌≢◌, refl, subst, Bool, true, false, ◌==◌, ◌||◌, Bool-cases, inl, inr, Option,
  none, some, if◌then◌else◌, length, arith,
}
use model_lib.Dotjson.Text.{Bytes, peek, ignore}
use model_lib.Dotjson.Text.Skip.{length-ignore, ignore-ignore}
use model_lib.Dotjson.Node.{Node, Array, Decoded}
use model_lib.Dotjson.Decode.{
  ArrayState, opening, value_next, value_read, complete, ArrayVars, Step, go, leave, halt,
  after_node, array_round, array_over, array_body, array_finish, decode_array,
}
use model_lib.Dotjson.Decode.Loop.{Fine, decode_loop-Good}
use model_lib.Dotjson.Decode.Settled.{
  SettledAt, Settled, SettledHere, length-next_shorter, after_node-Fine,
}

module _ (comments : Bool) (decode : Bytes → Decoded) (s : Bytes)
    (settles : (q : Bytes) → length q < length s → Settled comments q (decode q)) where
  -- What each state says of the pointer and of the pointers that are set.
  abbrev Inside : ArrayState → Bytes → Option Node → Option Array → Type 0
  Inside opening p last array = length p ≤ length s
  Inside value_next p last array = length p < length s
  Inside value_read p last array = (length p < length s) × (last ≢ none)
  Inside complete p last array = (length p < length s) × (array ≢ none)

  abbrev Inv : ArrayVars → Type 0
  Inv v = Inside v.state v.p v.node v.array

  abbrev RoundFine : Bytes → Step ArrayVars → Type 0
  RoundFine p (go w) = Inv w × (length w.p < length p)
  RoundFine p (leave w) = SettledHere s (array_finish s w)
  RoundFine p (halt d) = SettledHere s d

  node_fine :
      (p : Bytes) (last : Option Node) (array : Option Array)
      → ignore comments p ≡ p
      → length p < length s
      → let v : ArrayVars = record { p = p; state = value_next; node = last; array = array } in
        RoundFine p (
          after_node v
            (λ rest. record v { p = rest; state = value_read })
            (λ n rest. record v { p = rest; state = value_read; node = some n })
            p
            (decode p))
  node_fine p last array clean inv =
      after_node-Fine (RoundFine p) _ _ _ p (decode p)
        (subst (λ q. SettledAt p q (decode p)) clean (settles p inv)) refl
        (λ n rest less. ((omega arith, λ x. cc), less))

  -- One round of each state, at a pointer behind white space.
  round_fine :
      (state : ArrayState) (p : Bytes) (last : Option Node) (array : Option Array)
      → ignore comments p ≡ p
      → Inside state p last array
      → state ≢ complete
      → RoundFine p (
          array_round comments decode state
            (record { p = p; state = state; node = last; array = array }))
  unfolding array_round
  round_fine opening p last array clean inv running = elim (Bool-cases (peek p == 0x5b)) [
    | inl e ↦ let less = length-next_shorter p (λ z. ground arith) in rw e (omega arith, less)
    | inr e ↦ rw e refl
  ]
  round_fine value_next p last none clean inv running = elim (Bool-cases (peek p == 0x5d)) [
    | inl e ↦
        let less = length-next_shorter p (λ z. ground arith) in rw e ((omega arith, λ x. cc), less)
    | inr e ↦ rw e (node_fine p last none clean inv)
  ]
  round_fine value_next p last (some a) clean inv running = elim (Bool-cases (peek p == 0x5d)) [
    | inl e ↦ rw e refl
    | inr e ↦ rw e (node_fine p last (some a) clean inv)
  ]
  round_fine value_read p none array clean inv running = absurd (inv.1 refl)
  round_fine value_read p (some n) array clean inv running =
      elim (Bool-cases (peek p == 0x2c || peek p == 0x5d)) [
        | inl e ↦
            let less = length-next_shorter p (λ z. ground arith) in
            elim (Bool-cases (peek p == 0x2c)) [
              | inl c ↦ rw c (omega arith, less)
              | inr c ↦ rw (c, rw c at e) ((omega arith, λ x. cc), less)
            ]
        | inr e ↦ rw e refl
      ]
  round_fine complete p last array clean inv running = absurd (running refl)

  Inside-ignore :
      (state : ArrayState) (p : Bytes) (last : Option Node) (array : Option Array)
      → Inside state p last array
      → Inside state (ignore comments p) last array
  Inside-ignore opening p last array inv = omega (arith, length-ignore comments p)
  Inside-ignore value_next p last array inv = omega (arith, length-ignore comments p)
  Inside-ignore value_read p last array inv = (omega (arith, length-ignore comments p), inv.1)
  Inside-ignore complete p last array inv = (omega (arith, length-ignore comments p), inv.1)

  RoundFine-ignore :
      (p : Bytes) (step : Step ArrayVars) → RoundFine (ignore comments p) step → RoundFine p step
  RoundFine-ignore p (go w) fine = (fine.0, omega (arith, length-ignore comments p))
  RoundFine-ignore p (leave w) fine = fine
  RoundFine-ignore p (halt d) fine = fine

  not_complete :
      (p : Bytes) (state : ArrayState)
      → (if peek p == 0 then true else (elim state [ complete ↦ true | _ ↦ false ])) ≡ false
      → state ≢ complete
  not_complete p complete on = ground arith
  not_complete p _ on = λ x. cc

  ends_fine :
      (state : ArrayState) (p : Bytes) (last : Option Node) (array : Option Array)
      → Inside state p last array
      → SettledHere s (array_finish s (record { p = p; state = state; node = last; array = array }))
  ends_fine opening p last array inv = refl
  ends_fine value_next p last array inv = refl
  ends_fine value_read p last array inv = refl
  ends_fine complete p last none inv = absurd (inv.1 refl)
  ends_fine complete p last (some a) inv = inv.0

  step-Fine :
      (v : ArrayVars) (step : Step ArrayVars)
      → RoundFine v.p step
      → Fine array_over
          (array_body comments decode)
          (array_finish s)
          Inv
          (λ w. length w.p)
          (SettledHere s)
          v
          step
  step-Fine v (go w) fine = fine
  step-Fine v (leave w) fine = fine
  step-Fine v (halt d) fine = fine

  body_fine :
      (v : ArrayVars) → Inv v → array_over v ≡ false → RoundFine v.p (array_body comments decode v)
  body_fine v inv on = RoundFine-ignore v.p (array_body comments decode v) (
      round_fine v.state (ignore comments v.p) v.node v.array (ignore-ignore comments v.p)
        (Inside-ignore v.state v.p v.node v.array inv) (not_complete v.p v.state on))

  -- If the called decoder settles on every shorter text, so does `decode_array`: it sets a node and
  -- moves the pointer, or sets none and returns 0, within the fuel of its loop.
  pub decode_array-Settled : SettledHere s (decode_array comments decode s)
  unfolding decode_array
  decode_array-Settled =
      decode_loop-Good array_over (array_body comments decode) (array_finish s) Inv
        (λ v. length v.p) (SettledHere s) (λ v inv done. ends_fine v.state v.p v.node v.array inv)
        (λ v inv on. step-Fine v (array_body comments decode v) (body_fine v inv on))
        (suc (length s)) _ (omega arith) (omega arith)
