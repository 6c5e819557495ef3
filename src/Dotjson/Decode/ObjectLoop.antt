-- ===== src/Dotjson/Decode/ObjectLoop.antt =====
-- The loop of `decode_object`, state by state.
use model_lib.Common.{
  ℕ, suc, ◌<◌, ◌≤◌, ◌≡◌, ◌≢◌, refl, ap, subst, Bool, true, false, ◌==◌, ◌||◌, Bool-cases,
  Option-cases, inl, inr, Option, none, some, if◌then◌else◌, length, arith, [], replicate,
}
use model_lib.Dotjson.Text.{Bytes, peek, quote, ignore}
use model_lib.Dotjson.Text.Skip.{length-ignore, ignore-ignore}
use model_lib.Dotjson.Escape
use model_lib.Dotjson.Escape.{Unescaped, closed, bad, unescape_str}
use model_lib.Dotjson.Escape.Measure.{Agree, Closes, unescape_str-Agree, unescape_str-Closes}
use model_lib.Dotjson.Node.{Node, Object, Decoded}
use model_lib.Dotjson.Decode.{
  ObjectState, opening, key_next, colon_next, value_next, value_read, complete, Pending, ObjectVars,
  Step, go, leave, halt, after_node, object_round, key_stored, key_measured, ready_entry,
  object_over, object_body, object_finish, decode_object,
}
use model_lib.Dotjson.Decode.Loop.{Fine, decode_loop-Good}
use model_lib.Dotjson.Decode.Settled.{
  SettledAt, Settled, SettledHere, length-next_shorter, after_node-Fine,
}

module _ (comments : Bool) (decode : Bytes → Decoded) (s : Bytes)
    (settles : (q : Bytes) → length q < length s → Settled comments q (decode q)) where
  -- What each state says of the pointer and of the pointers that are set.
  abbrev Inside : ObjectState → Bytes → Option Pending → Option (Object Node) → Type 0
  Inside opening p entry object = length p ≤ length s
  Inside key_next p entry object = length p < length s
  Inside colon_next p entry object = (length p < length s) × (entry ≢ none)
  Inside value_next p entry object = (length p < length s) × (entry ≢ none)
  Inside value_read p entry object = (length p < length s) × (ready_entry entry ≢ none)
  Inside complete p entry object = (length p < length s) × (object ≢ none)

  abbrev Inv : ObjectVars → Type 0
  Inv v = Inside v.state v.p v.entry v.object

  abbrev RoundFine : Bytes → Step ObjectVars → Type 0
  RoundFine p (go w) = Inv w × (length w.p < length p)
  RoundFine p (leave w) = SettledHere s (object_finish s w)
  RoundFine p (halt d) = SettledHere s d

  abbrev vars : ObjectState → Bytes → Option Pending → Option (Object Node) → ObjectVars
  vars state p entry object = record { p = p; state = state; entry = entry; object = object }

  key_stored_fine :
      (v : ObjectVars) (len : ℕ) (b rest : Bytes) (u : Unescaped)
      → Agree (closed len b rest) u
      → length rest < length v.p
      → length v.p < length s
      → RoundFine v.p (key_stored comments decode v u)
  unfolding key_stored
  key_stored_fine v len b rest (closed n buf rest') agree less inside =
      ((omega (arith, ap length agree.1), λ x. cc), omega (arith, ap length agree.1))
  key_stored_fine v len b rest bad agree less inside = elim agree [ ]
  key_stored_fine v len b rest Escape.out_of_fuel agree less inside = elim agree [ ]

  key_measured_fine :
      (p : Bytes) (entry : Option Pending) (object : Option (Object Node)) (u : Unescaped)
      → unescape_str p 0 [] ≡ u
      → Closes p u
      → length p < length s
      → RoundFine p (key_measured comments decode (vars key_next p entry object) u)
  unfolding key_measured
  key_measured_fine p entry object (closed len b rest) e less inside =
      key_stored_fine (vars key_next p entry object) len b rest _
        (subst (λ u. Agree u (unescape_str p len (replicate len 0))) e
          (unescape_str-Agree p 0 len [] (replicate len 0)))
        less inside
  key_measured_fine p entry object bad e less inside = refl
  key_measured_fine p entry object Escape.out_of_fuel e less inside = elim less [ ]

  node_fine :
      (p : Bytes) (e : Pending) (object : Option (Object Node))
      → ignore comments p ≡ p
      → length p < length s
      → let v = vars value_next p (some e) object in
        RoundFine p (
          after_node v
            (λ rest. record v { p = rest; state = value_read })
            (λ n rest. record v {
              p = rest;
              state = value_read;
              entry = some (record e { val = some n });
            })
            p
            (decode p))
  node_fine p e object clean inside =
      after_node-Fine (RoundFine p) _ _ _ p (decode p)
        (subst (λ q. SettledAt p q (decode p)) clean (settles p inside)) refl
        (λ n rest less. ((omega arith, λ x. cc), less))

  -- One round of each state, at a pointer behind white space.
  round_fine :
      (state : ObjectState) (p : Bytes) (entry : Option Pending) (object : Option (Object Node))
      → ignore comments p ≡ p
      → Inside state p entry object
      → state ≢ complete
      → RoundFine p (object_round comments decode state (vars state p entry object))
  unfolding object_round
  round_fine opening p entry object clean inv running = elim (Bool-cases (peek p == 0x7b)) [
    | inl e ↦ let less = length-next_shorter p (λ z. ground arith) in rw e (omega arith, less)
    | inr e ↦ rw e refl
  ]
  round_fine key_next p entry none clean inv running = elim (Bool-cases (peek p == quote)) [
    | inl q ↦ rw q (key_measured_fine p entry none _ refl (unescape_str-Closes p 0 []) inv)
    | inr q ↦ elim (Bool-cases (peek p == 0x7d)) [
      | inl e ↦
          let less = length-next_shorter p (λ z. ground arith) in
          rw (q, e) ((omega arith, λ x. cc), less)
      | inr e ↦ rw (q, e) refl
    ]
  ]
  round_fine key_next p entry (some o) clean inv running = elim (Bool-cases (peek p == quote)) [
    | inl q ↦ rw q (key_measured_fine p entry (some o) _ refl (unescape_str-Closes p 0 []) inv)
    | inr q ↦ elim (Bool-cases (peek p == 0x7d)) [ inl e ↦ rw (q, e) refl | inr e ↦ rw (q, e) refl ]
  ]
  round_fine colon_next p entry object clean inv running = elim (Bool-cases (peek p == 0x3a)) [
    | inl e ↦
        let less = length-next_shorter p (λ z. ground arith) in rw e ((omega arith, inv.1), less)
    | inr e ↦ rw e refl
  ]
  round_fine value_next p none object clean inv running = absurd (inv.1 refl)
  round_fine value_next p (some e) object clean inv running = node_fine p e object clean inv.0
  round_fine value_read p entry object clean inv running = elim (Option-cases (ready_entry entry)) [
    | inl unready ↦ absurd (inv.1 unready)
    | inr (x, ready) ↦ elim (Bool-cases (peek p == 0x2c || peek p == 0x7d)) [
      | inl e ↦
          let less = length-next_shorter p (λ z. ground arith) in
          elim (Bool-cases (peek p == 0x2c)) [
            | inl c ↦ rw (ready, c) (omega arith, less)
            | inr c ↦ rw (ready, c, rw c at e) ((omega arith, λ y. cc), less)
          ]
      | inr e ↦ rw e refl
    ]
  ]
  round_fine complete p entry object clean inv running = absurd (running refl)

  Inside-ignore :
      (state : ObjectState) (p : Bytes) (entry : Option Pending) (object : Option (Object Node))
      → Inside state p entry object
      → Inside state (ignore comments p) entry object
  Inside-ignore opening p entry object inv = omega (arith, length-ignore comments p)
  Inside-ignore key_next p entry object inv = omega (arith, length-ignore comments p)
  Inside-ignore colon_next p entry object inv = (omega (arith, length-ignore comments p), inv.1)
  Inside-ignore value_next p entry object inv = (omega (arith, length-ignore comments p), inv.1)
  Inside-ignore value_read p entry object inv = (omega (arith, length-ignore comments p), inv.1)
  Inside-ignore complete p entry object inv = (omega (arith, length-ignore comments p), inv.1)

  RoundFine-ignore :
      (p : Bytes) (step : Step ObjectVars) → RoundFine (ignore comments p) step → RoundFine p step
  RoundFine-ignore p (go w) fine = (fine.0, omega (arith, length-ignore comments p))
  RoundFine-ignore p (leave w) fine = fine
  RoundFine-ignore p (halt d) fine = fine

  not_complete :
      (p : Bytes) (state : ObjectState)
      → (if peek p == 0 then true else (elim state [ complete ↦ true | _ ↦ false ])) ≡ false
      → state ≢ complete
  not_complete p complete on = ground arith
  not_complete p _ on = λ x. cc

  ends_fine :
      (state : ObjectState) (p : Bytes) (entry : Option Pending) (object : Option (Object Node))
      → Inside state p entry object
      → SettledHere s
          (object_finish s (record { p = p; state = state; entry = entry; object = object }))
  ends_fine opening p entry object inv = refl
  ends_fine key_next p entry object inv = refl
  ends_fine colon_next p entry object inv = refl
  ends_fine value_next p entry object inv = refl
  ends_fine value_read p entry object inv = refl
  ends_fine complete p entry none inv = absurd (inv.1 refl)
  ends_fine complete p entry (some o) inv = inv.0

  step-Fine :
      (v : ObjectVars) (step : Step ObjectVars)
      → RoundFine v.p step
      → Fine object_over
          (object_body comments decode)
          (object_finish s)
          Inv
          (λ w. length w.p)
          (SettledHere s)
          v
          step
  step-Fine v (go w) fine = fine
  step-Fine v (leave w) fine = fine
  step-Fine v (halt d) fine = fine

  body_fine :
      (v : ObjectVars)
      → Inv v
      → object_over v ≡ false
      → RoundFine v.p (object_body comments decode v)
  body_fine v inv on = RoundFine-ignore v.p (object_body comments decode v) (
      round_fine v.state (ignore comments v.p) v.entry v.object (ignore-ignore comments v.p)
        (Inside-ignore v.state v.p v.entry v.object inv) (not_complete v.p v.state on))

  -- If the called decoder settles on every shorter text, so does `decode_object`: it sets a node and
  -- moves the pointer, or sets none and returns 0, within the fuel of its loop.
  pub decode_object-Settled : SettledHere s (decode_object comments decode s)
  unfolding decode_object
  decode_object-Settled =
      decode_loop-Good object_over (object_body comments decode) (object_finish s) Inv
        (λ v. length v.p) (SettledHere s) (λ v inv done. ends_fine v.state v.p v.entry v.object inv)
        (λ v inv on. step-Fine v (object_body comments decode v) (body_fine v inv on))
        (suc (length s)) _ (omega arith) (omega arith)
