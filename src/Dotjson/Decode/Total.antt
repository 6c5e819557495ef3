-- ===== src/Dotjson/Decode/Total.antt =====
-- The results of `decode_string`, `decode_node` and `dotjson_decode`.
use model_lib.Common.{
  ℕ, zero, suc, ◌<◌, ◌≤◌, ◌≡◌, ◌≢◌, refl, ap, subst, Bool, true, false, ◌==◌, ◌||◌, Bool-cases, inl,
  inr, if◌then◌else◌, length, arith, [], ◌∷◌, List, replicate, drop, ne→==-false,
}
use model_lib.Dotjson.Text.{Bytes, peek, quote, ignore}
use model_lib.Dotjson.Text.Skip.{length-ignore}
use model_lib.Dotjson.Escape
use model_lib.Dotjson.Escape.{Unescaped, closed, bad, unescape_str}
use model_lib.Dotjson.Escape.Measure.{Agree, Closes, unescape_str-Agree, unescape_str-Closes}
use model_lib.Dotjson.Node.{
  Node, null, false_node, true_node, Decoded, ok, unset, fault, out_of_fuel,
}
use model_lib.Dotjson.Number.{is_digit}
use model_lib.Dotjson.Number.Ends.{decode_number-Settled}
use model_lib.Dotjson.Quoted.{string_filled, string_measured, decode_string}
use model_lib.Dotjson.Decode.{
  here_if_unset, node_at, decode_node, is_container, top_result, dotjson_decode,
}
use model_lib.Dotjson.Decode.Settled.{SettledAt, Settled, SettledHere}
use model_lib.Dotjson.Decode.ArrayLoop.{decode_array-Settled}
use model_lib.Dotjson.Decode.ObjectLoop.{decode_object-Settled}

filled_settled :
    (s p blank : Bytes) (len : ℕ) (b rest : Bytes) (u : Unescaped)
    → Agree (closed len b rest) u
    → length rest < length s
    → SettledAt s s (string_filled p blank u)
unfolding string_filled
filled_settled s p blank len b rest (closed n buf rest') agree less =
    omega (arith, ap length agree.1)
filled_settled s p blank len b rest bad agree less = elim agree [ ]
filled_settled s p blank len b rest Escape.out_of_fuel agree less = elim agree [ ]

measured_settled :
    (s p : Bytes) (u : Unescaped)
    → unescape_str p 0 [] ≡ u
    → Closes p u
    → length p ≤ length s
    → SettledAt s s (string_measured s p u)
unfolding string_measured
measured_settled s p (closed len b rest) e h le =
    filled_settled s p (replicate len 0) len b rest _
      (subst (λ u. Agree u (unescape_str p len (replicate len 0))) e
        (unescape_str-Agree p 0 len [] (replicate len 0)))
      (omega arith)
measured_settled s p bad e h le = refl
measured_settled s p Escape.out_of_fuel e h le = elim h [ ]

-- `decode_string` sets a node and moves the pointer, or does neither, and comes to an end.
pub decode_string-Settled : (comments : Bool) (s : Bytes) → SettledAt s s (decode_string comments s)
unfolding decode_string
decode_string-Settled comments s =
    measured_settled s (ignore comments s) _ refl (unescape_str-Closes (ignore comments s) 0 [])
      (length-ignore comments s)

-- Behind `here_if_unset` the pointer stands where it was.
here_settled : (p : Bytes) (d : Decoded) → SettledAt p p d → SettledAt p p (here_if_unset p d)
here_settled p (ok n rest) h = h
here_settled p (unset rest) h = refl
here_settled p fault h = h
here_settled p out_of_fuel h = h

length-drop_le {ℓ} : {A : Type ℓ} (k : ℕ) (xs : List A) → length (drop k xs) ≤ length xs
length-drop_le zero xs = omega arith
length-drop_le (suc k) [] = omega arith
length-drop_le (suc k) (x ∷ xs) = omega (arith, length-drop_le k xs)

word_settled :
    (k : ℕ) (b : Bool) (n : Node) (p : Bytes)
    → peek p ≢ 0
    → SettledAt p p (if b then ok n (drop (suc k) p) else unset p)
word_settled k true n [] h = absurd (h refl)
word_settled k true n (c ∷ p) h = omega (arith, length-drop_le k p)
word_settled k false n p h = refl

-- Behind white space `decode_node` settles, if the decoder of the level below does on shorter texts.
node_at-Settled :
    (comments : Bool) (decode : Bytes → Decoded) (p : Bytes)
    → ((q : Bytes) → length q < length p → Settled comments q (decode q))
    → SettledAt p p (node_at comments decode p)
unfolding node_at
node_at-Settled comments decode p settles = elim (Bool-cases (peek p == 0x7b)) [
  | inl e ↦ rw e (here_settled p _ (decode_object-Settled comments decode p settles))
  | inr e1 ↦ elim (Bool-cases (peek p == 0x5b)) [
    | inl e ↦ rw (e1, e) (here_settled p _ (decode_array-Settled comments decode p settles))
    | inr e2 ↦ elim (Bool-cases (peek p == quote)) [
      | inl e ↦ rw (e1, e2, e) (here_settled p _ (decode_string-Settled comments p))
      | inr e3 ↦ elim (Bool-cases (peek p == 0x6e)) [
        | inl e ↦ rw (e1, e2, e3, e) (word_settled 3 _ null p (λ z. ground arith))
        | inr e4 ↦ elim (Bool-cases (peek p == 0x66)) [
          | inl e ↦ rw (e1, e2, e3, e4, e) (word_settled 4 _ false_node p (λ z. ground arith))
          | inr e5 ↦ elim (Bool-cases (peek p == 0x74)) [
            | inl e ↦ rw (e1, e2, e3, e4, e5, e) (word_settled 3 _ true_node p (λ z. ground arith))
            | inr e6 ↦ elim (Bool-cases (is_digit (peek p) || peek p == 0x2b || peek p == 0x2d)) [
              | inl e ↦
                  rw (e1, e2, e3, e4, e5, e6, e)
                    (here_settled p _ (decode_number-Settled comments p))
              | inr e ↦ rw (e1, e2, e3, e4, e5, e6, e) refl
            ]
          ]
        ]
      ]
    ]
  ]
]

SettledAt-behind :
    (s p : Bytes) (d : Decoded) → length p ≤ length s → SettledAt p p d → SettledAt s p d
SettledAt-behind s p (ok n rest) le h = omega arith
SettledAt-behind s p (unset rest) le h = h
SettledAt-behind s p fault le h = h
SettledAt-behind s p out_of_fuel le h = h

-- `decode_node` comes to a result on every text, however it is nested, within a fuel of its length:
-- it sets a node and moves the pointer behind it, or sets none and leaves the pointer at the first
-- character that is no white space.
pub decode_node-Settled :
    (comments : Bool) (f : ℕ) (s : Bytes)
    → length s < f
    → Settled comments s (decode_node comments f s)
unfolding decode_node
decode_node-Settled comments zero s lt = absurd (omega arith)
decode_node-Settled comments (suc f) s lt =
    let le = length-ignore comments s in
    SettledAt-behind s (ignore comments s) _ le (
      node_at-Settled comments (decode_node comments f) (ignore comments s)
        (λ q less. decode_node-Settled comments f q (omega arith)))

top_settled : (s : Bytes) (d : Decoded) → SettledAt s s d → SettledAt s s (top_result s d)
unfolding top_result
top_settled s (ok n rest) h =
    rw (ne→==-false (length rest) (length s) (omega arith))
      (elim (Bool-cases (is_container n)) [ inl e ↦ rw e h | inr e ↦ rw e refl ])
top_settled s (unset rest) h = refl
top_settled s fault h = h
top_settled s out_of_fuel h = h

-- `dotjson_decode` comes to a result on every text and for both settings of the comments: it sets a
-- node and its result is positive, or it sets none and its result is 0. It neither uses a NULL node
-- nor nests deeper than the text is long.
pub dotjson_decode-Settled :
    (comments : Bool) (json : Bytes) → SettledHere json (dotjson_decode comments json)
unfolding dotjson_decode
dotjson_decode-Settled comments json = top_settled json _ (
    decode_object-Settled comments (decode_node comments (length json)) json
      (λ q less. decode_node-Settled comments (length json) q less))
