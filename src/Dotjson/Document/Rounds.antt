-- ===== src/Dotjson/Document/Rounds.antt =====
-- Rounds of the loops of `decode_array` and `decode_object` at printed nodes.
use model_lib.Common.{
  ℕ, suc, ◌≡◌, refl, ◌++◌, Bool, true, false, ◌==◌, ne→==-false, arith, length, length-append,
}
use model_lib.Dotjson.Text.{Bytes, peek}
use model_lib.Dotjson.Node.{Node, Decoded, ok}
use model_lib.Dotjson.Number.Numeral.{stops}
use model_lib.Dotjson.Encode.Print.{print_node}
use model_lib.Dotjson.Decode.{Step, go, after_node, decode_loop}
use model_lib.Dotjson.Document.{Printable, rebuild}
use model_lib.Dotjson.Document.Leads.{print_node-length}

-- A round of a decoder's loop.
module _ {ℓ} {A : Type ℓ} (over : A → Bool) (round : A → Step A) (finish : A → Decoded) where
  pub loop_go :
      (f : ℕ) (v w : A)
      → over v ≡ false
      → round v ≡ go w
      → decode_loop over round finish (suc f) v ≡ decode_loop over round finish f w
  unfolding decode_loop
  loop_go f v w h e = rw (decode_loop, h, decode_loop, e) refl

  pub loop_over :
      (f : ℕ) (v : A) → over v ≡ true → decode_loop over round finish (suc f) v ≡ finish v
  unfolding decode_loop
  loop_over f v h = rw (decode_loop, h) refl

-- A decoder that reads the text of a node.
abbrev pub Reads : (Bytes → Decoded) → Node → Type 0
Reads decode n =
    (rest : Bytes) → stops (peek rest) ≡ true → decode (print_node n ++ rest) ≡ ok (rebuild n) rest

-- What a round does with the text of a node: it goes on behind it.
pub after_node-print_node {ℓ} :
    {A : Type ℓ} (stay : A) (without : Bytes → A) (with_node : Node → Bytes → A)
    (decode : Bytes → Decoded) (n : Node) (rest : Bytes)
    → Printable n
    → Reads decode n
    → stops (peek rest) ≡ true
    → after_node stay without with_node (print_node n ++ rest) (decode (print_node n ++ rest))
      ≡ go (with_node (rebuild n) rest)
unfolding after_node
after_node-print_node stay without with_node decode n rest h reads stop =
    let longer : (length rest == length (print_node n ++ rest)) ≡ false =
      ne→==-false (length rest) _
        (omega (arith, length-append {0} (print_node n) rest, print_node-length n h)) in
    rw (reads rest stop, longer) refl
