-- ===== src/Dotjson/Decode/Settled.antt =====
-- What a decoder's result says of the pointer.
use model_lib.Common.{◌<◌, ◌≡◌, ◌≢◌, refl, [], ◌∷◌, Bool, ne→==-false, ==-refl, length, arith}
use model_lib.Dotjson.Text.{Bytes, peek, next, ignore}
use model_lib.Dotjson.Node.{Node, Decoded, ok, unset, fault, out_of_fuel}
use model_lib.Dotjson.Decode.{Step, go, leave, after_node}

-- A node is set and the pointer has moved, but not behind the end; or none is set and the pointer
-- stands at `stay`.
abbrev pub SettledAt : Bytes → Bytes → Decoded → Type 0
SettledAt s stay (ok n rest) = length rest < length s
SettledAt s stay (unset rest) = rest ≡ stay
SettledAt s stay fault = ⊥
SettledAt s stay out_of_fuel = ⊥

-- For a decoder that passes over white space first, and for one that does not.
abbrev pub Settled : Bool → Bytes → Decoded → Type 0
Settled comments s = SettledAt s (ignore comments s)

abbrev pub SettledHere : Bytes → Decoded → Type 0
SettledHere s = SettledAt s s

pub length-next_shorter : (q : Bytes) → peek q ≢ 0 → length (next q) < length q
length-next_shorter [] h = absurd (h refl)
length-next_shorter (c ∷ q) h = omega arith

-- A round that calls a decoder which settles at `p` goes on behind the node, or leaves.
pub after_node-Fine {ℓ κ} :
    {A : Type ℓ} (P : Step A → Type κ) (stay : A) (without : Bytes → A)
    (with_node : Node → Bytes → A) (p : Bytes) (d : Decoded)
    → SettledAt p p d
    → P (leave stay)
    → ((n : Node) (rest : Bytes) → length rest < length p → P (go (with_node n rest)))
    → P (after_node stay without with_node p d)
unfolding after_node
after_node-Fine P stay without with_node p (ok n rest) h left on =
    rw (ne→==-false (length rest) (length p) (omega arith)) (on n rest h)
after_node-Fine P stay without with_node p (unset rest) h left on = rw (h, ==-refl (length p)) left
after_node-Fine P stay without with_node p fault h left on = elim h [ ]
after_node-Fine P stay without with_node p out_of_fuel h left on = elim h [ ]
