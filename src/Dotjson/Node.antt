-- ===== src/Dotjson/Node.antt =====
-- The nodes of c/dotjson/dotjson.h, and what the decoders of dotjson.c return.
use model_lib.Common.{ℕ, List, [], ◌∷◌, Option, none, some, ◌≡◌, refl, ap}
use model_lib.Dotjson.Text.{Bytes}

-- `struct dotj_node` by its tag. A string's `len` is the length of its bytes, an array's `len` the
-- number of its items. `Slots` is `entries[0 .. cap)`; an entry is its hash, its key of `keylen`
-- bytes and its value.
mutual
  pub data Node : Type 0 where
    null : Node
    false_node : Node
    true_node : Node
    number : Bytes → Node
    string : Bytes → Node
    object : (cap len : ℕ) → Slots → Node
    array : (cap : ℕ) → Items → Node

  pub data Slots : Type 0 where
    no_slots : Slots
    free : Slots → Slots
    used : (keyhash : ℕ) → (key : Bytes) → Node → Slots → Slots

  pub data Items : Type 0 where
    no_items : Items
    item : Node → Items → Items

-- `ok`: `*pnode` is set, and the pointer stands behind the text read. `unset`: it is not, and the
-- pointer stands where shown. The result of the source is the distance that the pointer moved.
-- `fault`: the source would go on with a NULL node or outside of its text.
pub data Decoded : Type 0 where
  ok : Node → Bytes → Decoded
  unset : Bytes → Decoded
  fault : Decoded
  out_of_fuel : Decoded

-- `struct dotj_object_entry` and `struct dotj_object`, over any type of values.
pub record Entry {ℓ} (V : Type ℓ) : Type ℓ where
  pub keyhash : ℕ
  pub key : Bytes
  pub val : V

pub record Object {ℓ} (V : Type ℓ) : Type ℓ where
  pub cap : ℕ
  pub len : ℕ
  pub entries : List (Option (Entry V))

-- The entries of an object inside a node, as the list that the table's operations work on.
unfoldable pub to_slots : List (Option (Entry Node)) → Slots
to_slots [] = no_slots
to_slots (none ∷ es) = free (to_slots es)
to_slots (some e ∷ es) = used e.keyhash e.key e.val (to_slots es)

unfoldable pub of_slots : Slots → List (Option (Entry Node))
of_slots no_slots = []
of_slots (free s) = none ∷ of_slots s
of_slots (used h k v s) = some (record { keyhash = h; key = k; val = v }) ∷ of_slots s

pub of_slots-to_slots : (es : List (Option (Entry Node))) → of_slots (to_slots es) ≡ es
unfolding of_slots to_slots
of_slots-to_slots [] = refl
of_slots-to_slots (none ∷ es) = ap (λ xs. none ∷ xs) (of_slots-to_slots es)
of_slots-to_slots (some e ∷ es) = ap (λ xs. some e ∷ xs) (of_slots-to_slots es)

unfoldable pub object_node : Object Node → Node
unfolding to_slots
object_node o = object o.cap o.len (to_slots o.entries)

-- `struct dotj_array`
pub record Array : Type 0 where
  pub cap : ℕ
  pub items : List Node

unfoldable pub to_items : List Node → Items
to_items [] = no_items
to_items (n ∷ ns) = item n (to_items ns)

unfoldable pub array_node : Array → Node
unfolding to_items
array_node a = array a.cap (to_items a.items)
