-- ===== src/Dotjson/Destroy.antt =====
-- `dotjson_destroy` of c/dotjson/dotjson.c, by the number of its calls of `free`. Each node and each
-- entry of an object is a block of its own, and an array holds `len` items.
mod Examples
use model_lib.Common.{ℕ, zero, suc, ◌+◌, ◌≡◌, refl, arith, Option, none, some}
use model_lib.Dotjson.Node.{
  Node, null, false_node, true_node, number, string, object, array, Slots, no_slots, free, used,
  Items, no_items, item,
}

-- The loop over an object goes over the slots `0 .. len`, of which `left` are left; a table has no
-- slots behind its capacity.
unfoldable mutual
  pub free_node : Node → ℕ
  free_node (object cap len slots) = free_slots slots len + 1
  free_node (array cap items) = free_items items + 1
  free_node n = 1

  pub free_slots : Slots → (left : ℕ) → ℕ
  free_slots slots zero = 0
  free_slots no_slots (suc left) = 0
  free_slots (free s) (suc left) = free_slots s left
  free_slots (used h key v s) (suc left) = free_node v + 1 + free_slots s left

  pub free_items : Items → ℕ
  free_items no_items = 0
  free_items (item v s) = free_node v + free_items s

-- `dotjson_destroy`, with NULL as `none`.
unfoldable pub dotjson_destroy : Option Node → ℕ
dotjson_destroy none = 0
dotjson_destroy (some n) = free_node n

-- The blocks of a node, and of those in its entries and items.
unfoldable mutual
  pub blocks : Node → ℕ
  blocks (object cap len slots) = blocks_slots slots + 1
  blocks (array cap items) = blocks_items items + 1
  blocks n = 1

  pub blocks_slots : Slots → ℕ
  blocks_slots no_slots = 0
  blocks_slots (free s) = blocks_slots s
  blocks_slots (used h key v s) = blocks v + 1 + blocks_slots s

  pub blocks_items : Items → ℕ
  blocks_items no_items = 0
  blocks_items (item v s) = blocks v + blocks_items s

-- The blocks of the entries in the slots from `len` on, in an object and in those it visits.
unfoldable mutual
  pub lost : Node → ℕ
  lost (object cap len slots) = lost_slots slots len
  lost (array cap items) = lost_items items
  lost n = 0

  pub lost_slots : Slots → ℕ → ℕ
  lost_slots slots zero = blocks_slots slots
  lost_slots no_slots (suc left) = 0
  lost_slots (free s) (suc left) = lost_slots s left
  lost_slots (used h key v s) (suc left) = lost v + lost_slots s left

  pub lost_items : Items → ℕ
  lost_items no_items = 0
  lost_items (item v s) = lost v + lost_items s

mutual
  unfolding free_node blocks lost

  free-lost : (n : Node) → free_node n + lost n ≡ blocks n
  free-lost (object cap len slots) = omega (arith, free-lost_slots slots len)
  free-lost (array cap items) = omega (arith, free-lost_items items)
  free-lost null = refl
  free-lost false_node = refl
  free-lost true_node = refl
  free-lost (number raw) = refl
  free-lost (string s) = refl

  free-lost_slots : (s : Slots) (left : ℕ) → free_slots s left + lost_slots s left ≡ blocks_slots s
  free-lost_slots no_slots zero = refl
  free-lost_slots (free s) zero = omega arith
  free-lost_slots (used h key v s) zero = omega arith
  free-lost_slots no_slots (suc left) = refl
  free-lost_slots (free s) (suc left) = free-lost_slots s left
  free-lost_slots (used h key v s) (suc left) = omega (arith, free-lost v, free-lost_slots s left)

  free-lost_items : (s : Items) → free_items s + lost_items s ≡ blocks_items s
  free-lost_items no_items = refl
  free-lost_items (item v s) = omega (arith, free-lost v, free-lost_items s)

-- For every node, the calls of `free`, and the blocks of the entries in the slots from `len` on, of the
-- object itself and of the objects that are visited, are together as many as the blocks of the node.
pub dotjson_destroy-lost : (n : Node) → dotjson_destroy (some n) + lost n ≡ blocks n
unfolding dotjson_destroy
dotjson_destroy-lost n = free-lost n
