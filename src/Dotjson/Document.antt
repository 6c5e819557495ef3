-- ===== src/Dotjson/Document.antt =====
-- Documents of c/dotjson: what becomes of a node that is printed and then decoded again.
pub mod Leads
pub mod Depth
pub mod Rounds
pub mod Arrays
pub mod Keys
pub mod Objects
pub mod Terminated
pub mod RoundTrip
pub mod Same
pub mod Rebuilt
pub mod Stored
mod Examples
use model_lib.Common.{ℕ, suc, List, [], ◌∷◌, ◌≡◌, ◌≢◌, Option, none, some, All, ◌+◌}
use model_lib.Dotjson.Text.{Bytes, quote, backslash, until_nul}
use model_lib.Dotjson.Node.{
  Node, null, false_node, true_node, number, string, object, array, Slots, no_slots, free, used,
  Items, no_items, item, Array, Object, Entry, object_node, array_node,
}
use model_lib.Dotjson.Number.Numeral.{Numeral, numeral_text, DigitsOnly}
use model_lib.Dotjson.Quoted.RoundTrip.{NoNul}
use model_lib.Dotjson.Table.{hash, add_entry, object_grow}
use model_lib.Dotjson.Decode.{array_grow, array_push}

-- A byte that stands for itself in a literal.
abbrev pub PlainByte : ℕ → Type 0
PlainByte c = (c ≢ 0) × (c ≢ quote) × (c ≢ backslash)

-- A key that may stand between quotes as it is.
abbrev pub PlainKey : Bytes → Type 0
PlainKey key = All (λ c. PlainByte c) key

-- Numbers are numerals, texts have no NUL, and keys are plain.
unfoldable mutual
  pub Printable : Node → Type 0
  Printable (number raw) = (n : Numeral) × DigitsOnly n × (until_nul raw ≡ numeral_text n)
  Printable (string s) = NoNul s
  Printable (object cap len slots) = PrintableSlots slots
  Printable (array cap items) = PrintableItems items
  Printable _ = Unit

  pub PrintableSlots : Slots → Type 0
  PrintableSlots no_slots = Unit
  PrintableSlots (free s) = PrintableSlots s
  PrintableSlots (used h key v s) = PlainKey key × Printable v × PrintableSlots s

  pub PrintableItems : Items → Type 0
  PrintableItems no_items = Unit
  PrintableItems (item v s) = Printable v × PrintableItems s

-- A decoder that has read at least an entry or an item holds it; without one it makes an empty table
-- or array.
abbrev pub filled_object : Option (Object Node) → Object Node
filled_object none = object_grow none
filled_object (some o) = o

abbrev pub filled_array : Option Array → Array
filled_array none = array_grow none
filled_array (some a) = a

-- The node that stands for the same value, its tables and arrays built anew: entries are added in the
-- order of the slots, items pushed in their order.
unfoldable mutual
  pub rebuild : Node → Node
  rebuild (number raw) = number (until_nul raw)
  rebuild (object cap len slots) = object_node (filled_object (rebuild_slots slots none))
  rebuild (array cap items) = array_node (filled_array (rebuild_items items none))
  rebuild n = n

  pub rebuild_slots : Slots → Option (Object Node) → Option (Object Node)
  rebuild_slots no_slots o = o
  rebuild_slots (free s) o = rebuild_slots s o
  rebuild_slots (used h key v s) o =
      rebuild_slots s
        (some (add_entry o (record { keyhash = hash key; key = key; val = rebuild v })))

  pub rebuild_items : Items → Option Array → Option Array
  rebuild_items no_items a = a
  rebuild_items (item v s) a = rebuild_items s (some (array_push a (rebuild v)))

-- The nesting.
unfoldable mutual
  pub depth : Node → ℕ
  depth (object cap len slots) = suc (depth_slots slots)
  depth (array cap items) = suc (depth_items items)
  depth n = 0

  pub depth_slots : Slots → ℕ
  depth_slots no_slots = 0
  depth_slots (free s) = depth_slots s
  depth_slots (used h key v s) = depth v + depth_slots s

  pub depth_items : Items → ℕ
  depth_items no_items = 0
  depth_items (item v s) = depth v + depth_items s
