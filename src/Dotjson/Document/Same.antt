-- ===== src/Dotjson/Document/Same.antt =====
-- When a node stands for the same JSON value as another one, whatever their tables and capacities.
use model_lib.Common.{ℕ, suc, ◌<◌, ◌≡◌, ◌^◌, ◌⊎◌}
use model_lib.Dotjson.Text.{until_nul}
use model_lib.Dotjson.Node.{
  Node, null, false_node, true_node, number, string, object, array, Slots, no_slots, free, used,
  Items, no_items, item, Entry, Object, object_node,
}
use model_lib.Dotjson.Table.{hash}
use model_lib.Dotjson.Table.Shape.{IsTable}
use model_lib.Dotjson.Table.Grow.{Contains}

unfoldable pub entry_count : Slots → ℕ
entry_count no_slots = 0
entry_count (free s) = entry_count s
entry_count (used h key v s) = suc (entry_count s)

-- No object has 2 ^ 31 entries or more.
unfoldable mutual
  pub Countable : Node → Type 0
  Countable (object cap len slots) = (entry_count slots < 2 ^ 31) × CountableSlots slots
  Countable (array cap items) = CountableItems items
  Countable _ = Unit

  pub CountableSlots : Slots → Type 0
  CountableSlots no_slots = Unit
  CountableSlots (free s) = CountableSlots s
  CountableSlots (used h key v s) = Countable v × CountableSlots s

  pub CountableItems : Items → Type 0
  CountableItems no_items = Unit
  CountableItems (item v s) = Countable v × CountableItems s

-- Atoms and texts are the same, arrays have the same items in the same order. An object is a
-- well-formed table with as many entries; every entry stands in it, with the hash of its key and the
-- same value, and no other does.
unfoldable mutual
  pub Same : Node → Node → Type 0
  Same null m = m ≡ null
  Same false_node m = m ≡ false_node
  Same true_node m = m ≡ true_node
  Same (number raw) m = m ≡ number (until_nul raw)
  Same (string s) m = m ≡ string s
  Same (object cap len slots) m =
      (o : Object Node) × (m ≡ object_node o)
      × IsTable o
      × (o.len ≡ entry_count slots)
      × KeptIn slots o
      × ((e : Entry Node) → Contains o e → Among slots e)
  Same (array cap items) m =
      (cap' : ℕ) × (items' : Items) × (m ≡ array cap' items') × SameItems items items'

  pub KeptIn : Slots → Object Node → Type 0
  KeptIn no_slots o = Unit
  KeptIn (free s) o = KeptIn s o
  KeptIn (used h key v s) o =
      ((v' : Node) × Same v v' × Contains o (record { keyhash = hash key; key = key; val = v' }))
      × KeptIn s o

  pub Among : Slots → Entry Node → Type 0
  Among no_slots e = ⊥
  Among (free s) e = Among s e
  Among (used h key v s) e = ((e.key ≡ key) × (e.keyhash ≡ hash key) × Same v e.val) ⊎ Among s e

  pub SameItems : Items → Items → Type 0
  SameItems no_items no_items = Unit
  SameItems (item v s) (item v' s') = Same v v' × SameItems s s'
  SameItems _ _ = ⊥
