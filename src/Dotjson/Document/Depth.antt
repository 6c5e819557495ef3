-- ===== src/Dotjson/Document/Depth.antt =====
-- A node is nested less deep than its text is long, so that `dotjson_decode` has fuel enough for it.
use model_lib.Common.{◌<◌, ◌≤◌, [], ◌∷◌, ◌++◌, Bool, true, false, arith, length, length-append}
use model_lib.Dotjson.Node.{
  Node, null, false_node, true_node, number, string, object, array, Slots, no_slots, free, used,
  Items, no_items, item,
}
use model_lib.Dotjson.Encode.Print.{print_node, print_slots, print_items, key_text, separator}
use model_lib.Dotjson.Document.{
  Printable, PrintableSlots, PrintableItems, depth, depth_slots, depth_items,
}
use model_lib.Dotjson.Document.Leads.{print_node-length}

-- The nesting is less than the text.
mutual
  unfolding Printable depth print_node

  pub depth-print_node : (n : Node) → Printable n → depth n < length (print_node n)
  depth-print_node (object cap len slots) h = omega (
    arith,
    length-append {0} (print_slots slots true) (0x7d ∷ []),
    depth-print_slots slots true h,
  )
  depth-print_node (array cap items) h = omega (
    arith,
    length-append {0} (print_items items true) (0x5d ∷ []),
    depth-print_items items true h,
  )
  depth-print_node null h = omega arith
  depth-print_node false_node h = omega arith
  depth-print_node true_node h = omega arith
  depth-print_node (number raw) h = print_node-length (number raw) h
  depth-print_node (string s) h = print_node-length (string s) h

  depth-print_slots :
      (slots : Slots) (first : Bool)
      → PrintableSlots slots
      → depth_slots slots ≤ length (print_slots slots first)
  depth-print_slots no_slots first h = omega arith
  depth-print_slots (free slots) first h = depth-print_slots slots first h
  depth-print_slots (used k key v slots) first h = omega (
    arith,
    length-append {0} (separator first) (key_text key ++ (print_node v ++ print_slots slots false)),
    length-append {0} (key_text key) (print_node v ++ print_slots slots false),
    length-append {0} (print_node v) (print_slots slots false),
    depth-print_node v h.1,
    depth-print_slots slots false h.2,
  )

  depth-print_items :
      (items : Items) (first : Bool)
      → PrintableItems items
      → depth_items items ≤ length (print_items items first)
  depth-print_items no_items first h = omega arith
  depth-print_items (item v items) first h = omega (
    arith,
    length-append {0} (separator first) (print_node v ++ print_items items false),
    length-append {0} (print_node v) (print_items items false),
    depth-print_node v h.0,
    depth-print_items items false h.1,
  )
