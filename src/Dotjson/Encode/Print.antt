-- ===== src/Dotjson/Encode/Print.antt =====
-- The JSON text of a node, as `encode_node` spells it: keys are not escaped.
use model_lib.Common.{[], ◌∷◌, ◌++◌, Bool, true, false}
use model_lib.Dotjson.Text.{Bytes, quote, until_nul}
use model_lib.Dotjson.Quoted.Written.{string_text}
use model_lib.Dotjson.Node.{
  Node, null, false_node, true_node, number, string, object, array, Slots, no_slots, free, used,
  Items, no_items, item,
}

abbrev pub separator : Bool → Bytes
separator true = []
separator false = 0x2c ∷ []

abbrev pub key_text : Bytes → Bytes
key_text key = (quote ∷ (key ++ quote ∷ [])) ++ 0x3a ∷ []

unfoldable mutual
  pub print_node : Node → Bytes
  print_node null = 0x6e ∷ 0x75 ∷ 0x6c ∷ 0x6c ∷ []
  print_node false_node = 0x66 ∷ 0x61 ∷ 0x6c ∷ 0x73 ∷ 0x65 ∷ []
  print_node true_node = 0x74 ∷ 0x72 ∷ 0x75 ∷ 0x65 ∷ []
  print_node (number raw) = until_nul raw
  print_node (string s) = string_text s
  print_node (object cap len slots) = 0x7b ∷ (print_slots slots true ++ 0x7d ∷ [])
  print_node (array cap items) = 0x5b ∷ (print_items items true ++ 0x5d ∷ [])

  pub print_slots : Slots → Bool → Bytes
  print_slots no_slots first = []
  print_slots (free s) first = print_slots s first
  print_slots (used h key v s) first =
      separator first ++ (key_text key ++ (print_node v ++ print_slots s false))

  pub print_items : Items → Bool → Bytes
  print_items no_items first = []
  print_items (item v s) first = separator first ++ (print_node v ++ print_items s false)
