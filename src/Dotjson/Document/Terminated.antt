-- ===== src/Dotjson/Document/Terminated.antt =====
-- The text of a printable node is a C string.
use model_lib.Common.{
  ℕ, ◌≡◌, ◌≢◌, [], ◌∷◌, ◌++◌, Bool, true, false, arith, Bool-cases, inl, inr, ◌==◌,
}
use model_lib.Dotjson.Text.{Bytes, until_nul}
use model_lib.Dotjson.Node.{
  Node, null, false_node, true_node, number, string, object, array, Slots, no_slots, free, used,
  Items, no_items, item,
}
use model_lib.Dotjson.Quoted.{escape_letter}
use model_lib.Dotjson.Quoted.Written.{char_text, escape_text, string_text}
use model_lib.Dotjson.Quoted.RoundTrip.{NoNul}
use model_lib.Dotjson.Encode.Print.{print_node, print_slots, print_items, key_text, separator}
use model_lib.Dotjson.Document.{PlainKey, Printable, PrintableSlots, PrintableItems}

NoNul-append : (p q : Bytes) → NoNul p → NoNul q → NoNul (p ++ q)
NoNul-append [] q h g = g
NoNul-append (c ∷ p) q h g = (h.0, NoNul-append p q h.1 g)

not_nul : (c : ℕ) → (c == 0) ≡ false → c ≢ 0
not_nul c e = ground arith

until_nul-NoNul : (p : Bytes) → NoNul (until_nul p)
unfolding until_nul
until_nul-NoNul [] = tt
until_nul-NoNul (c ∷ p) = elim (Bool-cases (c == 0)) [
  | inl e ↦ rw e tt
  | inr e ↦ rw e (not_nul c e, until_nul-NoNul p)
]

letter-NoNul : (c : ℕ) → c ≢ 0 → NoNul (char_text (escape_letter c) c)
unfolding escape_letter
letter-NoNul c h = ground arith

escape_text-NoNul : (p : Bytes) → NoNul (escape_text p)
unfolding escape_text
escape_text-NoNul [] = tt
escape_text-NoNul (c ∷ p) = elim (Bool-cases (c == 0)) [
  | inl e ↦ rw e tt
  | inr e ↦ rw e (NoNul-append _ _ (letter-NoNul c (not_nul c e)) (escape_text-NoNul p))
]

key-NoNul : (key : Bytes) → PlainKey key → NoNul key
key-NoNul [] h = tt
key-NoNul (c ∷ key) h = (h.0.0, key-NoNul key h.1)

key_text-NoNul : (key : Bytes) → PlainKey key → NoNul (key_text key)
key_text-NoNul key h = (
  omega arith,
  NoNul-append _ _ (NoNul-append key _ (key-NoNul key h) (omega arith, tt)) (omega arith, tt),
)

separator-NoNul : (first : Bool) → NoNul (separator first)
separator-NoNul true = tt
separator-NoNul false = (omega arith, tt)

mutual
  unfolding print_node Printable string_text

  pub print_node-NoNul : (n : Node) → Printable n → NoNul (print_node n)
  print_node-NoNul null h = ground arith
  print_node-NoNul false_node h = ground arith
  print_node-NoNul true_node h = ground arith
  print_node-NoNul (number raw) h = until_nul-NoNul raw
  print_node-NoNul (string s) h =
      (omega arith, NoNul-append _ _ (escape_text-NoNul s) (omega arith, tt))
  print_node-NoNul (object cap len slots) h =
      (omega arith, NoNul-append _ _ (print_slots-NoNul slots true h) (omega arith, tt))
  print_node-NoNul (array cap items) h =
      (omega arith, NoNul-append _ _ (print_items-NoNul items true h) (omega arith, tt))

  print_slots-NoNul :
      (slots : Slots) (first : Bool) → PrintableSlots slots → NoNul (print_slots slots first)
  print_slots-NoNul no_slots first h = tt
  print_slots-NoNul (free slots) first h = print_slots-NoNul slots first h
  print_slots-NoNul (used k key v slots) first h = NoNul-append _ _ (separator-NoNul first) (
      NoNul-append (key_text key) _ (key_text-NoNul key h.0)
        (NoNul-append _ _ (print_node-NoNul v h.1) (print_slots-NoNul slots false h.2)))

  print_items-NoNul :
      (items : Items) (first : Bool) → PrintableItems items → NoNul (print_items items first)
  print_items-NoNul no_items first h = tt
  print_items-NoNul (item v items) first h =
      NoNul-append _ _ (separator-NoNul first)
        (NoNul-append _ _ (print_node-NoNul v h.0) (print_items-NoNul items false h.1))
