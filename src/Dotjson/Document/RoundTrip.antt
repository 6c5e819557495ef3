-- ===== src/Dotjson/Document/RoundTrip.antt =====
-- The round trip from `print_node` to `decode_node` and `dotjson_decode`.
use model_lib.Common.{
  ℕ, zero, suc, ◌<◌, ◌≤◌, ◌≡◌, refl, ap, ◌∙◌, [], ◌∷◌, ◌++◌, append_assoc, Bool, true, false, ◌==◌,
  arith, length, length-append, ne→==-false,
}
use model_lib.Dotjson.Text.{Bytes, peek}
use model_lib.Dotjson.Text.Skip.{starts_token, ignore-start}
use model_lib.Dotjson.Node.{
  Node, null, false_node, true_node, number, string, object, array, Slots, no_slots, free, used,
  Items, no_items, item, Decoded, ok, object_node,
}
use model_lib.Dotjson.Number.{decode_number}
use model_lib.Dotjson.Number.Numeral.{stops, numeral_text, decode_number-numeral_text}
use model_lib.Dotjson.Quoted.Written.{string_text}
use model_lib.Dotjson.Quoted.RoundTrip.{decode_string-string_text}
use model_lib.Dotjson.Encode.Print.{print_node, print_slots, print_items}
use model_lib.Dotjson.Decode.{
  decode_node, node_at, top_result, decode_object, dotjson_decode, here_if_unset,
}
use model_lib.Dotjson.Document.{
  Printable, PrintableSlots, PrintableItems, rebuild, depth, depth_slots, depth_items,
}
use model_lib.Dotjson.Document.Same.{Countable, Same}
use model_lib.Dotjson.Document.Rebuilt.{rebuild-Same}
use model_lib.Dotjson.Document.Leads.{
  leads_number, leads-starts, print_node-leads, numeral_text-leads,
}
use model_lib.Dotjson.Document.Depth.{depth-print_node}
use model_lib.Dotjson.Document.Rounds.{Reads}
use model_lib.Dotjson.Document.Arrays.{ReadsItems, decode_array-print_items}
use model_lib.Dotjson.Document.Objects.{ReadsSlots, decode_object-print_slots}

-- What a decoder has to read inside of a node.
abbrev Inner : (Bytes → Decoded) → Node → Type 0
Inner decode (object cap len slots) = ReadsSlots decode slots
Inner decode (array cap items) = ReadsItems decode items
Inner decode _ = Unit

module _ (comments : Bool) where
  number_starts : (c : ℕ) → leads_number c ≡ true → starts_token c ≡ true
  unfolding leads_number starts_token
  number_starts c h = ground arith

  -- A number's first byte leads to `decode_number`.
  node_at-number :
      (decode : Bytes → Decoded) (p : Bytes)
      → leads_number (peek p) ≡ true
      → node_at comments decode p ≡ here_if_unset p (decode_number comments p)
  unfolding node_at leads_number
  node_at-number decode p h = ground arith

  -- Behind white space, with a decoder that reads what is inside.
  node_at-print_node :
      (decode : Bytes → Decoded) (n : Node) (rest : Bytes)
      → Printable n
      → Inner decode n
      → stops (peek rest) ≡ true
      → node_at comments decode (print_node n ++ rest) ≡ ok (rebuild n) rest
  unfolding node_at print_node rebuild Printable string_text
  node_at-print_node decode null rest h inner stop = refl
  node_at-print_node decode false_node rest h inner stop = refl
  node_at-print_node decode true_node rest h inner stop = refl
  node_at-print_node decode (number raw) rest h inner stop =
      let lead = numeral_text-leads h.0 rest h.1 in
      let start = ignore-start comments _ (number_starts _ lead) in
      rw h.2 (
        node_at-number decode (numeral_text h.0 ++ rest) lead
        ∙ ap (here_if_unset (numeral_text h.0 ++ rest))
            (decode_number-numeral_text comments _ h.0 rest h.1 stop start))
  node_at-print_node decode (string s) rest h inner stop =
      let p = string_text s ++ rest in
      ap (here_if_unset p) (
        decode_string-string_text comments p s rest h
          (ignore-start comments p (unfold string_text starts_token in refl)))
  node_at-print_node decode (object cap len slots) rest h inner stop =
      rw (append_assoc (print_slots slots true) (0x7d ∷ []) rest) (
        ap (here_if_unset (0x7b ∷ (print_slots slots true ++ 0x7d ∷ rest)))
          (decode_object-print_slots comments decode slots rest h inner))
  node_at-print_node decode (array cap items) rest h inner stop =
      rw (append_assoc (print_items items true) (0x5d ∷ []) rest) (
        ap (here_if_unset (0x5b ∷ (print_items items true ++ 0x5d ∷ rest)))
          (decode_array-print_items comments decode items rest h inner))

  -- A unit of fuel for a node, with what is left for the nodes inside.
  node_from_inside :
      (n : Node)
      → Printable n
      → ((g : ℕ) → depth n ≤ g → Inner (decode_node comments g) n)
      → (f : ℕ) → depth n < f
      → Reads (decode_node comments f) n
  unfolding decode_node
  node_from_inside n h inner zero less = absurd (omega arith)
  node_from_inside n h inner (suc f) less = λ rest stop.
      ap (node_at comments (decode_node comments f))
        (ignore-start comments _ (leads-starts _ (print_node-leads n rest h)))
      ∙ node_at-print_node (decode_node comments f) n rest h (inner f (omega arith)) stop

  -- Fuel for the nesting is enough.
  mutual
    unfolding Printable depth

    node_is_read :
        (n : Node) → Printable n → (f : ℕ) → depth n < f → Reads (decode_node comments f) n
    node_is_read (object cap len slots) h =
        node_from_inside (object cap len slots) h (λ g le. slots_are_read slots h g (omega arith))
    node_is_read (array cap items) h =
        node_from_inside (array cap items) h (λ g le. items_are_read items h g (omega arith))
    node_is_read null h = node_from_inside null h (λ g le. tt)
    node_is_read false_node h = node_from_inside false_node h (λ g le. tt)
    node_is_read true_node h = node_from_inside true_node h (λ g le. tt)
    node_is_read (number raw) h = node_from_inside (number raw) h (λ g le. tt)
    node_is_read (string s) h = node_from_inside (string s) h (λ g le. tt)

    slots_are_read :
        (slots : Slots)
        → PrintableSlots slots
        → (f : ℕ) → depth_slots slots < f
        → ReadsSlots (decode_node comments f) slots
    slots_are_read no_slots h f less = tt
    slots_are_read (free slots) h f less = slots_are_read slots h f less
    slots_are_read (used k key v slots) h f less =
        (node_is_read v h.1 f (omega arith), slots_are_read slots h.2 f (omega arith))

    items_are_read :
        (items : Items)
        → PrintableItems items
        → (f : ℕ) → depth_items items < f
        → ReadsItems (decode_node comments f) items
    items_are_read no_items h f less = tt
    items_are_read (item v items) h f less =
        (node_is_read v h.0 f (omega arith), items_are_read items h.1 f (omega arith))

-- With more fuel than the node is nested, `decode_node` at the text of a printable node, in which no
-- object has 2 ^ 31 entries or more, makes a node with the same value and stops behind the text, if no byte that
-- continues a numeral follows. The same value is: the same atom or text, the same items in their order,
-- or a well-formed table with the same entries and no other.
pub decode_node-print_node :
    (comments : Bool) (f : ℕ) (n : Node) (rest : Bytes)
    → Printable n
    → Countable n
    → depth n < f
    → stops (peek rest) ≡ true
    → (m : Node) × (decode_node comments f (print_node n ++ rest) ≡ ok m rest) × Same n m
decode_node-print_node comments f n rest h few less stop =
    (rebuild n, node_is_read comments n h f less rest stop, rebuild-Same n few)

decode_object-print_node :
    (comments : Bool) (f cap len : ℕ) (slots : Slots) (rest : Bytes)
    → Printable (object cap len slots)
    → depth (object cap len slots) < suc f
    → decode_object comments (decode_node comments f) (print_node (object cap len slots) ++ rest)
      ≡ ok (rebuild (object cap len slots)) rest
unfolding Printable depth print_node rebuild
decode_object-print_node comments f cap len slots rest h less =
    rw (append_assoc (print_slots slots true) (0x7d ∷ []) rest) (
      decode_object-print_slots comments (decode_node comments f) slots rest h
        (slots_are_read comments slots h f (omega arith)))

-- `dotjson_decode` at the text of a printable object, whatever follows, makes the object built anew and
-- stops behind the text.
pub dotjson_decode-print_node :
    (comments : Bool) (cap len : ℕ) (slots : Slots) (rest : Bytes)
    → Printable (object cap len slots)
    → dotjson_decode comments (print_node (object cap len slots) ++ rest)
      ≡ ok (rebuild (object cap len slots)) rest
unfolding dotjson_decode top_result rebuild object_node
dotjson_decode-print_node comments cap len slots rest h =
    let text = print_node (object cap len slots) in
    let count = length-append {0} text rest in
    let deep = depth-print_node (object cap len slots) h in
    let longer : (length rest == length (text ++ rest)) ≡ false =
      ne→==-false (length rest) _ (omega arith) in
    ap (top_result (text ++ rest))
      (decode_object-print_node comments (length (text ++ rest)) cap len slots rest h (omega arith))
    ∙ rw longer refl
