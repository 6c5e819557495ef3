-- ===== src/Dotjson/Document/Examples.antt =====
-- The round trip of c/dotjson at the document {"a":[1,"x",null]}.
use model_lib.Common.{◌≡◌, refl, [], ◌∷◌, ◌++◌, true, arith}
use model_lib.Dotjson.Text.{until_nul}
use model_lib.Dotjson.Node.{
  Node, null, number, string, object, array, Slots, used, free, no_slots, item, no_items, ok,
}
use model_lib.Dotjson.Number.Numeral.{
  Numeral, unsigned, no_fraction, no_exponent, numeral_text, stops,
}
use model_lib.Dotjson.Number.{is_digit}
use model_lib.Dotjson.Quoted.{escape_letter}
use model_lib.Dotjson.Quoted.Written.{string_text, escape_text}
use model_lib.Dotjson.Encode.Print.{print_node}
use model_lib.Dotjson.Decode.{decode_node, dotjson_decode}
use model_lib.Dotjson.Document.{Printable, depth}
use model_lib.Dotjson.Document.Same.{Countable, entry_count, Same}
use model_lib.Dotjson.Document.Stored.{c_string, dotjson_decode-dotjson_encode}
use model_lib.Dotjson.Encode.{dotjson_encode}
use model_lib.Dotjson.Document.RoundTrip.{decode_node-print_node}

abbrev one : Numeral
one = record { sign = unsigned; first = 0x31; more = []; frac = no_fraction; expo = no_exponent }

-- Two slots, the second one free.
abbrev slots : Slots
slots =
    used 0 (0x61 ∷ [])
      (array 4 (item (number (0x31 ∷ [])) (item (string (0x78 ∷ [])) (item null no_items))))
      (free no_slots)

abbrev document : Node
document = object 2 1 slots

document-Printable : Printable document
unfolding Printable numeral_text is_digit until_nul
document-Printable = (
  ((omega arith, omega arith, omega arith), tt),
  ((one, ((refl, tt), tt, tt), refl), (((λ e. absurd (omega arith)), tt), (tt, tt))),
  tt,
)

document-Countable : Countable document
unfolding Countable entry_count
document-Countable = (omega arith, ((tt, (tt, (tt, tt))), tt))

decode_node-print_node_example :
    (m : Node) × (decode_node true 3 (print_node document ++ 0x20 ∷ []) ≡ ok m (0x20 ∷ []))
    × Same document m
decode_node-print_node_example =
    decode_node-print_node true 3 document (0x20 ∷ []) document-Printable document-Countable
      (unfold depth in omega arith) (unfold stops in refl)

dotjson_decode-dotjson_encode_example :
    (m : Node) × (dotjson_decode true
        (c_string (dotjson_encode document 100 20 (λ a. 0x7f)).1 100 20)
      ≡ ok m [])
    × Same document m
unfolding print_node until_nul string_text escape_text escape_letter
dotjson_decode-dotjson_encode_example =
    dotjson_decode-dotjson_encode true 2 1 slots 100 20 (λ a. 0x7f) document-Printable
      document-Countable (omega arith)
