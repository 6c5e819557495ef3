-- ===== src/Dotjson/Examples.antt =====
-- The theorems on c/dotjson at small texts and tables.
use model_lib.Common.{
  ℕ, ◌+◌, ◌^◌, ◌<◌, ◌≡◌, refl, sym, ap, ◌∙◌, List, [], ◌∷◌, ◌++◌, true, false, none, some, inl, inr,
  arith, if◌then◌else◌, length,
}
use model_lib.Common.Memory.{Memory, Wrote}
use model_lib.Dotjson.Text.{Bytes, quote, ignore}
use model_lib.Dotjson.Utf8.{uc_2_utf8, tail_byte}
use model_lib.Dotjson.Utf8.Bytes.{utf8_value, utf8_value-uc_2_utf8}
use model_lib.Dotjson.Escape.Values.{letter_value, code_value, digit_value}
use model_lib.Dotjson.Escape.Pieces.{Piece, plain, simple, code, sources, values}
use model_lib.Dotjson.Node.{
  Node, null, true_node, number, string, object, array, no_slots, free, used, no_items, item, Entry,
  Object, ok,
}
use model_lib.Dotjson.Number.{is_digit, decode_number}
use model_lib.Dotjson.Number.Numeral.{
  Numeral, stops, minus, unsigned, fraction, exponent, numeral_text, decode_number-numeral_text,
}
use model_lib.Dotjson.Quoted.{decode_string, encode_string}
use model_lib.Dotjson.Quoted.Written.{string_text, encode_string-Wrote}
use model_lib.Dotjson.Quoted.RoundTrip.{decode_string-literal, decode_string-string_text}
use model_lib.Dotjson.Table.{
  hash, same_text, fresh_table, add_entry, place, object_grow, object_get, min_bucket,
}
use model_lib.Dotjson.Table.Shape.{fresh_table-empty}
use model_lib.Dotjson.Table.Grow.{
  Contains, Moved, Added, object_grow-Moved, add_entry-Added, add_entry-first,
}
use model_lib.Dotjson.Table.Lookup.{DistinctKeys, object_get-absent, object_get-add_entry}
use model_lib.Dotjson.Encode.{dotjson_encode}
use model_lib.Dotjson.Encode.Written.{Encoded, dotjson_encode-Encoded}
use model_lib.Dotjson.Decode.{dotjson_decode}
use model_lib.Dotjson.Decode.Settled.{SettledHere}
use model_lib.Dotjson.Decode.Total.{dotjson_decode-Settled}

-- `{"a":[1,]}`, which is refused, and `{"a":[1]}`, which is read.
abbrev trailing_comma : Bytes
trailing_comma = 0x7b ∷ 0x22 ∷ 0x61 ∷ 0x22 ∷ 0x3a ∷ 0x5b ∷ 0x31 ∷ 0x2c ∷ 0x5d ∷ 0x7d ∷ []

abbrev small_json : Bytes
small_json = 0x7b ∷ 0x22 ∷ 0x61 ∷ 0x22 ∷ 0x3a ∷ 0x5b ∷ 0x31 ∷ 0x5d ∷ 0x7d ∷ []

dotjson_decode-Settled_example : SettledHere small_json (dotjson_decode true small_json)
dotjson_decode-Settled_example = dotjson_decode-Settled true small_json

utf8_value-uc_2_utf8_example : utf8_value (uc_2_utf8 0x4f60 ++ 0x78 ∷ []) ≡ some (0x4f60, 0x78 ∷ [])
utf8_value-uc_2_utf8_example = utf8_value-uc_2_utf8 0x4f60 (0x78 ∷ []) (omega arith)

-- `x\n\u4F60`
abbrev pieces : List Piece
pieces = plain 0x78 ∷ simple 0x6e ∷ code 0x34 0x46 0x36 0x30 ∷ []

abbrev piece_bytes : Bytes
piece_bytes = 0x78 ∷ 0x0a ∷ 0xe4 ∷ 0xbd ∷ 0xa0 ∷ []

values-pieces : values pieces ≡ some piece_bytes
unfolding values letter_value code_value digit_value uc_2_utf8 tail_byte
values-pieces = refl

abbrev zeros : Bytes
zeros = 0 ∷ 0 ∷ 0 ∷ 0 ∷ 0 ∷ []

-- `-1.5e2`
abbrev numeral : Numeral
numeral = record {
  sign = minus;
  first = 0x31;
  more = [];
  frac = fraction 0x35 [];
  expo = exponent false unsigned 0x32 [];
}

decode_number-numeral_text_example :
    decode_number true (numeral_text numeral ++ 0x2c ∷ [])
    ≡ ok (number (numeral_text numeral)) (0x2c ∷ [])
unfolding is_digit stops ignore numeral_text
decode_number-numeral_text_example =
    decode_number-numeral_text true (numeral_text numeral ++ 0x2c ∷ []) numeral (0x2c ∷ [])
      ((refl, tt), (refl, tt), (refl, tt)) refl refl

decode_string-literal_example :
    decode_string false (0x20 ∷ quote ∷ (sources pieces ++ quote ∷ [])) ≡ ok (string piece_bytes) []
unfolding ignore
decode_string-literal_example =
    decode_string-literal false (0x20 ∷ quote ∷ (sources pieces ++ quote ∷ [])) pieces piece_bytes
      [] values-pieces refl

-- A text with a quote and a tab.
abbrev said : Bytes
said = 0x61 ∷ 0x22 ∷ 0x09 ∷ []

decode_string-string_text_example :
    decode_string false (string_text said ++ 0x2c ∷ []) ≡ ok (string said) (0x2c ∷ [])
unfolding ignore string_text
decode_string-string_text_example =
    decode_string-string_text false (string_text said ++ 0x2c ∷ []) said (0x2c ∷ [])
      (omega arith, (omega arith, (omega arith, tt))) refl

abbrev blank : Memory
blank a = 0

encode_string-Wrote_example :
    Wrote 100 8
      (length (string_text said))
      (0, blank)
      (encode_string said 100 8 blank)
      (string_text said)
encode_string-Wrote_example = encode_string-Wrote said 100 8 blank

-- `{"a":[null,true]}` in a table of two slots.
abbrev tree : Node
tree = object 2 1 (
    free (
      used (hash (0x61 ∷ [])) (0x61 ∷ []) (array 2 (item null (item true_node no_items))) no_slots))

dotjson_encode-Encoded_example : Encoded tree 100 18 blank (dotjson_encode tree 100 18 blank)
dotjson_encode-Encoded_example = dotjson_encode-Encoded tree 100 18 blank

-- Tables over numbers.
abbrev entry : ℕ → ℕ → Entry ℕ
entry c v = record { keyhash = hash (c ∷ []); key = c ∷ []; val = v }

abbrev one_entry : Object ℕ
one_entry = add_entry none (entry 0x61 7)

one_entry-Added : Added (fresh_table 1) (entry 0x61 7) one_entry
one_entry-Added = add_entry-first (entry 0x61 7) refl

one_entry-cap : one_entry.cap ≡ 1
unfolding add_entry place object_grow
one_entry-cap = refl

only_entry : (e : Entry ℕ) → Contains one_entry e → entry 0x61 7 ≡ e
only_entry e held = elim (one_entry-Added.nothing_else e held) [
  | inl same ↦ same
  | inr (j, old) ↦ absurd (fresh_table-empty ℕ 1 j e old)
]

other_key : same_text (0x61 ∷ []) (0x62 ∷ []) ≡ false
unfolding same_text
other_key = refl

own_key : same_text (0x61 ∷ []) (0x61 ∷ []) ≡ true
unfolding same_text
own_key = refl

keys_apart : (e : Entry ℕ) → Contains one_entry e → same_text e.key (0x62 ∷ []) ≡ false
keys_apart e held = ap (λ x. same_text x.key (0x62 ∷ [])) (sym (only_entry e held)) ∙ other_key

one_entry-DistinctKeys : DistinctKeys one_entry
one_entry-DistinctKeys a b in_a in_b same = sym (only_entry a in_a) ∙ only_entry b in_b

one_entry-below : one_entry.cap < 2 ^ 32
one_entry-below = omega (arith, one_entry-cap)

add_entry-Added_example : Added one_entry (entry 0x62 8) (add_entry (some one_entry) (entry 0x62 8))
add_entry-Added_example =
    add_entry-Added one_entry (entry 0x62 8) one_entry-Added.table one_entry-below refl

object_grow-Moved_example :
    Moved one_entry.entries
      (fresh_table (min_bucket (one_entry.len + 1)))
      (object_grow (some one_entry))
object_grow-Moved_example =
    object_grow-Moved one_entry-Added.table (one_entry-Added.len_next ∙ sym one_entry-cap)
      one_entry-below

object_get-absent_example : object_get one_entry (0x62 ∷ []) ≡ none
object_get-absent_example = object_get-absent one_entry (0x62 ∷ []) keys_apart

object_get-add_entry_example :
    object_get (add_entry (some one_entry) (entry 0x62 8)) (0x62 ∷ [])
    ≡ (if same_text (0x62 ∷ []) (0x62 ∷ []) then some 8 else object_get one_entry (0x62 ∷ []))
object_get-add_entry_example =
    object_get-add_entry one_entry (entry 0x62 8) (0x62 ∷ []) one_entry-Added.table one_entry-below
      refl one_entry-DistinctKeys keys_apart
