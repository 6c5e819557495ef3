-- ===== src/Dotjson/Encode.antt =====
-- The encoders of c/dotjson/dotjson.c: `encode_object`, `encode_node` and `dotjson_encode`.
pub mod Print
pub mod Written
use model_lib.Common.{
  ℕ, ◌+◌, ◌-◌, [], ◌∷◌, ◌++◌, Bool, true, false, ◌==◌, leb, ltb, if◌then◌else◌, length,
}
use model_lib.Common.Memory.{Memory, Out, update, puts, put}
use model_lib.Dotjson.Text.{Bytes, quote, until_nul}
use model_lib.Dotjson.Quoted.{encode_string}
use model_lib.Dotjson.Node.{
  Node, null, false_node, true_node, number, string, object, array, Slots, no_slots, free, used,
  Items, no_items, item,
}

-- `r += encode_node(…)`
abbrev pub add_count : ℕ → Out → Out
add_count r (n, mem) = (r + n, mem)

-- A separator before every entry or item but the first.
unfoldable pub comma : Bool → ℕ → ℕ → Out → Out
comma true base len st = st
comma false base len st = put base len 0x2c st

-- `"key":`, the key unescaped and stored only if it fits with both quotes.
unfoldable pub encode_key : Bytes → ℕ → ℕ → Out → Out
encode_key key base len st =
    put base len 0x3a (puts base (leb (st.0 + 2 + length key) len) (quote ∷ (key ++ quote ∷ [])) st)

-- `buf` is the address `base`. The loops go over the slots and the items that are left; the flag
-- says that nothing is written yet.
unfoldable mutual
  pub encode_node : Node → ℕ → ℕ → Memory → Out
  encode_node null base len mem = puts base (leb 4 len) (0x6e ∷ 0x75 ∷ 0x6c ∷ 0x6c ∷ []) (0, mem)
  encode_node false_node base len mem =
      puts base (leb 5 len) (0x66 ∷ 0x61 ∷ 0x6c ∷ 0x73 ∷ 0x65 ∷ []) (0, mem)
  encode_node true_node base len mem =
      puts base (leb 4 len) (0x74 ∷ 0x72 ∷ 0x75 ∷ 0x65 ∷ []) (0, mem)
  encode_node (number raw) base len mem =
      puts base (leb (length (until_nul raw)) len) (until_nul raw) (0, mem)
  encode_node (string s) base len mem = encode_string s base len mem
  encode_node (object cap n slots) base len mem =
      put base len 0x7d
        (encode_slots slots true base len (puts base (leb 1 len) (0x7b ∷ []) (0, mem)))
  encode_node (array cap items) base len mem =
      put base len 0x5d
        (encode_items items true base len (puts base (ltb 1 len) (0x5b ∷ []) (0, mem)))

  pub encode_slots : Slots → Bool → ℕ → ℕ → Out → Out
  encode_slots no_slots first base len st = st
  encode_slots (free s) first base len st = encode_slots s first base len st
  encode_slots (used h key v s) first base len st =
      let (r, mem) = encode_key key base len (comma first base len st) in
      encode_slots s false base len (add_count r (encode_node v (base + r) (len - r) mem))

  pub encode_items : Items → Bool → ℕ → ℕ → Out → Out
  encode_items no_items first base len st = st
  encode_items (item v s) first base len st =
      let (r, mem) = comma first base len st in
      encode_items s false base len (add_count r (encode_node v (base + r) (len - r) mem))

-- `dotjson_encode(root, buf, len)` with a root and a buffer: the last byte is kept for a NUL.
unfoldable pub dotjson_encode : Node → ℕ → ℕ → Memory → Out
dotjson_encode root base len mem =
    let (n, mem') = encode_node root base (len - 1) mem in
    (n, if n == 0 then mem' else if ltb n len then update mem' (base + n) 0 else mem')
