-- ===== src/Dotjson/Encode/Written.antt =====
-- What `encode_node` and `dotjson_encode` write.
use model_lib.Common.{
  ℕ, ◌+◌, ◌-◌, ◌≤◌, ◌<◌, ◌≡◌, ◌⊎◌, ap, ◌∙◌, [], ◌∷◌, ◌++◌, Bool, true, false, leb, ltb, length,
  length-append, arith, get_or,
}
use model_lib.Common.Memory.{
  Memory, Out, puts, put, Wrote, Wrote-nil, Wrote-puts, Wrote-put, Wrote-append, Wrote-nested,
}
use model_lib.Dotjson.Text.{Bytes, quote, until_nul}
use model_lib.Dotjson.Quoted.Written.{encode_string-Wrote}
use model_lib.Dotjson.Node.{
  Node, null, false_node, true_node, number, string, object, array, Slots, no_slots, free, used,
  Items, no_items, item,
}
use model_lib.Dotjson.Encode.{
  add_count, comma, encode_key, encode_node, encode_slots, encode_items, dotjson_encode,
}
use model_lib.Dotjson.Encode.Print.{separator, key_text, print_node, print_slots, print_items}

-- A whole token, stored only if all of it fits.
token-Wrote :
    (base len : ℕ) (bytes : Bytes) (mem : Memory)
    → Wrote base len
        (length bytes)
        (0, mem)
        (puts base (leb (length bytes) len) bytes (0, mem))
        bytes
token-Wrote base len bytes mem =
    Wrote-puts base len (length bytes) (leb (length bytes) len) bytes (0, mem) (λ h. ground arith)
      (λ h. ground arith)

comma-Wrote :
    (first : Bool) (base len : ℕ) (st : Out)
    → Wrote base len
        (st.0 + length (separator first))
        st
        (comma first base len st)
        (separator first)
unfolding comma
comma-Wrote true base len st = Wrote-nil base len (st.0 + 0) st
comma-Wrote false base len st = Wrote-put base len 0x2c st

encode_key-Wrote :
    (key : Bytes) (base len : ℕ) (st : Out)
    → Wrote base len (st.0 + length (key_text key)) st (encode_key key base len st) (key_text key)
unfolding encode_key
encode_key-Wrote key base len st =
    let quoted = quote ∷ (key ++ quote ∷ []) in
    let size = length-append {0} key (quote ∷ []) in
    let whole = length-append {0} quoted (0x3a ∷ []) in
    let room = leb (st.0 + 2 + length key) len in
    let name =
      Wrote-puts base len (st.0 + length quoted) room quoted st (λ h. ground (arith, size))
        (λ h. ground (arith, size)) in
    Wrote-append (st.0 + length (key_text key)) name
      (Wrote-put base len 0x3a (puts base room quoted st)) (omega (arith, whole))
      (omega (arith, whole, name.moved))

-- The prefix, one value and the entries or items behind it.
chain :
    {base len : ℕ} {st st₁ st₂ st₃ : Out} {xs ys zs : Bytes}
    → Wrote base len (st.0 + length xs) st st₁ xs
    → Wrote base len (st₁.0 + length ys) st₁ st₂ ys
    → Wrote base len (st₂.0 + length zs) st₂ st₃ zs
    → Wrote base len (st.0 + length (xs ++ (ys ++ zs))) st st₃ (xs ++ (ys ++ zs))
chain {base} {len} {st} {xs} {ys} {zs} a b c =
    let total = length-append {0} xs (ys ++ zs) in
    let rest = length-append {0} ys zs in
    Wrote-append (st.0 + length (xs ++ (ys ++ zs))) a
      (Wrote-append (st.0 + length (xs ++ (ys ++ zs))) b c (omega (arith, total, rest, a.moved))
        (omega (arith, total, rest, a.moved, b.moved)))
      (omega (arith, total)) (omega arith)

-- An opening bracket, which `encode_node` stores if at least `n` bytes fit, the inside and a closing
-- bracket.
bracketed :
    (base len left right : ℕ) (room : Bool) (inside : Bytes) (mem : Memory) (st : Out)
    → (room ≡ true → 1 ≤ len)
    → (2 ≤ len → room ≡ true)
    → Wrote base len
        ((puts base room (left ∷ []) (0, mem)).0 + length inside)
        (puts base room (left ∷ []) (0, mem))
        st
        inside
    → Wrote base len
        (length (left ∷ (inside ++ right ∷ [])))
        (0, mem)
        (put base len right st)
        (left ∷ (inside ++ right ∷ []))
bracketed base len left right room inside mem st fits full w =
    let total = length-append {0} inside (right ∷ []) in
    let first =
      Wrote-puts base len 2 room (left ∷ []) (0, mem) (λ h. let f = fits h in omega arith) full in
    Wrote-append (length (left ∷ (inside ++ right ∷ []))) first
      (Wrote-append (length (left ∷ (inside ++ right ∷ []))) w (Wrote-put base len right st)
        (omega (arith, total, first.moved)) (omega (arith, total, w.moved, first.moved)))
      (omega (arith, total)) (omega arith)

mutual
  unfolding encode_node print_node

  node-Wrote :
      (n : Node) (base len : ℕ) (mem : Memory)
      → Wrote base len (length (print_node n)) (0, mem) (encode_node n base len mem) (print_node n)
  node-Wrote null base len mem = token-Wrote base len (0x6e ∷ 0x75 ∷ 0x6c ∷ 0x6c ∷ []) mem
  node-Wrote false_node base len mem =
      token-Wrote base len (0x66 ∷ 0x61 ∷ 0x6c ∷ 0x73 ∷ 0x65 ∷ []) mem
  node-Wrote true_node base len mem = token-Wrote base len (0x74 ∷ 0x72 ∷ 0x75 ∷ 0x65 ∷ []) mem
  node-Wrote (number raw) base len mem = token-Wrote base len (until_nul raw) mem
  node-Wrote (string s) base len mem = encode_string-Wrote s base len mem
  node-Wrote (object slots_cap n slots) base len mem =
      bracketed base len 0x7b 0x7d (leb 1 len) (print_slots slots true) mem _ (λ h. ground arith)
        (λ h. ground arith)
        (slots-Wrote slots true base len (puts base (leb 1 len) (0x7b ∷ []) (0, mem)))
  node-Wrote (array items_cap items) base len mem =
      bracketed base len 0x5b 0x5d (ltb 1 len) (print_items items true) mem _ (λ h. ground arith)
        (λ h. ground arith)
        (items-Wrote items true base len (puts base (ltb 1 len) (0x5b ∷ []) (0, mem)))

  slots-Wrote :
      (s : Slots) (first : Bool) (base len : ℕ) (st : Out)
      → Wrote base len
          (st.0 + length (print_slots s first))
          st
          (encode_slots s first base len st)
          (print_slots s first)
  slots-Wrote no_slots first base len st = Wrote-nil base len (st.0 + 0) st
  slots-Wrote (free s) first base len st = slots-Wrote s first base len st
  slots-Wrote (used h key v s) first base len st =
      let st₁ = comma first base len st in
      let st₂ = encode_key key base len st₁ in
      let sep = comma-Wrote first base len st in
      let total =
        length-append {0} (separator first)
          (key_text key ++ (print_node v ++ print_slots s false)) in
      Wrote-append (st.0 + length (print_slots (used h key v s) first)) sep
        (chain (encode_key-Wrote key base len st₁)
          (Wrote-nested base len (length (print_node v)) st₂.0 st₂.1 _ (print_node v)
            (node-Wrote v (base + st₂.0) (len - st₂.0) st₂.1))
          (slots-Wrote s false base len
            (add_count st₂.0 (encode_node v (base + st₂.0) (len - st₂.0) st₂.1))))
        (omega (arith, total)) (omega (arith, total, sep.moved))

  items-Wrote :
      (s : Items) (first : Bool) (base len : ℕ) (st : Out)
      → Wrote base len
          (st.0 + length (print_items s first))
          st
          (encode_items s first base len st)
          (print_items s first)
  items-Wrote no_items first base len st = Wrote-nil base len (st.0 + 0) st
  items-Wrote (item v s) first base len st =
      let st₁ = comma first base len st in
      chain (comma-Wrote first base len st)
        (Wrote-nested base len (length (print_node v)) st₁.0 st₁.1 _ (print_node v)
          (node-Wrote v (base + st₁.0) (len - st₁.0) st₁.1))
        (items-Wrote s false base len
          (add_count st₁.0 (encode_node v (base + st₁.0) (len - st₁.0) st₁.1)))

-- `encode_node` returns the length of the node's JSON text whatever the room, changes no byte outside
-- of the `len` bytes from `base` on, and leaves the whole text there if it fits.
pub encode_node-Wrote :
    (n : Node) (base len : ℕ) (mem : Memory)
    → Wrote base len (length (print_node n)) (0, mem) (encode_node n base len mem) (print_node n)
encode_node-Wrote = node-Wrote

-- What a caller of `dotjson_encode` may rely on, with a buffer of `len` bytes at `base`.
pub record Encoded (n : Node) (base len : ℕ) (mem : Memory) (out : Out) : Type 0 where
  pub count : out.0 ≡ length (print_node n)
  pub outside : (j : ℕ) → (j < base) ⊎ (base + len ≤ j) → out.1 j ≡ mem j
  pub text :
      length (print_node n) < len
      → (i : ℕ) → i < length (print_node n)
      → out.1 (base + i) ≡ get_or (print_node n) i 0
  pub terminated :
      0 < length (print_node n)
      → length (print_node n) < len
      → out.1 (base + length (print_node n)) ≡ 0

-- `dotjson_encode` returns the length of the root's JSON text, whatever the size of the buffer. It
-- changes no byte outside of the buffer. If the buffer has more bytes than the text, the whole text
-- stands in it, with a NUL behind it unless the text is empty.
pub dotjson_encode-Encoded :
    (n : Node) (base len : ℕ) (mem : Memory)
    → Encoded n base len mem (dotjson_encode n base len mem)
unfolding dotjson_encode
dotjson_encode-Encoded n base len mem =
    let w = encode_node-Wrote n base (len - 1) mem in
    let size = (encode_node n base (len - 1) mem).0 in
    let out = (encode_node n base (len - 1) mem).1 in
    record {
      count = w.moved ∙ omega arith;
      outside = λ j h. ground (arith, w.kept j (omega arith));
      text = λ fits i lt.
          let stored : out (base + i) ≡ get_or (print_node n) i 0 =
            ap out (omega arith) ∙ w.filled (omega arith) i lt in
          ground (arith, stored, w.moved);
      terminated = λ pos fits. ground (arith, w.moved);
    }
