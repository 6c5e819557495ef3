-- ===== src/Dotjson/Quoted/Written.antt =====
-- What `encode_string` writes.
use model_lib.Common.{
  ℕ, ◌+◌, [], ◌∷◌, ◌++◌, ◌==◌, if◌then◌else◌, Option, none, some, arith, length, length-append,
  Bool-cases, inl, inr,
}
use model_lib.Common.Memory.{Memory, Out, put, Wrote, Wrote-nil, Wrote-put, Wrote-append}
use model_lib.Dotjson.Text.{Bytes, quote, backslash}
use model_lib.Dotjson.Quoted.{escape_letter, encode_char, encode_chars, encode_string}

-- The text of one character inside a JSON string.
abbrev pub char_text : Option ℕ → ℕ → Bytes
char_text (some letter) c = backslash ∷ letter ∷ []
char_text none c = c ∷ []

unfoldable pub escape_text : Bytes → Bytes
escape_text [] = []
escape_text (c ∷ p) =
    let rest = char_text (escape_letter c) c ++ escape_text p in if c == 0 then [] else rest

unfoldable pub string_text : Bytes → Bytes
string_text s = quote ∷ (escape_text s ++ quote ∷ [])

encode_char-Wrote :
    (base len : ℕ) (letter : Option ℕ) (c : ℕ) (st : Out)
    → Wrote base len
        (st.0 + length (char_text letter c))
        st
        (encode_char base len letter c st)
        (char_text letter c)
unfolding encode_char
encode_char-Wrote base len none c st = Wrote-put base len c st
encode_char-Wrote base len (some letter) c st =
    let first = Wrote-put base len backslash st in
    Wrote-append (st.0 + 2) first (Wrote-put base len letter (put base len backslash st))
      (omega arith) (omega (arith, first.moved))

encode_chars-Wrote :
    (base len : ℕ) (p : Bytes) (st : Out)
    → Wrote base len (st.0 + length (escape_text p)) st (encode_chars base len p st) (escape_text p)
unfolding encode_chars escape_text
encode_chars-Wrote base len [] st = Wrote-nil base len (st.0 + 0) st
encode_chars-Wrote base len (c ∷ p) st = elim (Bool-cases (c == 0)) [
  | inl e ↦ rw e (Wrote-nil base len (st.0 + 0) st)
  | inr e ↦
      let letter = escape_letter c in
      let one = encode_char-Wrote base len letter c st in
      let rest = encode_chars-Wrote base len p (encode_char base len letter c st) in
      rw e (
        Wrote-append (st.0 + length (char_text letter c ++ escape_text p)) one rest
          (omega (arith, length-append {0} (char_text letter c) (escape_text p)))
          (omega (arith, one.moved, length-append {0} (char_text letter c) (escape_text p))))
]

-- `encode_string` writes the text's JSON literal: it returns the literal's length whatever the room,
-- changes no byte outside the `len` bytes it is given, and leaves the whole literal there if it fits.
pub encode_string-Wrote :
    (s : Bytes) (base len : ℕ) (mem : Memory)
    → Wrote base len
        (length (string_text s))
        (0, mem)
        (encode_string s base len mem)
        (string_text s)
unfolding encode_string string_text
encode_string-Wrote s base len mem =
    let open_quote = Wrote-put base len quote (0, mem) in
    let middle = encode_chars-Wrote base len s (put base len quote (0, mem)) in
    let last = Wrote-put base len quote (encode_chars base len s (put base len quote (0, mem))) in
    let total = length-append {0} (escape_text s) (quote ∷ []) in
    Wrote-append (length (string_text s)) open_quote
      (Wrote-append (length (string_text s)) middle last (omega (arith, open_quote.moved, total))
        (omega (arith, open_quote.moved, middle.moved, total)))
      (omega arith) (omega arith)
