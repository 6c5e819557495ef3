-- ===== src/Dotjson/Escape/Pieces.antt =====
-- JSON string literals as sequences of pieces, and what `unescape_str` makes of them.
use model_lib.Common.{
  ℕ, zero, suc, ◌+◌, ◌≤◌, ◌<◌, ◌≡◌, refl, ap, sym, ◌∙◌, List, [], ◌∷◌, ◌++◌, arith, length,
  append_assoc, length-append, append?, append?-eq-some, Option, none, some, false, ◌==◌, leb,
  if◌then◌else◌, Bool-cases, inl, inr, ==→eq, Option-cases, ap₂, subst, ◌⊎◌,
}
use mathlib.Core.Option
use model_lib.Dotjson.Text.{Bytes, peek, quote, backslash}
use model_lib.Dotjson.Utf8.{uc_2_utf8}
use model_lib.Dotjson.Escape.{
  hex_digit, read_hex, escaped_char, emit, unescape_char, store, closed, unescape_loop,
  unescape_str,
}
use model_lib.Dotjson.Escape.Values.{
  letter_value, code_value, escaped_char-letter_value, read_hex-code_value,
}
use model_lib.Dotjson.Escape.Buffer.{store-nil, store-append, store-full}

pub data Piece : Type 0 where
  plain : ℕ → Piece
  simple : ℕ → Piece
  code : ℕ → ℕ → ℕ → ℕ → Piece

-- The text of a piece: a character, `\c` or `\uabcd`.
unfoldable pub piece_source : Piece → Bytes
piece_source (plain c) = c ∷ []
piece_source (simple c) = backslash ∷ c ∷ []
piece_source (code a b c d) = backslash ∷ 0x75 ∷ a ∷ b ∷ c ∷ d ∷ []

-- The bytes that a piece stands for; `none` if it is no piece of a literal.
unfoldable pub piece_value : Piece → Option Bytes
piece_value (plain c) =
    if c == 0
    then none
    else if c == quote
    then none
    else if c == backslash
    then none
    else some (c ∷ [])
piece_value (simple c) = Option.map (λ e. e ∷ []) (letter_value c)
piece_value (code a b c d) = Option.map uc_2_utf8 (code_value a b c d)

unfoldable pub sources : List Piece → Bytes
unfolding piece_source
sources [] = []
sources (pc ∷ ps) = piece_source pc ++ sources ps

unfoldable pub values : List Piece → Option Bytes
unfolding piece_value
values [] = some []
values (pc ∷ ps) = append? (piece_value pc) (values ps)

not_quote :
    (pc : Piece) (q bytes : Bytes)
    → piece_value pc ≡ some bytes
    → (peek (piece_source pc ++ q) == quote) ≡ false
unfolding piece_value piece_source
not_quote (plain c) q bytes h = ground arith
not_quote (simple c) q bytes h = refl
not_quote (code a b c d) q bytes h = refl

read_hex-append :
    (k : ℕ) (p q : Bytes) (uc : ℕ) → k ≤ length p → read_hex k (p ++ q) uc ≡ read_hex k p uc
unfolding read_hex
read_hex-append zero p q uc h = refl
read_hex-append (suc k) [] q uc h = absurd (omega arith)
read_hex-append (suc k) (c ∷ p) q uc h = elim (Option-cases (hex_digit c)) [
  | inl e ↦ rw (e, read_hex)
  | inr (d, e) ↦ rw (e, read_hex) (read_hex-append k p q _ (omega arith))
]

escaped_u : escaped_char 0x75 ≡ none
unfolding escaped_char
escaped_u = refl

unescape_char-simple :
    (c e : ℕ) (q : Bytes)
    → escaped_char c ≡ some e
    → unescape_char (backslash ∷ c ∷ q) ≡ emit (e ∷ []) q
unfolding unescape_char
unescape_char-simple c e q h = elim (Bool-cases (c == 0x75)) [
  | inl u ↦ cc (h, ap escaped_char (==→eq c 0x75 u), escaped_u)
  | inr n ↦ rw (n, h)
]

unescape_char-code :
    (a b c d uc : ℕ) (q : Bytes)
    → read_hex 4 (a ∷ b ∷ c ∷ d ∷ []) 0 ≡ some uc
    → unescape_char (backslash ∷ 0x75 ∷ a ∷ b ∷ c ∷ d ∷ q) ≡ emit (uc_2_utf8 uc) q
unfolding unescape_char
unescape_char-code a b c d uc q h = rw (read_hex-append 4 (a ∷ b ∷ c ∷ d ∷ []) q 0 (omega arith), h)

unescape_char-piece :
    (pc : Piece) (q bytes : Bytes)
    → piece_value pc ≡ some bytes
    → unescape_char (piece_source pc ++ q) ≡ emit bytes q
unfolding piece_value piece_source
unescape_char-piece (plain c) q bytes h = unfold unescape_char in ground arith
unescape_char-piece (simple c) q bytes h = elim (Option-cases (letter_value c)) [
  | inl e ↦ cc (rw (e, Option.map) at h)
  | inr (e, p) ↦
      unescape_char-simple c e q (escaped_char-letter_value c ∙ p) ∙ cc (rw (p, Option.map) at h)
]
unescape_char-piece (code a b c d) q bytes h = elim (Option-cases (code_value a b c d)) [
  | inl e ↦ cc (rw (e, Option.map) at h)
  | inr (uc, p) ↦
      unescape_char-code a b c d uc q (read_hex-code_value a b c d uc p)
      ∙ cc (rw (p, Option.map) at h)
]

-- One round of the loop at a piece.
loop_piece :
    (f l n : ℕ) (pc : Piece) (q bytes buf : Bytes)
    → piece_value pc ≡ some bytes
    → unescape_loop (suc f) l (piece_source pc ++ q) n buf
      ≡ unescape_loop f l q
          (n + length bytes)
          (if leb (n + length bytes) l then store buf n bytes else buf)
unfolding unescape_loop
loop_piece f l n pc q bytes buf h =
    rw (not_quote pc q bytes h, unescape_loop, unescape_char-piece pc q bytes h, unescape_loop)

-- Either all of `bytes` fits behind `n`, or there is no buffer at all.
abbrev Room : ℕ → ℕ → Bytes → Bytes → Type 0
Room l n bytes buf = (n + length bytes ≤ l) ⊎ (buf ≡ [])

stores :
    (l n : ℕ) (bytes more buf : Bytes)
    → Room l n (bytes ++ more) buf
    → (if leb (n + length bytes) l then store buf n bytes else buf) ≡ store buf n bytes
stores l n bytes more buf (inl room) = ground (arith, length-append {0} bytes more)
stores l n bytes more buf (inr e) = rw (e, store-nil) (ground arith)

Room-rest :
    (l n : ℕ) (bytes more buf : Bytes)
    → Room l n (bytes ++ more) buf
    → Room l (n + length bytes) more (store buf n bytes)
Room-rest l n bytes more buf (inl room) = inl (omega (arith, length-append {0} bytes more))
Room-rest l n bytes more buf (inr e) = inr (rw e (store-nil n bytes))

length-piece_source_pos : (pc : Piece) → 0 < length (piece_source pc)
unfolding piece_source
length-piece_source_pos (plain c) = omega arith
length-piece_source_pos _ = omega arith

-- The pieces of a literal, from any place: their values are counted, and stored where they fit.
loop_pieces :
    (ps : List Piece) (f l n : ℕ) (rest vs buf : Bytes)
    → values ps ≡ some vs
    → length (sources ps) < f
    → Room l n vs buf
    → unescape_loop f l (sources ps ++ quote ∷ rest) n buf
      ≡ closed (n + length vs) (store buf n vs) rest
unfolding sources values
loop_pieces ps zero l n rest vs buf h lt room = absurd (omega arith)
loop_pieces [] (suc f) l n rest vs buf h lt room =
    let e : [] ≡ vs = cc h in
    subst
      (λ v.
        unescape_loop (suc f) l (quote ∷ rest) n buf ≡ closed (n + length v) (store buf n v) rest)
      e (unfold unescape_loop store in ap (λ k. closed k buf rest) (omega arith))
loop_pieces (pc ∷ ps) (suc f) l n rest vs buf h lt room =
    let (bytes, more, e, es, split) = append?-eq-some (piece_value pc) (values ps) h in
    let room' : Room l n (bytes ++ more) buf = rw split at room in
    rw (split, append_assoc)
      (loop_piece f l n pc (sources ps ++ quote ∷ rest) bytes buf e
        ∙ ap (unescape_loop f l (sources ps ++ quote ∷ rest) (n + length bytes))
            (stores l n bytes more buf room')
        ∙ loop_pieces ps f l (n + length bytes) rest more (store buf n bytes) es
            (omega
              (arith, length-append {0} (piece_source pc) (sources ps), length-piece_source_pos pc))
            (Room-rest l n bytes more buf room')
        ∙ ap₂ (λ k b. closed k b rest) (omega (arith, length-append {0} bytes more))
            (sym (store-append buf n bytes more)))

module _ (ps : List Piece) (vs : Bytes) (valid : values ps ≡ some vs) (rest : Bytes) where
  -- At a literal whose pieces stand for the bytes `vs`, `unescape_str` without a buffer counts them
  -- and leaves the pointer behind the closing quote.
  pub unescape_str_measure :
      unescape_str (quote ∷ (sources ps ++ quote ∷ rest)) 0 [] ≡ closed (length vs) [] rest
  unfolding unescape_str
  unescape_str_measure =
      loop_pieces ps _ 0 0 rest vs [] valid
        (omega (arith, length-append {0} (sources ps) (quote ∷ rest))) (inr refl)
      ∙ ap₂ (λ k b. closed k b rest) (omega arith) (store-nil 0 vs)

  -- At such a literal, with a buffer of exactly the size of `vs`, `unescape_str` fills it with `vs` and
  -- leaves the pointer behind the closing quote.
  pub unescape_str_fill :
      (buf : Bytes)
      → length buf ≡ length vs
      → unescape_str (quote ∷ (sources ps ++ quote ∷ rest)) (length vs) buf
        ≡ closed (length vs) vs rest
  unfolding unescape_str
  unescape_str_fill buf size =
      loop_pieces ps _ (length vs) 0 rest vs buf valid
        (omega (arith, length-append {0} (sources ps) (quote ∷ rest))) (inl (omega arith))
      ∙ ap₂ (λ k b. closed k b rest) (omega arith) (store-full buf vs size)
