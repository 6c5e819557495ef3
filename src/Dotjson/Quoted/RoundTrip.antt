-- ===== src/Dotjson/Quoted/RoundTrip.antt =====
-- What `decode_string` makes of a literal, and of what `encode_string` writes.
use model_lib.Common.{
  ℕ, ◌≡◌, ◌≢◌, refl, ap, sym, ◌∙◌, List, [], ◌∷◌, ◌++◌, Bool, Option, none, some, arith, length,
  append_assoc, replicate, length-replicate, All, ne→==-false,
}
use model_lib.Dotjson.Text.{Bytes, quote, ignore}
use model_lib.Dotjson.Escape.Values.{letter_value}
use model_lib.Dotjson.Escape.Pieces.{
  Piece, plain, simple, piece_value, piece_source, sources, values, unescape_str_measure,
  unescape_str_fill,
}
use model_lib.Dotjson.Node.{string, ok}
use model_lib.Dotjson.Quoted.{
  string_filled, string_measured, string_at, decode_string, escape_letter,
}
use model_lib.Dotjson.Quoted.Written.{char_text, escape_text, string_text}

string_at-literal :
    (s : Bytes) (ps : List Piece) (vs rest : Bytes)
    → values ps ≡ some vs
    → string_at s (quote ∷ (sources ps ++ quote ∷ rest)) ≡ ok (string vs) rest
unfolding string_filled string_measured
string_at-literal s ps vs rest h =
    let p = quote ∷ (sources ps ++ quote ∷ rest) in
    let blank = replicate (length vs) 0 in
    ap (string_measured s p) (unescape_str_measure ps vs h rest)
    ∙ ap (string_filled p blank)
        (unescape_str_fill ps vs h rest blank (length-replicate (length vs) 0))

-- At a literal, with white space and comments before it, `decode_string` makes a string node of
-- exactly the bytes that the literal's pieces stand for, and stops behind its closing quote.
pub decode_string-literal :
    (comments : Bool) (s : Bytes) (ps : List Piece) (vs rest : Bytes)
    → values ps ≡ some vs
    → ignore comments s ≡ quote ∷ (sources ps ++ quote ∷ rest)
    → decode_string comments s ≡ ok (string vs) rest
unfolding decode_string
decode_string-literal comments s ps vs rest h e =
    ap (string_at s) e ∙ string_at-literal s ps vs rest h

-- A character of a text, as a piece of its literal.
abbrev piece_of : Option ℕ → ℕ → Piece
piece_of (some letter) c = simple letter
piece_of none c = plain c

pieces_of : Bytes → List Piece
pieces_of [] = []
pieces_of (c ∷ p) = piece_of (escape_letter c) c ∷ pieces_of p

abbrev pub NoNul : Bytes → Type 0
NoNul s = All (λ c. c ≢ 0) s

piece_of_value : (c : ℕ) → c ≢ 0 → piece_value (piece_of (escape_letter c) c) ≡ some (c ∷ [])
unfolding piece_value escape_letter letter_value
piece_of_value c h = ground arith

values-pieces_of : (s : Bytes) → NoNul s → values (pieces_of s) ≡ some s
unfolding values pieces_of
values-pieces_of [] h = refl
values-pieces_of (c ∷ p) h = rw (piece_of_value c h.0, values-pieces_of p h.1)

piece_of_source :
    (letter : Option ℕ) (c : ℕ) → piece_source (piece_of letter c) ≡ char_text letter c
unfolding piece_source
piece_of_source none c = refl
piece_of_source (some letter) c = refl

sources-pieces_of : (s : Bytes) → NoNul s → sources (pieces_of s) ≡ escape_text s
unfolding sources pieces_of escape_text
sources-pieces_of [] h = refl
sources-pieces_of (c ∷ p) h =
    rw (ne→==-false c 0 h.0, piece_of_source (escape_letter c) c, sources-pieces_of p h.1)

-- The literal that `encode_string` writes for a text with no NUL byte, with white space and comments
-- before it, decodes to that text, whatever follows the literal.
pub decode_string-string_text :
    (comments : Bool) (s text rest : Bytes)
    → NoNul text
    → ignore comments s ≡ string_text text ++ rest
    → decode_string comments s ≡ ok (string text) rest
unfolding string_text
decode_string-string_text comments s text rest h e =
    decode_string-literal comments s (pieces_of text) text rest (values-pieces_of text h) (
      e
      ∙ ap (λ q. quote ∷ q) (append_assoc (escape_text text) (quote ∷ []) rest)
      ∙ ap (λ q. quote ∷ (q ++ quote ∷ rest)) (sym (sources-pieces_of text h)))
