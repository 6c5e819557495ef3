-- ===== src/Dotjson/Document/Keys.antt =====
-- A key that stands between quotes as it is, as `unescape_str` reads it.
use model_lib.Common.{
  ℕ, ◌≡◌, refl, ap, subst, [], ◌∷◌, ◌++◌, some, arith, length, List, replicate, length-replicate,
}
use model_lib.Dotjson.Text.{Bytes, quote}
use model_lib.Dotjson.Escape.{unescape_str, closed}
use model_lib.Dotjson.Escape.Pieces.{
  Piece, plain, piece_value, piece_source, sources, values, unescape_str_measure, unescape_str_fill,
}
use model_lib.Dotjson.Document.{PlainByte, PlainKey}

-- A plain key as the pieces of a literal.
unfoldable plain_pieces : Bytes → List Piece
plain_pieces [] = []
plain_pieces (c ∷ key) = plain c ∷ plain_pieces key

sources-plain_pieces : (key : Bytes) → sources (plain_pieces key) ≡ key
unfolding sources piece_source plain_pieces
sources-plain_pieces [] = refl
sources-plain_pieces (c ∷ key) = ap (λ k. c ∷ k) (sources-plain_pieces key)

plain_value : (c : ℕ) → PlainByte c → piece_value (plain c) ≡ some (c ∷ [])
unfolding piece_value
plain_value c h = ground arith

values-plain_pieces : (key : Bytes) → PlainKey key → values (plain_pieces key) ≡ some key
unfolding values plain_pieces
values-plain_pieces [] h = refl
values-plain_pieces (c ∷ key) h = rw (plain_value c h.0, values-plain_pieces key h.1) refl

-- `unescape_str` at a key between quotes, measuring and storing.
pub measured :
    (key rest : Bytes)
    → PlainKey key
    → unescape_str (quote ∷ (key ++ quote ∷ rest)) 0 [] ≡ closed (length key) [] rest
measured key rest h =
    subst (λ k. unescape_str (quote ∷ (k ++ quote ∷ rest)) 0 [] ≡ closed (length key) [] rest)
      (sources-plain_pieces key)
      (unescape_str_measure (plain_pieces key) key (values-plain_pieces key h) rest)

pub filled :
    (key rest : Bytes)
    → PlainKey key
    → unescape_str (quote ∷ (key ++ quote ∷ rest)) (length key) (replicate (length key) 0)
      ≡ closed (length key) key rest
filled key rest h =
    subst
      (λ k.
        unescape_str (quote ∷ (k ++ quote ∷ rest)) (length key) (replicate (length key) 0)
        ≡ closed (length key) key rest)
      (sources-plain_pieces key)
      (unescape_str_fill (plain_pieces key) key (values-plain_pieces key h) rest
        (replicate (length key) 0) (length-replicate (length key) 0))
