-- ===== src/Dotjson/Escape.antt =====
-- `unescape_str` of c/dotjson/dotjson.c: the text of a JSON string, measured or stored.
pub mod Values
pub mod Pieces
pub mod Buffer
pub mod Measure
use model_lib.Common.{
  ℕ, zero, suc, ◌+◌, ◌*◌, bit_and, bit_or, [], ◌∷◌, true, false, ◌&&◌, ◌||◌, ◌==◌, leb,
  if◌then◌else◌, Option, none, some, length, set,
}
use model_lib.Dotjson.Text.{Bytes, peek, next, quote, backslash, slash}
use model_lib.Dotjson.Utf8.{uc_2_utf8}

-- The value of `c` as a digit of `\uXXXX`; `none` where the source returns 0.
unfoldable pub hex_digit : ℕ → Option ℕ
hex_digit c =
    if leb 0x30 c && leb c 0x39
    then some (bit_and c 0x0f)
    else if leb 0x41 c && leb c 0x46 || leb 0x61 c && leb c 0x66
    then some (bit_and c 0x0f + 9)
    else none

-- The loop over `i` from 1 to 4, for the rounds that are left: `uc <<= 4; uc |= digit`.
unfoldable pub read_hex : ℕ → Bytes → ℕ → Option ℕ
read_hex zero p uc = some uc
read_hex (suc k) p uc = elim (hex_digit (peek p)) [
  | none ↦ none
  | some d ↦ read_hex k (next p) (bit_or (uc * 16) d)
]

-- What a two-character escape stands for.
unfoldable pub escaped_char : ℕ → Option ℕ
escaped_char c =
    if c == quote
    then some quote
    else if c == backslash
    then some backslash
    else if c == slash
    then some slash
    else if c == 0x62
    then some 0x08
    else if c == 0x66
    then some 0x0c
    else if c == 0x6e
    then some 0x0a
    else if c == 0x72
    then some 0x0d
    else if c == 0x74
    then some 0x09
    else none

-- One round of the loop: the bytes to store and the next `p`, or a `return 0`.
pub data Round : Type 0 where
  emit : Bytes → Bytes → Round
  bad : Round

unfoldable pub unescape_char : Bytes → Round
unescape_char [] = bad
unescape_char (c ∷ p) =
    if c == 0
    then bad
    else if c == backslash
    then (if peek p == 0x75
        then elim (read_hex 4 (next p) 0) [
          | none ↦ bad
          | some uc ↦ emit (uc_2_utf8 uc) (next (next (next (next (next p)))))
        ]
        else elim (escaped_char (peek p)) [ none ↦ bad | some e ↦ emit (e ∷ []) (next p) ])
    else emit (c ∷ []) p

-- `bytes` stored from `buf[n]` on.
unfoldable pub store : Bytes → ℕ → Bytes → Bytes
store buf n [] = buf
store buf n (c ∷ cs) = store (set buf n c) (suc n) cs

-- `closed`: the value that `*len` gets, the buffer, and the pointer behind the closing quote.
pub data Unescaped : Type 0 where
  closed : ℕ → Bytes → Bytes → Unescaped
  bad : Unescaped
  out_of_fuel : Unescaped

-- The loop, with `l` bytes of room in `buf`. Bytes that do not all fit are counted and not stored.
unfoldable pub unescape_loop : ℕ → ℕ → Bytes → ℕ → Bytes → Unescaped
unescape_loop zero l p n buf = out_of_fuel
unescape_loop (suc f) l p n buf = elim (peek p == quote) [
  | true ↦ closed n buf (next p)
  | false ↦ elim (unescape_char p) [
    | bad ↦ bad
    | emit bytes rest ↦
        unescape_loop f l rest (n + length bytes)
          (if leb (n + length bytes) l then store buf n bytes else buf)
  ]
]

-- `unescape_str(s, buf, &l)`; with no buffer, `l` is 0.
unfoldable pub unescape_str : Bytes → ℕ → Bytes → Unescaped
unescape_str s l buf =
    if peek s == quote then unescape_loop (suc (length s)) l (next s) 0 buf else bad
