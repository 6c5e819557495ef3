-- ===== src/Dotjson/Quoted.antt =====
-- String nodes: `decode_string` and `encode_string` of c/dotjson/dotjson.c.
pub mod Written
pub mod RoundTrip
use model_lib.Common.{ℕ, [], ◌∷◌, Bool, ◌==◌, if◌then◌else◌, Option, none, some, replicate}
use model_lib.Common.Memory.{Memory, Out, put}
use model_lib.Dotjson.Text.{Bytes, quote, backslash, slash, ignore}
use model_lib.Dotjson.Escape.{Unescaped, closed, bad, out_of_fuel, unescape_str}
use model_lib.Dotjson.Node.{string, Decoded, ok, unset}

-- The second call of `unescape_str`, which fills `str->s`; were it to return 0, the pointer and
-- the blank text would stay.
unfoldable pub string_filled : Bytes → Bytes → Unescaped → Decoded
string_filled p blank (closed n buf rest) = ok (string buf) rest
string_filled p blank bad = ok (string blank) p
string_filled p blank out_of_fuel = Decoded.out_of_fuel

-- The first call, which measures. A fresh buffer is taken as zeros: the second call fills all of it.
unfoldable pub string_measured : Bytes → Bytes → Unescaped → Decoded
string_measured s p (closed len buf rest) =
    string_filled p (replicate len 0) (unescape_str p len (replicate len 0))
string_measured s p bad = unset s
string_measured s p out_of_fuel = Decoded.out_of_fuel

abbrev pub string_at : Bytes → Bytes → Decoded
string_at s p = string_measured s p (unescape_str p 0 [])

unfoldable pub decode_string : Bool → Bytes → Decoded
decode_string comments s = string_at s (ignore comments s)

-- The letter behind the backslash for a character that is escaped (`ec = 1`).
unfoldable pub escape_letter : ℕ → Option ℕ
escape_letter c =
    if c == quote
    then some quote
    else if c == backslash
    then some backslash
    else if c == slash
    then some slash
    else if c == 0x08
    then some 0x62
    else if c == 0x0c
    then some 0x66
    else if c == 0x0a
    then some 0x6e
    else if c == 0x0d
    then some 0x72
    else if c == 0x09
    then some 0x74
    else none

-- One round of the loop over `str->s`.
unfoldable pub encode_char : ℕ → ℕ → Option ℕ → ℕ → Out → Out
encode_char base len (some letter) c st = put base len letter (put base len backslash st)
encode_char base len none c st = put base len c st

-- `while (*p)`: the text ends at its first NUL.
unfoldable pub encode_chars : ℕ → ℕ → Bytes → Out → Out
encode_chars base len [] st = st
encode_chars base len (c ∷ p) st =
    let rest = encode_chars base len p (encode_char base len (escape_letter c) c st) in
    if c == 0 then st else rest

unfoldable pub encode_string : Bytes → ℕ → ℕ → Memory → Out
encode_string s base len mem =
    put base len quote (encode_chars base len s (put base len quote (0, mem)))
