-- ===== src/Dotjson/Text.antt =====
-- C strings of c/dotjson/dotjson.c, and the characters that `IGNORE_CHARS` passes over.
pub mod Skip
use model_lib.Common.{
  ℕ, zero, suc, List, [], ◌∷◌, Bool, true, false, ◌==◌, if◌then◌else◌, ◌||◌, length,
}

-- A pointer into a C string, as the bytes from it up to the terminator.
abbrev pub Bytes : Type 0
Bytes = List ℕ

-- `*p`
abbrev pub peek : Bytes → ℕ
peek [] = 0
peek (c ∷ p) = c

-- `p + 1`
abbrev pub next : Bytes → Bytes
next [] = []
next (c ∷ p) = p

-- A buffer read as a C string: the bytes before its first NUL.
unfoldable pub until_nul : Bytes → Bytes
until_nul [] = []
until_nul (c ∷ s) = let rest = c ∷ until_nul s in if c == 0 then [] else rest

abbrev pub quote : ℕ
quote = 0x22

abbrev pub backslash : ℕ
backslash = 0x5c

abbrev pub slash : ℕ
slash = 0x2f

unfoldable pub is_space : ℕ → Bool
is_space c = c == 0x20 || c == 0x09 || c == 0x0a || c == 0x0d

-- `IGNORE_SPACE(p)`
unfoldable pub ignore_space : Bytes → Bytes
unfolding is_space
ignore_space [] = []
ignore_space (c ∷ p) = let rest = ignore_space p in if is_space c then rest else c ∷ p

-- Behind `//`: `while (*p) { if (*p++ == '\n') break; }`
unfoldable pub skip_line : Bytes → Bytes
skip_line [] = []
skip_line (c ∷ p) =
    let rest = skip_line p in if c == 0 then c ∷ p else if c == 0x0a then p else rest

-- Behind `/*`: up to and past the first `*/`.
unfoldable pub skip_block : Bytes → Bytes
skip_block [] = []
skip_block (c ∷ p) =
    let rest = skip_block p in
    if c == 0 then c ∷ p else if c == 0x2a then (if peek p == slash then next p else rest) else rest

-- `ignore_chars`, which DOTJSON_FEATURE_COMMENT selects. Each round of its `goto` costs a unit of
-- fuel, and each passes at least two bytes, so the length of the text is enough.
unfoldable pub ignore_rounds : ℕ → Bytes → Bytes
unfolding ignore_space skip_line skip_block
ignore_rounds zero p = p
ignore_rounds (suc f) s =
    let p = ignore_space s in
    let line = ignore_rounds f (skip_line p) in
    let block = ignore_rounds f (skip_block (next (next p))) in
    if peek p == slash
    then (if peek (next p) == slash then line else if peek (next p) == 0x2a then block else p)
    else p

-- `IGNORE_CHARS(p)`, with the comment feature or without.
unfoldable pub ignore : Bool → Bytes → Bytes
unfolding ignore_rounds
ignore true p = ignore_rounds (suc (length p)) p
ignore false p = ignore_space p
