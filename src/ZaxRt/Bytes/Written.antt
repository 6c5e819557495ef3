-- ===== src/ZaxRt/Bytes/Written.antt =====
-- What `rt_btos` of c/zax-inspector/ZaxInspector/ZaxRT.c writes.
use model_lib.Common.{ℕ, ◌/◌, ◌%◌, Bool, false, if◌then◌else◌, List, [], ◌∷◌, ◌++◌}
use model_lib.ZaxRt.{digit_char}

-- The text of a byte, and of several with spaces between them.
abbrev pub hex_pair : ℕ → List ℕ
hex_pair b = digit_char (b / 16) ∷ digit_char (b % 16) ∷ []

abbrev pub hex_text : Bool → List ℕ → List ℕ
hex_text first [] = []
hex_text first (b ∷ bs) = (if first then [] else 0x20 ∷ []) ++ (hex_pair b ++ hex_text false bs)

-- The text of one round.
abbrev chunk : Bool → ℕ → List ℕ
chunk first b = (if first then [] else 0x20 ∷ []) ++ hex_pair b
