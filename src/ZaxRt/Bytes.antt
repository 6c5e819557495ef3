-- ===== src/ZaxRt/Bytes.antt =====
-- `rt_btos` of c/zax-inspector/ZaxInspector/ZaxRT.c: bytes as a text of hexadecimal numbers.
pub mod Written
use model_lib.Common.{
  ℕ, zero, suc, ◌+◌, ◌-◌, ◌*◌, ◌/◌, ◌%◌, ◌^◌, ◌==◌, ◌≡◌, ◌≤◌, ◌<◌, refl, sym, ap, ap₂, ◌∙◌, Bool,
  Bool-cases, inl, inr, true, false, leb, ltb, if◌then◌else◌, Option, none, some, List, [], ◌∷◌,
  ◌++◌, length, set, All, append-nil, append_assoc, length-append, length-set, ◌>>=◌, ==→eq, arith,
}
use model_lib.ZaxRt.{u32, digit_char, rt_dwtos, temp_text, temp_digits, reversed}

-- `szText[n] = c`, with the buffer as a list; `none` is a write behind it.
abbrev pub put : List ℕ → ℕ → ℕ → Option (List ℕ)
put buf n c = if ltb n (length buf) then some (set buf n c) else none

abbrev pub put_text : List ℕ → ℕ → List ℕ → Option (List ℕ)
put_text buf n [] = put buf n 0
put_text buf n (c ∷ cs) = do buf' ← put buf n c; put_text buf' (suc n) cs

-- What `rt_dwtos` stores: its text and a NUL, unless the text is empty.
abbrev pub put_number : List ℕ → ℕ → List ℕ → Option (List ℕ)
put_number buf n [] = some buf
put_number buf n (c ∷ cs) = put_text buf n (c ∷ cs)

-- The space in front of all bytes but the first.
abbrev pub put_space : Bool → List ℕ → ℕ → Option (ℕ × List ℕ)
put_space true buf n = some (n, buf)
put_space false buf n = do buf' ← put buf n 0x20; some (suc n, buf')

-- A DWORD that is passed as an `int`: a negative one is below every fill, as 0 is.
abbrev pub int_of : ℕ → ℕ
int_of x = if ltb x (2 ^ 31) then x else 0

-- The number of one byte, at `nLength`; the length of the buffer is `dwLength`, and the difference is
-- one of DWORDs.
unfoldable pub put_pair : ℕ → ℕ → List ℕ → Option (ℕ × List ℕ)
put_pair b n buf = do
  text ← rt_dwtos b 16 2 (int_of (length buf - n))
  buf' ← put_number buf n text
  some (n + 2, buf')

-- One round, where `first` is `i == 0`.
unfoldable pub put_byte : Bool → ℕ → ℕ → List ℕ → Option (ℕ × List ℕ)
put_byte first b n buf = do s ← put_space first buf n; put_pair b s.0 s.1

-- `for (i = 0; i < dwBytes; i++)`
unfoldable pub btos_loop : Bool → List ℕ → ℕ → List ℕ → Option (ℕ × List ℕ)
btos_loop first [] n buf = some (n, buf)
btos_loop first (b ∷ bs) n buf =
    let rest = put_byte first b n buf >>= (λ s. btos_loop false bs s.0 s.1) in
    if leb (length buf) n then some (u32 (length buf + 2 ^ 32 - 1), buf) else rest

-- `rt_btos`: its result and the buffer behind it.
unfoldable pub rt_btos : List ℕ → List ℕ → Option (ℕ × List ℕ)
rt_btos bytes buf = do s ← btos_loop true bytes 0 buf; buf' ← put s.1 s.0 0; some (s.0, buf')
