-- ===== src/ZaxRt.antt =====
-- c/zax-inspector/ZaxInspector/ZaxRT.c: numbers as texts, `rt_dwtos` and `rt_stodw`; `rt_btos` stands in Bytes. A text is the
-- list of its characters up to the NUL.
pub mod RoundTrip
pub mod Bytes
mod Examples
use model_lib.Common.{
  ℕ, zero, suc, ◌+◌, ◌-◌, ◌*◌, ◌/◌, ◌%◌, ◌^◌, List, [], ◌∷◌, ◌++◌, Bool, true, false, ◌==◌, ltb,
  leb, ◌||◌, ◌&&◌, if◌then◌else◌, Option, none, some, length, replicate, drop,
}

-- `DWORD`
abbrev pub u32 : ℕ → ℕ
u32 n = n % 2 ^ 32

abbrev pub digit_char : ℕ → ℕ
digit_char d = d + (if leb 10 d then 0x41 - 10 else 0x30)

-- `while(dwNumber > 0)`: what it stores into `szTemp`, the last digit first. A number below
-- 10 ^ 10 has ten digits at most.
unfoldable pub temp_digits : ℕ → ℕ → ℕ → List ℕ
temp_digits zero n radix = []
temp_digits (suc f) n radix =
    let rest = temp_digits f (n / radix) radix in
    if n == 0 then [] else digit_char (n % radix) ∷ rest

-- `szTemp[0 .. i)` before the zeros are filled in.
unfoldable pub temp_text : ℕ → ℕ → List ℕ
temp_text n radix = if n == 0 then 0x30 ∷ [] else temp_digits 10 n radix

-- `while(i > 0) szOutText[nLength++] = szTemp[--i];`
unfoldable pub reversed : List ℕ → List ℕ
reversed [] = []
reversed (c ∷ cs) = reversed cs ++ c ∷ []

-- `rt_dwtos`: the text put out, whose length is returned; `none` if it writes behind `szTemp[16]`.
unfoldable pub rt_dwtos : ℕ → ℕ → ℕ → ℕ → Option (List ℕ)
rt_dwtos n radix fill out_length =
    if ltb radix 10 || ltb 16 radix || leb out_length fill
    then some []
    else let digits = temp_text n radix in
      let temp = digits ++ replicate (fill - length digits) 0x30 in
      if ltb 16 (length temp)
      then none
      else if ltb (length temp) out_length
      then some (reversed temp)
      else some []

-- What a character adds; `none` at an invalid one. A letter adds its place in the alphabet.
unfoldable pub char_value : Bool → ℕ → Option ℕ
char_value is_hex c =
    if leb 0x30 c && leb c 0x39
    then some (c - 0x30)
    else if is_hex
    then (if leb 0x41 c && leb c 0x5a
        then some (c - 0x41)
        else if leb 0x61 c && leb c 0x7a
        then some (c - 0x61)
        else none)
    else none

-- `while(szNumber[nLength])`: the number and the characters that are left.
unfoldable pub stodw_loop : Bool → ℕ → ℕ → List ℕ → ℕ × List ℕ
stodw_loop is_hex radix acc [] = (acc, [])
stodw_loop is_hex radix acc (c ∷ s) = elim (char_value is_hex c) [
  | none ↦ (u32 (acc * radix), c ∷ s)
  | some v ↦ stodw_loop is_hex radix (u32 (u32 (acc * radix) + v)) s
]

-- `szNumber[0] == '0' && szNumber[1] == 'x'`
abbrev pub has_hex_mark : List ℕ → Bool
has_hex_mark [] = false
has_hex_mark (a ∷ []) = false
has_hex_mark (a ∷ b ∷ s) = a == 0x30 && b == 0x78

-- `rt_stodw`: what is stored at `pdwOut`, nothing if no character was read, and the rest; the source
-- returns the length of what was read.
unfoldable pub rt_stodw : List ℕ → Option ℕ × List ℕ
rt_stodw s =
    let r = if has_hex_mark s then stodw_loop true 16 0 (drop 2 s) else stodw_loop false 10 0 s in
    (if ltb 0 (length s - length r.1) then some r.0 else none, r.1)
