-- ===== src/Zik/Idt/Offsets.antt =====
-- The addresses that `MAKELONG` of c/zax-inspector/zik/idt.c puts together.
use model_lib.Common.{
  ℕ, ◌+◌, ◌-◌, ◌*◌, ◌/◌, ◌%◌, ◌^◌, ◌<◌, bit_or, ◌≡◌, ltb, if◌then◌else◌, arith, Bool-cases, inl,
  inr,
}
use model_lib.Common.BitOr.{bit_or_high, zero-bit_or, ones-bit_or}
use model_lib.Zik.Status.{u32}
use model_lib.Zik.Idt.{widened, make_long}

high_half : (h : ℕ) → h < 2 ^ 16 → u32 (widened h * 2 ^ 16) ≡ h * 2 ^ 16
unfolding widened
high_half h small = elim (Bool-cases (ltb h (2 ^ 15))) [
  | inl e ↦ rw e (omega arith)
  | inr e ↦ rw e (omega arith)
]

split_or : (a h : ℕ) → bit_or a (h * 2 ^ 16) ≡ bit_or (a / 2 ^ 16) h * 2 ^ 16 + a % 2 ^ 16
split_or a h =
    let upper : h * 2 ^ 16 / 2 ^ 16 ≡ h = omega arith in
    rw upper at (bit_or_high 16 a (h * 2 ^ 16) (omega arith))

-- For halves of 16 bits: with a lower half below 0x8000 `MAKELONG` gives the address of which they
-- are the halves; with any other it gives an address whose upper half is 0xffff, whatever the upper
-- half is.
pub make_long_lem :
    (l h : ℕ)
    → l < 2 ^ 16
    → h < 2 ^ 16
    → make_long l h ≡ (if ltb l (2 ^ 15) then h * 2 ^ 16 + l else 0xffff * 2 ^ 16 + l)
unfolding make_long widened
make_long_lem l h low high = elim (Bool-cases (ltb l (2 ^ 15))) [
  | inl e ↦
      let none_above : l / 2 ^ 16 ≡ 0 = omega arith in
      let whole : l % 2 ^ 16 ≡ l = omega arith in
      let glued = rw (none_above, whole, zero-bit_or h) at (split_or l h) in
      rw e (rw (high_half h high) glued)
  | inr e ↦
      let ones : (l + 2 ^ 32 - 2 ^ 16) / 2 ^ 16 ≡ 2 ^ 16 - 1 = omega arith in
      let whole : (l + 2 ^ 32 - 2 ^ 16) % 2 ^ 16 ≡ l = omega arith in
      let glued = rw (ones, whole, ones-bit_or 16 h high) at (split_or (l + 2 ^ 32 - 2 ^ 16) h) in
      rw e (rw (high_half h high) glued)
]
