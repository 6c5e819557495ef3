-- ===== src/Common/BitOr.antt =====
-- `bit_or` at numbers that share no digit, and at numbers of ones.
use Prim.Native.Nat.{
  ℕ, zero, suc, ◌+◌, ◌-◌, ◌*◌, ◌/◌, ◌%◌, ◌^◌, ◌≤◌, ◌<◌, max, bit_or, digits, bit_or-bitwise,
}
use mathlib.Core.Path.{◌≡◌, refl, sym, ap, ◌∙◌}
use native.Mathlib.Omega.{arith}
use native.Mathlib.Nat.{pow-suc}
use model_lib.Common.Bits.{pow_pos, mod-double}

abbrev or_digits : ℕ → ℕ → ℕ → ℕ
or_digits n a b = digits (λ y. y) max n a b

-- Digits to spare change nothing.
spare_digit : (n a b : ℕ) → a ≤ n → or_digits (suc n) a b ≡ or_digits n a b
spare_digit zero zero b le = refl
spare_digit (suc n) zero b le = refl
spare_digit zero (suc a) b le = absurd (omega arith)
spare_digit (suc n) (suc a) b le =
    ap (λ r. r * 2 + max (suc a % 2) (b % 2)) (spare_digit n (suc a / 2) (b / 2) (omega arith))

spare_digits : (d a b : ℕ) → or_digits (d + a) a b ≡ bit_or a b
spare_digits zero a b =
    let none_left : 0 + a ≡ a = omega arith in
    ap (λ k. or_digits k a b) none_left ∙ sym (bit_or-bitwise a b)
spare_digits (suc d) a b =
    let one_more : suc d + a ≡ suc (d + a) = omega arith in
    ap (λ k. or_digits k a b) one_more ∙ spare_digit (d + a) a b (omega arith) ∙ spare_digits d a b

bit_or_halves : (a b : ℕ) → bit_or a b ≡ bit_or (a / 2) (b / 2) * 2 + max (a % 2) (b % 2)
bit_or_halves zero b = omega (arith, bit_or-bitwise 0 b, bit_or-bitwise 0 (b / 2))
bit_or_halves (suc a) b =
    let half = suc a / 2 in
    let fuel : (a - half) + half ≡ a = omega arith in
    bit_or-bitwise (suc a) b
    ∙ ap (λ r. r * 2 + max (suc a % 2) (b % 2))
        (ap (λ k. or_digits k half (b / 2)) (sym fuel) ∙ spare_digits (a - half) half (b / 2))

pub zero-bit_or : (b : ℕ) → bit_or 0 b ≡ b
zero-bit_or b = bit_or-bitwise 0 b

div-double : (a p : ℕ) → 0 < p → a / (2 * p) ≡ a / 2 / p
div-double a p h = grind arith

-- Where the `k` lowest digits of `b` are 0, those of `a` stay.
pub bit_or_high :
    (k a b : ℕ) → b % 2 ^ k ≡ 0 → bit_or a b ≡ bit_or (a / 2 ^ k) (b / 2 ^ k) * 2 ^ k + a % 2 ^ k
bit_or_high zero a b h =
    let x : a / 2 ^ 0 ≡ a = omega arith in
    let y : b / 2 ^ 0 ≡ b = omega arith in rw (x, y) (omega arith)
bit_or_high (suc k) a b h =
    let p : ℕ = 2 ^ k in
    let twice : 2 ^ suc k ≡ 2 * p = omega (arith, pow-suc 2 k) in
    let low : b / 2 % p * 2 + b % 2 ≡ 0 = sym (mod-double b p (pow_pos k)) ∙ rw twice at h in
    let high = bit_or_high k (a / 2) (b / 2) (omega (arith, low)) in
    let r : ℕ = bit_or (a / 2 / p) (b / 2 / p) in
    let regroup : r * (2 * p) ≡ r * p * 2 = grind arith in
    rw (twice, div-double a p (pow_pos k), div-double b p (pow_pos k), mod-double a p (pow_pos k))
      (omega (arith, bit_or_halves a b, high, low, regroup))

-- Ones swallow all below them.
pub ones-bit_or : (k h : ℕ) → h < 2 ^ k → bit_or (2 ^ k - 1) h ≡ 2 ^ k - 1
ones-bit_or zero h lt = omega (arith, zero-bit_or h)
ones-bit_or (suc k) h lt =
    let half : (2 ^ suc k - 1) / 2 ≡ 2 ^ k - 1 = omega (arith, pow-suc 2 k, pow_pos k) in
    omega (
      arith,
      pow-suc 2 k,
      pow_pos k,
      rw half at (bit_or_halves (2 ^ suc k - 1) h),
      ones-bit_or k (h / 2) (omega (arith, pow-suc 2 k)),
    )

below_pow : (a : ℕ) → a < 2 ^ a
below_pow zero = omega arith
below_pow (suc a) = omega (arith, pow-suc 2 a, below_pow a)

bit_or_zero : (a : ℕ) → bit_or a 0 ≡ a
bit_or_zero a =
    let top : a / 2 ^ a ≡ 0 = grind (arith, below_pow a) in
    let all : a % 2 ^ a ≡ a = grind (arith, below_pow a) in
    let none_left : 0 / 2 ^ a ≡ 0 = grind (arith, pow_pos a) in
    let no_rest : 0 % 2 ^ a ≡ 0 = grind (arith, pow_pos a) in
    bit_or_high a a 0 no_rest ∙ rw (top, none_left, all) (omega arith)

double_product : (a x : ℕ) → a * (x * 2) ≡ a * x * 2
double_product a x = grind arith

-- Behind a number that is moved up by `k` digits there is room for one of `k` digits.
pub bit_or_low : (k a b : ℕ) → b < 2 ^ k → bit_or (a * 2 ^ k) b ≡ a * 2 ^ k + b
bit_or_low zero a b lt =
    let e : b ≡ 0 = omega arith in
    let f : a * 2 ^ 0 ≡ a = omega arith in rw (e, f) (bit_or_zero a ∙ omega arith)
bit_or_low (suc k) a b lt =
    let p = pow-suc 2 k in
    let twice : a * 2 ^ suc k ≡ a * 2 ^ k * 2 = ap (λ x. a * x) p ∙ double_product a (2 ^ k) in
    let half : a * 2 ^ k * 2 / 2 ≡ a * 2 ^ k = omega arith in
    let even : a * 2 ^ k * 2 % 2 ≡ 0 = omega arith in
    rw twice (
      bit_or_halves (a * 2 ^ k * 2) b
      ∙ rw (half, even, bit_or_low k a (b / 2) (omega (arith, p))) (omega arith))
