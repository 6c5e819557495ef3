-- ===== src/Common/Bits.antt =====
-- Bit operations at masks of ones, and facts over a small range by evaluation.
use Prim.Native.Nat.{
  ℕ, zero, suc, ◌+◌, ◌-◌, ◌*◌, ◌/◌, ◌%◌, ◌^◌, ◌≤◌, ◌<◌, min, bit_and, digits, bit_and-bitwise,
}
use mathlib.Core.Path.{◌≡◌, ◌∙◌}
use mathlib.Core.Bool.{Bool, true, false}
use native.Mathlib.Omega.{arith}
use native.Mathlib.Nat.{pow-suc}
use model_lib.Common.Tests.{if◌then◌else◌}

-- `p` at every number short of `n`.
unfoldable pub checked : (ℕ → Bool) → ℕ → Bool
checked p zero = true
checked p (suc n) = let rest = checked p n in if p n then rest else false

pub checked_below : (p : ℕ → Bool) (n x : ℕ) → x < n → checked p n ≡ true → p x ≡ true
unfolding checked
checked_below p zero x below all = absurd (omega arith)
checked_below p (suc n) x below all = ground (arith, checked_below p n x)

pub pow_pos : (k : ℕ) → 0 < 2 ^ k
pow_pos zero = omega arith
pow_pos (suc k) = omega (arith, pow-suc 2 k, pow_pos k)

pub mod-double : (a p : ℕ) → 0 < p → a % (2 * p) ≡ a / 2 % p * 2 + a % 2
mod-double a p h = grind arith

-- A mask of `k` ones keeps the `k` lowest bits: on the digits that the native operation stands for.
mask_digits : (n k a : ℕ) → a ≤ n → digits (λ ones. zero) min n a (2 ^ k - 1) ≡ a % 2 ^ k
mask_digits zero k zero le = omega (arith, pow_pos k)
mask_digits zero k (suc a) le = absurd (omega arith)
mask_digits (suc n) k zero le = omega (arith, pow_pos k)
mask_digits (suc n) zero (suc a) le = omega (arith, mask_digits n zero (suc a / 2) (omega arith))
mask_digits (suc n) (suc k) (suc a) le =
    let half : (2 ^ suc k - 1) / 2 ≡ 2 ^ k - 1 = omega (arith, pow-suc 2 k) in
    let twice : 2 ^ suc k ≡ 2 * 2 ^ k = omega (arith, pow-suc 2 k) in
    rw half (
      omega (
        arith,
        twice,
        pow_pos k,
        mask_digits n k (suc a / 2) (omega arith),
        rw (← twice) at (mod-double (suc a) (2 ^ k) (pow_pos k)),
      ))

pub bit_and-mask : (k a : ℕ) → bit_and a (2 ^ k - 1) ≡ a % 2 ^ k
bit_and-mask k a = bit_and-bitwise a (2 ^ k - 1) ∙ mask_digits a k a (omega arith)
