-- ===== src/Dotjson/Table/Probe.antt =====
-- The probe sequence of a table whose size is a power of two.
use native.Mathlib.Nat.{add-mod-mod, mod-eq_of_lt, mod-lt, add-mul-mod_self_left, div-add-mod}
use model_lib.Common.{ℕ, ◌+◌, ◌-◌, ◌*◌, ◌/◌, ◌%◌, ◌^◌, ◌<◌, ◌≤◌, ◌≡◌, sym, ap, subst, ◌∙◌, arith}
use model_lib.Common.Bits.{bit_and-mask, pow_pos}
use model_lib.Dotjson.Table.{probe, size_of}

pub probe_lem :
    (k h i : ℕ) → 2 ^ k ≤ 2 ^ 32 → h < 2 ^ 32 → i < 2 ^ 32 → probe (2 ^ k) h i ≡ (h + i) % 2 ^ k
unfolding probe
probe_lem k h i small lt li =
    let mask : size_of (2 ^ k + 2 ^ 64 - 1) ≡ 2 ^ k - 1 = omega (arith, pow_pos k) in
    let sum : size_of (h + i) ≡ h + i = omega arith in rw (mask, sum) (bit_and-mask k (h + i))

round_trip : (h j c : ℕ) → j < c → (h + (j + (c - h % c)) % c) % c ≡ j
round_trip h j c lt =
    let low = mod-lt h {m = c} (omega arith) in
    let sum : h + (j + (c - h % c)) ≡ j + c * (h / c + 1) = omega (arith, div-add-mod h c) in
    add-mod-mod h (j + (c - h % c)) c
    ∙ ap (λ x. x % c) sum
    ∙ add-mul-mod_self_left j c (h / c + 1)
    ∙ mod-eq_of_lt lt

-- The capacity of a table: a power of two, at most 2 ^ 32.
pub record IsCapacity (cap : ℕ) : Type 0 where
  pub bits : ℕ
  pub power : cap ≡ 2 ^ bits
  pub small : cap ≤ 2 ^ 32

probe-lt_power : (k h i : ℕ) → 2 ^ k ≤ 2 ^ 32 → h < 2 ^ 32 → i < 2 ^ 32 → probe (2 ^ k) h i < 2 ^ k
probe-lt_power k h i small lt li = rw (probe_lem k h i small lt li) (mod-lt (h + i) (pow_pos k))

probe_onto_power :
    (k h j : ℕ)
    → 2 ^ k ≤ 2 ^ 32
    → h < 2 ^ 32
    → j < 2 ^ k
    → (i : ℕ) × (i < 2 ^ k) × (probe (2 ^ k) h i ≡ j)
probe_onto_power k h j small lt lj = (
  (j + (2 ^ k - h % 2 ^ k)) % 2 ^ k,
  mod-lt _ (pow_pos k),
  probe_lem k h ((j + (2 ^ k - h % 2 ^ k)) % 2 ^ k) small lt
        (omega (arith, mod-lt (j + (2 ^ k - h % 2 ^ k)) (pow_pos k)))
      ∙ round_trip h j (2 ^ k) lj,
)

module _ {cap : ℕ} (c : IsCapacity cap) where
  pub capacity_pos : 0 < cap
  capacity_pos = omega (arith, c.power, pow_pos c.bits)

  pub probe-lt : (h i : ℕ) → h < 2 ^ 32 → i < cap → probe cap h i < cap
  probe-lt h i lt li =
      subst (λ n. probe n h i < n) (sym c.power)
        (probe-lt_power c.bits h i (omega (arith, c.power, c.small)) lt (omega (arith, c.small)))

  -- The round in which slot `j` is probed.
  pub probe_onto : (h j : ℕ) → h < 2 ^ 32 → j < cap → (i : ℕ) × (i < cap) × (probe cap h i ≡ j)
  probe_onto h j lt lj =
      subst (λ n. (i : ℕ) × (i < n) × (probe n h i ≡ j)) (sym c.power)
        (probe_onto_power c.bits h j (omega (arith, c.power, c.small)) lt (omega (arith, c.power)))
