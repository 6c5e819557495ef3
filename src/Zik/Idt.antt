-- ===== src/Zik/Idt.antt =====
-- c/zax-inspector/zik/idt.c: `EnumIDT` reports the interrupt descriptor table.
pub mod Offsets
pub mod Table
use model_lib.Common.{
  ℕ, zero, suc, ◌+◌, ◌-◌, ◌*◌, ◌%◌, ◌^◌, bit_or, Bool, true, false, ltb, ◌==◌, if◌then◌else◌,
  Option,
}
use model_lib.Zik.Status.{Status, success, unsuccessful, u32}

-- `IDTENTRY` and `IDT_INFO`
pub record IdtEntry : Type 0 where
  pub low_offset : ℕ
  pub selector : ℕ
  pub segment_type : ℕ
  pub dpl : ℕ
  pub hi_offset : ℕ

pub record IdtInfo : Type 0 where
  pub type : ℕ
  pub selector : ℕ
  pub offset : ℕ
  pub dpl : ℕ

-- `(LONG)(SHORT)(x)`: the bits of a 16-bit number widened with its sign.
unfoldable pub widened : ℕ → ℕ
widened x = if ltb x (2 ^ 15) then x else x + 2 ^ 32 - 2 ^ 16

-- `MAKELONG(l, h)`, as the bits of a 32-bit number.
unfoldable pub make_long : ℕ → ℕ → ℕ
make_long l h = bit_or (widened l) (u32 (widened h * 2 ^ 16))

abbrev pub info_of : IdtEntry → IdtInfo
info_of e = record {
  type = e.segment_type;
  selector = e.selector;
  offset = make_long e.low_offset e.hi_offset;
  dpl = e.dpl;
}

-- The loop from `i` on, for the rounds that are left.
unfoldable pub idt_loop : (ℕ → IdtEntry) → ℕ → ℕ → (ℕ → IdtInfo) → ℕ → IdtInfo
idt_loop entry zero i info = info
idt_loop entry (suc rounds) i info =
    idt_loop entry rounds (i + 1) (λ j. if j == i then info_of (entry i) else info j)

abbrev pub idt_rounds : ℕ
idt_rounds = 0x7ff

-- The bytes that `ProbeForWrite` asks for.
abbrev pub probed_bytes : ℕ
probed_bytes = 0x20000

-- `EnumIDT`: `probe` is whether `ProbeForWrite` passes; `entry i` is what stands `i` entries behind
-- the base of the table.
unfoldable pub enum_idt : (probe : Bool) → (ℕ → IdtEntry) → (ℕ → IdtInfo) → Status × (ℕ → IdtInfo)
enum_idt probe entry info =
    if probe then (success, idt_loop entry idt_rounds 0 info) else (unsuccessful, info)
