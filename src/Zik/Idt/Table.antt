-- ===== src/Zik/Idt/Table.antt =====
-- What `EnumIDT` writes.
use model_lib.Common.{
  ℕ, zero, suc, ◌+◌, ◌*◌, ◌≤◌, ◌≡◌, refl, Bool, true, false, ◌==◌, ltb, leb, ◌&&◌, if◌then◌else◌,
  arith,
}
use model_lib.Zik.Status.{success, unsuccessful}
use model_lib.Zik.Idt.{IdtEntry, IdtInfo, info_of, idt_loop, idt_rounds, probed_bytes, enum_idt}

idt_loop_lem :
    (entry : ℕ → IdtEntry) (rounds i : ℕ) (info : ℕ → IdtInfo) (j : ℕ)
    → idt_loop entry rounds i info j
      ≡ (if leb i j && ltb j (i + rounds) then info_of (entry j) else info j)
unfolding idt_loop
idt_loop_lem entry zero i info j = ground arith
idt_loop_lem entry (suc rounds) i info j =
    ground (
      arith,
      idt_loop_lem entry rounds (i + 1) (λ k. if k == i then info_of (entry i) else info k) j,
    )

-- The size of an `IDT_INFO`, four fields of 32 bits.
abbrev info_bytes : ℕ
info_bytes = 16

-- Where the buffer passes its probe, `EnumIDT` succeeds and describes the 2047 entries from the base
-- of the table on, and what it writes lies in the bytes that were probed; where it does not, it fails
-- and writes nothing.
pub enum_idt_lem :
    (probe : Bool) (entry : ℕ → IdtEntry) (info : ℕ → IdtInfo)
    → ((enum_idt probe entry info).0 ≡ (if probe then success else unsuccessful))
      × ((j : ℕ)
          → (enum_idt probe entry info).1 j
            ≡ (if probe && ltb j idt_rounds then info_of (entry j) else info j))
      × (idt_rounds * info_bytes ≤ probed_bytes)
unfolding enum_idt
enum_idt_lem true entry info =
    (refl, λ j. ground (arith, idt_loop_lem entry idt_rounds 0 info j), omega arith)
enum_idt_lem false entry info = (refl, λ j. refl, omega arith)
