-- ===== src/Zik/Image.antt =====
-- `RVAToRaw` of c/zax-inspector/zik/ssdt.c: the place in an image's file of an address in memory.
pub mod Visits
use model_lib.Common.{
  ℕ, zero, suc, ◌+◌, ◌-◌, ◌%◌, ◌^◌, Bool, true, false, ◌&&◌, ◌==◌, ltb, if◌then◌else◌, Option, none,
  some,
}
use model_lib.Zik.Status.{u32, sub32}

-- The fields of `IMAGE_SECTION_HEADER` that are read.
pub record Section : Type 0 where
  pub virtual_address : ℕ
  pub size_of_raw_data : ℕ
  pub pointer_to_raw_data : ℕ

-- An image in memory at `base`. `section i` is what stands `i` headers behind the first one, whether
-- that is a header of the table or not.
pub record Image : Type 0 where
  pub base : ℕ
  pub e_magic : ℕ
  pub number_of_sections : ℕ
  pub section : ℕ → Section
  pub image_base : ℕ

-- `IMAGE_DOS_SIGNATURE`, "MZ"
abbrev pub image_dos_signature : ℕ
image_dos_signature = 0x5a4d

-- The test on one section.
unfoldable pub holds_address : ℕ → Section → Bool
holds_address a s = ltb s.virtual_address a && ltb a (u32 (s.virtual_address + s.size_of_raw_data))

-- `ulAddress - pSection->VirtualAddress + pSection->PointerToRawData`
unfoldable pub raw_of : ℕ → Section → ℕ
raw_of a s = u32 (sub32 a s.virtual_address + s.pointer_to_raw_data)

-- The loop from round `i` on, for the rounds that are left; `at` is where `pSection` stands, and it
-- moves on by `i` headers.
unfoldable pub section_loop : Image → ℕ → ℕ → ℕ → ℕ → ℕ
section_loop img a zero i at = 0
section_loop img a (suc rounds) i at = elim (holds_address a (img.section (at + i))) [
  | true ↦ raw_of a (img.section (at + i))
  | false ↦ section_loop img a rounds (i + 1) (at + i)
]

unfoldable pub rva_to_raw : Image → ℕ → ℕ
rva_to_raw img address =
    if img.e_magic == image_dos_signature
    then section_loop img (sub32 address img.base) img.number_of_sections 0 0
    else 0
