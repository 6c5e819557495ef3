-- ===== src/Zik/Locate.antt =====
-- The searches of c/zax-inspector/zik/ssdt.c: `LocateSSDTShadowBase`, `LocateWin32kBase` and
-- `LocateNtKrnlBase`.
pub mod Shadow
use model_lib.Common.{
  ℕ, zero, suc, ◌+◌, List, [], ◌∷◌, ◌++◌, Bool, true, false, ◌&&◌, ◌||◌, not, ◌==◌, ltb,
  if◌then◌else◌, Option, none, some,
}
use model_lib.Zik.Status.{Status, info_length_mismatch, nt_success}

-- `SizeOfCode(cPtr, &pOpcode)`: the length of the instruction, 0 if there is none, and where its
-- opcode stands.
pub record Instruction : Type 0 where
  pub length : ℕ
  pub opcode : ℕ

-- The code that is searched: the disassembler, and the words in memory.
pub record Code : Type 0 where
  pub size_of_code : ℕ → Instruction
  pub word : ℕ → ℕ
  pub double_word : ℕ → ℕ

pub data Search : Type 0 where
  found : ℕ → Search
  not_found : Search
  out_of_fuel : Search

abbrev pub page_size : ℕ
page_size = 4096

-- The opcode and the first operand byte of `lea ecx, [eax + …]`, as a word.
abbrev pub lea_word : ℕ
lea_word = 0x888d

-- The loop while `cPtr` is short of `end`; each round costs a unit of fuel.
unfoldable pub shadow_loop : Code → ℕ → ℕ → ℕ → Search
shadow_loop code end zero p = out_of_fuel
shadow_loop code end (suc f) p = elim (ltb p end) [
  | false ↦ not_found
  | true ↦ elim ((code.size_of_code p).length == 0) [
    | true ↦ not_found
    | false ↦ elim (code.word p == lea_word) [
      | true ↦ found (code.double_word ((code.size_of_code p).opcode + 2))
      | false ↦ shadow_loop code end f (p + (code.size_of_code p).length)
    ]
  ]
]

-- `LocateSSDTShadowBase`, with `start` the address of `KeAddSystemServiceTable`.
unfoldable pub locate_ssdt_shadow_base : Code → ℕ → Search
locate_ssdt_shadow_base code start = shadow_loop code (start + page_size) (suc page_size) start

-- The fields of `LDR_DATA_TABLE_ENTRY` that are read; `none` is a NULL buffer.
pub record Module : Type 0 where
  pub entry_point : ℕ
  pub full_dll_name : Option (List ℕ)
  pub dll_base : ℕ

-- `Ldr->EntryPoint && Ldr->FullDllName.Buffer` and the comparison, by `_wcsicmp`, with the path of
-- win32k.
abbrev pub named_so : (List ℕ → Bool) → Option (List ℕ) → Bool
named_so is_win32k none = false
named_so is_win32k (some name) = is_win32k name

abbrev pub is_loaded_win32k : (List ℕ → Bool) → Module → Bool
is_loaded_win32k is_win32k m = not (m.entry_point == 0) && named_so is_win32k m.full_dll_name

-- `LocateWin32kBase`: one turn round the ring of modules; `base` is what `pWin32kBase` was.
unfoldable pub locate_win32k_base : (List ℕ → Bool) → List Module → ℕ → ℕ
locate_win32k_base is_win32k [] base = base
locate_win32k_base is_win32k (m ∷ ms) base =
    let rest = locate_win32k_base is_win32k ms base in
    if is_loaded_win32k is_win32k m then m.dll_base else rest

-- `LocateNtKrnlBase`: with `status` from the query, the base and the offset file name of the first
-- module; NULL and no name if the query has succeeded with another status than the one tested.
unfoldable pub locate_nt_krnl_base :
    Status → (mismatch : Bool) → (base : ℕ) → (directory file_name : List ℕ) → ℕ × List ℕ
locate_nt_krnl_base status mismatch base directory file_name =
    if not (nt_success status) || mismatch then (base, directory ++ file_name) else (0, [])
