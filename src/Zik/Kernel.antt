-- ===== src/Zik/Kernel.antt =====
-- c/zax-inspector/zik/kernel.c: `EnumKernel` compares the first bytes of each service with those of a
-- plain function entry.
use model_lib.Common.{
  ℕ, zero, suc, ◌+◌, List, [], ◌∷◌, Bool, true, false, ◌&&◌, ◌==◌, if◌then◌else◌, Option, none,
  some,
}
use model_lib.Zik.Status.{Status, unsuccessful, nt_success}

-- `struct _KERNEL_ITEM` and `KERNEL_INFO`
pub record KernelItem : Type 0 where
  pub address : ℕ
  pub length : ℕ
  pub cur_bytes : List ℕ
  pub orig_bytes : List ℕ

pub record KernelInfo : Type 0 where
  pub count : ℕ
  pub item : ℕ → KernelItem

-- `OrigData`: mov edi, edi; push ebp; mov ebp, esp.
abbrev pub orig_data : List ℕ
orig_data = 0x8b ∷ 0xff ∷ 0x55 ∷ 0x8b ∷ 0xec ∷ []

-- The five bytes from an address on.
abbrev pub cur_data : (ℕ → ℕ) → ℕ → List ℕ
cur_data byte a = byte a ∷ byte (a + 1) ∷ byte (a + 2) ∷ byte (a + 3) ∷ byte (a + 4) ∷ []

abbrev pub same_bytes : List ℕ → List ℕ → Bool
same_bytes [] [] = true
same_bytes (a ∷ as') (b ∷ bs) = a == b && same_bytes as' bs
same_bytes _ _ = false

-- One round, for the service at address `a`.
abbrev pub kernel_item : (ℕ → ℕ) → ℕ → ℕ → KernelInfo → KernelInfo
kernel_item byte i a info = if same_bytes (cur_data byte a) orig_data then info else record info {
  count = info.count + 1;
  item = λ j.
      if j == i
      then record { address = a; length = 5; cur_bytes = cur_data byte a; orig_bytes = orig_data }
      else info.item j;
}

unfoldable pub kernel_loop : (ℕ → ℕ) → (ℕ → ℕ) → ℕ → ℕ → KernelInfo → KernelInfo
kernel_loop byte table zero i info = info
kernel_loop byte table (suc rounds) i info =
    kernel_loop byte table rounds (i + 1) (kernel_item byte i (table i) info)

-- The caller's buffer with the count reset and the rounds made, if there is one.
abbrev pub fill_info : (ℕ → ℕ) → (ℕ → ℕ) → ℕ → Option KernelInfo → Option KernelInfo
fill_info byte table limit none = none
fill_info byte table limit (some info) =
    some (kernel_loop byte table limit 0 (record info { count = 0 }))

-- `EnumKernel`: `status` is set to an error and tested with no call in between. The write protection
-- is switched off and on again for a restoration, which restores nothing.
unfoldable pub enum_kernel :
    (restore : Bool)
    → (byte table : ℕ → ℕ) → (limit : ℕ) → Option KernelInfo
    → Bool
    → Status × Option KernelInfo × Bool
enum_kernel restore byte table limit info write_protect =
    let status = unsuccessful in
    if nt_success status
    then (status, fill_info byte table limit info, if restore then true else write_protect)
    else (status, info, write_protect)
