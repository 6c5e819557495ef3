-- ===== src/Zik/Status.antt =====
-- Status codes of the system, as c/zax-inspector/zik uses them, and addresses of 32 bits.
use model_lib.Common.{ℕ, ◌+◌, ◌-◌, ◌%◌, ◌^◌, Bool, true, false}

-- The codes that the driver names, and any other that a call returns.
pub data Status : Type 0 where
  success : Status
  unsuccessful : Status
  invalid_device_request : Status
  info_length_mismatch : Status
  other_success : ℕ → Status
  other_error : ℕ → Status

-- `NT_SUCCESS`
abbrev pub nt_success : Status → Bool
nt_success success = true
nt_success (other_success code) = true
nt_success _ = false

-- `ULONG` and pointers
abbrev pub u32 : ℕ → ℕ
u32 n = n % 2 ^ 32

-- `a - b`
abbrev pub sub32 : ℕ → ℕ → ℕ
sub32 a b = u32 (a + 2 ^ 32 - b % 2 ^ 32)
