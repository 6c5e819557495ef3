-- ===== src/Zik/Dispatch/Codes.antt =====
-- The control codes of c/zax-inspector/zik/ZaxIoCode.h.
use model_lib.Common.{ℕ, ◌+◌, ◌*◌, ◌<◌, ◌≡◌, ◌≢◌, refl, true, ◌==◌, ==→eq}
use model_lib.Common.Bits.{checked, checked_below}
use model_lib.Zik.Dispatch.{
  ioctl_code, Request, drv_init, drv_unload, ssdt_r, ssdt_w, ssdts_r, ssdts_w, idt_r, kernel_r,
  kernel_w, unknown, func_of, request_of,
}

all_codes : checked (λ func. ioctl_code func == 0x222003 + func * 4) 0x800 ≡ true
unfolding checked ioctl_code
all_codes = refl

-- The fields of a code do not overlap: for a function number below 0x800 it is this sum.
pub ioctl_code_value : (func : ℕ) → func < 0x800 → ioctl_code func ≡ 0x222003 + func * 4
ioctl_code_value func small =
    ==→eq _ _
      (checked_below (λ func. ioctl_code func == 0x222003 + func * 4) 0x800 func small all_codes)

-- Each request is recognised by its own code.
pub request_of-ioctl_code : (r : Request) → r ≢ unknown → request_of (ioctl_code (func_of r)) ≡ r
unfolding request_of
request_of-ioctl_code drv_init h = refl
request_of-ioctl_code drv_unload h = refl
request_of-ioctl_code ssdt_r h = refl
request_of-ioctl_code ssdt_w h = refl
request_of-ioctl_code ssdts_r h = refl
request_of-ioctl_code ssdts_w h = refl
request_of-ioctl_code idt_r h = refl
request_of-ioctl_code kernel_r h = refl
request_of-ioctl_code kernel_w h = refl
request_of-ioctl_code unknown h = absurd (h refl)
