-- ===== src/Zik/Dispatch.antt =====
-- c/zax-inspector/zik/zik.c with the control codes of ZaxIoCode.h: `DeviceDispatch`, `DriverEntry` and
-- `DriverUnload`.
pub mod Codes
pub mod Requests
pub mod Lifetime
use model_lib.Common.{
  ℕ, suc, ◌+◌, ◌-◌, ◌*◌, ◌^◌, bit_or, List, [], ◌∷◌, Bool, true, false, ◌==◌, if◌then◌else◌, Option,
  none, some,
}
use model_lib.Zik.Status.{Status, success, unsuccessful, invalid_device_request, nt_success}
use model_lib.Zik.Image.{Image}
use model_lib.Zik.Service.{Info, Machine, Answers, Outcome, enum_ssdt, enum_ssdt_shadow}
use model_lib.Zik.Idt.{IdtEntry, IdtInfo, enum_idt}
use model_lib.Zik.Kernel.{enum_kernel}

-- `CTL_CODE(DeviceType, Function, Method, Access)`
unfoldable pub ctl_code : ℕ → ℕ → ℕ → ℕ → ℕ
ctl_code device function method access =
    bit_or (bit_or (bit_or (device * 2 ^ 16) (access * 2 ^ 14)) (function * 2 ^ 2)) method

-- `IOCTL_CODE(_func)`: FILE_DEVICE_UNKNOWN, IOCTL_BASE, METHOD_NEITHER and FILE_ANY_ACCESS.
unfoldable pub ioctl_code : ℕ → ℕ
unfolding ctl_code
ioctl_code func = ctl_code 0x22 (0x800 + func) 3 0

-- The `ZIK_IO_…` codes, and any other.
pub data Request : Type 0 where
  drv_init drv_unload ssdt_r ssdt_w ssdts_r ssdts_w idt_r kernel_r kernel_w : Request
  unknown : Request

abbrev pub func_of : Request → ℕ
func_of drv_init = 0x02
func_of drv_unload = 0x03
func_of ssdt_r = 0x04
func_of ssdt_w = 0x05
func_of ssdts_r = 0x06
func_of ssdts_w = 0x07
func_of idt_r = 0x08
func_of kernel_r = 0x09
func_of kernel_w = 0x0a
func_of unknown = 0

-- The cases of the `switch`, in their order.
unfoldable pub request_of : ℕ → Request
unfolding ioctl_code
request_of code =
    if code == ioctl_code 0x02
    then drv_init
    else if code == ioctl_code 0x03
    then drv_unload
    else if code == ioctl_code 0x04
    then ssdt_r
    else if code == ioctl_code 0x05
    then ssdt_w
    else if code == ioctl_code 0x06
    then ssdts_r
    else if code == ioctl_code 0x07
    then ssdts_w
    else if code == ioctl_code 0x08
    then idt_r
    else if code == ioctl_code 0x09
    then kernel_r
    else if code == ioctl_code 0x0a
    then kernel_w
    else unknown

-- What the requests can change: both service tables, the caller's buffer as each request reads it,
-- and the processor and the resources.
pub record Driver : Type 0 where
  pub ssdt : ℕ → ℕ
  pub shadow : ℕ → ℕ
  pub info : Option Info
  pub idt_info : ℕ → IdtInfo
  pub write_protect : Bool
  pub pools : ℕ
  pub opened : List ℕ
  pub closed : List ℕ

-- What the requests find and the calls of the system answer.
pub record Surroundings : Type 0 where
  pub kernel : Image
  pub ssdt_base : ℕ
  pub ssdt_limit : ℕ
  pub ssdt_answers : Answers
  pub located : Bool
  pub win32k_base : ℕ
  pub shadow_base : ℕ
  pub shadow_limit : ℕ
  pub shadow_answers : Answers
  pub probe : Bool
  pub idt : ℕ → IdtEntry
  pub byte : ℕ → ℕ

-- The driver as the functions on a service table see it, and what becomes of it.
abbrev pub machine_of : (ℕ → ℕ) → Option Info → Driver → Machine
machine_of table info d = record {
  table = table;
  info = info;
  write_protect = d.write_protect;
  pools = d.pools;
  opened = d.opened;
  closed = d.closed;
}

abbrev pub after_machine : Machine → Driver → Driver
after_machine m d = record d {
  write_protect = m.write_protect;
  pools = m.pools;
  opened = m.opened;
  closed = m.closed;
}

-- A status with the driver; `none` is a fault.
abbrev pub Reply : Type 0
Reply = Option (Status × Driver)

abbrev pub reply {ℓ} : {A : Type ℓ} → (Status → A → Status × Driver) → Option (Status × A) → Reply
reply f none = none
reply f (some (s, a)) = some (f s a)

abbrev pub run_ssdt : Bool → Option Info → Surroundings → Driver → Outcome
run_ssdt restore info env d =
    enum_ssdt restore env.kernel env.ssdt_base env.ssdt_limit env.ssdt_answers
      (machine_of d.ssdt info d)

abbrev pub run_shadow : Bool → Option Info → Surroundings → Driver → Outcome
run_shadow restore info env d =
    enum_ssdt_shadow restore env.located env.win32k_base env.shadow_base env.shadow_limit
      env.shadow_answers (machine_of d.shadow info d)

-- The `switch`. The requests on the first table leave `status` as it is.
unfoldable pub serve : Request → Surroundings → Driver → Reply
serve drv_init env d = some (success, d)
serve drv_unload env d = some (success, d)
serve ssdt_r env d =
    reply (λ s m. (success, record (after_machine m d) { ssdt = m.table; info = m.info }))
      (run_ssdt false d.info env d)
serve ssdt_w env d =
    reply (λ s m. (success, record (after_machine m d) { ssdt = m.table }))
      (run_ssdt true none env d)
serve ssdts_r env d =
    reply (λ s m. (s, record (after_machine m d) { shadow = m.table; info = m.info }))
      (run_shadow false d.info env d)
serve ssdts_w env d =
    reply (λ s m. (s, record (after_machine m d) { shadow = m.table })) (run_shadow true none env d)
serve idt_r env d =
    let (s, info) = enum_idt env.probe env.idt d.idt_info in some (s, record d { idt_info = info })
serve kernel_r env d =
    let (s, info, wp) = enum_kernel false env.byte d.ssdt env.ssdt_limit none d.write_protect in
    some (s, record d { write_protect = wp })
serve kernel_w env d =
    let (s, info, wp) = enum_kernel true env.byte d.ssdt env.ssdt_limit none d.write_protect in
    some (s, record d { write_protect = wp })
serve unknown env d = some (invalid_device_request, d)

-- `DeviceDispatch`: the status and `IoStatus.Information`. `control` says that the major function is
-- IRP_MJ_DEVICE_CONTROL.
pub record Irp : Type 0 where
  pub control : Bool
  pub io_control_code : ℕ
  pub input_buffer_length : ℕ

pub record Completion : Type 0 where
  pub status : Status
  pub information : ℕ
  pub driver : Driver

abbrev pub complete : ℕ → Reply → Option Completion
complete length none = none
complete length (some (s, d)) = some (record { status = s; information = length; driver = d })

unfoldable pub device_dispatch : Irp → Surroundings → Driver → Option Completion
device_dispatch irp env d =
    if irp.control
    then complete irp.input_buffer_length (serve (request_of irp.io_control_code) env d)
    else complete 0 (some (success, d))

-- The objects of the system that the driver makes.
pub record Objects : Type 0 where
  pub devices : ℕ
  pub links : ℕ
  pub handlers : Bool
  pub located : Bool

-- `DriverEntry`, by the statuses of `IoCreateDevice` and `IoCreateSymbolicLink`.
unfoldable pub driver_entry : (device link : Status) → Objects → Status × Objects
driver_entry device link o =
    if nt_success device
    then if nt_success link
      then (
        link,
        record o { devices = o.devices + 1; links = o.links + 1; handlers = true; located = true },
      )
      else (link, record o { devices = o.devices + 1 - 1; handlers = true })
    else (device, o)

-- `DriverUnload`: the link is deleted, and the device if there is one.
unfoldable pub driver_unload : Objects → Objects
driver_unload o = record o {
  links = o.links - 1;
  devices = if o.devices == 0 then 0 else o.devices - 1;
}
