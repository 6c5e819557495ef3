-- ===== src/ZaxDriver.antt =====
-- c/zax-inspector/ZaxInspector/ZaxDriver.c: the program's side of its driver zik. It installs and starts
-- the driver as a service, opens its device, and takes it off again. What the service manager answers is
-- an argument, and the handles that it gives are counted.
pub mod Session
pub mod Path
mod Examples
use model_lib.Common.{
  ℕ, zero, suc, ◌+◌, ◌-◌, ◌==◌, Bool, true, false, leb, ltb, not, ◌||◌, ◌&&◌, if◌then◌else◌, Option,
  none, some, List, [], ◌∷◌, ◌++◌, length, take, get_elem?,
}

-- A handle of `CreateFile`, as `g_hDevice` has it.
pub data Device : Type 0 where
  null_device invalid_device : Device
  device : ℕ → Device

-- `g_hDevice` and `g_hSCManager`; how many handles have been given and closed, and how often NULL was
-- closed; and the service: whether there is one, with its path, and whether it runs.
pub record Client : Type 0 where
  pub device_handle : Device
  pub manager : Bool
  pub given : ℕ
  pub closed : ℕ
  pub closed_null : ℕ
  pub service : Option (Option (List ℕ))
  pub runs : Bool

abbrev pub give : Client → Client
give s = record s { given = suc s.given }

abbrev pub close : Client → Client
close s = record s { closed = suc s.closed }

-- `CloseServiceHandle(hService)` where `hService` may be NULL.
abbrev pub close_service : Bool → Client → Client
close_service true s = close s
close_service false s = record s { closed_null = suc s.closed_null }

-- `drv_link`: no name, or what `CreateFile` answers.
abbrev pub drv_link : (named : Bool) → Option ℕ → Client → Device × Client
drv_link false answer s = (invalid_device, s)
drv_link true none s = (invalid_device, s)
drv_link true (some h) s = (device h, give s)

-- The answers to `OpenService` and to the call on the service.
pub record Opened : Type 0 where
  pub opens : Bool
  pub succeeds : Bool

-- `drv_start`
unfoldable pub drv_start : Opened → Client → Bool × Client
drv_start a s =
    if a.opens
    then (let s' = give s in
        (a.succeeds, close_service true (if a.succeeds then record s' { runs = true } else s')))
    else (false, close_service false s)

-- `drv_control`, with the control code SERVICE_CONTROL_STOP, the only one that is used.
unfoldable pub drv_control : Opened → Client → Bool × Client
drv_control a s =
    if a.opens
    then (let s' = give s in
        (a.succeeds, close_service true (if a.succeeds then record s' { runs = false } else s')))
    else (false, close_service false s)

-- The answers in `drv_install`: to `OpenService`, in `drv_control`, to `DeleteService` and to
-- `CreateService`.
pub record Install : Type 0 where
  pub opens : Bool
  pub stop : Opened
  pub deletes : Bool
  pub creates : Bool

-- `drv_install`; a path of NULL is `none`, also for the service that is made of it.
unfoldable pub drv_install :
    Install → Option (List ℕ) → (delete_only : Bool) → Client → Bool × Client
drv_install a path delete_only s =
    let removed =
      if a.opens
      then (let stopped = (drv_control a.stop (give s)).1 in
          close (if a.deletes then record stopped { service = none } else stopped))
      else s in
    if a.opens && delete_only
    then (true, removed)
    else if a.creates
    then (true, close (give (record removed { service = some path })))
    else (false, removed)

-- `drv_callkernel`: the answer of `DeviceIoControl`, which is called only with a device.
unfoldable pub drv_callkernel : Bool → Client → Bool
drv_callkernel answer s = elim s.device_handle [
  | null_device ↦ false
  | invalid_device ↦ false
  | device h ↦ answer
]

abbrev pub max_path : ℕ
max_path = 260

abbrev pub backslash : ℕ
backslash = 0x5c

-- `while (dwLength--)`: the text up to its last backslash, or all of it.
unfoldable pub up_to_backslash : ℕ → List ℕ → List ℕ
up_to_backslash zero text = text
up_to_backslash (suc n) text =
    let rest = up_to_backslash n text in
    elim (get_elem? text n) [
      | none ↦ rest
      | some c ↦ if c == backslash then take (suc n) text else rest
    ]

-- "zik.sys"
abbrev pub driver_file : List ℕ
driver_file = 0x7a ∷ 0x69 ∷ 0x6b ∷ 0x2e ∷ 0x73 ∷ 0x79 ∷ 0x73 ∷ []

-- The path that `drv_initialize` makes of the name of the program; `StringCchCat` cuts it.
unfoldable pub driver_path : List ℕ → List ℕ
driver_path name = take (max_path - 1) (up_to_backslash (length name) name ++ driver_file)

-- The answers in `drv_initialize`: whether there is a manager, the program's name, and those of the
-- functions that it calls.
pub record Answers : Type 0 where
  pub has_manager : Bool
  pub module_name : List ℕ
  pub install : Install
  pub start : Opened
  pub link : Option ℕ

-- `drv_initialize`
unfoldable pub drv_initialize : Answers → Client → Bool × Client
drv_initialize a s =
    let managed =
      if a.has_manager then give (record s { manager = true }) else record s { manager = false } in
    let installed = (drv_install a.install (some (driver_path a.module_name)) false managed).1 in
    let s' = (drv_start a.start installed).1 in
    let (d, s'') = drv_link true a.link s' in (true, record s'' { device_handle = d })

-- The handles that `drv_deinitialize` closes.
abbrev pub close_manager : Client → Client
close_manager s = if s.manager then record (close s) { manager = false } else s

abbrev pub close_device : Client → Client
close_device s = elim s.device_handle [
  | null_device ↦ s
  | invalid_device ↦ s
  | device h ↦ record (close s) { device_handle = null_device }
]

-- `drv_deinitialize`
unfoldable pub drv_deinitialize : Opened → Install → (uninstall : Bool) → Client → Client
drv_deinitialize stop a uninstall s =
    let stopped = (drv_control stop s).1 in
    let removed = if uninstall then (drv_install a none true stopped).1 else stopped in
    close_device (close_manager removed)
