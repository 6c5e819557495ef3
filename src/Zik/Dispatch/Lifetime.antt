-- ===== src/Zik/Dispatch/Lifetime.antt =====
-- The objects of the system over the life of the driver of c/zax-inspector/zik.
use model_lib.Common.{◌≡◌, refl, if◌then◌else◌, Bool-cases, inl, inr, arith}
use model_lib.Zik.Status.{Status, nt_success}
use model_lib.Zik.Dispatch.{Objects, driver_entry, driver_unload}

-- As many devices and links as before.
abbrev pub SameObjects : Objects → Objects → Type 0
SameObjects o o' = (o'.devices ≡ o.devices) × (o'.links ≡ o.links)

-- If `DriverEntry` fails, the device and the link are not left behind; if it succeeds,
-- `DriverUnload` takes both away again.
pub driver_entry-SameObjects :
    (device link : Status) (o : Objects)
    → let (s, o') = driver_entry device link o in
      SameObjects o (if nt_success s then driver_unload o' else o')
unfolding driver_entry driver_unload
driver_entry-SameObjects device link o = elim (Bool-cases (nt_success device)) [
  | inr e ↦ simp e (refl, refl)
  | inl e ↦ elim (Bool-cases (nt_success link)) [
    | inr f ↦ simp (e, f) (omega arith, refl)
    | inl f ↦ simp (e, f) (ground arith, omega arith)
  ]
]
