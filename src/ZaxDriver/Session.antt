-- ===== src/ZaxDriver/Session.antt =====
-- The handles and the service of c/zax-inspector/ZaxInspector/ZaxDriver.c over a session.
use model_lib.Common.{
  ℕ, ◌+◌, ◌≡◌, Bool, true, false, ◌&&◌, if◌then◌else◌, Option, none, some, List, arith,
}
use model_lib.ZaxDriver.{
  Client, Device, device, Opened, Install, Answers, drv_start, drv_control, drv_install,
  drv_callkernel, drv_initialize, drv_deinitialize, give, driver_path,
}

abbrev pub is_device : Device → Bool
is_device (device h) = true
is_device d = false

-- What a function keeps of the handles: as many are given as closed, `manager` and `device_handle` stay.
record Keeps (s t : Client) : Type 0 where
  even : t.given + s.closed ≡ t.closed + s.given
  manager : t.manager ≡ s.manager
  device_handle : t.device_handle ≡ s.device_handle

drv_control-Keeps : (a : Opened) (s : Client) → Keeps s (drv_control a s).1
unfolding drv_control
drv_control-Keeps a s = ground arith

drv_start-Keeps : (a : Opened) (s : Client) → Keeps s (drv_start a s).1
unfolding drv_start
drv_start-Keeps a s = ground arith

drv_install-Keeps :
    (a : Install) (path : Option (List ℕ)) (delete_only : Bool) (s : Client)
    → Keeps s (drv_install a path delete_only s).1
unfolding drv_install
drv_install-Keeps a path delete_only s = ground (arith, drv_control-Keeps a.stop (give s))

-- The service is gone where it could be opened and deleted.
drv_install-deleted :
    (a : Install) (path : Option (List ℕ)) (s : Client)
    → (a.opens && a.deletes) ≡ true
    → (drv_install a path true s).1.service ≡ none
unfolding drv_install
drv_install-deleted a path s h = ground arith

-- The handles behind `drv_initialize`: one for the manager and one for the device, where they are open.
initialized-handles :
    (a : Answers) (s : Client)
    → let t = (drv_initialize a s).1 in
      (t.manager ≡ a.has_manager)
      × (t.given + s.closed
          ≡ t.closed
            + s.given
            + (if a.has_manager then 1 else 0)
            + (if is_device t.device_handle then 1 else 0))
unfolding drv_initialize
initialized-handles a s =
    let managed =
      if a.has_manager then give (record s { manager = true }) else record s { manager = false } in
    let path = some (driver_path a.module_name) in
    let installed = (drv_install a.install path false managed).1 in
    ground
      (arith, drv_install-Keeps a.install path false managed, drv_start-Keeps a.start installed)

deinitialized-handles :
    (stop : Opened) (a : Install) (uninstall : Bool) (s : Client)
    → let t = drv_deinitialize stop a uninstall s in
      (t.manager ≡ false)
      × (is_device t.device_handle ≡ false)
      × (t.given
            + s.closed
            + (if s.manager then 1 else 0)
            + (if is_device s.device_handle then 1 else 0)
          ≡ t.closed + s.given)
unfolding drv_deinitialize
deinitialized-handles stop a uninstall s =
    let stopped = (drv_control stop s).1 in
    ground (arith, drv_control-Keeps stop s, drv_install-Keeps a none true stopped)

deinitialized-service :
    (stop : Opened) (a : Install) (s : Client)
    → (a.opens && a.deletes) ≡ true
    → (drv_deinitialize stop a true s).service ≡ none
unfolding drv_deinitialize
deinitialized-service stop a s h =
    ground (arith, drv_install-deleted a none (drv_control stop s).1 h)

uninstalled_service :
    (stop : Opened) (a : Install) (uninstall : Bool) (s : Client)
    → (uninstall && a.opens && a.deletes) ≡ true
    → (drv_deinitialize stop a uninstall s).service ≡ none
uninstalled_service stop a true s h = deinitialized-service stop a s h
uninstalled_service stop a false s h = absurd (ground (arith, h))

-- What a session leaves.
pub record Ends (uninstalled : Bool) (s t : Client) : Type 0 where
  pub handles : t.given + s.closed ≡ t.closed + s.given
  pub manager : t.manager ≡ false
  pub no_device : is_device t.device_handle ≡ false
  pub no_calls : (answer : Bool) → drv_callkernel answer t ≡ false
  pub no_service : uninstalled ≡ true → t.service ≡ none

-- After `drv_initialize` and `drv_deinitialize`, whatever the service manager answers, every handle that
-- was given is closed, no call reaches the driver any more, and the service is gone if it was to be
-- uninstalled and could be opened and deleted.
pub session-Ends :
    (a : Answers) (stop : Opened) (i : Install) (uninstall : Bool) (s : Client)
    → Ends
        (uninstall && i.opens && i.deletes)
        s
        (drv_deinitialize stop i uninstall (drv_initialize a s).1)
unfolding drv_callkernel
session-Ends a stop i uninstall s =
    let begun = (drv_initialize a s).1 in
    let (m, e) = initialized-handles a s in
    let (off, gone, e') = deinitialized-handles stop i uninstall begun in
    record {
      handles = ground (arith, m, e, e');
      manager = off;
      no_device = gone;
      no_calls = λ answer. ground (arith, gone);
      no_service = uninstalled_service stop i uninstall begun;
    }
