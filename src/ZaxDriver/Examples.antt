-- ===== src/ZaxDriver/Examples.antt =====
-- The theorems on c/zax-inspector/ZaxInspector/ZaxDriver.c at a program in c:\zax.
use model_lib.Common.{ℕ, ◌≡◌, true, false, none, some, List, [], ◌∷◌, ◌++◌, arith}
use model_lib.ZaxDriver.{
  Client, null_device, Opened, Install, Answers, drv_initialize, drv_deinitialize, driver_path,
  driver_file, backslash,
}
use model_lib.ZaxDriver.Session.{Ends, session-Ends}
use model_lib.ZaxDriver.Path.{driver_path_lem}

abbrev fresh : Client
fresh = record {
  device_handle = null_device;
  manager = false;
  given = 0;
  closed = 0;
  closed_null = 0;
  service = none;
  runs = false;
}

abbrev done : Opened
done = record { opens = true; succeeds = true }

-- No service is there before the start, and one is there at the end.
abbrev installing : Install
installing = record { opens = false; stop = done; deletes = true; creates = true }

abbrev removing : Install
removing = record { opens = true; stop = done; deletes = true; creates = true }

-- c:\zax\z.exe
abbrev folder : List ℕ
folder = 0x63 ∷ 0x3a ∷ 0x5c ∷ 0x7a ∷ 0x61 ∷ 0x78 ∷ []

abbrev program : List ℕ
program = 0x7a ∷ 0x2e ∷ 0x65 ∷ 0x78 ∷ 0x65 ∷ []

abbrev granted : Answers
granted = record {
  has_manager = true;
  module_name = folder ++ backslash ∷ program;
  install = installing;
  start = done;
  link = some 9;
}

session-Ends_example :
    Ends true fresh (drv_deinitialize done removing true (drv_initialize granted fresh).1)
session-Ends_example = session-Ends granted done removing true fresh

driver_path_lem_example :
    driver_path (folder ++ backslash ∷ program) ≡ folder ++ backslash ∷ driver_file
driver_path_lem_example =
    driver_path_lem folder program
      (omega arith, (omega arith, (omega arith, (omega arith, (omega arith, tt))))) (omega arith)
