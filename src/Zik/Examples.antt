-- ===== src/Zik/Examples.antt =====
-- The theorems on c/zax-inspector/zik at a small image and a table of two services.
use model_lib.Common.{
  ℕ, ◌+◌, ◌-◌, ◌*◌, ◌%◌, ◌^◌, ◌≡◌, ◌≢◌, refl, true, false, ◌==◌, ltb, if◌then◌else◌, [], none, some,
  inl, inr, ◌⊎◌, arith,
}
use model_lib.Zik.Status.{success, other_error}
use model_lib.Zik.Image.{
  Image, image_dos_signature, holds_address, raw_of, section_loop, rva_to_raw,
}
use model_lib.Zik.Image.Visits.{Located, rva_to_raw-Located}
use model_lib.Zik.Service.{Machine, Answers, close_handle, enum_ssdt, enum_ssdt_shadow}
use model_lib.Zik.Service.Results.{
  Compared, during, orig, enum_ssdt-Compared, Balanced, enum_ssdt_shadow-Balanced,
}
use model_lib.Zik.Idt.{make_long}
use model_lib.Zik.Idt.Offsets.{make_long_lem}
use model_lib.Zik.Locate.{Code, locate_ssdt_shadow_base}
use model_lib.Zik.Locate.Shadow.{Sound, locate_ssdt_shadow_base-Sound}
use model_lib.Zik.Dispatch.{
  ssdt_w, request_of, Driver, Surroundings, Irp, Completion, device_dispatch,
}
use model_lib.Zik.Dispatch.Requests.{Ignored, device_dispatch-Ignored, device_dispatch-restores}

-- A kernel at 0x1000 with one section, linked for 0x400000; its service table stands at 0x1120.
abbrev kernel : Image
kernel = record {
  base = 0x1000;
  e_magic = image_dos_signature;
  number_of_sections = 1;
  section =
      λ i. record { virtual_address = 0x100; size_of_raw_data = 0x80; pointer_to_raw_data = 0x40 };
  image_base = 0x400000;
}

rva_to_raw-Located_example :
    ((kernel.e_magic ≢ 0x5a4d) × (rva_to_raw kernel 0x1120 ≡ 0))
    ⊎ ((kernel.e_magic ≡ 0x5a4d) × Located kernel 0x120 (rva_to_raw kernel 0x1120))
rva_to_raw-Located_example = rva_to_raw-Located kernel 0x1120

abbrev answers : Answers
answers = record {
  pool = true;
  create = success;
  handle = 44;
  read = success;
  file = λ raw i. 0x400010 + i;
  stale_handle = 99;
}

-- The second of two entries has been changed.
abbrev hooked : ℕ → ℕ
hooked i = if i == 1 then 0xbad else 0x1010 + i

abbrev machine : Machine
machine = record {
  table = hooked;
  info = none;
  write_protect = true;
  pools = 0;
  opened = [];
  closed = [];
}

table_found : rva_to_raw kernel 0x1120 ≢ 0
unfolding rva_to_raw section_loop holds_address raw_of
table_found = omega arith

enum_ssdt-Compared_example :
    (m' : Machine) × (enum_ssdt true kernel 0x1120 2 answers machine
      ≡ some (success, close_handle 44 m'))
    × Compared true
        (orig true kernel 0x1120 2 answers machine)
        2
        (during true kernel 0x1120 2 answers machine)
        m'
enum_ssdt-Compared_example =
    enum_ssdt-Compared true kernel 0x1120 2 answers machine table_found refl refl refl

abbrev no_file : Answers
no_file = record answers { create = other_error 0xc0000034 }

enum_ssdt_shadow-Balanced_example :
    Balanced true true 0x8000 0x8100 2 no_file machine
      (enum_ssdt_shadow true true 0x8000 0x8100 2 no_file machine)
enum_ssdt_shadow-Balanced_example =
    enum_ssdt_shadow-Balanced true true 0x8000 0x8100 2 no_file machine

-- The handler at 0x8053f8ac.
make_long_lem_example :
    make_long 0xf8ac 0x8053
    ≡ (if ltb 0xf8ac (2 ^ 15) then 0x8053 * 2 ^ 16 + 0xf8ac else 0xffff * 2 ^ 16 + 0xf8ac)
make_long_lem_example = make_long_lem 0xf8ac 0x8053 (omega arith) (omega arith)

-- Instructions of three bytes; the one at 0x2006 is looked for.
abbrev listing : Code
listing = record {
  size_of_code = λ p. record { length = 3; opcode = p };
  word = λ p. if p == 0x2006 then 0x888d else 0x9090;
  double_word = λ p. 0x80550000 + p;
}

locate_ssdt_shadow_base-Sound_example :
    Sound listing 0x2000 (locate_ssdt_shadow_base listing 0x2000)
locate_ssdt_shadow_base-Sound_example = locate_ssdt_shadow_base-Sound listing 0x2000

abbrev surroundings : Answers → Surroundings
surroundings a = record {
  kernel = kernel;
  ssdt_base = 0x1120;
  ssdt_limit = 2;
  ssdt_answers = a;
  located = false;
  win32k_base = 0;
  shadow_base = 0;
  shadow_limit = 0;
  shadow_answers = a;
  probe = false;
  idt = λ i. record { low_offset = 0; selector = 8; segment_type = 14; dpl = 0; hi_offset = 0 };
  byte = λ a. 0;
}

abbrev driver : Driver
driver = record {
  ssdt = hooked;
  shadow = λ i. 0;
  info = none;
  idt_info = λ i. record { type = 0; selector = 0; offset = 0; dpl = 0 };
  write_protect = true;
  pools = 0;
  opened = [];
  closed = [];
}

abbrev restore_irp : Irp
restore_irp = record { control = true; io_control_code = 0x222017; input_buffer_length = 0 }

asks_to_restore : request_of 0x222017 ≡ ssdt_w
unfolding request_of
asks_to_restore = refl

device_dispatch-Ignored_example :
    Ignored restore_irp
      (surroundings no_file)
      driver
      refl
      (device_dispatch restore_irp (surroundings no_file) driver)
device_dispatch-Ignored_example =
    device_dispatch-Ignored restore_irp (surroundings no_file) driver refl asks_to_restore refl
      (inr (inl refl))

device_dispatch-restores_example :
    (c : Completion) × (device_dispatch restore_irp (surroundings answers) driver ≡ some c)
    × (c.status ≡ success)
    × ((i : ℕ)
        → c.driver.ssdt i ≡ (
            if ltb i 2
            then ((answers.file (rva_to_raw kernel 0x1120) i + 2 ^ 32 - kernel.image_base % 2 ^ 32)
                  % 2 ^ 32
                + kernel.base)
              % 2 ^ 32
            else hooked i))
    × (c.driver.shadow ≡ driver.shadow)
    × (c.driver.write_protect ≡ true)
device_dispatch-restores_example =
    device_dispatch-restores restore_irp (surroundings answers) driver refl asks_to_restore
      table_found refl refl refl
