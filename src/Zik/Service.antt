-- ===== src/Zik/Service.antt =====
-- `EnumSSDT` and `EnumSSDTShadow` of c/zax-inspector/zik/ssdt.c: a table of services is compared with
-- the one in its file, and reported or restored.
pub mod Rounds
pub mod Results
use model_lib.Common.{
  ℕ, zero, suc, ◌+◌, ◌-◌, ◌*◌, ◌%◌, ◌^◌, Bool, true, false, ◌==◌, if◌then◌else◌, Option, none, some,
  List, [], ◌∷◌, not,
}
use model_lib.Zik.Status.{Status, success, unsuccessful, nt_success, u32, sub32}
use model_lib.Zik.Image.{Image, rva_to_raw}

-- `struct _SSDT_ITEM` and `SSDT_INFO`; `item i` is `Item[i]`.
pub record Item : Type 0 where
  pub index : ℕ
  pub orig_addr : ℕ
  pub cur_addr : ℕ

pub record Info : Type 0 where
  pub count : ℕ
  pub item : ℕ → Item

-- What the functions change: the table, the caller's buffer if there is one, the write protection of
-- the processor, the number of pool blocks that are held, and the handles opened and closed so far,
-- the last one first.
pub record Machine : Type 0 where
  pub table : ℕ → ℕ
  pub info : Option Info
  pub write_protect : Bool
  pub pools : ℕ
  pub opened : List ℕ
  pub closed : List ℕ

abbrev pub put_at {ℓ} : {A : Type ℓ} → (ℕ → A) → ℕ → A → ℕ → A
put_at f i v j = if j == i then v else f j

-- `wp_off` and `wp_on`
abbrev pub wp_off : Machine → Machine
wp_off m = record m { write_protect = false }

abbrev pub wp_on : Machine → Machine
wp_on m = record m { write_protect = true }

-- A store into the table: with write protection the processor faults.
unfoldable pub store_entry : ℕ → ℕ → Machine → Option Machine
store_entry i v m = if m.write_protect then none else some (record m { table = put_at m.table i v })

-- `if (SSDTInfo) SSDTInfo->Count = ulCount;`
abbrev pub set_count : ℕ → Option Info → Option Info
set_count n none = none
set_count n (some info) = some (record info { count = n })

-- `if (SSDTInfo) { SSDTInfo->Item[i]… }`
abbrev pub set_item : ℕ → Item → Option Info → Option Info
set_item i x none = none
set_item i x (some info) = some (record info { item = put_at info.item i x })

-- One round of the loop, with the original address of entry `i`.
unfoldable pub service_round : Bool → ℕ → ℕ → Machine → Option Machine
service_round true i orig m = if m.table i == orig then some m else store_entry i orig m
service_round false i orig m = some (record m {
  info = set_item i (record { index = i; orig_addr = orig; cur_addr = m.table i }) m.info;
})

-- The loop from `i` on, for the rounds that are left.
unfoldable pub service_loop : Bool → (ℕ → ℕ) → ℕ → ℕ → Machine → Option Machine
service_loop restore orig zero i m = some m
service_loop restore orig (suc rounds) i m = elim (service_round restore i (orig i) m) [
  | none ↦ none
  | some m' ↦ service_loop restore orig rounds (i + 1) m'
]

-- From `if (SSDTInfo) SSDTInfo->Count = ulCount;` to `if (uRestoreAll) wp_on();`.
unfoldable pub compare_tables : Bool → (ℕ → ℕ) → ℕ → Machine → Option Machine
compare_tables restore orig count m =
    let start = record m { info = set_count count m.info } in
    if restore
    then elim (service_loop true orig count 0 (wp_off start)) [
      | none ↦ none
      | some m' ↦ some (wp_on m')
    ]
    else service_loop false orig count 0 start

-- What the calls of the system answer: `ExAllocatePool`, `IoCreateFile` with the handle it sets,
-- `ZwReadFile` with the entries it reads from an offset, and the value that an uninitialised handle has.
pub record Answers : Type 0 where
  pub pool : Bool
  pub create : Status
  pub handle : ℕ
  pub read : Status
  pub file : ℕ → ℕ → ℕ
  pub stale_handle : ℕ

-- A call's status with what it leaves; `none` is a fault of the processor.
abbrev pub Outcome : Type 0
Outcome = Option (Status × Machine)

abbrev pub with_status : Status → Option Machine → Outcome
with_status s none = none
with_status s (some m) = some (s, m)

abbrev pub close_handle : ℕ → Machine → Machine
close_handle h m = record m { closed = h ∷ m.closed }

abbrev pub close_after : ℕ → Outcome → Outcome
close_after h none = none
close_after h (some (s, m)) = some (s, close_handle h m)

-- `ZwReadFile` and what follows if it succeeds.
abbrev pub read_and_compare : Bool → (ℕ → ℕ) → ℕ → Status → Machine → Outcome
read_and_compare restore orig limit read m =
    if nt_success read
    then with_status read (compare_tables restore orig limit m)
    else some (read, m)

abbrev pub open_handle : ℕ → Machine → Machine
open_handle h m = record m { opened = h ∷ m.opened }

abbrev pub hold_pool : Machine → Machine
hold_pool m = record m { pools = m.pools + 1 }

-- `(PUCHAR)pOrig[i] - ulImage + (ULONG)pBase`
abbrev pub relocated : Image → (ℕ → ℕ) → ℕ → ℕ
relocated img file i = u32 (sub32 (file i) img.image_base + img.base)

-- `EnumSSDT`: the table at `table_base` has `limit` entries; the image is the kernel's. The result of
-- `ExAllocatePool` is not tested, so reading into NULL faults.
unfoldable pub enum_ssdt : Bool → Image → (table_base limit : ℕ) → Answers → Machine → Outcome
enum_ssdt restore img table_base limit env m =
    let raw = rva_to_raw img table_base in
    if raw == 0
    then some (unsuccessful, m)
    else if not (nt_success env.create)
    then some (env.create, if env.pool then hold_pool m else m)
    else if not env.pool
    then none
    else close_after env.handle (
        read_and_compare restore (relocated img (env.file raw)) limit env.read
          (open_handle env.handle (hold_pool m)))

-- From the label `__exit` on: the pool block is freed, and `hFile` is closed unless it is NULL.
abbrev pub free_pool : Machine → Machine
free_pool m = record m { pools = m.pools - 1 }

abbrev pub shadow_exit : ℕ → Outcome → Outcome
shadow_exit h none = none
shadow_exit h (some (s, m)) = some (s, if h == 0 then free_pool m else close_handle h (free_pool m))

-- `EnumSSDTShadow`: `located` says that both bases are known; win32k stands at `win32k_base`.
unfoldable pub enum_ssdt_shadow :
    Bool → (located : Bool) → (win32k_base table_base limit : ℕ) → Answers → Machine → Outcome
enum_ssdt_shadow restore located win32k_base table_base limit env m =
    if not located
    then some (unsuccessful, m)
    else if not env.pool
    then some (unsuccessful, m)
    else if not (nt_success env.create)
    then shadow_exit env.stale_handle (some (env.create, hold_pool m))
    else shadow_exit env.handle (
        read_and_compare restore (env.file (sub32 table_base win32k_base)) limit env.read
          (open_handle env.handle (hold_pool m)))
