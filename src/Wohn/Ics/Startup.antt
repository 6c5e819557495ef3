-- ===== src/Wohn/Ics/Startup.antt =====
-- `cor_ics_initialize` and `cor_ics_deinitialize` in cpp/wohn/WohnCore.cpp.
use model_lib.Common.{
  ℕ, ◌+◌, Bool, true, false, if◌then◌else◌, none, some, List, [], ◌∷◌, not, ◌||◌, ◌&&◌,
}
use model_lib.Wohn.Notify.{is_set}
use model_lib.Wohn.Ics.{
  private_side, public_side, Item, Enumeration, Ics, take_ref, give_ref, nc_support, enumerate,
  cor_ics_is_enabled,
}

-- `cor_ics_initialize` at one connection: what is shared already is kept, without regard to what is
-- kept so far. A third type of sharing is kept nowhere.
unfoldable pub found_item : Item → Ics → Ics
found_item i s = if not i.object then s else elim i.connection [
  | none ↦ s
  | some c ↦ elim i.props [
    | none ↦ give_ref (take_ref s)
    | some p ↦
        let s' = take_ref (take_ref s) in
        if nc_support p && i.config
        then elim i.shared [
          | none ↦ give_ref (give_ref (give_ref (take_ref s')))
          | some private_side ↦ give_ref (give_ref (take_ref (record s' { private = some c })))
          | some public_side ↦ give_ref (give_ref (take_ref (record s' { public = some c })))
        ]
        else give_ref (give_ref s')
  ]
]

unfoldable pub found_loop : List Item → Ics → Ics
found_loop [] s = s
found_loop (i ∷ is) s =
    let s' = give_ref (found_item i (take_ref s)) in
    let rest = found_loop is s' in if cor_ics_is_enabled s' then s' else rest

-- `CoInitialize`
pub data CoResult : Type 0 where
  s_ok s_false failed : CoResult

abbrev pub co_count : CoResult → ℕ
co_count failed = 0
co_count r = 1

abbrev pub is_s_false : CoResult → Bool
is_s_false s_false = true
is_s_false r = false

abbrev pub one_if : Bool → ℕ
one_if true = 1
one_if false = 0

-- `cor_ics_deinitialize`; `gICSEnabled`, which nothing reads, is left out.
unfoldable pub cor_ics_deinitialize : Bool → Ics → Ics
cor_ics_deinitialize initialized s = if not initialized then s else record s {
  manager = false;
  public = none;
  private = none;
  given = s.given + one_if s.manager + one_if (is_set s.public) + one_if (is_set s.private);
  co_initialized = false;
  co_ended = s.co_ended + one_if s.co_initialized;
}

-- `cor_ics_initialize`: the library, the result of `CoInitialize`, the manager, and whether sharing is
-- installed. Where it goes on, `gInitialized` is false, which its call of `cor_ics_deinitialize` reads.
unfoldable pub cor_ics_initialize :
    Bool → (library : Bool) → CoResult → (manager installed : Bool) → Enumeration → Ics → Bool × Ics
cor_ics_initialize initialized library co manager installed en s =
    if initialized || not library
    then (false, s)
    else (let start = record s {
      co_initialized = is_s_false co;
      co_started = s.co_started + co_count co;
      manager = manager;
      taken = s.taken + one_if manager;
      public = none;
      private = none;
    } in
        if manager && installed
        then (true, enumerate en found_loop start)
        else (false, cor_ics_deinitialize initialized start))
