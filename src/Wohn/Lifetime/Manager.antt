-- ===== src/Wohn/Lifetime/Manager.antt =====
-- `pNSM` of cpp/wohn/WohnCore.cpp: what is started is kept through the calls `cor_ics_…`.
use model_lib.Common.{ℕ, ◌+◌, ◌≡◌, refl, Bool, true, false, none, List, [], ◌∷◌, arith}
use model_lib.Wohn.Notify.{HnState}
use model_lib.Wohn.Ics.{
  Ics, Item, Enumeration, Props, enumerate, take_ref, give_ref, cor_ics_disable, disable_private,
  disable_public,
}
use model_lib.Wohn.Ics.Enable.{enable_item, enable_props, enable_loop, cor_ics_enable}
use model_lib.Wohn.Ics.Startup.{
  CoResult, found_item, found_loop, cor_ics_initialize, is_s_false, co_count, one_if,
}
use model_lib.Wohn.Ics.Enum.{Enum, Sign, enum_item, enum_loop, cor_ics_enum, negative}

-- `pNSM` changes in none of the loops.
found_item-manager : (i : Item) (s : Ics) → (found_item i s).manager ≡ s.manager
unfolding found_item
found_item-manager i s = ground arith

enable_item-manager :
    (device : ℕ) (chosen : List ℕ → Bool) (i : Item) (s : Ics)
    → (enable_item device chosen i s).manager ≡ s.manager
unfolding enable_item enable_props
enable_item-manager device chosen i s = ground arith

enum_item-manager :
    (device : ℕ) (answer : Props → Sign) (i : Item) (e : Enum)
    → (enum_item device answer i e).ics.manager ≡ e.ics.manager
unfolding enum_item
enum_item-manager device answer i e = ground arith

found_loop-manager : (is : List Item) (s : Ics) → (found_loop is s).manager ≡ s.manager
unfolding found_loop
found_loop-manager [] s = refl
found_loop-manager (i ∷ is) s = ground (
  arith,
  found_item-manager i (take_ref s),
  found_loop-manager is (give_ref (found_item i (take_ref s))),
)

enable_loop-manager :
    (device : ℕ) (chosen : List ℕ → Bool) (is : List Item) (s : Ics)
    → (enable_loop device chosen is s).manager ≡ s.manager
unfolding enable_loop
enable_loop-manager device chosen [] s = refl
enable_loop-manager device chosen (i ∷ is) s = ground (
  arith,
  enable_item-manager device chosen i (take_ref s),
  enable_loop-manager device chosen is (give_ref (enable_item device chosen i (take_ref s))),
)

enumerate-manager :
    (en : Enumeration) (loop : List Item → Ics → Ics)
    → ((s : Ics) → (loop en.items s).manager ≡ s.manager)
    → (s : Ics) → (enumerate en loop s).manager ≡ s.manager
unfolding enumerate
enumerate-manager en loop keeps s =
    ground (arith, keeps (give_ref (take_ref (take_ref (take_ref s)))))

pub cor_ics_enable-manager :
    (state : HnState) (device : ℕ) (chosen : List ℕ → Bool) (en : Enumeration) (a b : Bool × Bool)
    (s : Ics)
    → (cor_ics_enable true state device chosen en a b s).1.manager ≡ s.manager
unfolding cor_ics_enable cor_ics_disable disable_private disable_public
cor_ics_enable-manager state device chosen en a b s = ground (
  arith,
  enumerate-manager en (enable_loop device chosen) (enable_loop-manager device chosen en.items)
      (cor_ics_disable true a.0 a.1 s),
)

enum_loop-manager :
    (device : ℕ) (answer : Props → Sign) (is : List Item) (e : Enum)
    → (enum_loop device answer is e).ics.manager ≡ e.ics.manager
unfolding enum_loop
enum_loop-manager device answer [] e = refl
enum_loop-manager device answer (i ∷ is) e =
    let next = enum_item device answer i (record e { ics = take_ref e.ics }) in
    ground (
      arith,
      enum_item-manager device answer i (record e { ics = take_ref e.ics }),
      enum_loop-manager device answer is (record next { ics = give_ref next.ics }),
    )

pub cor_ics_enum-manager :
    (device : ℕ) (answer : Props → Sign) (en : Enumeration) (s : Ics)
    → (cor_ics_enum true device answer en s).2.manager ≡ s.manager
unfolding cor_ics_enum
cor_ics_enum-manager device answer en s =
    let start : Enum = record {
      r = negative;
      calls = [];
      ics = give_ref (take_ref (take_ref (take_ref s)));
    } in
    ground (arith, enum_loop-manager device answer en.items start)

pub cor_ics_disable-manager :
    (initialized a b : Bool) (s : Ics) → (cor_ics_disable initialized a b s).manager ≡ s.manager
unfolding cor_ics_disable disable_private disable_public
cor_ics_disable-manager initialized a b s = ground arith

pub cor_ics_initialize-manager :
    (library : Bool) (co : CoResult) (manager installed : Bool) (en : Enumeration) (s : Ics)
    → (cor_ics_initialize false library co manager installed en s).0 ≡ true
    → (cor_ics_initialize false library co manager installed en s).1.manager ≡ true
unfolding cor_ics_initialize
cor_ics_initialize-manager library co manager installed en s h =
    let start = record s {
      co_initialized = is_s_false co;
      co_started = s.co_started + co_count co;
      manager = manager;
      taken = s.taken + one_if manager;
      public = none;
      private = none;
    } in
    ground (arith, enumerate-manager en found_loop (found_loop-manager en.items) start)
