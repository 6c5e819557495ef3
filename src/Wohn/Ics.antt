-- ===== src/Wohn/Ics.antt =====
-- The sharing of connections in cpp/wohn/WohnCore.cpp: the functions `cor_ics_…`, with the references
-- to the system's objects that they take and give back.
pub mod Enable
pub mod Startup
pub mod Enum
pub mod Balanced
pub mod Enabled
pub mod Enumerated
use model_lib.Common.{
  ℕ, suc, ◌+◌, ◌==◌, Bool, true, false, if◌then◌else◌, Option, none, some, List, [], ◌∷◌, ◌++◌, not,
  ◌||◌, ◌&&◌,
}
use model_lib.Wohn.Notify.{HnState, unavailable, is_set}

-- `SHARINGCONNECTIONTYPE`
pub data Sharing : Type 0 where
  private_side public_side : Sharing

-- `NETCON_PROPERTIES`; `lan` and `connected` are what `NC_SUPPORT` asks for.
pub record Props : Type 0 where
  pub lan : Bool
  pub connected : Bool
  pub guid : ℕ
  pub name : List ℕ

-- An item of the enumeration with the system's answers on it: whether it is an object, the connection
-- that it is, its properties, whether it has a sharing configuration, what is shared, and whether
-- it can be shared as the one or the other.
pub record Item : Type 0 where
  pub object : Bool
  pub connection : Option ℕ
  pub props : Option Props
  pub config : Bool
  pub shared : Option Sharing
  pub shares_private : Bool
  pub shares_public : Bool

-- `get_EnumEveryConnection`, `get__NewEnum` and `QueryInterface`, and the items that `Next` gives.
pub record Enumeration : Type 0 where
  pub collection : Bool
  pub enumerator : Bool
  pub variants : Bool
  pub items : List Item

-- The globals, and how many references and property blocks have been taken and given back so far;
-- then how often COM was initialized and uninitialized, and what the system shares.
pub record Ics : Type 0 where
  pub co_initialized : Bool
  pub manager : Bool
  pub private : Option ℕ
  pub public : Option ℕ
  pub taken : ℕ
  pub given : ℕ
  pub co_started : ℕ
  pub co_ended : ℕ
  pub sharing : ℕ → Option Sharing

abbrev pub take_ref : Ics → Ics
take_ref s = record s { taken = suc s.taken }

abbrev pub give_ref : Ics → Ics
give_ref s = record s { given = suc s.given }

abbrev pub set_sharing : ℕ → Option Sharing → Ics → Ics
set_sharing c v s = record s { sharing = λ j. if j == c then v else s.sharing j }

-- `NC_SUPPORT`
abbrev pub nc_support : Props → Bool
nc_support p = p.lan && p.connected

-- The frame of the three functions that go over all connections, with the loop in the middle.
unfoldable pub enumerate : Enumeration → (List Item → Ics → Ics) → Ics → Ics
enumerate en loop s =
    if not en.collection
    then s
    else if not en.enumerator
    then give_ref (take_ref s)
    else if not en.variants
    then give_ref (give_ref (take_ref (take_ref s)))
    else give_ref (give_ref (loop en.items (give_ref (take_ref (take_ref (take_ref s))))))

-- `cor_ics_is_enabled`
abbrev pub cor_ics_is_enabled : Ics → Bool
cor_ics_is_enabled s = is_set s.public && is_set s.private

-- The halves of `cor_ics_disable`; `config` says that there is a configuration to disable.
unfoldable pub disable_private : Bool → Ics → Ics
disable_private config s = elim s.private [
  | none ↦ s
  | some c ↦
      let s' = if config then give_ref (set_sharing c none (take_ref s)) else s in
      give_ref (record s' { private = none })
]

unfoldable pub disable_public : Bool → Ics → Ics
disable_public config s = elim s.public [
  | none ↦ s
  | some c ↦
      let s' = if config then give_ref (set_sharing c none (take_ref s)) else s in
      give_ref (record s' { public = none })
]

-- `cor_ics_disable`
unfoldable pub cor_ics_disable : Bool → (private_config public_config : Bool) → Ics → Ics
cor_ics_disable initialized private_config public_config s =
    if not initialized then s else disable_public public_config (disable_private private_config s)
