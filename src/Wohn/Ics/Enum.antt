-- ===== src/Wohn/Ics/Enum.antt =====
-- `cor_ics_enum` in cpp/wohn/WohnCore.cpp.
use model_lib.Common.{
  ℕ, ◌==◌, Bool, true, false, if◌then◌else◌, none, some, List, [], ◌∷◌, ◌++◌, not, ◌||◌, ◌&&◌,
}
use model_lib.Wohn.Ics.{Props, Item, Enumeration, Ics, take_ref, give_ref, nc_support}

-- `cor_ics_enum`: the callback's answer at each connection by its sign, and what it is called with.
pub data Sign : Type 0 where
  negative zero_sign positive : Sign

-- `r`, the calls so far, and the state.
pub record Enum : Type 0 where
  pub r : Sign
  pub calls : List Props
  pub ics : Ics

unfoldable pub enum_item : (device : ℕ) → (Props → Sign) → Item → Enum → Enum
enum_item device answer i e = if not i.object then e else elim i.connection [
  | none ↦ e
  | some c ↦ elim i.props [
    | none ↦ record e { ics = give_ref (take_ref e.ics) }
    | some p ↦
        let s = give_ref (give_ref (take_ref (take_ref e.ics))) in
        if nc_support p && not (p.guid == device)
        then record { r = answer p; calls = e.calls ++ p ∷ []; ics = s }
        else record e { ics = s }
  ]
]

abbrev pub is_positive : Sign → Bool
is_positive positive = true
is_positive s = false

abbrev pub is_negative : Sign → Bool
is_negative negative = true
is_negative s = false

unfoldable pub enum_loop : (device : ℕ) → (Props → Sign) → List Item → Enum → Enum
enum_loop device answer [] e = e
enum_loop device answer (i ∷ is) e =
    let next = enum_item device answer i (record e { ics = take_ref e.ics }) in
    let e' = record next { ics = give_ref next.ics } in
    let rest = enum_loop device answer is e' in if is_positive e'.r then e' else rest

-- The frame is the same as that of `enumerate`.
unfoldable pub cor_ics_enum :
    Bool → (device : ℕ) → (Props → Sign) → Enumeration → Ics → Bool × List Props × Ics
cor_ics_enum initialized device answer en s =
    let start : Enum = record { r = negative; calls = []; ics = s } in
    if not initialized || not en.collection
    then (false, [], s)
    else if not en.enumerator
    then (false, [], give_ref (take_ref s))
    else if not en.variants
    then (false, [], give_ref (give_ref (take_ref (take_ref s))))
    else (let opened = record start { ics = give_ref (take_ref (take_ref (take_ref s))) } in
        let e = enum_loop device answer en.items opened in
        (not (is_negative e.r), e.calls, give_ref (give_ref e.ics)))
