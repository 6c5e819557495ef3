-- ===== src/Wohn/Ics/Enable.antt =====
-- `cor_ics_enable` in cpp/wohn/WohnCore.cpp.
use model_lib.Common.{
  ℕ, ◌==◌, Bool, true, false, if◌then◌else◌, none, some, List, [], ◌∷◌, not, ◌&&◌,
}
use model_lib.Wohn.Notify.{HnState, unavailable, is_set}
use model_lib.Wohn.Ics.{
  private_side, public_side, Props, Item, Enumeration, Ics, take_ref, give_ref, set_sharing,
  nc_support, enumerate, cor_ics_is_enabled, cor_ics_disable,
}

-- `cor_ics_enable` at one connection `c` with its properties: `bFound`, and the state.
unfoldable pub enable_props :
    (device : ℕ) → (chosen : List ℕ → Bool) → Item → ℕ → Props → Ics → Bool × Ics
enable_props device chosen i c p s =
    if not (nc_support p)
    then (false, s)
    else if not (is_set s.private) && p.guid == device
    then (if i.config
        then (if i.shares_private
            then (
              true,
              record (set_sharing c (some private_side) (give_ref (take_ref s))) {
                private = some c;
              },
            )
            else (false, give_ref (take_ref s)))
        else (false, s))
    else if not (is_set s.public) && chosen p.name
    then (if i.config
        then (if i.shares_public
            then (
              true,
              record (set_sharing c (some public_side) (give_ref (take_ref s))) { public = some c },
            )
            else (false, give_ref (take_ref s)))
        else (false, s))
    else (false, s)

-- `if(!bFound) pNC->Release();` behind `NetconPropsFree(pNP);`
abbrev pub released_unless : Bool × Ics → Ics
released_unless (found, s) = if found then give_ref s else give_ref (give_ref s)

unfoldable pub enable_item : (device : ℕ) → (chosen : List ℕ → Bool) → Item → Ics → Ics
enable_item device chosen i s = if not i.object then s else elim i.connection [
  | none ↦ s
  | some c ↦ elim i.props [
    | none ↦ give_ref (take_ref s)
    | some p ↦ released_unless (enable_props device chosen i c p (take_ref (take_ref s)))
  ]
]

-- `while(pEV->Next(1,&v,NULL) == S_OK)`; a variant holds its object until it is cleared.
unfoldable pub enable_loop : (device : ℕ) → (chosen : List ℕ → Bool) → List Item → Ics → Ics
enable_loop device chosen [] s = s
enable_loop device chosen (i ∷ is) s =
    let s' = give_ref (enable_item device chosen i (take_ref s)) in
    let rest = enable_loop device chosen is s' in if cor_ics_is_enabled s' then s' else rest

-- `cor_ics_enable`: `state` is the answer of `cor_wlan_get_state`, `device` the hosted network's, and
-- `chosen` compares a name with the argument; `first` and `last` are what the configurations of the private
-- and the public side answer in the two calls of `cor_ics_disable`.
unfoldable pub cor_ics_enable :
    Bool
    → HnState
    → (device : ℕ) → (chosen : List ℕ → Bool) → Enumeration
    → Bool × Bool
    → Bool × Bool
    → Ics
    → Bool × Ics
cor_ics_enable initialized state device chosen en first last s =
    if not initialized then (false, s) else elim state [
      | unavailable ↦ (false, s)
      | _ ↦
          let start = cor_ics_disable true first.0 first.1 s in
          let s' = enumerate en (enable_loop device chosen) start in
          if cor_ics_is_enabled s'
          then (true, s')
          else (false, cor_ics_disable true last.0 last.1 s')
    ]
