-- ===== src/Wohn/Ics/Balanced.antt =====
-- The references of `cor_ics_…` in cpp/wohn/WohnCore.cpp: what is taken and not given back is what the
-- globals hold.
use model_lib.Common.{
  ℕ, suc, ◌+◌, ◌==◌, ◌≡◌, arith, Bool-cases, Option-cases, inl, inr, Bool, true, false,
  if◌then◌else◌, List, [], ◌∷◌, not, ◌||◌, ◌&&◌,
}
use model_lib.Wohn.Notify.{HnState, unavailable, idle, active, is_set}
use model_lib.Wohn.Ics.{
  Props, Item, Enumeration, Ics, take_ref, give_ref, nc_support, enumerate, cor_ics_is_enabled,
  disable_private, disable_public, cor_ics_disable,
}
use model_lib.Wohn.Ics.Enable.{
  enable_props, released_unless, enable_item, enable_loop, cor_ics_enable,
}
use model_lib.Wohn.Ics.Startup.{one_if}
use model_lib.Wohn.Ics.Enum.{Sign, Enum, enum_item, enum_loop, is_positive, cor_ics_enum}

abbrev held : Ics → ℕ
held s = one_if s.manager + one_if (is_set s.public) + one_if (is_set s.private)

-- What is taken has been given back, is held by a global, or is one of `k` references of the code that
-- runs.
unfoldable pub Owing : ℕ → Ics → Type 0
Owing k s = s.taken ≡ s.given + held s + k

disable_private-Owing :
    (k : ℕ) (config : Bool) (s : Ics) → Owing k s → Owing k (disable_private config s)
unfolding Owing disable_private
disable_private-Owing k config s h = ground arith

disable_public-Owing :
    (k : ℕ) (config : Bool) (s : Ics) → Owing k s → Owing k (disable_public config s)
unfolding Owing disable_public
disable_public-Owing k config s h = ground arith

cor_ics_disable-Owing :
    (initialized private_config public_config : Bool) (k : ℕ) (s : Ics)
    → Owing k s
    → Owing k (cor_ics_disable initialized private_config public_config s)
unfolding cor_ics_disable
cor_ics_disable-Owing false private_config public_config k s h = h
cor_ics_disable-Owing true private_config public_config k s h =
    disable_public-Owing k public_config _ (disable_private-Owing k private_config s h)

-- A connection is kept in a global or released.
enable_props-Owing :
    (device : ℕ) (chosen : List ℕ → Bool) (i : Item) (c : ℕ) (p : Props) (k : ℕ) (s : Ics)
    → Owing (suc (suc k)) s
    → Owing k (released_unless (enable_props device chosen i c p s))
unfolding Owing enable_props
enable_props-Owing device chosen i c p k s h = ground arith

take_ref-Owing : (k : ℕ) (s : Ics) → Owing k s → Owing (suc k) (take_ref s)
unfolding Owing
take_ref-Owing k s h = omega arith

give_ref-Owing : (k : ℕ) (s : Ics) → Owing (suc k) s → Owing k (give_ref s)
unfolding Owing
give_ref-Owing k s h = omega arith

-- A reference that is taken and given back.
visit-Owing : (k : ℕ) (s : Ics) → Owing k s → Owing k (give_ref (take_ref s))
visit-Owing k s h = give_ref-Owing k _ (take_ref-Owing k s h)

visit_twice-Owing :
    (k : ℕ) (s : Ics) → Owing k s → Owing k (give_ref (give_ref (take_ref (take_ref s))))
visit_twice-Owing k s h = give_ref-Owing k _ (visit-Owing (suc k) _ (take_ref-Owing k s h))

enable_item-Owing :
    (device : ℕ) (chosen : List ℕ → Bool) (i : Item) (k : ℕ) (s : Ics)
    → Owing k s
    → Owing k (enable_item device chosen i s)
unfolding enable_item
enable_item-Owing device chosen i k s h = elim (Bool-cases i.object) [
  | inr e ↦ rw e h
  | inl e ↦ elim (Option-cases i.connection) [
    | inl e' ↦ rw (e, e') h
    | inr (c, e') ↦ elim (Option-cases i.props) [
      | inl e'' ↦ rw (e, e', e'') (visit-Owing k s h)
      | inr (p, e'') ↦
          rw (e, e', e'')
            (enable_props-Owing device chosen i c p k _
              (take_ref-Owing (suc k) _ (take_ref-Owing k s h)))
    ]
  ]
]

enable_loop-Owing :
    (device : ℕ) (chosen : List ℕ → Bool) (is : List Item) (k : ℕ) (s : Ics)
    → Owing k s
    → Owing k (enable_loop device chosen is s)
unfolding enable_loop
enable_loop-Owing device chosen [] k s h = h
enable_loop-Owing device chosen (i ∷ is) k s h =
    let s' = give_ref (enable_item device chosen i (take_ref s)) in
    let h' : Owing k s' =
      give_ref-Owing k _ (enable_item-Owing device chosen i (suc k) _ (take_ref-Owing k s h)) in
    elim (Bool-cases (cor_ics_is_enabled s')) [
      | inl e ↦ rw e h'
      | inr e ↦ rw e (enable_loop-Owing device chosen is k s' h')
    ]

-- The collection and the enumerator are given back, whatever the loop does.
enumerate-Owing :
    (en : Enumeration) (loop : List Item → Ics → Ics) (k : ℕ)
    → ((j : ℕ) (s : Ics) → Owing j s → Owing j (loop en.items s))
    → (s : Ics) → Owing k s
    → Owing k (enumerate en loop s)
unfolding enumerate
enumerate-Owing en loop k keeps s h = elim (Bool-cases en.collection) [
  | inr e ↦ rw e h
  | inl e ↦ elim (Bool-cases en.enumerator) [
    | inr e' ↦ rw (e, e') (visit-Owing k s h)
    | inl e' ↦ elim (Bool-cases en.variants) [
      | inr e'' ↦ rw (e, e', e'') (visit_twice-Owing k s h)
      | inl e'' ↦
          rw (e, e', e'')
            (give_ref-Owing k _ (
              give_ref-Owing (suc k) _ (
                keeps (suc (suc k)) _
                  (visit-Owing (suc (suc k)) _ (take_ref-Owing (suc k) _ (take_ref-Owing k s h))))))
    ]
  ]
]

-- The state at the end of `cor_ics_enable`.
abbrev settled : Bool × Bool → Ics → Ics
settled last s =
    let r : Bool × Ics =
      if cor_ics_is_enabled s then (true, s) else (false, cor_ics_disable true last.0 last.1 s) in
    r.1

settle-Owing : (last : Bool × Bool) (s : Ics) → Owing 0 s → Owing 0 (settled last s)
settle-Owing b s h = elim (Bool-cases (cor_ics_is_enabled s)) [
  | inl e ↦ rw (settled, e) h
  | inr e ↦ rw (settled, e) (cor_ics_disable-Owing true b.0 b.1 0 s h)
]

enable_all-Owing :
    (device : ℕ) (chosen : List ℕ → Bool) (en : Enumeration) (first : Bool × Bool) (s : Ics)
    → Owing 0 s
    → Owing 0 (enumerate en (enable_loop device chosen) (cor_ics_disable true first.0 first.1 s))
enable_all-Owing device chosen en a s h =
    enumerate-Owing en _ 0 (λ j s' h'. enable_loop-Owing device chosen en.items j s' h') _
      (cor_ics_disable-Owing true a.0 a.1 0 s h)

-- `cor_ics_enable` changes no balance: when every reference that is out is held by a global before
-- the call, so it is after it, whatever the system answers at any point.
pub cor_ics_enable-Owing :
    (initialized : Bool) (state : HnState) (device : ℕ) (chosen : List ℕ → Bool) (en : Enumeration)
    (first last : Bool × Bool) (s : Ics)
    → Owing 0 s
    → Owing 0 (cor_ics_enable initialized state device chosen en first last s).1
unfolding cor_ics_enable
cor_ics_enable-Owing false state device chosen en a b s h = h
cor_ics_enable-Owing true unavailable device chosen en a b s h = h
cor_ics_enable-Owing true idle device chosen en a b s h =
    settle-Owing b _ (enable_all-Owing device chosen en a s h)
cor_ics_enable-Owing true active device chosen en a b s h =
    settle-Owing b _ (enable_all-Owing device chosen en a s h)

enum_item-Owing :
    (device : ℕ) (answer : Props → Sign) (i : Item) (k : ℕ) (e : Enum)
    → Owing k e.ics
    → Owing k (enum_item device answer i e).ics
unfolding enum_item
enum_item-Owing device answer i k e h = elim (Bool-cases i.object) [
  | inr q ↦ rw q h
  | inl q ↦ elim (Option-cases i.connection) [
    | inl q' ↦ rw (q, q') h
    | inr (c, q') ↦ elim (Option-cases i.props) [
      | inl q'' ↦ rw (q, q', q'') (visit-Owing k e.ics h)
      | inr (p, q'') ↦ elim (Bool-cases (nc_support p && not (p.guid == device))) [
        | inl u ↦ rw (q, q', q'', u) (visit_twice-Owing k e.ics h)
        | inr u ↦ rw (q, q', q'', u) (visit_twice-Owing k e.ics h)
      ]
    ]
  ]
]

enum_loop-Owing :
    (device : ℕ) (answer : Props → Sign) (is : List Item) (k : ℕ) (e : Enum)
    → Owing k e.ics
    → Owing k (enum_loop device answer is e).ics
unfolding enum_loop
enum_loop-Owing device answer [] k e h = h
enum_loop-Owing device answer (i ∷ is) k e h =
    let next = enum_item device answer i (record e { ics = take_ref e.ics }) in
    let e' = record next { ics = give_ref next.ics } in
    let h' : Owing k e'.ics =
      give_ref-Owing k _ (enum_item-Owing device answer i (suc k) _ (take_ref-Owing k e.ics h)) in
    elim (Bool-cases (is_positive e'.r)) [
      | inl q ↦ rw q h'
      | inr q ↦ rw q (enum_loop-Owing device answer is k e' h')
    ]

-- `cor_ics_enum` keeps the balance as well, wherever the callback ends it.
pub cor_ics_enum-Owing :
    (initialized : Bool) (device : ℕ) (answer : Props → Sign) (en : Enumeration) (s : Ics)
    → Owing 0 s
    → Owing 0 (cor_ics_enum initialized device answer en s).2
unfolding cor_ics_enum
cor_ics_enum-Owing initialized device answer en s h =
    elim (Bool-cases (not initialized || not en.collection)) [
      | inl q ↦ rw q h
      | inr q ↦ elim (Bool-cases en.enumerator) [
        | inr q' ↦ rw (q, q') (visit-Owing 0 s h)
        | inl q' ↦ elim (Bool-cases en.variants) [
          | inr q'' ↦ rw (q, q', q'') (visit_twice-Owing 0 s h)
          | inl q'' ↦
              rw (q, q', q'')
                (give_ref-Owing 0 _ (
                  give_ref-Owing 1 _ (
                    enum_loop-Owing device answer en.items 2 _
                      (visit-Owing 2 _ (take_ref-Owing 1 _ (take_ref-Owing 0 s h))))))
        ]
      ]
    ]
