-- ===== src/Wohn/Ics/Enabled.antt =====
-- The result of `cor_ics_enable` in cpp/wohn/WohnCore.cpp, and which connections it keeps.
use model_lib.Common.{
  ℕ, ◌==◌, ◌≡◌, refl, ap, ◌∙◌, Bool, ◌≢◌, Bool-cases, Option-cases, ◌⊎◌, inl, inr, true, false,
  if◌then◌else◌, none, some, List, [], ◌∷◌, arith,
}
use model_lib.Wohn.Notify.{HnState, unavailable, idle, active}
use model_lib.Wohn.Ics.{
  Props, Item, Enumeration, Ics, take_ref, give_ref, nc_support, enumerate, cor_ics_is_enabled,
  disable_private, disable_public, cor_ics_disable,
}
use model_lib.Wohn.Ics.Enable.{
  enable_props, released_unless, enable_item, enable_loop, cor_ics_enable,
}

-- One item of a list has a property.
pub data Among (P : Item → Type 0) : List Item → Type 0 where
  here : {i : Item} → {is : List Item} → P i → Among P (i ∷ is)
  there : {i : Item} → {is : List Item} → Among P is → Among P (i ∷ is)

-- The item is the connection `c`, is supported, may be shared as asked, and passes a test.
pub record Offers (test : Props → Bool) (allowed : Item → Bool) (c : ℕ) (i : Item) : Type 0 where
  object : i.object ≡ true
  connection : i.connection ≡ some c
  props : Props
  has_props : i.props ≡ some props
  supported : nc_support props ≡ true
  passes : test props ≡ true
  config : i.config ≡ true
  shares : allowed i ≡ true

abbrev pub OffersPrivate : ℕ → ℕ → Item → Type 0
OffersPrivate device c = Offers (λ p. p.guid == device) (λ i. i.shares_private) c

abbrev pub OffersPublic : (List ℕ → Bool) → ℕ → Item → Type 0
OffersPublic chosen c = Offers (λ p. chosen p.name) (λ i. i.shares_public) c

-- At one item a global keeps its connection, or the item offers the new one.
enable_props-private :
    (device : ℕ) (chosen : List ℕ → Bool) (i : Item) (c : ℕ) (p : Props) (s : Ics) (d : ℕ)
    → (released_unless (enable_props device chosen i c p s)).private ≡ some d
    → (s.private ≡ some d)
      ⊎ ((c ≡ d)
          × (nc_support p ≡ true)
          × ((p.guid == device) ≡ true)
          × (i.config ≡ true)
          × (i.shares_private ≡ true))
unfolding enable_props
enable_props-private device chosen i c p s d h = ground arith

enable_props-public :
    (device : ℕ) (chosen : List ℕ → Bool) (i : Item) (c : ℕ) (p : Props) (s : Ics) (d : ℕ)
    → (released_unless (enable_props device chosen i c p s)).public ≡ some d
    → (s.public ≡ some d)
      ⊎ ((c ≡ d)
          × (nc_support p ≡ true)
          × (chosen p.name ≡ true)
          × (i.config ≡ true)
          × (i.shares_public ≡ true))
unfolding enable_props
enable_props-public device chosen i c p s d h = ground arith

-- Each side that is kept is a connection of the list that offers itself for it.
abbrev Within : ℕ → (List ℕ → Bool) → List Item → Ics → Type 0
Within device chosen all s =
    ((d : ℕ) → s.private ≡ some d → Among (OffersPrivate device d) all)
    × ((d : ℕ) → s.public ≡ some d → Among (OffersPublic chosen d) all)

enable_item-Within :
    (device : ℕ) (chosen : List ℕ → Bool) (i : Item) (all : List Item)
    → ((P : Item → Type 0) → P i → Among P all)
    → (s : Ics) → Within device chosen all s
    → Within device chosen all (enable_item device chosen i s)
unfolding enable_item
enable_item-Within device chosen i all at s (hp, hq) = elim (Bool-cases i.object) [
  | inr e ↦ rw e (hp, hq)
  | inl e ↦ elim (Option-cases i.connection) [
    | inl e' ↦ rw (e, e') (hp, hq)
    | inr (c, e') ↦ elim (Option-cases i.props) [
      | inl e'' ↦ rw (e, e', e'') (hp, hq)
      | inr (p, e'') ↦
          let s' = take_ref (take_ref s) in
          rw (e, e', e'')
            (
              λ d h. elim (enable_props-private device chosen i c p s' d h) [
                | inl q ↦ hp d q
                | inr (q, u, v, w, x) ↦ at _ (record {
                  object = e;
                  connection = e' ∙ ap some q;
                  props = p;
                  has_props = e'';
                  supported = u;
                  passes = v;
                  config = w;
                  shares = x;
                })
              ],
              λ d h. elim (enable_props-public device chosen i c p s' d h) [
                | inl q ↦ hq d q
                | inr (q, u, v, w, x) ↦ at _ (record {
                  object = e;
                  connection = e' ∙ ap some q;
                  props = p;
                  has_props = e'';
                  supported = u;
                  passes = v;
                  config = w;
                  shares = x;
                })
              ],
            )
    ]
  ]
]

enable_loop-Within :
    (device : ℕ) (chosen : List ℕ → Bool) (is all : List Item)
    → ((P : Item → Type 0) → Among P is → Among P all)
    → (s : Ics) → Within device chosen all s
    → Within device chosen all (enable_loop device chosen is s)
unfolding enable_loop
enable_loop-Within device chosen [] all at s h = h
enable_loop-Within device chosen (i ∷ is) all at s h =
    let s' = give_ref (enable_item device chosen i (take_ref s)) in
    let h' : Within device chosen all s' =
      enable_item-Within device chosen i all (λ P q. at P (here q)) (take_ref s) h in
    elim (Bool-cases (cor_ics_is_enabled s')) [
      | inl e ↦ rw e h'
      | inr e ↦ rw e (enable_loop-Within device chosen is all (λ P q. at P (there q)) s' h')
    ]

enumerate-Within :
    (device : ℕ) (chosen : List ℕ → Bool) (en : Enumeration) (s : Ics)
    → Within device chosen en.items s
    → Within device chosen en.items (enumerate en (enable_loop device chosen) s)
unfolding enumerate
enumerate-Within device chosen en s h = elim (Bool-cases en.collection) [
  | inr e ↦ rw e h
  | inl e ↦ elim (Bool-cases en.enumerator) [
    | inr e' ↦ rw (e, e') h
    | inl e' ↦ elim (Bool-cases en.variants) [
      | inr e'' ↦ rw (e, e', e'') h
      | inl e'' ↦
          rw (e, e', e'') (enable_loop-Within device chosen en.items en.items (λ P q. q) _ h)
    ]
  ]
]

-- `cor_ics_disable` leaves neither side.
cor_ics_disable-none :
    (private_config public_config : Bool) (s : Ics)
    → ((cor_ics_disable true private_config public_config s).private ≡ none)
      × ((cor_ics_disable true private_config public_config s).public ≡ none)
unfolding cor_ics_disable disable_private disable_public
cor_ics_disable-none a b s = ground arith

-- What the caller of `cor_ics_enable` finds: with `true` two connections of the enumeration, the hosted
-- network's as the private side and the chosen one as the public side; with `false` none.
pub data Outcome (device : ℕ) (chosen : List ℕ → Bool) (is : List Item) : Bool × Ics → Type 0 where
  enabled :
      {s : Ics}
      → (c d : ℕ) → s.private ≡ some c
      → s.public ≡ some d
      → Among (OffersPrivate device c) is
      → Among (OffersPublic chosen d) is
      → Outcome device chosen is (true, s)
  disabled : {s : Ics} → s.private ≡ none → s.public ≡ none → Outcome device chosen is (false, s)

both_set :
    (s : Ics)
    → cor_ics_is_enabled s ≡ true
    → (c : ℕ) × (d : ℕ) × (s.private ≡ some c) × (s.public ≡ some d)
both_set s e = elim (Option-cases s.private) [
  | inl q ↦ absurd (ground arith)
  | inr (c, q) ↦ elim (Option-cases s.public) [
    | inl q' ↦ absurd (ground arith)
    | inr (d, q') ↦ (c, d, q, q')
  ]
]

settle-Outcome :
    (device : ℕ) (chosen : List ℕ → Bool) (is : List Item) (last : Bool × Bool) (s : Ics)
    → Within device chosen is s
    → Outcome device chosen is
        (if cor_ics_is_enabled s then (true, s) else (false, cor_ics_disable true last.0 last.1 s))
settle-Outcome device chosen is b s (hp, hq) = elim (Bool-cases (cor_ics_is_enabled s)) [
  | inl e ↦ let (c, d, q, q') = both_set s e in rw e (enabled c d q q' (hp c q) (hq d q'))
  | inr e ↦ let (q, q') = cor_ics_disable-none b.0 b.1 s in rw e (disabled q q')
]

enable_all-Within :
    (device : ℕ) (chosen : List ℕ → Bool) (en : Enumeration) (first : Bool × Bool) (s : Ics)
    → Within device chosen en.items
        (enumerate en (enable_loop device chosen) (cor_ics_disable true first.0 first.1 s))
enable_all-Within device chosen en a s =
    let (q, q') = cor_ics_disable-none a.0 a.1 s in
    enumerate-Within device chosen en _ (λ d h. absurd (ground arith), λ d h. absurd (ground arith))

-- In the initialized program, and unless the hosted network is unavailable, `cor_ics_enable` has one
-- of two outcomes: its result is true, the private side is a supported connection of the enumeration
-- with the hosted network's device, and the public side is one with the chosen name, each with a
-- configuration that allowed it; or its result is false and neither side is kept.
pub cor_ics_enable-Outcome :
    (state : HnState)
    → state ≢ unavailable
    → (device : ℕ) (chosen : List ℕ → Bool) (en : Enumeration) (first last : Bool × Bool) (s : Ics)
    → Outcome device chosen en.items (cor_ics_enable true state device chosen en first last s)
unfolding cor_ics_enable
cor_ics_enable-Outcome unavailable ne device chosen en a b s = absurd (ne refl)
cor_ics_enable-Outcome idle ne device chosen en a b s =
    settle-Outcome device chosen en.items b _ (enable_all-Within device chosen en a s)
cor_ics_enable-Outcome active ne device chosen en a b s =
    settle-Outcome device chosen en.items b _ (enable_all-Within device chosen en a s)
