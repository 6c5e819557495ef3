-- ===== src/Wohn/Ics/Enumerated.antt =====
-- The connections that `cor_ics_enum` in cpp/wohn/WohnCore.cpp hands to its callback.
use model_lib.Common.{
  ℕ, ◌==◌, ◌≡◌, refl, sym, ap, ◌∙◌, Bool, Bool-cases, Option-cases, inl, inr, true, false,
  if◌then◌else◌, Option, none, some, List, [], ◌∷◌, ◌++◌, append-nil, append_assoc, not, ◌&&◌,
  arith,
}
use model_lib.Wohn.Ics.{Props, Item, Enumeration, Ics, take_ref, give_ref, nc_support}
use model_lib.Wohn.Ics.Enum.{
  Sign, negative, Enum, enum_item, is_positive, is_negative, enum_loop, cor_ics_enum,
}

-- The properties of a connection that the callback is to see.
unfoldable pub shown_item : (device : ℕ) → Item → Option Props
shown_item device i = if not i.object then none else elim i.connection [
  | none ↦ none
  | some c ↦ elim i.props [
    | none ↦ none
    | some p ↦ if nc_support p && not (p.guid == device) then some p else none
  ]
]

unfoldable pub shown : (device : ℕ) → List Item → List Props
shown device [] = []
shown device (i ∷ is) =
    let rest = shown device is in elim (shown_item device i) [ none ↦ rest | some p ↦ p ∷ rest ]

-- The elements up to the first with a positive answer, that one included.
unfoldable pub until_positive : (Props → Sign) → List Props → List Props
until_positive answer [] = []
until_positive answer (p ∷ ps) =
    let rest = until_positive answer ps in if is_positive (answer p) then p ∷ [] else p ∷ rest

-- The last answer, or `r` where there is none.
unfoldable pub last_answer : (Props → Sign) → Sign → List Props → Sign
last_answer answer r [] = r
last_answer answer r (p ∷ ps) = last_answer answer (answer p) ps

abbrev opened : Bool → Enumeration → Bool
opened initialized en = initialized && en.collection && en.enumerator && en.variants

enum_item-none :
    (device : ℕ) (answer : Props → Sign) (i : Item) (e : Enum)
    → shown_item device i ≡ none
    → ((enum_item device answer i e).r ≡ e.r) × ((enum_item device answer i e).calls ≡ e.calls)
unfolding enum_item shown_item
enum_item-none device answer i e h = ground arith

enum_item-some :
    (device : ℕ) (answer : Props → Sign) (i : Item) (e : Enum) (p : Props)
    → shown_item device i ≡ some p
    → ((enum_item device answer i e).r ≡ answer p)
      × ((enum_item device answer i e).calls ≡ e.calls ++ p ∷ [])
unfolding enum_item shown_item
enum_item-some device answer i e p h = elim (Bool-cases i.object) [
  | inr q ↦ absurd (ground (arith, rw q at h))
  | inl q ↦ elim (Option-cases i.connection) [
    | inl q' ↦ absurd (ground (arith, rw (q, q') at h))
    | inr (c, q') ↦ elim (Option-cases i.props) [
      | inl q'' ↦ absurd (ground (arith, rw (q, q', q'') at h))
      | inr (p', q'') ↦ elim (Bool-cases (nc_support p' && not (p'.guid == device))) [
        | inr u ↦ absurd (ground (arith, rw (q, q', q'', u) at h))
        | inl u ↦
            let same : p' ≡ p = ground (arith, rw (q, q', q'', u) at h) in
            rw (q, q', q'', u) (ap answer same, ap (λ x. e.calls ++ x ∷ []) same)
      ]
    ]
  ]
]

-- The loop from a state where it has not ended.
enum_loop-shown :
    (device : ℕ) (answer : Props → Sign) (is : List Item) (e : Enum)
    → is_positive e.r ≡ false
    → ((enum_loop device answer is e).calls ≡ e.calls ++ until_positive answer (shown device is))
      × ((enum_loop device answer is e).r
          ≡ last_answer answer e.r (until_positive answer (shown device is)))
unfolding enum_loop until_positive shown last_answer
enum_loop-shown device answer [] e h = (sym (append-nil e.calls), refl)
enum_loop-shown device answer (i ∷ is) e h =
    let start = record e { ics = take_ref e.ics } in
    let next = enum_item device answer i start in
    let e' = record next { ics = give_ref next.ics } in
    elim (Option-cases (shown_item device i)) [
      | inl q ↦
          let (qr, qc) = enum_item-none device answer i start q in
          let (hc, hr) = enum_loop-shown device answer is e' (ap is_positive qr ∙ h) in
          rw (shown, q, ap is_positive qr ∙ h)
            (
              hc ∙ ap (λ cs. cs ++ until_positive answer (shown device is)) qc,
              hr ∙ ap (λ r. last_answer answer r (until_positive answer (shown device is))) qr,
            )
      | inr (p, q) ↦
          let (qr, qc) = enum_item-some device answer i start p q in
          elim (Bool-cases (is_positive (answer p))) [
            | inl u ↦ rw (shown, q, ap is_positive qr ∙ u, u) (qc, qr)
            | inr u ↦
                let (hc, hr) = enum_loop-shown device answer is e' (ap is_positive qr ∙ u) in
                let rest = until_positive answer (shown device is) in
                rw (shown, q, ap is_positive qr ∙ u, u)
                  (
                    hc ∙ ap (λ cs. cs ++ rest) qc ∙ append_assoc e.calls (p ∷ []) rest,
                    hr ∙ ap (λ r. last_answer answer r rest) qr,
                  )
          ]
    ]

-- The callback of `cor_ics_enum` sees the supported connections other than the hosted network's
-- device, in their order, up to and including the first for which it answers with a positive
-- number; the result is true if and only if it was called and its last answer is not negative. It sees
-- none where the program is not initialized or the system gives no enumeration.
pub cor_ics_enum-shown :
    (initialized : Bool) (device : ℕ) (answer : Props → Sign) (en : Enumeration) (s : Ics)
    → let calls =
        until_positive answer (if opened initialized en then shown device en.items else []) in
      ((cor_ics_enum initialized device answer en s).1 ≡ calls)
      × ((cor_ics_enum initialized device answer en s).0
          ≡ not (is_negative (last_answer answer negative calls)))
unfolding cor_ics_enum until_positive last_answer
cor_ics_enum-shown false device answer en s = (refl, refl)
cor_ics_enum-shown true device answer en s = elim (Bool-cases en.collection) [
  | inr q ↦ rw q (refl, refl)
  | inl q ↦ elim (Bool-cases en.enumerator) [
    | inr q' ↦ rw (q, q') (refl, refl)
    | inl q' ↦ elim (Bool-cases en.variants) [
      | inr q'' ↦ rw (q, q', q'') (refl, refl)
      | inl q'' ↦
          let (hc, hr) = enum_loop-shown device answer en.items _ refl in
          rw (q, q', q'') (hc, ap (λ r. not (is_negative r)) hr)
    ]
  ]
]
