-- ===== src/Dotjson/Table/Place.antt =====
-- `object_slot` and `place` in a well-formed table with room.
use mathlib.Core.Logic.{◌≢◌}
use model_lib.Common.{
  ℕ, zero, suc, ◌+◌, ◌<◌, ◌≤◌, ◌≡◌, sym, ap, ◌∙◌, subst, subst₂, List, Option, none, some,
  Option-cases, inl, inr, ◌⊎◌, arith, length, set, length-set,
}
use native.Mathlib.Decide.{ℕ_discrete}
use model_lib.Dotjson.Text.{Bytes}
use model_lib.Dotjson.Node.{Entry, Object}
use model_lib.Dotjson.Table.{hash, probe, entry_at, slot_loop, object_slot, place}
use model_lib.Dotjson.Table.Hash.{hash-lt}
use model_lib.Dotjson.Table.Probe.{probe-lt, probe_onto}
use model_lib.Dotjson.Table.Shape.{
  Holds, UsedBefore, Reached, IsTable, free_slot, count_used-set, entry_at-set_self,
  entry_at-set_ne,
}

module _ {ℓ} {V : Type ℓ} where
  -- The first round from `i` on whose slot is free.
  abbrev FirstFree : Object V → ℕ → ℕ → ℕ → ℕ → Type ℓ
  FirstFree o h i slot t =
      (i ≤ t)
      × (slot ≡ probe o.cap h t)
      × (entry_at o.entries (probe o.cap h t) ≡ none)
      × ((i' : ℕ) → i ≤ i' → i' < t → entry_at o.entries (probe o.cap h i') ≢ none)

  slot_loop_first :
      (o : Object V) (h rounds i end : ℕ)
      → i ≤ end
      → end < i + rounds
      → entry_at o.entries (probe o.cap h end) ≡ none
      → (t : ℕ) × (t ≤ end) × FirstFree o h i (slot_loop o h rounds i) t
  unfolding slot_loop
  slot_loop_first o h zero i end le lt empty = absurd (omega arith)
  slot_loop_first o h (suc rounds) i end le lt empty =
      elim (Option-cases (entry_at o.entries (probe o.cap h i))) [
        | inl free ↦
            (i, le, (omega arith, rw (free, slot_loop), free, λ i' a b. absurd (omega arith)))
        | inr (e, here) ↦
            let later : i ≢ end =
              λ same. cc (ap (λ x. entry_at o.entries (probe o.cap h x)) same) in
            let (t, below, first) =
              slot_loop_first o h rounds (i + 1) end (omega arith) (omega arith) empty in
            (
              t,
              below,
              (
                omega arith,
                rw (here, slot_loop) first.1,
                first.2,
                λ i' a b. elim (ℕ_discrete i' i) [
                  | yes same ↦ λ none_here. cc (ap (λ x. entry_at o.entries (probe o.cap h x)) same)
                  | no other ↦ first.3 i' (omega arith) b
                ],
              ),
            )
      ]

  -- In a table with room the slot found is free, and its probes before it are in use.
  module _ {o : Object V} (wf : IsTable o) (room : o.len < o.cap) (key : Bytes) where
    record Landing (t : ℕ) : Type ℓ where
      round : t < o.cap
      slot : object_slot o key ≡ probe o.cap (hash key) t
      inside : object_slot o key < length o.entries
      empty : entry_at o.entries (object_slot o key) ≡ none
      before : UsedBefore o (hash key) t

    object_slot-free : (t : ℕ) × Landing t
    unfolding object_slot
    object_slot-free =
        let (j, lj, empty) = free_slot o.entries (omega (arith, wf.counted, wf.size)) in
        let (end, le, onto) =
          probe_onto wf.capacity (hash key) j (hash-lt key) (omega (arith, wf.size)) in
        let (t, lt, first) =
          slot_loop_first o (hash key) o.cap 0 end (omega arith) (omega arith)
            (ap (entry_at o.entries) onto ∙ empty) in
        (
          t,
          record {
            round = omega arith;
            slot = first.1;
            inside =
                subst (λ x. x < length o.entries) (sym first.1)
                  (omega (
                    arith,
                    wf.size,
                    probe-lt wf.capacity (hash key) t (hash-lt key) (omega arith),
                  ));
            empty = ap (entry_at o.entries) first.1 ∙ first.2;
            before = λ i' b. first.3 i' (omega arith) b;
          },
        )

  -- Filling a free slot keeps each path.
  Reached-set :
      (o : Object V) (s : ℕ) (e : Entry V) (n h j : ℕ)
      → s < length o.entries
      → Reached o h j
      → Reached (record o { len = n; entries = set o.entries s (some e) }) h j
  Reached-set o s e n h j inside (i, lt, at, before) = (
    i,
    lt,
    at,
    λ i' b. elim (ℕ_discrete (probe o.cap h i') s) [
      | yes same ↦ rw (same, entry_at-set_self o.entries s e inside) (λ x. cc)
      | no other ↦ rw (entry_at-set_ne o.entries s _ e other) (before i' b)
    ],
  )

  Holds-set :
      (es : List (Option (Entry V))) (s j : ℕ) (e e' : Entry V)
      → s < length es
      → entry_at (set es s (some e)) j ≡ some e'
      → ((j ≡ s) × (e ≡ e')) ⊎ (entry_at es j ≡ some e')
  Holds-set es s j e e' inside h = elim (ℕ_discrete j s) [
    | yes same ↦
        inl (same, cc (entry_at-set_self es s e inside, ap (entry_at (set es s (some e))) same))
    | no other ↦ inr (sym (entry_at-set_ne es s j e other) ∙ h)
  ]

  module _ {o : Object V} (e : Entry V) (wf : IsTable o) (room : o.len < o.cap) where
    -- What `place` puts into a table with room: the new entry, and nothing else.
    pub Holds-place_inv : (j : ℕ) (e' : Entry V) → Holds (place o e) j e' → (e ≡ e') ⊎ Holds o j e'
    unfolding place
    Holds-place_inv j e' h =
        elim (Holds-set o.entries _ j e e' (object_slot-free wf room e.key).1.inside h) [
          | inl both ↦ inl both.1
          | inr old ↦ inr old
        ]

    pub Holds-place_new : Holds (place o e) (object_slot o e.key) e
    unfolding place
    Holds-place_new = entry_at-set_self o.entries _ e (object_slot-free wf room e.key).1.inside

    -- No entry is overwritten.
    pub Holds-place_old : (j : ℕ) (e' : Entry V) → Holds o j e' → Holds (place o e) j e'
    unfolding place
    Holds-place_old j e' h =
        let (t, s) = object_slot-free wf room e.key in
        entry_at-set_ne o.entries (object_slot o e.key) j e
          (λ same. cc (h, s.empty, ap (entry_at o.entries) same))
        ∙ h

    place_reach :
        (j : ℕ) (e' : Entry V) → Holds (place o e) j e' → Reached (place o e) (hash e'.key) j
    unfolding place
    place_reach j e' h =
        let (t, s) = object_slot-free wf room e.key in
        elim (Holds-set o.entries (object_slot o e.key) j e e' s.inside h) [
          | inl both ↦
              subst₂ (λ x y. Reached (place o e) (hash y.key) x) (sym both.0) both.1
                (Reached-set o (object_slot o e.key) e (o.len + 1) (hash e.key)
                  (object_slot o e.key) s.inside (t, s.round, sym s.slot, s.before))
          | inr old ↦
              Reached-set o (object_slot o e.key) e (o.len + 1) (hash e'.key) j s.inside
                (wf.reach j e' old)
        ]

    -- `place` in a table with room keeps the table well-formed.
    pub place-IsTable : e.keyhash ≡ hash e.key → IsTable (place o e)
    unfolding place
    place-IsTable hashed =
        let (t, s) = object_slot-free wf room e.key in
        record {
          capacity = wf.capacity;
          size = length-set o.entries (object_slot o e.key) (some e) ∙ wf.size;
          counted = omega (
            arith,
            count_used-set o.entries (object_slot o e.key) e s.inside s.empty,
            wf.counted,
          );
          hashed = λ j e' h. elim (Holds-place_inv j e' h) [
            | inl same ↦ subst (λ x. x.keyhash ≡ hash x.key) same hashed
            | inr old ↦ wf.hashed j e' old
          ];
          reach = place_reach;
        }
