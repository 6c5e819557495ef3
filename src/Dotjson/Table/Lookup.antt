-- ===== src/Dotjson/Table/Lookup.antt =====
-- `object_find` and `dotjson_object_get` in a well-formed table.
use native.Mathlib.Decide.{ℕ_discrete}
use model_lib.Common.{
  ℕ, zero, suc, ◌+◌, ◌^◌, ◌<◌, ◌≤◌, ◌≡◌, ◌≢◌, refl, sym, ap, ◌∙◌, subst, List, [], ◌∷◌, true, false,
  ltb, lt→ltb, ==-refl, if◌then◌else◌, Option, none, some, inl, inr, ◌⊎◌, arith, Bool-cases,
  Option-cases,
}
use model_lib.Dotjson.Text.{Bytes}
use model_lib.Dotjson.Node.{Entry, Object}
use model_lib.Dotjson.Table.{
  hash, same_text, probe, entry_at, is_hit, find_loop, object_find, add_entry, object_get,
}
use model_lib.Dotjson.Table.Hash.{hash-lt, hash-same_text, same_text_trans, same_text_symm}
use model_lib.Dotjson.Table.Probe.{probe-lt}
use model_lib.Dotjson.Table.Shape.{Holds, UsedBefore, Reached, IsTable}
use model_lib.Dotjson.Table.Grow.{Contains, Added, add_entry-Added}

ltb_irrefl : (n : ℕ) → ltb n n ≡ false
ltb_irrefl n = ground arith

module _ {ℓ} {V : Type ℓ} where
  -- The loop ends in a slot that hits, by the round `end` at the latest.
  abbrev Found : Object V → ℕ → Bytes → ℕ → ℕ → Type ℓ
  Found o h key end result =
      (t : ℕ) × (e : Entry V) × (t ≤ end)
      × (result ≡ probe o.cap h t)
      × Holds o (probe o.cap h t) e
      × (is_hit h key e ≡ true)

  find_loop_hit :
      (o : Object V) (h : ℕ) (key : Bytes) (rounds i end : ℕ) (e : Entry V)
      → i ≤ end
      → end < i + rounds
      → Holds o (probe o.cap h end) e
      → is_hit h key e ≡ true
      → UsedBefore o h end
      → Found o h key end (find_loop o h key rounds i)
  unfolding find_loop
  find_loop_hit o h key zero i end e le lt held hit before = absurd (omega arith)
  find_loop_hit o h key (suc rounds) i end e le lt held hit before =
      elim (Option-cases (entry_at o.entries (probe o.cap h i))) [
        | inl free ↦ elim (ℕ_discrete i end) [
          | yes same ↦ cc (held, free, ap (λ x. entry_at o.entries (probe o.cap h x)) same)
          | no other ↦ absurd (before i (omega arith) free)
        ]
        | inr (x, here) ↦ elim (Bool-cases (is_hit h key x)) [
          | inl this ↦ (i, x, le, rw (here, find_loop, this, find_loop), here, this)
          | inr miss ↦
              let later : i ≢ end = λ same.
                cc (held, here, hit, miss, ap (λ x. entry_at o.entries (probe o.cap h x)) same) in
              rw (here, find_loop, miss, find_loop)
                (find_loop_hit o h key rounds (i + 1) end e (omega arith) (omega arith) held hit
                  before)
        ]
      ]

  is_hit-same_text :
      (h : ℕ) (key : Bytes) (e : Entry V) → is_hit h key e ≡ true → same_text e.key key ≡ true
  unfolding is_hit
  is_hit-same_text h key e hit = ground arith

  find_loop_miss :
      (o : Object V) (h : ℕ) (key : Bytes) (rounds i : ℕ)
      → ((j : ℕ) (e : Entry V) → Holds o j e → same_text e.key key ≡ false)
      → find_loop o h key rounds i ≡ o.cap
  unfolding find_loop
  find_loop_miss o h key zero i absent = refl
  find_loop_miss o h key (suc rounds) i absent =
      elim (Option-cases (entry_at o.entries (probe o.cap h i))) [
        | inl free ↦ rw (free, find_loop)
        | inr (x, here) ↦ elim (Bool-cases (is_hit h key x)) [
          | inl this ↦ cc (is_hit-same_text h key x this, absent (probe o.cap h i) x here)
          | inr miss ↦
              rw (here, find_loop, miss, find_loop) (find_loop_miss o h key rounds (i + 1) absent)
        ]
      ]

  hits :
      {o : Object V} (wf : IsTable o) (j : ℕ) (e : Entry V) (key : Bytes)
      → Holds o j e
      → same_text e.key key ≡ true
      → is_hit (hash key) key e ≡ true
  unfolding is_hit
  hits wf j e key held same =
      let hashes = wf.hashed j e held ∙ hash-same_text e.key key same in
      rw (hashes, ==-refl (hash key)) same

  get_at :
      (o : Object V) (key : Bytes) (j : ℕ) (e : Entry V)
      → object_find o key ≡ j
      → j < o.cap
      → Holds o j e
      → object_get o key ≡ some e.val
  unfolding object_get
  get_at o key j e at lt held = rw (at, lt→ltb j o.cap lt, held)

  -- In a well-formed table that holds an entry of the key, `dotjson_object_get` gets the value of an
  -- entry of the key.
  pub object_get-present :
      {o : Object V} (wf : IsTable o) (e : Entry V) (key : Bytes)
      → Contains o e
      → same_text e.key key ≡ true
      → (found : Entry V) × Contains o found
        × (same_text found.key key ≡ true)
        × (object_get o key ≡ some found.val)
  object_get-present {o} wf e key (j, held) same =
      let reach = subst (λ h. Reached o h j) (hash-same_text e.key key same) (wf.reach j e held) in
      let (end, lt, at, before) = reach in
      let held' = ap (entry_at o.entries) at ∙ held in
      let (t, x, below, result, here, hit) =
        find_loop_hit o (hash key) key o.cap 0 end e (omega arith) (omega arith) held'
          (hits wf j e key held same) before in
      (
        x,
        (probe o.cap (hash key) t, here),
        is_hit-same_text (hash key) key x hit,
        get_at o key (probe o.cap (hash key) t) x (unfold object_find in result)
            (probe-lt wf.capacity (hash key) t (hash-lt key) (omega arith)) here,
      )

  -- In an object, well-formed or not, that holds no entry of the key, `dotjson_object_get` gets nothing.
  pub object_get-absent :
      (o : Object V) (key : Bytes)
      → ((e : Entry V) → Contains o e → same_text e.key key ≡ false)
      → object_get o key ≡ none
  unfolding object_get object_find
  object_get-absent o key absent =
      let miss = find_loop_miss o (hash key) key o.cap 0 (λ j e h. absent e (j, h)) in
      rw (miss, ltb_irrefl o.cap)

  -- No two entries with the same key.
  abbrev pub DistinctKeys : Object V → Type ℓ
  DistinctKeys o =
      (e e' : Entry V) → Contains o e → Contains o e' → same_text e.key e'.key ≡ true → e ≡ e'

  -- With distinct keys each entry is got by its key.
  pub object_get-distinct :
      {o : Object V} (wf : IsTable o) (e : Entry V) (key : Bytes)
      → DistinctKeys o
      → Contains o e
      → same_text e.key key ≡ true
      → object_get o key ≡ some e.val
  object_get-distinct wf e key distinct held same =
      let (x, here, hit, got) = object_get-present wf e key held same in
      got
      ∙ ap (λ y. some y.val)
          (distinct x e here held
            (same_text_trans x.key key e.key hit (same_text_symm e.key key same)))

  absent_behind :
      (x : Option (Entry V)) (es : List (Option (Entry V))) (key : Bytes)
      → ((e : Entry V) → x ≡ some e → same_text e.key key ≡ false)
      → ((j : ℕ) (e : Entry V) → entry_at es j ≡ some e → same_text e.key key ≡ false)
      → (j : ℕ) (e : Entry V) → entry_at (x ∷ es) j ≡ some e
      → same_text e.key key ≡ false
  absent_behind x es key first rest zero e h = first e h
  absent_behind x es key first rest (suc j) e h = rest j e h

  -- Some slot has the key, or none has.
  key_or_not :
      (es : List (Option (Entry V))) (key : Bytes)
      → ((j : ℕ) × (e : Entry V) × (entry_at es j ≡ some e) × (same_text e.key key ≡ true))
        ⊎ ((j : ℕ) (e : Entry V) → entry_at es j ≡ some e → same_text e.key key ≡ false)
  key_or_not [] key = inr (λ j e h. cc)
  key_or_not (none ∷ es) key = elim (key_or_not es key) [
    | inl (j, e, held, same) ↦ inl (suc j, e, held, same)
    | inr absent ↦ inr (absent_behind none es key (λ e h. cc) absent)
  ]
  key_or_not (some x ∷ es) key = elim (Bool-cases (same_text x.key key)) [
    | inl same ↦ inl (0, x, refl, same)
    | inr other ↦ elim (key_or_not es key) [
      | inl (j, e, held, same) ↦ inl (suc j, e, held, same)
      | inr absent ↦ inr (
          absent_behind (some x) es key
            (λ e h.
              let eq : x ≡ e = cc h in
              subst (λ (y : Entry V). same_text y.key key ≡ false) eq other)
            absent)
    ]
  ]

  Added-DistinctKeys :
      {o result : Object V} {e : Entry V}
      → Added o e result
      → DistinctKeys o
      → ((e' : Entry V) → Contains o e' → same_text e'.key e.key ≡ false)
      → DistinctKeys result
  Added-DistinctKeys {o} {e} add distinct new a b in_a in_b same = elim (add.nothing_else a in_a) [
    | inl ea ↦ elim (add.nothing_else b in_b) [
      | inl eb ↦ sym ea ∙ eb
      | inr old ↦
          cc (new b old, same_text_symm a.key b.key same, ap (λ x. same_text b.key x.key) ea)
    ]
    | inr old_a ↦ elim (add.nothing_else b in_b) [
      | inl eb ↦ cc (new a old_a, same, ap (λ x. same_text a.key x.key) eb)
      | inr old ↦ distinct a b old_a old same
    ]
  ]

  other_key :
      {o result : Object V} {e : Entry V} (key : Bytes)
      → IsTable o
      → DistinctKeys o
      → DistinctKeys result
      → Added o e result
      → same_text e.key key ≡ false
      → object_get result key ≡ object_get o key
  other_key {o} {result} {e} key wf distinct distinct' add other = elim (key_or_not o.entries key) [
    | inl (j, x, held, same) ↦
        object_get-distinct add.table x key distinct' (add.kept x (j, held)) same
        ∙ sym (object_get-distinct wf x key distinct (j, held) same)
    | inr absent ↦
        object_get-absent result key (λ x h. elim (add.nothing_else x h) [
          | inl ex ↦ subst (λ y. same_text y.key key ≡ false) ex other
          | inr (j, old) ↦ absent j x old
        ])
        ∙ sym (object_get-absent o key (λ x h. absent h.0 x h.1))
  ]

  -- In a well-formed table of fewer than 2 ^ 32 slots and with distinct keys, add an entry that
  -- carries the hash of its key, a key that no entry there has. Then that key gets the new value, and
  -- every other key what it got before.
  pub object_get-add_entry :
      (o : Object V) (e : Entry V) (key : Bytes)
      → IsTable o
      → o.cap < 2 ^ 32
      → e.keyhash ≡ hash e.key
      → DistinctKeys o
      → ((e' : Entry V) → Contains o e' → same_text e'.key e.key ≡ false)
      → object_get (add_entry (some o) e) key
        ≡ (if same_text e.key key then some e.val else object_get o key)
  object_get-add_entry o e key wf below hashed distinct new =
      let add = add_entry-Added o e wf below hashed in
      let distinct' = Added-DistinctKeys add distinct new in
      elim (Bool-cases (same_text e.key key)) [
        | inl same ↦ rw same (object_get-distinct add.table e key distinct' add.added same)
        | inr other ↦ rw other (other_key key wf distinct distinct' add other)
      ]
