-- ===== src/Dotjson/Table/Grow.antt =====
-- `object_grow` and `add_entry` on well-formed tables.
use native.Mathlib.Decide.{dec_lt}
use native.Mathlib.Nat.{pow-le-pow_right, pow-suc}
use model_lib.Common.{
  ℕ, zero, suc, ◌+◌, ◌*◌, ◌^◌, ◌<◌, ◌≤◌, ◌≡◌, refl, sym, ap, ◌∙◌, subst, List, [], ◌∷◌, false, ◌==◌,
  ==→eq, Option, none, some, inl, inr, ◌⊎◌, arith, length, take, Bool-cases, leb, if◌then◌else◌,
}
use model_lib.Dotjson.Node.{Entry, Object}
use model_lib.Dotjson.Table.{
  hash, entry_at, object_slot, place, fresh_table, move_all, object_grow, add_entry, min_bucket,
}
use model_lib.Dotjson.Table.Hash.{min_bucket_doubles}
use model_lib.Dotjson.Table.Probe.{IsCapacity, capacity_pos}
use model_lib.Dotjson.Table.Shape.{
  Holds, IsTable, count_used, count_used-le, fresh_table-empty, fresh_table-IsTable,
}
use model_lib.Dotjson.Table.Place.{Holds-place_inv, Holds-place_new, Holds-place_old, place-IsTable}

bits_below : {cap : ℕ} (c : IsCapacity cap) → cap < 2 ^ 32 → c.bits < 32
bits_below c below = elim (dec_lt c.bits 32) [
  | yes lt ↦ lt
  | no ge ↦ absurd (
      omega (
        arith,
        c.power,
        pow-le-pow_right {n = 2} (omega arith) {i = 32} {j = c.bits} (omega arith),
      ))
]

module _ {ℓ} {V : Type ℓ} where
  -- Some slot holds `e`.
  abbrev pub Contains : Object V → Entry V → Type ℓ
  Contains o e = (j : ℕ) × Holds o j e

  -- The entries of a list of slots.
  abbrev Listed : List (Option (Entry V)) → Entry V → Type ℓ
  Listed es e = (i : ℕ) × (entry_at es i ≡ some e)

  abbrev Hashed : List (Option (Entry V)) → Type ℓ
  Hashed es = (i : ℕ) (e : Entry V) → entry_at es i ≡ some e → e.keyhash ≡ hash e.key

  pub record Moved (es : List (Option (Entry V))) (to result : Object V) : Type ℓ where
    pub table : IsTable result
    pub cap_same : result.cap ≡ to.cap
    pub len_sum : result.len ≡ to.len + count_used es
    pub kept : (e : Entry V) → Contains to e → Contains result e
    pub moved : (e : Entry V) → Listed es e → Contains result e
    pub nothing_else : (e : Entry V) → Contains result e → Contains to e ⊎ Listed es e

  Listed-none : (es : List (Option (Entry V))) (e : Entry V) → Listed (none ∷ es) e → Listed es e
  Listed-none es e (zero, h) = cc
  Listed-none es e (suc i, h) = (i, h)

  Listed-some :
      (x : Entry V) (es : List (Option (Entry V))) (e : Entry V)
      → Listed (some x ∷ es) e
      → (x ≡ e) ⊎ Listed es e
  Listed-some x es e (zero, h) = inl (cc)
  Listed-some x es e (suc i, h) = inr (i, h)

  -- One more entry placed in front of those that are moved.
  Moved-place :
      (x : Entry V) (es : List (Option (Entry V))) {to result : Object V}
      → IsTable to
      → to.len < to.cap
      → Moved es (place to x) result
      → Moved (some x ∷ es) to result
  unfolding count_used
  Moved-place x es {to} {result} wf room rest = record {
    table = rest.table;
    cap_same = rest.cap_same ∙ (unfold place in refl);
    len_sum = unfold place in omega (arith, rest.len_sum);
    kept = λ e h. rest.kept e (h.0, Holds-place_old x wf room h.0 e h.1);
    moved = λ e h. elim (Listed-some x es e h) [
      | inl same ↦
          subst (λ y. Contains result y) same
            (rest.kept x (object_slot to x.key, Holds-place_new x wf room))
      | inr later ↦ rest.moved e later
    ];
    nothing_else = λ e h. elim (rest.nothing_else e h) [
      | inl (j, held) ↦ elim (Holds-place_inv x wf room j e held) [
        | inl same ↦ inr (0, ap some same)
        | inr old ↦ inl (j, old)
      ]
      | inr (i, listed) ↦ inr (suc i, listed)
    ];
  }

  -- All entries of the list reach the table, in which there is room for them.
  move_all-Moved :
      (es : List (Option (Entry V))) (to : Object V)
      → IsTable to
      → Hashed es
      → to.len + count_used es ≤ to.cap
      → Moved es to (move_all es to)
  unfolding move_all count_used
  move_all-Moved [] to wf hashed room = record {
    table = wf;
    cap_same = refl;
    len_sum = omega arith;
    kept = λ e h. h;
    moved = λ e h. cc (h.1);
    nothing_else = λ e h. inl h;
  }
  move_all-Moved (none ∷ es) to wf hashed room =
      let rest = move_all-Moved es to wf (λ i e h. hashed (suc i) e h) room in
      record {
        table = rest.table;
        cap_same = rest.cap_same;
        len_sum = rest.len_sum;
        kept = rest.kept;
        moved = λ e h. rest.moved e (Listed-none es e h);
        nothing_else =
            λ e h. elim (rest.nothing_else e h) [ inl a ↦ inl a | inr (i, b) ↦ inr (suc i, b) ];
      }
  move_all-Moved (some x ∷ es) to wf hashed room = Moved-place x es wf (omega arith) (
      move_all-Moved es (place to x) (place-IsTable x wf (omega arith) (hashed 0 x refl))
        (λ i e h. hashed (suc i) e h) (unfold place in omega arith))

  take_all : (es : List (Option (Entry V))) (n : ℕ) → length es ≡ n → take n es ≡ es
  take_all [] zero h = refl
  take_all [] (suc n) h = refl
  take_all (x ∷ es) zero h = absurd (omega arith)
  take_all (x ∷ es) (suc n) h = ap (λ t. x ∷ t) (take_all es n (omega arith))

  -- A table that is full, and below 2 ^ 32 slots.
  module _ {o : Object V} (wf : IsTable o) (full : o.len ≡ o.cap) (below : o.cap < 2 ^ 32) where
    doubled : min_bucket (o.len + 1) ≡ 2 ^ suc wf.capacity.bits
    doubled =
        ap (λ n. min_bucket (n + 1)) (full ∙ wf.capacity.power)
        ∙ min_bucket_doubles wf.capacity.bits (bits_below wf.capacity below)

    doubled_cap : min_bucket (o.len + 1) ≡ 2 * o.cap
    doubled_cap = omega (arith, doubled, wf.capacity.power, pow-suc 2 wf.capacity.bits)

    doubled-IsCapacity : IsCapacity (min_bucket (o.len + 1))
    doubled-IsCapacity = record {
      bits = suc wf.capacity.bits;
      power = doubled;
      small = rw doubled (
          pow-le-pow_right {n = 2} (omega arith) {i = suc wf.capacity.bits} {j = 32}
            (bits_below wf.capacity below));
    }

    -- From a well-formed, full table of fewer than 2 ^ 32 slots `object_grow` makes a well-formed one
    -- that has `min_bucket` slots and holds the same entries.
    pub object_grow-Moved :
        Moved o.entries (fresh_table (min_bucket (o.len + 1))) (object_grow (some o))
    unfolding object_grow
    object_grow-Moved =
        let wider : leb (min_bucket (o.len + 1)) o.cap ≡ false =
          rw doubled_cap (ground (arith, capacity_pos wf.capacity)) in
        rw (wider, take_all o.entries o.len (wf.size ∙ sym full))
          (move_all-Moved o.entries (fresh_table (min_bucket (o.len + 1)))
            (fresh_table-IsTable V _ doubled-IsCapacity) wf.hashed
            (omega (arith, wf.counted, doubled_cap)))

  -- What a table is after `add_entry`: one entry more, and every entry there was, in twice the slots if
  -- it was full and in the same number of them otherwise.
  pub record Added (o : Object V) (e : Entry V) (result : Object V) : Type ℓ where
    pub table : IsTable result
    pub len_next : result.len ≡ o.len + 1
    pub cap_next : result.cap ≡ (if o.len == o.cap then 2 * o.cap else o.cap)
    pub added : Contains result e
    pub kept : (e' : Entry V) → Contains o e' → Contains result e'
    pub nothing_else : (e' : Entry V) → Contains result e' → (e ≡ e') ⊎ Contains o e'

  place-Added :
      {o : Object V} (e : Entry V)
      → IsTable o
      → o.len < o.cap
      → e.keyhash ≡ hash e.key
      → Added o e (place o e)
  place-Added {o} e wf room hashed = record {
    table = place-IsTable e wf room hashed;
    len_next = unfold place in refl;
    cap_next = unfold place in ground arith;
    added = (object_slot o e.key, Holds-place_new e wf room);
    kept = λ e' h. (h.0, Holds-place_old e wf room h.0 e' h.1);
    nothing_else = λ e' h. elim (Holds-place_inv e wf room h.0 e' h.1) [
      | inl same ↦ inl same
      | inr old ↦ inr (h.0, old)
    ];
  }

  full-Added :
      {o : Object V} (e : Entry V)
      → IsTable o
      → o.len ≡ o.cap
      → o.cap < 2 ^ 32
      → e.keyhash ≡ hash e.key
      → Added o e (place (object_grow (some o)) e)
  full-Added {o} e wf full below hashed =
      let grown = object_grow-Moved wf full below in
      let put =
        place-Added e grown.table
          (omega (
            arith,
            grown.cap_same,
            grown.len_sum,
            wf.counted,
            doubled_cap wf full below,
            capacity_pos wf.capacity,
          ))
          hashed in
      record {
        table = put.table;
        len_next = omega (arith, put.len_next, grown.len_sum, wf.counted);
        cap_next = ground (
          arith,
          put.cap_next,
          grown.cap_same,
          grown.len_sum,
          wf.counted,
          doubled_cap wf full below,
          full,
        );
        added = put.added;
        kept = λ e' h. put.kept e' (grown.moved e' h);
        nothing_else = λ e' h. elim (put.nothing_else e' h) [
          | inl same ↦ inl same
          | inr held ↦ elim (grown.nothing_else e' held) [
            | inl fresh ↦ absurd (fresh_table-empty V _ fresh.0 e' fresh.1)
            | inr old ↦ inr old
          ]
        ];
      }

  -- To a well-formed table of fewer than 2 ^ 32 slots `add_entry` adds an entry that carries the hash
  -- of its key: the result is well-formed, counts one entry more and holds the new entry, every old
  -- one and no other. It has twice the slots if the table was full, and the same number otherwise.
  pub add_entry-Added :
      (o : Object V) (e : Entry V)
      → IsTable o
      → o.cap < 2 ^ 32
      → e.keyhash ≡ hash e.key
      → Added o e (add_entry (some o) e)
  unfolding add_entry
  add_entry-Added o e wf below hashed = elim (Bool-cases (o.len == o.cap)) [
    | inl full ↦ rw full (full-Added e wf (==→eq o.len o.cap full) below hashed)
    | inr room ↦
        rw room
          (place-Added e wf (ground (arith, count_used-le o.entries, wf.counted, wf.size)) hashed)
  ]

  -- With no object yet, `add_entry` makes a well-formed table that holds just the entry, if the entry
  -- carries the hash of its key.
  pub add_entry-first :
      (e : Entry V) → e.keyhash ≡ hash e.key → Added (fresh_table 1) e (add_entry none e)
  unfolding add_entry object_grow
  add_entry-first e hashed =
      place-Added e
        (fresh_table-IsTable V 1 (record { bits = 0; power = refl; small = omega arith }))
        (omega arith) hashed
