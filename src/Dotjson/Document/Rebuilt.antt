-- ===== src/Dotjson/Document/Rebuilt.antt =====
-- What decoding rebuilds stands for the same value.
use model_lib.Common.{
  ℕ, ◌+◌, ◌*◌, ◌<◌, ◌≤◌, ◌≡◌, ◌^◌, ◌⊎◌, inl, inr, refl, sym, ap, ◌∙◌, subst, List, [], ◌∷◌, ◌++◌,
  append_assoc, append-nil, none, some, Bool-cases, arith, length, ltb, ◌==◌,
}
use model_lib.Dotjson.Text.{Bytes}
use model_lib.Dotjson.Node.{
  Node, null, false_node, true_node, number, string, object, array, Slots, no_slots, free, used,
  Items, no_items, item, Entry, Object, Array, object_node, array_node, to_items,
}
use model_lib.Dotjson.Table.{hash, add_entry, object_grow, fresh_table}
use model_lib.Dotjson.Table.Shape.{IsTable, fresh_table-empty, fresh_table-IsTable}
use model_lib.Dotjson.Table.Probe.{IsCapacity}
use model_lib.Dotjson.Table.Grow.{Contains, Added, add_entry-Added, add_entry-first}
use model_lib.Dotjson.Decode.{array_grow, array_push}
use model_lib.Dotjson.Document.{rebuild, rebuild_slots, rebuild_items, filled_object, filled_array}
use model_lib.Dotjson.Document.Same.{
  entry_count, Countable, CountableSlots, CountableItems, Same, KeptIn, Among, SameItems,
}

array_push-items : (a : Array) (n : Node) → (array_push (some a) n).items ≡ a.items ++ n ∷ []
unfolding array_push array_grow
array_push-items a n = elim (Bool-cases (length a.items == a.cap)) [
  | inr e ↦ rw e refl
  | inl e ↦ elim (Bool-cases (ltb (length a.items) a.cap)) [
    | inl q ↦ rw (e, q) refl
    | inr q ↦ rw (e, q) refl
  ]
]

-- An entry with a key and a value, as decode_object makes it.
abbrev fresh_entry : Bytes → Node → Entry Node
fresh_entry key n = record { keyhash = hash key; key = key; val = n }

-- The entries that are added to a table.
abbrev Adds : Slots → Object Node → Object Node → Type 0
Adds s o o' =
    IsTable o'
    × (o'.len ≡ o.len + entry_count s)
    × KeptIn s o'
    × ((e : Entry Node) → Contains o e → Contains o' e)
    × ((e : Entry Node) → Contains o' e → Among s e ⊎ Contains o e)

Added-Among :
    (key : Bytes) (v n : Node) (h : ℕ) (s : Slots) (o : Object Node) {r : Object Node}
    (e : Entry Node)
    → Same v n
    → Added o (fresh_entry key n) r
    → Contains r e
    → Among (used h key v s) e ⊎ Contains o e
unfolding Among
Added-Among key v n h s o e same add held = elim (add.nothing_else e held) [
  | inl eq ↦ inl (
      inl
        (ap (λ y. y.key) (sym eq), ap (λ y. y.keyhash) (sym eq), subst (λ y. Same v y.val) eq same))
  | inr old ↦ inr old
]

one_slot : IsCapacity 1
one_slot = record { bits = 0; power = refl; small = omega arith }

mutual
  unfolding rebuild rebuild_slots rebuild_items Same Countable entry_count object_grow array_grow
      array_push array_node to_items

  pub rebuild-Same : (n : Node) → Countable n → Same n (rebuild n)
  rebuild-Same null h = refl
  rebuild-Same false_node h = refl
  rebuild-Same true_node h = refl
  rebuild-Same (number raw) h = refl
  rebuild-Same (string s) h = refl
  rebuild-Same (object cap len slots) h = slots-Same cap len slots h.0 h.1
  rebuild-Same (array cap items) h = items-Same cap items h

  slots-Same :
      (cap len : ℕ) (s : Slots)
      → entry_count s < 2 ^ 31
      → CountableSlots s
      → Same (object cap len s) (object_node (filled_object (rebuild_slots s none)))
  slots-Same cap len no_slots few h = (
    fresh_table 1,
    refl,
    fresh_table-IsTable (Node) 1 one_slot,
    refl,
    tt,
    λ e g. absurd (fresh_table-empty Node 1 g.0 e g.1),
  )
  slots-Same cap len (free s) few h = slots-Same cap len s few h
  slots-Same cap len (used k key v s) few h =
      let e₀ = fresh_entry key (rebuild v) in
      let same = rebuild-Same v h.0 in
      let add = add_entry-first e₀ refl in
      let (o', q, (wf', len', keeps, kept, only)) =
        slots-Adds s (add_entry none e₀) add.table (ground (arith, add.cap_next, add.len_next))
          (omega (arith, add.len_next)) h.1 in
      (
        o',
        ap (λ r. object_node (filled_object r)) q,
        wf',
        omega (arith, len', add.len_next),
        ((rebuild v, same, kept e₀ add.added), keeps),
        λ e g. elim (only e g) [
          | inl later ↦ inr later
          | inr here ↦ elim (Added-Among key v (rebuild v) k s (fresh_table 1) e same add here) [
            | inl among ↦ among
            | inr old ↦ absurd (fresh_table-empty Node 1 old.0 e old.1)
          ]
        ],
      )

  slots-Adds :
      (s : Slots) (o : Object Node)
      → IsTable o
      → o.cap ≤ 2 * o.len
      → o.len + entry_count s < 2 ^ 31
      → CountableSlots s
      → (o' : Object Node) × (rebuild_slots s (some o) ≡ some o') × Adds s o o'
  slots-Adds no_slots o wf low few h = (o, refl, (wf, omega arith, tt, λ e g. g, λ e g. inr g))
  slots-Adds (free s) o wf low few h = slots-Adds s o wf low few h
  slots-Adds (used k key v s) o wf low few h =
      let e₀ = fresh_entry key (rebuild v) in
      let same = rebuild-Same v h.0 in
      let add = add_entry-Added o e₀ wf (omega arith) refl in
      let (o', q, (wf', len', keeps, kept, only)) =
        slots-Adds s (add_entry (some o) e₀) add.table (ground (arith, add.cap_next, add.len_next))
          (omega (arith, add.len_next)) h.1 in
      (
        o',
        q,
        (
          wf',
          omega (arith, len', add.len_next),
          ((rebuild v, same, kept e₀ add.added), keeps),
          λ e g. kept e (add.kept e g),
          λ e g. elim (only e g) [
            | inl later ↦ inl (inr later)
            | inr here ↦ Added-Among key v (rebuild v) k s o e same add here
          ],
        ),
      )

  items-Same :
      (cap : ℕ) (s : Items)
      → CountableItems s
      → Same (array cap s) (array_node (filled_array (rebuild_items s none)))
  items-Same cap no_items h = (1, no_items, refl, tt)
  items-Same cap (item v s) h =
      let a = array_push none (rebuild v) in
      let (b, xs, q, listed, same) = items-Adds s a h.1 in
      let first : a.items ≡ rebuild v ∷ [] = refl in
      let all : b.items ≡ rebuild v ∷ xs = listed ∙ ap (λ ys. ys ++ xs) first in
      (
        b.cap,
        to_items (rebuild v ∷ xs),
        ap (λ r. array_node (filled_array r)) q ∙ (ap (λ ys. array b.cap (to_items ys)) all),
        (rebuild-Same v h.0, same),
      )

  items-Adds :
      (s : Items) (a : Array)
      → CountableItems s
      → (b : Array) × (xs : List Node) × (rebuild_items s (some a) ≡ some b)
        × (b.items ≡ a.items ++ xs)
        × SameItems s (to_items xs)
  items-Adds no_items a h = (a, [], refl, sym (append-nil a.items), tt)
  items-Adds (item v s) a h =
      let n = rebuild v in
      let (b, xs, q, listed, same) = items-Adds s (array_push (some a) n) h.1 in
      (
        b,
        n ∷ xs,
        q,
        listed ∙ ap (λ ys. ys ++ xs) (array_push-items a n) ∙ append_assoc a.items (n ∷ []) xs,
        (rebuild-Same v h.0, same),
      )
