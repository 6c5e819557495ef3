-- ===== src/Dotjson/Table/Shape.antt =====
-- Well-formed tables, and single slots of the array of entries.
use mathlib.Core.Logic.{◌≢◌}
use model_lib.Common.{
  ℕ, zero, suc, ◌<◌, ◌≤◌, ◌≡◌, refl, ap, List, [], ◌∷◌, Option, none, some, arith, length, set,
  replicate, length-replicate,
}
use model_lib.Dotjson.Node.{Entry, Object}
use model_lib.Dotjson.Table.{hash, probe, entry_at, fresh_table}
use model_lib.Dotjson.Table.Probe.{IsCapacity}

module _ {ℓ} {V : Type ℓ} where
  -- The number of slots in use.
  unfoldable pub count_used : List (Option (Entry V)) → ℕ
  count_used [] = 0
  count_used (none ∷ es) = count_used es
  count_used (some entry ∷ es) = suc (count_used es)

  -- Slot `j` holds `entry`.
  abbrev pub Holds : Object V → ℕ → Entry V → Type ℓ
  Holds o j entry = entry_at o.entries j ≡ some entry

  -- The slots that are probed before round `i` are in use.
  abbrev pub UsedBefore : Object V → ℕ → ℕ → Type ℓ
  UsedBefore o h i = (i' : ℕ) → i' < i → entry_at o.entries (probe o.cap h i') ≢ none

  -- Slot `j` is reached from the hash `h` over slots in use.
  abbrev pub Reached : Object V → ℕ → ℕ → Type ℓ
  Reached o h j = (i : ℕ) × (i < o.cap) × (probe o.cap h i ≡ j) × UsedBefore o h i

  pub record IsTable (o : Object V) : Type ℓ where
    pub capacity : IsCapacity o.cap
    pub size : length o.entries ≡ o.cap
    pub counted : count_used o.entries ≡ o.len
    pub hashed : (j : ℕ) (e : Entry V) → Holds o j e → e.keyhash ≡ hash e.key
    pub reach : (j : ℕ) (e : Entry V) → Holds o j e → Reached o (hash e.key) j

  pub count_used-le : (es : List (Option (Entry V))) → count_used es ≤ length es
  unfolding count_used
  count_used-le [] = omega arith
  count_used-le (none ∷ es) = omega (arith, count_used-le es)
  count_used-le (some e ∷ es) = omega (arith, count_used-le es)

  pub free_slot :
      (es : List (Option (Entry V)))
      → count_used es < length es
      → (j : ℕ) × (j < length es) × (entry_at es j ≡ none)
  unfolding count_used
  free_slot [] h = absurd (omega arith)
  free_slot (none ∷ es) h = (0, omega arith, refl)
  free_slot (some e ∷ es) h =
      let (j, lt, empty) = free_slot es (omega arith) in (suc j, omega arith, empty)

  pub count_used-set :
      (es : List (Option (Entry V))) (j : ℕ) (e : Entry V)
      → j < length es
      → entry_at es j ≡ none
      → count_used (set es j (some e)) ≡ suc (count_used es)
  unfolding count_used
  count_used-set [] j e lt empty = absurd (omega arith)
  count_used-set (none ∷ es) zero e lt empty = refl
  count_used-set (some x ∷ es) zero e lt empty = cc
  count_used-set (none ∷ es) (suc j) e lt empty = count_used-set es j e (omega arith) empty
  count_used-set (some x ∷ es) (suc j) e lt empty =
      ap suc (count_used-set es j e (omega arith) empty)

  pub entry_at-set_self :
      (es : List (Option (Entry V))) (j : ℕ) (e : Entry V)
      → j < length es
      → entry_at (set es j (some e)) j ≡ some e
  entry_at-set_self [] j e lt = absurd (omega arith)
  entry_at-set_self (x ∷ es) zero e lt = refl
  entry_at-set_self (x ∷ es) (suc j) e lt = entry_at-set_self es j e (omega arith)

  pub entry_at-set_ne :
      (es : List (Option (Entry V))) (j i : ℕ) (e : Entry V)
      → i ≢ j
      → entry_at (set es j (some e)) i ≡ entry_at es i
  entry_at-set_ne [] j i e h = refl
  entry_at-set_ne (x ∷ es) zero zero e h = absurd (h refl)
  entry_at-set_ne (x ∷ es) zero (suc i) e h = refl
  entry_at-set_ne (x ∷ es) (suc j) zero e h = refl
  entry_at-set_ne (x ∷ es) (suc j) (suc i) e h = entry_at-set_ne es j i e (λ p. h (ap suc p))

module _ {ℓ} (V : Type ℓ) where
  entry_at-replicate : (n j : ℕ) → entry_at {V = V} (replicate n none) j ≡ none
  entry_at-replicate zero j = refl
  entry_at-replicate (suc n) zero = refl
  entry_at-replicate (suc n) (suc j) = entry_at-replicate n j

  count_used-replicate : (n : ℕ) → count_used {V = V} (replicate n none) ≡ 0
  unfolding count_used
  count_used-replicate zero = refl
  count_used-replicate (suc n) = count_used-replicate n

  -- A fresh table is well-formed and holds nothing.
  pub fresh_table-empty : (cap j : ℕ) (e : Entry V) → ¬ Holds (fresh_table cap) j e
  fresh_table-empty cap j e h = cc (entry_at-replicate cap j)

  pub fresh_table-IsTable : (cap : ℕ) → IsCapacity cap → IsTable (fresh_table {V = V} cap)
  fresh_table-IsTable cap c = record {
    capacity = c;
    size = length-replicate cap none;
    counted = count_used-replicate cap;
    hashed = λ j e h. absurd (fresh_table-empty cap j e h);
    reach = λ j e h. absurd (fresh_table-empty cap j e h);
  }
