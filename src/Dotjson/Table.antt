-- ===== src/Dotjson/Table.antt =====
-- The hash table of an object: `hash`, `min_bucket` and `object_find`, `object_slot`, `object_grow`
-- and `dotjson_object_get` of c/dotjson/dotjson.c, over any type of values.
pub mod Hash
pub mod Probe
pub mod Shape
pub mod Place
pub mod Grow
pub mod Lookup
use model_lib.Common.{
  ℕ, zero, suc, ◌+◌, ◌-◌, ◌*◌, ◌/◌, ◌%◌, ◌^◌, bit_and, bit_or, List, [], ◌∷◌, Bool, true, false,
  ◌&&◌, ◌==◌, ltb, leb, if◌then◌else◌, Option, none, some, get_or, set, replicate, take,
}
use model_lib.Dotjson.Text.{Bytes}
use model_lib.Dotjson.Node.{Entry, Object}

-- `unsigned int` and `size_t`
abbrev pub u32 : ℕ → ℕ
u32 n = n % 2 ^ 32

abbrev pub size_of : ℕ → ℕ
size_of n = n % 2 ^ 64

-- A `char` as an operand of `unsigned int`: `char` is signed, as on x86.
abbrev pub widened : ℕ → ℕ
widened c = if ltb c 0x80 then c else c + 2 ^ 32 - 0x100

unfoldable pub hash_from : ℕ → Bytes → ℕ
hash_from h [] = h
hash_from h (c ∷ s) =
    let rest = hash_from (u32 (h * 1313 + widened c)) s in if c == 0 then h else rest

unfoldable pub hash : Bytes → ℕ
unfolding hash_from
hash s = hash_from 1313 s

-- `n |= n >> k`
abbrev smear : ℕ → ℕ → ℕ
smear n k = bit_or n (n / 2 ^ k)

unfoldable pub min_bucket : ℕ → ℕ
min_bucket n =
    let m = size_of (n + 2 ^ 64 - 1) in
    size_of (smear (smear (smear (smear (smear m 1) 2) 4) 8) 16 + 1)

-- `strcmp(a, b) == 0`
unfoldable pub same_text : Bytes → Bytes → Bool
same_text [] [] = true
same_text [] (d ∷ t) = d == 0
same_text (c ∷ s) [] = c == 0
same_text (c ∷ s) (d ∷ t) =
    let rest = same_text s t in if c == d then (if c == 0 then true else rest) else false

-- `(h + i) & mask`, with `mask = cap - 1`
unfoldable pub probe : ℕ → ℕ → ℕ → ℕ
probe cap h i = bit_and (size_of (h + i)) (size_of (cap + 2 ^ 64 - 1))

module _ {ℓ} {V : Type ℓ} where
  -- `entries[j]`
  abbrev pub entry_at : List (Option (Entry V)) → ℕ → Option (Entry V)
  entry_at es j = get_or es j none

  -- What the body of the loop in `object_find` decides: the end of the search, a hit or the next slot.
  unfoldable pub is_hit : ℕ → Bytes → Entry V → Bool
  is_hit h key entry = if entry.keyhash == h then same_text entry.key key else false

  -- The loops over `i`, for the rounds that are left.
  unfoldable pub find_loop : Object V → ℕ → Bytes → ℕ → ℕ → ℕ
  find_loop o h key zero i = o.cap
  find_loop o h key (suc rounds) i = elim (entry_at o.entries (probe o.cap h i)) [
    | none ↦ o.cap
    | some entry ↦ elim (is_hit h key entry) [
      | true ↦ probe o.cap h i
      | false ↦ find_loop o h key rounds (i + 1)
    ]
  ]

  unfoldable pub object_find : Object V → Bytes → ℕ
  object_find o key = find_loop o (hash key) key o.cap 0

  unfoldable pub slot_loop : Object V → ℕ → ℕ → ℕ → ℕ
  slot_loop o h zero i = o.cap
  slot_loop o h (suc rounds) i = elim (entry_at o.entries (probe o.cap h i)) [
    | none ↦ probe o.cap h i
    | some entry ↦ slot_loop o h rounds (i + 1)
  ]

  unfoldable pub object_slot : Object V → Bytes → ℕ
  object_slot o key = slot_loop o (hash key) o.cap 0

  -- `object->entries[object_slot(object, entry->key)] = entry; object->len++;`
  unfoldable pub place : Object V → Entry V → Object V
  place o entry = record o {
    len = o.len + 1;
    entries = set o.entries (object_slot o entry.key) (some entry);
  }

  -- A table of `cap` empty slots, `malloc` and `memset`.
  abbrev pub fresh_table : ℕ → Object V
  fresh_table cap = record { cap = cap; len = 0; entries = replicate cap none }

  -- The loop of `object_grow` that moves the entries over.
  unfoldable pub move_all : List (Option (Entry V)) → Object V → Object V
  move_all [] to = to
  move_all (none ∷ es) to = move_all es to
  move_all (some entry ∷ es) to = move_all es (place to entry)

  unfoldable pub object_grow : Option (Object V) → Object V
  object_grow none = fresh_table 1
  object_grow (some o) =
      let cap = min_bucket (o.len + 1) in
      if leb cap o.cap then o else move_all (take o.len o.entries) (fresh_table cap)

  -- What `decode_object` does with an entry at `,` or `}`.
  unfoldable pub add_entry : Option (Object V) → Entry V → Object V
  add_entry none entry = place (object_grow none) entry
  add_entry (some o) entry = place (if o.len == o.cap then object_grow (some o) else o) entry

  -- `dotjson_object_get`
  unfoldable pub object_get : Object V → Bytes → Option V
  object_get o key =
      let i = object_find o key in
      if ltb i o.cap
      then elim (entry_at o.entries i) [ none ↦ none | some entry ↦ some entry.val ]
      else none
