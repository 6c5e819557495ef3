-- ===== src/Zik/Service/Rounds.antt =====
-- The rounds that report or restore the entries of a table.
use model_lib.Common.{
  ℕ, zero, suc, ◌+◌, ◌≡◌, refl, ◌∙◌, Bool, true, false, ◌==◌, ltb, leb, ◌&&◌, if◌then◌else◌,
  Bool-cases, inl, inr, Option, some, arith,
}
use model_lib.Zik.Service.{
  Item, Info, Machine, put_at, store_entry, set_item, service_round, service_loop,
}

-- `i` is one of the entries from `from` on, `rounds` of them.
abbrev pub in_range : ℕ → ℕ → ℕ → Bool
in_range from rounds i = leb from i && ltb i (from + rounds)

-- `m'` is `m` but for the table, which has the original entries in the range.
pub record Restored (orig : ℕ → ℕ) (from rounds : ℕ) (m m' : Machine) : Type 0 where
  pub entries : (i : ℕ) → m'.table i ≡ (if in_range from rounds i then orig i else m.table i)
  pub same_info : m'.info ≡ m.info
  pub same_protection : m'.write_protect ≡ m.write_protect
  pub same_pools : m'.pools ≡ m.pools
  pub same_opened : m'.opened ≡ m.opened
  pub same_closed : m'.closed ≡ m.closed

round_restores :
    (orig : ℕ → ℕ) (i : ℕ) (m : Machine)
    → m.write_protect ≡ false
    → (m' : Machine) × (service_round true i (orig i) m ≡ some m') × Restored orig i 1 m m'
unfolding service_round store_entry
round_restores orig i m off = elim (Bool-cases (m.table i == orig i)) [
  | inl same ↦ (
    m,
    simp same refl,
    record {
      entries = λ j. ground (arith, same);
      same_info = refl;
      same_protection = refl;
      same_pools = refl;
      same_opened = refl;
      same_closed = refl;
    },
  )
  | inr differs ↦ (
    record m { table = put_at m.table i (orig i) },
    simp (differs, off) refl,
    record {
      entries = λ j. ground arith;
      same_info = refl;
      same_protection = refl;
      same_pools = refl;
      same_opened = refl;
      same_closed = refl;
    },
  )
]

Restored-none : (orig : ℕ → ℕ) (i : ℕ) (m : Machine) → Restored orig i 0 m m
Restored-none orig i m = record {
  entries = λ j. ground arith;
  same_info = refl;
  same_protection = refl;
  same_pools = refl;
  same_opened = refl;
  same_closed = refl;
}

Restored-next :
    (orig : ℕ → ℕ) (i rounds : ℕ) {m m' m'' : Machine}
    → Restored orig i 1 m m'
    → Restored orig (i + 1) rounds m' m''
    → Restored orig i (suc rounds) m m''
Restored-next orig i rounds h k = record {
  entries = λ j. ground (arith, h.entries j, k.entries j);
  same_info = k.same_info ∙ h.same_info;
  same_protection = k.same_protection ∙ h.same_protection;
  same_pools = k.same_pools ∙ h.same_pools;
  same_opened = k.same_opened ∙ h.same_opened;
  same_closed = k.same_closed ∙ h.same_closed;
}

-- Without write protection the loop that restores does not fault.
pub service_loop-Restored :
    (orig : ℕ → ℕ) (rounds i : ℕ) (m : Machine)
    → m.write_protect ≡ false
    → (m' : Machine) × (service_loop true orig rounds i m ≡ some m') × Restored orig i rounds m m'
unfolding service_loop
service_loop-Restored orig zero i m off = (m, refl, Restored-none orig i m)
service_loop-Restored orig (suc rounds) i m off =
    let (m', one, h) = round_restores orig i m off in
    let (m'', rest, k) = service_loop-Restored orig rounds (i + 1) m' (h.same_protection ∙ off) in
    (m'', rw (one, service_loop) rest, Restored-next orig i rounds h k)

-- What the loop that reports makes of the caller's buffer.
abbrev pub reported : (ℕ → ℕ) → (ℕ → ℕ) → ℕ → ℕ → Option Info → Option Info
reported table orig zero i info = info
reported table orig (suc rounds) i info =
    reported table orig rounds (i + 1)
      (set_item i (record { index = i; orig_addr = orig i; cur_addr = table i }) info)

pub service_loop-reported :
    (orig : ℕ → ℕ) (rounds i : ℕ) (m : Machine)
    → service_loop false orig rounds i m
      ≡ some (record m { info = reported m.table orig rounds i m.info })
unfolding service_loop service_round
service_loop-reported orig zero i m = refl
service_loop-reported orig (suc rounds) i m = service_loop-reported orig rounds (i + 1) _

-- The buffer behind the loop: the items of the range, and the others as they were.
pub reported-item :
    (table orig : ℕ → ℕ) (rounds i : ℕ) (info : Info)
    → (info' : Info) × (reported table orig rounds i (some info) ≡ some info')
      × (info'.count ≡ info.count)
      × ((j : ℕ)
          → info'.item j ≡ (
              if in_range i rounds j
              then record { index = j; orig_addr = orig j; cur_addr = table j }
              else info.item j))
reported-item table orig zero i info = (info, refl, refl, λ j. ground arith)
reported-item table orig (suc rounds) i info =
    let x : Item = record { index = i; orig_addr = orig i; cur_addr = table i } in
    let (info', e, same, items) =
      reported-item table orig rounds (i + 1) (record info { item = put_at info.item i x }) in
    (info', e, same, λ j. ground (arith, items j))
