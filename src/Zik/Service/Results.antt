-- ===== src/Zik/Service/Results.antt =====
-- What `EnumSSDT` and `EnumSSDTShadow` leave on each path.
use model_lib.Common.{
  ℕ, ◌+◌, ◌-◌, ◌%◌, ◌^◌, ◌≡◌, ◌≢◌, refl, ap, Bool, true, false, ◌==◌, ==-refl, ne→==-false, ltb,
  ◌&&◌, ◌||◌, not, if◌then◌else◌, Bool-cases, inl, inr, ◌⊎◌, none, some, arith, List, ◌∷◌,
}
use model_lib.Zik.Status.{nt_success, sub32}
use model_lib.Zik.Image.{Image, rva_to_raw}
use model_lib.Zik.Service.{
  Machine, set_count, compare_tables, wp_off, wp_on, Answers, Outcome, open_handle, close_handle,
  hold_pool, free_pool, enum_ssdt, enum_ssdt_shadow,
}
use model_lib.Zik.Service.Rounds.{service_loop-Restored, reported, service_loop-reported}

-- A comparison of `n` entries: the entries are restored, or the caller's buffer tells of them.
pub record Compared (restore : Bool) (orig : ℕ → ℕ) (n : ℕ) (m m' : Machine) : Type 0 where
  pub entries : (i : ℕ) → m'.table i ≡ (if restore && ltb i n then orig i else m.table i)
  pub buffer :
      m'.info
      ≡ (if restore then set_count n m.info else reported m.table orig n 0 (set_count n m.info))
  pub protection : m'.write_protect ≡ (restore || m.write_protect)
  pub same_pools : m'.pools ≡ m.pools
  pub same_opened : m'.opened ≡ m.opened
  pub same_closed : m'.closed ≡ m.closed

compare_tables-Compared :
    (restore : Bool) (orig : ℕ → ℕ) (n : ℕ) (m : Machine)
    → (m' : Machine) × (compare_tables restore orig n m ≡ some m') × Compared restore orig n m m'
unfolding compare_tables
compare_tables-Compared true orig n m =
    let start = record m { info = set_count n m.info } in
    let (m', e, h) = service_loop-Restored orig n 0 (wp_off start) refl in
    (
      wp_on m',
      rw e refl,
      record {
        entries = λ i. ground (arith, h.entries i);
        buffer = h.same_info;
        protection = refl;
        same_pools = h.same_pools;
        same_opened = h.same_opened;
        same_closed = h.same_closed;
      },
    )
compare_tables-Compared false orig n m = (
  _,
  service_loop-reported orig n 0 (record m { info = set_count n m.info }),
  record {
    entries = λ i. refl;
    buffer = refl;
    protection = refl;
    same_pools = refl;
    same_opened = refl;
    same_closed = refl;
  },
)

-- Where the file is there and can be read, in the kernel's table: the comparison is made with the
-- original entries moved to where the kernel stands, and the handle is closed.
module _ (restore : Bool) (img : Image) (table_base limit : ℕ) (env : Answers) (m : Machine) where
  abbrev pub during : Machine
  during = open_handle env.handle (hold_pool m)

  -- The original entries: the file's, moved from the image's preferred base to where the kernel stands.
  abbrev pub orig : ℕ → ℕ
  orig i =
      ((env.file (rva_to_raw img table_base) i + 2 ^ 32 - img.image_base % 2 ^ 32) % 2 ^ 32
        + img.base)
      % 2 ^ 32

  -- If the table is found in the kernel's image, a pool block is there and its file can be opened and
  -- read, `EnumSSDT` returns the status of the read and does not fault: it has restored each entry
  -- below the limit and no other, or has told of each in the caller's buffer; write protection is on
  -- after a restoration; the file's handle is closed again.
  pub enum_ssdt-Compared :
      rva_to_raw img table_base ≢ 0
      → env.pool ≡ true
      → nt_success env.create ≡ true
      → nt_success env.read ≡ true
      → (m' : Machine) × (enum_ssdt restore img table_base limit env m
          ≡ some (env.read, close_handle env.handle m'))
        × Compared restore orig limit during m'
  unfolding enum_ssdt
  enum_ssdt-Compared found pool create read =
      let (m', e, h) = compare_tables-Compared restore orig limit during in
      (m', simp (ne→==-false _ _ found, pool, create, read, e) refl, h)

  -- What is left if `EnumSSDT` gets no original entries.
  abbrev pub SsdtFailed : Outcome → Type 0
  SsdtFailed none = ⊥
  SsdtFailed (some (s, m')) =
      (nt_success s ≡ false)
      × (m'.table ≡ m.table)
      × (m'.info ≡ m.info)
      × (m'.write_protect ≡ m.write_protect)

  -- With a pool block, `EnumSSDT` changes neither the table nor the buffer nor the write protection,
  -- and returns an error, where the table is not found in the image or the file cannot be opened or
  -- read.
  pub enum_ssdt-SsdtFailed :
      env.pool ≡ true
      → (rva_to_raw img table_base ≡ 0)
        ⊎ ((nt_success env.create ≡ false) ⊎ (nt_success env.read ≡ false))
      → SsdtFailed (enum_ssdt restore img table_base limit env m)
  unfolding enum_ssdt
  enum_ssdt-SsdtFailed pool why = elim (Bool-cases (rva_to_raw img table_base == 0)) [
    | inl z ↦ simp z (refl, refl, refl, refl)
    | inr nz ↦ elim (Bool-cases (nt_success env.create)) [
      | inr c ↦ simp (nz, c, pool) (refl, refl, refl, refl)
      | inl c ↦ elim (Bool-cases (nt_success env.read)) [
        | inr r ↦ simp (nz, c, pool, r) (refl, refl, refl, refl)
        | inl r ↦ elim why [
          | inl z ↦ cc (nz, ==-refl 0, ap (λ k. k == 0) z)
          | inr (inl c') ↦ cc
          | inr (inr r') ↦ cc
        ]
      ]
    ]
  ]

  -- The pool blocks that an outcome holds, beyond those of before.
  abbrev pub Holds : ℕ → Outcome → Type 0
  Holds n none = ⊥
  Holds n (some (s, m')) = m'.pools ≡ m.pools + n

  -- If the table is found in the image and a pool block is there, `EnumSSDT` does not fault and keeps
  -- the block, on every path: it is never freed.
  pub enum_ssdt-Holds :
      rva_to_raw img table_base ≢ 0
      → env.pool ≡ true
      → Holds 1 (enum_ssdt restore img table_base limit env m)
  unfolding enum_ssdt
  enum_ssdt-Holds found pool = elim (Bool-cases (nt_success env.create)) [
    | inr c ↦ simp (ne→==-false _ _ found, c, pool) refl
    | inl c ↦ elim (Bool-cases (nt_success env.read)) [
      | inr r ↦ simp (ne→==-false _ _ found, c, pool, r) refl
      | inl r ↦
          let (m', e, h) = compare_tables-Compared restore orig limit during in
          simp (ne→==-false _ _ found, c, pool, r, e) h.same_pools
    ]
  ]

-- The same of the shadow table, which is read from the file of win32k.
module _ (restore located : Bool) (win32k_base table_base limit : ℕ) (env : Answers)
    (m : Machine) where
  abbrev shadow_orig : ℕ → ℕ
  shadow_orig = env.file (sub32 table_base win32k_base)

  -- Nothing is held beyond what was held before, and a handle that has been opened is closed. Where
  -- the file cannot be opened, `hFile` is closed with whatever value it has.
  abbrev pub Balanced : Outcome → Type 0
  Balanced none = ⊥
  Balanced (some (s, m')) =
      (m'.pools ≡ m.pools)
      × (m'.opened ≡ (
          if located && env.pool && nt_success env.create then env.handle ∷ m.opened else m.opened))
      × (m'.closed ≡ (
          let h = if nt_success env.create then env.handle else env.stale_handle in
          if located && env.pool && not (h == 0) then h ∷ m.closed else m.closed))

  abbrev exited : ℕ → Machine → Machine
  exited h m' = if h == 0 then free_pool m' else close_handle h (free_pool m')

  exited-Balanced :
      (h : ℕ) (m' : Machine) (opened : List ℕ)
      → m'.pools ≡ m.pools + 1
      → m'.opened ≡ opened
      → m'.closed ≡ m.closed
      → ((exited h m').pools ≡ m.pools)
        × ((exited h m').opened ≡ opened)
        × ((exited h m').closed ≡ (if not (h == 0) then h ∷ m.closed else m.closed))
  exited-Balanced h m' opened p o c = elim (Bool-cases (h == 0)) [
    | inl z ↦ simp z (omega (arith, p), o, c)
    | inr nz ↦ simp nz (omega (arith, p), o, ap (λ hs. h ∷ hs) c)
  ]

  -- On every path `EnumSSDTShadow` does not fault and frees its pool block; it closes the handle of
  -- the file, or, where the file could not be opened, the value that the uninitialised handle has.
  pub enum_ssdt_shadow-Balanced :
      Balanced (enum_ssdt_shadow restore located win32k_base table_base limit env m)
  unfolding enum_ssdt_shadow
  enum_ssdt_shadow-Balanced = elim (Bool-cases located) [
    | inr l ↦ simp l (refl, refl, refl)
    | inl l ↦ elim (Bool-cases env.pool) [
      | inr p ↦ simp (l, p) (refl, refl, refl)
      | inl p ↦ elim (Bool-cases (nt_success env.create)) [
        | inr c ↦
            simp (l, p, c) (exited-Balanced env.stale_handle (hold_pool m) m.opened refl refl refl)
        | inl c ↦
            let during = open_handle env.handle (hold_pool m) in
            elim (Bool-cases (nt_success env.read)) [
              | inr r ↦
                  simp (l, p, c, r)
                    (exited-Balanced env.handle during (env.handle ∷ m.opened) refl refl refl)
              | inl r ↦
                  let (m', done, h) = compare_tables-Compared restore shadow_orig limit during in
                  simp (l, p, c, r, done)
                    (exited-Balanced env.handle m' (env.handle ∷ m.opened) h.same_pools
                      h.same_opened h.same_closed)
            ]
      ]
    ]
  ]
