-- ===== src/Wohn/Notify/Counted.antt =====
-- `gNotifications` of cpp/wohn/WohnCore.cpp counts the callbacks that are set.
use model_lib.Common.{
  subst, ==-refl, ==→eq, ℕ, zero, suc, ◌+◌, ◌<◌, ◌≤◌, ◌≡◌, refl, Bool, true, false, ◌==◌,
  if◌then◌else◌, Option, none, some, List, [], ◌∷◌, arith, Bool-cases, inl, inr, not, ◌&&◌, ◌||◌,
}
use model_lib.Wohn.Notify.{
  Callbacks, notify_count, set_callback, is_set, cor_register_notify, cor_unregister_notify,
}

-- The callbacks among the first `n` that are set.
unfoldable pub set_below : (ℕ → Option ℕ) → ℕ → ℕ
set_below f zero = 0
set_below f (suc n) = (if is_set (f n) then 1 else 0) + set_below f n

-- Setting one that is free adds one, and clearing one takes one.
set_below-far :
    (f : ℕ → Option ℕ) (i n : ℕ) (v : Option ℕ)
    → n ≤ i
    → set_below (set_callback f i v) n ≡ set_below f n
unfolding set_below
set_below-far f i zero v le = refl
set_below-far f i (suc n) v le = ground (arith, set_below-far f i n v (omega arith))

set_below-last :
    (f : ℕ → Option ℕ) (n : ℕ) (v : Option ℕ)
    → (if is_set (f n) then 1 else 0) + set_below (set_callback f n v) (suc n)
      ≡ (if is_set v then 1 else 0) + set_below f (suc n)
unfolding set_below
set_below-last f n v = rw (==-refl n) (omega (arith, set_below-far f n n v (omega arith)))

==-lt : (i n : ℕ) → i < suc n → (n == i) ≡ false → i < n
==-lt i n lt e = ground arith

set_below-at :
    (f : ℕ → Option ℕ) (i n : ℕ) (v : Option ℕ)
    → i < n
    → (if is_set (f i) then 1 else 0) + set_below (set_callback f i v) n
      ≡ (if is_set v then 1 else 0) + set_below f n
unfolding set_below
set_below-at f i zero v lt = absurd (omega arith)
set_below-at f i (suc n) v lt = elim (Bool-cases (n == i)) [
  | inl e ↦
      subst
        (λ k.
          (if is_set (f k) then 1 else 0) + set_below (set_callback f k v) (suc n)
          ≡ (if is_set v then 1 else 0) + set_below f (suc n))
        (==→eq n i e) (set_below-last f n v)
  | inr e ↦ rw e (omega (arith, set_below-at f i n v (==-lt i n lt e)))
]

-- A call of `cor_register_notify` or `cor_unregister_notify` in the initialized program; a callback
-- that is registered may be NULL.
pub data Call : Type 0 where
  register : ℕ → Option ℕ → Call
  unregister : ℕ → Call

unfoldable pub run_call : Call → Callbacks → Callbacks
run_call (register i f) s = (cor_register_notify true i f s).1
run_call (unregister i) s = cor_unregister_notify true i s

unfoldable pub run_calls : List Call → Callbacks → Callbacks
run_calls [] s = s
run_calls (c ∷ cs) s = run_calls cs (run_call c s)

-- The callbacks as `cor_wlan_initialize` finds them at the first start.
abbrev pub no_callbacks : Callbacks
no_callbacks = record { notifications = 0; callback = λ i. none }

-- The callbacks that are set are not more than those counted; they are as many if no NULL has been
-- registered.
pub record Counts (exact : Bool) (s : Callbacks) : Type 0 where
  pub enough : set_below s.callback notify_count ≤ s.notifications
  pub same : exact ≡ true → set_below s.callback notify_count ≡ s.notifications

abbrev pub is_null : Call → Bool
is_null (register i none) = true
is_null c = false

abbrev pub any_null : List Call → Bool
any_null [] = false
any_null (c ∷ cs) = is_null c || any_null cs

run_call-Counts :
    (c : Call) (s : Callbacks) (exact : Bool)
    → Counts exact s
    → Counts (exact && not (is_null c)) (run_call c s)
unfolding run_call cor_register_notify cor_unregister_notify
run_call-Counts (register i none) s exact h =
    ground (arith, set_below-at s.callback i notify_count none)
run_call-Counts (register i (some f)) s exact h =
    ground (arith, set_below-at s.callback i notify_count (some f))
run_call-Counts (unregister i) s exact h =
    ground (arith, set_below-at s.callback i notify_count none)

and_not : (a b c : Bool) → (a && not b) && not c ≡ a && not (b || c)
and_not true true c = refl
and_not true false c = refl
and_not false b c = refl

-- After any calls, from the callbacks of the first start on: the callbacks that are set are not more
-- than `gNotifications`, and as many if no NULL has been registered.
pub run_calls-Counts :
    (cs : List Call) (s : Callbacks) (exact : Bool)
    → Counts exact s
    → Counts (exact && not (any_null cs)) (run_calls cs s)
unfolding run_calls
run_calls-Counts [] s exact h = ground (arith, h.same, h.enough)
run_calls-Counts (c ∷ cs) s exact h =
    let step =
      run_calls-Counts cs (run_call c s) (exact && not (is_null c)) (run_call-Counts c s exact h) in
    subst (λ b. Counts b (run_calls cs (run_call c s))) (and_not exact (is_null c) (any_null cs))
      step

-- If the count is 0, no callback is set.
pub none_counted : (f : ℕ → Option ℕ) (n i : ℕ) → set_below f n ≡ 0 → i < n → f i ≡ none
unfolding set_below
none_counted f zero i h lt = absurd (omega arith)
none_counted f (suc n) i h lt = elim (Bool-cases (n == i)) [
  | inl e ↦ subst (λ k. f k ≡ none) (==→eq n i e) (ground arith)
  | inr e ↦ none_counted f n i (ground arith) (==-lt i n lt e)
]
