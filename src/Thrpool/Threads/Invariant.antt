-- ===== src/Thrpool/Threads/Invariant.antt =====
-- What holds of the threads of a pool of c/thrpool/thrpool.c between any two steps.
use model_lib.Common.{
  ℕ, suc, ◌+◌, ◌<◌, ◌≤◌, ◌≡◌, refl, sym, ap, ◌∙◌, subst, List, [], ◌∷◌, ◌++◌, Bool, true, false,
  if◌then◌else◌, none, length, arith, All,
}
use model_lib.Thrpool.{
  Pool, Taken, runs, leaves, waits, worker_take, worker_ran, set_next, task_enq, thrpool_wait,
}
use model_lib.Thrpool.Queue.{
  IsQueue, Fresh, Distinct, Takes, worker_take-Takes, worker_ran-IsQueue, enq_cleared,
}
use model_lib.Thrpool.Threads.Lists.{
  apart_behind, Distinct-without, apart-without, length-without, length-behind, apart-append,
  apart_none,
}
use model_lib.Thrpool.Threads.{
  Owner, counts, flags, checks, sleeps, freed, Threads, fresh_threads, takes, returns, enqueue,
  drop_tasks, MayDestroy, IsUnused, ◌⟶◌, create_worker, create_fails, count_worker, end_creation,
  worker_locks, worker_sleeps, worker_wakes, task_returns, worker_signals, worker_ends,
  owner_alarmed, add_admitted, add_enqueues, caller_signals, caller_waits, caller_wakes,
  destroy_drops, destroy_flags, destroy_waits, owner_wakes, destroy_frees, ◌⇝◌,
}

-- The workers in the loop of `_worker`.
abbrev pub in_loop : Threads → ℕ
in_loop s = (if s.holder then 1 else 0) + s.ready + s.asleep + length s.running + s.announcing

-- The worker that the owner has created and not counted yet.
abbrev pub uncounted : Owner → ℕ
uncounted (counts k) = 1
uncounted o = 0

-- Behind `ti->destroy = 1`.
abbrev pub late : Owner → Bool
late checks = true
late sleeps = true
late freed = true
late o = false

-- No task that runs is in the queue or runs twice; `running_workers` counts the workers that have not
-- ended; a worker sleeps only if there are others on their way for all tasks, or signals for them; and
-- whoever is about to sleep has seen an empty queue. The owner alone sets `destroy`, and without it
-- no worker ends. A caller of `thrpool_wait` sleeps only while `wait_task_0` is set.
pub record Inv (s : Threads) (ts : List ℕ) : Type 0 where
  pub queue : IsQueue s.pool ts
  pub once : Distinct s.running
  pub apart : All (λ t. Fresh t ts) s.running
  pub counted : s.running_workers + uncounted s.owner ≡ in_loop s + s.leaving
  pub awake : 0 < s.asleep → length ts ≤ s.ready + s.announcing + s.callers
  pub held : s.holder ≡ true → ts ≡ []
  pub flagged : s.pool.destroy ≡ late s.owner
  pub told : 0 < s.leaving → s.pool.destroy ≡ true
  pub asked : 0 < s.waiting → s.pool.wait_task_0 ≡ true
  pub over : s.owner ≡ freed → s.running_workers ≡ 0

pub fresh_threads-Inv : (n : ℕ) → Inv (fresh_threads n) []
fresh_threads-Inv n = record {
  queue = record { linked = refl; last = tt; distinct = tt };
  once = tt;
  apart = tt;
  counted = refl;
  awake = λ h. omega arith;
  held = λ h. refl;
  flagged = refl;
  told = λ h. absurd (omega arith);
  asked = λ h. absurd (omega arith);
  over = λ h. ground arith;
}

unfoldable destroy_of : Taken → Bool
destroy_of (runs t ti) = ti.destroy
destroy_of (leaves ti) = ti.destroy
destroy_of (waits ti) = ti.destroy

worker_take-destroy : (ti : Pool) → destroy_of (worker_take ti) ≡ ti.destroy
unfolding worker_take destroy_of
worker_take-destroy ti = ground arith

takes-Inv :
    {s : Threads} (ts : List ℕ) (r : Taken)
    → s.holder ≡ false
    → 0 < s.ready
    → Inv s ts
    → Takes s.pool ts r
    → destroy_of r ≡ s.pool.destroy
    → (us : List ℕ) × Inv (takes r s) us
unfolding takes destroy_of
takes-Inv {s} (t ∷ ts) (runs t' ti) free busy h taken d =
    let behind = apart_behind t ts s.running h.apart in
    (
      ts,
      record {
        queue = taken.1;
        once = (subst (λ x. Fresh x s.running) (sym taken.0) behind.1, h.once);
        apart = (subst (λ x. Fresh x ts) (sym taken.0) h.queue.distinct.0, behind.0);
        counted = ground arith;
        awake = ground arith;
        held = ground arith;
        flagged = ground arith;
        told = ground arith;
        asked = ground arith;
        over = ground arith;
      },
    )
takes-Inv [] (leaves ti) free busy h taken d = ([], ground arith)
takes-Inv [] (waits ti) free busy h taken d = ([], ground arith)
takes-Inv [] (runs t' ti) free busy h taken d = absurd taken
takes-Inv (t ∷ ts) (leaves ti) free busy h taken d = absurd taken
takes-Inv (t ∷ ts) (waits ti) free busy h taken d = absurd taken

enq-flags :
    (ti : Pool) (t : ℕ)
    → ((task_enq t (record ti { next = set_next ti.next t none })).destroy ≡ ti.destroy)
      × ((task_enq t (record ti { next = set_next ti.next t none })).wait_task_0 ≡ ti.wait_task_0)
unfolding task_enq
enq-flags ti t = ground arith

returns-Inv :
    {s : Threads} (ts : List ℕ) (again : Bool) (t : ℕ) (us vs : List ℕ)
    → s.holder ≡ false
    → s.running ≡ us ++ t ∷ vs
    → Inv s ts
    → (ws : List ℕ) × Inv (returns again t (us ++ vs) s) ws
unfolding returns worker_ran
returns-Inv {s} ts again t us vs free e h =
    let once = Distinct-without t us vs (subst Distinct e h.once) in
    let apart = apart-without ts t us vs (subst (All (λ u. Fresh u ts)) e h.apart) in
    let count : length s.running ≡ suc (length (us ++ vs)) = ap length e ∙ length-without t us vs in
    elim again as (λ b. (ws : List ℕ) × Inv (returns b t (us ++ vs) s) ws) [
      | true ↦ (
        ts ++ t ∷ [],
        record {
          queue = worker_ran-IsQueue s.pool ts t h.queue apart.0;
          once = once.0;
          apart = apart-append t ts (us ++ vs) apart.1 once.1;
          counted = ground arith;
          awake = ground (arith, length-behind t ts);
          held = ground arith;
          flagged = (enq-flags s.pool t).0 ∙ h.flagged;
          told = λ l. (enq-flags s.pool t).0 ∙ h.told l;
          asked = λ l. (enq-flags s.pool t).1 ∙ h.asked l;
          over = h.over;
        },
      )
      | false ↦ (
        ts,
        record {
          queue = h.queue;
          once = once.0;
          apart = apart.1;
          counted = ground arith;
          awake = ground arith;
          held = h.held;
          flagged = h.flagged;
          told = h.told;
          asked = h.asked;
          over = h.over;
        },
      )
    ]

enqueue-Inv :
    {s : Threads} (ts : List ℕ) (t : ℕ)
    → s.holder ≡ false
    → IsUnused t s
    → Inv s ts
    → Inv (enqueue t s) (ts ++ t ∷ [])
enqueue-Inv {s} ts t free unused h = record {
  queue = enq_cleared s.pool ts t h.queue (unused.0 ts h.queue);
  once = h.once;
  apart = apart-append t ts s.running h.apart unused.1;
  counted = h.counted;
  awake = ground (arith, length-behind t ts);
  held = ground arith;
  flagged = (enq-flags s.pool t).0 ∙ h.flagged;
  told = λ l. (enq-flags s.pool t).0 ∙ h.told l;
  asked = λ l. (enq-flags s.pool t).1 ∙ h.asked l;
  over = h.over;
}

wait-flag : (ti ti' : Pool) → thrpool_wait ti ≡ (true, ti') → ti' ≡ record ti { wait_task_0 = true }
unfolding thrpool_wait
wait-flag ti ti' e = ground arith

waits-Inv :
    {s : Threads} (ts : List ℕ) (ti : Pool)
    → ti ≡ record s.pool { wait_task_0 = true }
    → Inv s ts
    → Inv (record s { pool = ti; waiting = suc s.waiting }) ts
waits-Inv {s} ts ti e h = rw e (record {
  queue = record { linked = h.queue.linked; last = h.queue.last; distinct = h.queue.distinct };
  once = h.once;
  apart = h.apart;
  counted = h.counted;
  awake = h.awake;
  held = h.held;
  flagged = h.flagged;
  told = h.told;
  asked = λ l. refl;
  over = h.over;
})

drops-Inv :
    {s : Threads} (ts : List ℕ) (wait : Bool)
    → MayDestroy wait s.owner
    → Inv s ts
    → (us : List ℕ) × Inv (record s { pool = drop_tasks wait s.pool; owner = flags }) us
drops-Inv ts true may h = (ts, ground arith)
drops-Inv {s} ts false may h = ([], ground (arith, apart_none s.running))

-- A step of counts and of the owner alone.
pub step-Inv : {s s' : Threads} (ts : List ℕ) → s ⟶ s' → Inv s ts → (us : List ℕ) × Inv s' us
step-Inv ts (create_worker e) h = (ts, ground arith)
step-Inv ts (create_fails e) h = (ts, ground arith)
step-Inv ts (count_worker e) h = (ts, ground arith)
step-Inv ts (end_creation e) h = (ts, ground arith)
step-Inv ts (worker_sleeps e) h = (ts, ground arith)
step-Inv ts (worker_signals e w) h = (ts, ground arith)
step-Inv ts (worker_ends e) h = (ts, ground arith)
step-Inv ts (owner_alarmed e) h = (ts, ground arith)
step-Inv ts (caller_signals e w) h = (ts, ground arith)
step-Inv ts (destroy_flags e) h = (ts, ground arith)
step-Inv ts (destroy_waits e f w) h = (ts, ground arith)
step-Inv ts (destroy_frees e z) h = (ts, ground arith)
step-Inv ts (worker_locks {s} free busy) h =
    takes-Inv ts (worker_take s.pool) free busy h (worker_take-Takes s.pool ts h.queue)
      (worker_take-destroy s.pool)
step-Inv ts (task_returns again t us vs free e) h = returns-Inv ts again t us vs free e h
step-Inv ts (add_enqueues t free n unused) h = (ts ++ t ∷ [], enqueue-Inv ts t free unused h)

pub outside-Inv : {s s' : Threads} (ts : List ℕ) → s ⇝ s' → Inv s ts → (us : List ℕ) × Inv s' us
outside-Inv ts (add_admitted e) h = (ts, ground arith)
outside-Inv ts (caller_waits {s} {ti} free e) h = (ts, waits-Inv ts ti (wait-flag s.pool ti e) h)
outside-Inv ts (destroy_drops wait free may) h = drops-Inv ts wait may h
outside-Inv ts (worker_wakes e) h = (ts, ground arith)
outside-Inv ts (caller_wakes e) h = (ts, ground arith)
outside-Inv ts (owner_wakes e) h = (ts, ground arith)
