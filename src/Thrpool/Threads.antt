-- ===== src/Thrpool/Threads.antt =====
-- The threads of a pool of c/thrpool/thrpool.c: its workers, callers of `thrpool_add_task` and
-- `thrpool_wait`, and the owner, which creates the pool and destroys it. A step is what one thread
-- does between two points where others can go on. A condition variable of the system wakes at least one
-- sleeper at a signal if there are any, all of them at a broadcast, and any of them without a reason.
mod Lists
pub mod Invariant
pub mod Reached
pub mod Progress
mod Examples
use model_lib.Common.{
  ℕ, zero, suc, ◌+◌, ◌-◌, ◌<◌, ◌≤◌, ◌≡◌, List, [], ◌∷◌, ◌++◌, Bool, true, false, if◌then◌else◌,
  Option, none, some, ◌⊎◌,
}
use model_lib.Thrpool.Queue.{IsQueue, Fresh}
use model_lib.Thrpool.{
  Pool, task_enq, Taken, runs, leaves, waits, worker_take, worker_ran, set_next, thrpool_wait,
}

-- Where the owner stands: with some workers to create, before the count of a worker it has created,
-- about to give a failed creation up, behind `thrpool_create`, before and behind `ti->destroy = 1`, asleep on `worker_c`, or behind `free(ti)`.
pub data Owner : Type 0 where
  creates : ℕ → Owner
  counts : ℕ → Owner
  abandons : Owner
  owns : Owner
  flags : Owner
  checks : Owner
  sleeps : Owner
  freed : Owner

-- The pool, `running_workers`, and the threads: workers before the lock of `task_m`, the worker that
-- holds it and is about to wait, workers asleep on `task_c`, tasks that workers run, workers and callers
-- between the unlock and the signal of `_task_enq`, callers behind the test of
-- `thrpool_add_task`, callers asleep on `task_0_c`, and workers that have left their loop, before and
-- behind the decrement of `_worker_cleanup`.
pub record Threads : Type 0 where
  pub pool : Pool
  pub running_workers : ℕ
  pub ready : ℕ
  pub holder : Bool
  pub asleep : ℕ
  pub running : List ℕ
  pub announcing : ℕ
  pub callers : ℕ
  pub admitted : ℕ
  pub waiting : ℕ
  pub leaving : ℕ
  pub left : ℕ
  pub owner : Owner

-- The pool behind the `memset` and the initialisations of `thrpool_create`.
abbrev pub fresh_threads : ℕ → Threads
fresh_threads workers = record {
  pool = record { front = none; rear = 0; next = λ t. none; destroy = false; wait_task_0 = false };
  running_workers = 0;
  ready = 0;
  holder = false;
  asleep = 0;
  running = [];
  announcing = 0;
  callers = 0;
  admitted = 0;
  waiting = 0;
  leaving = 0;
  left = 0;
  owner = creates workers;
}

-- `pthread_cond_broadcast(&ti->task_0_c)` if `wait_task_0` is set: who still sleeps.
abbrev pub still_waiting : Threads → ℕ
still_waiting s = if s.pool.wait_task_0 then 0 else s.waiting

-- A worker locks `task_m`, and comes to its unlock or wait.
unfoldable pub takes : Taken → Threads → Threads
takes (runs t ti) s = record s { pool = ti; ready = s.ready - 1; running = t ∷ s.running }
takes (leaves ti) s = record s {
  pool = ti;
  ready = s.ready - 1;
  waiting = still_waiting s;
  leaving = suc s.leaving;
}
takes (waits ti) s = record s {
  pool = ti;
  ready = s.ready - 1;
  waiting = still_waiting s;
  holder = true;
}

-- The task `t` has run; `others` are the tasks that other workers run.
unfoldable pub returns : Bool → ℕ → List ℕ → Threads → Threads
returns true t others s = record s {
  pool = worker_ran true t s.pool;
  running = others;
  announcing = suc s.announcing;
}
returns false t others s = record s {
  pool = worker_ran false t s.pool;
  running = others;
  ready = suc s.ready;
}

-- A signal of `task_c` wakes `k` sleepers.
abbrev pub WakesSome : ℕ → Threads → Type 0
WakesSome k s = (k ≤ s.asleep) × (0 < s.asleep → 0 < k)

abbrev pub wake : ℕ → Threads → Threads
wake k s = record s { asleep = s.asleep - k; ready = s.ready + k }

-- `_worker_cleanup` up to its unlock.
abbrev pub worker_cleanup : Threads → Threads
worker_cleanup s = record s {
  running_workers = s.running_workers - 1;
  leaving = s.leaving - 1;
  left = suc s.left;
}

-- A signal of `worker_c`.
abbrev pub alarm : Owner → Owner
alarm sleeps = checks
alarm o = o

-- The rest of `thrpool_add_task` behind its tests, up to the unlock.
abbrev pub enqueue : ℕ → Threads → Threads
enqueue t s = record s {
  pool = task_enq t (record s.pool { next = set_next s.pool.next t none });
  admitted = s.admitted - 1;
  callers = suc s.callers;
}

-- The tasks are taken off by `thrpool_destroy` if it does not wait.
abbrev pub drop_tasks : Bool → Pool → Pool
drop_tasks wait ti = if wait then ti else record ti { front = none }

-- `thrpool_destroy` is called with a pool that is whole, or, without waiting, by `thrpool_create`.
abbrev pub MayDestroy : Bool → Owner → Type 0
MayDestroy wait o = (o ≡ owns) ⊎ ((o ≡ abandons) × (wait ≡ false))

-- `malloc` gives a block that is no task in use.
abbrev pub IsUnused : ℕ → Threads → Type 0
IsUnused t s = ((ts : List ℕ) → IsQueue s.pool ts → Fresh t ts) × Fresh t s.running

infix 40 ◌⟶◌ ◌⇝◌ ◌⟶*◌ ◌↠◌
pub data ◌⟶◌ : Threads → Threads → Type 0 where
  create_worker :
      {s : Threads} {k : ℕ}
      → s.owner ≡ creates (suc k)
      → s ⟶ record s { owner = counts k; ready = suc s.ready }
  create_fails :
      {s : Threads} {k : ℕ} → s.owner ≡ creates (suc k) → s ⟶ record s { owner = abandons }
  count_worker :
      {s : Threads} {k : ℕ}
      → s.owner ≡ counts k
      → s ⟶ record s { owner = creates k; running_workers = suc s.running_workers }
  end_creation : {s : Threads} → s.owner ≡ creates 0 → s ⟶ record s { owner = owns }
  worker_locks : {s : Threads} → s.holder ≡ false → 0 < s.ready → s ⟶ takes (worker_take s.pool) s
  worker_sleeps :
      {s : Threads} → s.holder ≡ true → s ⟶ record s { holder = false; asleep = suc s.asleep }
  task_returns :
      {s : Threads} (again : Bool) (t : ℕ) (us vs : List ℕ)
      → s.holder ≡ false
      → s.running ≡ us ++ t ∷ vs
      → s ⟶ returns again t (us ++ vs) s
  worker_signals :
      {s : Threads} {k : ℕ}
      → 0 < s.announcing
      → WakesSome k s
      → s ⟶ wake k (record s { announcing = s.announcing - 1; ready = suc s.ready })
  worker_ends : {s : Threads} → 0 < s.leaving → s ⟶ worker_cleanup s
  owner_alarmed :
      {s : Threads} → 0 < s.left → s ⟶ record s { left = s.left - 1; owner = alarm s.owner }
  add_enqueues :
      {s : Threads} (t : ℕ) → s.holder ≡ false → 0 < s.admitted → IsUnused t s → s ⟶ enqueue t s
  caller_signals :
      {s : Threads} {k : ℕ}
      → 0 < s.callers
      → WakesSome k s
      → s ⟶ wake k (record s { callers = s.callers - 1 })
  destroy_flags :
      {s : Threads}
      → s.owner ≡ flags
      → s ⟶ record s { pool = record s.pool { destroy = true }; owner = checks }
  destroy_waits :
      {s : Threads} {k : ℕ}
      → s.owner ≡ checks
      → 0 < s.running_workers
      → WakesSome k s
      → s ⟶ wake k (record s { owner = sleeps })
  destroy_frees :
      {s : Threads} → s.owner ≡ checks → s.running_workers ≡ 0 → s ⟶ record s { owner = freed }

-- What comes from outside: a new call, or a sleeper that wakes without a signal.
pub data ◌⇝◌ : Threads → Threads → Type 0 where
  add_admitted : {s : Threads} → s.pool.destroy ≡ false → s ⇝ record s { admitted = suc s.admitted }
  caller_waits :
      {s : Threads} {ti : Pool}
      → s.holder ≡ false
      → thrpool_wait s.pool ≡ (true, ti)
      → s ⇝ record s { pool = ti; waiting = suc s.waiting }
  destroy_drops :
      {s : Threads} (wait : Bool)
      → (wait ≡ true) ⊎ (s.holder ≡ false)
      → MayDestroy wait s.owner
      → s ⇝ record s { pool = drop_tasks wait s.pool; owner = flags }
  worker_wakes : {s : Threads} → 0 < s.asleep → s ⇝ wake 1 s
  caller_wakes : {s : Threads} → 0 < s.waiting → s ⇝ record s { waiting = s.waiting - 1 }
  owner_wakes : {s : Threads} → s.owner ≡ sleeps → s ⇝ record s { owner = checks }

-- Any steps, those from outside included.
pub data ◌⟶*◌ : Threads → Threads → Type 0 where
  here : {s : Threads} → s ⟶* s
  further : {s t u : Threads} → s ⟶ t → t ⟶* u → s ⟶* u
  from_outside : {s t u : Threads} → s ⇝ t → t ⟶* u → s ⟶* u

-- Steps of threads that are in their calls already.
pub data ◌↠◌ : Threads → Threads → Type 0 where
  stays : {s : Threads} → s ↠ s
  goes : {s t u : Threads} → s ⟶ t → t ↠ u → s ↠ u
