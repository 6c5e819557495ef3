-- ===== src/Thrpool/Threads/Progress.antt =====
-- That the tasks of a pool of c/thrpool/thrpool.c get to run: no signal of `task_c` is lost.
use model_lib.Common.{ℕ, zero, suc, ◌-◌, ◌<◌, ◌≡◌, refl, List, [], ◌∷◌, false, some, arith}
use model_lib.Thrpool.{worker_take, worker_ran}
use model_lib.Thrpool.Threads.{
  Threads, takes, returns, wake, WakesSome, fresh_threads, ◌⟶◌, ◌⟶*◌, ◌↠◌, worker_locks,
  task_returns, worker_signals, caller_signals, stays, goes,
}
use model_lib.Thrpool.Threads.Invariant.{Inv, in_loop}
use model_lib.Thrpool.Threads.Reached.{reached-Inv}

-- By steps of threads that are in their calls already a worker comes to run `t`.
abbrev pub WillRun : ℕ → Threads → Type 0
WillRun t s = (s' : Threads) × (us : List ℕ) × (s ↠ s') × (s'.running ≡ t ∷ us)

WillRun-ready :
    (s : Threads) (t : ℕ) → s.pool.front ≡ some t → s.holder ≡ false → 0 < s.ready → WillRun t s
unfolding worker_take takes
WillRun-ready s t e free busy =
    (takes (worker_take s.pool) s, s.running, goes (worker_locks free busy) stays, rw e refl)

-- A step first.
WillRun-goes : {s s' : Threads} {t : ℕ} → s ⟶ s' → WillRun t s' → WillRun t s
WillRun-goes e w = (w.0, w.1, goes e w.2, w.3)

-- A signal that wakes no more than it has to.
abbrev one_of : ℕ → ℕ
one_of n = 1 - (1 - n)

one_of-WakesSome : (s : Threads) → WakesSome (one_of s.asleep) s
one_of-WakesSome s = (omega arith, λ h. omega arith)

WillRun-announcing :
    (s : Threads) (t : ℕ)
    → s.pool.front ≡ some t
    → s.holder ≡ false
    → 0 < s.announcing
    → WillRun t s
WillRun-announcing s t e free busy = WillRun-goes (worker_signals busy (one_of-WakesSome s)) (
    WillRun-ready
      (wake (one_of s.asleep) (record s { announcing = s.announcing - 1; ready = suc s.ready })) t e
      free (omega arith))

WillRun-running :
    (s : Threads) (t u : ℕ) (us : List ℕ)
    → s.pool.front ≡ some t
    → s.holder ≡ false
    → s.running ≡ u ∷ us
    → WillRun t s
unfolding returns worker_ran
WillRun-running s t u us e free runs_u =
    WillRun-goes (task_returns false u [] us free runs_u)
      (WillRun-ready (returns false u us s) t e free (omega arith))

WillRun-called :
    (s : Threads) (t : ℕ)
    → s.pool.front ≡ some t
    → s.holder ≡ false
    → 0 < s.callers
    → 0 < s.asleep
    → WillRun t s
WillRun-called s t e free called sleeper =
    WillRun-goes (caller_signals called (one_of-WakesSome s)) (
      WillRun-ready (wake (one_of s.asleep) (record s { callers = s.callers - 1 })) t e free
        (omega arith))

-- Where the next worker for the first task comes from.
data Stage (s : Threads) : Type 0 where
  is_ready : 0 < s.ready → Stage s
  is_announcing : 0 < s.announcing → Stage s
  is_running : (u : ℕ) (us : List ℕ) → s.running ≡ u ∷ us → Stage s
  is_called : 0 < s.callers → 0 < s.asleep → Stage s

next_of :
    (s : Threads) (t : ℕ) (ts : List ℕ) (r a : ℕ) (us : List ℕ)
    → s.ready ≡ r
    → s.announcing ≡ a
    → s.running ≡ us
    → Inv s (t ∷ ts)
    → s.holder ≡ false
    → 0 < in_loop s
    → Stage s
next_of s t ts (suc r) a us er ea eu h free live = is_ready (omega arith)
next_of s t ts zero (suc a) us er ea eu h free live = is_announcing (omega arith)
next_of s t ts zero zero (u ∷ us) er ea eu h free live = is_running u us eu
next_of s t ts zero zero [] er ea eu h free live =
    let sleeper : 0 < s.asleep = ground arith in
    let on_their_way = h.awake sleeper in is_called (omega arith) sleeper

WillRun-queue :
    (s : Threads) (t : ℕ) (ts : List ℕ)
    → Inv s ts
    → s.pool.front ≡ some t
    → 0 < in_loop s
    → WillRun t s
WillRun-queue s t [] h e live = absurd (ground arith)
WillRun-queue s t (u ∷ ts) h e live =
    let free : s.holder ≡ false = ground arith in
    elim (next_of s u ts s.ready s.announcing s.running refl refl refl h free live) [
      | is_ready r ↦ WillRun-ready s t e free r
      | is_announcing a ↦ WillRun-announcing s t e free a
      | is_running v us r ↦ WillRun-running s t v us e free r
      | is_called c a ↦ WillRun-called s t e free c a
    ]

-- In every state that is reached from the start of `thrpool_create`: if there is a queued task and a
-- worker in the loop, there are steps of threads that are in their calls already, none of them a wake-up
-- without a signal, which bring a worker to run the first queued task. A task that runs may come
-- to its end in them.
pub threads-WillRun :
    {n : ℕ} {s : Threads} (t : ℕ)
    → fresh_threads n ⟶* s
    → s.pool.front ≡ some t
    → 0 < in_loop s
    → WillRun t s
threads-WillRun {n} {s} t es e live =
    let found = reached-Inv es in WillRun-queue s t found.0 found.1 e live
