-- ===== src/Thrpool/Threads/Examples.antt =====
-- The theorems on the threads of c/thrpool/thrpool.c at a pool with one worker.
use model_lib.Common.{ℕ, ◌≡◌, refl, List, [], ◌∷◌, true, none, All, arith, inl}
use model_lib.Thrpool.{Pool, worker_take, task_enq}
use model_lib.Thrpool.Queue.{IsQueue, Fresh, Distinct}
use model_lib.Thrpool.Threads.{
  Threads, fresh_threads, takes, wake, enqueue, caller_signals, owns, freed, ◌⟶*◌, create_worker,
  count_worker, end_creation, worker_locks, worker_sleeps, add_admitted, add_enqueues,
  destroy_drops, destroy_flags, destroy_frees, worker_ends, here, further, from_outside,
}
use model_lib.Thrpool.Threads.Invariant.{in_loop}
use model_lib.Thrpool.Threads.Reached.{threads-Apart, freed-Deserted}
use model_lib.Thrpool.Threads.Progress.{WillRun, threads-WillRun}

-- Created, with the worker before its first lock.
abbrev created : Threads
created = record (fresh_threads 1) { owner = owns; ready = 1; running_workers = 1 }

created-reached : {s : Threads} → created ⟶* s → fresh_threads 1 ⟶* s
created-reached es =
    further (create_worker refl) (further (count_worker refl) (further (end_creation refl) es))

-- The worker asleep, and the task 10 queued, before its signal.
abbrev idle : Threads
idle = record created { ready = 0; asleep = 1 }

abbrev queued : Threads
queued = enqueue 10 (record idle { admitted = 1 })

nothing_queued : (ti : Pool) (t : ℕ) → ti.front ≡ none → (ts : List ℕ) → IsQueue ti ts → Fresh t ts
nothing_queued ti t e [] h = tt
nothing_queued ti t e (u ∷ ts) h = absurd (ground arith)

queued-reached : fresh_threads 1 ⟶* queued
unfolding takes worker_take
queued-reached = created-reached (
    further (worker_locks refl (omega arith)) (
      further (worker_sleeps refl) (
        from_outside (add_admitted refl) (
          further
            (add_enqueues 10 refl (omega arith) (λ ts q. nothing_queued idle.pool 10 refl ts q, tt))
            here))))

threads-WillRun_example : WillRun 10 queued
unfolding task_enq
threads-WillRun_example = threads-WillRun 10 queued-reached refl (omega arith)

-- The worker wakes and runs the task 10; a caller then adds the task 20.
abbrev woken : Threads
woken = wake 1 (record queued { callers = 0 })

abbrev busy : Threads
busy = record (takes (worker_take woken.pool) woken) { admitted = 1 }

busy-reached : fresh_threads 1 ⟶* busy
unfolding takes worker_take task_enq
busy-reached = created-reached (
    further (worker_locks refl (omega arith)) (
      further (worker_sleeps refl) (
        from_outside (add_admitted refl) (
          further
            (add_enqueues 10 refl (omega arith) (λ ts q. nothing_queued idle.pool 10 refl ts q, tt))
            (further (caller_signals {k = 1} (omega arith) (omega arith, λ h. omega arith)) (
              further (worker_locks refl (omega arith))
                (from_outside (add_admitted refl) here)))))))

threads-Apart_example :
    Distinct busy.running
    × ((ts : List ℕ) → IsQueue busy.pool ts → All (λ t. Fresh t ts) busy.running)
threads-Apart_example = threads-Apart busy-reached

-- The pool destroyed, with the worker before its signal of `worker_c`.
abbrev gone : Threads
gone = record created {
  pool = record created.pool { destroy = true };
  ready = 0;
  running_workers = 0;
  left = 1;
  owner = freed;
}

gone-reached : fresh_threads 1 ⟶* gone
unfolding takes worker_take
gone-reached = created-reached (
    from_outside (destroy_drops true (inl refl) (inl refl)) (
      further (destroy_flags refl) (
        further (worker_locks refl (omega arith))
          (further (worker_ends (omega arith)) (further (destroy_frees refl refl) here)))))

freed-Deserted_example : (in_loop gone ≡ 0) × (gone.running ≡ []) × (gone.leaving ≡ 0)
freed-Deserted_example = freed-Deserted gone-reached refl
