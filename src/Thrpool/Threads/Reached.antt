-- ===== src/Thrpool/Threads/Reached.antt =====
-- The states that the threads of a pool of c/thrpool/thrpool.c come to.
use model_lib.Common.{ℕ, ◌≡◌, subst, List, [], arith, All}
use model_lib.Thrpool.Queue.{IsQueue, Fresh, Distinct}
use model_lib.Thrpool.Threads.Lists.{IsChain-same}
use model_lib.Thrpool.Threads.{freed, Threads, fresh_threads, ◌⟶*◌, here, further, from_outside}
use model_lib.Thrpool.Threads.Invariant.{Inv, in_loop, step-Inv, outside-Inv, fresh_threads-Inv}

steps-Inv : {s s' : Threads} (ts : List ℕ) → s ⟶* s' → Inv s ts → (us : List ℕ) × Inv s' us
steps-Inv ts here h = (ts, h)
steps-Inv ts (further e es) h = let next = step-Inv ts e h in steps-Inv next.0 es next.1
steps-Inv ts (from_outside e es) h = let next = outside-Inv ts e h in steps-Inv next.0 es next.1

-- In every state that the threads of a pool come to, for some list of queued tasks.
pub reached-Inv : {n : ℕ} {s : Threads} → fresh_threads n ⟶* s → (ts : List ℕ) × Inv s ts
reached-Inv {n} es = steps-Inv [] es (fresh_threads-Inv n)

-- In every state that is reached from the start of `thrpool_create`, no task runs in two workers, or
-- runs and is queued.
pub threads-Apart :
    {n : ℕ} {s : Threads}
    → fresh_threads n ⟶* s
    → Distinct s.running × ((ts : List ℕ) → IsQueue s.pool ts → All (λ t. Fresh t ts) s.running)
threads-Apart {n} {s} es =
    let found = reached-Inv es in
    (
      found.1.once,
      λ ts q.
          subst (λ us. All (λ t. Fresh t us) s.running)
            (IsChain-same s.pool.next s.pool.front found.0 ts found.1.queue.linked q.linked)
            found.1.apart,
    )

-- When `thrpool_destroy` has freed the pool, no worker is in its loop any more, asleep or at a task, or
-- before the decrement of its cleanup.
pub freed-Deserted :
    {n : ℕ} {s : Threads}
    → fresh_threads n ⟶* s
    → s.owner ≡ freed
    → (in_loop s ≡ 0) × (s.running ≡ []) × (s.leaving ≡ 0)
freed-Deserted es e = let found = (reached-Inv es).1 in ground arith
