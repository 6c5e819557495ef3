-- ===== src/Thrpool.antt =====
-- c/thrpool/thrpool.c: a pool of threads over a linked queue of tasks. Each definition is what one
-- thread does while it holds `task_m`; addresses of tasks are numbers, and 0 is NULL for the rear.
pub mod Queue
pub mod Threads
mod Examples
use model_lib.Common.{
  ℕ, zero, suc, List, [], ◌∷◌, Bool, true, false, ◌==◌, if◌then◌else◌, Option, none, some,
}

-- The fields of `struct thrpool_internal` that `task_m` guards, with the field `next` of every task.
pub record Pool : Type 0 where
  pub front : Option ℕ
  pub rear : ℕ
  pub next : ℕ → Option ℕ
  pub destroy : Bool
  pub wait_task_0 : Bool

-- `t->next = v`
abbrev pub set_next : (ℕ → Option ℕ) → ℕ → Option ℕ → ℕ → Option ℕ
set_next next t v j = if j == t then v else next j

-- `_task_enq`
unfoldable pub task_enq : ℕ → Pool → Pool
task_enq t ti = elim ti.front [
  | none ↦ record ti { front = some t; rear = t }
  | some first ↦ record ti { next = set_next ti.next ti.rear (some t); rear = t }
]

-- What a worker does between its lock and the next unlock or wait: it runs a task, leaves its loop,
-- or waits on `task_c`.
pub data Taken : Type 0 where
  runs : ℕ → Pool → Taken
  leaves : Pool → Taken
  waits : Pool → Taken

-- Behind the loop `while (ti->task_front == NULL)`, and inside of it.
abbrev pub take_front : Option ℕ → Pool → Taken
take_front (some t) ti = runs t (record ti { front = ti.next t })
take_front none ti =
    if ti.destroy
    then leaves (record ti { wait_task_0 = false })
    else waits (record ti { wait_task_0 = false })

unfoldable pub worker_take : Pool → Taken
worker_take ti = take_front ti.front ti

-- What it does when the task has run: `redo` says that `taskfn` has returned a value other than 0.
-- A task that is not run again is freed.
unfoldable pub worker_ran : Bool → ℕ → Pool → Pool
worker_ran true t ti = task_enq t (record ti { next = set_next ti.next t none })
worker_ran false t ti = ti

-- `thrpool_add_task`: `taskfn` says that the function is not NULL, and `t` is the block from `malloc`.
unfoldable pub thrpool_add_task : Option Pool → (taskfn : Bool) → ℕ → ℕ × Option Pool
thrpool_add_task none taskfn t = (1, none)
thrpool_add_task (some ti) false t = (1, some ti)
thrpool_add_task (some ti) true t =
    if ti.destroy
    then (1, some ti)
    else (0, some (task_enq t (record ti { next = set_next ti.next t none })))

-- `thrpool_destroy` without waiting: the loop that frees the tasks, in the order of the `free` calls.
unfoldable pub free_tasks : ℕ → (ℕ → Option ℕ) → Option ℕ → Option (List ℕ)
free_tasks zero next t = none
free_tasks (suc f) next none = some []
free_tasks (suc f) next (some t) = elim (free_tasks f next (next t)) [
  | none ↦ none
  | some ts ↦ some (t ∷ ts)
]

-- `thrpool_wait`: whether the caller goes to sleep on `task_0_c`.
unfoldable pub thrpool_wait : Pool → Bool × Pool
thrpool_wait ti =
    if ti.destroy
    then (false, ti)
    else elim ti.front [ none ↦ (false, ti) | some t ↦ (true, record ti { wait_task_0 = true }) ]
