-- ===== src/Thrpool/Examples.antt =====
-- The theorems on c/thrpool at a pool with two tasks.
use model_lib.Common.{[], ◌∷◌, true, false, none, some, refl, arith}
use model_lib.Thrpool.{Pool, set_next, worker_take, thrpool_add_task}
use model_lib.Thrpool.Queue.{IsQueue, Takes, Adds, worker_take-Takes, thrpool_add_task-Adds}

-- The tasks 10 and 20, linked in this order.
abbrev two_tasks : Pool
two_tasks = record {
  front = some 10;
  rear = 20;
  next = set_next (λ t. none) 10 (some 20);
  destroy = false;
  wait_task_0 = true;
}

two_tasks-IsQueue : IsQueue two_tasks (10 ∷ 20 ∷ [])
two_tasks-IsQueue = record {
  linked = (refl, (refl, refl));
  last = refl;
  distinct = ((omega arith, tt), (tt, tt));
}

worker_take-Takes_example : Takes two_tasks (10 ∷ 20 ∷ []) (worker_take two_tasks)
worker_take-Takes_example = worker_take-Takes two_tasks (10 ∷ 20 ∷ []) two_tasks-IsQueue

thrpool_add_task-Adds_example :
    Adds two_tasks (10 ∷ 20 ∷ []) 30 (thrpool_add_task (some two_tasks) true 30)
thrpool_add_task-Adds_example =
    thrpool_add_task-Adds two_tasks (10 ∷ 20 ∷ []) 30 two_tasks-IsQueue
      (omega arith, (omega arith, tt))
