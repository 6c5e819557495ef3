-- ===== src/Thrpool/Queue.antt =====
-- The linked tasks of a pool of c/thrpool/thrpool.c as a list.
use model_lib.Common.{
  ℕ, zero, suc, ◌<◌, ◌≡◌, ◌≢◌, refl, sym, ap, ◌∙◌, subst, List, [], ◌∷◌, ◌++◌, Bool, true, false,
  ==-refl, ne→==-false, if◌then◌else◌, Option, none, some, length, arith, All, ◌⊎◌, inl, inr,
}
use model_lib.Thrpool.{
  Pool, set_next, task_enq, Taken, runs, leaves, waits, take_front, worker_take, worker_ran,
  thrpool_add_task, free_tasks,
}

-- The tasks that are linked from a pointer.
abbrev pub IsChain : (ℕ → Option ℕ) → Option ℕ → List ℕ → Type 0
IsChain next p [] = p ≡ none
IsChain next p (t ∷ ts) = (p ≡ some t) × IsChain next (next t) ts

-- `t` is no element.
abbrev pub Fresh : ℕ → List ℕ → Type 0
Fresh t ts = All (λ x. x ≢ t) ts

abbrev pub Distinct : List ℕ → Type 0
Distinct [] = Unit
Distinct (t ∷ ts) = Fresh t ts × Distinct ts

-- Of a queue that is not empty the rear is the last task.
abbrev pub LastIs : ℕ → List ℕ → Type 0
LastIs r [] = Unit
LastIs r (t ∷ []) = r ≡ t
LastIs r (t ∷ u ∷ ts) = LastIs r (u ∷ ts)

-- `ts` are the tasks of the pool, from front to rear.
pub record IsQueue (ti : Pool) (ts : List ℕ) : Type 0 where
  pub linked : IsChain ti.next ti.front ts
  pub last : LastIs ti.rear ts
  pub distinct : Distinct ts

set_next_self : (next : ℕ → Option ℕ) (t : ℕ) (v : Option ℕ) → set_next next t v t ≡ v
set_next_self next t v = ap (λ b. if b then v else next t) (==-refl t)

set_next_other :
    (next : ℕ → Option ℕ) (t : ℕ) (v : Option ℕ) (j : ℕ) → j ≢ t → set_next next t v j ≡ next j
set_next_other next t v j h = ap (λ b. if b then v else next j) (ne→==-false j t h)

last_ne : (x r u : ℕ) (ts : List ℕ) → Fresh x (u ∷ ts) → LastIs r (u ∷ ts) → x ≢ r
last_ne x r u [] fresh e h = fresh.0 (sym e ∙ sym h)
last_ne x r u (v ∷ ts) fresh e h = last_ne x r v ts fresh.1 e h

-- A write to a task outside of a chain.
IsChain-other :
    (next : ℕ → Option ℕ) (t : ℕ) (v p : Option ℕ) (ts : List ℕ)
    → Fresh t ts
    → IsChain next p ts
    → IsChain (set_next next t v) p ts
IsChain-other next t v p [] fresh h = h
IsChain-other next t v p (u ∷ ts) fresh h = (
  h.0,
  subst (λ q. IsChain (set_next next t v) q ts) (sym (set_next_other next t v u fresh.0))
      (IsChain-other next t v (next u) ts fresh.1 h.1),
)

IsChain-append :
    (next : ℕ → Option ℕ) (r t : ℕ) (p : Option ℕ) (u : ℕ) (ts : List ℕ)
    → IsChain next p (u ∷ ts)
    → LastIs r (u ∷ ts)
    → Distinct (u ∷ ts)
    → Fresh t (u ∷ ts)
    → next t ≡ none
    → IsChain (set_next next r (some t)) p (u ∷ (ts ++ t ∷ []))
IsChain-append next r t p u [] h e distinct fresh end = (
  h.0,
  (
    ap (set_next next r (some t)) (sym e) ∙ set_next_self next r (some t),
    set_next_other next r (some t) t (λ same. fresh.0 (sym e ∙ sym same)) ∙ end,
  ),
)
IsChain-append next r t p u (v ∷ ts) h e distinct fresh end = (
  h.0,
  subst (λ q. IsChain (set_next next r (some t)) q (v ∷ (ts ++ t ∷ [])))
      (sym (set_next_other next r (some t) u (last_ne u r v ts distinct.0 e)))
      (IsChain-append next r t (next u) v ts h.1 e distinct.1 fresh.1 end),
)

LastIs-append : (t : ℕ) (ts : List ℕ) → LastIs t (ts ++ t ∷ [])
LastIs-append t [] = refl
LastIs-append t (u ∷ []) = refl
LastIs-append t (u ∷ v ∷ ts) = LastIs-append t (v ∷ ts)

pub Fresh-append : (x t : ℕ) (ts : List ℕ) → Fresh x ts → x ≢ t → Fresh x (ts ++ t ∷ [])
Fresh-append x t [] fresh ne = (λ e. ne (sym e), tt)
Fresh-append x t (u ∷ ts) fresh ne = (fresh.0, Fresh-append x t ts fresh.1 ne)

Distinct-append : (t : ℕ) (ts : List ℕ) → Distinct ts → Fresh t ts → Distinct (ts ++ t ∷ [])
Distinct-append t [] h fresh = (tt, tt)
Distinct-append t (u ∷ ts) h fresh =
    (Fresh-append u t ts h.0 fresh.0, Distinct-append t ts h.1 fresh.1)

-- At a task that is not in the queue and whose `next` is NULL, `_task_enq` puts it behind all others.
pub task_enq-IsQueue :
    (ti : Pool) (ts : List ℕ) (t : ℕ)
    → IsQueue ti ts
    → Fresh t ts
    → ti.next t ≡ none
    → IsQueue (task_enq t ti) (ts ++ t ∷ [])
unfolding task_enq
task_enq-IsQueue ti [] t h fresh end =
    rw h.linked (record { linked = (refl, end); last = refl; distinct = (tt, tt) })
task_enq-IsQueue ti (u ∷ ts) t h fresh end =
    let chain =
      IsChain-append ti.next ti.rear t ti.front u ts h.linked h.last h.distinct fresh end in
    rw h.linked.0 (record {
      linked = (refl, chain.1);
      last = LastIs-append t (u ∷ ts);
      distinct = Distinct-append t (u ∷ ts) h.distinct fresh;
    })

-- A fresh block, its `next` cleared, is put behind all others.
pub enq_cleared :
    (ti : Pool) (ts : List ℕ) (t : ℕ)
    → IsQueue ti ts
    → Fresh t ts
    → IsQueue (task_enq t (record ti { next = set_next ti.next t none })) (ts ++ t ∷ [])
enq_cleared ti ts t h fresh =
    task_enq-IsQueue (record ti { next = set_next ti.next t none }) ts t
      (record {
        linked = IsChain-other ti.next t none ti.front ts fresh h.linked;
        last = h.last;
        distinct = h.distinct;
      })
      fresh (set_next_self ti.next t none)

LastIs-behind : (r t : ℕ) (ts : List ℕ) → LastIs r (t ∷ ts) → LastIs r ts
LastIs-behind r t [] h = tt
LastIs-behind r t (u ∷ ts) h = h

-- What a worker takes from a pool with the tasks `ts`: the first one, and the others stay in their
-- order; from an empty pool nothing, and it leaves exactly if the pool is being destroyed, after it
-- has let a caller of `thrpool_wait` go on.
abbrev pub Takes : Pool → List ℕ → Taken → Type 0
Takes ti (t ∷ ts) (runs t' ti') = (t' ≡ t) × IsQueue ti' ts × (ti'.wait_task_0 ≡ ti.wait_task_0)
Takes ti [] (leaves ti') = (ti.destroy ≡ true) × IsQueue ti' [] × (ti'.wait_task_0 ≡ false)
Takes ti [] (waits ti') = (ti.destroy ≡ false) × IsQueue ti' [] × (ti'.wait_task_0 ≡ false)
Takes ti _ _ = ⊥

Takes-empty :
    (ti : Pool) (b : Bool)
    → ti.front ≡ none
    → ti.destroy ≡ b
    → Takes ti [] (
        if b
        then leaves (record ti { wait_task_0 = false })
        else waits (record ti { wait_task_0 = false }))
Takes-empty ti true e d = (d, record { linked = e; last = tt; distinct = tt }, refl)
Takes-empty ti false e d = (d, record { linked = e; last = tt; distinct = tt }, refl)

-- On every queue the worker takes the first task; without one it waits, or leaves if the pool is being
-- destroyed.
pub worker_take-Takes : (ti : Pool) (ts : List ℕ) → IsQueue ti ts → Takes ti ts (worker_take ti)
unfolding worker_take
worker_take-Takes ti (t ∷ ts) h =
    subst (λ p. Takes ti (t ∷ ts) (take_front p ti)) (sym h.linked.0)
      (
        refl,
        record {
          linked = h.linked.1;
          last = LastIs-behind ti.rear t ts h.last;
          distinct = h.distinct.1;
        },
        refl,
      )
worker_take-Takes ti [] h =
    subst (λ p. Takes ti [] (take_front p ti)) (sym h.linked)
      (Takes-empty ti ti.destroy h.linked refl)

-- A task that a worker has taken and that asks to run again is put behind all others, so that every
-- other task runs before it does.
pub worker_ran-IsQueue :
    (ti : Pool) (ts : List ℕ) (t : ℕ)
    → IsQueue ti ts
    → Fresh t ts
    → IsQueue (worker_ran true t ti) (ts ++ t ∷ [])
unfolding worker_ran
worker_ran-IsQueue ti ts t h fresh = enq_cleared ti ts t h fresh

-- What `thrpool_add_task` comes to: 1 and no change, or 0 and the new task behind all others.
abbrev pub Adds : Pool → List ℕ → ℕ → ℕ × Option Pool → Type 0
Adds ti ts t (r, none) = ⊥
Adds ti ts t (r, some ti') =
    ((ti.destroy ≡ true) × (r ≡ 1) × (ti' ≡ ti))
    ⊎ ((ti.destroy ≡ false) × (r ≡ 0) × IsQueue ti' (ts ++ t ∷ []))

Adds-if :
    (ti : Pool) (ts : List ℕ) (t : ℕ) (b : Bool)
    → ti.destroy ≡ b
    → (ti' : Pool) → IsQueue ti' (ts ++ t ∷ [])
    → Adds ti ts t (if b then (1, some ti) else (0, some ti'))
Adds-if ti ts t true d ti' h = inl (d, refl, refl)
Adds-if ti ts t false d ti' h = inr (d, refl, h)

-- With a function and a block that is not queued, `thrpool_add_task` refuses if the pool is being
-- destroyed, and changes nothing; otherwise it puts the task behind all others.
pub thrpool_add_task-Adds :
    (ti : Pool) (ts : List ℕ) (t : ℕ)
    → IsQueue ti ts
    → Fresh t ts
    → Adds ti ts t (thrpool_add_task (some ti) true t)
unfolding thrpool_add_task
thrpool_add_task-Adds ti ts t h fresh =
    Adds-if ti ts t ti.destroy refl _ (enq_cleared ti ts t h fresh)

free_chain :
    (f : ℕ) (next : ℕ → Option ℕ) (p : Option ℕ) (ts : List ℕ)
    → IsChain next p ts
    → length ts < f
    → free_tasks f next p ≡ some ts
unfolding free_tasks
free_chain zero next p ts h lt = absurd (omega arith)
free_chain (suc f) next p [] h lt = rw h refl
free_chain (suc f) next p (t ∷ ts) h lt =
    rw (h.0, free_tasks, free_chain f next (next t) ts h.1 (omega arith)) refl

-- The loop of `thrpool_destroy` ends, and frees every queued task once, in the queue's order.
pub free_tasks_lem :
    (ti : Pool) (ts : List ℕ)
    → IsQueue ti ts
    → (free_tasks (suc (length ts)) ti.next ti.front ≡ some ts) × Distinct ts
free_tasks_lem ti ts h =
    (free_chain (suc (length ts)) ti.next ti.front ts h.linked (omega arith), h.distinct)
