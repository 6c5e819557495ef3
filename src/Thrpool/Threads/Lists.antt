-- ===== src/Thrpool/Threads/Lists.antt =====
-- Lists of tasks that do not meet, as the threads of c/thrpool/thrpool.c hold them.
use model_lib.Common.{
  ℕ, suc, ◌≡◌, ◌≢◌, refl, sym, ap, ap₂, subst, List, [], ◌∷◌, ◌++◌, Option, length, arith, All,
}
use model_lib.Thrpool.Queue.{IsChain, Fresh, Distinct, Fresh-append}

-- The first task is not run already, and the others stay apart from what runs.
pub apart_behind :
    (t : ℕ) (ts us : List ℕ)
    → All (λ u. Fresh u (t ∷ ts)) us
    → All (λ u. Fresh u ts) us × Fresh t us
apart_behind t ts [] h = (tt, tt)
apart_behind t ts (u ∷ us) h =
    let rest = apart_behind t ts us h.1 in ((h.0.1, rest.0), (λ e. h.0.0 (sym e), rest.1))

-- A task among those that run, taken out.
pub Fresh-without :
    (x t : ℕ) (us vs : List ℕ) → Fresh x (us ++ t ∷ vs) → (t ≢ x) × Fresh x (us ++ vs)
Fresh-without x t [] vs h = h
Fresh-without x t (u ∷ us) vs h = let rest = Fresh-without x t us vs h.1 in (rest.0, (h.0, rest.1))

pub Distinct-without :
    (t : ℕ) (us vs : List ℕ) → Distinct (us ++ t ∷ vs) → Distinct (us ++ vs) × Fresh t (us ++ vs)
Distinct-without t [] vs h = (h.1, h.0)
Distinct-without t (u ∷ us) vs h =
    let apart = Fresh-without u t us vs h.0 in
    let rest = Distinct-without t us vs h.1 in ((apart.1, rest.0), (λ e. apart.0 (sym e), rest.1))

pub apart-without :
    (ts : List ℕ) (t : ℕ) (us vs : List ℕ)
    → All (λ u. Fresh u ts) (us ++ t ∷ vs)
    → Fresh t ts × All (λ u. Fresh u ts) (us ++ vs)
apart-without ts t [] vs h = h
apart-without ts t (u ∷ us) vs h =
    let rest = apart-without ts t us vs h.1 in (rest.0, (h.0, rest.1))

pub length-without : (t : ℕ) (us vs : List ℕ) → length (us ++ t ∷ vs) ≡ suc (length (us ++ vs))
length-without t [] vs = refl
length-without t (u ∷ us) vs = ap suc (length-without t us vs)

pub length-behind : (t : ℕ) (ts : List ℕ) → length (ts ++ t ∷ []) ≡ suc (length ts)
length-behind t [] = refl
length-behind t (u ∷ ts) = ap suc (length-behind t ts)

-- A task put behind the queue is apart from all that run if it is none of them.
pub apart-append :
    (t : ℕ) (ts us : List ℕ)
    → All (λ u. Fresh u ts) us
    → Fresh t us
    → All (λ u. Fresh u (ts ++ t ∷ [])) us
apart-append t ts [] h fresh = tt
apart-append t ts (u ∷ us) h fresh =
    (Fresh-append u t ts h.0 fresh.0, apart-append t ts us h.1 fresh.1)

pub apart_none : (us : List ℕ) → All (λ u. Fresh u []) us
apart_none [] = tt
apart_none (u ∷ us) = (tt, apart_none us)

-- The tasks from a pointer are determined.
pub IsChain-same :
    (next : ℕ → Option ℕ) (p : Option ℕ) (ts us : List ℕ)
    → IsChain next p ts
    → IsChain next p us
    → ts ≡ us
IsChain-same next p [] [] h g = refl
IsChain-same next p [] (u ∷ us) h g = absurd (ground arith)
IsChain-same next p (t ∷ ts) [] h g = absurd (ground arith)
IsChain-same next p (t ∷ ts) (u ∷ us) h g =
    let same : t ≡ u = ground arith in
    ap₂ (λ x xs. x ∷ xs) same
      (IsChain-same next (next u) ts us (subst (λ x. IsChain next (next x) ts) same h.1) g.1)
