-- ===== src/Wohn/Wlan/Session.antt =====
-- The resources of the system that a session of cpp/wohn/WohnCore.cpp holds and leaves.
use model_lib.Common.{
  ℕ, suc, ◌+◌, ◌≡◌, subst, Bool, true, false, ◌||◌, ◌&&◌, if◌then◌else◌, Option, none, some, List,
  [], ◌∷◌, arith,
}
use model_lib.Wohn.Notify.{cor_register_notify, cor_unregister_notify}
use model_lib.Wohn.Wlan.Names.{Key, cor_wlan_set_ssid, cor_wlan_get_key}
use model_lib.Wohn.Wlan.{
  Wlan, Answers, Status, is_some, one_if_some, query_enabled, query_status, query_connection,
  query_security, cor_wlan_initialize, cor_wlan_deinitialize, cor_wlan_get_state,
  cor_wlan_is_started, cor_wlan_start, cor_wlan_stop,
}

-- What a session calls between `cor_initialize` and `cor_deinitialize`, with the system's answers.
pub data Call : Type 0 where
  get_state : Option Status → Call
  is_started : Option Status → Call
  start : Bool → Option Status → Call
  stop : (force stopped forced : Bool) → Option Status → Call
  get_ssid : (List ℕ → List ℕ) → Call
  set_ssid : Option (List ℕ) → Bool → Call
  get_key : (List ℕ → List ℕ) → Key → Call
  set_key : (key narrow : List ℕ) → (unknown accepts : Bool) → Call
  register : ℕ → Option ℕ → Call
  unregister : ℕ → Call

unfoldable pub run_call : Call → Wlan → Wlan
run_call (get_state q) w = (cor_wlan_get_state true q w).1
run_call (is_started q) w = (cor_wlan_is_started true q w).1
run_call (start ok q) w = (cor_wlan_start true ok q w).1
run_call (stop force stopped forced q) w = (cor_wlan_stop true force stopped forced q w).1
run_call (get_ssid widen) w = w
run_call (set_ssid narrow accepted) w = elim (cor_wlan_set_ssid true narrow accepted w) [
  | none ↦ w
  | some (done, w') ↦ w'
]
run_call (get_key widen k) w = (cor_wlan_get_key true widen k w).1
run_call (set_key key narrow unknown accepts) w = w
run_call (register i f) w = record w { callbacks = (cor_register_notify true i f w.callbacks).1 }
run_call (unregister i) w = record w { callbacks = cor_unregister_notify true i w.callbacks }

unfoldable pub run_session : List Call → Wlan → Wlan
run_session [] w = w
run_session (c ∷ cs) w = run_session cs (run_call c w)

-- The status queries that a call makes and that succeed.
abbrev pub status_queries : Call → ℕ
status_queries (get_state q) = one_if_some q
status_queries (is_started q) = one_if_some q
status_queries (start ok q) = if ok then one_if_some q else 0
status_queries (stop force stopped forced q) =
    if stopped || (force && forced) then one_if_some q else 0
status_queries c = 0

abbrev pub all_queries : List Call → ℕ
all_queries [] = 0
all_queries (c ∷ cs) = status_queries c + all_queries cs

-- All that has been acquired since `w₀` is given back or held, but for `lost` blocks, and all pointers
-- are set.
pub record Held (w₀ : Wlan) (lost : ℕ) (w : Wlan) : Type 0 where
  pub client : w.client ≡ true
  pub enabled : w.enabled ≡ true
  pub connection : is_some w.connection ≡ true
  pub security : w.security ≡ true
  pub status : is_some w.status ≡ true
  pub handles : (w.opened ≡ suc w₀.opened) × (w.closed ≡ w₀.closed)
  pub sections : (w.created ≡ suc w₀.created) × (w.deleted ≡ w₀.deleted)
  pub blocks : w.allocated + w₀.freed ≡ 4 + w₀.allocated + lost + w.freed

pub initialize-Held :
    (a : Answers) (w : Wlan)
    → (cor_wlan_initialize false a w).0 ≡ true
    → Held w 0 (cor_wlan_initialize false a w).1
unfolding cor_wlan_initialize query_enabled query_status query_connection query_security
initialize-Held a w h = ground arith

pub run_call-Held :
    (w₀ : Wlan) (lost : ℕ) (c : Call) (w : Wlan)
    → Held w₀ lost w
    → Held w₀ (status_queries c + lost) (run_call c w)
unfolding run_call cor_wlan_get_state cor_wlan_is_started cor_wlan_start cor_wlan_stop
    cor_wlan_set_ssid cor_wlan_get_key
run_call-Held w₀ lost (get_state none) w h = ground arith
run_call-Held w₀ lost (get_state (some s)) w h = ground arith
run_call-Held w₀ lost (is_started none) w h = ground arith
run_call-Held w₀ lost (is_started (some s)) w h = ground arith
run_call-Held w₀ lost (start ok none) w h = ground arith
run_call-Held w₀ lost (start ok (some s)) w h = ground arith
run_call-Held w₀ lost (stop force stopped forced none) w h = ground arith
run_call-Held w₀ lost (stop force stopped forced (some s)) w h = ground arith
run_call-Held w₀ lost (get_ssid widen) w h = ground arith
run_call-Held w₀ lost (set_ssid none accepted) w h = ground arith
run_call-Held w₀ lost (set_ssid (some bytes) accepted) w h = ground arith
run_call-Held w₀ lost (get_key widen k) w h = ground arith
run_call-Held w₀ lost (set_key key narrow unknown accepts) w h = ground arith
run_call-Held w₀ lost (register i f) w h = ground arith
run_call-Held w₀ lost (unregister i) w h = ground arith

run_session-Held :
    (w₀ : Wlan) (lost : ℕ) (cs : List Call) (w : Wlan)
    → Held w₀ lost w
    → Held w₀ (all_queries cs + lost) (run_session cs w)
unfolding run_session
run_session-Held w₀ lost [] w h = subst (λ k. Held w₀ k w) (omega arith) h
run_session-Held w₀ lost (c ∷ cs) w h =
    let rest =
      run_session-Held w₀ (status_queries c + lost) cs (run_call c w)
        (run_call-Held w₀ lost c w h) in
    ground arith

-- What a session leaves behind of what it has acquired.
pub record Leaves (w₀ : Wlan) (lost : ℕ) (w : Wlan) : Type 0 where
  pub handles : w.opened + w₀.closed ≡ w.closed + w₀.opened
  pub sections : w.created + w₀.deleted ≡ w.deleted + w₀.created
  pub blocks : w.allocated + w₀.freed ≡ w.freed + w₀.allocated + lost

-- If `cor_wlan_initialize` succeeds, then after any calls and `cor_wlan_deinitialize` the handle, the
-- critical section and all blocks are given back, but for one block for each status query that has
-- succeeded in between.
pub session-Leaves :
    (a : Answers) (w : Wlan) (cs : List Call)
    → (cor_wlan_initialize false a w).0 ≡ true
    → Leaves w
        (all_queries cs)
        (cor_wlan_deinitialize true (run_session cs (cor_wlan_initialize false a w).1))
unfolding cor_wlan_deinitialize
session-Leaves a w cs h =
    let held = run_session-Held w 0 cs (cor_wlan_initialize false a w).1 (initialize-Held a w h) in
    ground arith
