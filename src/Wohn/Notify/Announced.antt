-- ===== src/Wohn/Notify/Announced.antt =====
-- What `cor_wlan_notification` of cpp/wohn/WohnCore.cpp calls, against a list of what a change of state is
-- announced as.
use model_lib.Common.{
  ℕ, ◌<◌, ◌≡◌, refl, ap, ap₂, sym, Bool, true, false, ◌==◌, ◌&&◌, not, if◌then◌else◌, none, some,
  List, [], ◌∷◌, ◌++◌, arith, Bool-cases, inl, inr, All, append-nil, ==→eq,
}
use model_lib.Wohn.Notify.{
  Callbacks, notify_count, notify_unavailable, notify_available, notify_started, notify_stoped,
  HnState, unavailable, idle, active, state_change, Argument, context, Calls, call, on_state_change,
  on_notification, cor_wlan_notification,
}
use model_lib.Wohn.Notify.Counted.{
  Call, run_calls, no_callbacks, Counts, run_calls-Counts, none_counted, set_below,
}

abbrev is_active : HnState → Bool
is_active active = true
is_active s = false

abbrev is_idle : HnState → Bool
is_idle idle = true
is_idle s = false

abbrev is_unavailable : HnState → Bool
is_unavailable unavailable = true
is_unavailable s = false

abbrev one_if : Bool → ℕ → List ℕ
one_if b i = if b then i ∷ [] else []

-- A network that leaves the active state has stopped; besides, the new state is announced: an active one
-- always, an idle one unless the network has just stopped, and an unavailable one if it is new.
abbrev pub announced : (old new : HnState) → List ℕ
announced old new =
    one_if (is_active old && not (is_active new)) notify_stoped
    ++ (one_if (is_unavailable new && not (is_unavailable old)) notify_unavailable
        ++ (one_if (is_idle new && not (is_active old)) notify_available
            ++ one_if (is_active new) notify_started))

abbrev pub calls_of : Callbacks → List ℕ → Argument → Calls
calls_of s [] x = []
calls_of s (i ∷ is) x = call s i x ++ calls_of s is x

on_state_change-announced :
    (s : Callbacks) (old new : HnState)
    → on_state_change s old new ≡ calls_of s (announced old new) context
unfolding on_state_change
on_state_change-announced s active active = sym (append-nil _)
on_state_change-announced s idle active = sym (append-nil _)
on_state_change-announced s unavailable active = sym (append-nil _)
on_state_change-announced s active idle = sym (append-nil _)
on_state_change-announced s idle idle = sym (append-nil _)
on_state_change-announced s unavailable idle = sym (append-nil _)
on_state_change-announced s active unavailable =
    ap (λ q. call s notify_stoped context ++ q) (sym (append-nil _))
on_state_change-announced s idle unavailable = sym (append-nil _)
on_state_change-announced s unavailable unavailable = refl

announced_below : (old new : HnState) → All (λ i. i < notify_count) (announced old new)
announced_below active active = ground arith
announced_below active idle = ground arith
announced_below active unavailable = ground arith
announced_below idle active = ground arith
announced_below idle idle = ground arith
announced_below idle unavailable = ground arith
announced_below unavailable active = ground arith
announced_below unavailable idle = ground arith
announced_below unavailable unavailable = ground arith

call-none : (s : Callbacks) (i : ℕ) (x : Argument) → s.callback i ≡ none → call s i x ≡ []
call-none s i x e = ap (λ o. elim o [ none ↦ [] | some f ↦ (f, x) ∷ [] ]) e

calls_of-none :
    (s : Callbacks) (is : List ℕ) (x : Argument)
    → set_below s.callback notify_count ≡ 0
    → All (λ i. i < notify_count) is
    → calls_of s is x ≡ []
calls_of-none s [] x h le = refl
calls_of-none s (i ∷ is) x h le =
    ap₂ (λ p q. p ++ q) (call-none s i x (none_counted s.callback notify_count i h le.0))
      (calls_of-none s is x h le.1)

start-Counts : Counts true no_callbacks
unfolding set_below
start-Counts = record { enough = omega arith; same = λ e. refl }

-- After any calls of `cor_register_notify` and `cor_unregister_notify` from the first start on, a change
-- of the hosted network's state calls the callbacks that are set for what it is announced as, in
-- this order, each once and with the context, and no other.
pub cor_wlan_notification-announced :
    (cs : List Call) (old new : HnState)
    → let s = run_calls cs no_callbacks in
      cor_wlan_notification true true (some (state_change true old new)) s
      ≡ calls_of s (announced old new) context
unfolding cor_wlan_notification on_notification
cor_wlan_notification-announced cs old new =
    let s = run_calls cs no_callbacks in
    let counts = run_calls-Counts cs no_callbacks true start-Counts in
    elim (Bool-cases (s.notifications == 0)) [
      | inl e ↦
          let zero_set : set_below s.callback notify_count ≡ 0 =
            omega (arith, counts.enough, ==→eq s.notifications 0 e) in
          rw e
            (sym (calls_of-none s (announced old new) context zero_set (announced_below old new)))
      | inr e ↦ rw e (on_state_change-announced s old new)
    ]
