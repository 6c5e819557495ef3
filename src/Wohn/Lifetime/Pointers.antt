-- ===== src/Wohn/Lifetime/Pointers.antt =====
-- The pointers of cpp/wohn/WohnCore.cpp: `pNSM`, `pHNStatus` and `pHNConnSettings` are set wherever they
-- are read.
use model_lib.Common.{
  ℕ, suc, ◌+◌, ◌≡◌, ◌≢◌, ◌⊎◌, refl, ◌∙◌, Bool, Bool-cases, Option-cases, inl, inr, true, false,
  Option, none, some, List, [], ◌∷◌, arith,
}
use model_lib.Wohn.Notify.{HnState, unavailable, idle, active}
use model_lib.Wohn.Wlan.{Wlan, Status, is_some, cor_wlan_initialize, cor_wlan_get_state}
use model_lib.Wohn.Wlan.Names.{cor_wlan_get_ssid, cor_wlan_set_ssid, read_ssid}
use model_lib.Wohn.Wlan.Session.{
  Call, get_ssid, set_ssid, get_state, run_call, status_queries, Held, initialize-Held,
  run_call-Held,
}
use model_lib.Wohn.Ics.{Ics, Enumeration, Props, cor_ics_disable}
use model_lib.Wohn.Ics.Enable.{cor_ics_enable}
use model_lib.Wohn.Ics.Startup.{cor_ics_initialize}
use model_lib.Wohn.Ics.Enum.{Sign, cor_ics_enum}
use model_lib.Wohn.Lifetime.{
  Globals, Environment, Step, cor_is_administrator, cor_is_ics_allowed, begin, finish, network,
  enable, disable, enumerate_all, cor_initialize, cor_deinitialize, step, run_steps, faults,
  enable_all, enum_all,
}
use model_lib.Wohn.Lifetime.Manager.{
  cor_ics_enable-manager, cor_ics_enum-manager, cor_ics_disable-manager, cor_ics_initialize-manager,
}

-- The pointers that the initialized program has: `pNSM`, and what a successful `cor_wlan_initialize` sets.
record Ready (s : Ics) (w : Wlan) : Type 0 where
  manager : s.manager ≡ true
  begun : Wlan
  lost : ℕ
  held : Held begun lost w

abbrev Usable : Globals → Type 0
Usable g = g.initialized ≡ true → Ready g.ics g.wlan

abbrev globals : Bool → Ics → Wlan → Globals
globals b s w = record { initialized = b; ics = s; wlan = w }

initialize-Usable :
    (v : Environment) (b : Bool) (s : Ics) (w : Wlan)
    → Usable (globals b s w)
    → Usable (cor_initialize v (globals b s w)).1
unfolding cor_initialize
initialize-Usable v true s w h = h
initialize-Usable v false s w h = elim (Bool-cases (cor_is_administrator v.identifier v.member)) [
  | inr q ↦ rw q h
  | inl q ↦ elim (Bool-cases (cor_is_ics_allowed v.key v.value)) [
    | inr q' ↦ rw (q, q') h
    | inl q' ↦
        let r = cor_ics_initialize false v.library v.co v.manager v.installed v.connections s in
        elim (Bool-cases r.0) [
          | inr u ↦ rw (q, q', u) (λ e. absurd (ground (arith, e)))
          | inl u ↦ elim (Bool-cases (cor_wlan_initialize false v.wlan w).0) [
            | inr u' ↦ rw (q, q', u, u') (λ e. absurd (ground (arith, e)))
            | inl u' ↦
                rw (q, q', u, u')
                  (λ e. record {
                    manager =
                        cor_ics_initialize-manager v.library v.co v.manager v.installed
                          v.connections s u;
                    begun = w;
                    lost = 0;
                    held = initialize-Held v.wlan w u';
                  })
          ]
        ]
  ]
]

faults-not : (c : Call) (w₀ : Wlan) (lost : ℕ) (w : Wlan) → Held w₀ lost w → faults c w ≡ false
unfolding faults cor_wlan_get_ssid cor_wlan_set_ssid read_ssid
faults-not (get_ssid widen) w₀ lost w h = ground arith
faults-not (set_ssid none accepted) w₀ lost w h = refl
faults-not (set_ssid (some bytes) accepted) w₀ lost w h = ground arith
faults-not c w₀ lost w h = refl

-- The step succeeds, and the pointers are kept.
Succeeds : Option Globals → Type 0
Succeeds r = (g : Globals) × (r ≡ some g) × Usable g

network-Succeeds :
    (c : Call) (s : Ics) (w : Wlan) → Ready s w → Succeeds (step (network c) (globals true s w))
unfolding step Succeeds
network-Succeeds c s w h =
    let w' = run_call c w in
    (
      globals true s w',
      rw (faults-not c h.begun h.lost w h.held) refl,
      λ e. record {
        manager = h.manager;
        begun = h.begun;
        lost = status_queries c + h.lost;
        held = run_call-Held h.begun h.lost c w h.held;
      },
    )

abbrev status_of : HnState → ℕ → Status
status_of state device = record { state = state; device = device }

-- The state with the new status block.
abbrev queried : Status → Wlan → Wlan
queried st w = record w { status = some st; allocated = suc w.allocated }

queried-Ready : (st : Status) (s : Ics) (w : Wlan) → Ready s w → Ready s (queried st w)
unfolding run_call cor_wlan_get_state
queried-Ready st s w h = record {
  manager = h.manager;
  begun = h.begun;
  lost = status_queries (get_state (some st)) + h.lost;
  held = run_call-Held h.begun h.lost (get_state (some st)) w h.held;
}

with_ics-Ready : (s s' : Ics) (w : Wlan) → s'.manager ≡ s.manager → Ready s w → Ready s' w
with_ics-Ready s s' w e h = record {
  manager = e ∙ h.manager;
  begun = h.begun;
  lost = h.lost;
  held = h.held;
}

HnState-cases : (k : HnState) → (k ≡ unavailable) ⊎ (k ≢ unavailable)
HnState-cases unavailable = inl refl
HnState-cases idle = inr (λ e. absurd (ground (arith, e)))
HnState-cases active = inr (λ e. absurd (ground (arith, e)))

-- The states in which `cor_ics_enable` goes on.
enable_open :
    (state : HnState)
    → state ≢ unavailable
    → (device : ℕ) (chosen : List ℕ → Bool) (en : Enumeration) (a b : Bool × Bool) (s : Ics)
      (w : Wlan)
    → Ready s w
    → enable_all (some (status_of state device)) chosen en a b (globals true s w)
      ≡ some (
          globals true
            (cor_ics_enable true state device chosen en a b s).1
            (queried (status_of state device) w))
unfolding enable_all cor_wlan_get_state
enable_open unavailable ne device chosen en a b s w h = absurd (ne refl)
enable_open idle ne device chosen en a b s w h = ground (arith, h.manager)
enable_open active ne device chosen en a b s w h = ground (arith, h.manager)

enable_all-Succeeds :
    (q : Option Status) (chosen : List ℕ → Bool) (en : Enumeration) (a b : Bool × Bool) (s : Ics)
    (w : Wlan)
    → Ready s w
    → Succeeds (enable_all q chosen en a b (globals true s w))
unfolding enable_all cor_wlan_get_state Succeeds
enable_all-Succeeds none chosen en a b s w h = (globals true s w, refl, λ e. h)
enable_all-Succeeds (some st) chosen en a b s w h =
    let w' = queried st w in
    let s' = (cor_ics_enable true st.state st.device chosen en a b s).1 in
    let h' = queried-Ready st s w h in
    elim (HnState-cases st.state) [
      | inl e ↦ (globals true s w', ground (arith, e), λ on. h')
      | inr ne ↦ (
        globals true s' w',
        enable_open st.state ne st.device chosen en a b s w h,
        λ on. with_ics-Ready s s' w' (cor_ics_enable-manager st.state st.device chosen en a b s) h',
      )
    ]

enum_all-Succeeds :
    (answer : Props → Sign) (en : Enumeration) (s : Ics) (w : Wlan)
    → Ready s w
    → Succeeds (enum_all answer en (globals true s w))
unfolding enum_all Succeeds
enum_all-Succeeds answer en s w h = elim (Option-cases w.status) [
  | inl q ↦ absurd (ground (arith, h.held.status, q))
  | inr (st, q) ↦
      let s' = (cor_ics_enum true st.device answer en s).2 in
      (
        globals true s' w,
        ground (arith, h.manager, q),
        λ e. record {
          manager = cor_ics_enum-manager st.device answer en s ∙ h.manager;
          begun = h.begun;
          lost = h.lost;
          held = h.held;
        },
      )
]

step-Succeeds :
    (x : Step) (b : Bool) (s : Ics) (w : Wlan)
    → Usable (globals b s w)
    → Succeeds (step x (globals b s w))
unfolding step Succeeds enable_all enum_all cor_deinitialize
step-Succeeds (begin v) b s w h =
    ((cor_initialize v (globals b s w)).1, refl, initialize-Usable v b s w h)
step-Succeeds finish b s w h = (_, refl, λ e. absurd (ground (arith, e)))
step-Succeeds (disable a c) false s w h = (_, refl, λ e. absurd (ground (arith, e)))
step-Succeeds (disable a c) true s w h =
    let ready = h refl in
    let s' = cor_ics_disable true a c s in
    (
      globals true s' w,
      ground (arith, ready.manager),
      λ e. with_ics-Ready s s' w (cor_ics_disable-manager true a c s) ready,
    )
step-Succeeds (network c) false s w h = (globals false s w, refl, h)
step-Succeeds (network c) true s w h = network-Succeeds c s w (h refl)
step-Succeeds (enable q chosen en a c) false s w h = (globals false s w, refl, h)
step-Succeeds (enable q chosen en a c) true s w h = enable_all-Succeeds q chosen en a c s w (h refl)
step-Succeeds (enumerate_all answer en) false s w h = (globals false s w, refl, h)
step-Succeeds (enumerate_all answer en) true s w h = enum_all-Succeeds answer en s w (h refl)

run_steps-Usable : (xs : List Step) (g : Globals) → Usable g → Succeeds (run_steps xs g)
unfolding run_steps Succeeds
run_steps-Usable [] g h = (g, refl, h)
run_steps-Usable (x ∷ xs) g h =
    let (g', e, h') = step-Succeeds x g.initialized g.ics g.wlan h in
    let e' : step x g ≡ some g' = e in rw (run_steps, e') (run_steps-Usable xs g' h')

-- No sequence of calls of the interface uses a NULL pointer, in whatever order they come and whatever
-- the system answers, from any state in which the program is not initialized; where it is initialized
-- in the end, `pNSM`, `pHNStatus` and `pHNConnSettings` are set.
pub run_steps-Succeeds :
    (xs : List Step) (g : Globals)
    → g.initialized ≡ false
    → (g' : Globals) × (run_steps xs g ≡ some g')
      × (g'.initialized ≡ true
          → (g'.ics.manager ≡ true)
            × (is_some g'.wlan.status ≡ true)
            × (is_some g'.wlan.connection ≡ true))
unfolding Succeeds
run_steps-Succeeds xs g off =
    let (g', e, h) = run_steps-Usable xs g (λ on. absurd (ground (arith, on, off))) in
    (g', e, λ on. let ready = h on in (ready.manager, ready.held.status, ready.held.connection))
