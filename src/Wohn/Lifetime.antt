-- ===== src/Wohn/Lifetime.antt =====
-- The start and the end of cpp/wohn/WohnCore.cpp: `cor_initialize`, `cor_deinitialize` and what they
-- ask; and the whole of its interface as steps on all its globals.
pub mod Manager
pub mod Pointers
use model_lib.Common.{
  ℕ, ◌==◌, Bool, true, false, if◌then◌else◌, Option, none, some, List, [], ◌∷◌, not, ◌||◌, ◌&&◌,
}
use model_lib.Wohn.Notify.{HnState, unavailable, idle, active}
use model_lib.Wohn.Wlan.{
  Wlan, Answers, Status, cor_wlan_initialize, cor_wlan_deinitialize, cor_wlan_get_state,
}
use model_lib.Wohn.Wlan.Names.{Text, fault, cor_wlan_get_ssid, cor_wlan_set_ssid}
use model_lib.Wohn.Wlan.Session.{Call, get_ssid, set_ssid, run_call}
use model_lib.Wohn.Ics.{Ics, Enumeration, Props, cor_ics_disable}
use model_lib.Wohn.Ics.Enable.{cor_ics_enable}
use model_lib.Wohn.Ics.Startup.{CoResult, cor_ics_initialize, cor_ics_deinitialize}
use model_lib.Wohn.Ics.Enum.{Sign, cor_ics_enum}

-- All globals.
pub record Globals : Type 0 where
  pub initialized : Bool
  pub ics : Ics
  pub wlan : Wlan

-- `cor_is_administrator`: whether there is an identifier, and the answer of `CheckTokenMembership`.
abbrev pub cor_is_administrator : (identifier : Bool) → (member : Option Bool) → Bool
cor_is_administrator false member = false
cor_is_administrator true none = false
cor_is_administrator true (some b) = b

-- `cor_is_ics_allowed`: whether the key opens, and the value that is read.
abbrev pub cor_is_ics_allowed : (key : Bool) → (value : Option ℕ) → Bool
cor_is_ics_allowed key none = true
cor_is_ics_allowed key (some v) = if key then v == 1 else true

-- What `cor_initialize` gets from the system.
pub record Environment : Type 0 where
  pub identifier : Bool
  pub member : Option Bool
  pub key : Bool
  pub value : Option ℕ
  pub library : Bool
  pub co : CoResult
  pub manager : Bool
  pub installed : Bool
  pub connections : Enumeration
  pub wlan : Answers

-- The results −1, 1, 2, 3, 4 and 0 of `cor_initialize`.
pub data Started : Type 0 where
  already no_administrator not_allowed no_sharing no_network started : Started

unfoldable pub cor_initialize : Environment → Globals → Started × Globals
cor_initialize v g =
    if g.initialized
    then (already, g)
    else if not (cor_is_administrator v.identifier v.member)
    then (no_administrator, g)
    else if not (cor_is_ics_allowed v.key v.value)
    then (not_allowed, g)
    else (let (sharing, ics) =
          cor_ics_initialize g.initialized v.library v.co v.manager v.installed v.connections
            g.ics in
        let (network, wlan) = cor_wlan_initialize g.initialized v.wlan g.wlan in
        if not sharing
        then (no_sharing, record g { ics = ics })
        else if not network
        then (no_network, record g { ics = ics; wlan = wlan })
        else (started, record { initialized = true; ics = ics; wlan = wlan }))

unfoldable pub cor_deinitialize : Globals → Globals
cor_deinitialize g = record {
  initialized = false;
  ics = cor_ics_deinitialize g.initialized g.ics;
  wlan = cor_wlan_deinitialize g.initialized g.wlan;
}

-- A call of `cor_ics_enable` on all globals: it asks for the state first, and reads `pHNStatus` and
-- `pNSM` only behind that. `none` is the use of a NULL pointer.
unfoldable pub enable_all :
    Option Status
    → (List ℕ → Bool)
    → Enumeration
    → Bool × Bool
    → Bool × Bool
    → Globals
    → Option Globals
enable_all q chosen en first last g =
    if not g.initialized
    then some g
    else (let (state, w) = cor_wlan_get_state true q g.wlan in
        elim state [
          | unavailable ↦ some (record g { wlan = w })
          | other ↦ if not g.ics.manager then none else elim w.status [
            | none ↦ none
            | some st ↦
                let (done, s) = cor_ics_enable true other st.device chosen en first last g.ics in
                some (record g { ics = s; wlan = w })
          ]
        ])

-- A call of `cor_ics_enum` on all globals.
unfoldable pub enum_all : (Props → Sign) → Enumeration → Globals → Option Globals
enum_all answer en g =
    if not g.initialized then some g else if not g.ics.manager then none else elim g.wlan.status [
      | none ↦ none
      | some st ↦
          let (r, calls, s) = cor_ics_enum true st.device answer en g.ics in
          some (record g { ics = s })
    ]

-- The calls that read `pHNConnSettings`.
unfoldable pub faults : Call → Wlan → Bool
faults (get_ssid widen) w = elim (cor_wlan_get_ssid true widen w) [ fault ↦ true | _ ↦ false ]
faults (set_ssid narrow accepted) w = elim (cor_wlan_set_ssid true narrow accepted w) [
  | none ↦ true
  | some r ↦ false
]
faults c w = false

-- The interface of the program, with the system's answers; a call of `cor_ics_disable` uses `pNSM` where
-- a connection is kept.
pub data Step : Type 0 where
  begin : Environment → Step
  finish : Step
  network : Call → Step
  enable : Option Status → (List ℕ → Bool) → Enumeration → Bool × Bool → Bool × Bool → Step
  disable : Bool → Bool → Step
  enumerate_all : (Props → Sign) → Enumeration → Step

unfoldable pub step : Step → Globals → Option Globals
step (begin v) g = some (cor_initialize v g).1
step finish g = some (cor_deinitialize g)
step (network c) g =
    if not g.initialized
    then some g
    else if faults c g.wlan
    then none
    else some (record g { wlan = run_call c g.wlan })
step (enable q chosen en a b) g = enable_all q chosen en a b g
step (disable a b) g =
    if g.initialized && not g.ics.manager
    then none
    else some (record g { ics = cor_ics_disable g.initialized a b g.ics })
step (enumerate_all answer en) g = enum_all answer en g

unfoldable pub run_steps : List Step → Globals → Option Globals
run_steps [] g = some g
run_steps (x ∷ xs) g = elim (step x g) [ none ↦ none | some g' ↦ run_steps xs g' ]
