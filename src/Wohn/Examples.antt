-- ===== src/Wohn/Examples.antt =====
-- Examples for cpp/wohn/WohnCore.cpp: a wired connection, the device of the hosted network, and a run of
-- the whole interface.
use model_lib.Common.{ℕ, ◌≡◌, ◌==◌, refl, Bool, true, false, none, some, List, [], ◌∷◌, ◌++◌, arith}
use model_lib.Wohn.Notify.{
  idle, active, unavailable, notify_started, notify_stoped, context, state_change,
  cor_wlan_notification,
}
use model_lib.Wohn.Notify.Counted.{Call, register, unregister, run_calls, no_callbacks}
use model_lib.Wohn.Notify.Announced.{announced, calls_of, cor_wlan_notification-announced}
use model_lib.Wohn.Wlan.{
  Wlan, Ssid, Status, Query, Answers, cor_wlan_initialize, cor_wlan_deinitialize, is_some,
  query_enabled, query_status, query_connection, query_security,
}
use model_lib.Wohn.Wlan.Names.{
  Renames, cor_wlan_set_ssid-Renames, copied, cor_wlan_get_key, cor_wlan_set_key,
  cor_wlan_get_key-set_key,
}
use model_lib.Wohn.Wlan.Session
use model_lib.Wohn.Ics.{Props, Item, Enumeration, Ics}
use model_lib.Wohn.Ics.Startup.{s_ok}
use model_lib.Wohn.Ics.Enable.{cor_ics_enable}
use model_lib.Wohn.Ics.Enum.{Sign, zero_sign, cor_ics_enum}
use model_lib.Wohn.Ics.Balanced.{Owing, cor_ics_enable-Owing}
use model_lib.Wohn.Ics.Enabled.{Outcome, cor_ics_enable-Outcome}
use model_lib.Wohn.Ics.Enumerated.{
  until_positive, shown_item, shown, last_answer, cor_ics_enum-shown,
}
use model_lib.Wohn.Lifetime.{
  Globals, Environment, Step, begin, finish, network, enable, disable, enumerate_all, run_steps,
}
use model_lib.Wohn.Lifetime.Pointers.{run_steps-Succeeds}

abbrev first_calls : List Call
first_calls =
    register notify_started (some 11)
    ∷ register notify_stoped (some 12)
    ∷ unregister notify_started
    ∷ []

cor_wlan_notification-announced_example :
    cor_wlan_notification true true
      (some (state_change true active unavailable))
      (run_calls first_calls no_callbacks)
    ≡ calls_of (run_calls first_calls no_callbacks) (announced active unavailable) context
cor_wlan_notification-announced_example =
    cor_wlan_notification-announced first_calls active unavailable

-- The wireless service before the start, and its answers.
abbrev fresh_wlan : Wlan
fresh_wlan = record {
  callbacks = no_callbacks;
  client = false;
  enabled = false;
  connection = none;
  security = false;
  status = none;
  opened = 0;
  closed = 0;
  allocated = 0;
  freed = 0;
  created = 0;
  deleted = 0;
}

abbrev home : Ssid
home = record { len = 4; bytes = 104 ∷ 111 ∷ 109 ∷ 101 ∷ [] }

abbrev answered : {A : Type 0} → A → Query A
answered x = record { ok = true; value = some x; fits = true }

abbrev idle_status : Status
idle_status = record { state = idle; device = 7 }

abbrev active_status : Status
active_status = record { state = active; device = 7 }

abbrev good_answers : Answers
good_answers = record {
  opens_handle = true;
  init_settings = true;
  enabled = answered true;
  status = answered idle_status;
  connection = answered home;
  security = answered true;
  register = true;
}

abbrev a_session : List Session.Call
a_session =
    Session.start true (some active_status)
    ∷ Session.get_state none
    ∷ Session.stop true false true (some idle_status)
    ∷ []

session-Leaves_example : Session.Leaves fresh_wlan 2 (
    cor_wlan_deinitialize true
      (Session.run_session a_session (cor_wlan_initialize false good_answers fresh_wlan).1))
unfolding cor_wlan_initialize query_enabled query_status query_connection query_security
session-Leaves_example = Session.session-Leaves good_answers fresh_wlan a_session refl

abbrev named_wlan : Wlan
named_wlan = record fresh_wlan { connection = some home }

cor_wlan_set_ssid-Renames_example : Renames (λ bytes. bytes) (99 ∷ 97 ∷ []) named_wlan home
cor_wlan_set_ssid-Renames_example =
    cor_wlan_set_ssid-Renames (λ bytes. bytes) (99 ∷ 97 ∷ []) named_wlan home refl (omega arith)
      (omega arith) (omega arith) (omega arith)

-- A key of eight characters.
abbrev a_key : List ℕ
a_key = 49 ∷ 50 ∷ 51 ∷ 52 ∷ 53 ∷ 54 ∷ 55 ∷ 56 ∷ []

cor_wlan_get_key-set_key_example :
    let handed = cor_wlan_set_key true a_key a_key false true in
    (handed ≡ some (some (a_key ++ 0 ∷ []), true))
    × ((cor_wlan_get_key true
          (λ bytes. bytes)
          (record { ok = true; in_block = true; bytes = a_key ++ 0 ∷ []; passphrase = true })
          named_wlan).0
        ≡ copied 9 (a_key ++ 0 ∷ []))
cor_wlan_get_key-set_key_example =
    cor_wlan_get_key-set_key (λ bytes. bytes) a_key a_key named_wlan (omega arith) (omega arith)
      (omega arith) (omega arith) refl

-- The connections of the system.
abbrev device_item : Item
device_item = record {
  object = true;
  connection = some 1;
  props = some (record { lan = true; connected = true; guid = 7; name = 119 ∷ [] });
  config = true;
  shared = none;
  shares_private = true;
  shares_public = true;
}

abbrev wired_props : Props
wired_props = record { lan = true; connected = true; guid = 3; name = 101 ∷ [] }

abbrev wired_item : Item
wired_item = record device_item { connection = some 2; props = some wired_props }

abbrev odd_item : Item
odd_item = record device_item { object = false }

abbrev connections : Enumeration
connections = record {
  collection = true;
  enumerator = true;
  variants = true;
  items = odd_item ∷ wired_item ∷ device_item ∷ [];
}

abbrev is_wired : List ℕ → Bool
is_wired [] = false
is_wired (x ∷ xs) = x == 101

abbrev fresh_ics : Ics
fresh_ics = record {
  co_initialized = false;
  manager = true;
  private = none;
  public = none;
  taken = 1;
  given = 0;
  co_started = 1;
  co_ended = 0;
  sharing = λ c. none;
}

cor_ics_enable-Owing_example :
    Owing 0 (cor_ics_enable true idle 7 is_wired connections (true, true) (true, false) fresh_ics).1
unfolding Owing
cor_ics_enable-Owing_example =
    cor_ics_enable-Owing true idle 7 is_wired connections (true, true) (true, false) fresh_ics
      (omega arith)

cor_ics_enable-Outcome_example :
    Outcome 7 is_wired
      (odd_item ∷ wired_item ∷ device_item ∷ [])
      (cor_ics_enable true idle 7 is_wired connections (true, true) (true, false) fresh_ics)
cor_ics_enable-Outcome_example =
    cor_ics_enable-Outcome idle (λ e. absurd (ground (arith, e))) 7 is_wired connections
      (true, true) (true, false) fresh_ics

abbrev each : Props → Sign
each p = zero_sign

cor_ics_enum-shown_example :
    ((cor_ics_enum true 7 each connections fresh_ics).1 ≡ wired_props ∷ [])
    × ((cor_ics_enum true 7 each connections fresh_ics).0 ≡ true)
unfolding until_positive shown shown_item last_answer
cor_ics_enum-shown_example = cor_ics_enum-shown true 7 each connections fresh_ics

abbrev good_environment : Environment
good_environment = record {
  identifier = true;
  member = some true;
  key = false;
  value = none;
  library = true;
  co = s_ok;
  manager = true;
  installed = true;
  connections = connections;
  wlan = good_answers;
}

abbrev before : Globals
before = record {
  initialized = false;
  ics = record fresh_ics { manager = false; taken = 0 };
  wlan = fresh_wlan;
}

abbrev a_run : List Step
a_run =
    finish
    ∷ begin good_environment
    ∷ network (Session.set_ssid (some (99 ∷ [])) true)
    ∷ enable (some idle_status) is_wired connections (true, true) (true, false)
    ∷ enumerate_all each connections
    ∷ disable true true
    ∷ []

run_steps-Succeeds_example :
    (g' : Globals) × (run_steps a_run before ≡ some g')
    × (g'.initialized ≡ true
        → (g'.ics.manager ≡ true)
          × (is_some g'.wlan.status ≡ true)
          × (is_some g'.wlan.connection ≡ true))
run_steps-Succeeds_example = run_steps-Succeeds a_run before refl
