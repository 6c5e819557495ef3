-- ===== src/Wohn/Wlan.antt =====
-- The hosted network of cpp/wohn/WohnCore.cpp: the functions `cor_wlan_…`, with the resources of the
-- system that they hold.
pub mod Names
pub mod Session
use model_lib.Common.{
  ℕ, suc, ◌+◌, ◌-◌, ◌==◌, Bool, true, false, leb, ltb, if◌then◌else◌, Option, none, some, List, [],
  ◌∷◌, ◌++◌, not, ◌||◌, ◌&&◌, length, take, drop,
}
use model_lib.Wohn.Notify.{Callbacks, notify_count, HnState, unavailable, idle, active, is_set}

-- `DOT11_SSID`: a length, and a buffer of 32 bytes.
pub record Ssid : Type 0 where
  pub len : ℕ
  pub bytes : List ℕ

abbrev pub dot11_ssid_max_length : ℕ
dot11_ssid_max_length = 32

-- What `WLAN_HOSTED_NETWORK_STATUS` says of the state and the device.
pub record Status : Type 0 where
  pub state : HnState
  pub device : ℕ

-- The globals, `pHNEnabled` and `pHNSecSettings` as whether they are set; then how many handles,
-- blocks of the wireless service and critical sections have been acquired and given back so far.
pub record Wlan : Type 0 where
  pub callbacks : Callbacks
  pub client : Bool
  pub enabled : Bool
  pub connection : Option Ssid
  pub security : Bool
  pub status : Option Status
  pub opened : ℕ
  pub closed : ℕ
  pub allocated : ℕ
  pub freed : ℕ
  pub created : ℕ
  pub deleted : ℕ

-- The answer of a query: success, the pointer it sets, and whether the size is right.
pub record Query (A : Type 0) : Type 0 where
  pub ok : Bool
  pub value : Option A
  pub fits : Bool

pub record Answers : Type 0 where
  pub opens_handle : Bool
  pub init_settings : Bool
  pub enabled : Query Bool
  pub status : Query Status
  pub connection : Query Ssid
  pub security : Query Bool
  pub register : Bool

abbrev pub is_some : {A : Type 0} → Option A → Bool
is_some none = false
is_some (some x) = true

abbrev pub one_if_some : {A : Type 0} → Option A → ℕ
one_if_some none = 0
one_if_some (some x) = 1

-- `if(bResult == TRUE) { … }`
abbrev pub and_then : Bool × Wlan → (Wlan → Bool × Wlan) → Bool × Wlan
and_then (true, w) f = f w
and_then (false, w) f = (false, w)

-- The queries of `cor_wlan_initialize`.
unfoldable pub query_enabled : Query Bool → Wlan → Bool × Wlan
query_enabled q w = (
  q.ok && is_some q.value && q.fits,
  record w { enabled = is_some q.value; allocated = w.allocated + one_if_some q.value },
)

unfoldable pub query_status : Query Status → Wlan → Bool × Wlan
query_status q w = (
  is_some q.value && q.ok,
  record w { status = q.value; allocated = w.allocated + one_if_some q.value },
)

unfoldable pub query_connection : Query Ssid → Wlan → Bool × Wlan
query_connection q w = (
  is_some q.value && q.fits && q.ok,
  record w { connection = q.value; allocated = w.allocated + one_if_some q.value },
)

unfoldable pub query_security : Query Bool → Wlan → Bool × Wlan
query_security q w = (
  is_some q.value && q.fits && q.ok,
  record w { security = is_some q.value; allocated = w.allocated + one_if_some q.value },
)

-- The variables that it sets first.
abbrev pub cleared : Wlan → Wlan
cleared w = record w {
  callbacks = record { notifications = 0; callback = w.callbacks.callback };
  client = false;
  enabled = false;
  connection = none;
  security = false;
  status = none;
  created = suc w.created;
}

-- `cor_wlan_deinitialize`, in the initialized program or not. `gNotifyCallBack` is cleared only if a
-- callback is counted.
abbrev pub no_callback : Callbacks → Callbacks
no_callback s = if s.notifications == 0 then s else record {
  notifications = 0;
  callback = λ i. if ltb i notify_count then none else s.callback i;
}

abbrev pub count_if : Bool → ℕ
count_if true = 1
count_if false = 0

unfoldable pub cor_wlan_deinitialize : Bool → Wlan → Wlan
cor_wlan_deinitialize initialized w = if not initialized then w else record w {
  callbacks = no_callback w.callbacks;
  enabled = false;
  connection = none;
  security = false;
  status = none;
  freed =
      w.freed
      + count_if w.enabled
      + one_if_some w.connection
      + count_if w.security
      + one_if_some w.status;
  client = false;
  closed = w.closed + count_if w.client;
  deleted = suc w.deleted;
}

-- `cor_wlan_initialize`. Where it goes on, `gInitialized` is false, which its own call of
-- `cor_wlan_deinitialize` reads.
unfoldable pub cor_wlan_initialize : Bool → Answers → Wlan → Bool × Wlan
cor_wlan_initialize initialized a w =
    if initialized
    then (false, w)
    else if a.opens_handle
    then (let start = record (cleared w) { client = true; opened = suc w.opened } in
        let (result, w') =
          and_then
            (and_then
              (and_then
                (and_then (and_then (a.init_settings, start) (query_enabled a.enabled))
                  (query_status a.status))
                (query_connection a.connection))
              (query_security a.security))
            (λ v. (a.register, v)) in
        if result then (true, w') else (false, cor_wlan_deinitialize initialized w'))
    else (false, cleared w)

-- `cor_wlan_get_state`: the answer is the new status block, or an error. The old block is not freed.
unfoldable pub cor_wlan_get_state : Bool → Option Status → Wlan → HnState × Wlan
cor_wlan_get_state initialized none w = (unavailable, w)
cor_wlan_get_state initialized (some s) w =
    if not initialized
    then (unavailable, w)
    else (s.state, record w { status = some s; allocated = suc w.allocated })

abbrev pub is_active : HnState → Bool
is_active active = true
is_active s = false

unfoldable pub cor_wlan_is_started : Bool → Option Status → Wlan → Bool × Wlan
cor_wlan_is_started initialized q w =
    if not initialized
    then (false, w)
    else let (s, w') = cor_wlan_get_state initialized q w in (is_active s, w')

-- `cor_wlan_start` and `cor_wlan_stop`, with what the calls that start and stop answer.
unfoldable pub cor_wlan_start : Bool → Bool → Option Status → Wlan → Bool × Wlan
cor_wlan_start initialized started q w =
    if not initialized
    then (false, w)
    else if started
    then cor_wlan_is_started initialized q w
    else (false, w)

unfoldable pub cor_wlan_stop :
    Bool → (force stopped forced : Bool) → Option Status → Wlan → Bool × Wlan
cor_wlan_stop initialized force stopped forced q w =
    if not initialized
    then (false, w)
    else if stopped || (force && forced)
    then (let (started, w') = cor_wlan_is_started initialized q w in (not started, w'))
    else (false, w)
