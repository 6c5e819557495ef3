-- ===== src/Wohn/Notify.antt =====
-- The callbacks of cpp/wohn/WohnCore.cpp: `cor_register_notify`, `cor_unregister_notify` and
-- `cor_wlan_notification`.
pub mod Counted
pub mod Announced
use model_lib.Common.{
  ℕ, suc, ◌+◌, ◌-◌, ◌==◌, Bool, true, false, leb, if◌then◌else◌, Option, none, some, List, [], ◌∷◌,
  ◌++◌, not, ◌||◌,
}

-- `COR_NOTIFY_TYPE` as numbers.
abbrev pub notify_unavailable : ℕ
notify_unavailable = 0

abbrev pub notify_available : ℕ
notify_available = 1

abbrev pub notify_started : ℕ
notify_started = 2

abbrev pub notify_stoped : ℕ
notify_stoped = 3

abbrev pub notify_join : ℕ
notify_join = 4

abbrev pub notify_leave : ℕ
notify_leave = 5

abbrev pub notify_change : ℕ
notify_change = 6

abbrev pub notify_count : ℕ
notify_count = 7

-- `gNotifications` and `gNotifyCallBack`, with NULL as `none`.
pub record Callbacks : Type 0 where
  pub notifications : ℕ
  pub callback : ℕ → Option ℕ

abbrev pub set_callback : (ℕ → Option ℕ) → ℕ → Option ℕ → ℕ → Option ℕ
set_callback f i v j = if j == i then v else f j

abbrev pub is_set : Option ℕ → Bool
is_set none = false
is_set (some f) = true

-- `cor_register_notify`, where the program is initialized or not.
unfoldable pub cor_register_notify : Bool → ℕ → Option ℕ → Callbacks → Bool × Callbacks
cor_register_notify initialized i f s =
    if not initialized || leb notify_count i || is_set (s.callback i) then (false, s) else (
      true,
      record { notifications = suc s.notifications; callback = set_callback s.callback i f },
    )

-- `cor_unregister_notify`
unfoldable pub cor_unregister_notify : Bool → ℕ → Callbacks → Callbacks
cor_unregister_notify initialized i s =
    if not initialized || leb notify_count i || s.notifications == 0
    then s
    else if is_set (s.callback i)
    then record { notifications = s.notifications - 1; callback = set_callback s.callback i none }
    else s

-- The states of a hosted network, and of a peer; `change_code` is the notification code that the
-- source names among the peer's states.
pub data HnState : Type 0 where
  unavailable idle active : HnState

pub data PeerState : Type 0 where
  invalid authenticated change_code : PeerState

-- `PWLAN_NOTIFICATION_DATA` by its code; `whole` says that there is data of the right size.
pub data Notification : Type 0 where
  state_change : (whole : Bool) → (old new : HnState) → Notification
  peer_state_change : (whole : Bool) → (mac : ℕ) → PeerState → Notification
  other_change : Notification

-- The argument of a callback: `pContext`, a peer's address or its data.
pub data Argument : Type 0 where
  context : Argument
  peer_mac : ℕ → Argument
  peer_data : Argument

-- `CALL_S(gNotifyCallBack[i])(…)`, as the calls that are made.
abbrev pub Calls : Type 0
Calls = List (ℕ × Argument)

abbrev pub call : Callbacks → ℕ → Argument → Calls
call s i x = elim (s.callback i) [ none ↦ [] | some f ↦ (f, x) ∷ [] ]

-- `case wlan_hosted_network_state_change:`
unfoldable pub on_state_change : Callbacks → (old new : HnState) → Calls
on_state_change s old active = call s notify_started context
on_state_change s active idle = call s notify_stoped context
on_state_change s old idle = call s notify_available context
on_state_change s active unavailable =
    call s notify_stoped context ++ call s notify_unavailable context
on_state_change s idle unavailable = call s notify_unavailable context
on_state_change s unavailable unavailable = []

-- `case wlan_hosted_network_peer_state_change:`
unfoldable pub on_peer_change : Callbacks → (mac : ℕ) → PeerState → Calls
on_peer_change s mac authenticated = call s notify_join (peer_mac mac)
on_peer_change s mac invalid = call s notify_leave (peer_mac mac)
on_peer_change s mac change_code = call s notify_change peer_data

-- Between the entry to `gCriticalSection` and its end, so that one notification is one step.
unfoldable pub on_notification : Callbacks → Notification → Calls
on_notification s (state_change whole old new) = if whole then on_state_change s old new else []
on_notification s (peer_state_change whole mac p) = if whole then on_peer_change s mac p else []
on_notification s other_change = []

-- `cor_wlan_notification`; `hosted` says that the source is the hosted network, and NULL is `none`.
unfoldable pub cor_wlan_notification :
    (initialized : Bool) → (hosted : Bool) → Option Notification → Callbacks → Calls
cor_wlan_notification initialized hosted note s =
    if not initialized || s.notifications == 0
    then []
    else elim note [ none ↦ [] | some n ↦ (if hosted then on_notification s n else []) ]
