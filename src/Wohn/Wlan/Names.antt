-- ===== src/Wohn/Wlan/Names.antt =====
-- The name and the key of the hosted network in cpp/wohn/WohnCore.cpp. The conversions between wide and
-- narrow texts are the system's: their results are arguments, empty where they fail.
use model_lib.Common.{
  ℕ, suc, ◌+◌, ◌==◌, ◌≤◌, ◌<◌, ◌≡◌, Bool, true, false, leb, ltb, not, ◌||◌, ◌&&◌, if◌then◌else◌,
  Option, none, some, List, [], ◌∷◌, ◌++◌, length, take, drop, arith, take-append, length-append,
}
use model_lib.Wohn.Wlan.{Wlan, Ssid, dot11_ssid_max_length}

-- What a reader of a text does: it returns 0 before the program is initialized, or -1, or a number with
-- the text that it has copied; `fault` is the use of a NULL pointer.
pub data Text : Type 0 where
  not_ready : Text
  refused : Text
  copied : ℕ → List ℕ → Text
  fault : Text

abbrev pub ssid_bytes : Ssid → List ℕ
ssid_bytes s = take s.len s.bytes

-- `cor_wlan_get_ssid`; `widen` is `MultiByteToWideChar`, which is called twice, for the length and for
-- the text.
unfoldable pub read_ssid : (List ℕ → List ℕ) → Ssid → Text
read_ssid widen s =
    if ltb dot11_ssid_max_length s.len
    then refused
    else let n = if ltb 0 s.len then length (widen (ssid_bytes s)) else 0 in
      if ltb 0 n && leb (n + 1) dot11_ssid_max_length
      then copied (n + 1) (widen (ssid_bytes s))
      else copied n []

unfoldable pub cor_wlan_get_ssid : Bool → (List ℕ → List ℕ) → Wlan → Text
cor_wlan_get_ssid initialized widen w =
    if not initialized
    then not_ready
    else elim w.connection [ none ↦ fault | some s ↦ read_ssid widen s ]

-- `set new ssid`: a copy to the front of the buffer.
abbrev pub renamed : List ℕ → Ssid → Ssid
renamed bytes s = record { len = length bytes; bytes = bytes ++ drop (length bytes) s.bytes }

-- `cor_wlan_set_ssid`: `narrow` is what `WideCharToMultiByte` stores without its last NUL, if it stores
-- one byte at least; `accepted` is the answer of the system. `none` is the use of a NULL pointer.
unfoldable pub cor_wlan_set_ssid :
    Bool → (narrow : Option (List ℕ)) → (accepted : Bool) → Wlan → Option (Bool × Wlan)
cor_wlan_set_ssid initialized none accepted w = some (false, w)
cor_wlan_set_ssid initialized (some bytes) accepted w =
    if not initialized
    then some (false, w)
    else if ltb 1 (length bytes + 1)
    then elim w.connection [
      | none ↦ none
      | some s ↦
          let old = s in
          let named = record w { connection = some (renamed bytes s) } in
          if accepted
          then some (true, named)
          else some (false, record named { connection = some old })
    ]
    else some (false, w)

-- `WlanHostedNetworkQuerySecondaryKey`: success, the bytes of the key, which stand in a block if
-- there are any, and whether it is a passphrase.
pub record Key : Type 0 where
  pub ok : Bool
  pub in_block : Bool
  pub bytes : List ℕ
  pub passphrase : Bool

-- `cor_wlan_get_key`
unfoldable pub read_key : (List ℕ → List ℕ) → Key → Text
read_key widen k =
    if k.ok && ltb 0 (length k.bytes) && k.passphrase
    then (let n = length (widen k.bytes) in
        if leb 8 n && leb n 63 then copied n (widen k.bytes) else refused)
    else refused

unfoldable pub cor_wlan_get_key : Bool → (List ℕ → List ℕ) → Key → Wlan → Text × Wlan
cor_wlan_get_key initialized widen k w = if not initialized then (not_ready, w) else (
  read_key widen k,
  if k.in_block then record w { allocated = suc w.allocated; freed = suc w.freed } else w,
)

-- `cor_wlan_set_key`: the key that is handed to the system, if it comes to that, and the result; `none`
-- where the NUL is written behind `bBuffer`. `unknown` says that a character has no narrow form, and
-- `accepts` is the answer of the system.
abbrev pub key_buffer_size : ℕ
key_buffer_size = 64

unfoldable pub cor_wlan_set_key :
    Bool → (key narrow : List ℕ) → (unknown accepts : Bool) → Option (Option (List ℕ) × Bool)
cor_wlan_set_key initialized key narrow unknown accepts =
    if not initialized || ltb (length key) 8 || ltb 63 (length key)
    then some (none, false)
    else if ltb 0 (length narrow) && not unknown
    then (if ltb (length narrow) key_buffer_size
        then some (some (narrow ++ 0 ∷ []), accepts)
        else none)
    else some (none, false)

-- A name that the system refuses, and one that it accepts.
pub record Renames (widen : List ℕ → List ℕ) (bytes : List ℕ) (w : Wlan) (s : Ssid) : Type 0 where
  pub kept : cor_wlan_set_ssid true (some bytes) false w ≡ some (false, w)
  pub read_back :
      (w' : Wlan) × (cor_wlan_set_ssid true (some bytes) true w ≡ some (true, w'))
      × (cor_wlan_get_ssid true widen w' ≡ copied (length (widen bytes) + 1) (widen bytes))

read_ssid-renamed :
    (widen : List ℕ → List ℕ) (bytes : List ℕ) (s : Ssid)
    → 0 < length bytes
    → length bytes ≤ 31
    → 0 < length (widen bytes)
    → length (widen bytes) ≤ 31
    → read_ssid widen (renamed bytes s) ≡ copied (length (widen bytes) + 1) (widen bytes)
unfolding read_ssid
read_ssid-renamed widen bytes s pos short text text_short =
    let same : ssid_bytes (renamed bytes s) ≡ bytes =
      take-append bytes (drop (length bytes) s.bytes) in
    rw same (ground arith)

-- At a name that has a narrow form of 31 bytes at most: where the system refuses the name,
-- `cor_wlan_set_ssid` changes nothing; where it accepts it, the name is read back by `cor_wlan_get_ssid`,
-- if the conversion back makes 1 to 31 characters of it: these characters.
pub cor_wlan_set_ssid-Renames :
    (widen : List ℕ → List ℕ) (bytes : List ℕ) (w : Wlan) (s : Ssid)
    → w.connection ≡ some s
    → 0 < length bytes
    → length bytes ≤ 31
    → 0 < length (widen bytes)
    → length (widen bytes) ≤ 31
    → Renames widen bytes w s
unfolding cor_wlan_set_ssid cor_wlan_get_ssid
cor_wlan_set_ssid-Renames widen bytes w s e pos short text text_short = record {
  kept = ground arith;
  read_back = (
    record w { connection = some (renamed bytes s) },
    ground arith,
    read_ssid-renamed widen bytes s pos short text text_short,
  );
}

-- A key of 8 to 63 characters whose narrow form has fewer than 64 bytes, and one at least, is handed to the
-- system by `cor_wlan_set_key`; where the system keeps it and the conversion back undoes the first one,
-- `cor_wlan_get_key` reads it together with the NUL behind it, but refuses a key of 63 characters.
pub cor_wlan_get_key-set_key :
    (widen : List ℕ → List ℕ) (key narrow : List ℕ) (w : Wlan)
    → 8 ≤ length key
    → length key ≤ 63
    → 0 < length narrow
    → length narrow < key_buffer_size
    → widen (narrow ++ 0 ∷ []) ≡ key ++ 0 ∷ []
    → let handed = cor_wlan_set_key true key narrow false true in
      (handed ≡ some (some (narrow ++ 0 ∷ []), true))
      × ((cor_wlan_get_key true widen
            (record { ok = true; in_block = true; bytes = narrow ++ 0 ∷ []; passphrase = true })
            w).0
          ≡ (if length key == 63 then refused else copied (length key + 1) (key ++ 0 ∷ [])))
unfolding cor_wlan_set_key cor_wlan_get_key read_key
cor_wlan_get_key-set_key widen key narrow w low high pos small e = (
  ground arith,
  rw e (ground (arith, length-append {0} narrow (0 ∷ []), length-append {0} key (0 ∷ []))),
)
