-- ===== src/Dotjson/Decode.antt =====
-- The recursive decoders of c/dotjson/dotjson.c: `array_grow`, `decode_array`, `decode_object`,
-- `decode_node` and `dotjson_decode`.
pub mod Loop
pub mod Settled
pub mod ArrayLoop
pub mod ObjectLoop
pub mod Total
use model_lib.Common.{
  ℕ, zero, suc, ◌+◌, ◌*◌, ◌%◌, ◌^◌, List, [], ◌∷◌, ◌++◌, Bool, true, false, ◌||◌, ◌&&◌, ◌==◌, leb,
  ltb, if◌then◌else◌, Option, none, some, length, replicate, drop,
}
use model_lib.Dotjson.Text.{Bytes, peek, next, quote, ignore}
use model_lib.Dotjson.Escape.{Unescaped, closed, bad, unescape_str}
use model_lib.Dotjson.Escape
use model_lib.Dotjson.Number.{is_digit, decode_number}
use model_lib.Dotjson.Quoted.{decode_string}
use model_lib.Dotjson.Table.{hash, add_entry, object_grow}
use model_lib.Dotjson.Node.{
  Node, object, array, null, false_node, true_node, Entry, Object, Array, object_node, array_node,
  Decoded, ok, unset, fault, out_of_fuel,
}

-- The capacity after `array_grow`.
unfoldable pub array_grow : Option Array → Array
array_grow none = record { cap = 1; items = [] }
array_grow (some a) =
    if ltb (length a.items) a.cap
    then a
    else record a { cap = (if leb 256 a.cap then a.cap + 256 else a.cap * 2) % 2 ^ 64 }

-- `if (!array || array->len == array->cap) { … } array->items[array->len++] = node;`
unfoldable pub array_push : Option Array → Node → Array
array_push none n = let a = array_grow none in record a { items = a.items ++ n ∷ [] }
array_push (some a) n =
    let b = if length a.items == a.cap then array_grow (some a) else a in
    record b { items = b.items ++ n ∷ [] }

-- The states 0 to 3 of `decode_array`.
pub data ArrayState : Type 0 where
  opening value_next value_read complete : ArrayState

-- The variables of its loop; `none` is NULL.
pub record ArrayVars : Type 0 where
  pub p : Bytes
  pub state : ArrayState
  pub node : Option Node
  pub array : Option Array

-- A round of a loop ends at its foot, or at a `break`, or in a call that has no result.
pub data Step {ℓ} (A : Type ℓ) : Type ℓ where
  go : A → Step A
  leave : A → Step A
  halt : Decoded → Step A

-- What a round does with a call `n = decode_node(p, &node)`: if the pointer has not moved, it breaks.
unfoldable pub after_node {ℓ} :
    {A : Type ℓ} → A → (Bytes → A) → (Node → Bytes → A) → Bytes → Decoded → Step A
after_node stay without with_node p (ok n rest) =
    if length rest == length p then leave stay else go (with_node n rest)
after_node stay without with_node p (unset rest) =
    if length rest == length p then leave stay else go (without rest)
after_node stay without with_node p fault = halt fault
after_node stay without with_node p out_of_fuel = halt out_of_fuel

-- The states 0 to 5 of `decode_object`.
pub data ObjectState : Type 0 where
  opening key_next colon_next value_next value_read complete : ObjectState

-- The entry under construction, with its value NULL or set.
pub record Pending : Type 0 where
  pub keyhash : ℕ
  pub key : Bytes
  pub val : Option Node

pub record ObjectVars : Type 0 where
  pub p : Bytes
  pub state : ObjectState
  pub entry : Option Pending
  pub object : Option (Object Node)

-- The pending entry once its value is there.
abbrev pub with_value : ℕ → Bytes → Option Node → Option (Entry Node)
with_value keyhash key none = none
with_value keyhash key (some n) = some (record { keyhash = keyhash; key = key; val = n })

abbrev pub ready_entry : Option Pending → Option (Entry Node)
ready_entry none = none
ready_entry (some e) = with_value e.keyhash e.key e.val

-- The loops `while (*p && state != …)`, for any round. When a loop is over, `finish` makes the
-- result of its variables.
module _ {ℓ} {A : Type ℓ} (over : A → Bool) (round : A → Step A) (finish : A → Decoded) where
  unfoldable pub decode_loop : ℕ → A → Decoded
  decode_loop zero v = out_of_fuel
  decode_loop (suc f) v = elim (over v) [
    | true ↦ finish v
    | false ↦ elim (round v) [ go w ↦ decode_loop f w | leave w ↦ finish w | halt d ↦ d ]
  ]

-- The tests of the loops, and what stands behind them; `s` is where the decoder was called.
abbrev pub array_over : ArrayVars → Bool
array_over v = if peek v.p == 0 then true else elim v.state [ complete ↦ true | _ ↦ false ]

abbrev pub array_finish : Bytes → ArrayVars → Decoded
array_finish s v = elim v.state [
  | complete ↦ elim v.array [ none ↦ fault | some a ↦ ok (array_node a) v.p ]
  | _ ↦ unset s
]

abbrev pub object_over : ObjectVars → Bool
object_over v = if peek v.p == 0 then true else elim v.state [ complete ↦ true | _ ↦ false ]

abbrev pub object_finish : Bytes → ObjectVars → Decoded
object_finish s v = elim v.state [
  | complete ↦ elim v.object [ none ↦ fault | some o ↦ ok (object_node o) v.p ]
  | _ ↦ unset s
]

module _ (comments : Bool) (decode : Bytes → Decoded) where
  -- One round in each state; `v.p` stands behind `IGNORE_CHARS`.
  unfoldable pub array_round : ArrayState → ArrayVars → Step ArrayVars
  array_round opening v =
      if peek v.p == 0x5b then go (record v { p = next v.p; state = value_next }) else leave v
  array_round value_next v =
      if peek v.p == 0x5d
      then elim v.array [
        | none ↦ go (record v { p = next v.p; state = complete; array = some (array_grow none) })
        | some a ↦ leave v
      ]
      else after_node v (λ rest. record v { p = rest; state = value_read })
          (λ n rest. record v { p = rest; state = value_read; node = some n }) v.p (decode v.p)
  array_round value_read v =
      if peek v.p == 0x2c || peek v.p == 0x5d
      then elim v.node [
        | none ↦ halt fault
        | some n ↦ go (record {
          p = next v.p;
          state = if peek v.p == 0x2c then value_next else complete;
          node = none;
          array = some (array_push v.array n);
        })
      ]
      else leave v
  array_round complete v = leave v

  -- The key behind `"`, measured and then stored.
  unfoldable pub key_stored : ObjectVars → Unescaped → Step ObjectVars
  key_stored v (closed n buf rest) = go (record v {
    p = rest;
    state = colon_next;
    entry = some (record { keyhash = hash buf; key = buf; val = none });
  })
  key_stored v bad = halt fault
  key_stored v Escape.out_of_fuel = halt out_of_fuel

  unfoldable pub key_measured : ObjectVars → Unescaped → Step ObjectVars
  key_measured v (closed len buf rest) = key_stored v (unescape_str v.p len (replicate len 0))
  key_measured v bad = leave v
  key_measured v Escape.out_of_fuel = halt out_of_fuel

  unfoldable pub object_round : ObjectState → ObjectVars → Step ObjectVars
  object_round opening v =
      if peek v.p == 0x7b then go (record v { p = next v.p; state = key_next }) else leave v
  object_round key_next v =
      if peek v.p == quote
      then key_measured v (unescape_str v.p 0 [])
      else if peek v.p == 0x7d
      then elim v.object [
        | none ↦ go (record v { p = next v.p; state = complete; object = some (object_grow none) })
        | some o ↦ leave v
      ]
      else leave v
  object_round colon_next v =
      if peek v.p == 0x3a then go (record v { p = next v.p; state = value_next }) else leave v
  object_round value_next v = elim v.entry [
    | none ↦ halt fault
    | some e ↦
        after_node v (λ rest. record v { p = rest; state = value_read })
          (λ n rest. record v {
            p = rest;
            state = value_read;
            entry = some (record e { val = some n });
          })
          v.p (decode v.p)
  ]
  object_round value_read v =
      if peek v.p == 0x2c || peek v.p == 0x7d
      then elim (ready_entry v.entry) [
        | none ↦ halt fault
        | some e ↦ go (record {
          p = next v.p;
          state = if peek v.p == 0x2c then key_next else complete;
          entry = none;
          object = some (add_entry v.object e);
        })
      ]
      else leave v
  object_round complete v = leave v

  -- `decode_array(s, pnode)`
  abbrev pub array_body : ArrayVars → Step ArrayVars
  array_body v = array_round v.state (record v { p = ignore comments v.p })

  unfoldable pub decode_array : Bytes → Decoded
  decode_array s =
      decode_loop array_over array_body (array_finish s) (suc (length s))
        (record { p = s; state = opening; node = none; array = none })

  -- `decode_object(s, pnode)`
  abbrev pub object_body : ObjectVars → Step ObjectVars
  object_body v = object_round v.state (record v { p = ignore comments v.p })

  unfoldable pub decode_object : Bytes → Decoded
  decode_object s =
      decode_loop object_over object_body (object_finish s) (suc (length s))
        (record { p = s; state = opening; entry = none; object = none })

-- `p += …; return p - s`: where the called decoder returns 0 the pointer stays.
abbrev pub here_if_unset : Bytes → Decoded → Decoded
here_if_unset p (unset rest) = unset p
here_if_unset p d = d

-- `p[0] == c && p[1] == d && …`
abbrev word_at : Bytes → List ℕ → Bool
word_at p [] = true
word_at p (c ∷ cs) = if peek p == c then word_at (next p) cs else false

-- `decode_node` behind its `IGNORE_CHARS`: the value that the first character announces.
unfoldable pub node_at : Bool → (Bytes → Decoded) → Bytes → Decoded
node_at comments decode p =
    let c = peek p in
    if c == 0x7b
    then here_if_unset p (decode_object comments decode p)
    else if c == 0x5b
    then here_if_unset p (decode_array comments decode p)
    else if c == quote
    then here_if_unset p (decode_string comments p)
    else if c == 0x6e
    then (if word_at (next p) (0x75 ∷ 0x6c ∷ 0x6c ∷ []) then ok null (drop 4 p) else unset p)
    else if c == 0x66
    then (if word_at (next p) (0x61 ∷ 0x6c ∷ 0x73 ∷ 0x65 ∷ [])
        then ok false_node (drop 5 p)
        else unset p)
    else if c == 0x74
    then (if word_at (next p) (0x72 ∷ 0x75 ∷ 0x65 ∷ []) then ok true_node (drop 4 p) else unset p)
    else if is_digit c || c == 0x2b || c == 0x2d
    then here_if_unset p (decode_number comments p)
    else unset p

-- Each level of nesting costs a unit of fuel.
unfoldable pub decode_node : Bool → ℕ → Bytes → Decoded
decode_node comments zero s = out_of_fuel
decode_node comments (suc f) s = node_at comments (decode_node comments f) (ignore comments s)

-- `dotjson_decode` on non-NULL pointers. It starts with `decode_object`, and keeps the node only if
-- it is an object or an array.
abbrev pub is_container : Node → Bool
is_container (object cap len slots) = true
is_container (array cap items) = true
is_container n = false

unfoldable pub top_result : Bytes → Decoded → Decoded
top_result json (ok n rest) =
    if length rest == length json
    then unset json
    else if is_container n
    then ok n rest
    else unset json
top_result json (unset rest) = unset json
top_result json fault = fault
top_result json out_of_fuel = out_of_fuel

unfoldable pub dotjson_decode : Bool → Bytes → Decoded
dotjson_decode comments json =
    top_result json (decode_object comments (decode_node comments (length json)) json)
