-- ===== src/Dotjson/Document/Objects.antt =====
-- The loop of `decode_object` at the text of an object.
use model_lib.Common.{
  ℕ, suc, ◌+◌, ◌-◌, ◌<◌, ◌≡◌, refl, ap, ◌∙◌, [], ◌∷◌, ◌++◌, append_assoc, Bool, true, false, Option,
  none, some, arith, length, length-append,
}
use model_lib.Dotjson.Text.{Bytes, peek, quote}
use model_lib.Dotjson.Text.Skip.{starts_token, ignore-start}
use model_lib.Dotjson.Node.{Node, Slots, no_slots, free, used, Object, object_node, Decoded, ok}
use model_lib.Dotjson.Number.Numeral.{stops}
use model_lib.Dotjson.Table.{hash, add_entry}
use model_lib.Dotjson.Encode.Print.{print_node, print_slots, key_text}
use model_lib.Dotjson.Decode.{
  ObjectVars, ObjectState, Pending, opening, key_next, colon_next, value_next, value_read, go,
  object_round, key_measured, key_stored, object_over, object_body, object_finish, decode_loop,
  decode_object,
}
use model_lib.Dotjson.Document.{
  PlainKey, Printable, PrintableSlots, filled_object, rebuild, rebuild_slots,
}
use model_lib.Dotjson.Document.Keys.{measured, filled}
use model_lib.Dotjson.Document.Rounds.{loop_go, loop_over, Reads, after_node-print_node}
use model_lib.Dotjson.Document.Leads.{leads-starts, leads_ne, print_node-leads, print_node-length}

abbrev pub ReadsSlots : (Bytes → Decoded) → Slots → Type 0
ReadsSlots decode no_slots = Unit
ReadsSlots decode (free s) = ReadsSlots decode s
ReadsSlots decode (used h key v s) = Reads decode v × ReadsSlots decode s

slots_stop :
    (slots : Slots) (rest : Bytes) → stops (peek (print_slots slots false ++ 0x7d ∷ rest)) ≡ true
unfolding print_slots stops
slots_stop no_slots rest = refl
slots_stop (free s) rest = slots_stop s rest
slots_stop (used h key v s) rest = refl

key_text-append : (key q : Bytes) → key_text key ++ q ≡ quote ∷ (key ++ quote ∷ 0x3a ∷ q)
key_text-append key q =
    ap (λ x. quote ∷ x)
      (append_assoc (key ++ quote ∷ []) (0x3a ∷ []) q ∙ append_assoc key (quote ∷ []) (0x3a ∷ q))

module _ (comments : Bool) (decode : Bytes → Decoded) where
  abbrev vars : Bytes → ObjectState → Option Pending → Option (Object Node) → ObjectVars
  vars p state entry o = record { p = p; state = state; entry = entry; object = o }

  abbrev pending : Bytes → Option Node → Option Pending
  pending key n = some (record { keyhash = hash key; key = key; val = n })

  key_step :
      (key rest : Bytes) (e : Option Pending) (o : Option (Object Node))
      → PlainKey key
      → object_round comments decode key_next (vars (quote ∷ (key ++ quote ∷ rest)) key_next e o)
        ≡ go (vars rest colon_next (pending key none) o)
  unfolding object_round key_measured key_stored
  key_step key rest e o h =
      let v = vars (quote ∷ (key ++ quote ∷ rest)) key_next e o in
      ap (key_measured comments decode v) (measured key rest h)
      ∙ ap (key_stored comments decode v) (filled key rest h)

  value_step :
      (key : Bytes) (n : Node) (rest : Bytes) (o : Option (Object Node))
      → Printable n
      → Reads decode n
      → stops (peek rest) ≡ true
      → object_round comments decode value_next
          (vars (print_node n ++ rest) value_next (pending key none) o)
        ≡ go (vars rest value_read (pending key (some (rebuild n))) o)
  unfolding object_round
  value_step key n rest o h reads stop = after_node-print_node _ _ _ decode n rest h reads stop

  module _ (s : Bytes) where
    abbrev run : ℕ → ObjectVars → Decoded
    run f v = decode_loop object_over (object_body comments decode) (object_finish s) f v

    -- A round at a byte that is no space.
    round_run :
        (p : Bytes) (state : ObjectState) (e : Option Pending) (o : Option (Object Node))
        (w : ObjectVars) (f : ℕ)
        → object_over (vars p state e o) ≡ false
        → starts_token (peek p) ≡ true
        → object_round comments decode state (vars p state e o) ≡ go w
        → run (suc f) (vars p state e o) ≡ run f w
    round_run p state e o w f over start step = loop_go _ _ _ f _ _ over (
        ap (λ q. object_round comments decode state (vars q state e o))
          (ignore-start comments p start)
        ∙ step)

    -- An entry is read.
    entry_run :
        (key : Bytes) (n : Node) (rest : Bytes) (o : Option (Object Node)) (f : ℕ)
        → PlainKey key
        → Printable n
        → Reads decode n
        → stops (peek rest) ≡ true
        → run
            (suc (suc (suc f)))
            (vars (quote ∷ (key ++ quote ∷ 0x3a ∷ (print_node n ++ rest))) key_next none o)
          ≡ run f (vars rest value_read (pending key (some (rebuild n))) o)
    unfolding starts_token object_round
    entry_run key n rest o f k h reads stop =
        let lead = print_node-leads n rest h in
        round_run _ key_next none o _ (suc (suc f)) refl refl (key_step key _ none o k)
        ∙ round_run _ colon_next (pending key none) o _ (suc f) refl refl refl
        ∙ round_run _ value_next (pending key none) o _ f (ground (arith, leads_ne _ lead))
            (leads-starts _ lead) (value_step key n rest o h reads stop)

    abbrev added : Bytes → Node → Option (Object Node) → Object Node
    added key x o = add_entry o (record { keyhash = hash key; key = key; val = x })

    comma_run :
        (p : Bytes) (key : Bytes) (x : Node) (o : Option (Object Node)) (f : ℕ)
        → run (suc f) (vars (0x2c ∷ p) value_read (pending key (some x)) o)
          ≡ run f (vars p key_next none (some (added key x o)))
    unfolding object_round starts_token
    comma_run p key x o f = round_run _ value_read _ o _ f refl refl refl

    brace_run :
        (rest : Bytes) (key : Bytes) (x : Node) (o : Option (Object Node)) (f : ℕ)
        → run (suc (suc f)) (vars (0x7d ∷ rest) value_read (pending key (some x)) o)
          ≡ ok (object_node (added key x o)) rest
    unfolding object_round starts_token
    brace_run rest key x o f =
        round_run _ value_read _ o _ (suc f) refl refl refl ∙ loop_over _ _ _ f _ (ground arith)

    -- The key, the value and what follows them.
    entry_text :
        (key : Bytes) (n : Node) (slots : Slots) (rest : Bytes)
        → (key_text key ++ (print_node n ++ print_slots slots false)) ++ 0x7d ∷ rest
          ≡ quote
            ∷ (key ++ quote ∷ 0x3a ∷ (print_node n ++ (print_slots slots false ++ 0x7d ∷ rest)))
    entry_text key n slots rest =
        append_assoc (key_text key) (print_node n ++ print_slots slots false) (0x7d ∷ rest)
        ∙ ap (λ q. key_text key ++ q)
            (append_assoc (print_node n) (print_slots slots false) (0x7d ∷ rest))
        ∙ key_text-append key _

    entry_size :
        (key : Bytes) (n : Node) (behind : Bytes)
        → Printable n
        → 3 + length behind < length (quote ∷ (key ++ quote ∷ 0x3a ∷ (print_node n ++ behind)))
    entry_size key n behind h = omega (
      arith,
      length-append {0} key (quote ∷ 0x3a ∷ (print_node n ++ behind)),
      length-append {0} (print_node n) behind,
      print_node-length n h,
    )

    -- Behind an entry: the others, and the closing brace.
    slots_run :
        (slots : Slots) (key : Bytes) (x : Node) (rest : Bytes) (o : Option (Object Node)) (f : ℕ)
        → PrintableSlots slots
        → ReadsSlots decode slots
        → length (print_slots slots false ++ 0x7d ∷ rest) < f
        → run f (vars (print_slots slots false ++ 0x7d ∷ rest) value_read (pending key (some x)) o)
          ≡ ok (object_node (filled_object (rebuild_slots slots (some (added key x o))))) rest
    unfolding print_slots rebuild_slots PrintableSlots
    slots_run no_slots key x rest o f h reads less =
        let g = f - 2 in let e : f ≡ suc (suc g) = omega arith in rw e (brace_run rest key x o g)
    slots_run (free slots) key x rest o f h reads less = slots_run slots key x rest o f h reads less
    slots_run (used k' key' v slots) key x rest o f h reads less =
        let behind = print_slots slots false ++ 0x7d ∷ rest in
        let text = entry_text key' v slots rest in
        let size = entry_size key' v behind h.1 in
        let same = ap length text in
        let g = f - 4 in
        let e : f ≡ suc (suc (suc (suc g))) = omega arith in
        let o' = some (added key x o) in
        rw e (
          comma_run _ key x o (suc (suc (suc g)))
          ∙ ap (λ q. run (suc (suc (suc g))) (vars q key_next none o')) text
          ∙ entry_run key' v behind o' g h.0 h.1 reads.0 (slots_stop slots rest)
          ∙ slots_run slots key' (rebuild v) rest o' g h.2 reads.1 (omega arith))

    -- Behind the opening brace.
    first_run :
        (slots : Slots) (rest : Bytes) (f : ℕ)
        → PrintableSlots slots
        → ReadsSlots decode slots
        → length (print_slots slots true ++ 0x7d ∷ rest) < f
        → run f (vars (print_slots slots true ++ 0x7d ∷ rest) key_next none none)
          ≡ ok (object_node (filled_object (rebuild_slots slots none))) rest
    unfolding print_slots rebuild_slots PrintableSlots object_round starts_token
    first_run no_slots rest f h reads less =
        let g = f - 2 in
        let e : f ≡ suc (suc g) = omega arith in
        rw e (
          round_run _ key_next none none _ (suc g) refl refl refl
          ∙ loop_over _ _ _ g _ (ground arith))
    first_run (free slots) rest f h reads less = first_run slots rest f h reads less
    first_run (used k key v slots) rest f h reads less =
        let behind = print_slots slots false ++ 0x7d ∷ rest in
        let text = entry_text key v slots rest in
        let size = entry_size key v behind h.1 in
        let same = ap length text in
        let g = f - 3 in
        let e : f ≡ suc (suc (suc g)) = omega arith in
        rw e (
          ap (λ q. run (suc (suc (suc g))) (vars q key_next none none)) text
          ∙ entry_run key v behind none g h.0 h.1 reads.0 (slots_stop slots rest)
          ∙ slots_run slots key (rebuild v) rest none g h.2 reads.1 (omega arith))

  -- At the text of an object, where the decoder reads its values.
  pub decode_object-print_slots :
      (slots : Slots) (rest : Bytes)
      → PrintableSlots slots
      → ReadsSlots decode slots
      → decode_object comments decode (0x7b ∷ (print_slots slots true ++ 0x7d ∷ rest))
        ≡ ok (object_node (filled_object (rebuild_slots slots none))) rest
  unfolding decode_object object_round starts_token
  decode_object-print_slots slots rest h reads =
      let p = print_slots slots true ++ 0x7d ∷ rest in
      let s = 0x7b ∷ p in
      round_run s s opening none none _ (length s) refl refl refl
      ∙ first_run s slots rest (length s) h reads (omega arith)
