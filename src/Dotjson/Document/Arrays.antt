-- ===== src/Dotjson/Document/Arrays.antt =====
-- The loop of `decode_array` at the text of an array.
use model_lib.Common.{
  ℕ, zero, suc, ◌<◌, ◌≡◌, refl, ap, ◌∙◌, ◌∷◌, ◌++◌, append_assoc, Bool, true, false, Option, none,
  some, arith, length, length-append,
}
use model_lib.Dotjson.Text.{Bytes, peek}
use model_lib.Dotjson.Text.Skip.{starts_token, ignore-start}
use model_lib.Dotjson.Node.{Node, Items, no_items, item, Array, array_node, Decoded, ok}
use model_lib.Dotjson.Number.Numeral.{stops}
use model_lib.Dotjson.Encode.Print.{print_node, print_items}
use model_lib.Dotjson.Decode.{
  ArrayVars, opening, value_next, value_read, go, array_round, array_over, array_body, array_finish,
  decode_loop, decode_array, array_grow, array_push,
}
use model_lib.Dotjson.Document.{Printable, PrintableItems, filled_array, rebuild, rebuild_items}
use model_lib.Dotjson.Document.Rounds.{loop_go, loop_over, Reads, after_node-print_node}
use model_lib.Dotjson.Document.Leads.{leads-starts, leads_ne, print_node-leads, print_node-length}

abbrev pub ReadsItems : (Bytes → Decoded) → Items → Type 0
ReadsItems decode no_items = Unit
ReadsItems decode (item v s) = Reads decode v × ReadsItems decode s

pub items_stop :
    (items : Items) (rest : Bytes) → stops (peek (print_items items false ++ 0x5d ∷ rest)) ≡ true
unfolding print_items stops
items_stop no_items rest = refl
items_stop (item v items) rest = refl

module _ (comments : Bool) (decode : Bytes → Decoded) where
  -- A round of each state, at a pointer behind white space.
  value_step :
      (n : Node) (rest : Bytes) (last : Option Node) (a : Option Array)
      → Printable n
      → Reads decode n
      → stops (peek rest) ≡ true
      → array_round comments decode value_next
          (record { p = print_node n ++ rest; state = value_next; node = last; array = a })
        ≡ go (record { p = rest; state = value_read; node = some (rebuild n); array = a })
  unfolding array_round
  value_step n rest last a h reads stop =
      let lead = print_node-leads n rest h in
      rw ((leads_ne _ lead).1, after_node-print_node _ _ _ decode n rest h reads stop) refl

  module _ (s : Bytes) where
    abbrev run : ℕ → ArrayVars → Decoded
    run f v = decode_loop array_over (array_body comments decode) (array_finish s) f v

    -- A value is read.
    value_run :
        (n : Node) (rest : Bytes) (last : Option Node) (a : Option Array) (f : ℕ)
        → Printable n
        → Reads decode n
        → stops (peek rest) ≡ true
        → run
            (suc f)
            (record { p = print_node n ++ rest; state = value_next; node = last; array = a })
          ≡ run f (record { p = rest; state = value_read; node = some (rebuild n); array = a })
    value_run n rest last a f h reads stop =
        let lead = print_node-leads n rest h in
        let start = ignore-start comments (print_node n ++ rest) (leads-starts _ lead) in
        loop_go _ _ _ f _ _ (ground (arith, leads_ne _ lead)) (
          ap
            (λ q.
              array_round comments decode value_next
                (record { p = q; state = value_next; node = last; array = a }))
            start
          ∙ value_step n rest last a h reads stop)

    -- A comma or the closing bracket behind a value.
    comma_run :
        (p : Bytes) (x : Node) (a : Option Array) (f : ℕ)
        → run (suc f) (record { p = 0x2c ∷ p; state = value_read; node = some x; array = a })
          ≡ run f (record { p = p; state = value_next; node = none; array = some (array_push a x) })
    unfolding array_round
    comma_run p x a f = loop_go _ _ _ f _ _ refl (
        ap
          (λ q.
            array_round comments decode value_read
              (record { p = q; state = value_read; node = some x; array = a }))
          (ignore-start comments (0x2c ∷ p) (unfold starts_token in refl)))

    bracket_run :
        (rest : Bytes) (x : Node) (a : Option Array) (f : ℕ)
        → run
            (suc (suc f))
            (record { p = 0x5d ∷ rest; state = value_read; node = some x; array = a })
          ≡ ok (array_node (array_push a x)) rest
    unfolding array_round
    bracket_run rest x a f =
        loop_go _ _ _ (suc f) _ _ refl (
          ap
            (λ q.
              array_round comments decode value_read
                (record { p = q; state = value_read; node = some x; array = a }))
            (ignore-start comments (0x5d ∷ rest) (unfold starts_token in refl)))
        ∙ loop_over _ _ _ f _ (ground arith)

    -- Behind an item: the others, and the closing bracket.
    items_run :
        (items : Items) (x : Node) (rest : Bytes) (a : Option Array) (f : ℕ)
        → PrintableItems items
        → ReadsItems decode items
        → length (print_items items false ++ 0x5d ∷ rest) < f
        → run f (record {
          p = print_items items false ++ 0x5d ∷ rest;
          state = value_read;
          node = some x;
          array = a;
        })
          ≡ ok (array_node (filled_array (rebuild_items items (some (array_push a x))))) rest
    unfolding print_items rebuild_items PrintableItems
    items_run items x rest a zero h reads less = absurd (omega arith)
    items_run items x rest a (suc zero) h reads less =
        absurd (omega (arith, length-append {0} (print_items items false) (0x5d ∷ rest)))
    items_run no_items x rest a (suc (suc f)) h reads less = bracket_run rest x a f
    items_run (item v items) x rest a (suc (suc f)) h reads less =
        let behind = print_items items false ++ 0x5d ∷ rest in
        let text = append_assoc (print_node v) (print_items items false) (0x5d ∷ rest) in
        let count = length-append {0} (print_node v) behind in
        let size = ap length text in
        comma_run _ x a (suc f)
        ∙ ap
            (λ q.
              run (suc f)
                (record { p = q; state = value_next; node = none; array = some (array_push a x) }))
            text
        ∙ value_run v behind none (some (array_push a x)) f h.0 reads.0 (items_stop items rest)
        ∙ items_run items (rebuild v) rest (some (array_push a x)) f h.1 reads.1
            (omega (arith, print_node-length v h.0))

    open_run :
        (p : Bytes) (f : ℕ)
        → run (suc f) (record { p = 0x5b ∷ p; state = opening; node = none; array = none })
          ≡ run f (record { p = p; state = value_next; node = none; array = none })
    unfolding array_round
    open_run p f = loop_go _ _ _ f _ _ refl (
        ap
          (λ q.
            array_round comments decode opening
              (record { p = q; state = opening; node = none; array = none }))
          (ignore-start comments (0x5b ∷ p) (unfold starts_token in refl)))

    empty_run :
        (rest : Bytes) (f : ℕ)
        → run
            (suc (suc f))
            (record { p = 0x5d ∷ rest; state = value_next; node = none; array = none })
          ≡ ok (array_node (array_grow none)) rest
    unfolding array_round
    empty_run rest f =
        loop_go _ _ _ (suc f) _ _ refl (
          ap
            (λ q.
              array_round comments decode value_next
                (record { p = q; state = value_next; node = none; array = none }))
            (ignore-start comments (0x5d ∷ rest) (unfold starts_token in refl)))
        ∙ loop_over _ _ _ f _ (ground arith)

  -- At the text of an array, where the decoder reads its items.
  pub decode_array-print_items :
      (items : Items) (rest : Bytes)
      → PrintableItems items
      → ReadsItems decode items
      → decode_array comments decode (0x5b ∷ (print_items items true ++ 0x5d ∷ rest))
        ≡ ok (array_node (filled_array (rebuild_items items none))) rest
  unfolding decode_array print_items rebuild_items PrintableItems
  decode_array-print_items no_items rest h reads =
      let s = 0x5b ∷ 0x5d ∷ rest in
      open_run s (0x5d ∷ rest) (length s) ∙ empty_run s rest (length rest)
  decode_array-print_items (item v items) rest h reads =
      let behind = print_items items false ++ 0x5d ∷ rest in
      let p = (print_node v ++ print_items items false) ++ 0x5d ∷ rest in
      let s = 0x5b ∷ p in
      let text = append_assoc (print_node v) (print_items items false) (0x5d ∷ rest) in
      let count = length-append {0} (print_node v) behind in
      let size = ap length text in
      open_run s p (length s)
      ∙ ap (λ q. run s (length s) (record { p = q; state = value_next; node = none; array = none }))
          text
      ∙ value_run s v behind none none (length p) h.0 reads.0 (items_stop items rest)
      ∙ items_run s items (rebuild v) rest none (length p) h.1 reads.1
          (omega (arith, print_node-length v h.0))
