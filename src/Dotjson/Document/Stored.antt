-- ===== src/Dotjson/Document/Stored.antt =====
-- What `dotjson_decode` makes of the buffer that `dotjson_encode` has filled.
use model_lib.Common.{
  ℕ, zero, suc, ◌+◌, ◌<◌, ◌≡◌, refl, sym, ap, ◌∙◌, [], ◌∷◌, append-nil, Bool, ◌==◌, if◌then◌else◌,
  arith, length, get_or, ne→==-false,
}
use model_lib.Common.Memory.{Memory}
use model_lib.Dotjson.Text.{Bytes}
use model_lib.Dotjson.Node.{Node, Slots, object, ok}
use model_lib.Dotjson.Quoted.RoundTrip.{NoNul}
use model_lib.Dotjson.Encode.{dotjson_encode}
use model_lib.Dotjson.Encode.Print.{print_node}
use model_lib.Dotjson.Encode.Written.{dotjson_encode-Encoded}
use model_lib.Dotjson.Decode.{dotjson_decode}
use model_lib.Dotjson.Document.{Printable, rebuild}
use model_lib.Dotjson.Document.Same.{Countable, Same}
use model_lib.Dotjson.Document.Rebuilt.{rebuild-Same}
use model_lib.Dotjson.Document.Terminated.{print_node-NoNul}
use model_lib.Dotjson.Document.RoundTrip.{dotjson_decode-print_node}
use model_lib.Dotjson.Document.Leads.{print_node-length}

-- The C string at an address, of `rounds` bytes at most.
unfoldable pub c_string : Memory → ℕ → (rounds : ℕ) → Bytes
c_string mem a zero = []
c_string mem a (suc f) =
    let rest = c_string mem (a + 1) f in if mem a == 0 then [] else mem a ∷ rest

c_string_of :
    (mem : Memory) (t : Bytes) (a f : ℕ)
    → length t < f
    → ((i : ℕ) → i < length t → mem (a + i) ≡ get_or t i 0)
    → mem (a + length t) ≡ 0
    → NoNul t
    → c_string mem a f ≡ t
unfolding c_string
c_string_of mem t a zero less at end h = absurd (omega arith)
c_string_of mem [] a (suc f) less at end h =
    let here : mem a ≡ 0 = ap mem (omega arith) ∙ end in rw here refl
c_string_of mem (c ∷ t) a (suc f) less at end h =
    let here : mem a ≡ c = ap mem (omega arith) ∙ at 0 (omega arith) in
    rw (here, ne→==-false c 0 h.0)
      (ap (λ p. c ∷ p)
        (c_string_of mem t (a + 1) f (omega arith)
          (λ i lt. ap mem (omega arith) ∙ at (suc i) (omega arith)) (ap mem (omega arith) ∙ end)
          h.1))

-- A printable object, in which no object has 2 ^ 31 entries or more, that `dotjson_encode` writes to a buffer with
-- room for its text and a NUL is read back by `dotjson_decode` from that buffer, and nothing of the text
-- is left. The node that it makes has the same value: a well-formed table in which every entry stands
-- under the hash of its key, and no other, and so on inside, with the items of arrays in their order.
pub dotjson_decode-dotjson_encode :
    (comments : Bool) (cap len : ℕ) (slots : Slots) (base room : ℕ) (mem : Memory)
    → Printable (object cap len slots)
    → Countable (object cap len slots)
    → length (print_node (object cap len slots)) < room
    → (m : Node) × (dotjson_decode comments
          (c_string (dotjson_encode (object cap len slots) base room mem).1 base room)
        ≡ ok m [])
      × Same (object cap len slots) m
dotjson_decode-dotjson_encode comments cap len slots base room mem h few fits =
    let n = object cap len slots in
    let written = dotjson_encode-Encoded n base room mem in
    let text =
      c_string_of (dotjson_encode n base room mem).1 (print_node n) base room fits
        (written.text fits) (written.terminated (print_node-length n h) fits)
        (print_node-NoNul n h) in
    (
      rebuild n,
      ap (dotjson_decode comments) (text ∙ sym (append-nil (print_node n)))
          ∙ dotjson_decode-print_node comments cap len slots [] h,
      rebuild-Same n few,
    )
