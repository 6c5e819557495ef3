-- ===== src/Dotjson/Document/Leads.antt =====
-- How the text of a node begins.
use model_lib.Common.{
  ℕ, ◌<◌, ◌≡◌, refl, [], ◌∷◌, ◌++◌, Bool, true, false, ◌==◌, ◌||◌, arith, length,
}
use model_lib.Dotjson.Text.{Bytes, peek, quote}
use model_lib.Dotjson.Text.Skip.{starts_token}
use model_lib.Dotjson.Node.{Node, null, false_node, true_node, number, string, object, array}
use model_lib.Dotjson.Number.{is_digit}
use model_lib.Dotjson.Number.Numeral.{
  Numeral, numeral_text, DigitsOnly, Sign, unsigned, plus, minus, sign_text,
}
use model_lib.Dotjson.Quoted.Written.{string_text}
use model_lib.Dotjson.Encode.Print.{print_node}
use model_lib.Dotjson.Document.{Printable}

-- The first byte of a number, and of any node.
unfoldable pub leads_number : ℕ → Bool
unfolding is_digit
leads_number c = is_digit c || c == 0x2b || c == 0x2d

unfoldable pub leads : ℕ → Bool
unfolding leads_number
leads c =
    c == 0x7b || c == 0x5b || c == quote || c == 0x6e || c == 0x66 || c == 0x74 || leads_number c

sign_text-leads :
    (s : Sign) (d : ℕ) (p rest : Bytes)
    → is_digit d ≡ true
    → leads_number (peek ((sign_text s ++ d ∷ p) ++ rest)) ≡ true
unfolding leads_number
sign_text-leads unsigned d p rest h = ground arith
sign_text-leads plus d p rest h = refl
sign_text-leads minus d p rest h = refl

pub numeral_text-leads :
    (n : Numeral) (rest : Bytes)
    → DigitsOnly n
    → leads_number (peek (numeral_text n ++ rest)) ≡ true
unfolding numeral_text
numeral_text-leads n rest h = sign_text-leads n.sign n.first _ rest h.0.0

pub print_node-leads :
    (n : Node) (rest : Bytes) → Printable n → leads (peek (print_node n ++ rest)) ≡ true
unfolding print_node leads string_text Printable
print_node-leads null rest h = refl
print_node-leads false_node rest h = refl
print_node-leads true_node rest h = refl
print_node-leads (number raw) rest h = rw h.2 (ground (arith, numeral_text-leads h.0 rest h.1))
print_node-leads (string s) rest h = refl
print_node-leads (object cap len slots) rest h = refl
print_node-leads (array cap items) rest h = refl

-- A byte that leads is no space, opens no comment, and is neither NUL nor a closing bracket.
pub leads-starts : (c : ℕ) → leads c ≡ true → starts_token c ≡ true
unfolding leads starts_token
leads-starts c h = ground arith

pub leads_ne : (c : ℕ) → leads c ≡ true → ((c == 0) ≡ false) × ((c == 0x5d) ≡ false)
unfolding leads
leads_ne c h = ground arith

leads_length : (p : Bytes) → leads (peek (p ++ [])) ≡ true → 0 < length p
unfolding leads
leads_length [] h = absurd (ground arith)
leads_length (c ∷ p) h = omega arith

pub print_node-length : (n : Node) → Printable n → 0 < length (print_node n)
print_node-length n h = leads_length (print_node n) (print_node-leads n [] h)
