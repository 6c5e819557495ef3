-- ===== src/Common/Memory.antt =====
-- Byte memory as a function from addresses, and writers that count what they would write.
use Prim.Native.Nat.{ℕ, zero, suc, ◌+◌, ◌-◌, ◌≤◌, ◌<◌}
use mathlib.Core.Path.{◌≡◌, refl, ap, sym, ◌∙◌}
use mathlib.Core.Logic.{◌⊎◌, inl}
use mathlib.Core.Bool.{Bool, true, false}
use mathlib.Core.List.{List, [], ◌∷◌, ◌++◌}
use native.Mathlib.Omega.{arith}
use native.Mathlib.Decide.{dec_lt}
use model_lib.Common.Tests.{if◌then◌else◌, ltb, ◌==◌, ==-refl, ne→==-false}
use model_lib.Common.Lists.{length, get_or, length-append}

abbrev pub Memory : Type 0
Memory = ℕ → ℕ

-- A count of bytes, and the memory: what an encoder passes on.
abbrev pub Out : Type 0
Out = ℕ × Memory

abbrev pub update : Memory → ℕ → ℕ → Memory
update mem a v j = if j == a then v else mem j

-- `memcpy(a, bytes)`
unfoldable pub copy : Memory → ℕ → List ℕ → Memory
copy mem a [] = mem
copy mem a (c ∷ cs) = copy (update mem a c) (a + 1) cs

-- `if (room) { … } r += n;`: the bytes are counted, and stored from `buf + r` on if there is room.
unfoldable pub puts : ℕ → Bool → List ℕ → Out → Out
unfolding copy
puts base room bytes (r, mem) = (r + length bytes, if room then copy mem (base + r) bytes else mem)

-- `if (len > r) { buf[r] = c; } r++;`
unfoldable pub put : ℕ → ℕ → ℕ → Out → Out
unfolding puts
put base len c (r, mem) = puts base (ltb r len) (c ∷ []) (r, mem)

copy_kept :
    (mem : Memory) (a : ℕ) (bytes : List ℕ) (j : ℕ)
    → (j < a) ⊎ (a + length bytes ≤ j)
    → copy mem a bytes j ≡ mem j
unfolding copy
copy_kept mem a [] j h = refl
copy_kept mem a (c ∷ cs) j h =
    copy_kept (update mem a c) (a + 1) cs j (omega arith)
    ∙ ap (λ b. if b then c else mem j) (ne→==-false j a (omega arith))

copy_filled :
    (mem : Memory) (a : ℕ) (bytes : List ℕ) (i : ℕ)
    → i < length bytes
    → copy mem a bytes (a + i) ≡ get_or bytes i 0
unfolding copy
copy_filled mem a [] i h = absurd (omega arith)
copy_filled mem a (c ∷ cs) zero h =
    ap (copy (update mem a c) (a + 1) cs) (omega arith)
    ∙ copy_kept (update mem a c) (a + 1) cs a (omega arith)
    ∙ ap (λ b. if b then c else mem a) (==-refl a)
copy_filled mem a (c ∷ cs) (suc i) h =
    ap (copy (update mem a c) (a + 1) cs) (omega arith)
    ∙ copy_filled (update mem a c) (a + 1) cs i (omega arith)

-- A run of a writer into the `len` bytes from `base` on: `bytes` are counted, nothing before the
-- count's place or behind the buffer changes, and all of `bytes` is there if `need` bytes fit.
pub record Wrote (base len need : ℕ) (st st' : Out) (bytes : List ℕ) : Type 0 where
  pub moved : st'.0 ≡ st.0 + length bytes
  pub kept : (j : ℕ) → (j < base + st.0) ⊎ (base + len ≤ j) → st'.1 j ≡ st.1 j
  pub filled : need ≤ len → (i : ℕ) → i < length bytes → st'.1 (base + st.0 + i) ≡ get_or bytes i 0

pub Wrote-nil : (base len need : ℕ) (st : Out) → Wrote base len need st st []
Wrote-nil base len need st = record {
  moved = omega arith;
  kept = λ j h. refl;
  filled = λ fit i h. absurd (omega arith);
}

pub Wrote-puts :
    (base len need : ℕ) (room : Bool) (bytes : List ℕ) (st : Out)
    → (room ≡ true → st.0 + length bytes ≤ len)
    → (need ≤ len → room ≡ true)
    → Wrote base len need st (puts base room bytes st) bytes
unfolding puts
Wrote-puts base len need true bytes st fits full = record {
  moved = refl;
  kept = λ j h. let fit = fits refl in copy_kept st.1 (base + st.0) bytes j (omega arith);
  filled = λ fit i h. copy_filled st.1 (base + st.0) bytes i h;
}
Wrote-puts base len need false bytes st fits full = record {
  moved = refl;
  kept = λ j h. refl;
  filled = λ fit i h. cc (full fit);
}

pub Wrote-put :
    (base len c : ℕ) (st : Out) → Wrote base len (st.0 + 1) st (put base len c st) (c ∷ [])
unfolding put
Wrote-put base len c st =
    Wrote-puts base len (st.0 + 1) (ltb st.0 len) (c ∷ []) st (λ h. ground arith)
      (λ h. ground arith)

get_or-append_left :
    (xs ys : List ℕ) (i : ℕ) → i < length xs → get_or (xs ++ ys) i 0 ≡ get_or xs i 0
get_or-append_left [] ys i h = absurd (omega arith)
get_or-append_left (x ∷ xs) ys zero h = refl
get_or-append_left (x ∷ xs) ys (suc i) h = get_or-append_left xs ys i (omega arith)

get_or-append_right : (xs ys : List ℕ) (i : ℕ) → get_or (xs ++ ys) (length xs + i) 0 ≡ get_or ys i 0
get_or-append_right [] ys i = ap (λ k. get_or ys k 0) (omega arith)
get_or-append_right (x ∷ xs) ys i =
    let next : length (x ∷ xs) + i ≡ suc (length xs + i) = omega arith in
    ap (λ k. get_or (x ∷ (xs ++ ys)) k 0) next ∙ get_or-append_right xs ys i

-- One writer behind another.
module _ {base len need₁ need₂ : ℕ} (need : ℕ) {st st₁ st₂ : Out} {xs ys : List ℕ}
    (w₁ : Wrote base len need₁ st st₁ xs) (w₂ : Wrote base len need₂ st₁ st₂ ys)
    (le₁ : need₁ ≤ need) (le₂ : need₂ ≤ need) where
  append_kept : (j : ℕ) → (j < base + st.0) ⊎ (base + len ≤ j) → st₂.1 j ≡ st.1 j
  append_kept j h = w₂.kept j (omega (arith, w₁.moved)) ∙ w₁.kept j h

  append_filled :
      need ≤ len → (i : ℕ) → i < length (xs ++ ys) → st₂.1 (base + st.0 + i) ≡ get_or (xs ++ ys) i 0
  append_filled fit i h = elim (dec_lt i (length xs)) [
    | yes left ↦
        w₂.kept (base + st.0 + i) (inl (omega (arith, w₁.moved)))
        ∙ w₁.filled (omega arith) i left
        ∙ sym (get_or-append_left xs ys i left)
    | no right ↦
        ap st₂.1 (omega (arith, w₁.moved))
        ∙ w₂.filled (omega arith) (i - length xs) (omega (arith, length-append {0} xs ys))
        ∙ sym (get_or-append_right xs ys (i - length xs))
        ∙ ap (λ k. get_or (xs ++ ys) k 0) (omega arith)
  ]

  pub Wrote-append : Wrote base len need st st₂ (xs ++ ys)
  Wrote-append = record {
    moved = omega (arith, w₁.moved, w₂.moved, length-append {0} xs ys);
    kept = append_kept;
    filled = append_filled;
  }

-- A writer that is called on the rest of the buffer, `buf + r` with `len > r ? len - r : 0` bytes.
pub Wrote-nested :
    (base len need r : ℕ) (mem : Memory) (st : Out) (bytes : List ℕ)
    → Wrote (base + r) (len - r) need (0, mem) st bytes
    → Wrote base len (r + need) (r, mem) (r + st.0, st.1) bytes
Wrote-nested base len need r mem st bytes w = record {
  moved = omega (arith, w.moved);
  kept = λ j h. w.kept j (omega arith);
  filled = λ fit i h. ap st.1 (omega arith) ∙ w.filled (omega arith) i h;
}
