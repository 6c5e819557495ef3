-- ===== src/Md5/Rounds.antt =====
-- `Update` of cpp/md5/md5p.cpp against the loop of RFC 1321.
use model_lib.Common.{ℕ, zero, suc, ◌/◌, ◌≡◌, refl, ap, ◌∙◌, List, [], ◌∷◌, get_or}
use model_lib.Md5.{
  Chain, Mix, mix_f, mix_g, mix_h, mix_i, mix, md5_f, md5_g, md5_h, md5_i, md5_rol, Turn, on_a,
  on_b, on_c, on_d, Row, row, xx, run_row, run_rows, update_rows,
}
use model_lib.Md5.Rfc.{function_in, index_at, shift_at, addends, rfc_step, rfc_steps}

-- The four words in the order of a step, with the source's macros.
unfoldable kind_in : ℕ → Mix
kind_in round = get_or (mix_f ∷ mix_g ∷ mix_h ∷ mix_i ∷ []) round mix_f

abbrev turned_step : List ℕ → ℕ → Chain → Chain
turned_step m i h = record {
  a = h.d;
  b =
      xx h.a h.b (mix (kind_in (i / 16)) h.b h.c h.d) (get_or m (index_at i) 0) (shift_at i)
        (get_or addends i 0);
  c = h.b;
  d = h.c;
}

unfoldable turned_steps : List ℕ → (i steps : ℕ) → Chain → Chain
turned_steps m i zero h = h
turned_steps m i (suc n) h = turned_steps m (suc i) n (turned_step m i h)

-- The rows of four steps, and of `n` times four.
abbrev row_at : Turn → ℕ → Row
row_at t i = row t (kind_in (i / 16)) (index_at i) (shift_at i) (get_or addends i 0)

unfoldable four_times : ℕ → ℕ
four_times zero = zero
four_times (suc n) = suc (suc (suc (suc (four_times n))))

unfoldable rows_from : (i fours : ℕ) → List Row
rows_from i zero = []
rows_from i (suc n) =
    row_at on_a i
    ∷ row_at on_d (suc i)
    ∷ row_at on_c (suc (suc i))
    ∷ row_at on_b (suc (suc (suc i)))
    ∷ rows_from (suc (suc (suc (suc i)))) n

update_rows-rows_from : update_rows ≡ rows_from 0 16
unfolding rows_from kind_in index_at shift_at
update_rows-rows_from = refl

run_rows-turned_steps :
    (m : List ℕ) (i n : ℕ) (h : Chain)
    → run_rows m (rows_from i n) h ≡ turned_steps m i (four_times n) h
unfolding rows_from run_rows run_row turned_steps four_times
run_rows-turned_steps m i zero h = refl
run_rows-turned_steps m i (suc n) h = run_rows-turned_steps m (suc (suc (suc (suc i)))) n _

-- The macros are the functions of RFC 1321.
mix-function_in : (round x y z : ℕ) → mix (kind_in round) x y z ≡ function_in round x y z
unfolding kind_in function_in mix md5_f md5_g md5_h md5_i
mix-function_in zero x y z = refl
mix-function_in (suc zero) x y z = refl
mix-function_in (suc (suc zero)) x y z = refl
mix-function_in (suc (suc (suc zero))) x y z = refl
mix-function_in (suc (suc (suc (suc n)))) x y z = refl

turned_step-rfc_step : (m : List ℕ) (i : ℕ) (h : Chain) → turned_step m i h ≡ rfc_step m i h
unfolding xx md5_rol
turned_step-rfc_step m i h =
    ap
      (λ r. record h {
        a = h.d;
        b = xx h.a h.b r (get_or m (index_at i) 0) (shift_at i) (get_or addends i 0);
        c = h.b;
        d = h.c;
      })
      (mix-function_in (i / 16) h.b h.c h.d)

turned_steps-rfc_steps :
    (m : List ℕ) (i n : ℕ) (h : Chain) → turned_steps m i n h ≡ rfc_steps m i n h
unfolding turned_steps rfc_steps
turned_steps-rfc_steps m i zero h = refl
turned_steps-rfc_steps m i (suc n) h =
    ap (turned_steps m (suc i) n) (turned_step-rfc_step m i h)
    ∙ turned_steps-rfc_steps m (suc i) n (rfc_step m i h)

-- On every block and every state, the 64 lines of `Update` come to the 64 steps of RFC 1321 with the
-- constants of the source: in each step the right function, word, rotation and variables.
pub update_rows-rfc_steps : (m : List ℕ) (h : Chain) → run_rows m update_rows h ≡ rfc_steps m 0 64 h
unfolding four_times
update_rows-rfc_steps m h =
    ap (λ rs. run_rows m rs h) update_rows-rows_from
    ∙ run_rows-turned_steps m 0 16 h
    ∙ turned_steps-rfc_steps m 0 64 h
