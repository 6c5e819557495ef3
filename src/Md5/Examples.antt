-- ===== src/Md5/Examples.antt =====
-- The theorem on cpp/md5 at a short message, and two of the sums that RFC 1321 prints.
use model_lib.Common.{ℕ, List, [], ◌∷◌, ◌≡◌, refl, some, arith}
use model_lib.Md5.{
  get_sum, sum_loop, update, final, output, padding, words_of, add_length, add_chain, run_rows,
  run_row, xx, mix, md5_f, md5_g, md5_h, md5_i, md5_rol,
}
use model_lib.Md5.Rfc.{rfc_sum}
use model_lib.Md5.Sum.{get_sum-rfc_sum}

-- `abc`
abbrev message : List ℕ
message = 0x61 ∷ 0x62 ∷ 0x63 ∷ []

get_sum-rfc_sum_example : get_sum 1 message 3 ≡ some (rfc_sum message)
get_sum-rfc_sum_example = get_sum-rfc_sum 1 message (omega arith) (omega arith)

sum_of_abc :
    get_sum 1 message 3
    ≡ some (
        0x90 ∷ 0x01 ∷ 0x50 ∷ 0x98 ∷ 0x3c ∷ 0xd2 ∷ 0x4f ∷ 0xb0 ∷ 0xd6 ∷ 0x96 ∷ 0x3f ∷ 0x7d ∷ 0x28
        ∷ 0xe1 ∷ 0x7f ∷ 0x72 ∷ [])
unfolding get_sum sum_loop update final output padding words_of add_length add_chain run_rows
    run_row xx mix md5_f md5_g md5_h md5_i md5_rol
sum_of_abc = refl

sum_of_nothing :
    get_sum 1 [] 0
    ≡ some (
        0xd4 ∷ 0x1d ∷ 0x8c ∷ 0xd9 ∷ 0x8f ∷ 0x00 ∷ 0xb2 ∷ 0x04 ∷ 0xe9 ∷ 0x80 ∷ 0x09 ∷ 0x98 ∷ 0xec
        ∷ 0xf8 ∷ 0x42 ∷ 0x7e ∷ [])
unfolding get_sum sum_loop update final output padding words_of add_length add_chain run_rows
    run_row xx mix md5_f md5_g md5_h md5_i md5_rol
sum_of_nothing = refl
