-- ===== src/Md5/Sum.antt =====
-- `GetSum` of cpp/md5/md5p.cpp against RFC 1321: padding, blocks and digest.
use model_lib.Common.{
  ℕ, zero, suc, ◌+◌, ◌-◌, ◌*◌, ◌/◌, ◌%◌, ◌^◌, ◌<◌, ◌≤◌, ◌≡◌, refl, ap, sym, ◌∙◌, List, [], ◌∷◌,
  ◌++◌, Bool, true, false, leb, if◌then◌else◌, Option, some, drop, take, replicate, length, arith,
  Bool-cases, inl, inr, bit_and, bit_or,
}
use model_lib.Common.Bits.{bit_and-mask}
use model_lib.Common.BitOr.{zero-bit_or}
use model_lib.Md5.{
  u32, Chain, Md5p, initial, add_length, add_chain, update, words_of, bytes_of, block, padding,
  final, output, sum_loop, get_sum,
}
use model_lib.Md5.Rfc.{
  rfc_steps, rfc_words, rfc_initial, trailer, added, hash_block, hash_blocks, digest, rfc_sum,
}
use model_lib.Md5.Rounds.{update_rows-rfc_steps}
use model_lib.Md5.Lists.{drop-drop, drop-append, take-append_left, length-drop, take-all}

words_of-rfc_words : (p : List ℕ) → words_of p ≡ rfc_words p
unfolding words_of rfc_words
words_of-rfc_words [] = refl
words_of-rfc_words (x ∷ []) = refl
words_of-rfc_words (x ∷ y ∷ []) = refl
words_of-rfc_words (x ∷ y ∷ z ∷ []) = refl
words_of-rfc_words (x ∷ y ∷ z ∷ w ∷ p) =
    ap (λ ws. (x + 0x100 * y + 0x10000 * z + 0x1000000 * w) ∷ ws) (words_of-rfc_words p)

update-chain : (p : List ℕ) (s : Md5p) → (update (block p) s).chain ≡ hash_block p s.chain
unfolding update add_length add_chain hash_block
update-chain p s =
    ap (added s.chain) (update_rows-rfc_steps (block p) s.chain)
    ∙ ap (λ m. added s.chain (rfc_steps m 0 64 s.chain)) (words_of-rfc_words (take 64 p))

-- One block, or two.
blocks-chain :
    (two : Bool) (b : List ℕ) (s : Md5p)
    → (if two then update (block (drop 64 b)) (update (block b) s) else update (block b) s).chain
      ≡ hash_blocks (if two then 2 else 1) b s.chain
unfolding hash_blocks
blocks-chain false b s = update-chain b s
blocks-chain true b s =
    update-chain (drop 64 b) (update (block b) s) ∙ ap (hash_block (drop 64 b)) (update-chain b s)

-- The padded tail by its parts.
abbrev pieces : List ℕ → (zeros low high : ℕ) → List ℕ
pieces t k low high = t ++ 0x80 ∷ (replicate k 0 ++ (bytes_of low ++ bytes_of high))

pieces-same :
    {t u : List ℕ} {k k' x x' y y' : ℕ}
    → t ≡ u
    → k ≡ k'
    → x ≡ x'
    → y ≡ y'
    → pieces t k x y ≡ pieces u k' x' y'
pieces-same {t} {u} {k} {k'} {x} {x'} {y} {y'} e f g h =
    ap (λ z. pieces z k x y) e
    ∙ ap (λ z. pieces u z x y) f
    ∙ ap (λ z. pieces u k' z y) g
    ∙ ap (λ z. pieces u k' x' z) h

-- The last one or two blocks, at a tail of `l` bytes behind `p` bytes that are hashed.
module _ (tail : List ℕ) (p : ℕ) (s : Md5p) (whole : p % 64 ≡ 0) (short : length tail < 64)
    (room : p + length tail < 2 ^ 32) (low : s.low ≡ p) (high : s.high ≡ 0) where
  counted : (add_length (length tail) s).low ≡ p + length tail
  unfolding add_length
  counted = omega arith

  not_carried : (add_length (length tail) s).high ≡ 0
  unfolding add_length
  not_carried = ground arith

  tail_length : bit_and (p + length tail) 0x3f ≡ length tail
  tail_length = bit_and-mask 6 (p + length tail) ∙ omega arith

  -- The buffer of `Final` is the tail of the padded message.
  padding_lem :
      padding tail (length tail) (add_length (length tail) s) ≡ tail ++ trailer (p + length tail)
  unfolding padding
  padding_lem =
      let n = p + length tail in
      let zeros : (if leb 56 (length tail) then 120 else 56) - length tail - 1
          ≡ (119 - n % 64) % 64 =
        ground arith in
      let low_bits : u32 ((add_length (length tail) s).low * 8) ≡ n * 8 % 2 ^ 32 =
        ap (λ x. u32 (x * 8)) counted in
      let high_bits : bit_or (u32 ((add_length (length tail) s).high * 8))
            ((add_length (length tail) s).low / 2 ^ 29)
          ≡ n * 8 / 2 ^ 32 =
        ap (λ x. bit_or (u32 (x * 8)) ((add_length (length tail) s).low / 2 ^ 29)) not_carried
        ∙ zero-bit_or _
        ∙ ap (λ x. x / 2 ^ 29) counted
        ∙ omega arith in
      pieces-same (take-all tail) zeros low_bits high_bits

  -- `Final` hashes the one or two blocks of the padded tail.
  final_lem :
      (final tail (length tail) s).chain
      ≡ hash_blocks
          (if leb 56 (length tail) then 2 else 1)
          (tail ++ trailer (p + length tail))
          s.chain
  unfolding final add_length
  final_lem =
      let s' = add_length (length tail) s in
      let two = leb 56 (length tail) in
      let finished : ℕ → Chain = λ l.
        (if leb 56 l
          then update (block (drop 64 (padding tail l s'))) (update (block (padding tail l s')) s')
          else update (block (padding tail l s')) s').chain in
      ap finished (ap (λ x. bit_and x 0x3f) counted ∙ tail_length)
      ∙ ap
          (λ b.
            (if two
              then update (block (drop 64 b)) (update (block b) s')
              else update (block b) s').chain)
          padding_lem
      ∙ blocks-chain two (tail ++ trailer (p + length tail)) s'

-- `Update` counts its 64 bytes.
update-low :
    (m : List ℕ) (s : Md5p) (p : ℕ)
    → p + 64 < 2 ^ 32
    → s.low ≡ p
    → s.high ≡ 0
    → ((update m s).low ≡ p + 64) × ((update m s).high ≡ 0)
unfolding update add_length
update-low m s p room low high = (omega arith, ground arith)

-- A message with its trailer, from an offset inside of the message on.
module _ (message : List ℕ) (room : length message + 64 < 2 ^ 32) where
  abbrev padded : List ℕ
  padded = message ++ trailer (length message)

  abbrev rest_sum : ℕ → Chain → Option (List ℕ)
  rest_sum p h = some (digest (hash_blocks (suc ((length message - p + 8) / 64)) (drop p padded) h))

  -- A whole block of the message is one of the padded message.
  rest_sum-block :
      (p : ℕ) (h : Chain)
      → p + 64 ≤ length message
      → rest_sum (p + 64) (hash_block (drop p message) h) ≡ rest_sum p h
  unfolding hash_blocks hash_block
  rest_sum-block p h le =
      let count : (length message - p + 8) / 64 ≡ suc ((length message - (p + 64) + 8) / 64) =
        omega arith in
      let enough : 64 ≤ length (drop p message) = omega (arith, length-drop p message) in
      let same : take 64 (drop p message) ≡ take 64 (drop p padded) =
        sym (take-append_left 64 (drop p message) (trailer (length message)) enough)
        ∙ ap (take 64) (sym (drop-append p message (trailer (length message)) (omega arith))) in
      let fewer = (length message - (p + 64) + 8) / 64 in
      ap
        (λ b. some (
          digest (
            hash_blocks (suc fewer) (drop (p + 64) padded)
              (added h (rfc_steps (rfc_words b) 0 64 h)))))
        same
      ∙ ap (λ q. some (digest (hash_blocks (suc fewer) q (hash_block (drop p padded) h))))
          (sym (drop-drop 64 p padded))
      ∙ ap (λ k. some (digest (hash_blocks (suc k) (drop p padded) h))) (sym count)

  -- The last blocks.
  rest_sum-final :
      (p : ℕ) (s : Md5p)
      → p ≤ length message
      → length message < p + 64
      → p % 64 ≡ 0
      → s.low ≡ p
      → s.high ≡ 0
      → some (output (final (drop p message) (length message - p) s)) ≡ rest_sum p s.chain
  unfolding output digest
  rest_sum-final p s le last whole low high =
      let tail = drop p message in
      let size = length-drop p message in
      let ends = final_lem tail p s whole (omega arith) (omega arith) low high in
      let total : p + length tail ≡ length message = omega arith in
      let rest_of : List ℕ → Option (List ℕ) =
        λ q. some (digest (hash_blocks (suc ((length message - p + 8) / 64)) q s.chain)) in
      let count : (if leb 56 (length tail) then 2 else 1) ≡ suc ((length message - p + 8) / 64) =
        ground arith in
      ap (λ k. some (output (final tail k s))) (sym size)
      ∙ ap (λ c. some (digest c)) ends
      ∙ ap (λ k. some (digest (hash_blocks k (tail ++ trailer (p + length tail)) s.chain))) count
      ∙ ap (λ k. rest_of (tail ++ trailer k)) total
      ∙ ap rest_of (sym (drop-append p message (trailer (length message)) le))

  -- The loop of `GetSum` from the offset `p` on, where the blocks before `p` are hashed.
  sum_loop-rest_sum :
      (f p : ℕ) (s : Md5p)
      → p ≤ length message
      → length message < f * 64 + p
      → p % 64 ≡ 0
      → s.low ≡ p
      → s.high ≡ 0
      → sum_loop f message (length message) p s ≡ rest_sum p s.chain
  unfolding sum_loop
  sum_loop-rest_sum zero p s le fuel whole low high = absurd (omega arith)
  sum_loop-rest_sum (suc f) p s le fuel whole low high =
      let n = length message in
      let on : u32 (p + 64) ≡ p + 64 = omega arith in
      let later = update (block (drop p message)) s in
      let counts = update-low (block (drop p message)) s p (omega arith) low high in
      elim (Bool-cases (leb (u32 (p + 64)) n)) [
        | inl more ↦
            let within : p + 64 ≤ n = ground arith in
            rw more (
              ap (λ q. sum_loop f message n q later) on
              ∙ sum_loop-rest_sum f (p + 64) later within (omega arith) (omega arith) counts.0
                  counts.1
              ∙ ap (rest_sum (p + 64)) (update-chain (drop p message) s)
              ∙ rest_sum-block p s.chain within)
        | inr last ↦ rw last (rest_sum-final p s le (ground arith) whole low high)
      ]

-- For a message that is more than 64 bytes shorter than 2 ^ 32, whose length is given, and enough rounds,
-- `GetSum` ends, and the result is the digest of RFC 1321 of the message: of the blocks of the padded
-- message, each taken through 64 steps with the constants of the source.
pub get_sum-rfc_sum :
    (f : ℕ) (message : List ℕ)
    → length message + 64 < 2 ^ 32
    → length message < f * 64
    → get_sum f message (length message) ≡ some (rfc_sum message)
unfolding get_sum rfc_sum
get_sum-rfc_sum f message room fuel =
    sum_loop-rest_sum message room f 0 initial (omega arith) (omega arith) refl refl refl
    ∙ ap
        (λ k. some (
          digest
            (hash_blocks (suc ((k + 8) / 64)) (message ++ trailer (length message)) rfc_initial)))
        (omega arith)
