-- ===== src/Md5/Rfc.antt =====
-- RFC 1321 as it is printed: what the sum of cpp/md5 is compared with. Words are numbers below 2 ^ 32,
-- and of the source nothing is used but the record of the four words.
use model_lib.Common.{
  ℕ, zero, suc, ◌+◌, ◌-◌, ◌*◌, ◌/◌, ◌%◌, ◌^◌, bit_and, bit_or, List, [], ◌∷◌, ◌++◌, drop, take,
  replicate, length, get_or,
}
use Prim.Native.Nat.{bit_xor}
use model_lib.Md5.{Chain}

-- The function of the round of step `i`: F, G, H and I of section 3.4.
abbrev pub inverted : ℕ → ℕ
inverted x = 2 ^ 32 - 1 - x % 2 ^ 32

unfoldable pub function_in : (round x y z : ℕ) → ℕ
function_in round x y z =
    get_or
      (bit_or (bit_and x y) (bit_and (inverted x) z)
        ∷ bit_or (bit_and x z) (bit_and y (inverted z))
        ∷ bit_xor (bit_xor x y) z
        ∷ bit_xor y (bit_or x (inverted z))
        ∷ [])
      round (bit_or (bit_and x y) (bit_and (inverted x) z))

-- The word of the block, the rotation and the constant of step `i`.
unfoldable pub index_at : ℕ → ℕ
index_at i = get_or (i ∷ (5 * i + 1) % 16 ∷ (3 * i + 5) % 16 ∷ 7 * i % 16 ∷ []) (i / 16) 0

unfoldable pub shift_at : ℕ → ℕ
shift_at i =
    get_or (7 ∷ 12 ∷ 17 ∷ 22 ∷ 5 ∷ 9 ∷ 14 ∷ 20 ∷ 4 ∷ 11 ∷ 16 ∷ 23 ∷ 6 ∷ 10 ∷ 15 ∷ 21 ∷ [])
      (i / 16 * 4 + i % 4) 0

abbrev pub addends : List ℕ
addends =
    0xd76aa478 ∷ 0xe8c7b756 ∷ 0x242070db ∷ 0xc1bdceee ∷ 0xf57c0faf ∷ 0x4787c62a ∷ 0xa8304613
    ∷ 0xfd469501 ∷ 0x698098d8 ∷ 0x8b44f7af ∷ 0xffff5bb1 ∷ 0x895cd7be ∷ 0x6b901122 ∷ 0xfd987193
    ∷ 0xa679438e ∷ 0x49b40821 ∷ 0xf61e2562 ∷ 0xc040b340 ∷ 0x265e5a51 ∷ 0xe9b6c7aa ∷ 0xd62f105d
    ∷ 0x2441453 ∷ 0xd8a1e681 ∷ 0xe7d3fbc8 ∷ 0x21e1cde6 ∷ 0xc33707d6 ∷ 0xf4d50d87 ∷ 0x455a14ed
    ∷ 0xa9e3e905 ∷ 0xfcefa3f8 ∷ 0x676f02d9 ∷ 0x8d2a4c8a ∷ 0xfffa3942 ∷ 0x8771f681 ∷ 0x6d9d6122
    ∷ 0xfde5380c ∷ 0xa4beea44 ∷ 0x4bdecfa9 ∷ 0xf6bb4b60 ∷ 0xbebfbc70 ∷ 0x289b7ec6 ∷ 0xeaa127fa
    ∷ 0xd4ef3085 ∷ 0x4881d05 ∷ 0xd9d4d039 ∷ 0xe6db99e5 ∷ 0x1fa27cf8 ∷ 0xc4ac5665 ∷ 0xf4292244
    ∷ 0x432aff97 ∷ 0xab9423a7 ∷ 0xfc93a039 ∷ 0x655b59c3 ∷ 0x8f0ccc92 ∷ 0xffeff47d ∷ 0x85845dd1
    ∷ 0x6fa87e4f ∷ 0xfe2ce6e0 ∷ 0xa3014314 ∷ 0x4e0811a1 ∷ 0xf7537e82 ∷ 0xbd3af235 ∷ 0x2ad7d2bb
    ∷ 0xeb86d391 ∷ []

-- `X <<< s`
abbrev pub rotated : ℕ → ℕ → ℕ
rotated x s = bit_or (x * 2 ^ s % 2 ^ 32) (x / 2 ^ (32 - s))

-- One step on the four words, `b + ((a + F(b, c, d) + X[k] + T[i]) <<< s)`, which then change their
-- places.
abbrev pub rfc_step : List ℕ → ℕ → Chain → Chain
rfc_step x i h = record {
  a = h.d;
  b =
      (h.b
        + rotated
            ((h.a + function_in (i / 16) h.b h.c h.d + get_or x (index_at i) 0 + get_or addends i 0)
              % 2 ^ 32)
            (shift_at i))
      % 2 ^ 32;
  c = h.b;
  d = h.c;
}

unfoldable pub rfc_steps : List ℕ → (i steps : ℕ) → Chain → Chain
rfc_steps x i zero h = h
rfc_steps x i (suc n) h = rfc_steps x (suc i) n (rfc_step x i h)

-- Words and bytes, the low one first.
unfoldable pub rfc_words : List ℕ → List ℕ
rfc_words (x ∷ y ∷ z ∷ w ∷ p) = (x + 0x100 * y + 0x10000 * z + 0x1000000 * w) ∷ rfc_words p
rfc_words _ = []

abbrev pub rfc_bytes : ℕ → List ℕ
rfc_bytes n = n % 0x100 ∷ n / 0x100 % 0x100 ∷ n / 0x10000 % 0x100 ∷ n / 0x1000000 % 0x100 ∷ []

abbrev pub rfc_initial : Chain
rfc_initial = record { a = 0x67452301; b = 0xefcdab89; c = 0x98badcfe; d = 0x10325476 }

-- Behind the message: a byte 0x80, zeros up to 8 bytes before the end of a block, and the number of
-- its bits.
abbrev pub trailer : ℕ → List ℕ
trailer n =
    0x80
    ∷ (replicate ((119 - n % 64) % 64) 0
        ++ (rfc_bytes (n * 8 % 2 ^ 32) ++ rfc_bytes (n * 8 / 2 ^ 32)))

-- A block of 64 bytes, and `n` of them.
abbrev pub added : Chain → Chain → Chain
added h g = record {
  a = (h.a + g.a) % 2 ^ 32;
  b = (h.b + g.b) % 2 ^ 32;
  c = (h.c + g.c) % 2 ^ 32;
  d = (h.d + g.d) % 2 ^ 32;
}

unfoldable pub hash_block : List ℕ → Chain → Chain
hash_block p h = added h (rfc_steps (rfc_words (take 64 p)) 0 64 h)

unfoldable pub hash_blocks : ℕ → List ℕ → Chain → Chain
hash_blocks zero p h = h
hash_blocks (suc n) p h = hash_blocks n (drop 64 p) (hash_block p h)

unfoldable pub digest : Chain → List ℕ
digest h = rfc_bytes h.a ++ (rfc_bytes h.b ++ (rfc_bytes h.c ++ rfc_bytes h.d))

-- The digest of the padded message.
unfoldable pub rfc_sum : List ℕ → List ℕ
rfc_sum message =
    let n = length message in
    digest (hash_blocks (suc ((n + 8) / 64)) (message ++ trailer n) rfc_initial)
