-- ===== src/Md5.antt =====
-- cpp/md5/md5p.cpp and md5p.h: the MD5 sum of a message. `unsigned long` has 32 bits, and words are
-- read from and written to bytes with the lowest byte first, as the source's casts do on its platform.
pub mod Rfc
pub mod Rounds
pub mod Lists
pub mod Sum
mod Examples
use model_lib.Common.{
  ℕ, zero, suc, ◌+◌, ◌-◌, ◌*◌, ◌/◌, ◌%◌, ◌^◌, bit_and, bit_or, List, [], ◌∷◌, ◌++◌, leb, ltb,
  if◌then◌else◌, Option, none, some, drop, take, replicate, get_or,
}
use Prim.Native.Nat.{bit_xor}

abbrev pub u32 : ℕ → ℕ
u32 n = n % 2 ^ 32

-- `~x`
abbrev complement : ℕ → ℕ
complement x = 2 ^ 32 - 1 - u32 x

unfoldable pub md5_f : ℕ → ℕ → ℕ → ℕ
md5_f x y z = bit_or (bit_and x y) (bit_and (complement x) z)

unfoldable pub md5_g : ℕ → ℕ → ℕ → ℕ
md5_g x y z = bit_or (bit_and x z) (bit_and y (complement z))

unfoldable pub md5_h : ℕ → ℕ → ℕ → ℕ
md5_h x y z = bit_xor (bit_xor x y) z

unfoldable pub md5_i : ℕ → ℕ → ℕ → ℕ
md5_i x y z = bit_xor y (bit_or x (complement z))

unfoldable pub md5_rol : ℕ → ℕ → ℕ
md5_rol n c = bit_or (u32 (n * 2 ^ c)) (n / 2 ^ (32 - c))

-- The four sums, and `_length` with its low and high word.
pub record Chain : Type 0 where
  pub a : ℕ
  pub b : ℕ
  pub c : ℕ
  pub d : ℕ

pub record Md5p : Type 0 where
  pub chain : Chain
  pub low : ℕ
  pub high : ℕ

-- The constructor `MD5p::MD5p`.
abbrev pub initial : Md5p
initial = record {
  chain = record { a = 0x67452301; b = 0xefcdab89; c = 0x98badcfe; d = 0x10325476 };
  low = 0;
  high = 0;
}

-- `addLength`
unfoldable pub add_length : ℕ → Md5p → Md5p
add_length n s = record s {
  low = u32 (s.low + n);
  high = if ltb (2 ^ 32 - 1 - s.low) n then u32 (s.high + 1) else s.high;
}

-- `MD5P_XX`: the new value of its first argument.
unfoldable pub xx : ℕ → ℕ → ℕ → ℕ → ℕ → ℕ → ℕ
xx x b r m s t = u32 (b + md5_rol (u32 (x + r + m + t)) s)

-- A line of `Update`: the variable that it sets, its function, the index into `M`, the rotation and
-- the addend. The other variables follow from the first one.
pub data Turn : Type 0 where
  on_a on_d on_c on_b : Turn

pub data Mix : Type 0 where
  mix_f mix_g mix_h mix_i : Mix

pub data Row : Type 0 where
  row : Turn → Mix → (index shift addend : ℕ) → Row

unfoldable pub mix : Mix → ℕ → ℕ → ℕ → ℕ
mix mix_f = md5_f
mix mix_g = md5_g
mix mix_h = md5_h
mix mix_i = md5_i

unfoldable pub run_row : List ℕ → Row → Chain → Chain
run_row m (row on_a f k s t) h = record h { a = xx h.a h.b (mix f h.b h.c h.d) (get_or m k 0) s t }
run_row m (row on_d f k s t) h = record h { d = xx h.d h.a (mix f h.a h.b h.c) (get_or m k 0) s t }
run_row m (row on_c f k s t) h = record h { c = xx h.c h.d (mix f h.d h.a h.b) (get_or m k 0) s t }
run_row m (row on_b f k s t) h = record h { b = xx h.b h.c (mix f h.c h.d h.a) (get_or m k 0) s t }

unfoldable pub run_rows : List ℕ → List Row → Chain → Chain
run_rows m [] h = h
run_rows m (r ∷ rs) h = run_rows m rs (run_row m r h)

abbrev pub update_rows : List Row
update_rows =
    row on_a mix_f 0 7 0xd76aa478
    ∷ row on_d mix_f 1 12 0xe8c7b756
    ∷ row on_c mix_f 2 17 0x242070db
    ∷ row on_b mix_f 3 22 0xc1bdceee
    ∷ row on_a mix_f 4 7 0xf57c0faf
    ∷ row on_d mix_f 5 12 0x4787c62a
    ∷ row on_c mix_f 6 17 0xa8304613
    ∷ row on_b mix_f 7 22 0xfd469501
    ∷ row on_a mix_f 8 7 0x698098d8
    ∷ row on_d mix_f 9 12 0x8b44f7af
    ∷ row on_c mix_f 10 17 0xffff5bb1
    ∷ row on_b mix_f 11 22 0x895cd7be
    ∷ row on_a mix_f 12 7 0x6b901122
    ∷ row on_d mix_f 13 12 0xfd987193
    ∷ row on_c mix_f 14 17 0xa679438e
    ∷ row on_b mix_f 15 22 0x49b40821
    ∷ row on_a mix_g 1 5 0xf61e2562
    ∷ row on_d mix_g 6 9 0xc040b340
    ∷ row on_c mix_g 11 14 0x265e5a51
    ∷ row on_b mix_g 0 20 0xe9b6c7aa
    ∷ row on_a mix_g 5 5 0xd62f105d
    ∷ row on_d mix_g 10 9 0x2441453
    ∷ row on_c mix_g 15 14 0xd8a1e681
    ∷ row on_b mix_g 4 20 0xe7d3fbc8
    ∷ row on_a mix_g 9 5 0x21e1cde6
    ∷ row on_d mix_g 14 9 0xc33707d6
    ∷ row on_c mix_g 3 14 0xf4d50d87
    ∷ row on_b mix_g 8 20 0x455a14ed
    ∷ row on_a mix_g 13 5 0xa9e3e905
    ∷ row on_d mix_g 2 9 0xfcefa3f8
    ∷ row on_c mix_g 7 14 0x676f02d9
    ∷ row on_b mix_g 12 20 0x8d2a4c8a
    ∷ row on_a mix_h 5 4 0xfffa3942
    ∷ row on_d mix_h 8 11 0x8771f681
    ∷ row on_c mix_h 11 16 0x6d9d6122
    ∷ row on_b mix_h 14 23 0xfde5380c
    ∷ row on_a mix_h 1 4 0xa4beea44
    ∷ row on_d mix_h 4 11 0x4bdecfa9
    ∷ row on_c mix_h 7 16 0xf6bb4b60
    ∷ row on_b mix_h 10 23 0xbebfbc70
    ∷ row on_a mix_h 13 4 0x289b7ec6
    ∷ row on_d mix_h 0 11 0xeaa127fa
    ∷ row on_c mix_h 3 16 0xd4ef3085
    ∷ row on_b mix_h 6 23 0x4881d05
    ∷ row on_a mix_h 9 4 0xd9d4d039
    ∷ row on_d mix_h 12 11 0xe6db99e5
    ∷ row on_c mix_h 15 16 0x1fa27cf8
    ∷ row on_b mix_h 2 23 0xc4ac5665
    ∷ row on_a mix_i 0 6 0xf4292244
    ∷ row on_d mix_i 7 10 0x432aff97
    ∷ row on_c mix_i 14 15 0xab9423a7
    ∷ row on_b mix_i 5 21 0xfc93a039
    ∷ row on_a mix_i 12 6 0x655b59c3
    ∷ row on_d mix_i 3 10 0x8f0ccc92
    ∷ row on_c mix_i 10 15 0xffeff47d
    ∷ row on_b mix_i 1 21 0x85845dd1
    ∷ row on_a mix_i 8 6 0x6fa87e4f
    ∷ row on_d mix_i 15 10 0xfe2ce6e0
    ∷ row on_c mix_i 6 15 0xa3014314
    ∷ row on_b mix_i 13 21 0x4e0811a1
    ∷ row on_a mix_i 4 6 0xf7537e82
    ∷ row on_d mix_i 11 10 0xbd3af235
    ∷ row on_c mix_i 2 15 0x2ad7d2bb
    ∷ row on_b mix_i 9 21 0xeb86d391
    ∷ []

-- `_chain[0] += a;` and so on.
unfoldable pub add_chain : Chain → Chain → Chain
add_chain h g = record {
  a = u32 (h.a + g.a);
  b = u32 (h.b + g.b);
  c = u32 (h.c + g.c);
  d = u32 (h.d + g.d);
}

-- `Update`, on the 16 words `m`.
unfoldable pub update : List ℕ → Md5p → Md5p
update m s = add_length 64 (record s { chain = add_chain s.chain (run_rows m update_rows s.chain) })

-- Words in bytes.
unfoldable pub words_of : List ℕ → List ℕ
words_of (x ∷ y ∷ z ∷ w ∷ p) = (x + 2 ^ 8 * y + 2 ^ 16 * z + 2 ^ 24 * w) ∷ words_of p
words_of _ = []

abbrev pub bytes_of : ℕ → List ℕ
bytes_of n = n % 2 ^ 8 ∷ n / 2 ^ 8 % 2 ^ 8 ∷ n / 2 ^ 16 % 2 ^ 8 ∷ n / 2 ^ 24 % 2 ^ 8 ∷ []

abbrev pub block : List ℕ → List ℕ
block p = words_of (take 64 p)

-- The buffer `padding` of `Final` before its calls of `Update`, with `l` bytes of the tail.
unfoldable pub padding : List ℕ → (l : ℕ) → Md5p → List ℕ
padding tail l s =
    let n = (if leb 56 l then 120 else 56) - l in
    take l tail
    ++ 0x80
      ∷ (replicate (n - 1) 0
          ++ (bytes_of (u32 (s.low * 8)) ++ bytes_of (bit_or (u32 (s.high * 8)) (s.low / 2 ^ 29))))

-- `Final`
unfoldable pub final : List ℕ → (length : ℕ) → Md5p → Md5p
final tail length s =
    let s' = add_length length s in
    let l = bit_and s'.low 0x3f in
    let buffer = padding tail l s' in
    let once = update (block buffer) s' in
    if leb 56 l then update (block (drop 64 buffer)) once else once

-- `Output`
unfoldable pub output : Md5p → List ℕ
output s = bytes_of s.chain.a ++ (bytes_of s.chain.b ++ (bytes_of s.chain.c ++ bytes_of s.chain.d))

-- The loop of `GetSum` and what stands behind it, from the offset `p` on; each round costs a unit
-- of fuel.
unfoldable pub sum_loop : ℕ → (message : List ℕ) (length p : ℕ) → Md5p → Option (List ℕ)
sum_loop zero message length p s = none
sum_loop (suc f) message length p s =
    let rest = sum_loop f message length (u32 (p + 64)) (update (block (drop p message)) s) in
    if leb (u32 (p + 64)) length
    then rest
    else some (output (final (drop p message) (length - p) s))

-- `GetSum`
unfoldable pub get_sum : ℕ → List ℕ → (length : ℕ) → Option (List ℕ)
get_sum f message length = sum_loop f message length 0 initial
