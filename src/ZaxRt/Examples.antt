-- ===== src/ZaxRt/Examples.antt =====
-- The theorems on ZaxRT.c at a build number and at two bytes.
use model_lib.Common.{ℕ, List, [], ◌∷◌, ◌≡◌, some, arith}
use model_lib.ZaxRt.{rt_dwtos, rt_stodw}
use model_lib.ZaxRt.RoundTrip.{rt_stodw-rt_dwtos}

rt_stodw-rt_dwtos_example :
    (text : List ℕ) × (rt_dwtos 7601 10 0 16 ≡ some text) × (rt_stodw text ≡ (some 7601, []))
rt_stodw-rt_dwtos_example = rt_stodw-rt_dwtos 7601 16 (omega arith) (omega arith)

-- c7 05, in a buffer of eight characters.
abbrev two_bytes : List ℕ
two_bytes = 0xc7 ∷ 0x05 ∷ []
