-- ===== src/ZaxDriver/Path.antt =====
-- The path of the driver's file in c/zax-inspector/ZaxInspector/ZaxDriver.c: it stands beside the program.
use model_lib.Common.{
  ℕ, zero, suc, ◌+◌, ◌-◌, ◌==◌, ◌≡◌, ◌≢◌, ◌≤◌, ◌<◌, refl, ap, ◌∙◌, false, some, List, [], ◌∷◌, ◌++◌,
  length, take, get_elem?, All, length-append, append_assoc, ne→==-false, arith,
}
use model_lib.ZaxDriver.{up_to_backslash, driver_path, driver_file, backslash, max_path}

get_elem?-append : (xs ys : List ℕ) (k : ℕ) → get_elem? (xs ++ ys) (k + length xs) ≡ get_elem? ys k
get_elem?-append [] ys k = let n : k + 0 ≡ k = omega arith in rw n refl
get_elem?-append (x ∷ xs) ys k =
    let n : k + suc (length xs) ≡ suc (k + length xs) = omega arith in
    rw n (get_elem?-append xs ys k)

get_elem?-All :
    (xs : List ℕ) (k : ℕ)
    → k < length xs
    → All (λ c. c ≢ backslash) xs
    → (c : ℕ) × (get_elem? xs k ≡ some c) × ((c == backslash) ≡ false)
get_elem?-All [] k lt h = absurd (omega arith)
get_elem?-All (x ∷ xs) zero lt h = (x, refl, ne→==-false x backslash h.0)
get_elem?-All (x ∷ xs) (suc k) lt h = get_elem?-All xs k (omega arith) h.1

take_to :
    (dir : List ℕ) (c : ℕ) (rest : List ℕ)
    → take (suc (length dir)) (dir ++ c ∷ rest) ≡ dir ++ c ∷ []
take_to [] c rest = refl
take_to (x ∷ dir) c rest = ap (λ ys. x ∷ ys) (take_to dir c rest)

-- The search from behind the backslash and `k` characters of the file's name.
up_to_backslash-file :
    (dir file : List ℕ) (k : ℕ)
    → k ≤ length file
    → All (λ c. c ≢ backslash) file
    → up_to_backslash (k + suc (length dir)) (dir ++ backslash ∷ file) ≡ dir ++ backslash ∷ []
unfolding up_to_backslash
up_to_backslash-file dir file zero le h =
    let at : get_elem? (dir ++ backslash ∷ file) (length dir) ≡ some backslash =
      let z : length dir ≡ 0 + length dir = omega arith in
      ap (get_elem? (dir ++ backslash ∷ file)) z ∙ get_elem?-append dir (backslash ∷ file) 0 in
    let n : zero + suc (length dir) ≡ suc (length dir) = omega arith in
    rw (n, up_to_backslash, at) (take_to dir backslash file)
up_to_backslash-file dir file (suc k) le h =
    let (c, e, ne) = get_elem?-All file k (omega arith) h in
    let at : get_elem? (dir ++ backslash ∷ file) (k + suc (length dir)) ≡ some c =
      let z : k + suc (length dir) ≡ suc k + length dir = omega arith in
      ap (get_elem? (dir ++ backslash ∷ file)) z
      ∙ get_elem?-append dir (backslash ∷ file) (suc k)
      ∙ e in
    let n : suc k + suc (length dir) ≡ suc (k + suc (length dir)) = omega arith in
    rw (n, up_to_backslash, at, ne) (up_to_backslash-file dir file k (omega arith) h)

take-all : (n : ℕ) (xs : List ℕ) → length xs ≤ n → take n xs ≡ xs
take-all zero [] le = refl
take-all zero (x ∷ xs) le = absurd (omega arith)
take-all (suc n) [] le = refl
take-all (suc n) (x ∷ xs) le = ap (λ ys. x ∷ ys) (take-all n xs (omega arith))

-- Where the program's name has a backslash, the driver's file is looked for beside the program, if the
-- path is shorter than MAX_PATH.
pub driver_path_lem :
    (dir file : List ℕ)
    → All (λ c. c ≢ backslash) file
    → length dir + 9 ≤ max_path
    → driver_path (dir ++ backslash ∷ file) ≡ dir ++ backslash ∷ driver_file
unfolding driver_path
driver_path_lem dir file h short =
    let n : length (dir ++ backslash ∷ file) ≡ length file + suc (length dir) =
      omega (arith, length-append {0} dir (backslash ∷ file)) in
    let whole : (dir ++ backslash ∷ []) ++ driver_file ≡ dir ++ backslash ∷ driver_file =
      append_assoc dir (backslash ∷ []) driver_file in
    let size : length (dir ++ backslash ∷ driver_file) ≤ max_path - 1 =
      omega (arith, length-append {0} dir (backslash ∷ driver_file)) in
    rw (n, up_to_backslash-file dir file (length file) (omega arith) h, whole)
      (take-all (max_path - 1) _ size)
