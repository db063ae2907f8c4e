-- ===== src/Erasure/VectMul.antt =====
-- gfVectMulInit of src/client/GF256.cpp: the products of a byte with the low and the high digits.
use libhdfs.Prelude.{
  ℕ, ◌*◌, ◌<◌, ◌≡◌, refl, ap₂, arith, ◌==◌, ◌&&◌, Bool, true, false, List, [], ◌∷◌, ◌++◌, map,
  range,
}
use Prim.Native.Nat.{bit_xor}
use libhdfs.Erasure.Tables.{gf_base, gf_log_base}
use libhdfs.Erasure.Arithmetic.{gf_mul, times_two}
use libhdfs.Erasure.Powers.{all_below, below_holds}

-- The 32 bytes at `offset`.
unfoldable pub gf_vect_mul_init : ℕ → List ℕ
gf_vect_mul_init c =
    let c2 = times_two c in
    let c4 = times_two c2 in
    let c8 = times_two c4 in
    let c3 = bit_xor c2 c in
    let c5 = bit_xor c4 c in
    let c6 = bit_xor c4 c2 in
    let c7 = bit_xor c4 c3 in
    let c9 = bit_xor c8 c in
    let c10 = bit_xor c8 c2 in
    let c11 = bit_xor c8 c3 in
    let c12 = bit_xor c8 c4 in
    let c13 = bit_xor c8 c5 in
    let c14 = bit_xor c8 c6 in
    let c15 = bit_xor c8 c7 in
    let c17 = times_two c8 in
    let c18 = times_two c17 in
    let c19 = bit_xor c18 c17 in
    let c20 = times_two c18 in
    let c21 = bit_xor c20 c17 in
    let c22 = bit_xor c20 c18 in
    let c23 = bit_xor c20 c19 in
    let c24 = times_two c20 in
    let c25 = bit_xor c24 c17 in
    let c26 = bit_xor c24 c18 in
    let c27 = bit_xor c24 c19 in
    let c28 = bit_xor c24 c20 in
    let c29 = bit_xor c24 c21 in
    let c30 = bit_xor c24 c22 in
    let c31 = bit_xor c24 c23 in
    0 ∷ c ∷ c2 ∷ c3 ∷ c4 ∷ c5 ∷ c6 ∷ c7 ∷ c8 ∷ c9 ∷ c10 ∷ c11 ∷ c12 ∷ c13 ∷ c14 ∷ c15 ∷ 0 ∷ c17
    ∷ c18 ∷ c19 ∷ c20 ∷ c21 ∷ c22 ∷ c23 ∷ c24 ∷ c25 ∷ c26 ∷ c27 ∷ c28 ∷ c29 ∷ c30 ∷ c31 ∷ []

same : List ℕ → List ℕ → Bool
same [] [] = true
same [] (y ∷ ys) = false
same (x ∷ xs) [] = false
same (x ∷ xs) (y ∷ ys) = (x == y) && same xs ys

same_sound : (xs ys : List ℕ) → same xs ys ≡ true → xs ≡ ys
unfolding same
same_sound [] [] h = refl
same_sound [] (y ∷ ys) h = ground arith
same_sound (x ∷ xs) [] h = ground arith
same_sound (x ∷ xs) (y ∷ ys) h = ap₂ ◌∷◌ (ground arith) (same_sound xs ys (ground arith))

-- The products with 0, 1, … , 15 and with 0, 16, … , 240.
abbrev pub digit_products : ℕ → List ℕ
digit_products c = map (gf_mul c) (range 0 16) ++ map (λ i. gf_mul c (16 * i)) (range 0 16)

vect_table : all_below 256 (λ c. same (gf_vect_mul_init c) (digit_products c)) ≡ true
unfolding all_below gf_vect_mul_init same gf_mul times_two gf_base gf_log_base
vect_table = refl

-- For a byte `c`, gfVectMulInit fills its 32 bytes with the products, by gfMul, of `c` with the
-- numbers 0 to 15 and then with their multiples by 16.
pub gf_vect_mul_init-gf_mul : (c : ℕ) → c < 256 → gf_vect_mul_init c ≡ digit_products c
gf_vect_mul_init-gf_mul c h = same_sound _ _ (below_holds 256 _ c vect_table h)
