-- ===== src/Erasure/Cauchy.antt =====
-- The matrix of genCauchyMatrix in src/client/RSUtil.cpp.
use libhdfs.Prelude.{
  ℕ, zero, suc, ◌+◌, ◌-◌, ◌≤◌, ◌<◌, ◌≡◌, refl, ◌∙◌, ap, arith, List, [], ◌∷◌, ◌++◌, map, range,
  length, length-append, length-map, length-range,
}
use libhdfs.Erasure.Field.{Byte, gf256}
use libhdfs.Erasure.Matrix.{unit_row}
use libhdfs.Erasure.Vectors.{length-unit_row}
use libhdfs.Erasure.Inverse.{AreRows}
use libhdfs.Erasure.Decode.{cauchy_row, gen_cauchy_matrix}
use libhdfs.Erasure.Recover.{row}
use libhdfs.Erasure.Restore.{IsSystematic}

append-AreRows :
    (k : ℕ) (xs ys : List (List Byte))
    → AreRows gf256 k xs
    → AreRows gf256 k ys
    → AreRows gf256 k (xs ++ ys)
append-AreRows k [] ys h h' = h'
append-AreRows k (x ∷ xs) ys (h, hs) h' = (h, append-AreRows k xs ys hs h')

pub family-AreRows :
    (k : ℕ) (g : ℕ → List Byte)
    → ((i : ℕ) → length (g i) ≡ k)
    → (a n : ℕ) → AreRows gf256 k (map g (range a n))
family-AreRows k g h a zero = tt
family-AreRows k g h a (suc n) = (h a, family-AreRows k g h (a + 1) n)

row_of_family :
    (g : ℕ → List Byte) (a n x : ℕ) (more : List (List Byte))
    → x < n
    → row gf256 (map g (range a n) ++ more) x ≡ g (a + x)
row_of_family g a zero x more h = absurd (omega arith)
row_of_family g a (suc n) zero more h = let e : a + 0 ≡ a = omega arith in rw e refl
row_of_family g a (suc n) (suc x) more h =
    let e : a + 1 + x ≡ a + suc x = omega arith in
    row_of_family g (a + 1) n x more (omega arith) ∙ ap g e

pub gen_cauchy_matrix-AreRows : (m k : ℕ) → AreRows gf256 k (gen_cauchy_matrix m k)
unfolding gen_cauchy_matrix
gen_cauchy_matrix-AreRows m k =
    append-AreRows k (map (unit_row gf256 k) (range 0 k)) (map (cauchy_row k) (range k (m - k)))
      (family-AreRows k (unit_row gf256 k) (length-unit_row gf256 k) 0 k)
      (family-AreRows k (cauchy_row k) (λ i. length-map (range 0 k) _ ∙ length-range 0 k) k (m - k))

pub gen_cauchy_matrix-IsSystematic : (m k : ℕ) → IsSystematic gf256 k (gen_cauchy_matrix m k)
unfolding gen_cauchy_matrix
gen_cauchy_matrix-IsSystematic m k x h =
    let e : 0 + x ≡ x = omega arith in
    row_of_family (unit_row gf256 k) 0 k x (map (cauchy_row k) (range k (m - k))) h
    ∙ ap (unit_row gf256 k) e

pub length-gen_cauchy_matrix : (m k : ℕ) → k ≤ m → length (gen_cauchy_matrix m k) ≡ m
unfolding gen_cauchy_matrix
length-gen_cauchy_matrix m k h = omega (
  arith,
  length-append (map (unit_row gf256 k) (range 0 k)) (map (cauchy_row k) (range k (m - k))),
  length-map (range 0 k) (unit_row gf256 k),
  length-map (range k (m - k)) (cauchy_row k),
  length-range 0 k,
  length-range k (m - k),
)

row_past :
    (xs ys : List (List Byte)) (i : ℕ) → row gf256 (xs ++ ys) (length xs + i) ≡ row gf256 ys i
row_past [] ys i = let e : 0 + i ≡ i = omega arith in rw e refl
row_past (x ∷ xs) ys i =
    let e : suc (length xs) + i ≡ suc (length xs + i) = omega arith in rw e (row_past xs ys i)

row_in_family :
    (g : ℕ → List Byte) (a n x : ℕ) → x < n → row gf256 (map g (range a n)) x ≡ g (a + x)
row_in_family g a zero x h = absurd (omega arith)
row_in_family g a (suc n) zero h = let e : a + 0 ≡ a = omega arith in rw e refl
row_in_family g a (suc n) (suc x) h =
    let e : a + 1 + x ≡ a + suc x = omega arith in
    row_in_family g (a + 1) n x (omega arith) ∙ ap g e

pub gen_cauchy_matrix-cauchy_row :
    (m k x : ℕ) → k ≤ x → x < m → row gf256 (gen_cauchy_matrix m k) x ≡ cauchy_row k x
unfolding gen_cauchy_matrix
gen_cauchy_matrix-cauchy_row m k x h h' =
    let firsts = map (unit_row gf256 k) (range 0 k) in
    let l : length firsts ≡ k = length-map (range 0 k) (unit_row gf256 k) ∙ length-range 0 k in
    let e : x ≡ length firsts + (x - k) = omega arith in
    let e' : k + (x - k) ≡ x = omega arith in
    ap (row gf256 (firsts ++ map (cauchy_row k) (range k (m - k)))) e
    ∙ row_past firsts (map (cauchy_row k) (range k (m - k))) (x - k)
    ∙ row_in_family (cauchy_row k) k (m - k) (x - k) (omega arith)
    ∙ ap (cauchy_row k) e'
