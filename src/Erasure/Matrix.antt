-- ===== src/Erasure/Matrix.antt =====
-- gfInvertMatrix of src/client/GF256.cpp, over any field in which an element is its own negative.
--
-- A matrix is the list of its rows: `inMatrix[i * n + k]` is entry `k` of row `i`. The rows of the two
-- matrices go together, as every step does the same to both. In round `i` the rows below `i` are
-- `done`, and row `i` is the first of the others.
use libhdfs.Prelude.{
  ℕ, zero, suc, ◌+◌, if◌then◌else◌, List, [], ◌∷◌, ◌++◌, map, get_or, replicate, Option, none, some,
  Result, ok, throw, fault, ◌>>=◌, hdfs_exception,
}
use libhdfs.Erasure.Field.{Field}

module _ (f : Field) where
  open f use {F, zero_f, one_f, add, mul, inv, is_zero}

  -- A row of `inMatrix` and the row of `outMatrix`.
  abbrev pub Row : Type 0
  Row = List F × List F

  abbrev pub at : List F → ℕ → F
  at xs k = get_or xs k zero_f

  unfoldable pub unit_row : ℕ → ℕ → List F
  unit_row zero i = []
  unit_row (suc n) zero = one_f ∷ replicate n zero_f
  unit_row (suc n) (suc i) = zero_f ∷ unit_row n i

  -- Both matrices, from row `i` on, where `outMatrix` is the identity.
  unfoldable pub start_rows : ℕ → ℕ → List (List F) → List Row
  start_rows n i [] = []
  start_rows n i (r ∷ rs) = (r, unit_row n i) ∷ start_rows n (i + 1) rs

  abbrev pub behind : Row → Option (Row × List Row) → Option (Row × List Row)
  behind s none = none
  behind s (some (p, ts)) = some (p, s ∷ ts)

  -- The first row with an entry in column `i` changes places with row `r`.
  unfoldable pub swap_pivot : ℕ → Row → List Row → Option (Row × List Row)
  swap_pivot i r [] = none
  swap_pivot i r (s ∷ ss) =
      let rest = behind s (swap_pivot i r ss) in
      if is_zero (at s.0 i) then rest else some (s, r ∷ ss)

  unfoldable pub choose_pivot : ℕ → Row → List Row → Option (Row × List Row)
  choose_pivot i r rs = if is_zero (at r.0 i) then swap_pivot i r rs else some (r, rs)

  unfoldable pub scale : F → List F → List F
  scale t xs = map (λ x. mul x t) xs

  unfoldable pub scale_row : F → Row → Row
  scale_row t r = (scale t r.0, scale t r.1)

  -- `x ^= gfMul(temp, y)` along two rows.
  unfoldable pub add_multiple : F → List F → List F → List F
  add_multiple temp [] ys = []
  add_multiple temp (x ∷ xs) [] = x ∷ xs
  add_multiple temp (x ∷ xs) (y ∷ ys) = add x (mul temp y) ∷ add_multiple temp xs ys

  unfoldable pub eliminate : ℕ → Row → Row → Row
  eliminate i p r = let temp = at r.0 i in (add_multiple temp r.0 p.0, add_multiple temp r.1 p.1)

  unfoldable pub with_pivot :
      Option (Row × List Row) → (Row → List Row → Result (List Row)) → Result (List Row)
  with_pivot none rest = throw hdfs_exception
  with_pivot (some (p, ss)) rest = rest p ss

  -- The rounds that are left.
  unfoldable pub invert_rows : ℕ → ℕ → List Row → List Row → Result (List Row)
  invert_rows zero i done todo = ok done
  invert_rows (suc rounds) i done [] = fault
  invert_rows (suc rounds) i done (r ∷ rs) = with_pivot (choose_pivot i r rs) (λ p ss.
      let q = scale_row (inv (at p.0 i)) p in
      invert_rows rounds (i + 1) (map (eliminate i q) done ++ (q ∷ [])) (map (eliminate i q) ss))

  unfoldable pub gf_invert_matrix : ℕ → List (List F) → Result (List (List F))
  gf_invert_matrix n matrix =
      invert_rows n 0 [] (start_rows n 0 matrix) >>= λ rows. ok (map (λ r. r.1) rows)
