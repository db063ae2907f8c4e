-- ===== src/Erasure/Decode.antt =====
-- genCauchyMatrix of src/client/RSUtil.cpp and generateDecodeMatrix of
-- src/client/RawErasureDecoder.cpp. The encode matrix is the list of its rows.
use libhdfs.Prelude.{
  leb, if◌then◌else◌, ℕ, zero, suc, ◌-◌, ◌%◌, arith, List, [], ◌∷◌, ◌++◌, map, range, length,
  replicate, take, drop, Result, ok, fault, ◌>>=◌,
}
use Prim.Native.Nat.{bit_xor}
use native.Mathlib.Nat.{mod-lt}
use libhdfs.Erasure.Field.{Field, Byte, gf256}
use libhdfs.Erasure.Matrix.{at, unit_row, gf_invert_matrix}

-- `static_cast<int8_t>`
abbrev pub to_byte : ℕ → Byte
to_byte n = (n % 256, mod-lt n (omega arith))

abbrev pub cauchy_row : ℕ → ℕ → List Byte
cauchy_row k i = map (λ j. gf256.inv (to_byte (bit_xor i j))) (range 0 k)

unfoldable pub gen_cauchy_matrix : ℕ → ℕ → List (List Byte)
gen_cauchy_matrix m k = map (unit_row gf256 k) (range 0 k) ++ map (cauchy_row k) (range k (m - k))

module _ (f : Field) where
  open f use {F, zero_f, add, mul}

  -- Row `i` of a matrix; a read past its end is undefined.
  unfoldable pub row_at : List (List F) → ℕ → Result (List F)
  row_at [] i = fault
  row_at (r ∷ rs) zero = ok r
  row_at (r ∷ rs) (suc i) = row_at rs i

  unfoldable pub rows_at : List (List F) → List ℕ → Result (List (List F))
  rows_at m [] = ok []
  rows_at m (i ∷ is) = row_at m i >>= λ r. rows_at m is >>= λ rs. ok (r ∷ rs)

  -- `s ^= gfMul(invertMatrix[j * n + i], encodeMatrix[n * erasedIndexes[p] + j])`, for each `j`.
  unfoldable pub sum_products : ℕ → List F → List (List F) → F → F
  sum_products i [] rs s = s
  sum_products i (e ∷ es) [] s = s
  sum_products i (e ∷ es) (r ∷ rs) s = sum_products i es rs (add s (mul (at f r i) e))

  abbrev pub parity_row : ℕ → List (List F) → List F → List F
  parity_row k inverse e = map (λ i. sum_products i e inverse zero_f) (range 0 k)

  -- `invertMatrix` has numAllUnits rows, of which the inversion fills the first.
  unfoldable pub decode_rows :
      ℕ → ℕ → List (List F) → ℕ → List ℕ → List (List F) → Result (List (List F))
  decode_rows k all encode num_erased erased inverse =
      rows_at (inverse ++ replicate (all - k) (replicate k zero_f)) (take num_erased erased)
      >>= λ units. rows_at encode (drop num_erased erased) >>= λ parities.
          ok (units ++ map (parity_row k inverse) parities)

  -- The rows of decodeMatrix, one for each erased index.
  unfoldable pub generate_decode_matrix :
      ℕ → ℕ → List (List F) → List ℕ → ℕ → List ℕ → Result (List (List F))
  generate_decode_matrix k all encode valid num_erased erased =
      if leb k (length valid)
      then (rows_at encode (take k valid) >>= λ matrix.
          gf_invert_matrix f k matrix >>= decode_rows k all encode num_erased erased)
      else fault
