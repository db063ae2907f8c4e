-- ===== src/Erasure/Stripe.antt =====
-- The regions that encodeData computes with the rows of the encode and the decode matrix.
use libhdfs.Prelude.{
  ℕ, zero, suc, ◌≤◌, ◌≡◌, refl, ◌∙◌, sym, ap, ap₂, subst, arith, List, [], ◌∷◌, ◌++◌, map, length,
  length-replicate, replicate, take, length-take, Result, ok, throw, fault,
}
use libhdfs.Erasure.Field.{Byte, gf256}
use libhdfs.Erasure.Words.{mixed}
use libhdfs.Erasure.Encode.{products}
use libhdfs.Erasure.Tracked.{images}
use libhdfs.Erasure.Inverse.{AreRows, IsSingular}
use libhdfs.Erasure.Decode.{gen_cauchy_matrix, generate_decode_matrix}
use libhdfs.Erasure.Recover.{row, AllBelow}
use libhdfs.Erasure.Restore.{take-AllBelow, unit_of, Restores, generate_decode_matrix-Restores}
use libhdfs.Erasure.Solvable.{Differs, AllDifferent, cauchy_rows_regular}
use libhdfs.Erasure.Blend.{mix, blend, combination, unit_region, combination_units}
use libhdfs.Erasure.Cauchy.{
  gen_cauchy_matrix-AreRows, gen_cauchy_matrix-IsSystematic, length-gen_cauchy_matrix,
}

abbrev pub values : List Byte → List ℕ
values bs = map (λ b. b.0) bs

values-mix :
    (c : Byte) (xs ys : List Byte) → values (mix gf256 c xs ys) ≡ mixed c.0 (values xs) (values ys)
values-mix c [] ys = refl
values-mix c (x ∷ xs) [] = refl
values-mix c (x ∷ xs) (y ∷ ys) = ap₂ ◌∷◌ refl (values-mix c xs ys)

pub values-blend :
    (cs : List Byte) (xs : List (List Byte)) (acc : List Byte)
    → values (blend gf256 cs xs acc) ≡ products (values cs) (map values xs) (values acc)
values-blend [] xs acc = refl
values-blend (c ∷ cs) [] acc = refl
values-blend (c ∷ cs) (x ∷ xs) acc =
    values-blend cs xs (mix gf256 c x acc)
    ∙ ap (products (values cs) (map values xs)) (values-mix c x acc)

values-zeros : (n : ℕ) → values (replicate n gf256.zero_f) ≡ replicate n 0
values-zeros zero = refl
values-zeros (suc n) = ap (λ t. 0 ∷ t) (values-zeros n)

-- What the coder writes over zeros, from a row of coefficients and the regions of its inputs.
abbrev pub written : ℕ → List Byte → List (List ℕ) → List ℕ
written n cs regions = products (values cs) regions (replicate n 0)

written-combination :
    (n : ℕ) (cs : List Byte) (xs : List (List Byte))
    → values (combination gf256 n cs xs) ≡ written n cs (map values xs)
written-combination n cs xs =
    values-blend cs xs (replicate n gf256.zero_f)
    ∙ ap (products (values cs) (map values xs)) (values-zeros n)

-- The region of unit `x` of a stripe: what the encoder writes with row `x` of the encode matrix.
abbrev pub unit_bytes : ℕ → List (List Byte) → List (List Byte) → ℕ → List ℕ
unit_bytes n encode data_units x = written n (row gf256 encode x) (map values data_units)

abbrev pub RestoresRegions :
    ℕ → ℕ → List (List Byte) → List ℕ → List ℕ → Result (List (List Byte)) → Type 0
RestoresRegions k n encode read erased (ok rows) =
    AreRows gf256 k rows
    × ((data_units : List (List Byte))
        → length data_units ≡ k
        → AreRows gf256 n data_units
        → map (λ r. written n r (map (unit_bytes n encode data_units) read)) rows
          ≡ map (unit_bytes n encode data_units) erased)
RestoresRegions k n encode read erased (throw e) = ⊥
RestoresRegions k n encode read erased fault = ⊥

values_of_units :
    (n : ℕ) (encode data_units : List (List Byte)) (xs : List ℕ)
    → map values (map (unit_region gf256 n encode data_units) xs)
      ≡ map (unit_bytes n encode data_units) xs
values_of_units n encode data_units [] = refl
values_of_units n encode data_units (x ∷ xs) =
    ap₂ ◌∷◌ (written-combination n (row gf256 encode x) data_units)
      (values_of_units n encode data_units xs)

written_rows :
    (k n : ℕ) (encode data_units : List (List Byte)) (read erased : List ℕ)
    (rows : List (List Byte))
    → length data_units ≡ k
    → AreRows gf256 n data_units
    → ((d : List Byte)
        → length d ≡ k
        → images gf256 rows (map (unit_of gf256 encode d) read)
          ≡ map (unit_of gf256 encode d) erased)
    → map (λ r. written n r (map (unit_bytes n encode data_units) read)) rows
      ≡ map (unit_bytes n encode data_units) erased
written_rows k n encode data_units read [] [] l w h = refl
written_rows k n encode data_units read (x ∷ xs) [] l w h =
    absurd (omega (arith, ap length (h data_row size)))
  where
    data_row : List Byte
    data_row = replicate k gf256.zero_f

    size : length data_row ≡ k
    size = length-replicate k gf256.zero_f
written_rows k n encode data_units read [] (r ∷ rs) l w h =
    absurd
      (omega (arith, ap length (h (replicate k gf256.zero_f) (length-replicate k gf256.zero_f))))
written_rows k n encode data_units read (x ∷ xs) (r ∷ rs) l w h =
    ap₂ ◌∷◌
      (ap (written n r) (sym (values_of_units n encode data_units read))
        ∙ sym (written-combination n r (map (unit_region gf256 n encode data_units) read))
        ∙ ap values (
            combination_units gf256 n encode data_units w r read x
              (λ d e. ap (first gf256.zero_f) (h d (e ∙ l))))
        ∙ written-combination n (row gf256 encode x) data_units)
      (written_rows k n encode data_units read xs rs l w (λ d e. ap rest (h d e)))
  where
    first : Byte → List Byte → Byte
    first z [] = z
    first z (b ∷ bs) = b

    rest : List Byte → List Byte
    rest [] = []
    rest (b ∷ bs) = bs

Restores-RestoresRegions :
    (k n : ℕ) (encode : List (List Byte)) (read erased : List ℕ) (r : Result (List (List Byte)))
    → ¬ IsSingular gf256 k (map (row gf256 encode) read)
    → Restores gf256 k encode read erased r
    → RestoresRegions k n encode read erased r
Restores-RestoresRegions k n encode read erased (throw e) regular h = regular h.1
Restores-RestoresRegions k n encode read erased fault regular h = h
Restores-RestoresRegions k n encode read erased (ok rows) regular (w, h) =
    (w, λ data_units l ws. written_rows k n encode data_units read erased rows l ws h)

take-AllDifferent : (k : ℕ) (xs : List ℕ) → AllDifferent xs → AllDifferent (take k xs)
take-AllDifferent zero xs d = tt
take-AllDifferent (suc k) [] d = tt
take-AllDifferent (suc k) (x ∷ xs) (d, ds) = (take-Differs k xs d, take-AllDifferent k xs ds)
  where
    take-Differs : (k : ℕ) (xs : List ℕ) → Differs x xs → Differs x (take k xs)
    take-Differs zero xs d = tt
    take-Differs (suc k) [] d = tt
    take-Differs (suc k) (y ∷ ys) (d, ds) = (d, take-Differs k ys ds)

-- For the encode matrix of k data units among `all` units, of which there are at most 256, at least
-- k valid indexes below `all`, all different, and erased indexes that list data units before parity
-- units: generateDecodeMatrix returns (it neither throws nor reads out of bounds) rows of k
-- coefficients, and these, applied by the coder to the regions of the first k valid units of any
-- stripe, write the regions of its erased units, in order, where the region of a unit is what the
-- encoder writes with the unit's row.
pub generate_decode_matrix-RestoresRegions :
    (k all n : ℕ) (valid datas parities : List ℕ)
    → k ≤ all
    → all ≤ 256
    → k ≤ length valid
    → AllBelow all valid
    → AllDifferent valid
    → AllBelow k datas
    → AllBelow all parities
    → RestoresRegions k n (gen_cauchy_matrix all k) (take k valid) (datas ++ parities) (
        generate_decode_matrix gf256 k all
          (gen_cauchy_matrix all k)
          valid
          (length datas)
          (datas ++ parities))
generate_decode_matrix-RestoresRegions k all n valid datas parities h small h' b d c c' =
    let encode = gen_cauchy_matrix all k in
    let size = sym (length-gen_cauchy_matrix all k h) in
    let width : length (take k valid) ≡ k = omega (arith, length-take k valid) in
    Restores-RestoresRegions k n encode (take k valid) (datas ++ parities) _
      (cauchy_rows_regular k all (take k valid) small h width (take-AllBelow all k valid b)
        (take-AllDifferent k valid d))
      (generate_decode_matrix-Restores gf256 k all encode valid datas parities
        (gen_cauchy_matrix-IsSystematic all k) (gen_cauchy_matrix-AreRows all k) h'
        (subst (λ t. AllBelow t valid) size b) c (subst (λ t. AllBelow t parities) size c'))
