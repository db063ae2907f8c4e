-- ===== src/Erasure/Restore.antt =====
-- generateDecodeMatrix of src/client/RawErasureDecoder.cpp restores the units that are erased.
use libhdfs.Prelude.{
  leb, true, ℕ, zero, suc, ◌-◌, ◌≤◌, ◌<◌, ◌≡◌, refl, ◌∙◌, sym, ap, ap₂, subst, arith, List, [], ◌∷◌,
  ◌++◌, map, range, length, length-append, length-map, length-replicate, length-take, length-range,
  take_front, drop_front, replicate, take, Result, ok, throw, fault, ◌>>=◌, hdfs_exception,
}
use mathlib.Core.List.{map-append}
use libhdfs.Erasure.Field.{Field}
use libhdfs.Erasure.Matrix.{at, unit_row, gf_invert_matrix}
use libhdfs.Erasure.Vectors.{dot, dot-unit_row}
use libhdfs.Erasure.Tracked.{images}
use libhdfs.Erasure.Inverse.{AreRows, IsSingular, IsInverse, Inverts}
use libhdfs.Erasure.Loop.{gf_invert_matrix-Inverts}
use libhdfs.Erasure.Decode.{parity_row, decode_rows, generate_decode_matrix}
use libhdfs.Erasure.Recover.{AllBelow, row, rows_at-map, dot-parity_row}

below_mono : (n m : ℕ) (is : List ℕ) → n ≤ m → AllBelow n is → AllBelow m is
below_mono n m [] h b = tt
below_mono n m (i ∷ is) h (b, bs) = (omega arith, below_mono n m is h bs)

pub take-AllBelow : (n k : ℕ) (is : List ℕ) → AllBelow n is → AllBelow n (take k is)
take-AllBelow n zero is h = tt
take-AllBelow n (suc k) [] h = tt
take-AllBelow n (suc k) (i ∷ is) (h, hs) = (h, take-AllBelow n k is hs)

module _ (f : Field) where
  open f use {F, zero_f, one_f}

  -- The units of a stripe whose data is `d`: those of the data, then the parity.
  abbrev pub unit_of : List (List F) → List F → ℕ → F
  unit_of encode d x = dot f (row f encode x) d

  -- The first rows of the encode matrix are the unit rows.
  abbrev pub IsSystematic : ℕ → List (List F) → Type 0
  IsSystematic k encode = (x : ℕ) → x < k → row f encode x ≡ unit_row f k x

  -- What the decode matrix is for: applied to the units that were read, its rows of `k`
  -- entries give the erased ones.
  abbrev pub Restores : ℕ → List (List F) → List ℕ → List ℕ → Result (List (List F)) → Type 0
  Restores k encode read erased (ok rows) =
      AreRows f k rows
      × ((d : List F)
          → length d ≡ k
          → images f rows (map (unit_of encode d) read) ≡ map (unit_of encode d) erased)
  Restores k encode read erased (throw e) =
      (e ≡ hdfs_exception) × IsSingular f k (map (row f encode) read)
  Restores k encode read erased fault = ⊥

  images_rows :
      (encode : List (List F)) (d : List F) (is : List ℕ)
      → images f (map (row f encode) is) d ≡ map (unit_of encode d) is
  images_rows encode d [] = refl
  images_rows encode d (i ∷ is) = ap (λ t. unit_of encode d i ∷ t) (images_rows encode d is)

  images_append :
      (xs ys : List (List F)) (v : List F) → images f (xs ++ ys) v ≡ images f xs v ++ images f ys v
  images_append [] ys v = refl
  images_append (x ∷ xs) ys v = ap (λ t. dot f x v ∷ t) (images_append xs ys v)

  image_count : (xs : List (List F)) (d : List F) → length (images f xs d) ≡ length xs
  image_count [] d = refl
  image_count (x ∷ xs) d = ap suc (image_count xs d)

  image_of_row :
      (m more : List (List F)) (v : List F) (x : ℕ)
      → x < length m
      → dot f (row f (m ++ more) x) v ≡ at f (images f m v) x
  image_of_row [] more v x h = absurd (omega arith)
  image_of_row (r ∷ rs) more v zero h = refl
  image_of_row (r ∷ rs) more v (suc x) h = image_of_row rs more v x (omega arith)

  append-AreRows :
      (k : ℕ) (xs ys : List (List F)) → AreRows f k xs → AreRows f k ys → AreRows f k (xs ++ ys)
  append-AreRows k [] ys h h' = h'
  append-AreRows k (x ∷ xs) ys (h, hs) h' = (h, append-AreRows k xs ys hs h')

  zeros-AreRows : (k n : ℕ) → AreRows f k (replicate n (replicate k zero_f))
  zeros-AreRows k zero = tt
  zeros-AreRows k (suc n) = (length-replicate k zero_f, zeros-AreRows k n)

  parities-AreRows :
      (k : ℕ) (inverse rs : List (List F)) → AreRows f k (map (parity_row f k inverse) rs)
  parities-AreRows k inverse [] = tt
  parities-AreRows k inverse (r ∷ rs) =
      (length-map (range 0 k) _ ∙ length-range 0 k, parities-AreRows k inverse rs)

  selected-AreRows :
      (k : ℕ) (encode : List (List F)) (is : List ℕ)
      → AreRows f k encode
      → AllBelow (length encode) is
      → AreRows f k (map (row f encode) is)
  selected-AreRows k encode [] w h = tt
  selected-AreRows k encode (i ∷ is) w (h, hs) =
      (row_width encode i w h, selected-AreRows k encode is w hs)
    where
      row_width :
          (m : List (List F)) (i : ℕ) → AreRows f k m → i < length m → length (row f m i) ≡ k
      row_width [] i w h = absurd (omega arith)
      row_width (r ∷ rs) zero (w, ws) h = w
      row_width (r ∷ rs) (suc i) (w, ws) h = row_width rs i ws (omega arith)

  module _ (k : ℕ) (encode : List (List F)) (read : List ℕ) (systematic : IsSystematic k encode)
      (size : length read ≡ k) where
    -- The inverse takes the units that were read to the data.
    read_back :
        (inverse : List (List F)) (d : List F)
        → IsInverse f k (map (row f encode) read) inverse
        → length d ≡ k
        → images f inverse (map (unit_of encode d) read) ≡ d
    read_back inverse d h l = ap (images f inverse) (sym (images_rows encode d read)) ∙ h d l

    data_units :
        (inverse more : List (List F)) (d : List F) (datas : List ℕ)
        → IsInverse f k (map (row f encode) read) inverse
        → length inverse ≡ k
        → length d ≡ k
        → AllBelow k datas
        → images f (map (row f (inverse ++ more)) datas) (map (unit_of encode d) read)
          ≡ map (unit_of encode d) datas
    data_units inverse more d [] h n l b = refl
    data_units inverse more d (x ∷ xs) h n l (b, bs) =
        ap₂ ◌∷◌
          (image_of_row inverse more (map (unit_of encode d) read) x (omega arith)
            ∙ ap (λ t. at f t x) (read_back inverse d h l)
            ∙ sym (dot-unit_row f k x d b)
            ∙ ap (λ t. dot f t d) (sym (systematic x b)))
          (data_units inverse more d xs h n l bs)

    parity_units :
        (inverse : List (List F)) (d : List F) (parities : List ℕ)
        → IsInverse f k (map (row f encode) read) inverse
        → length d ≡ k
        → images f
            (map (parity_row f k inverse) (map (row f encode) parities))
            (map (unit_of encode d) read)
          ≡ map (unit_of encode d) parities
    parity_units inverse d [] h l = refl
    parity_units inverse d (x ∷ xs) h l =
        ap₂ ◌∷◌
          (dot-parity_row f k inverse (row f encode x) (map (unit_of encode d) read)
              (omega (arith, length-map read (unit_of encode d)))
            ∙ ap (dot f (row f encode x)) (read_back inverse d h l))
          (parity_units inverse d xs h l)

    length_inverse :
        (inverse : List (List F))
        → IsInverse f k (map (row f encode) read) inverse
        → length inverse ≡ k
    length_inverse inverse h =
        let d = replicate k zero_f in
        let l = length-replicate k zero_f in
        omega (arith, ap length (h d l), image_count inverse (images f (map (row f encode) read) d))

    decode_rows-Restores :
        (all : ℕ) (datas parities : List ℕ) (r : Result (List (List F)))
        → Inverts f k (map (row f encode) read) r
        → AllBelow k datas
        → AllBelow (length encode) parities
        → Restores k encode read
            (datas ++ parities)
            (r >>= decode_rows f k all encode (length datas) (datas ++ parities))
    unfolding decode_rows
    decode_rows-Restores all datas parities (throw e) h b c = h
    decode_rows-Restores all datas parities fault h b c = elim h [ ]
    decode_rows-Restores all datas parities (ok inverse) (h, w) b c =
        let n = length_inverse inverse h in
        let more = replicate (all - k) (replicate k zero_f) in
        let wide : AllBelow (length (inverse ++ more)) datas =
          below_mono k (length (inverse ++ more)) datas (omega (arith, length-append inverse more))
            b in
        let units = map (row f (inverse ++ more)) datas in
        let others = map (parity_row f k inverse) (map (row f encode) parities) in
        let result : decode_rows f k all encode (length datas) (datas ++ parities) inverse
            ≡ ok (units ++ others) =
          rw
            (
              take_front datas parities,
              drop_front datas parities,
              rows_at-map f (inverse ++ more) datas wide,
              rows_at-map f encode parities c,
            )
            refl in
        subst (Restores k encode read (datas ++ parities)) (sym result) (
          append-AreRows k units others
              (selected-AreRows k (inverse ++ more) datas
                (append-AreRows k inverse more w (zeros-AreRows k (all - k))) wide)
              (parities-AreRows k inverse (map (row f encode) parities)),
          λ d l.
              images_append units others (map (unit_of encode d) read)
              ∙ ap₂ ◌++◌ (data_units inverse more d datas h n l b)
                  (parity_units inverse d parities h l)
              ∙ sym (map-append (unit_of encode d) datas parities),
        )

  -- Let the encode matrix have rows of k entries, of which the first k are those of the identity,
  -- and let there be at least k valid indexes. For erased indexes that list data units (below k)
  -- before the others, generateDecodeMatrix returns a matrix which, applied to the first k valid
  -- units of any stripe, gives the erased units of this stripe in order; or it throws
  -- HdfsException, and then the encode rows of those k units are singular.
  pub generate_decode_matrix-Restores :
      (k all : ℕ) (encode : List (List F)) (valid datas parities : List ℕ)
      → IsSystematic k encode
      → AreRows f k encode
      → k ≤ length valid
      → AllBelow (length encode) valid
      → AllBelow k datas
      → AllBelow (length encode) parities
      → Restores k encode
          (take k valid)
          (datas ++ parities)
          (generate_decode_matrix f k all encode valid (length datas) (datas ++ parities))
  unfolding generate_decode_matrix
  generate_decode_matrix-Restores k all encode valid datas parities systematic w h b c c' =
      let read = take k valid in
      let below = take-AllBelow (length encode) k valid b in
      let size : length read ≡ k = omega (arith, length-take k valid) in
      let matrix = map (row f encode) read in
      let whole = decode_rows f k all encode (length datas) (datas ++ parities) in
      let fits : leb k (length valid) ≡ true = ground arith in
      let start : generate_decode_matrix f k all encode valid (length datas) (datas ++ parities)
          ≡ (gf_invert_matrix f k matrix >>= whole) =
        rw (generate_decode_matrix, fits, rows_at-map f encode read below) refl in
      subst (Restores k encode read (datas ++ parities)) (sym start) (
        decode_rows-Restores k encode read systematic size all datas parities
          (gf_invert_matrix f k matrix)
          (gf_invert_matrix-Inverts f k matrix (length-map read (row f encode) ∙ size)
            (selected-AreRows k encode read w below))
          c c')
