-- ===== src/Erasure/Blend.antt =====
-- Rows of coefficients applied to whole regions, byte by byte, over a field.
use libhdfs.Prelude.{
  ℕ, zero, suc, ◌<◌, ◌≡◌, refl, ◌∙◌, sym, ap, ap₂, arith, List, [], ◌∷◌, map, length,
  length-replicate, replicate,
}
use libhdfs.Erasure.Field.{Field}
use libhdfs.Erasure.Matrix.{at}
use libhdfs.Erasure.Vectors.{dot, zero_add}
use libhdfs.Erasure.Inverse.{AreRows}
use libhdfs.Erasure.Restore.{unit_of}
use libhdfs.Erasure.Recover.{row}

module _ (f : Field) where
  open f use {F, zero_f, add, mul, add_zero, add_assoc}

  abbrev pub mix : F → List F → List F → List F
  mix c [] ys = []
  mix c (x ∷ xs) [] = []
  mix c (x ∷ xs) (y ∷ ys) = add y (mul c x) ∷ mix c xs ys

  abbrev pub blend : List F → List (List F) → List F → List F
  blend [] xs acc = acc
  blend (c ∷ cs) [] acc = acc
  blend (c ∷ cs) (x ∷ xs) acc = blend cs xs (mix c x acc)

  abbrev pub column : ℕ → List (List F) → List F
  column t xs = map (λ x. at f x t) xs

  length-mix : (c : F) (xs ys : List F) → length xs ≡ length ys → length (mix c xs ys) ≡ length ys
  length-mix c [] [] e = refl
  length-mix c [] (y ∷ ys) e = absurd (omega arith)
  length-mix c (x ∷ xs) [] e = absurd (omega arith)
  length-mix c (x ∷ xs) (y ∷ ys) e = ap suc (length-mix c xs ys (omega arith))

  at-mix :
      (c : F) (xs ys : List F) (t : ℕ)
      → length xs ≡ length ys
      → t < length ys
      → at f (mix c xs ys) t ≡ add (at f ys t) (mul c (at f xs t))
  at-mix c xs [] t e h = absurd (omega arith)
  at-mix c [] (y ∷ ys) t e h = absurd (omega arith)
  at-mix c (x ∷ xs) (y ∷ ys) zero e h = refl
  at-mix c (x ∷ xs) (y ∷ ys) (suc t) e h = at-mix c xs ys t (omega arith) (omega arith)

  pub length-blend :
      (n : ℕ) (cs : List F) (xs : List (List F)) (acc : List F)
      → AreRows f n xs
      → length acc ≡ n
      → length (blend cs xs acc) ≡ n
  length-blend n [] xs acc w e = e
  length-blend n (c ∷ cs) [] acc w e = e
  length-blend n (c ∷ cs) (x ∷ xs) acc (w, ws) e =
      length-blend n cs xs (mix c x acc) ws (length-mix c x acc (w ∙ sym e) ∙ e)

  at-blend :
      (n : ℕ) (cs : List F) (xs : List (List F)) (acc : List F) (t : ℕ)
      → AreRows f n xs
      → length acc ≡ n
      → t < n
      → at f (blend cs xs acc) t ≡ add (at f acc t) (dot f cs (column t xs))
  at-blend n [] xs acc t w e h = sym (add_zero (at f acc t))
  at-blend n (c ∷ cs) [] acc t w e h = sym (add_zero (at f acc t))
  at-blend n (c ∷ cs) (x ∷ xs) acc t (w, ws) e h =
      at-blend n cs xs (mix c x acc) t ws (length-mix c x acc (w ∙ sym e) ∙ e) h
      ∙ ap (λ q. add q (dot f cs (column t xs))) (at-mix c x acc t (w ∙ sym e) (omega arith))
      ∙ add_assoc (at f acc t) (mul c (at f x t)) (dot f cs (column t xs))

  at-replicate : (n t : ℕ) → at f (replicate n zero_f) t ≡ zero_f
  at-replicate zero t = refl
  at-replicate (suc n) zero = refl
  at-replicate (suc n) (suc t) = at-replicate n t

  -- Into zeros.
  abbrev pub combination : ℕ → List F → List (List F) → List F
  combination n cs xs = blend cs xs (replicate n zero_f)

  pub at-combination :
      (n : ℕ) (cs : List F) (xs : List (List F)) (t : ℕ)
      → AreRows f n xs
      → t < n
      → at f (combination n cs xs) t ≡ dot f cs (column t xs)
  at-combination n cs xs t w h =
      at-blend n cs xs (replicate n zero_f) t w (length-replicate n zero_f) h
      ∙ ap (λ q. add q (dot f cs (column t xs))) (at-replicate n t)
      ∙ zero_add f (dot f cs (column t xs))

  pub length-combination :
      (n : ℕ) (cs : List F) (xs : List (List F)) → AreRows f n xs → length (combination n cs xs) ≡ n
  length-combination n cs xs w =
      length-blend n cs xs (replicate n zero_f) w (length-replicate n zero_f)

  -- Lists of one length are equal if their entries are.
  same_entries :
      (xs ys : List F)
      → length xs ≡ length ys
      → ((t : ℕ) → t < length xs → at f xs t ≡ at f ys t)
      → xs ≡ ys
  same_entries [] [] e h = refl
  same_entries [] (y ∷ ys) e h = absurd (omega arith)
  same_entries (x ∷ xs) [] e h = absurd (omega arith)
  same_entries (x ∷ xs) (y ∷ ys) e h =
      ap₂ ◌∷◌ (h 0 (omega arith))
        (same_entries xs ys (omega arith) (λ t l. h (suc t) (omega arith)))

  -- The region of unit `x` of the stripe with the data regions `data_units`.
  abbrev pub unit_region : ℕ → List (List F) → List (List F) → ℕ → List F
  unit_region n encode data_units x = combination n (row f encode x) data_units

  module _ (n : ℕ) (encode data_units : List (List F)) (w : AreRows f n data_units) where
    units-AreRows : (xs : List ℕ) → AreRows f n (map (unit_region n encode data_units) xs)
    units-AreRows [] = tt
    units-AreRows (x ∷ xs) = (length-combination n (row f encode x) data_units w, units-AreRows xs)

    column_units :
        (t : ℕ)
        → t < n
        → (xs : List ℕ)
        → column t (map (unit_region n encode data_units) xs)
          ≡ map (unit_of f encode (column t data_units)) xs
    column_units t h [] = refl
    column_units t h (x ∷ xs) =
        ap₂ ◌∷◌ (at-combination n (row f encode x) data_units t w h) (column_units t h xs)

    -- What holds of a row for each byte holds for the regions.
    pub combination_units :
        (cs : List F) (read : List ℕ) (x : ℕ)
        → ((d : List F)
            → length d ≡ length data_units
            → dot f cs (map (unit_of f encode d) read) ≡ unit_of f encode d x)
        → combination n cs (map (unit_region n encode data_units) read)
          ≡ unit_region n encode data_units x
    combination_units cs read x h =
        let ws = units-AreRows read in
        let l = length-combination n cs (map (unit_region n encode data_units) read) ws in
        let m = length-combination n (row f encode x) data_units w in
        same_entries _ _ (l ∙ sym m) (λ t k.
          let lt : t < n = omega arith in
          at-combination n cs (map (unit_region n encode data_units) read) t ws lt
          ∙ ap (dot f cs) (column_units t lt read)
          ∙ h (column t data_units) (length_column t data_units)
          ∙ sym (at-combination n (row f encode x) data_units t w lt))
      where
        length_column : (t : ℕ) (xs : List (List F)) → length (column t xs) ≡ length xs
        length_column t [] = refl
        length_column t (x ∷ xs) = ap suc (length_column t xs)
