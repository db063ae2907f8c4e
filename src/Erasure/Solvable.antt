-- ===== src/Erasure/Solvable.antt =====
-- Any k different rows of the matrix of genCauchyMatrix are invertible.
use libhdfs.Prelude.{
  ℕ, zero, suc, ◌+◌, ◌≤◌, ◌<◌, ◌≡◌, ◌≢◌, refl, ◌∙◌, sym, ap, arith, ltb, ◌==◌, ==_iff, Bool-cases,
  ◌⊎◌, inl, inr, List, [], ◌∷◌, map, range, length, length-map, length-range,
}
use libhdfs.Erasure.Field.{Byte, gf256}
use libhdfs.Erasure.Matrix.{at}
use libhdfs.Erasure.Vectors.{dot, dot-unit_row}
use libhdfs.Erasure.Inverse.{IsKernel, IsSingular}
use libhdfs.Erasure.Decode.{to_byte, gen_cauchy_matrix}
use libhdfs.Erasure.Recover.{AllBelow, row}
use libhdfs.Erasure.Cauchy.{gen_cauchy_matrix-IsSystematic, gen_cauchy_matrix-cauchy_row}
use libhdfs.Erasure.Kernel.{Apart, AllApart, Distinct, Vanish, AreZero, cauchy_kernel}
use libhdfs.Erasure.Points.{
  points_apart, removed, In, length-removed, removed-In, points, removed-Distinct, column_sum,
  removed-column_sum, removed-AllBelow, range-AllBelow, range-In, range-Distinct, dot-cauchy_row,
}

abbrev pub Differs : ℕ → List ℕ → Type 0
Differs x [] = Unit
Differs x (y ∷ ys) = (x ≢ y) × Differs x ys

-- No index twice.
abbrev pub AllDifferent : List ℕ → Type 0
AllDifferent [] = Unit
AllDifferent (x ∷ xs) = Differs x xs × AllDifferent xs

module _ (k all : ℕ) (small : all ≤ 256) (fits : k ≤ all) (v : List Byte)
    (size : length v ≡ k) where
  -- Each index of a data unit is still among the columns.
  abbrev AreLeft : List ℕ → List ℕ → Type 0
  AreLeft [] cols = Unit
  AreLeft (x ∷ xs) cols = (x < k → In x cols) × AreLeft xs cols

  abbrev Unmet : List ℕ → List ℕ → Type 0
  Unmet [] pars = Unit
  Unmet (x ∷ xs) pars = Differs x pars × Unmet xs pars

  abbrev AreParities : List ℕ → Type 0
  AreParities [] = Unit
  AreParities (p ∷ ps) =
      (k ≤ p) × (p < 256) × (column_sum v (to_byte p) (range 0 k) ≡ gf256.zero_f) × AreParities ps

  -- The columns and the parity rows that are left when the indexes `rest` are still to come.
  record Solving (rest cols pars : List ℕ) : Type 0 where
    kernel : IsKernel gf256 (map (row gf256 (gen_cauchy_matrix all k)) rest) v
    below : AllBelow all rest
    data_left : AreLeft rest cols
    different : AllDifferent rest
    unmet : Unmet rest pars
    count : length cols ≤ length pars + length rest
    cols_below : AllBelow k cols
    cols_distinct : Distinct gf256 (points cols)
    parities : AreParities pars
    pars_different : AllDifferent pars
    sums : (p : Byte) → column_sum v p cols ≡ column_sum v p (range 0 k)
    zeros : (j : ℕ) → j < k → (at gf256 v j ≡ gf256.zero_f) ⊎ In j cols

  removed-AreLeft :
      (x : ℕ) (rest cols : List ℕ)
      → Differs x rest
      → AreLeft rest cols
      → AreLeft rest (removed x cols)
  removed-AreLeft x [] cols d h = tt
  removed-AreLeft x (y ∷ ys) cols (d, ds) (h, hs) =
      (λ lt. removed-In x y cols d (h lt), removed-AreLeft x ys cols ds hs)

  more-Unmet :
      (x : ℕ) (rest pars : List ℕ) → Differs x rest → Unmet rest pars → Unmet rest (x ∷ pars)
  more-Unmet x [] pars d h = tt
  more-Unmet x (y ∷ ys) pars (d, ds) (h, hs) = ((λ e. d (sym e), h), more-Unmet x ys pars ds hs)

  all_left : (xs : List ℕ) → AreLeft xs (range 0 k)
  all_left [] = tt
  all_left (x ∷ xs) = (λ lt. range-In 0 k x (omega arith) (omega arith), all_left xs)

  none_met : (xs : List ℕ) → Unmet xs []
  none_met [] = tt
  none_met (x ∷ xs) = (tt, none_met xs)

  -- A data row says that an entry is 0, and its column is taken out.
  data_step :
      (x : ℕ) (rest cols pars : List ℕ)
      → x < k
      → Solving (x ∷ rest) cols pars
      → Solving rest (removed x cols) pars
  data_step x rest cols pars lt s =
      let z : at gf256 v x ≡ gf256.zero_f =
        sym (dot-unit_row gf256 k x v lt)
        ∙ ap (λ r. dot gf256 r v) (sym (gen_cauchy_matrix-IsSystematic all k x lt))
        ∙ s.kernel.0 in
      let shorter = length-removed x cols (s.data_left.0 lt) in
      let bound = s.count in
      record {
        kernel = s.kernel.1;
        below = s.below.1;
        data_left = removed-AreLeft x rest cols s.different.0 s.data_left.1;
        different = s.different.1;
        unmet = s.unmet.1;
        count = omega arith;
        cols_below = removed-AllBelow k x cols s.cols_below;
        cols_distinct = removed-Distinct x cols s.cols_distinct;
        parities = s.parities;
        pars_different = s.pars_different;
        sums = λ p. removed-column_sum v p x cols z ∙ s.sums p;
        zeros = λ j h. elim (s.zeros j h) [
          | inl e ↦ inl e
          | inr m ↦ elim (Bool-cases (x == j)) [
            | inl e ↦ inl (ap (at gf256 v) (sym ((==_iff x j).0 e)) ∙ z)
            | inr e ↦ inr (removed-In x j cols (λ q. ground arith) m)
          ]
        ];
      }

  parity_step :
      (x : ℕ) (rest cols pars : List ℕ)
      → k ≤ x
      → Solving (x ∷ rest) cols pars
      → Solving rest cols (x ∷ pars)
  parity_step x rest cols pars le s =
      let lt = s.below.0 in
      let bound = s.count in
      let sum : column_sum v (to_byte x) (range 0 k) ≡ gf256.zero_f =
        sym (dot-cauchy_row k x v (omega arith) (omega arith) size)
        ∙ ap (λ r. dot gf256 r v) (sym (gen_cauchy_matrix-cauchy_row all k x le lt))
        ∙ s.kernel.0 in
      record {
        kernel = s.kernel.1;
        below = s.below.1;
        data_left = s.data_left.1;
        different = s.different.1;
        unmet = more-Unmet x rest pars s.different.0 s.unmet.1;
        count = omega arith;
        cols_below = s.cols_below;
        cols_distinct = s.cols_distinct;
        parities = (le, omega arith, sum, s.parities);
        pars_different = (s.unmet.0, s.pars_different);
        sums = s.sums;
        zeros = s.zeros;
      }

  cols-Apart :
      (p : ℕ) (cols : List ℕ)
      → k ≤ p
      → p < 256
      → AllBelow k cols
      → Apart gf256 (to_byte p) (points cols)
  cols-Apart p [] h h' b = tt
  cols-Apart p (c ∷ cs) h h' (b, bs) =
      (points_apart p c h' (omega arith) (λ e. omega arith), cols-Apart p cs h h' bs)

  all_apart :
      (pars cols : List ℕ)
      → AreParities pars
      → AllBelow k cols
      → AllApart gf256 (points pars) (points cols)
  all_apart [] cols h b = tt
  all_apart (p ∷ ps) cols (h, h', e, hs) b = (cols-Apart p cols h h' b, all_apart ps cols hs b)

  pars-Apart :
      (p : ℕ) (pars : List ℕ)
      → p < 256
      → Differs p pars
      → AreParities pars
      → Apart gf256 (to_byte p) (points pars)
  pars-Apart p [] lt d h = tt
  pars-Apart p (q ∷ qs) lt (d, ds) (h, h', e, hs) =
      (points_apart p q lt h' d, pars-Apart p qs lt ds hs)

  pars-Distinct :
      (pars : List ℕ) → AllDifferent pars → AreParities pars → Distinct gf256 (points pars)
  pars-Distinct [] d h = tt
  pars-Distinct (p ∷ ps) (d, ds) (h, h', e, hs) = (pars-Apart p ps h' d hs, pars-Distinct ps ds hs)

  pars-Vanish :
      (pars cols : List ℕ)
      → AreParities pars
      → ((p : Byte) → column_sum v p cols ≡ column_sum v p (range 0 k))
      → Vanish gf256 (points pars) (points cols) (map (at gf256 v) cols)
  pars-Vanish [] cols h q = tt
  pars-Vanish (p ∷ ps) cols (h, h', e, hs) q = (q (to_byte p) ∙ e, pars-Vanish ps cols hs q)

  zero_in :
      (j : ℕ) (cols : List ℕ)
      → In j cols
      → AreZero gf256 (map (at gf256 v) cols)
      → at gf256 v j ≡ gf256.zero_f
  zero_in j [] h z = elim h [ ]
  zero_in j (c ∷ cs) (inl e) (z, zs) = ap (at gf256 v) (sym e) ∙ z
  zero_in j (c ∷ cs) (inr h) (z, zs) = zero_in j cs h zs

  Solving-zeros :
      (rest cols pars : List ℕ)
      → Solving rest cols pars
      → (j : ℕ) → j < k
      → at gf256 v j ≡ gf256.zero_f
  Solving-zeros [] cols pars s j h = elim (s.zeros j h) [
    | inl e ↦ e
    | inr m ↦
        let bound = s.count in
        zero_in j cols m (
          cauchy_kernel gf256 (points pars) (points cols) (map (at gf256 v) cols)
            (omega (arith, length-map pars to_byte, length-map cols to_byte))
            (length-map cols (at gf256 v) ∙ sym (length-map cols to_byte))
            (all_apart pars cols s.parities s.cols_below)
            (pars-Distinct pars s.pars_different s.parities) s.cols_distinct
            (pars-Vanish pars cols s.parities s.sums))
  ]
  Solving-zeros (x ∷ rest) cols pars s j h = elim (Bool-cases (ltb x k)) [
    | inl e ↦
        Solving-zeros rest (removed x cols) pars (data_step x rest cols pars (ground arith) s) j h
    | inr e ↦ Solving-zeros rest cols (x ∷ pars) (parity_step x rest cols pars (ground arith) s) j h
  ]

at_past : (v : List Byte) (j : ℕ) → length v ≤ j → at gf256 v j ≡ gf256.zero_f
at_past [] j h = refl
at_past (x ∷ xs) zero h = absurd (omega arith)
at_past (x ∷ xs) (suc j) h = at_past xs j (omega arith)

pub cauchy_rows_regular :
    (k all : ℕ) (read : List ℕ)
    → all ≤ 256
    → k ≤ all
    → length read ≡ k
    → AllBelow all read
    → AllDifferent read
    → ¬ IsSingular gf256 k (map (row gf256 (gen_cauchy_matrix all k)) read)
cauchy_rows_regular k all read small fits l b d (v, i, size, one, kernel) =
    let start : Solving k all small fits v size read (range 0 k) [] = record {
      kernel = kernel;
      below = b;
      data_left = all_left k all small fits v size read;
      different = d;
      unmet = none_met k all small fits v size read;
      count = omega (arith, length-range 0 k);
      cols_below = range-AllBelow 0 k k (omega arith);
      cols_distinct = range-Distinct 0 k (omega arith);
      parities = tt;
      pars_different = tt;
      sums = λ p. refl;
      zeros = λ j h. inr (range-In 0 k j (omega arith) (omega arith));
    } in
    let z : at gf256 v i ≡ gf256.zero_f = elim (Bool-cases (ltb i k)) [
      | inl e ↦ Solving-zeros k all small fits v size read (range 0 k) [] start i (ground arith)
      | inr e ↦ at_past v i (ground arith)
    ] in
    let q = ap (λ t. t.0) (sym z ∙ one) in omega arith
