-- ===== src/Erasure/Inverse.antt =====
-- gfInvertMatrix returns the inverse, or the matrix has none.
use libhdfs.Prelude.{
  ℕ, suc, ◌+◌, ◌<◌, ◌≡◌, refl, ◌∙◌, sym, ap, ap₂, subst, arith, List, [], ◌∷◌, ◌++◌, map, length,
  length-append, Result, ok, throw, fault, hdfs_exception,
}
use mathlib.Core.List.{append_assoc}
use libhdfs.Erasure.Field.{Field}
use libhdfs.Erasure.Matrix.{at, Row, start_rows}
use libhdfs.Erasure.Vectors.{dot, dot-unit_row, length-unit_row}
use libhdfs.Erasure.Columns.{delta, dot_unit_columns}
use libhdfs.Erasure.Pivot.{AllRows}
use libhdfs.Erasure.Tracked.{images, IsTracked, Kills, IsCleared}

module _ (f : Field) where
  open f use {
    F, zero_f, one_f, add, mul, inv, is_zero, add_zero, add_self, mul_comm, mul_inv, one_mul,
  }

  abbrev pub IsKernel : List (List F) → List F → Type 0
  IsKernel [] v = Unit
  IsKernel (r ∷ rs) v = (dot f r v ≡ zero_f) × IsKernel rs v

  abbrev pub AreRows : ℕ → List (List F) → Type 0
  AreRows n [] = Unit
  AreRows n (r ∷ rs) = (length r ≡ n) × AreRows n rs

  -- What is done has the unit columns below `i`, from row `j` on.
  abbrev pub AreReduced : ℕ → ℕ → List (Row f) → Type 0
  AreReduced i j [] = Unit
  AreReduced i j (r ∷ rs) = ((c : ℕ) → c < i → at f r.0 c ≡ delta f j c) × AreReduced i (suc j) rs

  pub at_middle : (xs ys : List F) (y : F) → at f (xs ++ (y ∷ ys)) (length xs) ≡ y
  at_middle [] ys y = refl
  at_middle (x ∷ xs) ys y = at_middle xs ys y

  images-append :
      (xs ys : List (List F)) (d : List F) → images f (xs ++ ys) d ≡ images f xs d ++ images f ys d
  images-append [] ys d = refl
  images-append (x ∷ xs) ys d = ap (λ t. dot f x d ∷ t) (images-append xs ys d)

  length-images : (xs : List (List F)) (d : List F) → length (images f xs d) ≡ length xs
  length-images [] d = refl
  length-images (x ∷ xs) d = ap suc (length-images xs d)

  pub start_rows-IsTracked :
      (n : ℕ) (matrix pre rs : List (List F)) (i : ℕ)
      → matrix ≡ pre ++ rs
      → length pre ≡ i
      → i + length rs ≡ n
      → AreRows n rs
      → AllRows f (IsTracked f n matrix) (start_rows f n i rs)
  unfolding start_rows
  start_rows-IsTracked n matrix pre [] i e l h w = tt
  start_rows-IsTracked n matrix pre (r ∷ rs) i e l h (w, ws) = (
    record {
      width = w;
      out_width = length-unit_row f n i;
      tracked = λ d. sym (
          dot-unit_row f n i (images f matrix d) (omega arith)
          ∙ ap₂ (at f) (ap (λ m. images f m d) e ∙ images-append pre (r ∷ rs) d)
              (sym (length-images pre d ∙ l))
          ∙ at_middle (images f pre d) (images f rs d) (dot f r d));
    },
    start_rows-IsTracked n matrix (pre ++ (r ∷ [])) rs (i + 1)
        (e ∙ sym (append_assoc pre (r ∷ []) rs)) (omega (arith, length-append pre (r ∷ [])))
        (omega arith) ws,
  )

  pub start_rows-IsKernel :
      (n i : ℕ) (rs : List (List F)) (v : List F)
      → AllRows f (Kills f v) (start_rows f n i rs)
      → IsKernel rs v
  unfolding start_rows
  start_rows-IsKernel n i [] v h = tt
  start_rows-IsKernel n i (r ∷ rs) v (h, hs) = (h, start_rows-IsKernel n (i + 1) rs v hs)

  pub start_rows-IsCleared :
      (n i : ℕ) (rs : List (List F)) → AllRows f (IsCleared f 0) (start_rows f n i rs)
  unfolding start_rows
  start_rows-IsCleared n i [] = tt
  start_rows-IsCleared n i (r ∷ rs) =
      (λ c h. absurd (omega arith), start_rows-IsCleared n (i + 1) rs)

  pub length-start_rows : (n i : ℕ) (rs : List (List F)) → length (start_rows f n i rs) ≡ length rs
  unfolding start_rows
  length-start_rows n i [] = refl
  length-start_rows n i (r ∷ rs) = ap suc (length-start_rows n (i + 1) rs)

  -- The invariant of the outer loop, at the beginning of round `i`.
  pub record IsLoop (n : ℕ) (matrix : List (List F)) (i : ℕ) (done todo : List (Row f))
      : Type 0 where
    pub done_tracked : AllRows f (IsTracked f n matrix) done
    pub todo_tracked : AllRows f (IsTracked f n matrix) todo
    pub reduced : AreReduced i 0 done
    pub cleared : AllRows f (IsCleared f i) todo
    pub count : length done ≡ i
    pub kernel :
        (v : List F) → AllRows f (Kills f v) done → AllRows f (Kills f v) todo → IsKernel matrix v

  -- What the function promises.
  abbrev pub IsInverse : ℕ → List (List F) → List (List F) → Type 0
  IsInverse n matrix inverse =
      (d : List F) → length d ≡ n → images f inverse (images f matrix d) ≡ d

  abbrev pub IsSingular : ℕ → List (List F) → Type 0
  IsSingular n matrix =
      (v : List F) × (k : ℕ) × (length v ≡ n) × (at f v k ≡ one_f) × IsKernel matrix v

  abbrev pub Inverts : ℕ → List (List F) → Result (List (List F)) → Type 0
  Inverts n matrix (ok inverse) = IsInverse n matrix inverse × AreRows n inverse
  Inverts n matrix (throw e) = (e ≡ hdfs_exception) × IsSingular n matrix
  Inverts n matrix fault = ⊥

  -- At the end.
  pub reduced_rows :
      (n : ℕ) (matrix : List (List F)) (d pre rest : List F) (rows : List (Row f))
      → d ≡ pre ++ rest
      → length d ≡ n
      → length rest ≡ length rows
      → AllRows f (IsTracked f n matrix) rows
      → AreReduced n (length pre) rows
      → images f (map (λ r. r.1) rows) (images f matrix d) ≡ rest
  reduced_rows n matrix d pre [] [] e l m t h = refl
  reduced_rows n matrix d pre (w ∷ ws) [] e l m t h = absurd (omega arith)
  reduced_rows n matrix d pre [] (r ∷ rs) e l m t h = absurd (omega arith)
  reduced_rows n matrix d pre (w ∷ ws) (r ∷ rs) e l m (t, ts) (h, hs) =
      let size : length (pre ++ (w ∷ [])) ≡ suc (length pre) =
        omega (arith, length-append pre (w ∷ [])) in
      ap₂ ◌∷◌
        (sym (t.tracked d)
          ∙ dot_unit_columns f r.0 d (length pre) (λ c k. h c (omega arith))
          ∙ ap (λ x. at f x (length pre)) e
          ∙ at_middle pre ws w)
        (reduced_rows n matrix d (pre ++ (w ∷ [])) ws rs (e ∙ sym (append_assoc pre (w ∷ []) ws)) l
          (omega arith) ts (subst (λ j. AreReduced n j rs) (sym size) hs))

  pub out_rows-AreRows :
      (n : ℕ) (matrix : List (List F)) (rows : List (Row f))
      → AllRows f (IsTracked f n matrix) rows
      → AreRows n (map (λ r. r.1) rows)
  out_rows-AreRows n matrix [] h = tt
  out_rows-AreRows n matrix (r ∷ rs) (h, hs) = (h.out_width, out_rows-AreRows n matrix rs hs)
