-- ===== src/Erasure/Singular.antt =====
-- A round of gfInvertMatrix that finds no pivot shows a vector on which the matrix vanishes.
use libhdfs.Prelude.{
  ℕ, suc, ◌+◌, ◌≡◌, refl, ◌∙◌, sym, ap, ap₂, subst, arith, List, [], ◌∷◌, ◌++◌, length,
  length-append, length-replicate, replicate,
}
use mathlib.Core.List.{append_assoc}
use libhdfs.Erasure.Field.{Field}
use libhdfs.Erasure.Matrix.{at, Row}
use libhdfs.Erasure.Columns.{dot_zero_columns, dot_unit_columns, dot_ending}
use libhdfs.Erasure.Pivot.{AllRows, HasZero}
use libhdfs.Erasure.Tracked.{Kills, IsCleared}
use libhdfs.Erasure.Inverse.{AreReduced, at_middle, IsLoop, IsSingular}

module _ (f : Field) where
  open f use {
    F, zero_f, one_f, add, mul, inv, is_zero, add_zero, add_self, mul_comm, mul_inv, one_mul,
  }

  -- The entries of column `i`.
  column : ℕ → List (Row f) → List F
  column i [] = []
  column i (r ∷ rs) = at f r.0 i ∷ column i rs

  length-column : (i : ℕ) (rs : List (Row f)) → length (column i rs) ≡ length rs
  unfolding column
  length-column i [] = refl
  length-column i (r ∷ rs) = ap suc (length-column i rs)

  column-append : (i : ℕ) (xs ys : List (Row f)) → column i (xs ++ ys) ≡ column i xs ++ column i ys
  unfolding column
  column-append i [] ys = refl
  column-append i (x ∷ xs) ys = ap (λ t. at f x.0 i ∷ t) (column-append i xs ys)

  at-column :
      (i : ℕ) (pre rs : List (Row f)) (r : Row f)
      → at f (column i (pre ++ (r ∷ rs))) (length pre) ≡ at f r.0 i
  unfolding column
  at-column i pre rs r =
      ap₂ (at f) (column-append i pre (r ∷ rs)) (sym (length-column i pre))
      ∙ at_middle f (column i pre) (column i rs) (at f r.0 i)

  -- The vector on which everything vanishes: column `i` of what is done, then 1 and zeros.
  done_Kills :
      (i m : ℕ) (done pre rs : List (Row f))
      → done ≡ pre ++ rs
      → length done ≡ i
      → AreReduced f i (length pre) rs
      → AllRows f (Kills f (column i done ++ (one_f ∷ replicate m zero_f))) rs
  done_Kills i m done pre [] e l h = tt
  done_Kills i m done pre (r ∷ rs) e l (h, hs) =
      let n = length-column i done in
      let size : length (pre ++ (r ∷ [])) ≡ suc (length pre) =
        omega (arith, length-append pre (r ∷ [])) in
      (
        dot_ending f r.0 (column i done) m
            ∙ ap₂ add
                (dot_unit_columns f r.0 (column i done) (length pre) (λ c k. h c (omega arith))
                  ∙ ap (λ t. at f (column i t) (length pre)) e
                  ∙ at-column i pre rs r)
                (ap (at f r.0) (n ∙ l))
            ∙ add_self (at f r.0 i),
        done_Kills i m done (pre ++ (r ∷ [])) rs (e ∙ sym (append_assoc pre (r ∷ []) rs)) l
            (subst (λ j. AreReduced f i j rs) (sym size) hs),
      )

  todo_Kills :
      (i m : ℕ) (done rs : List (Row f))
      → length done ≡ i
      → AllRows f (IsCleared f i) rs
      → AllRows f (HasZero f i) rs
      → AllRows f (Kills f (column i done ++ (one_f ∷ replicate m zero_f))) rs
  todo_Kills i m done [] l h z = tt
  todo_Kills i m done (r ∷ rs) l (h, hs) (z, zs) =
      let n = length-column i done in
      (
        dot_ending f r.0 (column i done) m
            ∙ ap₂ add (dot_zero_columns f r.0 (column i done) (λ c k. h c (omega arith)))
                (ap (at f r.0) (n ∙ l) ∙ z)
            ∙ add_zero zero_f,
        todo_Kills i m done rs l hs zs,
      )

  pub no_pivot :
      (n : ℕ) (matrix : List (List F)) (i rounds : ℕ) (done todo : List (Row f))
      → IsLoop f n matrix i done todo
      → i + suc rounds ≡ n
      → AllRows f (HasZero f i) todo
      → IsSingular f n matrix
  no_pivot n matrix i rounds done todo h e z =
      let l = length-column i done in
      let total = length-append (column i done) (one_f ∷ replicate rounds zero_f) in
      let zeros = length-replicate rounds zero_f in
      let c = h.count in
      (
        column i done ++ (one_f ∷ replicate rounds zero_f),
        length (column i done),
        omega arith,
        at_middle f (column i done) (replicate rounds zero_f) one_f,
        h.kernel (column i done ++ (one_f ∷ replicate rounds zero_f))
            (done_Kills i rounds done [] done refl c h.reduced)
            (todo_Kills i rounds done todo c h.cleared z),
      )
