-- ===== src/Erasure/Rounds.antt =====
-- The columns after a round of gfInvertMatrix.
use libhdfs.Prelude.{
  ℕ, suc, ◌+◌, ◌<◌, ◌≡◌, refl, ◌∙◌, sym, ap, ap₂, arith, ◌==◌, if◌then◌else◌, inl, inr, Bool-cases,
  false, List, [], ◌∷◌, ◌++◌, map, length,
}
use libhdfs.Erasure.Field.{Field}
use libhdfs.Erasure.Matrix.{at, Row, scale_row, eliminate}
use libhdfs.Erasure.Vectors.{at-scale, zero_mul, mul_zero}
use libhdfs.Erasure.Columns.{delta}
use libhdfs.Erasure.Pivot.{AllRows}
use libhdfs.Erasure.Tracked.{IsTracked, IsCleared, at-eliminate}
use libhdfs.Erasure.Inverse.{AreReduced}

module _ (f : Field) where
  open f use {
    F, zero_f, one_f, add, mul, inv, is_zero, add_zero, add_self, mul_comm, mul_inv, one_mul,
  }

  -- The columns after a round, for the pivot row and for the others.
  pub pivot_columns :
      (i c : ℕ) (p : Row f)
      → IsCleared f i p
      → is_zero (at f p.0 i) ≡ false
      → c < suc i
      → at f (scale_row f (inv (at f p.0 i)) p).0 c ≡ delta f i c
  unfolding scale_row
  pivot_columns i c p h n k = elim (Bool-cases (i == c)) [
    | inl e ↦
        let same : c ≡ i = ground arith in
        at-scale f (inv (at f p.0 i)) p.0 c
        ∙ ap (λ t. mul (at f p.0 t) (inv (at f p.0 i))) same
        ∙ mul_inv (at f p.0 i) n
        ∙ rw e refl
    | inr e ↦
        at-scale f (inv (at f p.0 i)) p.0 c
        ∙ ap (λ t. mul t (inv (at f p.0 i))) (h c (ground arith))
        ∙ zero_mul f (inv (at f p.0 i))
        ∙ rw e refl
  ]

  -- Below column `i` nothing changes, and column `i` becomes zero.
  other_columns :
      (n : ℕ) (matrix : List (List F)) (i c : ℕ) (q r : Row f)
      → IsTracked f n matrix q
      → IsTracked f n matrix r
      → ((c : ℕ) → c < suc i → at f q.0 c ≡ delta f i c)
      → c < suc i
      → at f (eliminate f i q r).0 c ≡ (if i == c then zero_f else at f r.0 c)
  other_columns n matrix i c q r tq tr h k =
      at-eliminate f n matrix i c q r tq tr
      ∙ ap (λ t. add (at f r.0 c) (mul (at f r.0 i) t)) (h c k)
      ∙ rest
    where
      rest :
          add (at f r.0 c) (mul (at f r.0 i) (delta f i c))
          ≡ (if i == c then zero_f else at f r.0 c)
      rest = elim (Bool-cases (i == c)) [
        | inl e ↦
            let same : c ≡ i = ground arith in
            rw e (
              ap₂ add (ap (at f r.0) same) (mul_comm (at f r.0 i) one_f ∙ one_mul (at f r.0 i))
              ∙ add_self (at f r.0 i))
        | inr e ↦ rw e (ap (add (at f r.0 c)) (mul_zero f (at f r.0 i)) ∙ add_zero (at f r.0 c))
      ]

  pub AreReduced-eliminate :
      (n : ℕ) (matrix : List (List F)) (i j : ℕ) (q : Row f) (rs : List (Row f))
      → IsTracked f n matrix q
      → ((c : ℕ) → c < suc i → at f q.0 c ≡ delta f i c)
      → AllRows f (IsTracked f n matrix) rs
      → j + length rs ≡ i
      → AreReduced f i j rs
      → AreReduced f (suc i) j (map (eliminate f i q) rs ++ (q ∷ []))
  AreReduced-eliminate n matrix i j q [] tq hq ts e h =
      let same : j ≡ i = omega arith in (λ c k. hq c k ∙ ap (λ t. delta f t c) (sym same), tt)
  AreReduced-eliminate n matrix i j q (r ∷ rs) tq hq (t, ts) e (h, hs) = (
    λ c k. other_columns n matrix i c q r tq t hq k ∙ unit_at c k,
    AreReduced-eliminate n matrix i (suc j) q rs tq hq ts (omega arith) hs,
  )
    where
      unit_at : (c : ℕ) → c < suc i → (if i == c then zero_f else at f r.0 c) ≡ delta f j c
      unit_at c k = elim (Bool-cases (i == c)) [
        | inl u ↦ let w : (j == c) ≡ false = ground arith in rw (u, w) refl
        | inr u ↦ rw u (h c (ground arith))
      ]

  pub AllRows-IsCleared :
      (n : ℕ) (matrix : List (List F)) (i : ℕ) (q : Row f) (rs : List (Row f))
      → IsTracked f n matrix q
      → ((c : ℕ) → c < suc i → at f q.0 c ≡ delta f i c)
      → AllRows f (IsTracked f n matrix) rs
      → AllRows f (IsCleared f i) rs
      → AllRows f (IsCleared f (suc i)) (map (eliminate f i q) rs)
  AllRows-IsCleared n matrix i q [] tq hq ts h = tt
  AllRows-IsCleared n matrix i q (r ∷ rs) tq hq (t, ts) (h, hs) = (
    λ c k. other_columns n matrix i c q r tq t hq k ∙ zero_at c k,
    AllRows-IsCleared n matrix i q rs tq hq ts hs,
  )
    where
      zero_at : (c : ℕ) → c < suc i → (if i == c then zero_f else at f r.0 c) ≡ zero_f
      zero_at c k = elim (Bool-cases (i == c)) [
        | inl u ↦ rw u refl
        | inr u ↦ rw u (h c (ground arith))
      ]
