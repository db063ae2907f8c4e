-- ===== src/Erasure/Pivot.antt =====
-- The search for a pivot in gfInvertMatrix: the rows change places, and nothing else.
use libhdfs.Prelude.{
  ℕ, suc, ◌≡◌, refl, arith, inl, inr, Bool-cases, false, List, [], ◌∷◌, length, Option, none, some,
}
use libhdfs.Erasure.Field.{Field}
use libhdfs.Erasure.Matrix.{at, Row, behind, swap_pivot, choose_pivot}

module _ (f : Field) where
  open f use {F, zero_f, is_zero, is_zero_sound}

  abbrev pub AllRows : (Row f → Type 0) → List (Row f) → Type 0
  AllRows P [] = Unit
  AllRows P (r ∷ rs) = P r × AllRows P rs

  abbrev pub HasZero : ℕ → Row f → Type 0
  HasZero i r = at f r.0 i ≡ zero_f

  -- What a pivot `p` and the rows `ss` that are left have to do with the rows `rs`.
  abbrev pub IsPivot : (Row f → Type 0) → ℕ → List (Row f) → Option (Row f × List (Row f)) → Type 0
  IsPivot P i rs none = AllRows (HasZero i) rs
  IsPivot P i rs (some (p, ss)) =
      (AllRows P rs → P p × AllRows P ss)
      × (P p × AllRows P ss → AllRows P rs)
      × (length rs ≡ suc (length ss))
      × (is_zero (at f p.0 i) ≡ false)

  behind-IsPivot :
      (P : Row f → Type 0) (i : ℕ) (r s : Row f) (rs : List (Row f))
      (o : Option (Row f × List (Row f)))
      → HasZero i s
      → IsPivot P i (r ∷ rs) o
      → IsPivot P i (r ∷ s ∷ rs) (behind f s o)
  behind-IsPivot P i r s rs none z (a, b) = (a, (z, b))
  behind-IsPivot P i r s rs (some (p, ss)) z (to, from, l, n) = (
    λ (pr, (ps, prs)). let (pp, pss) = to (pr, prs) in (pp, (ps, pss)),
    λ (pp, (ps, pss)). let (pr, prs) = from (pp, pss) in (pr, (ps, prs)),
    omega arith,
    n,
  )

  swap_pivot-IsPivot :
      (P : Row f → Type 0) (i : ℕ) (r : Row f) (rs : List (Row f))
      → HasZero i r
      → IsPivot P i (r ∷ rs) (swap_pivot f i r rs)
  unfolding swap_pivot
  swap_pivot-IsPivot P i r [] z = (z, tt)
  swap_pivot-IsPivot P i r (s ∷ rs) z = elim (Bool-cases (is_zero (at f s.0 i))) [
    | inl e ↦ rw e (
        behind-IsPivot P i r s rs (swap_pivot f i r rs) (is_zero_sound (at f s.0 i) e)
          (swap_pivot-IsPivot P i r rs z))
    | inr e ↦ rw e (λ (pr, (ps, prs)). (ps, (pr, prs)), λ (ps, (pr, prs)). (pr, (ps, prs)), refl, e)
  ]

  pub choose_pivot-IsPivot :
      (P : Row f → Type 0) (i : ℕ) (r : Row f) (rs : List (Row f))
      → IsPivot P i (r ∷ rs) (choose_pivot f i r rs)
  unfolding choose_pivot
  choose_pivot-IsPivot P i r rs = elim (Bool-cases (is_zero (at f r.0 i))) [
    | inl e ↦ rw e (swap_pivot-IsPivot P i r rs (is_zero_sound (at f r.0 i) e))
    | inr e ↦ rw e (λ a. a, λ a. a, refl, e)
  ]
