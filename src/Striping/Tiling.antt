-- ===== src/Striping/Tiling.antt =====
-- What StripedBlockUtil::mergeRangesForInternalBlocks cuts: the stripes tile the wanted range, and no
-- stripe reaches across an end of a wanted range.
use libhdfs.Prelude.{
  ℕ, ◌+◌, ◌-◌, ◌≤◌, ◌<◌, ◌≡◌, refl, ◌⊎◌, inl, inr, arith, ◌==◌, List, [], ◌∷◌, Bool-cases, false,
}
use libhdfs.Striping.Points.{
  Increasing, IsSorted, Has, insert-IsSorted, insert-Has_self, insert-Has,
}
use libhdfs.Striping.Stripes.{
  VerticalRange, AlignedStripe, new_stripe, stripe_points, last_point, stripes_from,
}

-- One stripe ends where the next begins, none is empty, and together they go from `a` to `b`.
abbrev pub Tiles : ℕ → ℕ → List AlignedStripe → Type 0
Tiles a b [] = a ≡ b
Tiles a b (s ∷ ss) =
    (s.offset_in_block ≡ a) × (0 < s.span_in_block) × Tiles (a + s.span_in_block) b ss

-- No stripe holds bytes on both sides of `p`.
abbrev pub NotAcross : ℕ → List AlignedStripe → Type 0
NotAcross p [] = Unit
NotAcross p (s ∷ ss) =
    ((p ≤ s.offset_in_block) ⊎ (s.offset_in_block + s.span_in_block ≤ p)) × NotAcross p ss

pub stripes_from-Tiles :
    (w p : ℕ) (ps : List ℕ) → Increasing p ps → Tiles p (last_point p ps) (stripes_from w p ps)
unfolding stripes_from new_stripe
stripes_from-Tiles w p [] s = refl
stripes_from-Tiles w p (q ∷ qs) (h, s) =
    let e : p + (q - p) ≡ q = omega arith in (refl, omega arith, rw e (stripes_from-Tiles w q qs s))

-- A point below all, and a point of the list.
pub stripes_from-NotAcross_below :
    (w x p : ℕ) (ps : List ℕ) → x ≤ p → Increasing p ps → NotAcross x (stripes_from w p ps)
unfolding stripes_from new_stripe
stripes_from-NotAcross_below w x p [] h s = tt
stripes_from-NotAcross_below w x p (q ∷ qs) h (a, s) =
    (inl h, stripes_from-NotAcross_below w x q qs (omega arith) s)

Has-above : (x p : ℕ) (ps : List ℕ) → Increasing p ps → Has x ps → p < x
Has-above x p [] s h = absurd h
Has-above x p (q ∷ qs) (a, s) (inl e) = omega arith
Has-above x p (q ∷ qs) (a, s) (inr h) = omega (arith, Has-above x q qs s h)

pub stripes_from-NotAcross :
    (w x p : ℕ) (ps : List ℕ) → Increasing p ps → Has x ps → NotAcross x (stripes_from w p ps)
unfolding stripes_from new_stripe
stripes_from-NotAcross w x p [] s h = absurd h
stripes_from-NotAcross w x p (q ∷ qs) (a, s) (inl e) =
    (inr (omega arith), stripes_from-NotAcross_below w x q qs (omega arith) s)
stripes_from-NotAcross w x p (q ∷ qs) (a, s) (inr h) =
    (inr (omega (arith, Has-above x q qs s h)), stripes_from-NotAcross w x q qs s h)

pub Has-le-last_point :
    (x p : ℕ) (ps : List ℕ) → Increasing p ps → Has x (p ∷ ps) → x ≤ last_point p ps
Has-le-last_point x p [] s (inl e) = omega arith
Has-le-last_point x p [] s (inr h) = absurd h
Has-le-last_point x p (q ∷ qs) (a, s) (inl e) = omega (arith, Has-le-last_point q q qs s (inl refl))
Has-le-last_point x p (q ∷ qs) (a, s) (inr h) = Has-le-last_point x q qs s h

pub Has-ge-first : (x p : ℕ) (ps : List ℕ) → Increasing p ps → Has x (p ∷ ps) → p ≤ x
Has-ge-first x p ps s (inl e) = omega arith
Has-ge-first x p ps s (inr h) = omega (arith, Has-above x p ps s h)

pub Has-last_point : (p : ℕ) (ps : List ℕ) → Has (last_point p ps) (p ∷ ps)
Has-last_point p [] = inl refl
Has-last_point p (q ∷ qs) = inr (Has-last_point q qs)

-- `x` is an end of a range that is not empty.
abbrev pub IsEnd : ℕ → List VerticalRange → Type 0
IsEnd x [] = ⊥
IsEnd x (r ∷ rs) =
    ((0 < r.span_in_block) × ((x ≡ r.offset_in_block) ⊎ (x ≡ r.offset_in_block + r.span_in_block)))
    ⊎ IsEnd x rs

pub stripe_points-IsSorted :
    (rs : List VerticalRange) (ps : List ℕ) → IsSorted ps → IsSorted (stripe_points rs ps)
unfolding stripe_points
stripe_points-IsSorted [] ps s = s
stripe_points-IsSorted (r ∷ rs) ps s = elim (Bool-cases (r.span_in_block == 0)) [
  | inl e ↦ rw e (stripe_points-IsSorted rs ps s)
  | inr e ↦ rw e (stripe_points-IsSorted rs _ (insert-IsSorted _ _ (insert-IsSorted _ ps s)))
]

stripe_points-Has :
    (x : ℕ) (rs : List VerticalRange) (ps : List ℕ) → Has x ps → Has x (stripe_points rs ps)
unfolding stripe_points
stripe_points-Has x [] ps h = h
stripe_points-Has x (r ∷ rs) ps h = elim (Bool-cases (r.span_in_block == 0)) [
  | inl e ↦ rw e (stripe_points-Has x rs ps h)
  | inr e ↦ rw e (stripe_points-Has x rs _ (insert-Has _ x _ (insert-Has _ x ps h)))
]

pub IsEnd-Has :
    (x : ℕ) (rs : List VerticalRange) (ps : List ℕ) → IsEnd x rs → Has x (stripe_points rs ps)
unfolding stripe_points
IsEnd-Has x [] ps h = absurd h
IsEnd-Has x (r ∷ rs) ps (inr h) = IsEnd-Has x rs _ h
IsEnd-Has x (r ∷ rs) ps (inl (w, inl e)) =
    let t : (r.span_in_block == 0) ≡ false = ground arith in
    rw (t, e) (stripe_points-Has _ rs _ (insert-Has _ _ _ (insert-Has_self _ ps)))
IsEnd-Has x (r ∷ rs) ps (inl (w, inr e)) =
    let t : (r.span_in_block == 0) ≡ false = ground arith in
    rw (t, e) (stripe_points-Has _ rs _ (insert-Has_self _ _))
