-- ===== src/Striping/Aligned.antt =====
-- The stripes that StripedBlockUtil::mergeRangesForInternalBlocks returns for ranges of which at
-- least one is not empty.
use libhdfs.Prelude.{
  ℕ, ◌+◌, ◌≤◌, ◌<◌, ◌≡◌, refl, sym, subst, ◌⊎◌, inl, inr, arith, ltb, ◌==◌, ◌&&◌, List, [], ◌∷◌, ok,
  ◌>>=◌, Bool-cases,
}
use mathlib.Core.Path.{subst₂}
use libhdfs.Striping.Points.{insert, Increasing, IsSorted, Has, insert-Increasing, insert-Has}
use libhdfs.Striping.Stripes.{
  VerticalRange, AlignedStripe, stripe_points, last_cell_end_offset, last_point, add_last_cell,
  stripes_from, stripes_of, merge_ranges,
}
use libhdfs.Striping.Tiling.{
  Tiles, NotAcross, IsEnd, stripes_from-Tiles, stripes_from-NotAcross_below, stripes_from-NotAcross,
  Has-le-last_point, Has-ge-first, Has-last_point, stripe_points-IsSorted, IsEnd-Has,
}

Has-insert : (p x : ℕ) (ps : List ℕ) → Has x (insert p ps) → (x ≡ p) ⊎ Has x ps
unfolding insert
Has-insert p x [] h = h
Has-insert p x (y ∷ ys) h = ground (arith, Has-insert p x ys)

module _ (x : ℕ) where
  Has-stripe_points :
      (rs : List VerticalRange) (ps : List ℕ) → Has x (stripe_points rs ps) → IsEnd x rs ⊎ Has x ps
  unfolding stripe_points
  Has-stripe_points [] ps h = inr h
  Has-stripe_points (r ∷ rs) ps h = elim (Bool-cases (r.span_in_block == 0)) [
    | inl e ↦ ground (arith, Has-stripe_points rs ps (rw e at h))
    | inr e ↦
        let a = insert r.offset_in_block ps in
        let b = insert (r.offset_in_block + r.span_in_block) a in
        ground (
          arith,
          Has-stripe_points rs b (rw e at h),
          Has-insert (r.offset_in_block + r.span_in_block) x a,
          Has-insert r.offset_in_block x ps,
        )
  ]

  IsEnd-of_point : (rs : List VerticalRange) → Has x (stripe_points rs []) → IsEnd x rs
  IsEnd-of_point rs h = elim (Has-stripe_points rs [] h) [ inl e ↦ e | inr n ↦ absurd n ]

last_point-insert :
    (e p : ℕ) (ps : List ℕ)
    → Increasing p ps
    → p < e
    → e < last_point p ps
    → last_point p (insert e ps) ≡ last_point p ps
unfolding insert
last_point-insert e p [] s h h' = absurd (omega arith)
last_point-insert e p (y ∷ ys) (a, s) h h' = ground (arith, last_point-insert e y ys s)

insert_above : (e p : ℕ) (ps : List ℕ) → p < e → insert e (p ∷ ps) ≡ p ∷ insert e ps
unfolding insert
insert_above e p ps h = ground arith

keep_points : (e p x : ℕ) (ps : List ℕ) → Has x (p ∷ ps) → Has x (p ∷ insert e ps)
keep_points e p x ps (inl h) = inl h
keep_points e p x ps (inr h) = inr (insert-Has e x ps h)

-- The set keeps its first and its last point, and all others, when the last cell's end joins it.
add_last_cell-ok :
    (e p : ℕ) (ps : List ℕ)
    → Increasing p ps
    → (q : ℕ) × (qs : List ℕ) × (add_last_cell e (p ∷ ps) ≡ ok (q ∷ qs))
      × (q ≡ p)
      × (last_point q qs ≡ last_point p ps)
      × Increasing q qs
      × ((x : ℕ) → Has x (p ∷ ps) → Has x (q ∷ qs))
unfolding add_last_cell
add_last_cell-ok e p ps s = elim (Bool-cases (ltb p e && ltb e (last_point p ps))) [
  | inl t ↦
      let below : p < e = ground arith in
      let above : e < last_point p ps = ground arith in
      (
        p,
        insert e ps,
        rw (t, insert_above e p ps below),
        refl,
        last_point-insert e p ps s below above,
        insert-Increasing e p ps below s,
        λ x h. keep_points e p x ps h,
      )
  | inr t ↦ (p, ps, rw t, refl, refl, s, λ x h. h)
]

-- `from` and `to` are ends of wanted ranges; the stripes tile what lies between, one behind the
-- other and none empty; and every end of a wanted range lies in there, with no stripe across it.
abbrev pub IsAligned : ℕ → ℕ → List VerticalRange → List AlignedStripe → Type 0
IsAligned from to ranges stripes =
    IsEnd from ranges
    × IsEnd to ranges
    × Tiles from to stripes
    × ((x : ℕ) → IsEnd x ranges → (from ≤ x) × (x ≤ to) × NotAcross x stripes)

NotAcross-any :
    (w x q : ℕ) (qs : List ℕ) → Increasing q qs → Has x (q ∷ qs) → NotAcross x (stripes_from w q qs)
NotAcross-any w x q qs s (inl e) = stripes_from-NotAcross_below w x q qs (omega arith) s
NotAcross-any w x q qs s (inr h) = stripes_from-NotAcross w x q qs s h

IsAligned-points :
    (w e p : ℕ) (ps : List ℕ) (ranges : List VerticalRange)
    → stripe_points ranges [] ≡ p ∷ ps
    → Increasing p ps
    → (stripes : List AlignedStripe) × ((add_last_cell e (p ∷ ps) >>= λ points.
          ok (stripes_of w points))
        ≡ ok stripes)
      × IsAligned p (last_point p ps) ranges stripes
unfolding stripes_of
IsAligned-points w e p ps ranges eq s =
    let (q, qs, run, same, final, t, keep) = add_last_cell-ok e p ps s in
    let at = λ (x : ℕ) (h : Has x (p ∷ ps)). IsEnd-of_point x ranges (subst (Has x) (sym eq) h) in
    (
      stripes_from w q qs,
      rw run,
      (
        at p (inl refl),
        at (last_point p ps) (Has-last_point p ps),
        subst₂ (λ a b. Tiles a b (stripes_from w q qs)) same final (stripes_from-Tiles w q qs t),
        λ x h.
            let hx : Has x (p ∷ ps) = subst (Has x) eq (IsEnd-Has x ranges [] h) in
            (
              Has-ge-first x p ps s hx,
              Has-le-last_point x p ps s hx,
              NotAcross-any w x q qs t (keep x hx),
            ),
      ),
    )

IsAligned-if_any :
    (w e x : ℕ) (points : List ℕ) (ranges : List VerticalRange)
    → stripe_points ranges [] ≡ points
    → IsSorted points
    → Has x points
    → (stripes : List AlignedStripe) × (from : ℕ) × (to : ℕ) × ((add_last_cell e points >>= λ ps.
          ok (stripes_of w ps))
        ≡ ok stripes)
      × IsAligned from to ranges stripes
IsAligned-if_any w e x [] ranges eq s h = absurd h
IsAligned-if_any w e x (p ∷ ps) ranges eq s h =
    let (stripes, run, good) = IsAligned-points w e p ps ranges eq s in
    (stripes, p, last_point p ps, run, good)

-- For ranges of which at least one is not empty, so has an end `x`, mergeRangesForInternalBlocks
-- returns stripes, and they are aligned with the ranges: they run without a gap, an overlap or an
-- empty stripe from one end of a wanted range to another, every wanted range lies between the two,
-- and no stripe reaches across either end of a wanted range.
pub merge_ranges-IsAligned :
    (k parity c num_bytes x : ℕ) (ranges : List VerticalRange)
    → IsEnd x ranges
    → (stripes : List AlignedStripe) × (from : ℕ) × (to : ℕ) × (merge_ranges k parity c num_bytes
          ranges
        ≡ ok stripes)
      × IsAligned from to ranges stripes
unfolding merge_ranges
merge_ranges-IsAligned k parity c num_bytes x ranges h =
    IsAligned-if_any (k + parity) (last_cell_end_offset num_bytes c k) x (stripe_points ranges [])
      ranges refl (stripe_points-IsSorted ranges [] tt) (IsEnd-Has x ranges [] h)
