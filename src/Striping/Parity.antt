-- ===== src/Striping/Parity.antt =====
-- The ranges of getRangesForInternalBlocks against the cells that they are made of.
use libhdfs.Prelude.{
  ℕ, zero, suc, ◌+◌, ◌-◌, sym, ◌∙◌, ◌^◌, ◌<◌, ◌≤◌, ◌≡◌, refl, ap, arith, ltb, ◌==◌, if◌then◌else◌,
  false, inl, inr, Bool-cases, List, [], ◌∷◌, ◌++◌, length, length-replicate, take, replicate, set,
  get_elem?, some, ok,
}
use libhdfs.Striping.Blocks.{
  get_elem?-set, get_elem?-set_other, get_elem?-take, get_elem?-replicate, bytes_in, first_in,
  Grows, Grows-here, Grows-elsewhere,
}
use libhdfs.Striping.Layout.{StripingCell}
use libhdfs.Striping.Stripes.{VerticalRange}
use libhdfs.Striping.Ranges.{
  Extent, extend_range, add_cell, add_cells, no_range, get_ranges_for_internal_blocks,
}

-- Every range that is not empty lies between the two bounds.
abbrev pub AreWithin : ℕ → ℕ → List VerticalRange → Type 0
AreWithin start stop [] = Unit
AreWithin start stop (r ∷ rs) =
    ((r.span_in_block == 0) ≡ false
      → (start ≤ r.offset_in_block) × (r.offset_in_block + r.span_in_block ≤ stop))
    × AreWithin start stop rs

AreWithin-wider :
    (start stop start' stop' : ℕ) (rs : List VerticalRange)
    → start' ≤ start
    → stop ≤ stop'
    → AreWithin start stop rs
    → AreWithin start' stop' rs
AreWithin-wider start stop start' stop' [] h k w = tt
AreWithin-wider start stop start' stop' (r ∷ rs) h k (a, w) = (
  λ n. let (p, q) = a n in (omega arith, omega arith),
  AreWithin-wider start stop start' stop' rs h k w,
)

AreWithin-set :
    (start stop i : ℕ) (rs : List VerticalRange) (r : VerticalRange)
    → start ≤ r.offset_in_block
    → r.offset_in_block + r.span_in_block ≤ stop
    → AreWithin start stop rs
    → AreWithin start stop (set rs i r)
AreWithin-set start stop i [] r h k w = tt
AreWithin-set start stop zero (x ∷ rs) r h k (a, w) = (λ n. (h, k), w)
AreWithin-set start stop (suc i) (x ∷ rs) r h k (a, w) = (a, AreWithin-set start stop i rs r h k w)

AreWithin-take :
    (start stop n : ℕ) (rs : List VerticalRange)
    → AreWithin start stop rs
    → AreWithin start stop (take n rs)
AreWithin-take start stop zero rs w = tt
AreWithin-take start stop (suc n) [] w = tt
AreWithin-take start stop (suc n) (r ∷ rs) (a, w) = (a, AreWithin-take start stop n rs w)

AreWithin-replicate : (start stop n : ℕ) → AreWithin start stop (replicate n no_range)
AreWithin-replicate start stop zero = tt
AreWithin-replicate start stop (suc n) =
    (λ e. absurd (ground arith), AreWithin-replicate start stop n)

get_elem?_below :
    (i : ℕ) (rs : List VerticalRange)
    → i < length rs
    → (r : VerticalRange) × (get_elem? rs i ≡ some r)
get_elem?_below i [] h = absurd (omega arith)
get_elem?_below zero (r ∷ rs) h = (r, refl)
get_elem?_below (suc i) (r ∷ rs) h = get_elem?_below i rs (omega arith)

length-set : (i : ℕ) (rs : List VerticalRange) (r : VerticalRange) → length (set rs i r) ≡ length rs
length-set i [] r = refl
length-set zero (x ∷ rs) r = refl
length-set (suc i) (x ∷ rs) r = ap suc (length-set i rs r)

abbrev pub AreBelow : ℕ → List StripingCell → Type 0
AreBelow k [] = Unit
AreBelow k (cell ∷ cells) = (cell.idx_in_stripe < k) × AreBelow k cells

-- What the first loop keeps.
IsExtent : Extent → Type 0
IsExtent e = AreWithin e.earliest_start e.latest_stop e.ranges

add_cell-IsExtent :
    (c : ℕ) (cell : StripingCell) (e : Extent)
    → cell.idx_in_stripe < length e.ranges
    → IsExtent e
    → (e' : Extent) × (add_cell c cell e ≡ ok e')
      × (length e'.ranges ≡ length e.ranges)
      × IsExtent e'
      × (e'.earliest_start ≤ e'.latest_stop)
      × ((r : VerticalRange) × (get_elem? e.ranges cell.idx_in_stripe ≡ some r)
          × (e'.ranges ≡ set e.ranges cell.idx_in_stripe (extend_range c cell r)))
unfolding add_cell IsExtent
add_cell-IsExtent c cell e h w =
    let (r, f) = get_elem?_below cell.idx_in_stripe e.ranges h in
    let r' = extend_range c cell r in
    let stop = r'.offset_in_block + r'.span_in_block in
    let first =
      if ltb r'.offset_in_block e.earliest_start then r'.offset_in_block else e.earliest_start in
    let last = if ltb e.latest_stop stop then stop else e.latest_stop in
    let a : first ≤ r'.offset_in_block = ground arith in
    let b : first ≤ e.earliest_start = ground arith in
    let d : stop ≤ last = ground arith in
    let g : e.latest_stop ≤ last = ground arith in
    (
      record {
        ranges = set e.ranges cell.idx_in_stripe r';
        earliest_start = first;
        latest_stop = last;
      },
      rw (add_cell, f) refl,
      length-set cell.idx_in_stripe e.ranges r',
      AreWithin-set first last cell.idx_in_stripe e.ranges r' a d
          (AreWithin-wider e.earliest_start e.latest_stop first last e.ranges b g w),
      omega arith,
      (r, f, refl),
    )

-- Every range of the one state becomes, by the cells, the range of its block in the other.
abbrev AllGrow : ℕ → List StripingCell → Extent → Extent → Type 0
AllGrow c cells e e' =
    (j : ℕ) (r : VerticalRange)
    → get_elem? e.ranges j ≡ some r
    → (r' : VerticalRange) × (get_elem? e'.ranges j ≡ some r') × Grows c j cells r r'

AllGrow-next :
    (c : ℕ) (cell : StripingCell) (cells : List StripingCell) (e e1 e2 : Extent) (x : VerticalRange)
    → cell.idx_in_stripe < length e.ranges
    → get_elem? e.ranges cell.idx_in_stripe ≡ some x
    → e1.ranges ≡ set e.ranges cell.idx_in_stripe (extend_range c cell x)
    → AllGrow c cells e1 e2
    → AllGrow c (cell ∷ cells) e e2
AllGrow-next c cell cells e e1 e2 x below at same rest j r f =
    let i = cell.idx_in_stripe in
    elim (Bool-cases (i == j)) [
      | inl here ↦
          let ij : i ≡ j = ground arith in
          let both : some x ≡ some r = sym at ∙ ap (get_elem? e.ranges) ij ∙ f in
          let xr : x ≡ r = cc in
          let found : get_elem? e1.ranges j ≡ some (extend_range c cell r) =
            ap (λ rs. get_elem? rs j) same
            ∙ ap (get_elem? (set e.ranges i (extend_range c cell x))) (sym ij)
            ∙ get_elem?-set e.ranges i (extend_range c cell x) below
            ∙ ap (λ q. some (extend_range c cell q)) xr in
          let (r', g, grown) = rest j (extend_range c cell r) found in
          (r', g, Grows-here c j cell cells r r' here grown)
      | inr other ↦
          let found : get_elem? e1.ranges j ≡ some r =
            ap (λ rs. get_elem? rs j) same
            ∙ get_elem?-set_other e.ranges i j (extend_range c cell x) other
            ∙ f in
          let (r', g, grown) = rest j r found in
          (r', g, Grows-elsewhere c j cell cells r r' other grown)
    ]

AllGrow-none : (c : ℕ) (e : Extent) → AllGrow c [] e e
AllGrow-none c e j r f = (r, f, (omega arith, λ h. refl, λ z x g. absurd (cc)))

add_cells-IsExtent :
    (c k : ℕ) (cells : List StripingCell) (e : Extent)
    → k ≤ length e.ranges
    → AreBelow k cells
    → IsExtent e
    → e.earliest_start ≤ e.latest_stop
    → (e' : Extent) × (add_cells c cells e ≡ ok e')
      × IsExtent e'
      × (e'.earliest_start ≤ e'.latest_stop)
      × AllGrow c cells e e'
unfolding add_cells
add_cells-IsExtent c k [] e h b w o = (e, refl, w, o, AllGrow-none c e)
add_cells-IsExtent c k (cell ∷ cells) e h (i, b) w o =
    let (e1, f, l, w1, o1, (x, at, same)) = add_cell-IsExtent c cell e (omega arith) w in
    let (e2, g, w2, o2, all) = add_cells-IsExtent c k cells e1 (omega arith) b w1 o1 in
    (e2, rw (f, g) refl, w2, o2, AllGrow-next c cell cells e e1 e2 x (omega arith) at same all)

-- For at least one cell, and cells of data blocks only, getRangesForInternalBlocks gives every data
-- block a range of as many bytes as its cells have, which begins where the first cell of the block that
-- is not empty begins in it; it gives all parity blocks one range, and every range of a data block
-- that is not empty lies within that one.
pub ranges-cover :
    (k parity c : ℕ) (cell : StripingCell) (cells : List StripingCell)
    → AreBelow k (cell ∷ cells)
    → (data_ranges : List VerticalRange) × (p : VerticalRange) × (get_ranges_for_internal_blocks k
          parity c
          (cell ∷ cells)
        ≡ ok (data_ranges ++ replicate parity p))
      × AreWithin p.offset_in_block (p.offset_in_block + p.span_in_block) data_ranges
      × ((j : ℕ)
          → j < k
          → (r : VerticalRange) × (get_elem? data_ranges j ≡ some r)
            × (r.span_in_block ≡ bytes_in j (cell ∷ cells))
            × ((x : ℕ) → first_in c j (cell ∷ cells) ≡ some x → r.offset_in_block ≡ x))
unfolding get_ranges_for_internal_blocks IsExtent add_cells
ranges-cover k parity c cell cells (i, b) =
    let n = length-replicate (k + parity) no_range in
    let start : Extent = record {
      ranges = replicate (k + parity) no_range;
      earliest_start = 2 ^ 63 - 1;
      latest_stop = 0;
    } in
    let (e1, f, l, w1, o1, (x, at, same)) =
      add_cell-IsExtent c cell start (omega arith)
        (AreWithin-replicate (2 ^ 63 - 1) 0 (k + parity)) in
    let (e2, g, w2, o2, all) = add_cells-IsExtent c k cells e1 (omega arith) b w1 o1 in
    let whole : e2.earliest_start + (e2.latest_stop - e2.earliest_start) ≡ e2.latest_stop =
      omega arith in
    (
      take k e2.ranges,
      record {
        offset_in_block = e2.earliest_start;
        span_in_block = e2.latest_stop - e2.earliest_start;
      },
      rw (f, g) refl,
      rw whole (AreWithin-take e2.earliest_start e2.latest_stop k e2.ranges w2),
      (λ j small.
          let (r, found, (span, held, starts)) =
            AllGrow-next c cell cells start e1 e2 x (omega arith) at same all j no_range
              (get_elem?-replicate (k + parity) j no_range (omega arith)) in
          (r, get_elem?-take k j e2.ranges small ∙ found, omega (arith, span), starts refl)),
    )
