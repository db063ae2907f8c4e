-- ===== src/Striping/Blocks.antt =====
-- What the cells make of the range of one block, by extend_range.
use libhdfs.Prelude.{
  ℕ, zero, suc, ◌+◌, ◌*◌, subst, sym, ◌∙◌, ◌<◌, ◌≡◌, refl, arith, ltb, ◌==◌, if◌then◌else◌, false,
  true, ◌&&◌, Option, none, inl, inr, Bool-cases, List, [], ◌∷◌, length, take, replicate, set,
  get_elem?, some,
}
use libhdfs.Striping.Layout.{StripingCell}
use libhdfs.Striping.Stripes.{VerticalRange}
use libhdfs.Striping.Ranges.{extend_range}

pub get_elem?-set :
    (rs : List VerticalRange) (i : ℕ) (r' : VerticalRange)
    → i < length rs
    → get_elem? (set rs i r') i ≡ some r'
get_elem?-set [] i r' h = absurd (omega arith)
get_elem?-set (x ∷ rs) zero r' h = refl
get_elem?-set (x ∷ rs) (suc i) r' h = get_elem?-set rs i r' (omega arith)

pub get_elem?-set_other :
    (rs : List VerticalRange) (i j : ℕ) (r' : VerticalRange)
    → (i == j) ≡ false
    → get_elem? (set rs i r') j ≡ get_elem? rs j
get_elem?-set_other [] i j r' h = refl
get_elem?-set_other (x ∷ rs) zero zero r' h = absurd (ground arith)
get_elem?-set_other (x ∷ rs) zero (suc j) r' h = refl
get_elem?-set_other (x ∷ rs) (suc i) zero r' h = refl
get_elem?-set_other (x ∷ rs) (suc i) (suc j) r' h = get_elem?-set_other rs i j r' (ground arith)

pub get_elem?-take :
    (n j : ℕ) (rs : List VerticalRange) → j < n → get_elem? (take n rs) j ≡ get_elem? rs j
get_elem?-take zero j rs h = absurd (omega arith)
get_elem?-take (suc n) j [] h = refl
get_elem?-take (suc n) zero (r ∷ rs) h = refl
get_elem?-take (suc n) (suc j) (r ∷ rs) h = get_elem?-take n j rs (omega arith)

pub get_elem?-replicate :
    (n j : ℕ) (r : VerticalRange) → j < n → get_elem? (replicate n r) j ≡ some r
get_elem?-replicate zero j r h = absurd (omega arith)
get_elem?-replicate (suc n) zero r h = refl
get_elem?-replicate (suc n) (suc j) r h = get_elem?-replicate n j r (omega arith)

-- The bytes of the cells that lie in block `j`.
abbrev pub bytes_in : ℕ → List StripingCell → ℕ
bytes_in j [] = 0
bytes_in j (cell ∷ cells) = (if cell.idx_in_stripe == j then cell.size else 0) + bytes_in j cells

-- Where the first cell of block `j` that has a byte begins in its block, for cells of `c` bytes.
abbrev pub first_in : ℕ → ℕ → List StripingCell → Option ℕ
first_in c j [] = none
first_in c j (cell ∷ cells) =
    let later = first_in c j cells in
    if cell.idx_in_stripe == j && ltb 0 cell.size
    then some (cell.idx_in_internal_blk * c + cell.offset)
    else later

-- What the cells make of the range `r` of block `j`.
abbrev pub Grows : ℕ → ℕ → List StripingCell → VerticalRange → VerticalRange → Type 0
Grows c j cells r r' =
    (r'.span_in_block ≡ r.span_in_block + bytes_in j cells)
    × (0 < r.span_in_block → r'.offset_in_block ≡ r.offset_in_block)
    × (r.span_in_block ≡ 0 → (x : ℕ) → first_in c j cells ≡ some x → r'.offset_in_block ≡ x)

pub Grows-here :
    (c j : ℕ) (cell : StripingCell) (cells : List StripingCell) (r r' : VerticalRange)
    → (cell.idx_in_stripe == j) ≡ true
    → Grows c j cells (extend_range c cell r) r'
    → Grows c j (cell ∷ cells) r r'
unfolding extend_range
Grows-here c j cell cells r r' here (span, held, starts) =
    let at = cell.idx_in_internal_blk * c + cell.offset in
    elim (Bool-cases (r.span_in_block == 0)) [
      | inr old ↦
          let e : extend_range c cell r ≡ record r { span_in_block = r.span_in_block + cell.size } =
            rw old refl in
          let (span', held', starts') = subst (λ q. Grows c j cells q r') e (span, held, starts) in
          (rw here (omega arith), λ h. held' (omega arith), λ z. absurd (ground arith))
      | inl new ↦
          let e : extend_range c cell r
              ≡ record { offset_in_block = at; span_in_block = cell.size } =
            rw new refl in
          let (span', held', starts') = subst (λ q. Grows c j cells q r') e (span, held, starts) in
          let zero_span : r.span_in_block ≡ 0 = ground arith in
          (
            rw (here, zero_span) (omega arith),
            λ h. absurd (omega arith),
            λ z x f. elim (Bool-cases (ltb 0 cell.size)) [
              | inl big ↦
                  let g : first_in c j (cell ∷ cells) ≡ some at = rw (here, big) refl in
                  let same : some at ≡ some x = sym g ∙ f in
                  let there : at ≡ x = cc in held' (ground arith) ∙ there
              | inr small ↦
                  let g : first_in c j (cell ∷ cells) ≡ first_in c j cells =
                    rw (here, small) refl in
                  starts' (ground arith) x (sym g ∙ f)
            ],
          )
    ]

pub Grows-elsewhere :
    (c j : ℕ) (cell : StripingCell) (cells : List StripingCell) (r r' : VerticalRange)
    → (cell.idx_in_stripe == j) ≡ false
    → Grows c j cells r r'
    → Grows c j (cell ∷ cells) r r'
Grows-elsewhere c j cell cells r r' other (span, held, starts) =
    let g : first_in c j (cell ∷ cells) ≡ first_in c j cells = rw other refl in
    (rw other (omega arith), held, λ z x f. starts z x (sym g ∙ f))
