-- ===== src/Striping/Cells.antt =====
-- StripedBlockUtil::getStripingCellsOfByteRange: the cells that a byte range of a group touches.
use libhdfs.Prelude.{
  ℕ, zero, suc, ◌+◌, ◌-◌, ◌*◌, ◌/◌, ◌%◌, ◌<◌, ◌≤◌, ◌≡◌, refl, ◌∙◌, ap, ap₂, sym, arith, min, ltb,
  leb, ◌==◌, if◌then◌else◌, ◌&&◌, List, [], ◌∷◌, ◌++◌, Result, ok, throw, require,
  invalid_parameter, ◌>>=◌, ◌>>◌, range, range-append, div_mono, Bool-cases, inl, inr, true, false,
  ℕ_discrete, fault, length_error, cast32, cast32_pos, int_of, int_of-ok, ◌^◌,
}
use libhdfs.Prelude.Int.{ℤ, pos, negsuc}
use mathlib.Core.List.{append_assoc, append-nil}
use native.Mathlib.Nat.{div-add-mod', mod-lt}
use libhdfs.Striping.Layout.{
  StripingCell, init, cell_byte, offset_in_blk_to_offset_in_bg, offset_in_bg-init,
}

-- `for (i = 1; i < numCells - 1; i++) cells[i].init(ecPolicy, cellSize, i + firstCellIdxInBG, 0)`:
-- the `n` cells from the group's cell `g` on.
unfoldable pub full_cells : ℕ → ℕ → ℕ → ℕ → List StripingCell
full_cells k c g zero = []
full_cells k c g (suc n) = init k c g 0 ∷ full_cells k c (g + 1) n

-- The cells behind the check of the arguments.
unfoldable pub cells_between : ℕ → ℕ → ℕ → ℕ → ℕ → ℕ → List StripingCell
cells_between k c range_start range_end first_cell last_cell =
    let len = range_end - range_start + 1 in
    let num_cells = last_cell - first_cell + 1 in
    let first_cell_size = min (c - range_start % c) len in
    let first = init k first_cell_size first_cell (range_start % c) in
    let last = init k (range_end % c + 1) last_cell 0 in
    let middle = full_cells k c (first_cell + 1) (num_cells - 2) in
    if first_cell == last_cell then first ∷ [] else (first ∷ (middle ++ (last ∷ [])))

-- The index of a cell, which is an int; the cells of this model have no negative index, and `fault`
-- stands for one.
unfoldable pub cell_index : ℤ → Result ℕ
cell_index (pos n) = ok n
cell_index (negsuc n) = fault

-- `cells.resize(numCells)` with an int, and `cells[0]`: where a cast has put the last index before the
-- first, the size is negative or 0.
unfoldable pub cells_of_range : ℕ → ℕ → ℕ → ℕ → Result (List StripingCell)
cells_of_range k c range_start range_end = do
  first_cell ← cell_index (cast32 (range_start / c))
  last_cell ← cell_index (cast32 (range_end / c))
  num_cells ← int_of (last_cell + 1 - first_cell)
  (if num_cells == 0
      then (if last_cell + 1 == first_cell then fault else throw length_error)
      else ok (cells_between k c range_start range_end first_cell last_cell))

unfoldable pub get_striping_cells_of_byte_range : ℕ → ℕ → ℕ → ℕ → ℕ → Result (List StripingCell)
get_striping_cells_of_byte_range k c num_bytes range_start range_end = do
  require (leb range_start range_end && ltb range_end num_bytes) invalid_parameter
  cells_of_range k c range_start range_end

-- The offsets in the group of the bytes of a cell, from byte `j` on, by offsetInBlkToOffsetInBG.
abbrev pub bytes_from : ℕ → ℕ → StripingCell → ℕ → ℕ → List ℕ
bytes_from c k cell j zero = []
bytes_from c k cell j (suc n) =
    offset_in_blk_to_offset_in_bg c k (cell_byte c cell j) cell.idx_in_stripe
    ∷ bytes_from c k cell (j + 1) n

abbrev pub group_bytes : ℕ → ℕ → List StripingCell → List ℕ
group_bytes c k [] = []
group_bytes c k (cell ∷ cells) = bytes_from c k cell 0 cell.size ++ group_bytes c k cells

bytes_from-range :
    (c k g o s j n : ℕ)
    → o + j + n ≤ c
    → bytes_from c k (init k s g o) j n ≡ range (g * c + (o + j)) n
bytes_from-range c k g o s j zero h = refl
bytes_from-range c k g o s j (suc n) h =
    ap₂ ◌∷◌ (offset_in_bg-init c k g o s j (omega arith))
      (bytes_from-range c k g o s (j + 1) n (omega arith) ∙ ap (λ t. range t n) (omega arith))

group_bytes-append :
    (c k : ℕ) (xs ys : List StripingCell)
    → group_bytes c k (xs ++ ys) ≡ group_bytes c k xs ++ group_bytes c k ys
group_bytes-append c k [] ys = refl
group_bytes-append c k (x ∷ xs) ys =
    rw (group_bytes-append c k xs ys)
      (sym (append_assoc (bytes_from c k x 0 x.size) (group_bytes c k xs) (group_bytes c k ys)))

-- A cell that `init` makes covers the bytes of the group from its own first one on.
init-range : (c k g o s : ℕ) → o + s ≤ c → group_bytes c k (init k s g o ∷ []) ≡ range (g * c + o) s
unfolding init
init-range c k g o s h =
    append-nil _ ∙ bytes_from-range c k g o s 0 s (omega arith) ∙ ap (λ t. range t s) (omega arith)

full_cells-range : (c k g n : ℕ) → group_bytes c k (full_cells k c g n) ≡ range (g * c) (n * c)
unfolding full_cells
full_cells-range c k g zero = ap (range (g * c)) {x = 0} (omega arith)
full_cells-range c k g (suc n) =
    group_bytes-append c k (init k c g 0 ∷ []) (full_cells k c (g + 1) n)
    ∙ ap₂ ◌++◌ (init-range c k g 0 c (omega arith)) (full_cells-range c k (g + 1) n)
    ∙ range-append (g * c + 0) ((g + 1) * c) c (n * c) (omega arith)
    ∙ ap₂ range (omega arith) (omega arith)

module _ (k c first last : ℕ) (hc : 0 < c) (h : first ≤ last) where
  len : ℕ
  len = last - first + 1

  first_init : StripingCell
  first_init = init k (min (c - first % c) (last - first + 1)) (first / c) (first % c)

  last_init : StripingCell
  last_init = init k (last % c + 1) (last / c) 0

  one_cell : first / c ≡ last / c → group_bytes c k (first_init ∷ []) ≡ range first len
  unfolding first_init len
  one_cell e =
      let q : first / c * c ≡ last / c * c = ap (λ t. t * c) e in
      init-range c k (first / c) (first % c) (min (c - first % c) (last - first + 1))
        (omega (arith, mod-lt first hc))
      ∙ ap₂ range (div-add-mod' first c)
          (omega (arith, mod-lt last hc, div-add-mod' first c, div-add-mod' last c))

  head_cell :
      (d : ℕ)
      → first / c + 1 + d ≡ last / c
      → group_bytes c k (first_init ∷ []) ≡ range first (c - first % c)
  unfolding first_init
  head_cell d e =
      let q : (first / c + 1 + d) * c ≡ last / c * c = ap (λ t. t * c) e in
      init-range c k (first / c) (first % c) (min (c - first % c) (last - first + 1))
        (omega (arith, mod-lt first hc))
      ∙ ap₂ range (div-add-mod' first c)
          (omega (arith, mod-lt first hc, div-add-mod' first c, div-add-mod' last c))

  several_cells :
      (d : ℕ)
      → first / c + 1 + d ≡ last / c
      → group_bytes c k (first_init ∷ (full_cells k c (first / c + 1) d ++ (last_init ∷ [])))
        ≡ range first len
  unfolding last_init len
  several_cells d e =
      let q : (first / c + 1 + d) * c ≡ last / c * c = ap (λ t. t * c) e in
      let lo = mod-lt first hc in
      let a = div-add-mod' first c in
      let b = div-add-mod' last c in
      let mid = full_cells k c (first / c + 1) d in
      group_bytes-append c k (first_init ∷ []) (mid ++ (last_init ∷ []))
      ∙ ap₂ ◌++◌ (head_cell d e) (
          group_bytes-append c k mid (last_init ∷ [])
          ∙ ap₂ ◌++◌ (full_cells-range c k (first / c + 1) d)
              (init-range c k (last / c) 0 (last % c + 1) (omega (arith, mod-lt last hc)))
          ∙ range-append ((first / c + 1) * c) (last / c * c + 0) (d * c) (last % c + 1)
              (omega arith))
      ∙ range-append first ((first / c + 1) * c) (c - first % c) (d * c + (last % c + 1))
          (omega arith)
      ∙ ap (range first) (omega arith)

  cells_between-range :
      group_bytes c k (cells_between k c first last (first / c) (last / c)) ≡ range first len
  unfolding cells_between first_init last_init
  cells_between-range = elim (ℕ_discrete (first / c) (last / c)) [
    | yes e ↦ let t : (first / c == last / c) ≡ true = ground arith in rw t (one_cell e)
    | no ne ↦
        let t : (first / c == last / c) ≡ false = ground arith in
        let le : first / c ≤ last / c = div_mono c first last hc h in
        rw t (several_cells (last / c - first / c + 1 - 2) (omega arith))
  ]

  -- Below 2 ^ 31 - 1 the casts leave the indexes as they are.
  cells_of_range-between :
      last / c + 1 < 2 ^ 31
      → cells_of_range k c first last ≡ ok (cells_between k c first last (first / c) (last / c))
  unfolding cells_of_range cell_index
  cells_of_range-between small =
      let le : first / c ≤ last / c = div_mono c first last hc h in
      let some_cells : (last / c + 1 - first / c == 0) ≡ false = ground arith in
      rw
        (
          cast32_pos (first / c) (omega arith),
          cast32_pos (last / c) (omega arith),
          int_of-ok (last / c + 1 - first / c) (omega arith),
          some_cells,
        )
        refl

-- Where the index of the range's last cell is below 2 ^ 31 - 1, the cells of a valid byte range hold
-- exactly the bytes of the range, each once and in order; an empty or too long range is refused.
pub cells-range :
    (k c num_bytes first last : ℕ)
    → 0 < c
    → last / c + 1 < 2 ^ 31
    → (get_striping_cells_of_byte_range k c num_bytes first last >>= λ cells.
        ok (group_bytes c k cells))
      ≡ (if leb first last && ltb last num_bytes
          then ok (range first (last - first + 1))
          else throw invalid_parameter)
unfolding get_striping_cells_of_byte_range
cells-range k c num_bytes first last hc small =
    elim (Bool-cases (leb first last && ltb last num_bytes)) [
      | inl e ↦
          rw (e, cells_of_range-between k c first last hc (ground arith) small)
            (ap ok (unfold len in cells_between-range k c first last hc (ground arith)))
      | inr e ↦ rw e
    ]
