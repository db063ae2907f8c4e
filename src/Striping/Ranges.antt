-- ===== src/Striping/Ranges.antt =====
-- StripedBlockUtil::getRangesForInternalBlocks: the range that is wanted of every internal block.
use libhdfs.Prelude.{
  ℕ, ◌+◌, ◌-◌, ◌*◌, ◌^◌, ltb, ◌==◌, if◌then◌else◌, List, [], ◌∷◌, ◌++◌, take, replicate, set,
  get_elem?, none, some, Result, ok, fault, ◌>>=◌,
}
use libhdfs.Striping.Layout.{StripingCell}
use libhdfs.Striping.Stripes.{VerticalRange}

-- The variables of the first loop; `latest_stop` is `latestEnd + 1`, so it starts at 0.
pub record Extent : Type 0 where
  pub ranges : List VerticalRange
  pub earliest_start : ℕ
  pub latest_stop : ℕ

unfoldable pub extend_range : ℕ → StripingCell → VerticalRange → VerticalRange
extend_range c cell r =
    if r.span_in_block == 0
    then record {
      offset_in_block = cell.idx_in_internal_blk * c + cell.offset;
      span_in_block = cell.size;
    }
    else record r { span_in_block = r.span_in_block + cell.size }

-- One round; an index past the end is undefined.
unfoldable pub add_cell : ℕ → StripingCell → Extent → Result Extent
add_cell c cell e = elim (get_elem? e.ranges cell.idx_in_stripe) [
  | none ↦ fault
  | some r ↦
      let r' = extend_range c cell r in
      let stop = r'.offset_in_block + r'.span_in_block in
      ok (record {
        ranges = set e.ranges cell.idx_in_stripe r';
        earliest_start =
            if ltb r'.offset_in_block e.earliest_start
            then r'.offset_in_block
            else e.earliest_start;
        latest_stop = if ltb e.latest_stop stop then stop else e.latest_stop;
      })
]

unfoldable pub add_cells : ℕ → List StripingCell → Extent → Result Extent
add_cells c [] e = ok e
add_cells c (cell ∷ cells) e = add_cell c cell e >>= λ e'. add_cells c cells e'

abbrev pub no_range : VerticalRange
no_range = record { offset_in_block = 0; span_in_block = 0 }

-- The second loop gives every parity block the range from the first start to the last end. A byte
-- range has a cell at least; for no cell `latestEnd - earliestStart + 1` is negative, and 0 here.
unfoldable pub get_ranges_for_internal_blocks :
    ℕ → ℕ → ℕ → List StripingCell → Result (List VerticalRange)
get_ranges_for_internal_blocks k parity c cells = do
  e ← add_cells c cells (record {
    ranges = replicate (k + parity) no_range;
    earliest_start = 2 ^ 63 - 1;
    latest_stop = 0;
  })
  ok (
      take k e.ranges
      ++ replicate parity (record {
        offset_in_block = e.earliest_start;
        span_in_block = e.latest_stop - e.earliest_start;
      }))
