-- ===== src/Tests/Striping.antt =====
-- StripedBlockUtil on small groups: cells of 4 bytes, 3 data blocks and 2 parity blocks.
use libhdfs.Striping.Ranges.{get_ranges_for_internal_blocks}
use libhdfs.Striping.Blocks.{bytes_in, first_in}
use libhdfs.Striping.Parity.{AreWithin, AreBelow, ranges-cover}
use libhdfs.Prelude.{
  ℕ, ◌+◌, ◌++◌, replicate, ◌≡◌, refl, inl, arith, List, [], ◌∷◌, ok, fault, throw, ◌>>=◌,
  invalid_parameter, get_elem?, some, ◌<◌, i32, cast32,
}
use libhdfs.Prelude.Int.{pos, negsuc, ◌+ℤ◌, ◌-ℤ◌, ◌*ℤ◌}
use libhdfs.Striping.Length.{
  get_internal_block_length, checked_block_length, last_cell_size, internal_block_length-parity,
  internal_block_length-overflow,
}
use libhdfs.Striping.Count.{
  bytes_in_block, internal_block_length-counts, total_length, total_length-group,
}
use libhdfs.Striping.Layout.{init, cell_byte, offset_in_blk_to_offset_in_bg, offset_in_bg-init}
use libhdfs.Striping.Cells.{get_striping_cells_of_byte_range, group_bytes, cells-range}
use libhdfs.Striping.Points.{insert}
use libhdfs.Striping.Stripes.{
  VerticalRange, AlignedStripe, new_stripe, stripe_points, add_last_cell, stripes_from, stripes_of,
  merge_ranges, last_cell_end_offset,
}
use libhdfs.Striping.Aligned.{IsAligned, merge_ranges-IsAligned}

-- 18 bytes: one full stripe, a full cell, and two bytes.
length_of_second_block : get_internal_block_length (pos 18) (pos 4) (pos 3) (pos 1) ≡ ok (pos 6)
unfolding get_internal_block_length checked_block_length last_cell_size i32 cast32 ◌+ℤ◌ ◌-ℤ◌ ◌*ℤ◌
length_of_second_block = refl

negative_size :
    get_internal_block_length (negsuc 0) (pos 4) (pos 3) (pos 1) ≡ throw invalid_parameter
unfolding get_internal_block_length
negative_size = refl

internal_block_length-counts_example :
    get_internal_block_length (pos 18) (pos 4) (pos 3) (pos 1) ≡ ok (pos (bytes_in_block 4 3 1 18))
internal_block_length-counts_example =
    internal_block_length-counts 4 3 18 1 (omega arith) (omega arith) (omega arith) (omega arith)

total_length-group_example : total_length 4 3 18 3 ≡ ok (pos 18)
total_length-group_example =
    total_length-group 4 3 18 (omega arith) (omega arith) (omega arith) (omega arith)

parity_block_run :
    get_internal_block_length (pos 18) (pos 4) (pos 3) (pos 4)
    ≡ get_internal_block_length (pos 18) (pos 4) (pos 3) (pos 0)
parity_block_run = internal_block_length-parity (pos 18) (pos 4) 3 4 (omega arith) (omega arith)

-- 6 GiB and a byte over three data blocks, with cells of 1 MiB.
internal_block_length-overflow_example :
    get_internal_block_length (pos 6_442_450_945) (pos 1_048_576) (pos 3) (pos 0) ≡ fault
internal_block_length-overflow_example =
    internal_block_length-overflow 6_442_450_945 1_048_576 3 0 0 (omega arith) (omega arith)
      (omega arith) refl (omega arith) (omega arith)

offset_comes_back :
    offset_in_blk_to_offset_in_bg 4 3 (cell_byte 4 (init 3 3 4 1) 2) (init 3 3 4 1).idx_in_stripe
    ≡ 19
offset_comes_back = offset_in_bg-init 4 3 4 1 3 2 (omega arith)

cells-range_example :
    (get_striping_cells_of_byte_range 3 4 18 2 9 >>= λ cells. ok (group_bytes 4 3 cells))
    ≡ ok (2 ∷ 3 ∷ 4 ∷ 5 ∷ 6 ∷ 7 ∷ 8 ∷ 9 ∷ [])
cells-range_example = cells-range 3 4 18 2 9 (omega arith) (omega arith)

abbrev two_ranges : List VerticalRange
two_ranges =
    record { offset_in_block = 2; span_in_block = 2 }
    ∷ record { offset_in_block = 0; span_in_block = 4 }
    ∷ record { offset_in_block = 0; span_in_block = 0 }
    ∷ []

two_stripes : merge_ranges 3 2 4 18 two_ranges ≡ ok (new_stripe 0 2 5 ∷ new_stripe 2 2 5 ∷ [])
unfolding merge_ranges stripe_points add_last_cell stripes_of stripes_from insert
    last_cell_end_offset cast32
two_stripes = refl

merge_ranges-IsAligned_example :
    (stripes : List AlignedStripe) × (from : ℕ) × (to : ℕ) × (merge_ranges 3 2 4 18 two_ranges
      ≡ ok stripes)
    × IsAligned from to two_ranges stripes
merge_ranges-IsAligned_example =
    merge_ranges-IsAligned 3 2 4 18 2 two_ranges (inl (omega arith, inl refl))

-- Two cells of a group with two data blocks and one parity block.
ranges-cover_example :
    (data_ranges : List VerticalRange) × (p : VerticalRange) × (get_ranges_for_internal_blocks 2 1
        10
        (init 2 4 0 6 ∷ init 2 3 1 0 ∷ [])
      ≡ ok (data_ranges ++ replicate 1 p))
    × AreWithin p.offset_in_block (p.offset_in_block + p.span_in_block) data_ranges
    × ((j : ℕ)
        → j < 2
        → (r : VerticalRange) × (get_elem? data_ranges j ≡ some r)
          × (r.span_in_block ≡ bytes_in j (init 2 4 0 6 ∷ init 2 3 1 0 ∷ []))
          × ((x : ℕ)
              → first_in 10 j (init 2 4 0 6 ∷ init 2 3 1 0 ∷ []) ≡ some x
              → r.offset_in_block ≡ x))
ranges-cover_example = ranges-cover 2 1 10 (init 2 4 0 6) (init 2 3 1 0 ∷ []) below
  where
    below : AreBelow 2 (init 2 4 0 6 ∷ init 2 3 1 0 ∷ [])
    below = unfold init in (omega arith, (omega arith, tt))
