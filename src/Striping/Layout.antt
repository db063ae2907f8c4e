-- ===== src/Striping/Layout.antt =====
-- StripedBlockUtil::offsetInBlkToOffsetInBG and StripingCell::init: the two directions between a
-- position in the block group and one in an internal block. The `int64_t` products are at most the
-- group's size, so they are taken on plain numbers.
use libhdfs.Prelude.{ℕ, ◌+◌, ◌-◌, ◌*◌, ◌/◌, ◌%◌, ◌<◌, ◌≡◌, ap, arith, div_of_sum, mod_of_sum}
use native.Mathlib.Nat.{div-add-mod'}

unfoldable pub offset_in_blk_to_offset_in_bg : ℕ → ℕ → ℕ → ℕ → ℕ
offset_in_blk_to_offset_in_bg cell_size data_blk_num offset_in_blk idx_in_block_group =
    offset_in_blk / cell_size * cell_size * data_blk_num
    + idx_in_block_group * cell_size
    + offset_in_blk % cell_size

-- StripingCell. The parameters of `init` hide the fields `ecPolicy` and `idxInBlkGroup`, whose
-- assignments are to the parameters themselves: the two fields are never set, and are left out.
pub record StripingCell : Type 0 where
  pub idx_in_internal_blk : ℕ
  pub idx_in_stripe : ℕ
  pub offset : ℕ
  pub size : ℕ

unfoldable pub init : ℕ → ℕ → ℕ → ℕ → StripingCell
init data_units cell_size idx_in_blk_group cell_offset = record {
  idx_in_internal_blk = idx_in_blk_group / data_units;
  idx_in_stripe = idx_in_blk_group - idx_in_blk_group / data_units * data_units;
  offset = cell_offset;
  size = cell_size;
}

-- Byte `j` of a cell, as an offset in its internal block.
abbrev pub cell_byte : ℕ → StripingCell → ℕ → ℕ
cell_byte c cell j = cell.idx_in_internal_blk * c + cell.offset + j

-- offsetInBlkToOffsetInBG takes byte `j` of the cell that `init` makes of the group's cell `g` back
-- to its place in the group, for every byte inside the cell.
pub offset_in_bg-init :
    (c k g o s j : ℕ)
    → o + j < c
    → let cell = init k s g o in
      offset_in_blk_to_offset_in_bg c k (cell_byte c cell j) cell.idx_in_stripe ≡ g * c + (o + j)
unfolding init offset_in_blk_to_offset_in_bg
offset_in_bg-init c k g o s j h =
    let place : g / k * c + o + j ≡ g / k * c + (o + j) = omega arith in
    let cells : g / k * k + (g - g / k * k) ≡ g = omega (arith, div-add-mod' g k) in
    let bytes : (g / k * k + (g - g / k * k)) * c ≡ g * c = ap (λ t. t * c) cells in
    rw (place, div_of_sum (g / k) c (o + j) h, mod_of_sum (g / k) c (o + j) h)
      (omega (arith, bytes))
