-- ===== src/Striping/Stripes.antt =====
-- StripedBlockUtil::mergeRangesForInternalBlocks: the ranges wanted of the internal blocks are cut
-- into stripes at every point where one of them begins or ends.
use libhdfs.Prelude.Int.{pos, negsuc}
use libhdfs.Prelude.{
  cast32, ℕ, ◌+◌, ◌-◌, ◌*◌, ◌/◌, ◌%◌, ltb, ◌==◌, if◌then◌else◌, ◌&&◌, List, [], ◌∷◌, Option, none,
  Result, ok, fault, ◌>>=◌, replicate,
}
use libhdfs.Striping.Points.{insert}

pub record VerticalRange : Type 0 where
  pub offset_in_block : ℕ
  pub span_in_block : ℕ

-- The states of StripingChunk: FETCHED, MISSING, PENDING, REQUESTED, ALLZERO.
pub data ChunkState : Type 0 where
  fetched missing pending requested allzero : ChunkState

-- `chunks` holds `none` for a null pointer.
pub record AlignedStripe : Type 0 where
  pub offset_in_block : ℕ
  pub span_in_block : ℕ
  pub chunks : List (Option ChunkState)
  pub fetched_chunks_num : ℕ
  pub missing_chunks_num : ℕ

unfoldable pub new_stripe : ℕ → ℕ → ℕ → AlignedStripe
new_stripe offset length width = record {
  offset_in_block = offset;
  span_in_block = length;
  chunks = replicate width none;
  fetched_chunks_num = 0;
  missing_chunks_num = 0;
}

-- The first loop: the ends of the ranges that are not empty.
unfoldable pub stripe_points : List VerticalRange → List ℕ → List ℕ
stripe_points [] points = points
stripe_points (r ∷ rs) points = stripe_points rs (
    if r.span_in_block == 0
    then points
    else insert (r.offset_in_block + r.span_in_block) (insert r.offset_in_block points))

-- `lastCellEndOffset`, with the index of the last cell cast to an int. A negative offset is 0 here: the
-- only use of it is in the test of `add_last_cell`, where no point lies before either.
unfoldable pub last_cell_end_offset : ℕ → ℕ → ℕ → ℕ
last_cell_end_offset num_bytes c k = elim (cast32 (num_bytes / c)) [
  | pos n ↦ n / k * c + num_bytes % c
  | negsuc n ↦ num_bytes % c - (n + 1) / k * c
]

abbrev pub last_point : ℕ → List ℕ → ℕ
last_point p [] = p
last_point p (q ∷ qs) = last_point q qs

-- `*begin()` and `*rbegin()` of an empty set are undefined.
unfoldable pub add_last_cell : ℕ → List ℕ → Result (List ℕ)
add_last_cell e [] = fault
add_last_cell e (p ∷ ps) =
    ok (if ltb p e && ltb e (last_point p ps) then insert e (p ∷ ps) else (p ∷ ps))

-- The last loop, behind the first point, where `prev` is no longer -1.
unfoldable pub stripes_from : ℕ → ℕ → List ℕ → List AlignedStripe
stripes_from width prev [] = []
stripes_from width prev (point ∷ points) =
    new_stripe prev (point - prev) width ∷ stripes_from width point points

unfoldable pub stripes_of : ℕ → List ℕ → List AlignedStripe
stripes_of width [] = []
stripes_of width (p ∷ ps) = stripes_from width p ps

unfoldable pub merge_ranges : ℕ → ℕ → ℕ → ℕ → List VerticalRange → Result (List AlignedStripe)
merge_ranges k parity c num_bytes ranges = do
  points ← add_last_cell (last_cell_end_offset num_bytes c k) (stripe_points ranges [])
  ok (stripes_of (k + parity) points)
