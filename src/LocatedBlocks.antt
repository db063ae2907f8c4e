-- ===== src/LocatedBlocks.antt =====
-- LocatedBlocksImpl::findBlock of src/server/LocatedBlocks.cpp. Positions and offsets are not
-- negative, and a block ends below 2 ^ 63.
pub mod Scan
use libhdfs.Prelude.{
  ℕ, zero, suc, ◌+◌, ◌-◌, ◌<◌, ◌≤◌, ◌≡◌, refl, ◌∙◌, sym, ap, arith, ltb, leb, ◌==◌, not, ◌||◌, ◌&&◌,
  if◌then◌else◌, Bool, true, false, inl, inr, Bool-cases, List, [], ◌∷◌, Option, none, some, Result,
  ok, fault, ◌>>=◌, ◌>>◌, assert, get_elem?,
}

-- The fields that findBlock reads, and the number that tells blocks apart; `num_bytes` is of the
-- ExtendedBlock.
pub record LocatedBlock : Type 0 where
  pub offset : ℕ
  pub num_bytes : ℕ
  pub block_id : ℕ

-- `last_block` is `none` for a null pointer.
pub record LocatedBlocks : Type 0 where
  pub file_length : ℕ
  pub last_block : Option LocatedBlock
  pub blocks : List LocatedBlock

-- `std::lower_bound` with `operator <`, which compares the offsets: the index of the first block
-- of a sorted list that does not begin before `position`.
unfoldable pub lower_bound : ℕ → List LocatedBlock → ℕ
lower_bound position [] = 0
lower_bound position (b ∷ bs) =
    let rest = lower_bound position bs in if ltb b.offset position then suc rest else 0

-- `blocks.back()`, which is undefined for no block.
unfoldable pub back : List LocatedBlock → Result LocatedBlock
back [] = fault
back (b ∷ []) = ok b
back (b ∷ c ∷ bs) = back (c ∷ bs)

unfoldable pub deref : List LocatedBlock → ℕ → Result LocatedBlock
deref blocks i = elim (get_elem? blocks i) [ none ↦ fault | some b ↦ ok b ]

-- The chain of conditions that sets `retval`, by what `bound` points to.
unfoldable pub choose : ℕ → List LocatedBlock → ℕ → Option LocatedBlock → Result LocatedBlock
choose position blocks bound none = back blocks
choose position blocks bound (some b) =
    assert (leb position b.offset)
    >> (if ltb position b.offset
        then (assert (not (bound == 0)) >> deref blocks (bound - 1))
        else ok b)

-- The last test.
unfoldable pub if_inside : ℕ → LocatedBlock → Option LocatedBlock
if_inside position b =
    if ltb position b.offset || leb (b.offset + b.num_bytes) position then none else some b

unfoldable pub begins_after : ℕ → List LocatedBlock → Bool
begins_after position [] = true
begins_after position (b ∷ bs) = ltb position b.offset

unfoldable pub find_block : LocatedBlocks → ℕ → Result (Option LocatedBlock)
find_block lb position =
    if ltb position lb.file_length
    then (if begins_after position lb.blocks
        then ok none
        else (let bound = lower_bound position lb.blocks in
            choose position lb.blocks bound (get_elem? lb.blocks bound) >>= λ b.
            ok (if_inside position b)))
    else ok lb.last_block
