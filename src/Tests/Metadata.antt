-- ===== src/Tests/Metadata.antt =====
-- Permissions, and a file of two blocks of which the second one is still being written.
use libhdfs.Prelude.{ℕ, ◌≡◌, refl, arith, [], ◌∷◌, none, some, ok, ltb, if◌then◌else◌}
use libhdfs.Permission.{
  Action, Letter, implies, action_and, action_or, complement, action_to_string, of_mode, to_short,
  to_uint, of_uint, letter, action_to_string-implies,
}
use libhdfs.LocatedBlocks.{LocatedBlock, LocatedBlocks, find_block}
use libhdfs.LocatedBlocks.Scan.{find_block-scan, scan}

abbrev block_at : ℕ → ℕ → LocatedBlock
block_at offset id = record { offset = offset; num_bytes = 10; block_id = id }

abbrev file : LocatedBlocks
file = record {
  file_length = 25;
  last_block = some (block_at 25 3);
  blocks = block_at 0 1 ∷ block_at 15 2 ∷ [];
}

find_block-scan_example :
    find_block file 20
    ≡ ok (if ltb 20 25 then scan 20 (block_at 0 1 ∷ block_at 15 2 ∷ []) else some (block_at 25 3))
find_block-scan_example =
    find_block-scan file 20 (omega arith, omega arith, (omega arith, omega arith, tt))

scan_gap : scan 12 (block_at 0 1 ∷ block_at 15 2 ∷ []) ≡ none
scan_gap = refl

of_mode_sticky : to_short (of_mode 5612) ≡ 492
unfolding to_short of_mode to_uint of_uint
of_mode_sticky = refl

write_execute_letters :
    (action_to_string Action.write_execute
      ≡ letter Letter.r (implies Action.write_execute Action.read)
        ∷ letter Letter.w (implies Action.write_execute Action.write)
        ∷ letter Letter.x (implies Action.write_execute Action.execute)
        ∷ [])
    × (action_and Action.write_execute (complement Action.write_execute) ≡ Action.none)
    × (action_or Action.write_execute (complement Action.write_execute) ≡ Action.all)
write_execute_letters = action_to_string-implies Action.write_execute
