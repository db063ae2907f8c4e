-- ===== src/Tests/Codec.antt =====
-- The variable-length integers and the texts at small numbers.
use libhdfs.Prelude.{ℕ, ◌+◌, ◌≤◌, ◌≡◌, refl, arith, ◌⊎◌, List, [], ◌∷◌, ok, throw, range_error}
use libhdfs.Prelude.Int.{pos, negsuc}
use libhdfs.Codec.Writable.{
  WritableUtils, byte_of, write_byte, read_int64, write_int64, read_text, write_text, byte_count,
  write_bytes, write_long,
}
use libhdfs.Codec.Cursor.{at}
use libhdfs.Codec.Integers.{read_int64-write_int64, write_int64_count}
use libhdfs.Codec.Texts.{read_text-write_text}

abbrev room : List ℕ
room = 0 ∷ 0 ∷ 0 ∷ 0 ∷ 0 ∷ 0 ∷ 0 ∷ 0 ∷ 0 ∷ 0 ∷ 0 ∷ 0 ∷ []

-- -129 takes the tag -121 and a byte.
write_int64_negative :
    write_int64 (negsuc 128) (at (1 ∷ []) (0 ∷ 0 ∷ 0 ∷ []))
    ≡ ok (3, record { buffer = 1 ∷ 135 ∷ 128 ∷ 0 ∷ []; current = 3 })
unfolding write_int64 write_long write_byte byte_of byte_count write_bytes
write_int64_negative = refl

write_int64_full : write_int64 (pos 5) (at (1 ∷ []) []) ≡ throw range_error
unfolding write_int64 write_byte
write_int64_full = refl

read_int64-write_int64_example :
    (n : ℕ) × (w : WritableUtils) × (write_int64 (negsuc 70000) (at (1 ∷ []) room) ≡ ok (n, w))
    × (read_int64 (record w { current = 1 }) ≡ ok (negsuc 70000, w))
read_int64-write_int64_example =
    read_int64-write_int64 (negsuc 70000) (1 ∷ []) room (omega arith) (omega arith)

write_int64_count_example :
    (n : ℕ) × (w : WritableUtils) × (write_int64 (pos 300) (at (1 ∷ []) room) ≡ ok (n, w))
    × (((n ≡ 1) × (w.current ≡ 1 + n)) ⊎ ((3 ≤ n) × (w.current + 1 ≡ 1 + n)))
write_int64_count_example = write_int64_count (pos 300) (1 ∷ []) room (omega arith) (omega arith)

read_text-write_text_example :
    (n : ℕ) × (w : WritableUtils) × (write_text (7 ∷ 8 ∷ []) (at (1 ∷ []) room) ≡ ok (n, w))
    × (read_text (record w { current = 1 }) ≡ ok (7 ∷ 8 ∷ [], w))
read_text-write_text_example =
    read_text-write_text (7 ∷ 8 ∷ []) (1 ∷ []) room (omega arith) (omega arith)
