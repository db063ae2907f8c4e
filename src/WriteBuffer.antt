-- ===== src/WriteBuffer.antt =====
-- src/common/WriteBuffer.cpp and WriteBuffer.h: a buffer that grows as it is written. Sizes are far
-- below 2 ^ 64.
pub mod Appending
use libhdfs.Prelude.{
  ℕ, ◌+◌, ◌-◌, ◌*◌, ltb, leb, ◌&&◌, if◌then◌else◌, List, [], ◌∷◌, ◌++◌, length, take, drop,
  replicate, Option, none, some, Result, ok, fault, ◌>>=◌, ◌>>◌, assert,
}
use libhdfs.Bytes.{blit}
use libhdfs.Bytes.BigEndian.{write_big_endian16, write_big_endian32}

-- `size` is the position that is written next.
pub record WriteBuffer : Type 0 where
  pub size : ℕ
  pub buffer : List ℕ

abbrev pub writebuffer_init_size : ℕ
writebuffer_init_size = 64

unfoldable pub new_buffer : WriteBuffer
new_buffer = record { size = 0; buffer = replicate writebuffer_init_size 0 }

-- `buffer.resize(n)`
unfoldable pub resize : ℕ → List ℕ → List ℕ
resize n buffer = take n buffer ++ replicate (n - length buffer) 0

unfoldable pub grown : ℕ → List ℕ → List ℕ
grown target buffer =
    if leb (length buffer) target
    then resize (if ltb (2 * length buffer) target then target else 2 * length buffer) buffer
    else buffer

-- The position that alloc returns, or `none` for NULL.
unfoldable pub alloc : ℕ → ℕ → WriteBuffer → Result (Option ℕ × WriteBuffer)
alloc offset s b =
    assert (leb offset b.size && leb b.size (length b.buffer))
    >> (if ltb b.size offset
        then ok (none, b)
        else ok (some offset, record { size = offset + s; buffer = grown (offset + s) b.buffer }))

-- `memcpy` to NULL is undefined.
unfoldable pub copy_to : Option ℕ → List ℕ → WriteBuffer → Result WriteBuffer
copy_to none bytes b = fault
copy_to (some p) bytes b = blit b.buffer p bytes >>= λ buffer. ok (record b { buffer = buffer })

-- write(bytes, s, pos): the region is allocated at the end, whatever `pos` is.
unfoldable pub write : List ℕ → ℕ → WriteBuffer → Result WriteBuffer
write bytes pos b =
    assert (leb pos b.size && ltb pos (length b.buffer))
    >> (alloc b.size (length bytes) b >>= λ (p, b'). copy_to p bytes b')

-- write(bytes, s)
unfoldable pub append : List ℕ → WriteBuffer → Result WriteBuffer
append bytes b = write bytes b.size b

-- writeString: the characters and a NUL.
unfoldable pub write_string : List ℕ → ℕ → WriteBuffer → Result WriteBuffer
write_string str pos b = write (str ++ (0 ∷ [])) pos b

unfoldable pub write_char : ℕ → ℕ → WriteBuffer → Result WriteBuffer
write_char value pos b = append (value ∷ []) b

unfoldable pub write_big_int16 : ℕ → ℕ → WriteBuffer → Result WriteBuffer
write_big_int16 value pos b = append (write_big_endian16 value) b

unfoldable pub write_big_int32 : ℕ → ℕ → WriteBuffer → Result WriteBuffer
write_big_int32 value pos b = write (write_big_endian32 value) pos b

-- writeVarint32: `to_array` is protobuf's WriteVarint32ToArray, which writes at most five bytes.
unfoldable pub write_varint32 : (ℕ → List ℕ) → ℕ → ℕ → WriteBuffer → Result WriteBuffer
write_varint32 to_array value pos b = write (to_array value) pos b

-- getBuffer: the data from `offset` on.
unfoldable pub get_buffer : ℕ → WriteBuffer → Result (Option (List ℕ))
get_buffer offset b =
    assert (leb offset b.size && ltb offset (length b.buffer))
    >> ok (if leb b.size offset then none else some (drop offset b.buffer))

unfoldable pub get_data_size : ℕ → WriteBuffer → Result ℕ
get_data_size offset b = assert (leb offset b.size) >> ok (b.size - offset)

unfoldable pub set_buffer_data_size : ℕ → WriteBuffer → WriteBuffer
set_buffer_data_size s b = record b { size = s }
