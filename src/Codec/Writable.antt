-- ===== src/Codec/Writable.antt =====
-- src/common/WritableUtils.cpp: Hadoop's variable-length integers, raw bytes and texts. A `char` is
-- the byte that it holds; where the code reads it as a signed number it is `signed8` of the byte.
use libhdfs.Prelude.{
  ℕ, zero, suc, ◌+◌, ◌-◌, ◌*◌, ◌/◌, ◌%◌, ◌^◌, ltb, leb, ◌==◌, if◌then◌else◌, Bool, false, ◌||◌,
  List, [], ◌∷◌, length, get_elem?, set, none, some, Result, ok, throw, ◌>>=◌, range_error,
  length_error,
}
use libhdfs.Prelude.Int.{ℤ, pos, negsuc, ltb_ℤ}
use libhdfs.Bytes.{blit, slice}
use libhdfs.Bytes.BigEndian.{read_big_endian32 as from_array}

-- `len` is the length of the buffer that the constructor is given.
pub record WritableUtils : Type 0 where
  pub buffer : List ℕ
  pub current : ℕ

-- A byte as a signed char, and a 64-bit pattern as an int64_t.
unfoldable pub signed8 : ℕ → ℤ
signed8 b = if ltb b 128 then pos b else negsuc (255 - b)

unfoldable pub signed64 : ℕ → ℤ
signed64 x = if ltb x (2 ^ 63) then pos x else negsuc (2 ^ 64 - 1 - x)

-- The low byte of an `int` in two's complement.
unfoldable pub byte_of : ℤ → ℕ
byte_of (pos n) = n % 256
byte_of (negsuc n) = 255 - n % 256

unfoldable pub read_byte : WritableUtils → Result (ℕ × WritableUtils)
read_byte w = elim (get_elem? w.buffer w.current) [
  | none ↦ throw range_error
  | some b ↦ ok (b, record w { current = w.current + 1 })
]

unfoldable pub write_byte : ℤ → WritableUtils → Result WritableUtils
write_byte val w =
    if ltb w.current (length w.buffer)
    then ok (record w { buffer = set w.buffer w.current (byte_of val); current = w.current + 1 })
    else throw range_error

-- decodeWritableUtilsSize: `negsuc n` is -(n + 1), so it is below -112 from n = 112 on, and below
-- -120 from n = 120 on.
unfoldable pub decode_size : ℤ → ℕ
decode_size (pos n) = 1
decode_size (negsuc n) = if ltb n 112 then 1 else if leb 120 n then n - 118 else n - 110

unfoldable pub is_negative : ℤ → Bool
is_negative (pos n) = false
is_negative (negsuc n) = leb 120 n || ltb n 112

-- The loop of ReadInt64: `i = i << 8; i = i | (b & 0xFF)` on 64 bits, `n` times.
unfoldable pub read_bytes : ℕ → ℕ → WritableUtils → Result (ℕ × WritableUtils)
read_bytes zero i w = ok (i, w)
read_bytes (suc n) i w = do (b, w') ← read_byte w; read_bytes n (i * 256 % 2 ^ 64 + b) w'

unfoldable pub read_int64 : WritableUtils → Result (ℤ × WritableUtils)
read_int64 w = do
  (b, w') ← read_byte w
  let first_byte = signed8 b
  let len = decode_size first_byte
  let rest = read_bytes (len - 1) 0 w' >>= λ (i, w'').
      ok (signed64 (if is_negative first_byte then 2 ^ 64 - 1 - i else i), w'')
  (if len == 1 then ok (first_byte, w') else rest)

unfoldable pub read_int32 : WritableUtils → Result (ℤ × WritableUtils)
read_int32 w = do
  (val, w') ← read_int64 w
  (if ltb_ℤ val (negsuc (2 ^ 31 - 1)) || ltb_ℤ (pos (2 ^ 31 - 1)) val
      then throw range_error
      else ok (val, w'))

-- ReadRaw, for the bytes that it copies.
unfoldable pub read_raw : ℕ → WritableUtils → Result (List ℕ × WritableUtils)
read_raw size w =
    if ltb (length w.buffer - w.current) size
    then throw range_error
    else (slice w.buffer w.current size >>= λ bytes.
        ok (bytes, record w { current = w.current + size }))

-- `retval.resize(length)` throws for a negative length.
unfoldable pub read_text : WritableUtils → Result (List ℕ × WritableUtils)
read_text w =
    read_int32 w >>= λ (len, w'). elim len [ pos n ↦ read_raw n w' | negsuc n ↦ throw length_error ]

-- `while (tmp != 0) { tmp = tmp >> 8; len--; }`, as the number of rounds; a positive int64_t takes
-- at most 8.
unfoldable pub byte_count : ℕ → ℕ → ℕ
byte_count zero n = 0
byte_count (suc fuel) n = let rest = byte_count fuel (n / 256) in if n == 0 then 0 else suc rest

-- The last loop of WriteInt64, from `idx` down: `(value & mask) >> shiftbits` is a byte of `value`.
unfoldable pub write_bytes : ℕ → ℕ → WritableUtils → Result WritableUtils
write_bytes zero n w = ok w
write_bytes (suc idx) n w = do w' ← write_byte (pos (n / 256 ^ idx % 256)) w; write_bytes idx n w'

-- WriteInt64 of a number that takes more than a byte: `n` is the number or its complement, and
-- -`base` is what `len` starts from.
unfoldable pub write_long : ℕ → ℕ → WritableUtils → Result (ℕ × WritableUtils)
write_long base n w =
    let tag = base + byte_count 8 n in
    write_byte (negsuc (tag - 1)) w >>= λ w'.
    let len = if ltb 120 tag then tag - 120 else tag - 112 in
    write_bytes len n w' >>= λ w''. ok (2 + len, w'')

unfoldable pub write_int64 : ℤ → WritableUtils → Result (ℕ × WritableUtils)
write_int64 (pos n) w =
    if leb n 127 then (write_byte (pos n) w >>= λ w'. ok (1, w')) else write_long 112 n w
write_int64 (negsuc n) w =
    if ltb n 112 then (write_byte (negsuc n) w >>= λ w'. ok (1, w')) else write_long 120 n w

unfoldable pub write_int32 : ℤ → WritableUtils → Result (ℕ × WritableUtils)
write_int32 val w = write_int64 val w

unfoldable pub write_raw : List ℕ → WritableUtils → Result (ℕ × WritableUtils)
write_raw bytes w =
    if ltb (length w.buffer - w.current) (length bytes)
    then throw range_error
    else (blit w.buffer w.current bytes >>= λ buffer.
        ok (length bytes, record w { buffer = buffer; current = w.current + length bytes }))

-- A text is shorter than 2 ^ 31, so its `int32_t` length is its length.
unfoldable pub write_text : List ℕ → WritableUtils → Result (ℕ × WritableUtils)
write_text bytes w = do
  (n, w') ← write_int32 (pos (length bytes)) w
  (m, w'') ← write_raw bytes w'
  ok (n + m, w'')

-- ReadBigEndian32: four bytes, and `ntohl` of them; the result is the 32-bit pattern.
unfoldable pub read_big_endian32 : WritableUtils → Result (ℕ × WritableUtils)
read_big_endian32 w0 = do
  (a, w1) ← read_byte w0
  (b, w2) ← read_byte w1
  (c, w3) ← read_byte w2
  (d, w4) ← read_byte w3
  v ← from_array (a ∷ b ∷ c ∷ d ∷ [])
  ok (v, w4)
