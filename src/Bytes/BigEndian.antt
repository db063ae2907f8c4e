-- ===== src/Bytes/BigEndian.antt =====
-- src/common/BigEndian.h: integers as bytes, the high one first.
use libhdfs.Prelude.{
  ℕ, ◌+◌, ◌*◌, ◌/◌, ◌%◌, ◌^◌, ◌<◌, ◌≡◌, refl, ap, arith, length, List, [], ◌∷◌, ◌++◌, Result, ok,
  fault,
}

unfoldable pub write_big_endian16 : ℕ → List ℕ
write_big_endian16 v = (v / 2 ^ 8 % 256) ∷ (v % 256) ∷ []

unfoldable pub write_big_endian32 : ℕ → List ℕ
write_big_endian32 v = (v / 2 ^ 24 % 256) ∷ (v / 2 ^ 16 % 256) ∷ (v / 2 ^ 8 % 256) ∷ (v % 256) ∷ []

-- A read needs the bytes to be there.
unfoldable pub read_big_endian16 : List ℕ → Result ℕ
read_big_endian16 (a ∷ b ∷ rest) = ok (a * 2 ^ 8 + b)
read_big_endian16 _ = fault

unfoldable pub read_big_endian32 : List ℕ → Result ℕ
read_big_endian32 (a ∷ b ∷ c ∷ d ∷ rest) = ok (a * 2 ^ 24 + b * 2 ^ 16 + c * 2 ^ 8 + d)
read_big_endian32 _ = fault

-- A 32-bit and a 16-bit word come back from the bytes that were written, whatever follows them.
pub read-write_big_endian32 :
    (v : ℕ) (rest : List ℕ) → v < 2 ^ 32 → read_big_endian32 (write_big_endian32 v ++ rest) ≡ ok v
unfolding read_big_endian32 write_big_endian32
read-write_big_endian32 v rest h = ap ok (omega arith)

pub read-write_big_endian16 :
    (v : ℕ) (rest : List ℕ) → v < 2 ^ 16 → read_big_endian16 (write_big_endian16 v ++ rest) ≡ ok v
unfolding read_big_endian16 write_big_endian16
read-write_big_endian16 v rest h = ap ok (omega arith)

pub length-write_big_endian32 : (v : ℕ) → length (write_big_endian32 v) ≡ 4
unfolding write_big_endian32
length-write_big_endian32 v = refl
