-- ===== src/Codec/Integers.antt =====
-- WriteInt64 and ReadInt64 of src/common/WritableUtils.cpp are inverse to one another.
use libhdfs.Prelude.{
  ℕ, ◌+◌, ◌-◌, ◌≤◌, ◌<◌, ◌≡◌, refl, subst, ap, ◌∙◌, arith, ltb, leb, ◌==◌, ◌⊎◌, inl, inr,
  if◌then◌else◌, List, [], ◌∷◌, ◌++◌, length, length-append, take, drop, take-append-drop,
  length-take, ok, ◌>>=◌, Bool-cases,
}
use mathlib.Core.List.{append_assoc}
use libhdfs.Prelude.Int.{ℤ, pos, negsuc}
use libhdfs.Codec.Writable.{
  WritableUtils, signed8, byte_of, write_byte, decode_size, read_int64, write_int64, byte_count,
}
use libhdfs.Codec.Digits.{length-digits, byte_count-le}
use libhdfs.Codec.Cursor.{at, placed, read_byte-at, write_byte-at}
use libhdfs.Codec.RoundTrip.{
  IsInt64, encode, encode_long, count, count_pos, read_long_pos, read_long_neg, write_long_pos,
  write_long_neg,
}

-- What WriteInt64 returns.
abbrev pub reported : ℤ → ℕ
reported v = if length (encode v) == 1 then 1 else length (encode v) + 1

length-encode_long : (base n : ℕ) → length (encode_long base n) ≡ byte_count 8 n + 1
unfolding encode_long
length-encode_long base n = omega (arith, length-digits (byte_count 8 n) n)

-- A number of one byte, with the byte that stands for it.
read_short :
    (b : ℕ) (v : ℤ) (done rest : List ℕ)
    → signed8 b ≡ v
    → decode_size v ≡ 1
    → read_int64 (at done (b ∷ rest)) ≡ ok (v, at (done ++ (b ∷ [])) rest)
unfolding read_int64
read_short b v done rest e one = rw (read_byte-at done rest b, e, one)

signed8_pos : (n : ℕ) → n ≤ 127 → signed8 n ≡ pos n
unfolding signed8
signed8_pos n h = ground arith

signed8_neg : (n : ℕ) → n < 112 → signed8 (255 - n) ≡ negsuc n
unfolding signed8
signed8_neg n h = ground arith

one_byte : (n : ℕ) → n < 112 → decode_size (negsuc n) ≡ 1
unfolding decode_size
one_byte n h = ground arith

pub read_int64-encode :
    (v : ℤ) (done rest : List ℕ)
    → IsInt64 v
    → read_int64 (at done (encode v ++ rest)) ≡ ok (v, at (done ++ encode v) rest)
unfolding encode
read_int64-encode (pos n) done rest h = elim (Bool-cases (leb n 127)) [
  | inl e ↦
      rw e
        (read_short n (pos n) done rest (signed8_pos n (ground arith)) (unfold decode_size in refl))
  | inr e ↦ rw e (read_long_pos n h (ground arith) done rest)
]
read_int64-encode (negsuc n) done rest h = elim (Bool-cases (ltb n 112)) [
  | inl e ↦
      let small : n < 112 = ground arith in
      rw e (read_short (255 - n) (negsuc n) done rest (signed8_neg n small) (one_byte n small))
  | inr e ↦ rw e (read_long_neg n h (ground arith) done rest)
]

low_pos : (n : ℕ) → n ≤ 127 → byte_of (pos n) ≡ n
unfolding byte_of
low_pos n h = omega arith

low_neg : (n : ℕ) → n < 112 → byte_of (negsuc n) ≡ 255 - n
unfolding byte_of
low_neg n h = omega arith

long_report :
    (base n : ℕ)
    → 0 < byte_count 8 n
    → 2 + byte_count 8 n
      ≡ (if length (encode_long base n) == 1 then 1 else length (encode_long base n) + 1)
long_report base n h = let l = length-encode_long base n in ground arith

write_one :
    (v : ℤ) (b : ℕ) (done room rest : List ℕ)
    → byte_of v ≡ b
    → length room ≡ 1
    → ◌>>=◌ {B = ℕ × WritableUtils} (write_byte v (at done (room ++ rest))) (λ w. ok (1, w))
      ≡ ok (1, at (done ++ (b ∷ [])) rest)
write_one v b done [] rest e h = absurd (omega arith)
write_one v b done (x ∷ []) rest e h = rw (write_byte-at v done rest x, e)
write_one v b done (x ∷ y ∷ room) rest e h = absurd (omega arith)

pub write_int64-encode :
    (v : ℤ) (done room rest : List ℕ)
    → IsInt64 v
    → length room ≡ length (encode v)
    → write_int64 v (at done (room ++ rest)) ≡ ok (reported v, at (done ++ encode v) rest)
unfolding encode write_int64
write_int64-encode (pos n) done room rest h r = elim (Bool-cases (leb n 127)) [
  | inl e ↦ rw e (write_one (pos n) n done room rest (low_pos n (ground arith)) (rw e at r))
  | inr e ↦
      let long : 111 < n = ground arith in
      let size : length room ≡ count n h long + 1 =
        unfold count in (rw e at r) ∙ length-encode_long 112 n in
      let c : 0 < byte_count 8 n = unfold count in count_pos n h long in
      rw e (
        write_long_pos n h long done room rest size
        ∙ unfold count in
          ap (λ k. ok (k, at (done ++ encode_long 112 n) rest)) (long_report 112 n c))
]
write_int64-encode (negsuc n) done room rest h r = elim (Bool-cases (ltb n 112)) [
  | inl e ↦
      rw e (write_one (negsuc n) (255 - n) done room rest (low_neg n (ground arith)) (rw e at r))
  | inr e ↦
      let long : 111 < n = ground arith in
      let size : length room ≡ count n h long + 1 =
        unfold count in (rw e at r) ∙ length-encode_long 120 n in
      let c : 0 < byte_count 8 n = unfold count in count_pos n h long in
      rw e (
        write_long_neg n h long done room rest size
        ∙ unfold count in
          ap (λ k. ok (k, at (done ++ encode_long 120 n) rest)) (long_report 120 n c))
]

pub length-encode-le : (v : ℤ) → (1 ≤ length (encode v)) × (length (encode v) ≤ 9)
unfolding encode
length-encode-le (pos n) = ground (arith, length-encode_long 112 n, byte_count-le 8 n)
length-encode-le (negsuc n) = ground (arith, length-encode_long 120 n, byte_count-le 8 n)

pub write_int64-free :
    (v : ℤ) (done free : List ℕ)
    → IsInt64 v
    → 9 ≤ length free
    → write_int64 v (at done free)
      ≡ ok (reported v, at (done ++ encode v) (drop (length (encode v)) free))
write_int64-free v done free h room =
    let k = length (encode v) in
    let most = length-encode-le v in
    let size : length (take k free) ≡ k = omega (arith, length-take k free) in
    subst (λ f. write_int64 v (at done f) ≡ ok (reported v, at (done ++ encode v) (drop k free)))
      (take-append-drop k free) (write_int64-encode v done (take k free) (drop k free) h size)

-- WriteInt64 puts any int64_t into a buffer that has nine bytes free, and ReadInt64 from the same
-- place gives it back and stops where WriteInt64 stopped.
pub read_int64-write_int64 :
    (v : ℤ) (done free : List ℕ)
    → IsInt64 v
    → 9 ≤ length free
    → (n : ℕ) × (w : WritableUtils) × (write_int64 v (at done free) ≡ ok (n, w))
      × (read_int64 (record w { current = length done }) ≡ ok (v, w))
read_int64-write_int64 v done free h room =
    let rest = drop (length (encode v)) free in
    (
      reported v,
      at (done ++ encode v) rest,
      write_int64-free v done free h room,
      rw (append_assoc done (encode v) rest) (
          read_int64-encode v done rest h
          ∙ ap (λ b. ok (v, placed b (length (done ++ encode v))))
              (append_assoc done (encode v) rest)),
    )

-- WriteInt64 returns the number of bytes that it wrote for a number of one byte, and one more than
-- that for every longer number.
pub write_int64_count :
    (v : ℤ) (done free : List ℕ)
    → IsInt64 v
    → 9 ≤ length free
    → (n : ℕ) × (w : WritableUtils) × (write_int64 v (at done free) ≡ ok (n, w))
      × (((n ≡ 1) × (w.current ≡ length done + n)) ⊎ ((3 ≤ n) × (w.current + 1 ≡ length done + n)))
write_int64_count v done free h room =
    let l = length-append done (encode v) in
    let b = length-encode-le v in
    (
      reported v,
      at (done ++ encode v) (drop (length (encode v)) free),
      write_int64-free v done free h room,
      ground arith,
    )
