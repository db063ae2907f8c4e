-- ===== src/Codec/Texts.antt =====
-- WriteText and ReadText of src/common/WritableUtils.cpp.
use libhdfs.Prelude.{
  ℕ, ◌+◌, ◌^◌, ◌≤◌, ◌<◌, ◌≡◌, subst, ap, arith, List, ◌++◌, length, take, drop, take-append-drop,
  length-take, length-drop, Result, ok, ◌>>=◌,
}
use mathlib.Core.List.{append_assoc}
use libhdfs.Prelude.Int.{pos}
use libhdfs.Codec.Writable.{
  WritableUtils, read_int32, write_int32, write_raw, read_text, write_text,
}
use libhdfs.Codec.Cursor.{at, placed, read_raw-at, write_raw-at}
use libhdfs.Codec.RoundTrip.{encode}
use libhdfs.Codec.Integers.{reported, read_int64-encode, write_int64-free, length-encode-le}

read_int32-encode :
    (n : ℕ) (done rest : List ℕ)
    → n < 2 ^ 31
    → read_int32 (at done (encode (pos n) ++ rest)) ≡ ok (pos n, at (done ++ encode (pos n)) rest)
unfolding read_int32
read_int32-encode n done rest h =
    rw (read_int64-encode (pos n) done rest (omega arith)) (ground arith)

module _ (bytes done free : List ℕ) (short : length bytes < 2 ^ 31)
    (room : 9 + length bytes ≤ length free) where
  head : List ℕ
  head = encode (pos (length bytes))

  rest : List ℕ
  rest = drop (length head) free

  left : length bytes ≤ length rest
  unfolding head rest
  left = omega (
    arith,
    length-drop (length (encode (pos (length bytes)))) free,
    length-encode-le (pos (length bytes)),
  )

  after : WritableUtils
  after = at ((done ++ head) ++ bytes) (drop (length bytes) rest)

  write_raw-rest : write_raw bytes (at (done ++ head) rest) ≡ ok (length bytes, after)
  unfolding after
  write_raw-rest =
      let k = length bytes in
      let size : length (take k rest) ≡ k = omega (arith, length-take k rest, left) in
      subst
        (λ r.
          write_raw bytes (at (done ++ head) r)
          ≡ ok (k, at ((done ++ head) ++ bytes) (drop k rest)))
        (take-append-drop k rest)
        (write_raw-at (done ++ head) bytes (take k rest) (drop k rest) size)

  write_text-run :
      write_text bytes (at done free) ≡ ok (reported (pos (length bytes)) + length bytes, after)
  unfolding write_text write_int32
  write_text-run =
      rw (write_int64-free (pos (length bytes)) done free (omega arith) (omega arith))
        (unfold head rest in ap with_head write_raw-rest)
    where
      with_head : Result (ℕ × WritableUtils) → Result (ℕ × WritableUtils)
      with_head r = r >>= λ (m, w). ok (reported (pos (length bytes)) + m, w)

  read_text-run :
      read_text (at done (head ++ (bytes ++ drop (length bytes) rest))) ≡ ok (bytes, after)
  unfolding read_text after head
  read_text-run =
      rw (read_int32-encode (length bytes) done (bytes ++ drop (length bytes) rest) short)
        (read_raw-at (done ++ head) bytes (drop (length bytes) rest))

  -- A text comes back by ReadText from the place where WriteText wrote it, if the buffer has room for
  -- nine bytes more than the text.
  pub read_text-write_text :
      (n : ℕ) × (w : WritableUtils) × (write_text bytes (at done free) ≡ ok (n, w))
      × (read_text (record w { current = length done }) ≡ ok (bytes, w))
  unfolding after
  read_text-write_text =
      let tail = drop (length bytes) rest in
      let same : done ++ (head ++ (bytes ++ tail)) ≡ (((done ++ head) ++ bytes) ++ tail) =
        simp append_assoc in
      (
        reported (pos (length bytes)) + length bytes,
        after,
        write_text-run,
        subst (λ b. read_text (placed b (length done)) ≡ ok (bytes, after)) same read_text-run,
      )
