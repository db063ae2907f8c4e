-- ===== src/Codec/RoundTrip.antt =====
-- WriteInt64 then ReadInt64, and WriteText then ReadText.
use libhdfs.Prelude.{
  ℕ, zero, suc, ◌+◌, ◌-◌, ◌*◌, ◌^◌, ◌≤◌, ◌<◌, ◌≡◌, ap, ap₂, ◌∙◌, arith, ltb, leb, ◌==◌,
  if◌then◌else◌, true, false, List, [], ◌∷◌, ◌++◌, length, ok,
}
use mathlib.Core.List.{append_assoc}
use native.Mathlib.Nat.{pow-le-pow_right, mod-eq_of_lt}
use libhdfs.Prelude.Int.{ℤ, pos, negsuc}
use libhdfs.Codec.Writable.{
  signed8, signed64, byte_of, decode_size, is_negative, read_int64, write_long, byte_count,
  read_bytes,
}
use libhdfs.Codec.Digits.{digits, byte_count_bound, byte_count-le}
use libhdfs.Codec.Cursor.{at, read_byte-at, write_byte-at, read_bytes-at, write_bytes-at}

abbrev pub IsInt64 : ℤ → Type 0
IsInt64 (pos n) = n < 2 ^ 63
IsInt64 (negsuc n) = n < 2 ^ 63

-- The bytes of a long number: the count's tag and the bytes, the high one first.
unfoldable pub encode_long : ℕ → ℕ → List ℕ
encode_long base n = (256 - (base + byte_count 8 n)) ∷ digits (byte_count 8 n) n

unfoldable pub encode : ℤ → List ℕ
encode (pos n) = if leb n 127 then n ∷ [] else encode_long 112 n
encode (negsuc n) = if ltb n 112 then (255 - n) ∷ [] else encode_long 120 n

digits_needed : (n c : ℕ) → 0 < n → n < 256 ^ c → 0 < c
digits_needed n zero hn h = absurd (omega arith)
digits_needed n (suc c) hn h = omega arith

-- The tag of `c` bytes, for a number (base 112) and for a complement (base 120).
module _ (c : ℕ) (some : 0 < c) (most : c ≤ 8) where
  tag_pos : signed8 (256 - (112 + c)) ≡ negsuc (111 + c)
  unfolding signed8
  tag_pos = ground arith

  tag_neg : signed8 (256 - (120 + c)) ≡ negsuc (119 + c)
  unfolding signed8
  tag_neg = ground arith

  size_pos : decode_size (negsuc (111 + c)) ≡ c + 1
  unfolding decode_size
  size_pos = ground arith

  size_neg : decode_size (negsuc (119 + c)) ≡ c + 1
  unfolding decode_size
  size_neg = ground arith

  sign_pos : is_negative (negsuc (111 + c)) ≡ false
  unfolding is_negative
  sign_pos = ground arith

  sign_neg : is_negative (negsuc (119 + c)) ≡ true
  unfolding is_negative
  sign_neg = ground arith

signed64_pos : (n : ℕ) → n < 2 ^ 63 → signed64 n ≡ pos n
unfolding signed64
signed64_pos n h = ground arith

signed64_neg : (n : ℕ) → n < 2 ^ 63 → signed64 (2 ^ 64 - 1 - n) ≡ negsuc n
unfolding signed64
signed64_neg n h = ground arith

-- A number that takes more than one byte, or its complement.
module _ (n : ℕ) (big : n < 2 ^ 63) (long : 111 < n) where
  unfoldable pub count : ℕ
  count = byte_count 8 n

  pub count_le : count ≤ 8
  unfolding count
  count_le = byte_count-le 8 n

  count_bound : n < 256 ^ count
  unfolding count
  count_bound = byte_count_bound 8 n (omega arith)

  pub count_pos : 0 < count
  count_pos = digits_needed n count (omega arith) count_bound

  fits : (0 + 1) * 256 ^ count ≤ 2 ^ 64
  fits =
      let up : 256 ^ count ≤ 256 ^ 8 = pow-le-pow_right {n = 256} (omega arith) count_le in
      omega arith

  read_digits :
      (done rest : List ℕ)
      → read_bytes count 0 (at done (digits count n ++ rest))
        ≡ ok (n, at (done ++ digits count n) rest)
  read_digits done rest =
      read_bytes-at count n 0 done rest fits
      ∙ ap (λ v. ok (v, at (done ++ digits count n) rest)) (omega (arith, mod-eq_of_lt count_bound))

  pub read_long_pos :
      (done rest : List ℕ)
      → read_int64 (at done (encode_long 112 n ++ rest))
        ≡ ok (pos n, at (done ++ encode_long 112 n) rest)
  unfolding read_int64 encode_long count
  read_long_pos done rest =
      let c = byte_count 8 n in
      let t : (c + 1 == 1) ≡ false = let more = count_pos in ground arith in
      let e : c + 1 - 1 ≡ c = omega arith in
      rw
        (
          read_byte-at done (digits c n ++ rest) (256 - (112 + c)),
          tag_pos c count_pos count_le,
          size_pos c count_pos count_le,
          sign_pos c count_pos count_le,
          t,
          e,
          read_digits (done ++ ((256 - (112 + c)) ∷ [])) rest,
        )
        (ap₂ (λ v d. ok (v, at d rest)) (signed64_pos n big)
          (append_assoc done ((256 - (112 + c)) ∷ []) (digits c n)))

  pub read_long_neg :
      (done rest : List ℕ)
      → read_int64 (at done (encode_long 120 n ++ rest))
        ≡ ok (negsuc n, at (done ++ encode_long 120 n) rest)
  unfolding read_int64 encode_long count
  read_long_neg done rest =
      let c = byte_count 8 n in
      let t : (c + 1 == 1) ≡ false = let more = count_pos in ground arith in
      let e : c + 1 - 1 ≡ c = omega arith in
      rw
        (
          read_byte-at done (digits c n ++ rest) (256 - (120 + c)),
          tag_neg c count_pos count_le,
          size_neg c count_pos count_le,
          sign_neg c count_pos count_le,
          t,
          e,
          read_digits (done ++ ((256 - (120 + c)) ∷ [])) rest,
        )
        (ap₂ (λ v d. ok (v, at d rest)) (signed64_neg n big)
          (append_assoc done ((256 - (120 + c)) ∷ []) (digits c n)))

  tag_byte_pos : byte_of (negsuc (112 + count - 1)) ≡ 256 - (112 + count)
  unfolding byte_of
  tag_byte_pos = omega (arith, count_pos, count_le)

  tag_byte_neg : byte_of (negsuc (120 + count - 1)) ≡ 256 - (120 + count)
  unfolding byte_of
  tag_byte_neg = omega (arith, count_pos, count_le)

  pub write_long_pos :
      (done room rest : List ℕ)
      → length room ≡ count + 1
      → write_long 112 n (at done (room ++ rest))
        ≡ ok (2 + count, at (done ++ encode_long 112 n) rest)
  write_long_pos done [] rest h = absurd (omega arith)
  write_long_pos done (x ∷ room) rest h =
      let c = count in
      let t : (if ltb 120 (112 + c) then 112 + c - 120 else 112 + c - 112) ≡ c =
        let a = count_le in ground arith in
      unfold write_long encode_long count in
      rw
        (
          write_byte-at (negsuc (112 + c - 1)) done (room ++ rest) x,
          tag_byte_pos,
          t,
          write_bytes-at c n (done ++ ((256 - (112 + c)) ∷ [])) room rest (omega arith),
        )
        (ap (λ d. ok (2 + c, at d rest)) (append_assoc done ((256 - (112 + c)) ∷ []) (digits c n)))

  pub write_long_neg :
      (done room rest : List ℕ)
      → length room ≡ count + 1
      → write_long 120 n (at done (room ++ rest))
        ≡ ok (2 + count, at (done ++ encode_long 120 n) rest)
  write_long_neg done [] rest h = absurd (omega arith)
  write_long_neg done (x ∷ room) rest h =
      let c = count in
      let t : (if ltb 120 (120 + c) then 120 + c - 120 else 120 + c - 112) ≡ c =
        let a = count_pos in ground arith in
      unfold write_long encode_long count in
      rw
        (
          write_byte-at (negsuc (120 + c - 1)) done (room ++ rest) x,
          tag_byte_neg,
          t,
          write_bytes-at c n (done ++ ((256 - (120 + c)) ∷ [])) room rest (omega arith),
        )
        (ap (λ d. ok (2 + c, at d rest)) (append_assoc done ((256 - (120 + c)) ∷ []) (digits c n)))
