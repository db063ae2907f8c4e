-- ===== src/Packet/Layout.antt =====
-- What a Packet holds while it is filled, and what Packet::getBuffer sends.
use libhdfs.Prelude.{
  ℕ, ◌+◌, ◌≤◌, ◌<◌, ◌≡◌, sym, ap, ◌∙◌, arith, leb, true, false, List, ◌++◌, ok, throw,
  hdfs_io_exception, length, length-append, take, drop, take-append-drop, length-take, length-drop,
  dec_lt, ◌⊎◌, inl, inr,
}
use mathlib.Core.List.{append_assoc}
use libhdfs.Bytes.{blit_at}
use libhdfs.Bytes.BigEndian.{write_big_endian32, length-write_big_endian32}
use libhdfs.Packet.Buffer.{Packet, add_checksum, add_data}

-- The buffer is `h` bytes for the header, the checksums, a gap up to the data, the data, and what is
-- free behind it.
pub record Holds (h : ℕ) (p : Packet) (checksums bytes : List ℕ) : Type 0 where
  pub header : List ℕ
  pub gap : List ℕ
  pub free : List ℕ
  pub parts : p.buffer ≡ header ++ (checksums ++ (gap ++ (bytes ++ free)))
  pub header_room : length header ≡ h
  pub at_start : p.header_start ≡ 0
  pub checksums_from : p.checksum_start ≡ h
  pub checksums_to : p.checksum_pos ≡ h + length checksums
  pub data_from : p.data_start ≡ h + length checksums + length gap
  pub data_to : p.data_pos ≡ p.data_start + length bytes

length_of_parts :
    (a b c d e : List ℕ)
    → length (a ++ (b ++ (c ++ (d ++ e)))) ≡ length a + length b + length c + length d + length e
length_of_parts a b c d e = omega (
  arith,
  length-append a (b ++ (c ++ (d ++ e))),
  length-append b (c ++ (d ++ e)),
  length-append c (d ++ e),
  length-append d e,
)

module _ (h : ℕ) (p : Packet) (checksums bytes : List ℕ) (w : Holds h p checksums bytes) where
  open w use {header, gap, free, parts}

  buffer_length :
      length p.buffer ≡ length header + length checksums + length gap + length bytes + length free
  buffer_length = rw parts (length_of_parts header checksums gap bytes free)

  -- What `addData` leaves where the bytes fit.
  with_data : List ℕ → Packet
  with_data new = record p {
    buffer = (header ++ (checksums ++ (gap ++ bytes))) ++ (new ++ drop (length new) free);
    data_pos = p.data_pos + length new;
  }

  with_data-Holds : (new : List ℕ) → Holds h (with_data new) checksums (bytes ++ new)
  unfolding with_data
  with_data-Holds new = record {
    header = header;
    gap = gap;
    free = drop (length new) free;
    parts = simp append_assoc;
    header_room = w.header_room;
    at_start = w.at_start;
    checksums_from = w.checksums_from;
    checksums_to = w.checksums_to;
    data_from = w.data_from;
    data_to = omega (arith, length-append bytes new, w.data_to);
  }

  add_data_fits :
      (new : List ℕ)
      → length new + p.data_pos ≤ length p.buffer
      → add_data new p ≡ ok (with_data new)
  unfolding add_data with_data
  add_data_fits new fits =
      let n = length new in
      let front = header ++ (checksums ++ (gap ++ bytes)) in
      let total = buffer_length in
      let t : leb (n + p.data_pos) (length p.buffer) ≡ true =
        let fits' : n + p.data_pos ≤ length p.buffer = fits in ground arith in
      let split : p.buffer ≡ front ++ (take n free ++ drop n free) =
        rw (take-append-drop n free) (parts ∙ simp append_assoc) in
      let at : p.data_pos ≡ length front = omega (
        arith,
        w.data_to,
        w.data_from,
        w.header_room,
        length-append header (checksums ++ (gap ++ bytes)),
        length-append checksums (gap ++ bytes),
        length-append gap bytes,
      ) in
      let same : n ≡ length (take n free) =
        omega (arith, w.data_to, w.data_from, w.header_room, length-take n free) in
      rw (t, blit_at p.buffer front (take n free) new (drop n free) p.data_pos split at same)

  add_data_large :
      (new : List ℕ)
      → length p.buffer < length new + p.data_pos
      → add_data new p ≡ throw hdfs_io_exception
  unfolding add_data
  add_data_large new large =
      let t : leb (length new + p.data_pos) (length p.buffer) ≡ false = ground arith in rw t

  -- addData appends the bytes to the packet's data if they fit the buffer, leaving all else; if they
  -- do not, it throws HdfsIOException.
  pub add_data-Holds :
      (new : List ℕ)
      → ((q : Packet) × (length new + p.data_pos ≤ length p.buffer)
          × (add_data new p ≡ ok q)
          × Holds h q checksums (bytes ++ new))
        ⊎ ((length p.buffer < length new + p.data_pos) × (add_data new p ≡ throw hdfs_io_exception))
  add_data-Holds new = elim (dec_lt (length p.buffer) (length new + p.data_pos)) [
    | yes large ↦ inr (large, add_data_large new large)
    | no fits ↦
        let fits' : length new + p.data_pos ≤ length p.buffer = omega arith in
        inl (with_data new, fits', add_data_fits new fits', with_data-Holds new)
  ]

  -- What `addChecksum` leaves where there is room for four bytes more.
  with_checksum : ℕ → Packet
  with_checksum sum = record p {
    buffer = (header ++ checksums) ++ (write_big_endian32 sum ++ (drop 4 gap ++ (bytes ++ free)));
    checksum_pos = p.checksum_pos + p.checksum_size;
  }

  with_checksum-Holds :
      (sum : ℕ)
      → p.checksum_size ≡ 4
      → 4 ≤ length gap
      → Holds h (with_checksum sum) (checksums ++ write_big_endian32 sum) bytes
  unfolding with_checksum
  with_checksum-Holds sum four room =
      let l = length-append checksums (write_big_endian32 sum) in
      let l4 = length-write_big_endian32 sum in
      record {
        header = header;
        gap = drop 4 gap;
        free = free;
        parts = simp append_assoc;
        header_room = w.header_room;
        at_start = w.at_start;
        checksums_from = w.checksums_from;
        checksums_to = omega (arith, w.checksums_to, four);
        data_from = omega (arith, w.data_from, length-drop 4 gap);
        data_to = w.data_to;
      }

  add_checksum_fits : (sum : ℕ) → 4 ≤ length gap → add_checksum sum p ≡ ok (with_checksum sum)
  unfolding add_checksum with_checksum
  add_checksum_fits sum room =
      let t : leb (p.checksum_pos + 4) p.data_start ≡ true =
        let fits : p.checksum_pos + 4 ≤ p.data_start = omega (arith, w.checksums_to, w.data_from) in
        ground arith in
      let split : p.buffer
          ≡ (header ++ checksums) ++ (take 4 gap ++ (drop 4 gap ++ (bytes ++ free))) =
        parts
        ∙ ap (λ g. header ++ (checksums ++ (g ++ (bytes ++ free)))) (sym (take-append-drop 4 gap))
        ∙ simp append_assoc in
      let at : p.checksum_pos ≡ length (header ++ checksums) =
        omega (arith, w.checksums_to, w.header_room, length-append header checksums) in
      let same : length (write_big_endian32 sum) ≡ length (take 4 gap) =
        omega (arith, length-write_big_endian32 sum, length-take 4 gap) in
      rw (
        t,
        blit_at p.buffer (header ++ checksums) (take 4 gap) (write_big_endian32 sum)
            (drop 4 gap ++ (bytes ++ free)) p.checksum_pos split at same,
      )

  add_checksum_full : (sum : ℕ) → length gap < 4 → add_checksum sum p ≡ throw hdfs_io_exception
  unfolding add_checksum
  add_checksum_full sum full =
      let t : leb (p.checksum_pos + 4) p.data_start ≡ false =
        let over : p.data_start < p.checksum_pos + 4 = omega (arith, w.checksums_to, w.data_from) in
        ground arith in
      rw t

  -- addChecksum appends the four bytes of the checksum, the high one first, if four bytes are free
  -- before the data, leaving all else; if not, it throws HdfsIOException. The checksums are CRC-32s,
  -- of four bytes each.
  pub add_checksum-Holds :
      (sum : ℕ)
      → p.checksum_size ≡ 4
      → ((q : Packet) × (p.checksum_pos + 4 ≤ p.data_start)
          × (add_checksum sum p ≡ ok q)
          × Holds h q (checksums ++ write_big_endian32 sum) bytes)
        ⊎ ((p.data_start < p.checksum_pos + 4) × (add_checksum sum p ≡ throw hdfs_io_exception))
  add_checksum-Holds sum four = elim (dec_lt (length gap) 4) [
    | yes full ↦ inr (omega (arith, w.checksums_to, w.data_from), add_checksum_full sum full)
    | no room ↦
        let room' : 4 ≤ length gap = omega arith in
        inl (
          with_checksum sum,
          omega (arith, w.checksums_to, w.data_from),
          add_checksum_fits sum room',
          with_checksum-Holds sum four room',
        )
  ]
