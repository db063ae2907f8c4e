-- ===== src/Packet/Send.antt =====
-- Packet::getBuffer: what a filled packet puts on the wire.
use libhdfs.Prelude.{
  ℕ, ◌+◌, ◌-◌, ◌<◌, ◌≡◌, refl, sym, ap, ◌∙◌, arith, ◌==◌, true, false, List, [], ◌∷◌, ◌++◌, ok,
  length, length-append, take, drop, take-append-drop, length-take, length-drop, ℕ_discrete,
}
use mathlib.Core.List.{append_assoc}
use libhdfs.Bytes.{blit_at, slice_at}
use libhdfs.Packet.Header.{
  HeaderCodec, get_pkg_header_size, write_in_buffer, length-write_in_buffer,
}
use libhdfs.Packet.Buffer.{Packet, close_gap, get_buffer, header_of}
use libhdfs.Packet.Layout.{Holds}

nil_of_length : (xs : List ℕ) → length xs ≡ 0 → xs ≡ []
nil_of_length [] e = refl
nil_of_length (x ∷ xs) e = absurd (omega arith)

module _ (h : ℕ) (p : Packet) (checksums bytes : List ℕ) (w : Holds h p checksums bytes) where
  open w use {header, gap, free, parts}

  front : List ℕ
  front = header ++ (checksums ++ gap)

  -- Behind the gap the checksums end where the data begins.
  moved : Packet
  unfolding front
  moved = record p {
    buffer = take (length header + length gap) front ++ (checksums ++ (bytes ++ free));
    header_start = p.data_start - p.checksum_pos;
    checksum_start = p.checksum_start + (p.data_start - p.checksum_pos);
    checksum_pos = p.data_start;
  }

  length-front : length front ≡ length header + length checksums + length gap
  unfolding front
  length-front = omega (arith, length-append header (checksums ++ gap), length-append checksums gap)

  split_front :
      (n : ℕ) (t : List ℕ)
      → header ++ (checksums ++ (gap ++ t)) ≡ take n front ++ (drop n front ++ t)
  split_front n t =
      unfold front in
      (let regroup : header ++ (checksums ++ (gap ++ t)) ≡ (header ++ (checksums ++ gap)) ++ t =
          simp append_assoc in
        regroup)
      ∙ ap (λ f. f ++ t) (sym (take-append-drop n front))
      ∙ append_assoc (take n front) (drop n front) t

  close_gap-moved : 0 < length gap → close_gap p ≡ ok moved
  unfolding close_gap moved
  close_gap-moved wide =
      let n = length header + length gap in
      let t : (p.checksum_pos == p.data_start) ≡ false =
        let apart : p.checksum_pos < p.data_start = omega (arith, w.checksums_to, w.data_from) in
        ground arith in
      let from : p.checksum_start ≡ length header =
        omega (arith, w.checksums_from, w.header_room) in
      let size : p.checksum_pos - p.checksum_start ≡ length checksums =
        omega (arith, w.checksums_from, w.checksums_to) in
      let split : p.buffer ≡ take n front ++ (drop n front ++ (bytes ++ free)) =
        parts ∙ split_front n (bytes ++ free) in
      let at : p.data_start - length checksums ≡ length (take n front) =
        omega (arith, w.data_from, w.header_room, length-take n front, length-front) in
      let same : length checksums ≡ length (drop n front) =
        omega (arith, length-drop n front, length-front) in
      rw (
        t,
        size,
        slice_at p.buffer header checksums (gap ++ (bytes ++ free)) p.checksum_start
            (length checksums) parts from refl,
        blit_at p.buffer (take n front) (drop n front) checksums (bytes ++ free)
            (p.data_start - length checksums) split at same,
      )

  close_gap-closed : length gap ≡ 0 → close_gap p ≡ ok p
  unfolding close_gap
  close_gap-closed none =
      let t : (p.checksum_pos == p.data_start) ≡ true =
        let met : p.checksum_pos ≡ p.data_start = omega (arith, w.checksums_to, w.data_from) in
        ground arith in
      rw t

  -- Whether or not there was a gap: the checksums meet the data, and the header's room begins where
  -- `headerStart` says.
  Closed : Packet → Type 0
  Closed q =
      (room : List ℕ) × (close_gap p ≡ ok q)
      × (q.buffer ≡ room ++ (checksums ++ (bytes ++ free)))
      × (length room ≡ length gap + h)
      × (q.header_start ≡ length gap)

  no_gap :
      (t : List ℕ)
      → length gap ≡ 0
      → header ++ (checksums ++ (gap ++ t)) ≡ header ++ (checksums ++ t)
  no_gap t e = ap (λ g. header ++ (checksums ++ (g ++ t))) (nil_of_length gap e)

  close_gap_lem : (q : Packet) × Closed q
  unfolding Closed
  close_gap_lem = elim (ℕ_discrete (length gap) 0) [
    | yes none ↦
        let start : p.header_start ≡ length gap = omega (arith, w.at_start) in
        let room : length header ≡ length gap + h = omega (arith, w.header_room) in
        (p, (header, close_gap-closed none, parts ∙ no_gap (bytes ++ free) none, room, start))
    | no some ↦
        let n = length header + length gap in
        let room : length (take n front) ≡ length gap + h =
          omega (arith, w.header_room, length-front, length-take n front) in
        let start : p.data_start - p.checksum_pos ≡ length gap =
          omega (arith, w.checksums_to, w.data_from) in
        (
          moved,
          (
            take n front,
            close_gap-moved (omega arith),
            unfold moved in refl,
            room,
            unfold moved in start,
          ),
        )
  ]

  module _ (codec : HeaderCodec) (fits : h ≡ get_pkg_header_size codec) where
    -- getBuffer sends the header, the checksums and the data, with nothing between them, whatever
    -- gap the packet still had before its data.
    pub get_buffer_lem :
        (q : Packet) × (get_buffer codec p
          ≡ ok (write_in_buffer codec (header_of codec p) ++ (checksums ++ bytes), q))
    unfolding get_buffer Closed
    get_buffer_lem =
        let (q, (room, run, held, wide, start)) = close_gap_lem in
        let g = length gap in
        let head = write_in_buffer codec (header_of codec p) in
        let sent = take g room ++ (head ++ (checksums ++ (bytes ++ free))) in
        let size = length-write_in_buffer codec (header_of codec p) in
        let split : q.buffer ≡ take g room ++ (drop g room ++ (checksums ++ (bytes ++ free))) =
          held
          ∙ ap (λ f. f ++ (checksums ++ (bytes ++ free))) (sym (take-append-drop g room))
          ∙ append_assoc (take g room) (drop g room) (checksums ++ (bytes ++ free)) in
        let at : q.header_start ≡ length (take g room) = omega (arith, length-take g room) in
        let same : length head ≡ length (drop g room) = omega (arith, length-drop g room) in
        let regroup : sent ≡ take g room ++ ((head ++ (checksums ++ bytes)) ++ free) =
          simp append_assoc in
        let all : get_pkg_header_size codec
              + (p.data_pos - p.data_start + (p.checksum_pos - p.checksum_start))
            ≡ length (head ++ (checksums ++ bytes)) =
          omega (
            arith,
            length-append head (checksums ++ bytes),
            length-append checksums bytes,
            w.data_to,
            w.checksums_to,
            w.checksums_from,
          ) in
        (
          record q { buffer = sent },
          rw (
            run,
            blit_at q.buffer (take g room) (drop g room) head (checksums ++ (bytes ++ free))
                q.header_start split at same,
            slice_at sent (take g room) (head ++ (checksums ++ bytes)) free q.header_start
                (get_pkg_header_size codec
                  + (p.data_pos - p.data_start + (p.checksum_pos - p.checksum_start)))
                regroup at all,
          ),
        )
