-- ===== src/OutputStream/Filling.antt =====
-- A packet while it is filled with chunks.
use libhdfs.Prelude.{
  ℕ, ◌+◌, ◌-◌, ◌*◌, ◌≡◌, ◌≤◌, ◌<◌, ap, ◌∙◌, arith, leb, List, ◌++◌, Result, ok, length, take, drop,
  length-append, length-take, length-drop, inl, inr, leb→le, Bool-cases, subst,
}
use libhdfs.Bytes.{blit, take-length, drop-length}
use libhdfs.Bytes.BigEndian.{write_big_endian32, length-write_big_endian32}
use mathlib.Core.List.{append_assoc}
use libhdfs.Packet.Header.{HeaderCodec, get_pkg_header_size}
use libhdfs.Packet.Buffer.{Packet, add_checksum, add_data, increase_num_chunks}
use libhdfs.Packet.Layout.{Holds, add_checksum-Holds, add_data-Holds}
use libhdfs.Pipeline.Calls.{WhenOk}

-- The data of a packet.
unfoldable pub data_of : Packet → List ℕ
data_of p = take (p.data_pos - p.data_start) (drop p.data_start p.buffer)

length-blit :
    (buffer : List ℕ) (pos : ℕ) (bytes : List ℕ)
    → WhenOk (blit buffer pos bytes) (λ out. length out ≡ length buffer)
unfolding blit
length-blit buffer pos bytes = elim (Bool-cases (leb (pos + length bytes) (length buffer))) [
  | inr e ↦ rw e tt
  | inl e ↦ rw e (
      omega (
        arith,
        leb→le (pos + length bytes) (length buffer) e,
        length-append (take pos buffer) (bytes ++ drop (pos + length bytes) buffer),
        length-append bytes (drop (pos + length bytes) buffer),
        length-take pos buffer,
        length-drop (pos + length bytes) buffer,
      ))
]

-- What addChecksum and addData leave alone.
abbrev pub SameShape : Packet → Packet → Type 0
SameShape p q =
    (q.num_chunks ≡ p.num_chunks)
    × (q.max_chunks ≡ p.max_chunks)
    × (q.data_start ≡ p.data_start)
    × (q.checksum_size ≡ p.checksum_size)
    × (length q.buffer ≡ length p.buffer)
    × (q.offset_in_block ≡ p.offset_in_block)

SameShape-trans : (p q r : Packet) → SameShape p q → SameShape q r → SameShape p r
SameShape-trans p q r a b = (b.0 ∙ a.0, b.1 ∙ a.1, b.2 ∙ a.2, b.3 ∙ a.3, b.4 ∙ a.4, b.5 ∙ a.5)

-- The equation of a call that returns, for what holds when it does.
returned : {A : Type 0} (P : A → Type 0) (r : Result A) (a : A) → WhenOk r P → r ≡ ok a → P a
returned P r a h e = subst (λ x. WhenOk x P) e h

add_data-SameShape : (new : List ℕ) (p : Packet) → WhenOk (add_data new p) (SameShape p)
unfolding add_data
add_data-SameShape new p = ground (arith, length-blit p.buffer p.data_pos new)

add_checksum-SameShape : (sum : ℕ) (p : Packet) → WhenOk (add_checksum sum p) (SameShape p)
unfolding add_checksum
add_checksum-SameShape sum p =
    ground (arith, length-blit p.buffer p.checksum_pos (write_big_endian32 sum))

module _ (codec : HeaderCodec) (chunk_size : ℕ) where
  abbrev header_size : ℕ
  header_size = get_pkg_header_size codec

  -- The packet holds whole checksums and chunks of at most `chunk_size` bytes, and has room for the
  -- chunks that it may still get.
  pub record IsFilling (p : Packet) (bytes : List ℕ) : Type 0 where
    pub sums : List ℕ
    pub holds : Holds (get_pkg_header_size codec) p sums bytes
    pub four : p.checksum_size ≡ 4
    pub sums_count : length sums ≡ p.num_chunks * 4
    pub start : p.data_start ≡ get_pkg_header_size codec + p.max_chunks * 4
    pub bytes_count : length bytes ≤ p.num_chunks * chunk_size
    pub room : p.data_start + p.max_chunks * chunk_size ≤ length p.buffer

  pub IsFilling-data_of : (p : Packet) (bytes : List ℕ) → IsFilling p bytes → data_of p ≡ bytes
  unfolding data_of
  IsFilling-data_of p bytes f =
      let w = f.holds in
      let front = w.header ++ (f.sums ++ w.gap) in
      let split : p.buffer ≡ front ++ (bytes ++ w.free) = w.parts ∙ simp append_assoc in
      let at : p.data_start ≡ length front = omega (
        arith,
        w.data_from,
        w.header_room,
        length-append w.header (f.sums ++ w.gap),
        length-append f.sums w.gap,
      ) in
      let size : p.data_pos - p.data_start ≡ length bytes = omega (arith, w.data_to) in
      ap (λ b. take (p.data_pos - p.data_start) (drop p.data_start b)) split
      ∙ ap (take (p.data_pos - p.data_start)) (drop-length p.data_start front (bytes ++ w.free) at)
      ∙ take-length (p.data_pos - p.data_start) bytes w.free size

  one_more : (n : ℕ) → (n + 1) * chunk_size ≡ n * chunk_size + chunk_size
  one_more n = grind arith

  more_chunks : (n m : ℕ) → n < m → n * chunk_size + chunk_size ≤ m * chunk_size
  more_chunks n m h = grind arith

  module _ (p : Packet) (bytes : List ℕ) (f : IsFilling p bytes)
      (room : p.num_chunks < p.max_chunks) where
    summed :
        (sum : ℕ)
        → (q : Packet) × (add_checksum sum p ≡ ok q)
          × SameShape p q
          × Holds header_size q (f.sums ++ write_big_endian32 sum) bytes
    summed sum = elim (add_checksum-Holds header_size p f.sums bytes f.holds sum f.four) [
      | inl (q, fits, run, holds) ↦ (
        q,
        run,
        returned (SameShape p) (add_checksum sum p) q (add_checksum-SameShape sum p) run,
        holds,
      )
      | inr (full, e) ↦ absurd (omega (arith, f.holds.checksums_to, f.start, f.sums_count))
    ]

    counted :
        (r : Packet) (sums chunk : List ℕ)
        → SameShape p r
        → Holds header_size r sums (bytes ++ chunk)
        → length sums ≡ length f.sums + 4
        → length chunk ≤ chunk_size
        → IsFilling (increase_num_chunks r) (bytes ++ chunk)
    unfolding increase_num_chunks
    counted r sums chunk same held sum small =
        let counts = ap (λ n. n * chunk_size) same.0 in
        let limits = ap (λ n. n * chunk_size) same.1 in
        record {
          sums = sums;
          holds = record {
            header = held.header;
            gap = held.gap;
            free = held.free;
            parts = held.parts;
            header_room = held.header_room;
            at_start = held.at_start;
            checksums_from = held.checksums_from;
            checksums_to = held.checksums_to;
            data_from = held.data_from;
            data_to = held.data_to;
          };
          four = same.3 ∙ f.four;
          sums_count = omega (arith, f.sums_count);
          start = omega (arith, f.start);
          bytes_count =
              omega (arith, f.bytes_count, length-append bytes chunk, one_more r.num_chunks);
          room = omega (arith, f.room);
        }

    -- A chunk with its checksum fits a packet that is not full.
    pub add_chunk :
        (sum : ℕ) (chunk : List ℕ)
        → length chunk ≤ chunk_size
        → (q r : Packet) × (add_checksum sum p ≡ ok q)
          × (add_data chunk q ≡ ok r)
          × IsFilling (increase_num_chunks r) (bytes ++ chunk)
          × SameShape p r
    add_chunk sum chunk small =
        let (q, run, same, holds) = summed sum in
        let more = more_chunks p.num_chunks p.max_chunks room in
        elim (add_data-Holds header_size q (f.sums ++ write_big_endian32 sum) bytes holds chunk) [
          | inr (large, e) ↦ absurd (omega (arith, holds.data_to, f.room, f.bytes_count))
          | inl (r, fits, filled, held) ↦
              let shape =
                returned (SameShape q) (add_data chunk q) r (add_data-SameShape chunk q) filled in
              let all = SameShape-trans p q r same shape in
              (
                q,
                r,
                run,
                filled,
                counted r (f.sums ++ write_big_endian32 sum) chunk all held
                    (omega (
                      arith,
                      length-append f.sums (write_big_endian32 sum),
                      length-write_big_endian32 sum,
                    ))
                    small,
                all,
              )
        ]
