-- ===== src/OutputStream/Resizing.antt =====
-- The sizes behind the first packet of an append, which are those of the configuration.
use libhdfs.Prelude.{
  ℕ, ◌+◌, ◌-◌, ◌*◌, ◌/◌, ◌%◌, ◌^◌, ◌≡◌, ◌≤◌, ◌<◌, refl, ap, ◌∙◌, ltb, ok, int_of-ok, Bool-cases,
  inl, inr, arith, if◌then◌else◌, false, List, length, take, length-append, length-take, replicate,
  length-replicate,
}
use native.Mathlib.Nat.{div-add-mod'}
use libhdfs.Pipeline.Calls.{done}
use libhdfs.Packet.Header.{HeaderCodec, get_pkg_header_size}
use libhdfs.OutputStream.Sizes.{chunks_for, sizes_for}
use libhdfs.OutputStream.State.{Backend, OutputStream, resized, compute_packet_chunk_size}
use libhdfs.OutputStream.Chunking.{end_append}
use libhdfs.OutputStream.Appending.{IsReliable, IsSized}

pub length-resized : (n : ℕ) (bytes : List ℕ) → length (resized n bytes) ≡ n
unfolding resized
length-resized n bytes = omega (
  arith,
  length-append (take n bytes) (replicate (n - length bytes) 0),
  length-take n bytes,
  length-replicate {A = ℕ} (n - length bytes) 0,
)

-- The chunks of a packet, where no int overflows.
abbrev pub rounded : ℕ → ℕ → ℕ → ℕ
rounded header packet_size chunk_size =
    let chunks = (packet_size + (chunk_size + 4) - header - 1) / (chunk_size + 4) in
    if ltb 1 chunks then chunks else 1

pub rounded-positive :
    (header packet_size chunk_size : ℕ) → 0 < rounded header packet_size chunk_size
rounded-positive header packet_size chunk_size = ground arith

pub rounded-fits :
    (header packet_size chunk_size : ℕ)
    → rounded header packet_size chunk_size * (chunk_size + 4) ≤ packet_size + (chunk_size + 4)
rounded-fits header packet_size chunk_size =
    let w = chunk_size + 4 in
    let chunks = (packet_size + w - header - 1) / w in
    let whole : chunks * w + (packet_size + w - header - 1) % w ≡ packet_size + w - header - 1 =
      div-add-mod' (packet_size + w - header - 1) w in
    elim (Bool-cases (ltb 1 chunks)) [ inl b ↦ rw b (omega arith) | inr b ↦ rw b (omega arith) ]

sizes_for-rounded :
    (header packet_size chunk_size : ℕ)
    → packet_size + (chunk_size + 4) + header < 2 ^ 31
    → sizes_for header packet_size chunk_size
      ≡ ok (
        rounded header packet_size chunk_size,
        rounded header packet_size chunk_size * (chunk_size + 4) + header,
      )
unfolding sizes_for chunks_for
sizes_for-rounded header packet_size chunk_size h =
    let all = rounded-fits header packet_size chunk_size in
    let n = rounded header packet_size chunk_size in
    rw
      (
        int_of-ok (chunk_size + 4) (omega arith),
        int_of-ok (packet_size + (chunk_size + 4) - header) (omega arith),
        int_of-ok (n * (chunk_size + 4)) (omega arith),
        int_of-ok (n * (chunk_size + 4) + header) (omega arith),
      )
      refl

module _ {World : Type 0} (codec : HeaderCodec) (crc : List ℕ → ℕ) (backend : Backend World)
    (reliable : IsReliable backend) where
  -- What computePacketChunkSize leaves.
  abbrev pub computed : OutputStream World → OutputStream World
  computed s = record s {
    chunks_per_packet = rounded (get_pkg_header_size codec) s.packet_size s.chunk_size;
    packet_size =
        rounded (get_pkg_header_size codec) s.packet_size s.chunk_size * (s.chunk_size + 4)
        + get_pkg_header_size codec;
    buffer = resized s.chunk_size s.buffer;
  }

  pub compute_packet_chunk_size-done :
      (s : OutputStream World)
      → s.packet_size + (s.chunk_size + 4) + get_pkg_header_size codec < 2 ^ 31
      → compute_packet_chunk_size codec s ≡ done tt (computed s)
  unfolding compute_packet_chunk_size
  compute_packet_chunk_size-done s h =
      rw (sizes_for-rounded (get_pkg_header_size codec) s.packet_size s.chunk_size h) refl

  pub computed-IsSized :
      (s : OutputStream World)
      → 0 < s.chunk_size
      → 0 < s.default_chunk_size
      → s.packet_size + (s.chunk_size + 4) + get_pkg_header_size codec < 2 ^ 31
      → s.default_packet_size + (s.default_chunk_size + 4) + get_pkg_header_size codec < 2 ^ 31
      → IsSized codec crc backend reliable (computed s)
  computed-IsSized s some_bytes default_chunk h range =
      let header = get_pkg_header_size codec in
      let all = rounded-fits header s.packet_size s.chunk_size in
      let n = rounded header s.packet_size s.chunk_size in
      let split : n * (s.chunk_size + 4) ≡ n * s.chunk_size + n * 4 = grind arith in
      record {
        some_bytes = some_bytes;
        sized = length-resized s.chunk_size s.buffer;
        fits = refl;
        some_chunks = rounded-positive header s.packet_size s.chunk_size;
        small = omega arith;
        default_chunk = default_chunk;
        default_range = range;
      }

  -- Behind the first packet the sizes are consistent, and the rest is as it was.
  pub end_append-done :
      (s : OutputStream World)
      → IsSized codec crc backend reliable s
      → (t : OutputStream World) × (end_append codec crc backend s ≡ done tt t)
        × IsSized codec crc backend reliable t
        × (t.current_packet ≡ s.current_packet)
        × (t.position ≡ s.position)
        × (t.world ≡ s.world)
        × (t.cursor ≡ s.cursor)
  unfolding end_append
  end_append-done s z =
      let first = record s {
        is_append = false;
        chunk_size = s.default_chunk_size;
        packet_size = s.default_packet_size;
      } in
      let shrunk = compute_packet_chunk_size codec first in
      elim (Bool-cases s.is_append) [
        | inr later ↦
            (s, ap (λ b. if b then shrunk else done tt s) later, z, refl, refl, refl, refl)
        | inl first_one ↦ (
          computed first,
          ap (λ b. if b then shrunk else done tt s) first_one
              ∙ compute_packet_chunk_size-done first z.default_range,
          computed-IsSized first z.default_chunk z.default_chunk z.default_range z.default_range,
          refl,
          refl,
          refl,
          refl,
        )
      ]
