-- ===== src/OutputStream/Opening.antt =====
-- The sizes that initAppend and computePacketChunkSize set when a stream is opened.
use libhdfs.Prelude.{
  ℕ, ◌+◌, ◌-◌, ◌/◌, ◌%◌, ◌^◌, ◌≡◌, ◌≤◌, ◌<◌, refl, inl, inr, arith, ltb, ◌==◌, if◌then◌else◌, Bool,
  true, false, none, some, Bool-cases, List,
}
use native.Mathlib.Nat.{div-eq_of_lt, mod-lt}
use libhdfs.Packet.Header.{HeaderCodec, get_pkg_header_size}
use libhdfs.Pipeline.Calls.{done}
use libhdfs.OutputStream.State.{Backend, OutputStream, append_sizes}
use libhdfs.OutputStream.Closing.{init_sizes, init_append}
use libhdfs.OutputStream.Appending.{IsReliable, IsSized, IsOpen}
use libhdfs.OutputStream.Resizing.{
  length-resized, rounded, computed, computed-IsSized, compute_packet_chunk_size-done,
}
use libhdfs.OutputStream.Rounds.{without-IsOpen}

rounded_one : (header chunk_size : ℕ) → rounded header 0 chunk_size ≡ 1
rounded_one header chunk_size =
    let zero_chunks : (0 + (chunk_size + 4) - header - 1) / (chunk_size + 4) ≡ 0 =
      div-eq_of_lt (omega arith) in
    ground arith

module _ {World : Type 0} (codec : HeaderCodec) (crc : List ℕ → ℕ) (backend : Backend World)
    (reliable : IsReliable backend) where
  -- A stream that has been given no bytes yet, with the sizes of the configuration, for which no int
  -- of computePacketChunkSize overflows.
  pub record IsConfigured (s : OutputStream World) : Type 0 where
    pub empty : s.position ≡ 0
    pub no_packet : s.current_packet ≡ none
    pub chunk : s.chunk_size ≡ s.default_chunk_size
    pub packet : s.packet_size ≡ s.default_packet_size
    pub some_bytes : 0 < s.default_chunk_size
    pub range :
        s.default_packet_size + (s.default_chunk_size + 4) + get_pkg_header_size codec < 2 ^ 31

  computed-IsOpen :
      (s : OutputStream World)
      → IsSized codec crc backend reliable (computed codec crc backend reliable s)
      → 0 < s.chunk_size
      → s.position ≡ 0
      → s.current_packet ≡ none
      → IsOpen codec crc backend reliable (computed codec crc backend reliable s)
  computed-IsOpen s z some_bytes empty no_packet =
      without-IsOpen codec crc backend reliable (computed codec crc backend reliable s) z
        (omega (arith, length-resized s.chunk_size s.buffer)) no_packet

  -- A stream is opened for an append to a file that ends within its last block. Its configuration is
  -- of a chunk size above 0, of sizes that with a header stay within an int, and it holds no bytes
  -- yet. Then initAppend returns; the sizes are consistent and the stream is ready for an append,
  -- with the cursor at the end of the file and as many bytes written as the last block has; and where
  -- the file ends within a chunk, the first packet has one chunk, of exactly the bytes that fill it
  -- up.
  pub init_append-IsOpen :
      (fuel block_size file_length last_bytes : ℕ) (limited : Bool) (s : OutputStream World)
      → IsConfigured s
      → 0 < block_size
      → 0 < file_length % block_size
      → (u : OutputStream World) × (init_append codec crc backend fuel limited block_size
            file_length
            (some last_bytes)
            s
          ≡ done tt u)
        × IsOpen codec crc backend reliable u
        × (u.closed ≡ false)
        × (u.cursor ≡ file_length)
        × (u.bytes_written ≡ last_bytes)
        × (0 < file_length % s.chunk_size
            → (u.chunks_per_packet ≡ 1)
              × (file_length % s.chunk_size + u.chunk_size ≡ s.chunk_size))
  unfolding init_append init_sizes append_sizes
  init_append-IsOpen fuel block_size file_length last_bytes limited s c blocks within =
      let free = block_size - file_length % block_size in
      let used = file_length % s.chunk_size in
      let in_block : file_length % block_size < block_size = mod-lt file_length blocks in
      let below : used < s.chunk_size = mod-lt file_length (omega (arith, c.some_bytes, c.chunk)) in
      let room : (free == block_size) ≡ false = ground arith in
      let t = record s {
        closed = false;
        block_size = block_size;
        cursor = file_length;
        is_append = true;
        bytes_written = last_bytes;
      } in
      let small = if ltb s.packet_size free then s.packet_size else free in
      let less : small ≤ s.packet_size = ground arith in
      elim (Bool-cases (ltb 0 used)) [
        | inl partial ↦
            let v = record t { packet_size = 0; chunk_size = s.chunk_size - used } in
            let range : v.packet_size + (v.chunk_size + 4) + get_pkg_header_size codec < 2 ^ 31 =
              (omega (arith, c.range, c.chunk)) in
            let some_bytes : 0 < s.chunk_size - used = omega arith in
            (
              computed codec crc backend reliable v,
              rw (room, partial, compute_packet_chunk_size-done codec crc backend reliable v range)
                  refl,
              computed-IsOpen v
                  (computed-IsSized codec crc backend reliable v some_bytes c.some_bytes range
                    c.range)
                  some_bytes c.empty c.no_packet,
              refl,
              refl,
              refl,
              (λ _. (rounded_one (get_pkg_header_size codec) (s.chunk_size - used), omega arith)),
            )
        | inr whole ↦
            let v = record t { packet_size = small } in
            let range : v.packet_size + (v.chunk_size + 4) + get_pkg_header_size codec < 2 ^ 31 =
              (omega (arith, c.range, c.chunk, c.packet)) in
            let some_bytes : 0 < s.chunk_size = omega (arith, c.some_bytes, c.chunk) in
            (
              computed codec crc backend reliable v,
              rw (room, whole, compute_packet_chunk_size-done codec crc backend reliable v range)
                  refl,
              computed-IsOpen v
                  (computed-IsSized codec crc backend reliable v some_bytes c.some_bytes range
                    c.range)
                  some_bytes c.empty c.no_packet,
              refl,
              refl,
              refl,
              (λ h. absurd (ground arith)),
            )
      ]
