-- ===== src/OutputStream/Appending.antt =====
-- What an output stream has sent, holds in its packet and holds in its chunk buffer is what has been
-- appended to it.
use libhdfs.Prelude.{
  ℕ, ◌+◌, ◌*◌, ◌^◌, ◌≡◌, ◌≢◌, ◌≤◌, ◌<◌, refl, sym, ap, ◌∙◌, arith, Bool, false, List, [], ◌∷◌, ◌++◌,
  Option, none, some, ok, length, take, drop,
}
use mathlib.Core.List.{append_assoc}
use libhdfs.Prelude.Int.{pos}
use libhdfs.Packet.Header.{HeaderCodec, get_pkg_header_size}
use libhdfs.Packet.Buffer.{Packet, increase_num_chunks}
use libhdfs.Packet.Pool.{PacketPool, get_packet-IsFresh}
use libhdfs.Pipeline.Calls.{done, and_then, modify, return, ◌>>◌}
use libhdfs.OutputStream.Sizes.{checksum_size}
use libhdfs.OutputStream.State.{Backend, OutputStream}
use libhdfs.OutputStream.Chunking.{
  take_packet, packet_or_new, fill_packet, is_empty, append_chunk_to_packet,
}
use libhdfs.OutputStream.Filling.{data_of, IsFilling, IsFilling-data_of, add_chunk}

-- A pipeline and a name node that do not fail, and what the pipeline has been given.
pub record IsReliable {World : Type 0} (backend : Backend World) : Type 0 where
  pub sent : World → List Packet
  pub setup_ok :
      (append : Bool) (offset : ℕ) (w : World)
      → (w' : World) × (backend.setup append offset w ≡ (ok tt, w')) × (sent w' ≡ sent w)
  pub send_ok :
      (p : Packet) (pool : PacketPool) (w : World)
      → (pool' : PacketPool) × (w' : World) × (backend.send p pool w ≡ (ok pool', w'))
        × (sent w' ≡ sent w ++ (p ∷ []))
  pub close_ok :
      (p : Packet) (pool : PacketPool) (w : World)
      → (pool' : PacketPool) × (w' : World) × (backend.close p pool w ≡ (ok pool', w'))
        × (sent w' ≡ sent w ++ (p ∷ []))
  pub fsync_ok : (w : World) → (w' : World) × (backend.fsync w ≡ (ok tt, w')) × (sent w' ≡ sent w)

-- The data of the packets, one behind the other.
abbrev pub written : List Packet → List ℕ
written [] = []
written (p ∷ ps) = data_of p ++ written ps

pub written-append : (ps qs : List Packet) → written (ps ++ qs) ≡ written ps ++ written qs
written-append [] qs = refl
written-append (p ∷ ps) qs =
    ap (λ r. data_of p ++ r) (written-append ps qs)
    ∙ sym (append_assoc (data_of p) (written ps) (written qs))

abbrev pub pending : Option Packet → List ℕ
pending none = []
pending (some p) = data_of p

module _ {World : Type 0} (codec : HeaderCodec) (crc : List ℕ → ℕ) (backend : Backend World)
    (reliable : IsReliable backend) where
  open reliable use {sent, setup_ok, send_ok, close_ok, fsync_ok}

  -- All that has been appended, since nothing of it is lost.
  abbrev pub content : OutputStream World → List ℕ
  content s = written (sent s.world) ++ (pending s.current_packet ++ take s.position s.buffer)

  -- The sizes that computePacketChunkSize has set, within the range of an `int`.
  pub record IsSized (s : OutputStream World) : Type 0 where
    pub some_bytes : 0 < s.chunk_size
    pub sized : length s.buffer ≡ s.chunk_size
    pub fits :
        s.packet_size
        ≡ s.chunks_per_packet * (s.chunk_size + checksum_size) + get_pkg_header_size codec
    pub some_chunks : 0 < s.chunks_per_packet
    pub small : get_pkg_header_size codec + s.chunks_per_packet * checksum_size < 2 ^ 31
    pub default_chunk : 0 < s.default_chunk_size
    pub default_range :
        s.default_packet_size + (s.default_chunk_size + checksum_size) + get_pkg_header_size codec
        < 2 ^ 31

  abbrev pub Fills : ℕ → Option Packet → Type 0
  Fills chunk_size none = Unit
  Fills chunk_size (some p) = (bytes : List ℕ) × IsFilling codec chunk_size p bytes

  -- The packet, if there is one, is not ready to be sent.
  abbrev pub Waits : OutputStream World → Option Packet → Type 0
  Waits s none = Unit
  Waits s (some p) = (p.num_chunks < p.max_chunks) × (s.bytes_written ≢ s.block_size)

  pub record IsOpen (s : OutputStream World) : Type 0 where
    pub sizes : IsSized s
    pub room : s.position < length s.buffer
    pub fills : Fills s.chunk_size s.current_packet
    pub waits : Waits s s.current_packet

  distribute : (n c : ℕ) → n * (c + 4) ≡ n * c + n * 4
  distribute n c = grind arith

  pub take_packet-done :
      (s : OutputStream World)
      → IsSized s
      → (p : Packet) × (pool : PacketPool) × (take_packet codec crc backend s
          ≡ done p (record s { next_seq_no = s.next_seq_no + 1; packets = pool }))
        × IsFilling codec s.chunk_size p []
        × (p.num_chunks < p.max_chunks)
        × (p.offset_in_block ≡ s.bytes_written)
  unfolding take_packet
  take_packet-done s z =
      let d = distribute s.chunks_per_packet s.chunk_size in
      let (p, run, fresh) =
        get_packet-IsFresh codec s.packet_size s.chunks_per_packet s.bytes_written
          (pos s.next_seq_no) checksum_size (omega (arith, z.fits)) z.small s.packets in
      (
        p,
        record s.packets { packets = drop 1 s.packets.packets },
        rw run refl,
        record {
          sums = [];
          holds = fresh.layout;
          four = fresh.checksum_is;
          sums_count = omega (arith, fresh.count);
          start = omega (arith, fresh.data_at, fresh.limit);
          bytes_count = omega arith;
          room =
              omega
                (arith, fresh.data_at, fresh.long, z.fits, ap (λ n. n * s.chunk_size) fresh.limit);
        },
        omega (arith, fresh.count, fresh.limit, z.some_chunks),
        fresh.offset_is,
      )

  fill_packet-done :
      (s : OutputStream World) (chunk : List ℕ) (p : Packet) (bytes : List ℕ)
      → IsFilling codec s.chunk_size p bytes
      → p.num_chunks < p.max_chunks
      → length chunk ≤ s.chunk_size
      → (q : Packet) × (fill_packet codec crc backend chunk p s
          ≡ done tt (record s { current_packet = some q }))
        × IsFilling codec s.chunk_size q (bytes ++ chunk)
        × (q.num_chunks ≤ q.max_chunks)
  unfolding fill_packet increase_num_chunks
  fill_packet-done s chunk p bytes f room small =
      let (q, r, run, filled, filling, shape) =
        add_chunk codec s.chunk_size p bytes f room (crc s.checksum) chunk small in
      (increase_num_chunks r, rw (run, filled) refl, filling, omega arith)

  -- What appendChunkToPacket leaves: the packet has the chunk at its end.
  abbrev pub Extended : OutputStream World → List ℕ → Type 0
  Extended s chunk =
      (q : Packet) × (pool : PacketPool) × (number : ℕ) × (append_chunk_to_packet codec crc backend
          chunk s
        ≡ done tt (record s { current_packet = some q; packets = pool; next_seq_no = number }))
      × ((bytes : List ℕ) × IsFilling codec s.chunk_size q bytes)
      × (q.num_chunks ≤ q.max_chunks)
      × (data_of q ≡ pending s.current_packet ++ chunk)

  pub extended :
      (s : OutputStream World) (chunk : List ℕ) (current : Option Packet)
      → s.current_packet ≡ current
      → IsSized s
      → is_empty chunk ≡ false
      → length chunk ≤ s.chunk_size
      → Fills s.chunk_size current
      → Waits s current
      → Extended s chunk
  unfolding append_chunk_to_packet packet_or_new
  extended s chunk none e z full_chunk small fills waits =
      let fill = fill_packet codec crc backend chunk in
      let keep = λ (p : Packet).
        modify (λ (u : OutputStream World). record u { current_packet = some p }) >> return p in
      let (p, pool, run, filling, room, at) = take_packet-done s z in
      let t = record s {
        next_seq_no = s.next_seq_no + 1;
        packets = pool;
        current_packet = some p;
      } in
      let (q, filled, full, count) = fill_packet-done t chunk p [] filling room small in
      (
        q,
        pool,
        s.next_seq_no + 1,
        rw full_chunk (
            ap (λ c. and_then (packet_or_new codec crc backend c s) fill) e
            ∙ ap (λ o. and_then (and_then o keep) fill) run
            ∙ filled),
        (chunk, full),
        count,
        IsFilling-data_of codec s.chunk_size q chunk full ∙ rw e refl,
      )
  extended s chunk (some p) e z full_chunk small (bytes, filling) (room, open_block) =
      let fill = fill_packet codec crc backend chunk in
      let (q, filled, full, count) = fill_packet-done s chunk p bytes filling room small in
      (
        q,
        s.packets,
        s.next_seq_no,
        rw full_chunk (ap (λ c. and_then (packet_or_new codec crc backend c s) fill) e ∙ filled),
        (bytes ++ chunk, full),
        count,
        IsFilling-data_of codec s.chunk_size q (bytes ++ chunk) full
            ∙ rw e
                (ap (λ b. b ++ chunk) (sym (IsFilling-data_of codec s.chunk_size p bytes filling))),
      )
