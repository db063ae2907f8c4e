-- ===== src/OutputStream/State.antt =====
-- The state of an OutputStreamImpl, the interfaces that it calls (the checksum, the pipeline, the
-- name node), and the sizes that it works with.
use libhdfs.Prelude.{
  ℕ, ◌-◌, ◌%◌, ltb, ◌==◌, if◌then◌else◌, Bool, true, List, ◌++◌, Option, none, some, Exn, Result,
  ok, throw, fault, length, take, replicate, hdfs_io_exception,
}
use libhdfs.OutputStream.Sizes.{sizes_for}
use libhdfs.Packet.Header.{HeaderCodec, get_pkg_header_size}
use libhdfs.Packet.Buffer.{Packet}
use libhdfs.Packet.Pool.{PacketPool}
use libhdfs.Pipeline.Calls.{Outcome, done, failed, broken, Action, ◌>>=◌, modify, of_result}
use libhdfs.Pipeline.State.{Call}

-- The calls of Pipeline and of the name node: `setup` is the constructor, for the offset of the
-- current packet; `send`, `flush` and `close` put packets back into the pool; and `complete` asks whether the file is complete. `sleep` waits between two such
-- questions, and `is_late` is whether the time to close has run out.
pub record Backend (World : Type 0) : Type 0 where
  pub setup : Bool → ℕ → Call World (Unit {0})
  pub send : Packet → PacketPool → Call World PacketPool
  pub flush : PacketPool → Call World PacketPool
  pub close : Packet → PacketPool → Call World PacketPool
  pub fsync : Call World (Unit {0})
  pub complete : Call World Bool
  pub is_late : World → Bool
  pub sleep : World → World

-- `checksum` is the bytes that the checksum object has been given since its last reset, and `pipeline`
-- whether there is one. The last two fields before the world are of the configuration.
pub record OutputStream (World : Type 0) : Type 0 where
  pub closed : Bool
  pub is_append : Bool
  pub sync_block : Bool
  pub last_error : Option Exn
  pub chunk_size : ℕ
  pub chunks_per_packet : ℕ
  pub packet_size : ℕ
  pub position : ℕ
  pub block_size : ℕ
  pub bytes_written : ℕ
  pub cursor : ℕ
  pub last_flushed : ℕ
  pub next_seq_no : ℕ
  pub checksum : List ℕ
  pub current_packet : Option Packet
  pub pipeline : Bool
  pub packets : PacketPool
  pub buffer : List ℕ
  pub default_chunk_size : ℕ
  pub default_packet_size : ℕ
  pub world : World

-- `vector::resize`
unfoldable pub resized : ℕ → List ℕ → List ℕ
resized n bytes = take n bytes ++ replicate (n - length bytes) 0

abbrev pub Member : Type 0 → Type 0 → Type 0
Member World A = Action (OutputStream World) A

module _ {World : Type 0} where
  abbrev pub replied :
      {A : Type 0} → OutputStream World → Result A × World → Outcome (OutputStream World) A
  replied s (ok a, w) = done a (record s { world = w })
  replied s (throw e, w) = failed e (record s { world = w })
  replied s (fault, w) = broken

  abbrev pub asks_backend : {A : Type 0} → Call World A → Member World A
  asks_backend call s = replied s (call s.world)

  abbrev pub with_pool : (PacketPool → Call World PacketPool) → Member World (Unit {0})
  with_pool call s =
      (asks_backend (call s.packets) >>= λ pool. modify (λ t. record t { packets = pool })) s

  -- computePacketChunkSize
  unfoldable pub compute_packet_chunk_size : HeaderCodec → Member World (Unit {0})
  compute_packet_chunk_size codec s =
      (of_result (sizes_for (get_pkg_header_size codec) s.packet_size s.chunk_size) >>= λ sizes.
      modify (λ t. record t {
        chunks_per_packet = sizes.0;
        packet_size = sizes.1;
        buffer = resized t.chunk_size t.buffer;
      }))
        s

  -- The sizes that initAppend sets for a file with a last block of `last_bytes` bytes, which must not be
  -- full: one chunk that fills up the last partial one, or packets that fit the rest of the block.
  unfoldable pub append_sizes : ℕ → Member World (Unit {0})
  append_sizes last_bytes s =
      let free_in_last_block = s.block_size - s.cursor % s.block_size in
      let used_in_cksum = s.cursor % s.chunk_size in
      let t = record s { is_append = true; bytes_written = last_bytes } in
      let packet_size =
        if ltb s.packet_size free_in_last_block then s.packet_size else free_in_last_block in
      if free_in_last_block == s.block_size
      then failed hdfs_io_exception t
      else if ltb 0 used_in_cksum
      then done tt (record t { packet_size = 0; chunk_size = s.chunk_size - used_in_cksum })
      else done tt (record t { packet_size = packet_size })

  -- checkStatus
  unfoldable pub check_status : Member World (Unit {0})
  check_status s = elim s.last_error [
    | none ↦ if s.closed then failed hdfs_io_exception s else done tt s
    | some e ↦ if s.closed then failed hdfs_io_exception s else failed e s
  ]
