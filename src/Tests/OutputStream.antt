-- ===== src/Tests/OutputStream.antt =====
-- A stream over a pipeline that keeps the packets it is given, and over one that cannot be set up.
use libhdfs.Prelude.{
  ℕ, ◌<◌, ◌%◌, ◌+◌, ◌≡◌, refl, ap, arith, Bool, true, false, List, [], ◌∷◌, ◌++◌, Option, none,
  some, ok, throw, hdfs_io_exception, hdfs_network_exception, fault, int_of,
}
use libhdfs.Bytes.{blit}
use libhdfs.Bytes.BigEndian.{write_big_endian32}
use libhdfs.Packet.Header.{get_pkg_header_size}
use libhdfs.Packet.Buffer.{Packet, add_checksum, add_data, increase_num_chunks, is_full, new_packet}
use libhdfs.Packet.Pool.{get_packet}
use libhdfs.Pipeline.Calls.{done, failed, left}
use libhdfs.OutputStream.Sizes.{chunks_for}
use libhdfs.OutputStream.State.{Backend, OutputStream, check_status}
use libhdfs.OutputStream.Chunking.{
  take_packet, packet_or_new, fill_packet, append_chunk_to_packet, need_pipeline, send_packet,
  send_current, send_if_ready, put_chunk, append_piece, append_round, append_loop, append_internal,
  append, noting_error,
}
use libhdfs.OutputStream.Closing.{
  put_partial, finish, init_append, finish_unless_failed, close, reset,
}
use libhdfs.OutputStream.Appending.{IsReliable, content, IsOpen}
use libhdfs.OutputStream.Delivered.{append_internal-content}
use libhdfs.OutputStream.Opening.{IsConfigured, init_append-IsOpen}
use libhdfs.OutputStream.Latching.{Refuses, close-final, append-latches}
use libhdfs.Tests.Packet.{codec}

-- The world is the packets that the pipeline has been given.
abbrev recorder : Backend (List Packet)
recorder = record {
  setup = λ append offset w. (ok tt, w);
  send = λ p pool w. (ok pool, w ++ (p ∷ []));
  flush = λ pool w. (ok pool, w);
  close = λ p pool w. (ok pool, w ++ (p ∷ []));
  fsync = λ w. (ok tt, w);
  complete = λ w. (ok true, w);
  is_late = λ w. false;
  sleep = λ w. w;
}

abbrev down : Backend (List Packet)
down = record recorder { setup = λ append offset w. (throw hdfs_network_exception, w) }

recorder-IsReliable : IsReliable recorder
recorder-IsReliable = record {
  sent = λ w. w;
  setup_ok = λ append offset w. (w, refl, refl);
  send_ok = λ p pool w. (pool, w ++ (p ∷ []), refl, refl);
  close_ok = λ p pool w. (pool, w ++ (p ∷ []), refl, refl);
  fsync_ok = λ w. (w, refl, refl);
}

abbrev sum : List ℕ → ℕ
sum [] = 0
sum (b ∷ bs) = b + sum bs

-- Chunks of 2 bytes, two of them in a packet and three of them in a block.
abbrev fresh : OutputStream (List Packet)
fresh = record {
  closed = false;
  is_append = false;
  sync_block = false;
  last_error = none;
  chunk_size = 2;
  chunks_per_packet = 2;
  packet_size = 24;
  position = 0;
  block_size = 6;
  bytes_written = 0;
  cursor = 0;
  last_flushed = 0;
  next_seq_no = 0;
  checksum = [];
  current_packet = none;
  pipeline = false;
  packets = record { max_size = 2; packets = [] };
  buffer = 0 ∷ 0 ∷ [];
  default_chunk_size = 2;
  default_packet_size = 24;
  world = [];
}

fresh-IsOpen : IsOpen codec sum recorder recorder-IsReliable fresh
unfolding get_pkg_header_size
fresh-IsOpen = record {
  sizes = record {
    some_bytes = omega arith;
    sized = refl;
    fits = refl;
    some_chunks = omega arith;
    small = omega arith;
    default_chunk = omega arith;
    default_range = omega arith;
  };
  room = omega arith;
  fills = tt;
  waits = tt;
}

abbrev nine : List ℕ
nine = 1 ∷ 2 ∷ 3 ∷ 4 ∷ 5 ∷ 6 ∷ 7 ∷ 8 ∷ 9 ∷ []

append_internal-content_example :
    (t : OutputStream (List Packet)) × (append_internal codec sum recorder nine fresh ≡ done tt t)
    × IsOpen codec sum recorder recorder-IsReliable t
    × (content codec sum recorder recorder-IsReliable t
        ≡ content codec sum recorder recorder-IsReliable fresh ++ nine)
    × (t.cursor ≡ 0 + 9)
append_internal-content_example =
    append_internal-content codec sum recorder recorder-IsReliable fresh nine fresh-IsOpen

abbrev or_fresh : Option (OutputStream (List Packet)) → OutputStream (List Packet)
or_fresh none = fresh
or_fresh (some s) = s

-- One byte is buffered, and the pipeline cannot be set up.
abbrev buffered : OutputStream (List Packet)
buffered = record fresh { position = 1; cursor = 1; buffer = 7 ∷ 0 ∷ []; checksum = 7 ∷ [] }

close_fails :
    close codec sum down 1 true buffered
    ≡ failed hdfs_network_exception (or_fresh (left (close codec sum down 1 true buffered)))
unfolding close finish_unless_failed finish put_partial append_chunk_to_packet packet_or_new
    take_packet fill_packet send_packet need_pipeline get_packet new_packet send_current
    get_pkg_header_size add_checksum add_data write_big_endian32 blit
close_fails = refl

close-final_example :
    Refuses codec sum down hdfs_io_exception
      (or_fresh (left (close codec sum down 1 true buffered)))
    × (close codec sum down 1 true (or_fresh (left (close codec sum down 1 true buffered)))
        ≡ done tt (or_fresh (left (close codec sum down 1 true buffered))))
close-final_example =
    close-final codec sum down 1 true buffered
      (or_fresh (left (close codec sum down 1 true buffered))) (ap left close_fails)

append_fails :
    append codec sum down nine fresh
    ≡ failed hdfs_network_exception (or_fresh (left (append codec sum down nine fresh)))
unfolding append check_status noting_error append_internal append_loop append_round append_piece
    put_chunk send_if_ready append_chunk_to_packet packet_or_new take_packet fill_packet send_packet
    need_pipeline get_packet new_packet get_pkg_header_size add_checksum add_data
    increase_num_chunks is_full write_big_endian32 blit
append_fails = refl

still_open : (or_fresh (left (append codec sum down nine fresh))).closed ≡ false
unfolding append check_status noting_error append_internal append_loop append_round append_piece
    put_chunk send_if_ready append_chunk_to_packet packet_or_new take_packet fill_packet send_packet
    need_pipeline get_packet new_packet get_pkg_header_size add_checksum add_data
    increase_num_chunks is_full write_big_endian32 blit
still_open = refl

good_status : check_status fresh ≡ done tt fresh
unfolding check_status
good_status = refl

append-latches_example :
    Refuses codec sum down hdfs_network_exception
      (or_fresh (left (append codec sum down nine fresh)))
    × ((fuel : ℕ) (limited : Bool)
        → close codec sum down fuel limited (or_fresh (left (append codec sum down nine fresh)))
          ≡ done tt (reset (or_fresh (left (append codec sum down nine fresh)))))
append-latches_example =
    append-latches codec sum down fresh (or_fresh (left (append codec sum down nine fresh))) nine
      hdfs_network_exception good_status append_fails still_open

-- A file of 3 bytes, in the middle of a chunk of 2.
fresh-IsConfigured : IsConfigured codec sum recorder recorder-IsReliable fresh
unfolding get_pkg_header_size
fresh-IsConfigured = record {
  empty = refl;
  no_packet = refl;
  chunk = refl;
  packet = refl;
  some_bytes = omega arith;
  range = omega arith;
}

init_append-IsOpen_example :
    (u : OutputStream (List Packet)) × (init_append codec sum recorder 1 true 6 3 (some 3) fresh
      ≡ done tt u)
    × IsOpen codec sum recorder recorder-IsReliable u
    × (u.closed ≡ false)
    × (u.cursor ≡ 3)
    × (u.bytes_written ≡ 3)
    × (0 < 3 % 2 → (u.chunks_per_packet ≡ 1) × (3 % 2 + u.chunk_size ≡ 2))
init_append-IsOpen_example =
    init_append-IsOpen codec sum recorder recorder-IsReliable 1 6 3 3 true fresh fresh-IsConfigured
      (omega arith) (omega arith)

-- A packet size that the sums of computePacketChunkSize cannot hold.
overflowing_sizes : chunks_for 12 2_147_483_647 512 ≡ fault
unfolding chunks_for int_of
overflowing_sizes = refl
