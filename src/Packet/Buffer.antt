-- ===== src/Packet/Buffer.antt =====
-- src/client/Packet.cpp and Packet.h: one packet, its header, checksums and data in one buffer.
-- The `int` positions are numbers; where a position would leave the range of `int` the constructor's
-- `assert(dataPos >= 0)` fails.
use libhdfs.Prelude.{
  int_of, ℕ, ◌+◌, ◌-◌, ◌*◌, ◌^◌, ltb, leb, ◌==◌, if◌then◌else◌, Bool, false, not, List, ◌++◌,
  Result, ok, ◌>>=◌, ◌>>◌, assert, require, hdfs_io_exception, length, replicate,
}
use libhdfs.Prelude.Int.{ℤ, pos, negsuc, eqb_ℤ}
use libhdfs.Bytes.{blit, slice}
use libhdfs.Bytes.BigEndian.{write_big_endian32}
use libhdfs.Packet.Header.{HeaderCodec, PacketHeader, get_pkg_header_size, write_in_buffer}

pub record Packet : Type 0 where
  pub last_packet_in_block : Bool
  pub sync_block : Bool
  pub checksum_pos : ℕ
  pub checksum_size : ℕ
  pub checksum_start : ℕ
  pub data_pos : ℕ
  pub data_start : ℕ
  pub header_start : ℕ
  pub max_chunks : ℕ
  pub num_chunks : ℕ
  pub offset_in_block : ℕ
  pub seqno : ℤ
  pub buffer : List ℕ

-- HEART_BEAT_SEQNO
abbrev pub heart_beat_seqno : ℤ
heart_beat_seqno = negsuc 0

-- addChecksum
unfoldable pub add_checksum : ℕ → Packet → Result Packet
add_checksum checksum p = do
  require (leb (p.checksum_pos + 4) p.data_start) hdfs_io_exception
  buffer ← blit p.buffer p.checksum_pos (write_big_endian32 checksum)
  ok (record p { buffer = buffer; checksum_pos = p.checksum_pos + p.checksum_size })

-- addData
unfoldable pub add_data : List ℕ → Packet → Result Packet
add_data bytes p = do
  require (leb (length bytes + p.data_pos) (length p.buffer)) hdfs_io_exception
  buffer ← blit p.buffer p.data_pos bytes
  ok (record p { buffer = buffer; data_pos = p.data_pos + length bytes })

unfoldable pub set_sync_flag : Bool → Packet → Packet
set_sync_flag sync p = record p { sync_block = sync }

unfoldable pub increase_num_chunks : Packet → Packet
increase_num_chunks p = record p { num_chunks = p.num_chunks + 1 }

unfoldable pub is_full : Packet → Bool
is_full p = leb p.max_chunks p.num_chunks

unfoldable pub is_heartbeat : Packet → Bool
is_heartbeat p = eqb_ℤ heart_beat_seqno p.seqno

unfoldable pub set_last_packet_in_block : Bool → Packet → Packet
set_last_packet_in_block last p = record p { last_packet_in_block = last }

unfoldable pub get_data_size : Packet → ℕ
get_data_size p = p.data_pos - p.data_start

unfoldable pub get_last_byte_offset_block : Packet → Result ℕ
get_last_byte_offset_block p = do
  assert (leb p.data_start p.data_pos)
  most ← int_of (p.max_chunks * length p.buffer)
  assert (leb (p.data_pos - p.data_start) most)
  ok (p.offset_in_block + p.data_pos - p.data_start)

-- The first half of getBuffer: the checksums move up to the data.
unfoldable pub close_gap : Packet → Result Packet
close_gap p =
    let len = p.checksum_pos - p.checksum_start in
    let gap = p.data_start - p.checksum_pos in
    let moved : Result Packet = do
      checksums ← slice p.buffer p.checksum_start len
      buffer ← blit p.buffer (p.data_start - len) checksums
      ok (record p {
        buffer = buffer;
        header_start = gap;
        checksum_start = p.checksum_start + gap;
        checksum_pos = p.data_start;
      })
    in if not (p.checksum_pos == p.data_start) then moved else ok p

module _ (codec : HeaderCodec) where
  -- The heart beat packet.
  unfoldable pub new_heartbeat : Packet
  new_heartbeat = record {
    last_packet_in_block = false;
    sync_block = false;
    checksum_pos = 0;
    checksum_size = 0;
    checksum_start = 0;
    data_pos = 0;
    data_start = 0;
    header_start = 0;
    max_chunks = 0;
    num_chunks = 0;
    offset_in_block = 0;
    seqno = heart_beat_seqno;
    buffer = replicate (get_pkg_header_size codec) 0;
  }

  unfoldable pub new_packet : ℕ → ℕ → ℕ → ℤ → ℕ → Result Packet
  new_packet pkt_size chunks_per_pkt offset_in_block seqno checksum_size =
      let start = get_pkg_header_size codec in
      let data_start = start + chunks_per_pkt * checksum_size in
      assert (ltb data_start (2 ^ 31))
      >> ok (record {
        last_packet_in_block = false;
        sync_block = false;
        checksum_pos = start;
        checksum_size = checksum_size;
        checksum_start = start;
        data_pos = data_start;
        data_start = data_start;
        header_start = 0;
        max_chunks = chunks_per_pkt;
        num_chunks = 0;
        offset_in_block = offset_in_block;
        seqno = seqno;
        buffer = replicate pkt_size 0;
      })

  unfoldable pub reset : ℕ → ℕ → ℕ → ℤ → ℕ → Packet → Result Packet
  reset pkt_size chunks_per_pkt offset_in_block seqno checksum_size p =
      let start = get_pkg_header_size codec in
      let data_start = start + chunks_per_pkt * checksum_size in
      assert (ltb data_start (2 ^ 31))
      >> ok (record {
        last_packet_in_block = false;
        sync_block = false;
        checksum_pos = start;
        checksum_size = checksum_size;
        checksum_start = start;
        data_pos = data_start;
        data_start = data_start;
        header_start = 0;
        max_chunks = chunks_per_pkt;
        num_chunks = 0;
        offset_in_block = offset_in_block;
        seqno = seqno;
        buffer =
            if ltb (length p.buffer) pkt_size
            then p.buffer ++ replicate (pkt_size - length p.buffer) 0
            else p.buffer;
      })

  -- The header that getBuffer writes: the packet length counts four bytes more than it holds.
  abbrev pub header_of : Packet → PacketHeader
  header_of p = record {
    packet_len = pos (p.data_pos - p.data_start + (p.checksum_pos - p.checksum_start) + 4);
    proto = record {
      offset_in_block = p.offset_in_block;
      seqno = p.seqno;
      last_packet_in_block = p.last_packet_in_block;
      data_len = pos (p.data_pos - p.data_start);
    };
  }

  -- getBuffer: the bytes from `headerStart` on, and the packet as it is left.
  unfoldable pub get_buffer : Packet → Result (List ℕ × Packet)
  get_buffer p = do
    let pkt_len = p.data_pos - p.data_start + (p.checksum_pos - p.checksum_start)
    q ← close_gap p
    buffer ← blit q.buffer q.header_start (write_in_buffer codec (header_of p))
    bytes ← slice buffer q.header_start (get_pkg_header_size codec + pkt_len)
    ok (bytes, record q { buffer = buffer })
