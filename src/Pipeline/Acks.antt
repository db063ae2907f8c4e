-- ===== src/Pipeline/Acks.antt =====
-- The acknowledgements: processAck, processResponse, checkResponse and resend of
-- src/client/Pipeline.cpp, and isSuccess of PipelineAck.h.
use libhdfs.Prelude.{
  ℕ, suc, ltb, Bool, true, false, not, List, [], ◌∷◌, Option, none, some, get_elem?, set,
  if◌then◌else◌, hdfs_io_exception, length_error,
}
use libhdfs.Prelude.Int.{ℤ, pos, negsuc, eqb_ℤ}
use libhdfs.Packet.Header.{HeaderCodec}
use libhdfs.Packet.Buffer.{Packet, heart_beat_seqno, get_buffer, get_last_byte_offset_block}
use libhdfs.Packet.Pool.{release_packet}
use libhdfs.Pipeline.Calls.{
  done, failed, broken, ◌>>=◌, ◌>>◌, return, throws, asks, modify, of_result,
}
use libhdfs.Pipeline.State.{
  is_close, Status, success, Block, Ack, PipelineImpl, Network, Member, calls, deref, asserts,
}

abbrev pub is_success : Status → Bool
is_success success = true
is_success _ = false

-- isSuccess
unfoldable pub all_success : List Status → Bool
all_success [] = true
all_success (r ∷ rs) = let rest = all_success rs in if is_success r then rest else false

-- The loop of processAck, which runs down from the last reply: the last one that is no success.
unfoldable pub last_failure : List Status → Option ℕ
last_failure [] = none
last_failure (r ∷ rs) = elim (last_failure rs) [
  | some i ↦ some (suc i)
  | none ↦ if is_success r then none else some 0
]

abbrev pub with_num_bytes : ℕ → Block → Block
with_num_bytes n b = record b { num_bytes = n }

module _ {World : Type 0} where
  -- What is left when the first packet has been acknowledged.
  unfoldable pub acknowledged :
      Packet → List Packet → ℕ → Block → PipelineImpl World → PipelineImpl World
  acknowledged packet rest reached block s =
      let acked = if ltb s.bytes_acked reached then reached else s.bytes_acked in
      record s {
        bytes_acked = acked;
        last_block = some (with_num_bytes acked block);
        connection = if packet.last_packet_in_block then false else s.connection;
        packet_pool = release_packet packet s.packet_pool;
        packets = rest;
      }

  -- processAck for the queue `packet ∷ rest`, on an ack that reports success.
  unfoldable pub accept_ack : ℤ → Packet → List Packet → Member World (Unit {0})
  accept_ack seqno packet rest =
      if eqb_ℤ packet.seqno seqno
      then (do
        reached ← of_result (get_last_byte_offset_block packet)
        last ← asks (λ s. s.last_block)
        block ← deref last
        modify (acknowledged packet rest reached block))
      else throws hdfs_io_exception

  -- The branch of processAck on an ack that reports a failure.
  unfoldable pub refuse_ack : List Status → Member World (Unit {0})
  refuse_ack replies = elim (last_failure replies) [
    | none ↦ return tt
    | some i ↦ (do
      modify (λ s. record s { error_index = some i })
      nodes ← asks (λ s. s.nodes)
      node ← deref (get_elem? nodes i)
      throws hdfs_io_exception)
  ]

  unfoldable pub answer_ack : Ack → List Packet → Member World (Unit {0})
  answer_ack ack [] = λ s. broken
  answer_ack ack (packet ∷ rest) =
      if all_success ack.replies then accept_ack ack.seqno packet rest else refuse_ack ack.replies

  -- processAck
  unfoldable pub process_ack : Ack → Member World (Unit {0})
  process_ack ack s =
      if eqb_ℤ heart_beat_seqno ack.seqno then done tt s else answer_ack ack s.packets s

  -- `buf.resize(size)`, which throws for a negative size.
  abbrev pub buffer_size : ℤ → Member World ℕ
  buffer_size (pos n) s = done n s
  buffer_size (negsuc n) s = failed length_error s

  -- `ack` is what protobuf parses, and `none` an invalid one.
  unfoldable pub process_parsed : Option Ack → Member World (Unit {0})
  process_parsed none = throws hdfs_io_exception
  process_parsed (some ack) = process_ack ack

  abbrev pub note_sent : ℕ → PipelineImpl World → PipelineImpl World
  note_sent reached s = record s {
    bytes_sent = if ltb s.bytes_sent reached then reached else s.bytes_sent;
  }

  module _ (network : Network World) where
    -- processResponse
    unfoldable pub process_response : Member World (Unit {0})
    process_response = do
      size ← calls network.read_varint32
      n ← buffer_size size
      bytes ← calls (network.read_fully n)
      process_parsed (network.parse_ack bytes)

    -- checkResponse, behind `poll`
    unfoldable pub on_readable : Bool → Bool → Member World (Unit {0})
    on_readable wait true = process_response
    on_readable true false = throws hdfs_io_exception
    on_readable false false = return tt

    unfoldable pub check_response : Bool → Member World (Unit {0})
    check_response wait = do readable ← calls (network.poll wait); on_readable wait readable

    module _ (codec : HeaderCodec) where
      -- The loop of resend over the packets from number `i` on; getBuffer changes the packet.
      unfoldable pub resend_from : ℕ → List Packet → Member World (Unit {0})
      resend_from i [] = return tt
      resend_from i (packet ∷ rest) = do
        (bytes, closed) ← of_result (get_buffer codec packet)
        modify (λ s. record s { packets = set s.packets i closed })
        calls (network.write_fully bytes)
        reached ← of_result (get_last_byte_offset_block closed)
        modify (note_sent reached)
        resend_from (suc i) rest

      -- resend
      unfoldable pub resend : Member World (Unit {0})
      resend s = (asserts (not (is_close s.stage)) >> resend_from 0 s.packets) s
