-- ===== src/Pipeline/Sending.antt =====
-- Packets on their way: send, waitForAcks, flush and close of src/client/Pipeline.cpp. `tries` is the
-- fuel of each attempt to build the pipeline again.
use libhdfs.Prelude.{
  ℕ, zero, suc, ltb, Bool, true, false, not, ◌&&◌, ◌||◌, List, [], ◌∷◌, ◌++◌, Option, none, some,
  length, if◌then◌else◌, hdfs_io_exception,
}
use libhdfs.Packet.Header.{HeaderCodec}
use libhdfs.Packet.Buffer.{
  Packet, get_buffer, get_last_byte_offset_block, is_heartbeat, set_last_packet_in_block,
}
use libhdfs.Pipeline.Calls.{
  Outcome, done, stuck, ◌>>=◌, ◌>>◌, return, throws, asks, modify, of_result, catching, is_io,
}
use libhdfs.Pipeline.State.{
  close_stage, is_close, Block, PipelineImpl, Network, Member, calls, deref, asserts,
}
use libhdfs.Pipeline.Acks.{with_num_bytes, check_response, note_sent, resend}
use libhdfs.Pipeline.Recovery.{is_empty, build_for_append_or_recovery}

abbrev pub only_last : List Packet → Bool
only_last [] = false
only_last (p ∷ []) = p.last_packet_in_block
only_last (p ∷ q ∷ ps) = false

module _ {World : Type 0} where
  -- `if (errorIndex < 0) errorIndex = 0; sock.reset()`
  abbrev pub note_error : PipelineImpl World → PipelineImpl World
  note_error s = record s {
    error_index = elim s.error_index [ none ↦ some 0 | some i ↦ some i ];
    connection = false;
  }

  abbrev pub striped_block : PipelineImpl World → Option Bool
  striped_block s = elim s.last_block [ none ↦ none | some b ↦ some b.striped ]

  -- The tests at the head of the loop of waitForAcks: nothing to wait for.
  abbrev pub has_waited : Bool → PipelineImpl World → Bool
  has_waited force s =
      is_empty s.packets || (not force && ltb (length s.packets) s.packet_pool.max_size)

module _ {World : Type 0} where
  -- When the pipeline stands again: if the block is closed, its last packet needs no sending.
  unfoldable pub when_closing : Member World Bool
  when_closing s =
      if is_close s.stage
      then (asserts (only_last s.packets)
            >> (modify (λ t. record t { packets = [] }) >> return false))
          s
      else done true s

  -- The statements at the end of close.
  unfoldable pub end_block : Member World Block
  end_block = do
    last ← asks (λ s. s.last_block)
    block ← deref last
    modify (λ s. record s {
      connection = false;
      last_block = some (with_num_bytes s.bytes_acked block);
    })
    acked ← asks (λ s. s.bytes_acked)
    return (with_num_bytes acked block)

module _ {World : Type 0} (network : Network World) (codec : HeaderCodec) (tries : ℕ) where
  -- What send and waitForAcks do when a data node has failed: whether the pipeline is built again
  -- (true) or the block is closed, so that nothing is left to send (false).
  unfoldable pub fail_over : Member World Bool
  fail_over = do
    kind ← asks striped_block
    striped ← deref kind
    (if striped then throws hdfs_io_exception else return tt)
    build_for_append_or_recovery network tries true
    when_closing

  -- The `try` block of waitForAcks.
  unfoldable pub await_ack : Bool → Member World (Unit {0})
  await_ack again = do
    (if again then resend network codec else return tt)
    bad ← asks (λ s. network.bad_writer_at_ack_pos s.bytes_acked)
    (if bad then throws hdfs_io_exception else return tt)
    check_response network true

  -- Behind it: whether to go on, with the next value of `failover`.
  unfoldable pub after_ack : Bool → Member World (Option Bool)
  after_ack again = catching (await_ack again >> return (some false)) λ e.
      if is_io e
      then modify note_error
        >> (fail_over >>= λ rebuilt. if rebuilt then return (some true) else return none)
      else throws e

  -- waitForAcks, with its `failover`.
  unfoldable pub wait_loop : ℕ → Bool → Bool → Member World (Unit {0})
  wait_loop zero force again s = stuck
  wait_loop (suc fuel) force again s =
      let go_on : Outcome (PipelineImpl World) (Unit {0}) =
        (after_ack again >>= λ next t. elim next [
          | none ↦ done tt t
          | some again' ↦ wait_loop fuel force again' t
        ])
          s in
      if has_waited force s then done tt s else go_on

  unfoldable pub wait_for_acks : ℕ → Bool → Member World (Unit {0})
  wait_for_acks fuel force = wait_loop fuel force false

  -- flush
  unfoldable pub flush : ℕ → Member World (Unit {0})
  flush fuel = wait_for_acks fuel true

  -- The `try` block of send, for the packet whose bytes are `bytes`.
  unfoldable pub write_packet : List ℕ → Packet → Bool → Member World (Unit {0})
  write_packet bytes packet true = do resend network codec; check_response network false
  write_packet bytes packet false = do
    connected ← asks (λ s. s.connection)
    asserts connected
    bad ← asks (λ s. network.bad_writer_at_kill_pos s.bytes_sent)
    (if bad then throws hdfs_io_exception else return tt)
    calls (network.write_fully bytes)
    reached ← of_result (get_last_byte_offset_block packet)
    modify (note_sent reached)
    check_response network false

  -- One round of the loop of send: whether another one follows.
  unfoldable pub send_round : List ℕ → Packet → Bool → Member World Bool
  send_round bytes packet again =
      catching (write_packet bytes packet again >> return false)
        λ e. if is_io e then modify note_error >> fail_over else throws e

  unfoldable pub send_loop : ℕ → List ℕ → Packet → Bool → Member World (Unit {0})
  send_loop zero bytes packet again s = stuck
  send_loop (suc fuel) bytes packet again s =
      (send_round bytes packet again >>= λ more t.
      let rest = send_loop fuel bytes packet true t in if more then rest else done tt t)
        s

  -- send
  unfoldable pub send : ℕ → Packet → Member World (Unit {0})
  send fuel packet = do
    (bytes, closed) ← of_result (get_buffer codec packet)
    modify (λ s. record s {
      packets = if is_heartbeat closed then s.packets else s.packets ++ (closed ∷ []);
    })
    crowded ← asks (λ s. ltb s.packet_pool.max_size (length s.packets))
    (if crowded then wait_for_acks fuel false else return tt)
    send_loop fuel bytes closed false

  -- close: the last block, with the number of its bytes that have been acknowledged.
  unfoldable pub close : ℕ → Packet → Member World Block
  close fuel packet = do
    (if network.fail_pipeline_close then throws hdfs_io_exception else return tt)
    wait_for_acks fuel true
    modify (λ s. record s { stage = close_stage })
    send fuel (set_last_packet_in_block true packet)
    wait_for_acks fuel true
    end_block
