-- ===== src/OutputStream/Closing.antt =====
-- flush, sync, tell and close, and completeFile, of src/client/OutputStreamImpl.cpp. The renewal of
-- leases, which close stops, is modelled in LeaseRenewer.
use libhdfs.Prelude.{
  ℕ, zero, suc, ltb, ◌==◌, ◌&&◌, not, if◌then◌else◌, Bool, true, false, List, [], Option, none,
  some, Exn, take, hdfs_io_exception,
}
use libhdfs.Packet.Header.{HeaderCodec}
use libhdfs.Packet.Buffer.{Packet, set_sync_flag}
use libhdfs.Pipeline.Calls.{
  done, failed, stuck, ◌>>=◌, ◌>>◌, return, throws, asks, modify, catching, is_io,
}
use libhdfs.OutputStream.State.{
  with_pool, Backend, OutputStream, Member, asks_backend, check_status, append_sizes,
  compute_packet_chunk_size,
}
use libhdfs.OutputStream.Chunking.{
  take_packet, append_chunk_to_packet, send_packet, send_current, close_pipeline, noting_error,
}

abbrev pub is_nothing : Option Packet → Bool
is_nothing none = true
is_nothing (some p) = false

module _ {World : Type 0} where
  -- reset
  unfoldable pub reset : OutputStream World → OutputStream World
  reset s = record s {
    closed = true;
    is_append = false;
    sync_block = false;
    last_error = none;
    chunk_size = 0;
    chunks_per_packet = 0;
    packet_size = 0;
    position = 0;
    block_size = 0;
    bytes_written = 0;
    cursor = 0;
    last_flushed = 0;
    next_seq_no = 0;
    checksum = [];
    current_packet = none;
    pipeline = false;
  }

  -- tell
  unfoldable pub tell : Member World ℕ
  tell = check_status >> asks (λ s. s.cursor)

module _ {World : Type 0} (codec : HeaderCodec) (crc : List ℕ → ℕ) (backend : Backend World) where
  -- The partial chunk goes into the packet, and stays in the chunk buffer.
  unfoldable pub put_partial : Member World (Unit {0})
  put_partial s =
      if ltb 0 s.position
      then append_chunk_to_packet codec crc backend (take s.position s.buffer) s
      else done tt s

  -- For a sync with nothing to send, an empty packet carries the flag.
  unfoldable pub need_packet : Bool → Member World (Unit {0})
  need_packet need_sync s =
      if is_nothing s.current_packet && (need_sync && s.pipeline)
      then (take_packet codec crc backend >>= λ packet.
            modify (λ t. record t { current_packet = some packet }))
          s
      else done tt s

  unfoldable pub send_flagged : Bool → Option Packet → Member World (Unit {0})
  send_flagged need_sync none = return tt
  send_flagged need_sync (some packet) =
      let flagged = set_sync_flag need_sync packet in
      modify (λ s. record s { current_packet = some flagged })
      >> send_packet codec crc backend flagged

  -- flushInternal, behind its first test.
  unfoldable pub flush_rest : Bool → Member World (Unit {0})
  flush_rest need_sync = do
    modify (λ s. record s { last_flushed = s.cursor })
    put_partial
    need_packet need_sync
    current ← asks (λ s. s.current_packet)
    send_flagged need_sync current
    (λ s. if s.pipeline then with_pool backend.flush s else done tt s)

  -- flushInternal
  unfoldable pub flush_internal : Bool → Member World (Unit {0})
  flush_internal need_sync s =
      if s.last_flushed == s.cursor && not need_sync then done tt s else flush_rest need_sync s

  unfoldable pub flush : Member World (Unit {0})
  flush = check_status >> noting_error codec crc backend (flush_internal false)

  unfoldable pub sync : Member World (Unit {0})
  sync = check_status >> noting_error codec crc backend (flush_internal true)

  -- completeFile; `limited` is whether there is a limit on the time.
  unfoldable pub complete_file : ℕ → Bool → Bool → Member World (Unit {0})
  complete_file zero limited throw_error s = stuck
  complete_file (suc fuel) limited throw_error s =
      let again = complete_file fuel limited throw_error in
      (catching (asks_backend backend.complete >>= λ success. return (some success)) (λ e.
            if is_io e
            then (if throw_error then throws hdfs_io_exception else return none)
            else throws e)
          >>= λ answer. elim answer [
            | none ↦ return tt
            | some true ↦ return tt
            | some false ↦
                (asks (λ t. limited && backend.is_late t.world) >>= λ late t.
                let next = again (record t { world = backend.sleep t.world }) in
                if late
                then (if throw_error then failed hdfs_io_exception t else done tt t)
                else next)
          ])
        s

  -- The `try` block of initAppend for a file of `length` bytes in blocks of `block_size` bytes;
  -- `last_block` is the size of its last block, if there is one.
  unfoldable pub init_sizes : ℕ → ℕ → Option ℕ → Member World (Unit {0})
  init_sizes block_size length none =
      modify (λ s. record s { block_size = block_size; cursor = length })
  init_sizes block_size length (some last_bytes) =
      modify (λ s. record s { block_size = block_size; cursor = length }) >> append_sizes last_bytes

  -- initAppend, with the file's status as an argument.
  unfoldable pub init_append : ℕ → Bool → ℕ → ℕ → Option ℕ → Member World (Unit {0})
  init_append fuel limited block_size length last_block =
      modify (λ s. record s { closed = false })
      >> (catching (init_sizes block_size length last_block)
          (λ e. complete_file fuel limited false >> (modify reset >> throws e)))
      >> compute_packet_chunk_size codec

  -- The `try` block of close.
  unfoldable pub finish : ℕ → Bool → Member World (Unit {0})
  finish fuel limited = do
    (λ s. if s.last_flushed == s.cursor then done tt s else put_partial s)
    (λ s.
        if s.last_flushed == s.cursor
        then done tt s
        else send_current codec crc backend s.current_packet s)
    close_pipeline codec crc backend
    complete_file fuel limited true

  unfoldable pub finish_unless_failed : ℕ → Bool → Option Exn → Member World (Unit {0})
  finish_unless_failed fuel limited none = finish fuel limited
  finish_unless_failed fuel limited (some e) = return tt

  -- close: whatever has happened, the stream is reset, and an exception is thrown on.
  unfoldable pub close : ℕ → Bool → Member World (Unit {0})
  close fuel limited s =
      if s.closed
      then done tt s
      else (catching (finish_unless_failed fuel limited s.last_error)
              (λ e. modify reset >> throws e)
            >> modify reset)
          s
