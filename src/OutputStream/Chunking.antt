-- ===== src/OutputStream/Chunking.antt =====
-- append: the loop that cuts the bytes into chunks, and the packets that are full.
use libhdfs.Prelude.{
  ℕ, zero, suc, ◌+◌, ◌-◌, leb, ◌==◌, ◌&&◌, ◌||◌, if◌then◌else◌, Bool, true, false, List, [], ◌∷◌,
  ◌++◌, Option, none, some, length, take, drop, min,
}
use libhdfs.Prelude.Int.{pos}
use libhdfs.Bytes.{blit}
use libhdfs.Packet.Header.{HeaderCodec}
use libhdfs.Packet.Buffer.{
  Packet, add_checksum, add_data, increase_num_chunks, is_full, set_sync_flag,
}
use libhdfs.Packet.Pool.{get_packet}
use libhdfs.Pipeline.Calls.{
  done, broken, stuck, ◌>>=◌, ◌>>◌, return, throws, asks, modify, of_result, catching,
}
use libhdfs.OutputStream.Sizes.{checksum_size}
use libhdfs.OutputStream.State.{
  with_pool, Backend, Member, asks_backend, compute_packet_chunk_size, check_status,
}

abbrev pub is_empty {ℓ} : {A : Type ℓ} → List A → Bool
is_empty [] = true
is_empty (x ∷ xs) = false

-- `crc` is the value of the checksum object for the bytes that it has been given.
module _ {World : Type 0} (codec : HeaderCodec) (crc : List ℕ → ℕ) (backend : Backend World) where
  -- `packets.getPacket(…, nextSeqNo++, …)`
  unfoldable pub take_packet : Member World Packet
  take_packet s =
      (modify (λ t. record t { next_seq_no = t.next_seq_no + 1 })
          >> (of_result (
                get_packet codec s.packet_size s.chunks_per_packet s.bytes_written
                  (pos s.next_seq_no) checksum_size s.packets)
              >>= λ got. (modify (λ t. record t { packets = got.1 }) >> return got.0)))
        s

  unfoldable pub packet_or_new : Option Packet → Member World Packet
  packet_or_new none =
      take_packet >>= λ p. (modify (λ s. record s { current_packet = some p }) >> return p)
  packet_or_new (some p) = return p

  -- The chunk and its checksum go into the packet.
  unfoldable pub fill_packet : List ℕ → Packet → Member World (Unit {0})
  fill_packet chunk packet = do
    sum ← asks (λ s. crc s.checksum)
    summed ← of_result (add_checksum sum packet)
    modify (λ s. record s { current_packet = some summed })
    filled ← of_result (add_data chunk summed)
    modify (λ s. record s { current_packet = some (increase_num_chunks filled) })

  -- appendChunkToPacket
  unfoldable pub append_chunk_to_packet : List ℕ → Member World (Unit {0})
  append_chunk_to_packet chunk s =
      if is_empty chunk then broken else (packet_or_new s.current_packet >>= fill_packet chunk) s

  -- setupPipeline, if there is none yet.
  unfoldable pub need_pipeline : Packet → Member World (Unit {0})
  need_pipeline packet s =
      if s.pipeline
      then done tt s
      else (asks_backend (backend.setup s.is_append packet.offset_in_block)
            >> modify (λ t. record t { pipeline = true }))
          s

  -- sendPacket
  unfoldable pub send_packet : Packet → Member World (Unit {0})
  send_packet packet = do
    need_pipeline packet
    with_pool (backend.send packet)
    modify (λ s. record s { current_packet = none })

  unfoldable pub send_current : Option Packet → Member World (Unit {0})
  send_current none = return tt
  send_current (some packet) = send_packet packet

  -- closePipeline
  unfoldable pub close_open_pipeline : Member World (Unit {0})
  close_open_pipeline = do
    current ← asks (λ s. s.current_packet)
    send_current current
    last ← take_packet
    sync ← asks (λ s. s.sync_block)
    modify
        (λ s. record s { current_packet = some (if sync then set_sync_flag true last else last) })
    with_pool (backend.close (if sync then set_sync_flag true last else last))
    modify (λ s. record s { current_packet = none; pipeline = false })
    asks_backend backend.fsync
    modify (λ s. record s { bytes_written = 0 })

  unfoldable pub close_pipeline : Member World (Unit {0})
  close_pipeline s = if s.pipeline then close_open_pipeline s else done tt s

  -- Behind the first packet of an append, the sizes are those of the configuration again.
  unfoldable pub end_append : Member World (Unit {0})
  end_append s =
      if s.is_append
      then compute_packet_chunk_size codec (record s {
        is_append = false;
        chunk_size = s.default_chunk_size;
        packet_size = s.default_packet_size;
      })
      else done tt s

  -- The end of a round of appendInternal: a packet that is full, or that ends its block, is sent.
  unfoldable pub send_if_ready : Option Packet → Member World (Unit {0})
  send_if_ready none s = done tt s
  send_if_ready (some packet) s =
      if is_full packet || s.bytes_written == s.block_size
      then (send_packet packet
            >> (end_append
                >> (λ t. if t.bytes_written == t.block_size then close_pipeline t else done tt t)))
          s
      else done tt s

  -- A chunk that goes into the packet whole, and what is left for the next one.
  unfoldable pub put_chunk : List ℕ → Member World (Unit {0})
  put_chunk chunk = do
    append_chunk_to_packet chunk
    modify (λ s. record s { bytes_written = s.bytes_written + length chunk; checksum = [] })

  -- Bytes that are added to the chunk buffer, which goes into the packet when it is full.
  unfoldable pub buffer_bytes : List ℕ → Member World (Unit {0})
  buffer_bytes piece = do
    s ← asks (λ s. s)
    buffer ← of_result (blit s.buffer s.position piece)
    modify (λ t. record t { buffer = buffer; position = t.position + length piece })
    (λ t.
        if t.position == length t.buffer
        then (put_chunk t.buffer >> modify (λ u. record u { position = 0 })) t
        else done tt t)

  unfoldable pub append_piece : Bool → List ℕ → Member World (Unit {0})
  append_piece whole piece =
      modify (λ s. record s { checksum = s.checksum ++ piece })
      >> (if whole then put_chunk piece else buffer_bytes piece)

  -- One round of appendInternal, on what is still to do.
  unfoldable pub append_round : List ℕ → Member World (List ℕ)
  append_round todo s =
      let batch = min (length s.buffer - s.position) (length todo) in
      (append_piece (s.position == 0 && leb (length s.buffer) (length todo)) (take batch todo)
          >> ((λ t. send_if_ready t.current_packet t) >> return (drop batch todo)))
        s

  unfoldable pub append_loop : ℕ → List ℕ → Member World (Unit {0})
  append_loop zero todo s = if is_empty todo then done tt s else stuck
  append_loop (suc fuel) todo s =
      let more = (append_round todo >>= append_loop fuel) s in
      if is_empty todo then done tt s else more

  -- appendInternal. The fuel is the number of the bytes, since each round takes one at least.
  unfoldable pub append_internal : List ℕ → Member World (Unit {0})
  append_internal bytes =
      append_loop (length bytes) bytes
      >> modify (λ s. record s { cursor = s.cursor + length bytes })

  -- `catch (...) { setError(current_exception()); throw; }`
  unfoldable pub noting_error : Member World (Unit {0}) → Member World (Unit {0})
  noting_error m = catching m λ e. modify (λ s. record s { last_error = some e }) >> throws e

  -- append, of a buffer that is there.
  unfoldable pub append : List ℕ → Member World (Unit {0})
  append bytes = check_status >> noting_error (append_internal bytes)
