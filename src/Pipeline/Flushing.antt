-- ===== src/Pipeline/Flushing.antt =====
-- What waitForAcks ends in when it waits for all acknowledgements.
use libhdfs.Prelude.{
  ℕ, zero, suc, ◌+◌, ◌≡◌, ◌<◌, refl, ◌∙◌, true, false, List, [], ◌∷◌, ◌-◌, some, ok, arith, ltb,
  length, if◌then◌else◌,
}
use libhdfs.Prelude.Int.{pos, eqb_ℤ}
use libhdfs.Packet.Header.{HeaderCodec}
use libhdfs.Packet.Buffer.{Packet, get_last_byte_offset_block, heart_beat_seqno}
use libhdfs.Pipeline.Calls.{done}
use libhdfs.Pipeline.State.{Ack, Block, PipelineImpl, Network}
use libhdfs.Pipeline.Acks.{
  all_success, acknowledged, accept_ack, answer_ack, process_ack, process_parsed, process_response,
  on_readable, check_response,
}
use libhdfs.Pipeline.Sending.{await_ack, after_ack, has_waited, wait_loop, wait_for_acks, flush}

-- The byte behind the last one of a packet, in its block.
abbrev pub end_of : Packet → ℕ
end_of p = p.offset_in_block + p.data_pos - p.data_start

-- The data nodes answer for the packets, one by one: the acknowledgement is readable, has the number
-- of the packet and reports success.
pub data Answers {World : Type 0} (network : Network World) : World → List Packet → Type 0 where
  silent : {w : World} → Answers network w []
  answer :
      {w w1 w2 w3 : World} {p : Packet} {ps : List Packet} (size : ℕ) (bytes : List ℕ) (ack : Ack)
      → network.poll true w ≡ (ok true, w1)
      → network.read_varint32 w1 ≡ (ok (pos size), w2)
      → network.read_fully size w2 ≡ (ok bytes, w3)
      → network.parse_ack bytes ≡ some ack
      → eqb_ℤ heart_beat_seqno ack.seqno ≡ false
      → eqb_ℤ p.seqno ack.seqno ≡ true
      → all_success ack.replies ≡ true
      → get_last_byte_offset_block p ≡ ok (end_of p)
      → Answers network w3 ps
      → Answers network w (p ∷ ps)

-- The highest of a count and the ends of the packets.
abbrev pub highest : ℕ → List Packet → ℕ
highest acked [] = acked
highest acked (p ∷ ps) = highest (if ltb acked (end_of p) then end_of p else acked) ps

module _ {World : Type 0} (network : Network World) (codec : HeaderCodec) (tries : ℕ) where
  take_ack :
      (s : PipelineImpl World) (block : Block) (p : Packet) (ps : List Packet) (ack : Ack)
      → s.packets ≡ p ∷ ps
      → s.last_block ≡ some block
      → eqb_ℤ heart_beat_seqno ack.seqno ≡ false
      → eqb_ℤ p.seqno ack.seqno ≡ true
      → all_success ack.replies ≡ true
      → get_last_byte_offset_block p ≡ ok (end_of p)
      → process_ack ack s ≡ done tt (acknowledged p ps (end_of p) block s)
  unfolding process_ack answer_ack accept_ack
  take_ack s block p ps ack queue last beat number good reach =
      rw (beat, queue, good, number, reach, last)

  hear_ack :
      (s : PipelineImpl World) (w1 w2 w3 : World) (size : ℕ) (bytes : List ℕ) (ack : Ack)
      → network.poll true s.world ≡ (ok true, w1)
      → network.read_varint32 w1 ≡ (ok (pos size), w2)
      → network.read_fully size w2 ≡ (ok bytes, w3)
      → network.parse_ack bytes ≡ some ack
      → check_response network true s ≡ process_ack ack (record s { world = w3 })
  unfolding check_response on_readable process_response process_parsed
  hear_ack s w1 w2 w3 size bytes ack a b c d = rw (a, b, c, d)

  -- One round of the loop, in which an acknowledgement comes.
  one_round :
      (fuel : ℕ) (s : PipelineImpl World) (block : Block) (p : Packet) (ps : List Packet)
      (w1 w2 w3 : World) (size : ℕ) (bytes : List ℕ) (ack : Ack)
      → ((n : ℕ) → network.bad_writer_at_ack_pos n ≡ false)
      → s.packets ≡ p ∷ ps
      → s.last_block ≡ some block
      → network.poll true s.world ≡ (ok true, w1)
      → network.read_varint32 w1 ≡ (ok (pos size), w2)
      → network.read_fully size w2 ≡ (ok bytes, w3)
      → network.parse_ack bytes ≡ some ack
      → eqb_ℤ heart_beat_seqno ack.seqno ≡ false
      → eqb_ℤ p.seqno ack.seqno ≡ true
      → all_success ack.replies ≡ true
      → get_last_byte_offset_block p ≡ ok (end_of p)
      → wait_loop network codec tries (suc fuel) true false s
        ≡ wait_loop network codec tries fuel true false
            (acknowledged p ps (end_of p) block (record s { world = w3 }))
  unfolding wait_loop after_ack await_ack
  one_round fuel s block p ps w1 w2 w3 size bytes ack sound queue last a b c d beat number good
        reach =
      let heard = hear_ack s w1 w2 w3 size bytes ack a b c d in
      let taken =
        take_ack (record s { world = w3 }) block p ps ack queue last beat number good reach in
      let busy : has_waited true s ≡ false = rw queue refl in
      rw (busy, sound s.bytes_acked, heard, taken) refl

  -- A pipeline whose data nodes answer for all the packets of the queue is flushed: flush returns,
  -- the queue is empty, and the acknowledged bytes reach the highest end of a packet. The test hook is
  -- off, and the fuel exceeds the length of the queue.
  pub flush-Answers :
      (fuel : ℕ) (ps : List Packet) (s : PipelineImpl World) (block : Block)
      → ((n : ℕ) → network.bad_writer_at_ack_pos n ≡ false)
      → length ps < fuel
      → s.packets ≡ ps
      → s.last_block ≡ some block
      → Answers network s.world ps
      → (t : PipelineImpl World) × (flush network codec tries fuel s ≡ done tt t)
        × (t.packets ≡ [])
        × (t.bytes_acked ≡ highest s.bytes_acked ps)
  unfolding flush wait_for_acks acknowledged
  flush-Answers zero ps s block sound m queue last heard = absurd (omega arith)
  flush-Answers (suc fuel) [] s block sound m queue last silent =
      (s, unfold wait_loop in rw queue refl, queue, refl)
  flush-Answers (suc fuel) (p ∷ ps) s block sound m queue last
        (answer {w1 = w1} {w2 = w2} {w3 = w3} size bytes ack a b c d beat number good reach rest) =
      let next = acknowledged p ps (end_of p) block (record s { world = w3 }) in
      let (t, run, empty, acked) =
        flush-Answers fuel ps next _ sound (omega arith) refl refl rest in
      (
        t,
        one_round fuel s block p ps w1 w2 w3 size bytes ack sound queue last a b c d beat number
              good reach
            ∙ run,
        empty,
        acked,
      )
