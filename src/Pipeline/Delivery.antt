-- ===== src/Pipeline/Delivery.antt =====
-- The queue while packets are sent and waited for, against the messages that are read from the data
-- nodes.
use libhdfs.Prelude.{
  refl, ℕ, zero, suc, ◌≡◌, ◌≤◌, sym, subst, ap, ◌∙◌, Bool, true, false, List, [], ◌∷◌, ◌++◌, Option,
  none, some, ok, arith, ltb, length, if◌then◌else◌, inl, inr, Bool-cases, hdfs_io_exception,
}
use mathlib.Core.List.{append-nil, map-append}
use libhdfs.Prelude.Int.{ℤ}
use libhdfs.Packet.Header.{HeaderCodec}
use libhdfs.Packet.Buffer.{Packet, get_buffer, get_last_byte_offset_block, is_heartbeat}
use libhdfs.Pipeline.Calls.{
  done, return, throws, Keeps, Leaves, Leaves_weaker, Leaves_left, left, WhenOk, is_io,
}
use libhdfs.Pipeline.State.{PipelineImpl, Network, Member, is_close}
use libhdfs.Pipeline.Frames.{
  IsFrame, next, handled, answered-Leaves, deref-Leaves, asserts-Leaves, result-Leaves,
}
use libhdfs.Pipeline.Acks.{note_sent, resend, check_response}
use libhdfs.Pipeline.Recovery.{build_for_append_or_recovery}
use libhdfs.Pipeline.Sending.{
  note_error, striped_block, only_last, when_closing, fail_over, await_ack, after_ack, has_waited,
  wait_loop, wait_for_acks, write_packet, send_round, send_loop, send,
}
use libhdfs.Pipeline.Rebuilding.{Kept, build_for_append_or_recovery-Quiet}
use libhdfs.Pipeline.Heard.{AreAnswered, acked_by, IsRecord}
use libhdfs.Pipeline.Queue
use libhdfs.Pipeline.Queue.{numbers}
use libhdfs.Pipeline.Resending.{get_buffer-WhenOk, resend-Moving}

only_last-one : (ps : List Packet) → only_last ps ≡ true → (p : Packet) × (ps ≡ p ∷ [])
only_last-one [] e = absurd (cc)
only_last-one (p ∷ []) e = (p, refl)
only_last-one (p ∷ q ∷ ps) e = absurd (cc)

module _ {World : Type 0} (network : Network World) (log : World → List (List ℕ))
    (records : IsRecord network log) (codec : HeaderCodec) (tries : ℕ) where
  abbrev Moves : PipelineImpl World → PipelineImpl World → Type 0
  Moves = Queue.Moves network log records

  abbrev Moving : {A : Type 0} → Member World A → Type 0
  Moving m = Keeps Unit Moves m

  Moves-refl : (s : PipelineImpl World) → Moves s s
  Moves-refl = Queue.Moves-refl network log records

  Moves-IsFrame : IsFrame (Queue.Grows network log records) Moves
  Moves-IsFrame = Queue.Moves-IsFrame network log records

  Kept-Moves :
      (s t : PipelineImpl World)
      → Kept network (Queue.Grows network log records) records.trace s t
      → Moves s t
  Kept-Moves s t (p, a, b, q, c, g) =
      Queue.Moves-still network log records s t (ap numbers p) g c (omega arith) (omega arith)

  rebuild-Moving : Moving (build_for_append_or_recovery network tries true)
  rebuild-Moving s =
      Leaves_weaker (Moves s) (Kept network (Queue.Grows network log records) records.trace s)
        (build_for_append_or_recovery network tries true s)
        (build_for_append_or_recovery-Quiet network (Queue.Grows network log records) records.trace
          tries true s)
        (Kept-Moves s)

  -- `if (…) THROW(HdfsIOException)`
  throwing-Moving :
      (b : Bool) → Moving {A = Unit {0}} (if b then throws hdfs_io_exception else return tt)
  throwing-Moving true = Moves-refl
  throwing-Moving false = Moves-refl

  when_closing-Moving : Moving when_closing
  unfolding when_closing
  when_closing-Moving s = elim (Bool-cases (is_close s.stage)) [
    | inr c ↦ rw c (Moves-refl s)
    | inl c ↦ rw c (elim (Bool-cases (only_last s.packets)) [
      | inl b ↦
          let (p, one) = only_last-one s.packets b in
          rw b (
            numbers s.packets,
            [],
            sym (append-nil (numbers s.packets)),
            sym (append-nil (log s.world)),
            inr (c, [], p.seqno, ap numbers one, tt, refl),
            refl,
            omega arith,
            omega arith,
          )
      | inr b ↦ rw b tt
    ])
  ]

  fail_over-Moving : Moving (fail_over network codec tries)
  unfolding fail_over
  fail_over-Moving s =
      next Unit Moves Moves-IsFrame s _ _
        (deref-Leaves Unit Moves Moves-IsFrame (striped_block s) s)
        λ striped t.
          next Unit Moves Moves-IsFrame t _ _ (throwing-Moving striped t)
            λ _ u. next Unit Moves Moves-IsFrame u _ _ (rebuild-Moving u) λ _. when_closing-Moving

  again-Moving :
      (again : Bool) → Moving {A = Unit {0}} (if again then resend network codec else return tt)
  again-Moving true = resend-Moving network log records codec
  again-Moving false = Moves-refl

  await_ack-Moving : (again : Bool) → Moving (await_ack network codec tries again)
  unfolding await_ack
  await_ack-Moving again s = next Unit Moves Moves-IsFrame s _ _ (again-Moving again s) λ _ t.
      next Unit Moves Moves-IsFrame t _ _
        (throwing-Moving (network.bad_writer_at_ack_pos t.bytes_acked) t)
        λ _. Queue.check_response-Moving network log records true

  after_ack-Moving : (again : Bool) → Moving (after_ack network codec tries again)
  unfolding after_ack
  after_ack-Moving again s =
      handled Unit Moves Moves-IsFrame s _ _
        (next Unit Moves Moves-IsFrame s _ _ (await_ack-Moving again s) λ _. Moves-refl)
        λ e t. elim (Bool-cases (is_io e)) [
          | inr n ↦ rw n (Moves-refl t)
          | inl y ↦ rw y (
              next Unit Moves Moves-IsFrame t _ _ (fail_over-Moving (note_error t)) λ rebuilt u.
                elim (Bool-cases rebuilt) [
                  | inl b ↦ rw b (Moves-refl u)
                  | inr b ↦ rw b (Moves-refl u)
                ])
        ]

  wait_loop-Moving :
      (fuel : ℕ) (force again : Bool) → Moving (wait_loop network codec tries fuel force again)
  unfolding wait_loop
  wait_loop-Moving zero force again s = tt
  wait_loop-Moving (suc fuel) force again s = elim (Bool-cases (has_waited force s)) [
    | inl w ↦ rw w (Moves-refl s)
    | inr w ↦ rw w (
        next Unit Moves Moves-IsFrame s _ _ (after_ack-Moving again s)
          λ next t. further (λ again'. wait_loop-Moving fuel force again') next t)
  ]
    where
      further :
          ((again' : Bool) → Moving (wait_loop network codec tries fuel force again'))
          → (next : Option Bool) → (t : PipelineImpl World)
          → Leaves
              (elim next [
                | none ↦ done tt t
                | some again' ↦ wait_loop network codec tries fuel force again' t
              ])
              (Moves t)
      further rec none t = Moves-refl t
      further rec (some again') t = rec again' t

  waiting-Leaves : (fuel : ℕ) (force : Bool) → Moving (wait_for_acks network codec tries fuel force)
  unfolding wait_for_acks
  waiting-Leaves fuel force = wait_loop-Moving fuel force false

  -- Let `log` record the messages that the network gives. While the pipeline waits for
  -- acknowledgements, through any failures and recoveries, packets leave its queue at the front only,
  -- and each of those that leave was acknowledged with success by a message of its own, read since and
  -- in that order; only in the closing stage the last packet of the block, behind which the queue is
  -- empty, may leave without. The stage stays, and neither count of bytes falls. All this holds also
  -- when the wait ends in an exception.
  pub wait_for_acks-prefix :
      (fuel : ℕ) (force : Bool) (s t : PipelineImpl World)
      → left (wait_for_acks network codec tries fuel force s) ≡ some t
      → (removed : List ℤ) × (messages : List (List ℕ)) × (numbers s.packets
          ≡ removed ++ numbers t.packets)
        × (log t.world ≡ log s.world ++ messages)
        × AreAnswered (is_close s.stage) removed (acked_by network messages) (numbers t.packets)
        × (t.stage ≡ s.stage)
        × (s.bytes_acked ≤ t.bytes_acked)
        × (s.bytes_sent ≤ t.bytes_sent)
  wait_for_acks-prefix fuel force s t =
      Leaves_left (Moves s) (wait_for_acks network codec tries fuel force s) t
        (waiting-Leaves fuel force s)

  write_packet-Moving :
      (bytes : List ℕ) (packet : Packet) (again : Bool)
      → Moving (write_packet network codec tries bytes packet again)
  unfolding write_packet
  write_packet-Moving bytes packet true s =
      next Unit Moves Moves-IsFrame s _ _ (resend-Moving network log records codec s)
        λ _. Queue.check_response-Moving network log records false
  write_packet-Moving bytes packet false s =
      next Unit Moves Moves-IsFrame s _ _ (asserts-Leaves Unit Moves Moves-IsFrame s.connection s)
        λ _ t.
          next Unit Moves Moves-IsFrame t _ _
            (throwing-Moving (network.bad_writer_at_kill_pos t.bytes_sent) t)
            λ _ u.
              next Unit Moves Moves-IsFrame u _ _
                (answered-Leaves Unit Moves Moves-IsFrame u (network.write_fully bytes u.world)
                  (records.trace.write_fully bytes u.world))
                λ _ v.
                  next Unit Moves Moves-IsFrame v _ _
                    (result-Leaves Unit Moves Moves-IsFrame (get_last_byte_offset_block packet) v)
                    λ n w.
                      next Unit Moves Moves-IsFrame w (done tt (note_sent n w))
                        (λ _. check_response network false)
                        (Queue.note_sent-Moves network log records n w)
                        λ _. Queue.check_response-Moving network log records false

  send_round-Moving :
      (bytes : List ℕ) (packet : Packet) (again : Bool)
      → Moving (send_round network codec tries bytes packet again)
  unfolding send_round
  send_round-Moving bytes packet again s =
      handled Unit Moves Moves-IsFrame s _ _
        (next Unit Moves Moves-IsFrame s _ _ (write_packet-Moving bytes packet again s)
          λ _. Moves-refl)
        λ e t. elim (Bool-cases (is_io e)) [
          | inr n ↦ rw n (Moves-refl t)
          | inl y ↦ rw y (fail_over-Moving (note_error t))
        ]

  send_loop-Moving :
      (fuel : ℕ) (bytes : List ℕ) (packet : Packet) (again : Bool)
      → Moving (send_loop network codec tries fuel bytes packet again)
  unfolding send_loop
  send_loop-Moving zero bytes packet again s = tt
  send_loop-Moving (suc fuel) bytes packet again s =
      next Unit Moves Moves-IsFrame s _ _ (send_round-Moving bytes packet again s) λ more t.
        elim (Bool-cases more) [
          | inl m ↦ rw m (send_loop-Moving fuel bytes packet true t)
          | inr m ↦ rw m (Moves-refl t)
        ]

  waiting-Moving :
      (fuel : ℕ) (crowded : Bool)
      → Moving {A = Unit {0}}
          (if crowded then wait_for_acks network codec tries fuel false else return tt)
  waiting-Moving fuel true = waiting-Leaves fuel false
  waiting-Moving fuel false = Moves-refl

  send-Leaves :
      (fuel : ℕ) (packet closed : Packet) (bytes : List ℕ) (s : PipelineImpl World)
      → is_heartbeat packet ≡ false
      → get_buffer codec packet ≡ ok (bytes, closed)
      → Leaves (send network codec tries fuel packet s) (λ t.
        (removed : List ℤ) × (messages : List (List ℕ)) × (numbers s.packets ++ (packet.seqno ∷ [])
          ≡ removed ++ numbers t.packets)
        × (log t.world ≡ log s.world ++ messages)
        × AreAnswered (is_close s.stage) removed (acked_by network messages) (numbers t.packets)
        × (t.stage ≡ s.stage)
        × (s.bytes_acked ≤ t.bytes_acked)
        × (s.bytes_sent ≤ t.bytes_sent))
  unfolding send is_heartbeat
  send-Leaves fuel packet closed bytes s beat got =
      let same : closed.seqno ≡ packet.seqno =
        subst (λ r. WhenOk r (λ (q : List ℕ × Packet). q.1.seqno ≡ packet.seqno)) got
          (get_buffer-WhenOk network log records codec packet) in
      let quiet : is_heartbeat closed ≡ false = rw same beat in
      let entered = record s { packets = s.packets ++ (closed ∷ []) } in
      let joined : numbers s.packets ++ (packet.seqno ∷ []) ≡ numbers entered.packets = sym (
        map-append (λ p. p.seqno) s.packets (closed ∷ [])
        ∙ ap (λ n. numbers s.packets ++ (n ∷ [])) same) in
      rw (got, quiet)
        (Leaves_weaker _ (Moves entered) _
          (next Unit Moves Moves-IsFrame entered _ _
            (waiting-Moving fuel (ltb s.packet_pool.max_size (length entered.packets)) entered)
            λ _. send_loop-Moving fuel bytes closed false)
          λ t (removed, messages, e, f, g, h, a, b). (removed, messages, joined ∙ e, f, g, h, a, b))

  -- Let `log` record the messages that the network gives, and let the packet be no heart beat, with
  -- bytes from getBuffer. A packet that is sent joins the end of the queue, and from then on, through
  -- any failures and recoveries, packets leave the queue at its front only, and each of those that
  -- leave was acknowledged with success by a message of its own, read since and in that order; only in
  -- the closing stage the last packet of the block, behind which the queue is empty, may leave without.
  -- The stage stays, and neither count of bytes falls. All this holds also when send ends in an
  -- exception.
  pub send-prefix :
      (fuel : ℕ) (packet closed : Packet) (bytes : List ℕ) (s t : PipelineImpl World)
      → is_heartbeat packet ≡ false
      → get_buffer codec packet ≡ ok (bytes, closed)
      → left (send network codec tries fuel packet s) ≡ some t
      → (removed : List ℤ) × (messages : List (List ℕ)) × (numbers s.packets ++ (packet.seqno ∷ [])
          ≡ removed ++ numbers t.packets)
        × (log t.world ≡ log s.world ++ messages)
        × AreAnswered (is_close s.stage) removed (acked_by network messages) (numbers t.packets)
        × (t.stage ≡ s.stage)
        × (s.bytes_acked ≤ t.bytes_acked)
        × (s.bytes_sent ≤ t.bytes_sent)
  send-prefix fuel packet closed bytes s t beat got =
      Leaves_left _ (send network codec tries fuel packet s) t
        (send-Leaves fuel packet closed bytes s beat got)
