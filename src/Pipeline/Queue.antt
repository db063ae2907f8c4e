-- ===== src/Pipeline/Queue.antt =====
-- The queue of the packets that wait for their acknowledgement.
use libhdfs.Prelude.{
  ℕ, ◌≡◌, ◌≤◌, refl, sym, subst, ap, ◌∙◌, Bool, true, false, List, [], ◌∷◌, ◌++◌, Option, none,
  some, map, Result, ok, throw, fault, arith, get_elem?, inl, inr, Bool-cases, Option-cases,
}
use mathlib.Core.List.{append_assoc, append-nil}
use libhdfs.Prelude.Int.{ℤ, eqb_ℤ}
use libhdfs.Packet.Buffer.{Packet, get_last_byte_offset_block, heart_beat_seqno}
use libhdfs.Pipeline.Calls.{of_result, and_then, Leaves_weaker, Leaves, Keeps, and_then-Leaves_from}
use libhdfs.Pipeline.State.{is_close, PipelineImpl, Network, Member, Ack, Status, deref, answered}
use libhdfs.Pipeline.Frames.{IsFrame, next, answered-Leaves, buffer_size-Leaves}
use libhdfs.Pipeline.Heard.{
  IsPart, AreAnswered, AreAnswered-trans, ack_numbers, acked_by, acked_by-append, eqb_ℤ_lem,
  IsRecord,
}
use libhdfs.Pipeline.Acks.{
  all_success, last_failure, acknowledged, accept_ack, refuse_ack, answer_ack, process_ack,
  process_parsed, process_response, on_readable, check_response, note_sent,
}

-- The numbers of the packets in the queue.
abbrev pub numbers : List Packet → List ℤ
numbers = map (λ p. p.seqno)

module _ {World : Type 0} (network : Network World) (log : World → List (List ℕ))
    (records : IsRecord network log) where
  abbrev pub Grows : World → World → Type 0
  Grows v w = (new : List (List ℕ)) × (log w ≡ log v ++ new)

  -- The packets that have left the queue were at its front, and each of them, but for the last packet
  -- of a block that is closed, was acknowledged by a message of its own, in the order of the messages
  -- that have been read since; and neither count of bytes has fallen.
  abbrev pub Moves : PipelineImpl World → PipelineImpl World → Type 0
  Moves s t =
      (removed : List ℤ) × (new : List (List ℕ)) × (numbers s.packets
        ≡ removed ++ numbers t.packets)
      × (log t.world ≡ log s.world ++ new)
      × AreAnswered (is_close s.stage) removed (acked_by network new) (numbers t.packets)
      × (t.stage ≡ s.stage)
      × (s.bytes_acked ≤ t.bytes_acked)
      × (s.bytes_sent ≤ t.bytes_sent)

  -- A step that leaves the queue as it is.
  pub Moves-still :
      (s t : PipelineImpl World)
      → numbers t.packets ≡ numbers s.packets
      → Grows s.world t.world
      → t.stage ≡ s.stage
      → s.bytes_acked ≤ t.bytes_acked
      → s.bytes_sent ≤ t.bytes_sent
      → Moves s t
  Moves-still s t e (new, g) c a b = ([], new, sym e, g, inl tt, c, a, b)

  pub Moves-refl : (s : PipelineImpl World) → Moves s s
  Moves-refl s =
      ([], [], refl, sym (append-nil (log s.world)), inl tt, refl, omega arith, omega arith)

  pub Moves-trans : (s t u : PipelineImpl World) → Moves s t → Moves t u → Moves s u
  Moves-trans s t u (a, x, e, g, p, c, l, m) (b, y, f, h, q, d, n, o) = (
    a ++ b,
    x ++ y,
    e ∙ ap (λ x. a ++ x) f ∙ sym (append_assoc a b (numbers u.packets)),
    h ∙ ap (λ z. z ++ y) g ∙ append_assoc (log s.world) x y,
    subst (λ z. AreAnswered (is_close s.stage) (a ++ b) z (numbers u.packets))
        (sym (acked_by-append network x y))
        (AreAnswered-trans (is_close s.stage) a (acked_by network x) b (acked_by network y)
          (numbers t.packets) (numbers u.packets) p
          (subst (λ k. AreAnswered (is_close k) b (acked_by network y) (numbers u.packets)) c q) f),
    d ∙ c,
    omega arith,
    omega arith,
  )

  abbrev pub Moving : {A : Type 0} → Member World A → Type 0
  Moving m = Keeps Unit Moves m

  pub Moves-IsFrame : IsFrame Grows Moves
  Moves-IsFrame = record {
    here = records.trace.same;
    stays = Moves-refl;
    follows = Moves-trans;
    elsewhere =
        λ s w i c g. Moves-still s (record s { world = w }) refl g refl (omega arith) (omega arith);
  }

  pub note_sent-Moves : (n : ℕ) (s : PipelineImpl World) → Moves s (note_sent n s)
  note_sent-Moves n s =
      Moves-still s (note_sent n s) refl (records.trace.same s.world) refl (omega arith)
        (ground arith)

  -- What an acknowledgement of the numbers `acks` may do to the queue.
  abbrev Pops : List ℤ → PipelineImpl World → PipelineImpl World → Type 0
  Pops acks s t =
      (removed : List ℤ) × (numbers s.packets ≡ removed ++ numbers t.packets)
      × IsPart removed acks
      × (t.world ≡ s.world)
      × (t.stage ≡ s.stage)
      × (s.bytes_acked ≤ t.bytes_acked)
      × (s.bytes_sent ≤ t.bytes_sent)

  Pops-none : (acks : List ℤ) (s : PipelineImpl World) → Pops acks s s
  Pops-none acks s = ([], refl, tt, refl, refl, omega arith, omega arith)

  of_result-IsSame :
      {A : Type 0} (r : Result A) (s : PipelineImpl World) → Leaves (of_result r s) (λ t. t ≡ s)
  of_result-IsSame (ok a) s = refl
  of_result-IsSame (throw e) s = refl
  of_result-IsSame fault s = tt

  deref-IsSame :
      {A : Type 0} (o : Option A) (s : PipelineImpl World) → Leaves (deref o s) (λ t. t ≡ s)
  deref-IsSame none s = tt
  deref-IsSame (some a) s = refl

  still : (acks : List ℤ) (s t : PipelineImpl World) → t ≡ s → Pops acks s t
  still acks s t e = subst (λ u. Pops acks s u) (sym e) (Pops-none acks s)

  -- An acknowledged packet is the first of the queue, and the only one that leaves it.
  accept_ack-Leaves :
      (seqno : ℤ) (packet : Packet) (rest : List Packet) (s : PipelineImpl World)
      → s.packets ≡ packet ∷ rest
      → Leaves (accept_ack seqno packet rest s) (Pops (seqno ∷ []) s)
  unfolding accept_ack acknowledged
  accept_ack-Leaves seqno packet rest s e = elim (Bool-cases (eqb_ℤ packet.seqno seqno)) [
    | inr n ↦ rw n (Pops-none (seqno ∷ []) s)
    | inl y ↦ rw y (
        let P = Pops (seqno ∷ []) s in
        and_then-Leaves_from P (λ t. t ≡ s) (of_result (get_last_byte_offset_block packet) s) _
          (of_result-IsSame (get_last_byte_offset_block packet) s) (λ t q. still (seqno ∷ []) s t q)
          λ n t q.
            and_then-Leaves_from P (λ u. u ≡ t) (deref t.last_block t) _
              (deref-IsSame t.last_block t) (λ u r. still (seqno ∷ []) s u (r ∙ q))
              λ b u r. (
                packet.seqno ∷ [],
                ap numbers e,
                inl (eqb_ℤ_lem packet.seqno seqno y, tt),
                ap (λ v. v.world) (r ∙ q),
                ap (λ v. v.stage) (r ∙ q),
                ground (arith, ap (λ v. v.bytes_acked) (r ∙ q)),
                ground (arith, ap (λ v. v.bytes_sent) (r ∙ q)),
              ))
  ]

  refuse_ack-Leaves :
      (acks : List ℤ) (replies : List Status) (s : PipelineImpl World)
      → Leaves (refuse_ack replies s) (Pops acks s)
  unfolding refuse_ack
  refuse_ack-Leaves acks replies s = elim (Option-cases (last_failure replies)) [
    | inl e ↦ rw (e, refuse_ack) (Pops-none acks s)
    | inr (i, e) ↦
        rw (e, refuse_ack)
          (elim (Option-cases (get_elem? s.nodes i)) [
            | inl g ↦ rw g tt
            | inr (node, g) ↦ rw g ([], refl, tt, refl, refl, omega arith, omega arith)
          ])
  ]

  answer_ack-Leaves :
      (ack : Ack) (packets : List Packet) (s : PipelineImpl World)
      → s.packets ≡ packets
      → Leaves (answer_ack ack packets s) (Pops (ack_numbers (some ack)) s)
  unfolding answer_ack
  answer_ack-Leaves ack [] s e = tt
  answer_ack-Leaves ack (packet ∷ rest) s e = elim (Bool-cases (all_success ack.replies)) [
    | inl a ↦ rw a (accept_ack-Leaves ack.seqno packet rest s e)
    | inr a ↦ rw a (refuse_ack-Leaves [] ack.replies s)
  ]

  process_parsed-Leaves :
      (ack : Option Ack) (s : PipelineImpl World)
      → Leaves (process_parsed ack s) (Pops (ack_numbers ack) s)
  unfolding process_parsed process_ack
  process_parsed-Leaves none s = Pops-none [] s
  process_parsed-Leaves (some ack) s = elim (Bool-cases (eqb_ℤ heart_beat_seqno ack.seqno)) [
    | inl b ↦ rw b (Pops-none (ack_numbers (some ack)) s)
    | inr b ↦ rw b (answer_ack-Leaves ack s.packets s refl)
  ]

  -- The message is in the log by the time that its acknowledgement takes a packet from the queue.
  message-Leaves :
      (n : ℕ) (s : PipelineImpl World) (r : Result (List ℕ) × World)
      → network.read_fully n s.world ≡ r
      → Leaves
          (and_then (answered s r) (λ bytes. process_parsed (network.parse_ack bytes)))
          (Moves s)
  message-Leaves n s (fault, w) e = tt
  message-Leaves n s (throw x, w) e =
      Moves-still s (record s { world = w }) refl
        (subst (λ (r : Result (List ℕ) × World). Grows s.world r.1) e
          (records.trace.read_fully n s.world))
        refl (omega arith) (omega arith)
  message-Leaves n s (ok bytes, w) e =
      let ack = network.parse_ack bytes in
      let t = record s { world = w } in
      Leaves_weaker (Moves s) (Pops (ack_numbers ack) t) (process_parsed ack t)
        (process_parsed-Leaves ack t)
        λ u (removed, q, part, same, stage, a, b). (
          removed,
          bytes ∷ [],
          q,
          ap log same ∙ records.reads n s.world w bytes e,
          inl (subst (IsPart removed) (sym (append-nil (ack_numbers ack))) part),
          stage,
          a,
          b,
        )

  process_response-Moving : Moving (process_response network)
  unfolding process_response
  process_response-Moving s =
      next Unit Moves Moves-IsFrame s _ _
        (answered-Leaves Unit Moves Moves-IsFrame s (network.read_varint32 s.world)
          (records.trace.read_varint32 s.world))
        λ size t.
          next Unit Moves Moves-IsFrame t _ _ (buffer_size-Leaves Unit Moves Moves-IsFrame size t)
            λ n u. message-Leaves n u (network.read_fully n u.world) refl

  on_readable-Moving : (wait readable : Bool) → Moving (on_readable network wait readable)
  unfolding on_readable
  on_readable-Moving wait true = process_response-Moving
  on_readable-Moving true false = Moves-refl
  on_readable-Moving false false = Moves-refl

  pub check_response-Moving : (wait : Bool) → Moving (check_response network wait)
  unfolding check_response
  check_response-Moving wait s =
      next Unit Moves Moves-IsFrame s _ _
        (answered-Leaves Unit Moves Moves-IsFrame s (network.poll wait s.world)
          (records.trace.poll wait s.world))
        (on_readable-Moving wait)
