-- ===== src/Pipeline/Closing.antt =====
-- A pipeline that has been flushed or closed has nothing left to send, whatever the network did.
use libhdfs.Prelude.{
  if◌then◌else◌, hdfs_io_exception, ℕ, zero, suc, ◌≡◌, refl, Bool, true, false, ◌||◌, List, [], ◌∷◌,
  Option, none, some, inl, inr, Bool-cases, Option-cases,
}
use libhdfs.Packet.Header.{HeaderCodec}
use libhdfs.Packet.Buffer.{Packet, set_last_packet_in_block}
use libhdfs.Pipeline.Calls.{
  throws, return, done, Returns, and_then-Returns, and_then-Returns_any, handle-Returns,
  Returns_done, is_io,
}
use libhdfs.Pipeline.State.{deref, close_stage, Block, PipelineImpl, Network, is_close}
use libhdfs.Pipeline.Recovery.{build_for_append_or_recovery, is_empty}
use libhdfs.Pipeline.Sending.{
  striped_block, send, note_error, only_last, when_closing, end_block, fail_over, await_ack,
  after_ack, has_waited, wait_loop, wait_for_acks, close,
}

module _ {World : Type 0} (network : Network World) (codec : HeaderCodec) (tries : ℕ) where
  abbrev IfOver : Bool → PipelineImpl World → Type 0
  IfOver rebuilt t = rebuilt ≡ false → t.packets ≡ []

  when_closing-Returns : (s : PipelineImpl World) → Returns (when_closing s) IfOver
  unfolding when_closing
  when_closing-Returns s = elim (Bool-cases (is_close s.stage)) [
    | inr c ↦ rw c (λ e. absurd (cc))
    | inl c ↦
        rw c
          (elim (Bool-cases (only_last s.packets)) [ inl b ↦ rw b (λ _. refl) | inr b ↦ rw b tt ])
  ]

  fail_over-Returns : (s : PipelineImpl World) → Returns (fail_over network codec tries s) IfOver
  unfolding fail_over
  fail_over-Returns s = and_then-Returns_any IfOver (deref (striped_block s) s) _ λ striped t.
      and_then-Returns_any IfOver ((if striped then throws hdfs_io_exception else return tt) t) _
        λ _ u.
          and_then-Returns_any IfOver (build_for_append_or_recovery network tries true u) _
            λ _. when_closing-Returns

  abbrev Over : Option Bool → PipelineImpl World → Type 0
  Over next t = next ≡ none → t.packets ≡ []

  after_ack-Returns :
      (again : Bool) (s : PipelineImpl World) → Returns (after_ack network codec tries again s) Over
  unfolding after_ack
  after_ack-Returns again s =
      handle-Returns Over _ _
        (and_then-Returns_any Over (await_ack network codec tries again s) _ λ _ t e. absurd (cc))
        λ e t. elim (Bool-cases (is_io e)) [
          | inr n ↦ rw n tt
          | inl y ↦ rw y (
              and_then-Returns IfOver Over _ _ (fail_over-Returns (note_error t)) λ rebuilt u h.
                elim (Bool-cases rebuilt) [
                  | inl b ↦ rw b (λ x. absurd (cc))
                  | inr b ↦ rw b (λ x. h b)
                ])
        ]

  nothing_left : (packets : List Packet) → (is_empty packets || false) ≡ true → packets ≡ []
  nothing_left [] e = refl
  nothing_left (p ∷ ps) e = absurd (cc)

  wait_loop-Returns :
      (fuel : ℕ) (again : Bool) (s : PipelineImpl World)
      → Returns (wait_loop network codec tries fuel true again s) (λ _ t. t.packets ≡ [])
  unfolding wait_loop
  wait_loop-Returns zero again s = tt
  wait_loop-Returns (suc fuel) again s = elim (Bool-cases (has_waited true s)) [
    | inl w ↦ rw w (nothing_left s.packets w)
    | inr w ↦ rw w (
        and_then-Returns Over (λ _ t. t.packets ≡ []) _ _ (after_ack-Returns again s)
          (further (wait_loop-Returns fuel)))
  ]
    where
      further :
          ((again' : Bool) (t : PipelineImpl World)
            → Returns (wait_loop network codec tries fuel true again' t) (λ _ u. u.packets ≡ []))
          → (next : Option Bool) (t : PipelineImpl World) → Over next t
          → Returns
              (elim next [
                | none ↦ done tt t
                | some again' ↦ wait_loop network codec tries fuel true again' t
              ])
              (λ _ u. u.packets ≡ [])
      further rec none t h = h refl
      further rec (some again') t h = rec again' t

  abbrev Closed : Block → PipelineImpl World → Type 0
  Closed block t =
      (t.packets ≡ [])
      × (block.num_bytes ≡ t.bytes_acked)
      × (t.last_block ≡ some block)
      × (t.connection ≡ false)

  end_block-Returns : (s : PipelineImpl World) → s.packets ≡ [] → Returns (end_block s) Closed
  unfolding end_block
  end_block-Returns s empty = elim (Option-cases s.last_block) [
    | inl e ↦ rw e tt
    | inr (block, e) ↦ rw e (empty, refl, refl, refl)
  ]

  close-Returns :
      (fuel : ℕ) (packet : Packet) (s : PipelineImpl World)
      → Returns (close network codec tries fuel packet s) Closed
  unfolding close wait_for_acks
  close-Returns fuel packet s =
      and_then-Returns_any Closed
        ((if network.fail_pipeline_close then throws hdfs_io_exception else return tt) s) _
        λ _ t.
          and_then-Returns_any Closed (wait_loop network codec tries fuel true false t) _ λ _ u.
            and_then-Returns_any Closed
              (send network codec tries fuel (set_last_packet_in_block true packet)
                (record u { stage = close_stage }))
              _
              λ _ v.
                and_then-Returns (λ _ w. w.packets ≡ []) Closed _ _ (wait_loop-Returns fuel false v)
                  λ _. end_block-Returns

  -- close returns the last block only when no packet waits any more; the block is as long as what has
  -- been acknowledged, the pipeline keeps it, and the connection is gone.
  pub close-done :
      (fuel : ℕ) (packet : Packet) (s t : PipelineImpl World) (block : Block)
      → close network codec tries fuel packet s ≡ done block t
      → (t.packets ≡ [])
        × (block.num_bytes ≡ t.bytes_acked)
        × (t.last_block ≡ some block)
        × (t.connection ≡ false)
  close-done fuel packet s t block e =
      Returns_done Closed (close network codec tries fuel packet s) block t
        (close-Returns fuel packet s) e
