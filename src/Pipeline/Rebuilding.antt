-- ===== src/Pipeline/Rebuilding.antt =====
-- What building the pipeline again leaves alone.
use libhdfs.Prelude.{
  ℕ, zero, suc, ◌-◌, ◌==◌, ltb, ◌≡◌, refl, ◌∙◌, Bool, true, false, List, [], ◌∷◌, Option, none,
  some, if◌then◌else◌, arith, get_elem?, length, hdfs_io_exception, inl, inr, Bool-cases,
}
use libhdfs.Pipeline.Calls.{return, throws, Leaves, Keeps, is_rebuildable}
use libhdfs.Pipeline.State.{Datanode, Block, Response, PipelineImpl, Network, Member}
use libhdfs.Pipeline.Frames.{
  IsTrace, IsFrame, next, handled, answered-Leaves, deref-Leaves, buffer_size-Leaves,
  create_block_output_stream-Leaves,
}
use libhdfs.Pipeline.Recovery.{
  find_new_datanode, remove_bad, check_transferred, transfer, replicate_to_new, try_adding,
  passes_on, add_datanode_to_pipeline, try_building, publish, build_loop,
  build_for_append_or_recovery, is_none,
}

module _ {World : Type 0} (network : Network World) (Goes : World → World → Type 0)
    (trace : IsTrace network Goes) where
  abbrev pub Kept : PipelineImpl World → PipelineImpl World → Type 0
  Kept s t =
      (t.packets ≡ s.packets)
      × (t.bytes_acked ≡ s.bytes_acked)
      × (t.bytes_sent ≡ s.bytes_sent)
      × (t.packet_pool ≡ s.packet_pool)
      × (t.stage ≡ s.stage)
      × Goes s.world t.world

  Kept-trans : (s t u : PipelineImpl World) → Kept s t → Kept t u → Kept s u
  Kept-trans s t u p q = (
    q.0 ∙ p.0,
    q.1 ∙ p.1,
    q.2 ∙ p.2,
    q.3 ∙ p.3,
    q.4 ∙ p.4,
    trace.onward s.world t.world u.world p.5 q.5,
  )

  Kept-refl : (s : PipelineImpl World) → Kept s s
  Kept-refl s = (refl, refl, refl, refl, refl, trace.same s.world)

  abbrev Quiet : {A : Type 0} → Member World A → Type 0
  Quiet m = Keeps Unit Kept m

  Kept-IsFrame : IsFrame Goes Kept
  Kept-IsFrame = record {
    here = trace.same;
    stays = Kept-refl;
    follows = Kept-trans;
    elsewhere = λ s w i c g. (refl, refl, refl, refl, refl, g);
  }

  find_new_datanode-Quiet : (original : List Datanode) → Quiet (find_new_datanode original)
  unfolding find_new_datanode
  find_new_datanode-Quiet original s = ground (arith, trace.same s.world)

  remove_bad-Quiet : (excluded : List Datanode) (i : Option ℕ) → Quiet (remove_bad excluded i)
  unfolding remove_bad
  remove_bad-Quiet excluded none s = Kept-refl s
  remove_bad-Quiet excluded (some i) s =
      next Unit Kept Kept-IsFrame s _ _ (deref-Leaves Unit Kept Kept-IsFrame s.last_block s)
        λ block t.
          next Unit Kept Kept-IsFrame t _ _
            (deref-Leaves Unit Kept Kept-IsFrame (get_elem? t.nodes i) t)
            λ bad u. ground (arith, trace.same u.world)

  check_transferred-Quiet : (r : Option Response) → Quiet (check_transferred network r)
  unfolding check_transferred
  check_transferred-Quiet none s = Kept-refl s
  check_transferred-Quiet (some r) s = ground (arith, trace.same s.world)

  transfer-Quiet :
      (block : Block) (src : Datanode) (targets : List Datanode) (token : List ℕ)
      → Quiet (transfer network block src targets token)
  unfolding transfer
  transfer-Quiet block src targets token s =
      next Unit Kept Kept-IsFrame s _ _
        (answered-Leaves Unit Kept Kept-IsFrame s
          (network.transfer_block block src targets token s.world)
          (trace.transfer_block block src targets token s.world))
        λ _ t.
          next Unit Kept Kept-IsFrame t _ _
            (answered-Leaves Unit Kept Kept-IsFrame t (network.read_transfer_size t.world)
              (trace.read_transfer_size t.world))
            λ size u.
              next Unit Kept Kept-IsFrame u _ _ (buffer_size-Leaves Unit Kept Kept-IsFrame size u)
                λ n v.
                  next Unit Kept Kept-IsFrame v _ _
                    (answered-Leaves Unit Kept Kept-IsFrame v (network.read_transfer n v.world)
                      (trace.read_transfer n v.world))
                    λ bytes. check_transferred-Quiet (network.parse_response bytes)

  replicate_to_new-Quiet :
      (block : Block) (original : List Datanode) (token : List ℕ)
      → Quiet (replicate_to_new network block original token)
  unfolding replicate_to_new
  replicate_to_new-Quiet block original token s =
      next Unit Kept Kept-IsFrame s _ _ (find_new_datanode-Quiet original s) λ d t.
        next Unit Kept Kept-IsFrame t _ _
          (deref-Leaves Unit Kept Kept-IsFrame (get_elem? t.nodes (if d == 0 then 1 else d - 1)) _)
          λ src u.
            next Unit Kept Kept-IsFrame u _ _
              (deref-Leaves Unit Kept Kept-IsFrame (get_elem? t.nodes d) u)
              λ target v.
                next Unit Kept Kept-IsFrame v _ _ (transfer-Quiet block src (target ∷ []) token v)
                  λ _. Kept-refl

  try_adding-Quiet : (excluded : List Datanode) → Quiet (try_adding network excluded)
  unfolding try_adding
  try_adding-Quiet excluded s =
      next Unit Kept Kept-IsFrame s _ _ (deref-Leaves Unit Kept Kept-IsFrame s.last_block s)
        λ block t.
          next Unit Kept Kept-IsFrame t _ _
            (answered-Leaves Unit Kept Kept-IsFrame t
              (network.get_additional_datanode block s.nodes s.storage_ids excluded t.world)
              (trace.get_additional_datanode block s.nodes s.storage_ids excluded t.world))
            λ found u. elim (Bool-cases (length s.nodes == length found.locations)) [
              | inl e ↦ rw e (Kept-refl u)
              | inr e ↦ rw e (replicate_to_new-Quiet block s.nodes found.token _)
            ]

  add_datanode_to_pipeline-Quiet :
      (excluded : List Datanode) → Quiet (add_datanode_to_pipeline network excluded)
  unfolding add_datanode_to_pipeline
  add_datanode_to_pipeline-Quiet excluded s =
      handled Unit Kept Kept-IsFrame s _ _ (try_adding-Quiet excluded s) λ e t.
        elim (Bool-cases (passes_on e)) [ inl p ↦ rw p (Kept-refl t) | inr p ↦ rw p (Kept-refl t) ]

  try_building-Quiet :
      (excluded : List Datanode) (recovery : Bool) → Quiet (try_building network excluded recovery)
  unfolding try_building
  try_building-Quiet excluded recovery s = next Unit Kept Kept-IsFrame s _ _ (adding _ s) λ added t.
      next Unit Kept Kept-IsFrame t _ _ (giving_up added t) λ _ u.
        next Unit Kept Kept-IsFrame u _ _ (deref-Leaves Unit Kept Kept-IsFrame u.last_block u)
          λ block v.
            next Unit Kept Kept-IsFrame v _ _
              (answered-Leaves Unit Kept Kept-IsFrame v
                (network.update_block_for_pipeline block v.world)
                (trace.update_block_for_pipeline block v.world))
              λ updated w.
                next Unit Kept Kept-IsFrame w _ _
                  (create_block_output_stream-Leaves Unit Kept Kept-IsFrame network trace _ _
                    recovery w)
                  λ _. Kept-refl
    where
      adding :
          (short : Bool)
          → Quiet (if short then add_datanode_to_pipeline network excluded else return true)
      adding true = add_datanode_to_pipeline-Quiet excluded
      adding false = Kept-refl

      giving_up :
          (added : Bool)
          → Quiet {A = Unit {0}} (if added then return tt else throws hdfs_io_exception)
      giving_up true = Kept-refl
      giving_up false = Kept-refl

  publish-Quiet : (updated : Block) → Quiet (publish network updated)
  unfolding publish
  publish-Quiet updated s =
      next Unit Kept Kept-IsFrame s _ _ (deref-Leaves Unit Kept Kept-IsFrame s.last_block s)
        λ block t.
          next Unit Kept Kept-IsFrame t _ _
            (answered-Leaves Unit Kept Kept-IsFrame t (network.update_pipeline _ _ _ _ t.world)
              (trace.update_pipeline _ _ _ _ t.world))
            λ _. Kept-refl

  build_loop-Quiet :
      (fuel retry : ℕ) (excluded : List Datanode) (recovery : Bool)
      → Quiet (build_loop network fuel retry excluded recovery)
  unfolding build_loop
  build_loop-Quiet zero retry excluded recovery s = tt
  build_loop-Quiet (suc fuel) retry excluded recovery s =
      next Unit Kept Kept-IsFrame s _ _ (remove_bad-Quiet excluded s.error_index s) λ left t.
        handled Unit Kept Kept-IsFrame t _ _ (try_building-Quiet left recovery t) λ e u.
          let retry' = if is_none u.error_index then retry - 1 else retry in
          elim (Bool-cases (is_rebuildable e)) [
            | inr p ↦ rw p (Kept-refl u)
            | inl p ↦ rw p (elim (Bool-cases (ltb 0 retry')) [
              | inr q ↦ rw q (Kept-refl u)
              | inl q ↦ rw q (build_loop-Quiet fuel retry' left true u)
            ])
          ]

  -- Building the pipeline for an append or a recovery leaves the queue, the counts of bytes, the
  -- pool and the stage as they are, whether it returns or throws.
  pub build_for_append_or_recovery-Quiet :
      (fuel : ℕ) (recovery : Bool) (s : PipelineImpl World)
      → Leaves (build_for_append_or_recovery network fuel recovery s) (Kept s)
  unfolding build_for_append_or_recovery
  build_for_append_or_recovery-Quiet fuel recovery s =
      next Unit Kept Kept-IsFrame s _ _ (build_loop-Quiet fuel s.block_write_retry [] recovery s)
        publish-Quiet
