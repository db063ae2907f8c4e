-- ===== src/Pipeline/NewBlock.antt =====
-- A pipeline for a new block: locateNextBlock, buildForNewBlock and the constructor of
-- src/client/Pipeline.cpp. The sleeps between two attempts change nothing that is modelled.
use libhdfs.Prelude.{
  ℕ, zero, suc, ◌+◌, ◌-◌, ◌==◌, leb, ◌&&◌, Bool, true, false, List, [], ◌∷◌, ◌++◌, Option, none,
  some, Exn, get_elem?, if◌then◌else◌, hdfs_io_exception, hdfs_rpc_exception, not_replicated_yet,
}
use libhdfs.Pipeline.Calls.{
  done, failed, broken, stuck, ◌>>=◌, ◌>>◌, return, throws, asks, modify, catching, is_rebuildable,
}
use libhdfs.Pipeline.State.{
  data_streaming, setup_append, setup_create, Datanode, Block, Network, Member, calls, deref,
}
use libhdfs.Pipeline.Acks.{with_num_bytes}
use libhdfs.Pipeline.Recovery.{is_empty, create_block_output_stream, build_for_append_or_recovery}

abbrev pub is_not_replicated_yet : Exn → Bool
is_not_replicated_yet not_replicated_yet = true
is_not_replicated_yet _ = false

abbrev pub is_rpc : Exn → Bool
is_rpc hdfs_rpc_exception = true
is_rpc _ = false

module _ {World : Type 0} (network : Network World) where
  unfoldable pub try_add_block : List Datanode → Member World (Unit {0})
  try_add_block excluded = do
    last ← asks (λ s. s.last_block)
    found ← calls (network.add_block last excluded)
    block ← deref found
    modify (λ s. record s { last_block = some block })

  -- The loop of locateNextBlock, on the retries left.
  unfoldable pub locate_loop : ℕ → List Datanode → Member World (Unit {0})
  locate_loop zero excluded = try_add_block excluded
  locate_loop (suc retry) excluded = catching (try_add_block excluded) λ e t.
      let again = locate_loop retry excluded t in
      if is_not_replicated_yet e then again else failed e t

  -- locateNextBlock
  unfoldable pub locate_next_block : List Datanode → Member World (Unit {0})
  locate_next_block excluded s = locate_loop s.block_write_retry excluded s

  -- The first `try` block of buildForNewBlock.
  unfoldable pub allocate : List Datanode → Member World (Unit {0})
  allocate excluded = do
    locate_next_block excluded
    last ← asks (λ s. s.last_block)
    block ← deref last
    modify (λ s. record s {
      last_block = some (with_num_bytes 0 block);
      nodes = block.locations;
      storage_ids = block.storage_ids;
    })

  -- What follows it: whether the pipeline stands. A block that was not created is abandoned.
  unfoldable pub try_creating : Member World Bool
  try_creating = do
    nobody ← asks (λ s. is_empty s.nodes)
    (if nobody then throws hdfs_io_exception else return tt)
    last ← asks (λ s. s.last_block)
    block ← deref last
    catching (create_block_output_stream network block.token 0 false >> return true) λ e.
        if is_rebuildable e then calls (network.abandon_block block) >> return false else throws e

  -- What is excluded, and how many retries are left, when a block has been abandoned.
  unfoldable pub exclude_bad : List Datanode → ℕ → Member World (List Datanode × ℕ)
  exclude_bad excluded retry s = elim s.error_index [
    | none ↦ done (excluded, retry - 1) s
    | some i ↦ (deref (get_elem? s.nodes i) >>= λ bad. return (excluded ++ (bad ∷ []), retry)) s
  ]

  -- The end of a round: `next` is the next one.
  unfoldable pub end_round :
      Bool
      → List Datanode
      → ℕ
      → (List Datanode → ℕ → Member World (Unit {0}))
      → Member World (Unit {0})
  end_round true excluded retry next = return tt
  end_round false excluded retry next = exclude_bad excluded retry >>= λ more t.
      let on = next more.0 more.1 t in if more.1 == 0 then done tt t else on

  -- The loop of buildForNewBlock. `alloc` counts the failed calls of the name node.
  unfoldable pub new_block_loop : ℕ → ℕ → ℕ → List Datanode → Option Block → Member World (Unit {0})
  new_block_loop zero alloc retry excluded block s = stuck
  new_block_loop (suc fuel) alloc retry excluded block s =
      let begun = record s { error_index = none; last_block = block } in
      elim (allocate excluded begun) [
        | done _ t ↦
            (try_creating >>= λ built.
            end_round built excluded retry (λ more left. new_block_loop fuel 0 left more block))
              t
        | failed e t ↦
            if is_rpc e && leb alloc t.block_write_retry
            then (if retry == 0
                then done tt t
                else new_block_loop fuel (alloc + 1) retry excluded block t)
            else failed e t
        | broken ↦ broken
        | stuck ↦ stuck
      ]

  -- buildForNewBlock
  unfoldable pub build_for_new_block : ℕ → Member World (Unit {0})
  build_for_new_block fuel s = new_block_loop fuel 0 s.block_write_retry [] s.last_block s

  -- The constructor, on the state that its initialisers leave.
  unfoldable pub create : ℕ → Bool → Member World (Unit {0})
  create fuel true = do
    modify (λ s. record s { stage = setup_append })
    last ← asks (λ s. s.last_block)
    block ← deref last
    modify (λ s. record s { nodes = block.locations; storage_ids = block.storage_ids })
    build_for_append_or_recovery network fuel false
    modify (λ s. record s { stage = data_streaming })
  create fuel false = do
    modify (λ s. record s { stage = setup_create })
    build_for_new_block fuel
    modify (λ s. record s { stage = data_streaming })
