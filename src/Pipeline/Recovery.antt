-- ===== src/Pipeline/Recovery.antt =====
-- The pipeline is built, for an append and after a failure: findNewDatanode, transfer,
-- addDatanodeToPipeline, buildForAppendOrRecovery and createBlockOutputStream of
-- src/client/Pipeline.cpp. What only writes to the log is left out.
use libhdfs.Prelude.{
  ℕ, zero, suc, ◌+◌, ◌-◌, ◌==◌, ltb, Bool, true, false, not, ◌&&◌, ◌||◌, List, [], ◌∷◌, ◌++◌,
  Option, none, some, Exn, length, get_elem?, drop, if◌then◌else◌, hdfs_io_exception,
  hdfs_exception, hdfs_canceled, hdfs_file_system_closed, safe_mode_exception,
  hdfs_invalid_block_token,
}
use libhdfs.Pipeline.Calls.{
  done, failed, stuck, ◌>>=◌, ◌>>◌, return, throws, asks, modify, catching, is_rebuildable, is_hdfs,
}
use libhdfs.Pipeline.State.{
  is_close, is_setup_create, recovery_stage, error_access_token, Datanode, Block, Response,
  PipelineImpl, WriteBlock, Network, Member, calls, deref,
}
use libhdfs.Pipeline.Acks.{is_success, buffer_size}

-- `==` of texts, and of data nodes: their number and their address.
unfoldable pub same_text : List ℕ → List ℕ → Bool
same_text [] [] = true
same_text [] (y ∷ ys) = false
same_text (x ∷ xs) [] = false
same_text (x ∷ xs) (y ∷ ys) = let rest = same_text xs ys in if x == y then rest else false

unfoldable pub same_node : Datanode → Datanode → Bool
same_node a b = same_text a.datanode_id b.datanode_id && same_text a.ip_addr b.ip_addr

unfoldable pub is_among : Datanode → List Datanode → Bool
is_among n [] = false
is_among n (m ∷ ms) = let rest = is_among n ms in if same_node n m then true else rest

-- The loop of findNewDatanode.
unfoldable pub first_new : List Datanode → List Datanode → Option ℕ
first_new [] original = none
first_new (n ∷ ns) original =
    let rest : Option ℕ = elim (first_new ns original) [ none ↦ none | some i ↦ some (suc i) ] in
    if is_among n original then rest else some 0

-- `vector::erase`
unfoldable pub erase_at {ℓ} : {A : Type ℓ} → ℕ → List A → List A
erase_at i [] = []
erase_at zero (x ∷ xs) = xs
erase_at (suc i) (x ∷ xs) = x ∷ erase_at i xs

-- The loop that looks for the bad link among the nodes.
unfoldable pub find_bad_link : List ℕ → List Datanode → Option ℕ
find_bad_link link [] = none
find_bad_link link (n ∷ ns) =
    let rest : Option ℕ = elim (find_bad_link link ns) [ none ↦ none | some i ↦ some (suc i) ] in
    if same_text n.xfer_addr link then some 0 else rest

abbrev pub is_empty {ℓ} : {A : Type ℓ} → List A → Bool
is_empty [] = true
is_empty (x ∷ xs) = false

-- addDatanodeToPipeline lets these pass.
abbrev pub passes_on : Exn → Bool
passes_on hdfs_canceled = true
passes_on hdfs_file_system_closed = true
passes_on safe_mode_exception = true
passes_on e = not (is_hdfs e)

abbrev pub bad_link_of : Option Response → List ℕ
bad_link_of none = []
bad_link_of (some r) = r.first_bad_link

-- `if (!needWrapException) rethrow_exception(lastError)`, and the wrapping.
abbrev pub rethrown : Bool → Exn → Exn
rethrown false e = e
rethrown true e = if is_hdfs e then hdfs_io_exception else e

abbrev pub is_response : Option Response → Bool
is_response none = false
is_response (some r) = true

abbrev pub is_none {ℓ} : {A : Type ℓ} → Option A → Bool
is_none none = true
is_none (some a) = false

module _ {World : Type 0} where
  unfoldable pub find_new_datanode : List Datanode → Member World ℕ
  find_new_datanode original s =
      if length s.nodes == length original + 1
      then elim (first_new s.nodes original) [
        | none ↦ failed hdfs_io_exception s
        | some i ↦ done i s
      ]
      else failed hdfs_io_exception s

  -- The node of `error_index` is taken out of the pipeline, and joins the excluded ones.
  unfoldable pub remove_bad : List Datanode → Option ℕ → Member World (List Datanode)
  remove_bad excluded none = return excluded
  remove_bad excluded (some i) = do
    last ← asks (λ s. s.last_block)
    block ← deref last
    nodes ← asks (λ s. s.nodes)
    bad ← deref (get_elem? nodes i)
    modify (λ s. record s { nodes = erase_at i s.nodes; storage_ids = erase_at i s.storage_ids })
    left ← asks (λ s. is_empty s.nodes)
    (if left
        then throws hdfs_io_exception
        else (do modify (λ s. record s { error_index = none }); return (excluded ++ (bad ∷ []))))

  abbrev pub write_block_of : PipelineImpl World → Block → List ℕ → ℕ → Bool → WriteBlock
  write_block_of s block token gs recovery = record {
    block = block;
    token = token;
    targets = drop 1 s.nodes;
    stage = if recovery then recovery_stage s.stage else s.stage;
    pipeline_size = length s.nodes;
    min_received = block.num_bytes;
    max_received = s.bytes_sent;
    generation_stamp = gs;
  }

  module _ (network : Network World) where
    -- transfer, behind the response
    unfoldable pub check_transferred : Option Response → Member World (Unit {0})
    check_transferred none = throws hdfs_io_exception
    check_transferred (some r) = if is_success r.status then return tt else throws hdfs_io_exception

    unfoldable pub transfer : Block → Datanode → List Datanode → List ℕ → Member World (Unit {0})
    transfer block src targets token = do
      calls (network.transfer_block block src targets token)
      size ← calls network.read_transfer_size
      n ← buffer_size size
      bytes ← calls (network.read_transfer n)
      check_transferred (network.parse_response bytes)

    -- addDatanodeToPipeline for a name node that gave one node more.
    unfoldable pub replicate_to_new : Block → List Datanode → List ℕ → Member World Bool
    replicate_to_new block original token = do
      d ← find_new_datanode original
      modify (λ s. record s { error_index = some d })
      nodes ← asks (λ s. s.nodes)
      src ← deref (get_elem? nodes (if d == 0 then 1 else d - 1))
      target ← deref (get_elem? nodes d)
      transfer block src (target ∷ []) token
      modify (λ s. record s { error_index = none })
      return true

    unfoldable pub try_adding : List Datanode → Member World Bool
    try_adding excluded s =
        (do
          block ← deref s.last_block
          found ← calls (network.get_additional_datanode block s.nodes s.storage_ids excluded)
          modify (λ t. record t { nodes = found.locations; storage_ids = found.storage_ids })
          (if length s.nodes == length found.locations
              then return false
              else replicate_to_new block s.nodes found.token))
          s

    -- addDatanodeToPipeline
    unfoldable pub add_datanode_to_pipeline : List Datanode → Member World Bool
    add_datanode_to_pipeline excluded =
        catching (try_adding excluded) (λ e. if passes_on e then throws e else return false)

    -- The tests behind the response in createBlockOutputStream: whether the exception is to be
    -- wrapped, with the bad link.
    unfoldable pub check_block_response : Option Response → Member World (Unit {0})
    check_block_response none = throws hdfs_io_exception
    check_block_response (some r) =
        if is_success r.status
        then return tt
        else throws (elim r.status [
          | error_access_token ↦ hdfs_invalid_block_token
          | _ ↦ hdfs_io_exception
        ])

    -- The first half of the `try` block of createBlockOutputStream, up to the parsed response.
    unfoldable pub request_block : List ℕ → ℕ → Bool → Member World (Option Response)
    request_block token gs recovery = do
      modify (λ s. record s { connection = true })
      nodes ← asks (λ s. s.nodes)
      first ← deref (get_elem? nodes 0)
      calls (network.connect first)
      last ← asks (λ s. s.last_block)
      block ← deref last
      request ← asks (λ s. write_block_of s block token gs recovery)
      calls (network.write_block request)
      size ← calls network.read_varint32
      n ← buffer_size size
      bytes ← calls (network.read_fully n)
      return (network.parse_response bytes)

    -- What createBlockOutputStream does once it has caught `e`: `link` is `firstBadLink`, which
    -- must be empty or an address with a port.
    unfoldable pub blame : List ℕ → Bool → Exn → Member World (Unit {0})
    blame link wrap e =
        modify (λ s. record s { error_index = some 0 })
        >> (if is_empty link || network.valid_bad_link link
            then (do
              modify (λ s. record s {
                error_index = elim (find_bad_link link (if is_empty link then [] else s.nodes)) [
                  | none ↦ some 0
                  | some i ↦ some i
                ];
              })
              throws (rethrown wrap e))
            else throws hdfs_exception)

    -- createBlockOutputStream. A response that says no keeps its exception as it is.
    unfoldable pub create_block_output_stream : List ℕ → ℕ → Bool → Member World (Unit {0})
    create_block_output_stream token gs recovery = do
      response ← catching (request_block token gs recovery) (λ e. blame [] true e >> return none)
      catching (check_block_response response)
          (blame (bad_link_of response) (not (is_response response)))

    -- The `try` block of buildForAppendOrRecovery: the updated block. Its `continue` is left out, since
    -- addDatanodeToPipeline returns true only with an `errorIndex` of -1.
    unfoldable pub try_building : List Datanode → Bool → Member World Block
    try_building excluded recovery = do
      short ← asks (λ s.
          not (is_setup_create s.stage)
          && not (is_close s.stage)
          && (ltb (length s.nodes) s.replication && s.can_add_datanode))
      added ← (if short then add_datanode_to_pipeline excluded else return true)
      (if added then return tt else throws hdfs_io_exception)
      last ← asks (λ s. s.last_block)
      block ← deref last
      updated ← calls (network.update_block_for_pipeline block)
      create_block_output_stream updated.token updated.generation_stamp recovery
      modify (λ s. record s { error_index = none })
      return updated

    -- The statements behind the loop.
    unfoldable pub publish : Block → Member World (Unit {0})
    publish updated = do
      last ← asks (λ s. s.last_block)
      block ← deref last
      lb ← asks (λ s. record updated {
        pool_id = block.pool_id;
        block_id = block.block_id;
        num_bytes = block.num_bytes;
        offset = block.offset;
        locations = s.nodes;
        storage_ids = s.storage_ids;
      })
      nodes ← asks (λ s. s.nodes)
      ids ← asks (λ s. s.storage_ids)
      calls (network.update_pipeline block lb nodes ids)
      modify (λ s. record s { last_block = some lb })

    -- The loop, on the retries left. The last exception is thrown when they are used up.
    unfoldable pub build_loop : ℕ → ℕ → List Datanode → Bool → Member World Block
    build_loop zero retry excluded recovery s = stuck
    build_loop (suc fuel) retry excluded recovery s =
        (remove_bad excluded s.error_index >>= λ left. catching (try_building left recovery) λ e t.
            let retry' = if is_none t.error_index then retry - 1 else retry in
            let again = build_loop fuel retry' left true t in
            if is_rebuildable e then (if ltb 0 retry' then again else failed e t) else failed e t)
          s

    -- buildForAppendOrRecovery
    unfoldable pub build_for_append_or_recovery : ℕ → Bool → Member World (Unit {0})
    build_for_append_or_recovery fuel recovery s =
        (build_loop fuel s.block_write_retry [] recovery >>= publish) s
