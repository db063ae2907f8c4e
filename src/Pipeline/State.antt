-- ===== src/Pipeline/State.antt =====
-- The state of a PipelineImpl, and the interfaces that it calls: the socket and its reader, the name
-- node, and protobuf's parsers. What they answer is up to a state `World` of theirs.
use libhdfs.Prelude.{ℕ, Bool, true, false, List, Option, none, some, Result, ok, throw, fault}
use libhdfs.Prelude.Int.{ℤ}
use libhdfs.Packet.Buffer.{Packet}
use libhdfs.Packet.Pool.{PacketPool}
use libhdfs.Pipeline.Calls.{Outcome, done, failed, broken, Action}

pub data Stage : Type 0 where
  setup_append setup_append_recovery data_streaming setup_streaming_recovery close_stage : Stage
  close_recovery setup_create : Stage

abbrev pub is_close : Stage → Bool
is_close close_stage = true
is_close _ = false

abbrev pub is_setup_create : Stage → Bool
is_setup_create setup_create = true
is_setup_create _ = false

-- `stage | 0x1`, on the numbers of the stages.
unfoldable pub recovery_stage : Stage → Stage
recovery_stage setup_append = setup_append_recovery
recovery_stage data_streaming = setup_streaming_recovery
recovery_stage close_stage = close_recovery
recovery_stage stage = stage

pub data Status : Type 0 where
  success error error_checksum error_invalid error_exists error_access_token checksum_ok : Status
  error_unsupported oob_restart oob_reserved1 oob_reserved2 oob_reserved3 : Status

-- Texts are lists of codes.
pub record Datanode : Type 0 where
  pub datanode_id : List ℕ
  pub ip_addr : List ℕ
  pub xfer_addr : List ℕ

pub record Block : Type 0 where
  pub pool_id : List ℕ
  pub block_id : ℕ
  pub num_bytes : ℕ
  pub generation_stamp : ℕ
  pub offset : ℕ
  pub locations : List Datanode
  pub storage_ids : List (List ℕ)
  pub token : List ℕ
  pub striped : Bool

-- PipelineAckProto and BlockOpResponseProto.
pub record Ack : Type 0 where
  pub seqno : ℤ
  pub replies : List Status

pub record Response : Type 0 where
  pub status : Status
  pub first_bad_link : List ℕ

-- `connection` is whether `sock` is not null. An `error_index` of -1 is `none`, and the count of
-- retries is not negative.
pub record PipelineImpl (World : Type 0) : Type 0 where
  pub stage : Stage
  pub can_add_datanode : Bool
  pub block_write_retry : ℕ
  pub error_index : Option ℕ
  pub replication : ℕ
  pub bytes_acked : ℕ
  pub bytes_sent : ℕ
  pub packet_pool : PacketPool
  pub last_block : Option Block
  pub connection : Bool
  pub packets : List Packet
  pub nodes : List Datanode
  pub storage_ids : List (List ℕ)
  pub world : World

abbrev pub Call : Type 0 → Type 0 → Type 0
Call World A = World → Result A × World

-- The arguments of DataTransferProtocolSender::writeBlock that vary.
pub record WriteBlock : Type 0 where
  pub block : Block
  pub token : List ℕ
  pub targets : List Datanode
  pub stage : Stage
  pub pipeline_size : ℕ
  pub min_received : ℕ
  pub max_received : ℕ
  pub generation_stamp : ℕ

-- `poll` is asked to wait for the read timeout or not at all. `transfer_block` sends its request over
-- a connection of its own; `read_transfer` and `read_transfer_size` are of that connection's reader.
-- The last two fields are the test hooks of src/client/Faultjector.h.
pub record Network (World : Type 0) : Type 0 where
  pub connect : Datanode → Call World (Unit {0})
  pub write_fully : List ℕ → Call World (Unit {0})
  pub poll : Bool → Call World Bool
  pub read_varint32 : Call World ℤ
  pub read_fully : ℕ → Call World (List ℕ)
  pub write_block : WriteBlock → Call World (Unit {0})
  pub transfer_block : Block → Datanode → List Datanode → List ℕ → Call World (Unit {0})
  pub read_transfer_size : Call World ℤ
  pub read_transfer : ℕ → Call World (List ℕ)
  pub get_additional_datanode :
      Block → List Datanode → List (List ℕ) → List Datanode → Call World Block
  pub update_block_for_pipeline : Block → Call World Block
  pub update_pipeline : Block → Block → List Datanode → List (List ℕ) → Call World (Unit {0})
  pub add_block : Option Block → List Datanode → Call World (Option Block)
  pub abandon_block : Block → Call World (Unit {0})
  pub parse_ack : List ℕ → Option Ack
  pub parse_response : List ℕ → Option Response
  pub valid_bad_link : List ℕ → Bool
  pub bad_writer_at_kill_pos : ℕ → Bool
  pub bad_writer_at_ack_pos : ℕ → Bool
  pub fail_pipeline_close : Bool

abbrev pub Member : Type 0 → Type 0 → Type 0
Member World A = Action (PipelineImpl World) A

module _ {World : Type 0} where
  -- What a call answers, on a state.
  abbrev pub answered :
      {A : Type 0} → PipelineImpl World → Result A × World → Outcome (PipelineImpl World) A
  answered s (ok a, w) = done a (record s { world = w })
  answered s (throw e, w) = failed e (record s { world = w })
  answered s (fault, w) = broken

  abbrev pub calls : {A : Type 0} → Call World A → Member World A
  calls call s = answered s (call s.world)

  -- A dereference: `lastBlock->`, `nodes[i]`, `packets[0]`.
  abbrev pub deref : {A : Type 0} → Option A → Member World A
  deref none s = broken
  deref (some a) s = done a s

  abbrev pub asserts : Bool → Member World (Unit {0})
  asserts true s = done tt s
  asserts false s = broken
