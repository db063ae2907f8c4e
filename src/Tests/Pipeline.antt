-- ===== src/Tests/Pipeline.antt =====
-- A pipeline over a network that acknowledges packets 0, 1, 2 and so on, and over one that is down.
use libhdfs.Prelude.{
  int_of, zero, suc, sym, ap, ◌∙◌, ℕ, ◌≡◌, ◌≢◌, ◌≤◌, refl, arith, true, false, List, [], ◌∷◌, ◌++◌,
  Option, none, some, Result, ok, throw, fault, hdfs_network_exception,
}
use libhdfs.Prelude.Int.{ℤ, pos}
use libhdfs.Bytes.{blit, slice}
use libhdfs.Bytes.BigEndian.{write_big_endian32, write_big_endian16}
use libhdfs.Packet.Header.{get_pkg_header_size, write_in_buffer, bits32}
use libhdfs.Packet.Buffer.{
  set_last_packet_in_block, close_gap, Packet, get_buffer, get_last_byte_offset_block, is_heartbeat,
}
use libhdfs.Packet.Pool.{release_packet}
use libhdfs.Pipeline.Calls.{Outcome, done, stuck, left}
use libhdfs.Pipeline.State.{
  data_streaming, success, Datanode, Block, Ack, Response, PipelineImpl, Network,
}
use libhdfs.Pipeline.Acks.{
  all_success, acknowledged, accept_ack, answer_ack, process_ack, process_parsed, process_response,
  on_readable, check_response,
}
use libhdfs.Pipeline.Recovery.{
  build_loop, remove_bad, erase_at, try_building, create_block_output_stream, request_block, blame,
  find_bad_link, same_text, build_for_append_or_recovery,
}
use libhdfs.Pipeline.Sending.{
  fail_over, end_block, send_loop, send_round, write_packet, await_ack, after_ack, wait_loop,
  wait_for_acks, send, flush, close,
}
use libhdfs.Pipeline.Heard.{AreAnswered, acked_by, IsRecord}
use mathlib.Core.List.{append_assoc, append-nil}
use libhdfs.Pipeline.Queue.{numbers}
use libhdfs.Pipeline.Delivery.{wait_for_acks-prefix, send-prefix}
use libhdfs.Pipeline.Ending.{build_for_append_or_recovery-ends}
use libhdfs.Pipeline.Flushing.{Answers, silent, answer, highest, flush-Answers}
use libhdfs.Pipeline.Closing.{close-done}
use libhdfs.Tests.Packet.{codec, half_full}

-- The world counts the acknowledgements. A list of one byte is the acknowledgement of its number.
abbrev parse_ack : List ℕ → Option Ack
parse_ack (n ∷ []) = some (record { seqno = pos n; replies = success ∷ success ∷ [] })
parse_ack _ = none

abbrev parse_response : List ℕ → Option Response
parse_response _ = some (record { status = success; first_bad_link = [] })

abbrev block : Block
block = record {
  pool_id = [];
  block_id = 7;
  num_bytes = 0;
  generation_stamp = 1;
  offset = 0;
  locations = [];
  storage_ids = [];
  token = [];
  striped = false;
}

abbrev working : Network ℕ
working = record {
  connect = λ d w. (ok tt, w);
  write_fully = λ bytes w. (ok tt, w);
  poll = λ wait w. (ok true, w);
  read_varint32 = λ w. (ok (pos 1), w);
  read_fully = λ n w. (ok (w ∷ []), suc w);
  write_block = λ request w. (ok tt, w);
  transfer_block = λ b d targets token w. (ok tt, w);
  read_transfer_size = λ w. (ok (pos 1), w);
  read_transfer = λ n w. (ok (w ∷ []), w);
  get_additional_datanode = λ b nodes ids excluded w. (ok b, w);
  update_block_for_pipeline = λ b w. (ok b, w);
  update_pipeline = λ old new nodes ids w. (ok tt, w);
  add_block = λ last excluded w. (ok (some block), w);
  abandon_block = λ b w. (ok tt, w);
  parse_ack = parse_ack;
  parse_response = parse_response;
  valid_bad_link = λ link. true;
  bad_writer_at_kill_pos = λ n. false;
  bad_writer_at_ack_pos = λ n. false;
  fail_pipeline_close = false;
}

abbrev down : Network ℕ
down = record working {
  connect = λ d w. (throw hdfs_network_exception, w);
  poll = λ wait w. (throw hdfs_network_exception, w);
}

-- The messages that have been read, when `w` of them have.
abbrev messages : ℕ → List (List ℕ)
messages zero = []
messages (suc w) = messages w ++ ((w ∷ []) ∷ [])

nothing_new : (w : ℕ) → (new : List (List ℕ)) × (messages w ≡ messages w ++ new)
nothing_new w = ([], sym (append-nil (messages w)))

abbrev payload : Result (List ℕ) → List ℕ
payload (ok bytes) = bytes
payload (throw e) = []
payload fault = []

message_read :
    (v w : ℕ) (bytes : List ℕ)
    → ◌≡◌ {A = Result (List ℕ) × ℕ} (ok (v ∷ []), suc v) (ok bytes, w)
    → messages w ≡ messages v ++ (bytes ∷ [])
message_read v w bytes e =
    sym (ap (λ (r : Result (List ℕ) × ℕ). messages r.1) e)
    ∙ ap (λ (r : Result (List ℕ) × ℕ). messages v ++ (payload r.0 ∷ [])) e

working-IsRecord : IsRecord working messages
working-IsRecord = record {
  trace = record {
    same = nothing_new;
    onward =
        λ u v w (x, e) (y, f). (x ++ y, f ∙ ap (λ z. z ++ y) e ∙ append_assoc (messages u) x y);
    connect = λ d. nothing_new;
    write_fully = λ bytes. nothing_new;
    poll = λ wait. nothing_new;
    read_varint32 = nothing_new;
    read_fully = λ n w. ((w ∷ []) ∷ [], refl);
    write_block = λ request. nothing_new;
    transfer_block = λ b d targets token. nothing_new;
    read_transfer_size = nothing_new;
    read_transfer = λ n. nothing_new;
    get_additional_datanode = λ b nodes ids excluded. nothing_new;
    update_block_for_pipeline = λ b. nothing_new;
    update_pipeline = λ old new nodes ids. nothing_new;
  };
  reads = λ n v w bytes e. message_read v w bytes e;
}

down-IsRecord : IsRecord down messages
down-IsRecord = record {
  trace = record {
    same = nothing_new;
    onward =
        λ u v w (x, e) (y, f). (x ++ y, f ∙ ap (λ z. z ++ y) e ∙ append_assoc (messages u) x y);
    connect = λ d. nothing_new;
    write_fully = λ bytes. nothing_new;
    poll = λ wait. nothing_new;
    read_varint32 = nothing_new;
    read_fully = λ n w. ((w ∷ []) ∷ [], refl);
    write_block = λ request. nothing_new;
    transfer_block = λ b d targets token. nothing_new;
    read_transfer_size = nothing_new;
    read_transfer = λ n. nothing_new;
    get_additional_datanode = λ b nodes ids excluded. nothing_new;
    update_block_for_pipeline = λ b. nothing_new;
    update_pipeline = λ old new nodes ids. nothing_new;
  };
  reads = λ n v w bytes e. message_read v w bytes e;
}

abbrev node : ℕ → Datanode
node n = record { datanode_id = n ∷ []; ip_addr = n ∷ []; xfer_addr = n ∷ [] }

abbrev waiting : List Packet → PipelineImpl ℕ
waiting packets = record {
  stage = data_streaming;
  can_add_datanode = false;
  block_write_retry = 10;
  error_index = none;
  replication = 3;
  bytes_acked = 0;
  bytes_sent = 515;
  packet_pool = record { max_size = 2; packets = [] };
  last_block = some block;
  connection = true;
  packets = packets;
  nodes = node 1 ∷ node 2 ∷ [];
  storage_ids = [];
  world = 5;
}

second : Packet
second = record half_full { seqno = pos 6; offset_in_block = 515 }

queue-Answers : Answers working 5 (half_full ∷ second ∷ [])
unfolding second all_success get_last_byte_offset_block int_of
queue-Answers =
    answer 1 (5 ∷ []) (record { seqno = pos 5; replies = success ∷ success ∷ [] }) refl refl refl
      refl refl refl refl refl
      (answer 1 (6 ∷ []) (record { seqno = pos 6; replies = success ∷ success ∷ [] }) refl refl refl
        refl refl refl refl refl silent)

flush-Answers_example :
    (t : PipelineImpl ℕ) × (flush working codec 20 3 (waiting (half_full ∷ second ∷ []))
      ≡ done tt t)
    × (t.packets ≡ [])
    × (t.bytes_acked ≡ highest 0 (half_full ∷ second ∷ []))
flush-Answers_example =
    flush-Answers working codec 20 3 (half_full ∷ second ∷ []) (waiting (half_full ∷ second ∷ []))
      block (λ n. refl) (omega arith) refl refl queue-Answers

build_for_append_or_recovery-ends_example :
    build_for_append_or_recovery down 14 true (waiting (half_full ∷ [])) ≢ stuck
build_for_append_or_recovery-ends_example =
    build_for_append_or_recovery-ends down 14 true (waiting (half_full ∷ [])) refl (omega arith)

abbrev state_of : Option (PipelineImpl ℕ) → PipelineImpl ℕ
state_of none = waiting []
state_of (some t) = t

-- The data nodes fail one after the other, until none is left.
given_up : PipelineImpl ℕ
given_up = state_of (left (wait_for_acks down codec 14 20 true (waiting (half_full ∷ second ∷ []))))

given_up-left :
    left (wait_for_acks down codec 14 20 true (waiting (half_full ∷ second ∷ []))) ≡ some given_up
unfolding given_up second wait_for_acks wait_loop after_ack await_ack check_response fail_over
    build_for_append_or_recovery build_loop remove_bad erase_at try_building
    create_block_output_stream request_block blame find_bad_link same_text
given_up-left = refl

wait_for_acks-prefix_example :
    (removed : List ℤ) × (new : List (List ℕ)) × (pos 5 ∷ pos 6 ∷ []
      ≡ removed ++ numbers given_up.packets)
    × (messages given_up.world ≡ messages 5 ++ new)
    × AreAnswered false removed (acked_by down new) (numbers given_up.packets)
    × (given_up.stage ≡ data_streaming)
    × (0 ≤ given_up.bytes_acked)
    × (515 ≤ given_up.bytes_sent)
unfolding second
wait_for_acks-prefix_example =
    wait_for_acks-prefix down messages down-IsRecord codec 14 20 true
      (waiting (half_full ∷ second ∷ [])) given_up given_up-left

abbrev third : Packet
third = record half_full { seqno = pos 6; offset_in_block = 515 }

abbrev sent_bytes : Result (List ℕ × Packet) → List ℕ × Packet
sent_bytes (ok r) = r
sent_bytes (throw e) = ([], third)
sent_bytes fault = ([], third)

buffered : List ℕ × Packet
buffered = sent_bytes (get_buffer codec third)

buffered-ok : get_buffer codec third ≡ ok (buffered.0, buffered.1)
unfolding buffered get_buffer close_gap blit slice get_pkg_header_size write_in_buffer bits32
    write_big_endian32 write_big_endian16
buffered-ok = refl

-- The packet is written, and the acknowledgement of the one before it comes.
on_its_way : PipelineImpl ℕ
on_its_way = state_of (left (send working codec 14 20 third (waiting (half_full ∷ []))))

on_its_way-left : left (send working codec 14 20 third (waiting (half_full ∷ []))) ≡ some on_its_way
unfolding on_its_way send send_loop send_round write_packet check_response on_readable
    process_response process_parsed process_ack answer_ack accept_ack acknowledged get_buffer
    close_gap blit slice get_pkg_header_size write_in_buffer bits32 write_big_endian32
    write_big_endian16 is_heartbeat release_packet get_last_byte_offset_block int_of all_success
on_its_way-left = refl

send-prefix_example :
    (removed : List ℤ) × (new : List (List ℕ)) × (pos 5 ∷ pos 6 ∷ []
      ≡ removed ++ numbers on_its_way.packets)
    × (messages on_its_way.world ≡ messages 5 ++ new)
    × AreAnswered false removed (acked_by working new) (numbers on_its_way.packets)
    × (on_its_way.stage ≡ data_streaming)
    × (0 ≤ on_its_way.bytes_acked)
    × (515 ≤ on_its_way.bytes_sent)
unfolding is_heartbeat
send-prefix_example =
    send-prefix working messages working-IsRecord codec 14 20 third buffered.1 buffered.0
      (waiting (half_full ∷ [])) on_its_way refl buffered-ok on_its_way-left

-- The last packet is sent and acknowledged, and the block is closed.
closing : Outcome (PipelineImpl ℕ) Block
closing = close working codec 14 20 third (waiting (half_full ∷ []))

closed_block : Block
closed_block = record block { num_bytes = 518 }

closed_pipeline : PipelineImpl ℕ
closed_pipeline = state_of (left closing)

closing-done :
    close working codec 14 20 third (waiting (half_full ∷ [])) ≡ done closed_block closed_pipeline
unfolding closing closed_block closed_pipeline close end_block set_last_packet_in_block
    wait_for_acks wait_loop after_ack await_ack send send_loop send_round write_packet
    check_response on_readable process_response process_parsed process_ack answer_ack accept_ack
    acknowledged get_buffer close_gap blit slice get_pkg_header_size write_in_buffer bits32
    write_big_endian32 write_big_endian16 is_heartbeat release_packet get_last_byte_offset_block
    int_of all_success
closing-done = refl

close-done_example :
    (closed_pipeline.packets ≡ [])
    × (closed_block.num_bytes ≡ closed_pipeline.bytes_acked)
    × (closed_pipeline.last_block ≡ some closed_block)
    × (closed_pipeline.connection ≡ false)
close-done_example =
    close-done working codec 14 20 third (waiting (half_full ∷ [])) closed_pipeline closed_block
      closing-done
