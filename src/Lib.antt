-- ===== src/Lib.antt =====
-- A verification library for libhdfs3, the native C++ client of HDFS.
--
-- The client reads and writes files of a Hadoop file system. src/client holds the file system, the
-- input and output streams, the pipeline of packets to the data nodes and the erasure coding; src/rpc
-- the calls to the servers; src/server the name node's and data nodes' protocols; src/network the
-- sockets; src/common what they share. A stream asks the name node for the located blocks of a file,
-- looks up the block of a position, and reads or writes it packet by packet; of a striped file it maps
-- the position to the internal blocks of a block group first.
--
-- The modules, and the code that each of them models:
--
--   Prelude        numbers, lists and tests that the modules share, 32-bit integers, and `Result`:
--                  a value, a thrown exception (`throw`), or undefined behaviour or a failed assert
--                  (`fault`)
--   Bytes          memcpy, and src/common/BigEndian.h
--   Codec          src/common/WritableUtils.cpp: variable-length integers and texts
--   Packet         src/client/PacketHeader.cpp, Packet.cpp and PacketPool.cpp
--   Pipeline       src/client/Pipeline.cpp and PipelineAck.h: the queue of packets that wait for their
--                  acknowledgement, sending, failures and recovery, over interfaces for the socket and
--                  the name node
--   OutputStream   src/client/OutputStreamImpl.cpp: append cuts the bytes into chunks with their
--                  checksums and fills packets, which go to the pipeline of the block; flush, sync,
--                  close and completeFile, with the exception that a stream keeps
--   Striping       src/client/StripedBlockUtil.cpp and StripedBlockUtil.h: the lengths of internal
--                  blocks, positions, the cells of a byte range, the ranges of the internal blocks,
--                  the aligned stripes
--   Erasure        src/client/GF256.cpp, RSUtil.cpp, CoderUtil.cpp, RawErasureEncoder.cpp and
--                  RawErasureDecoder.cpp: the field of 256 elements, matrices as lists of their
--                  rows, the encoding of buffers, the decode matrix and the two coders
--   LocatedBlocks  src/server/LocatedBlocks.cpp: the block of a position
--   LruMap         src/common/LruMap.h: the cache of bounded size
--   WriteBuffer    src/common/WriteBuffer.cpp and WriteBuffer.h
--   Paths          StringSplit of src/common/StringUtil.h, and the canonical absolute paths of
--                  src/client/FileSystemImpl.cpp
--   Permission     src/client/Permission.h and Permission.cpp
--   LeaseRenewer   src/client/LeaseRenewer.cpp, and what it calls of src/client/FileSystemImpl.cpp: the
--                  clients and the renewer thread as a step relation
--
-- Functions keep their names in snake case: getInternalBlockLength is get_internal_block_length. State
-- is a record of the fields that the code has, and an operation is a function from the state before to
-- a result with the state after. Bytes and characters are numbers below 256. Where the
-- values of an int are not bounded by what the code has tested before, a product or sum of 32 bits is
-- `i32` of the number, or `int_of` where it is not negative, so an overflow is a fault; a cast keeps its
-- wrap-around (`cast32`, `cast16`). The cells of a striped group have no negative index: where the cast
-- of an index gives one, `fault` stands for what the code does with it. Numbers that the code keeps in
-- 64 bits are plain numbers where they are at most the size of a file. Loops are recursion on
-- the list or the number of rounds. Fuel is given to byte_count, 8 rounds for the 64 bits of its number,
-- and to append_loop, a round for each byte that is appended, since a round takes one at least. The
-- loops of the pipeline and of completeFile wait for others: their fuel is an argument, and `stuck` is
-- where it runs out.
--
-- Not in this repository, and so a parameter: the serialization of protobuf messages (`HeaderCodec`,
-- whose laws are stated for all numbers; protobuf's serialization, which has them for the numbers of its
-- fixed-width fields, can be continued to the others) and its variable-length integers (an argument of `write_varint32`).
-- The standard library's containers are modelled as what the code relies on: a set as its sorted list,
-- std::lower_bound as the first element that is not smaller, a hash table as a function.
--
-- ByteBuffer of src/client/ByteBuffer.h is a copy of another project's class: a buffer of the erasure coders is
-- its block, its position and what remains up to its limit, and two buffers share no memory.
--
-- Not modelled: the input streams, the striped streams, the block readers, the native erasure coders, the RPC channel, the sockets and
-- the configuration files, and everything that only logs, throws or passes calls on.
pub mod Prelude
pub mod Bytes
pub mod Packet
pub mod Codec
pub mod Erasure
pub mod Paths
pub mod Permission
pub mod Pipeline
pub mod OutputStream
pub mod LocatedBlocks
pub mod LruMap
pub mod WriteBuffer
pub mod LeaseRenewer
pub mod Striping
mod Tests
