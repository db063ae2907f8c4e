-- ===== src/OutputStream.antt =====
-- src/client/OutputStreamImpl.cpp: the bytes that are appended to a file are cut into chunks with their
-- checksums, the chunks are put into packets, and the packets go to the pipeline of the block.
pub mod Sizes
pub mod State
pub mod Chunking
pub mod Closing
pub mod Filling
pub mod Appending
pub mod Resizing
pub mod Rounds
pub mod Sent
pub mod Pieces
pub mod Delivered
pub mod Opening
pub mod Latching
