-- ===== src/Packet.antt =====
-- The packets of the write pipeline: src/client/PacketHeader.cpp, Packet.cpp, Packet.h and
-- PacketPool.cpp.
pub mod Header
pub mod Buffer
pub mod Layout
pub mod Send
pub mod Pool
pub mod Seqno
