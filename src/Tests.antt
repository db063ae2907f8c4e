-- ===== src/Tests.antt =====
-- Concrete runs of the modelled code, and the theorems at concrete inputs.
mod Striping
mod Packet
mod Codec
mod Paths
mod Pipeline
mod OutputStream
mod Metadata
mod LruMap
mod Lease
mod Buffers
mod Erasure
