-- ===== src/Striping.antt =====
-- How a striped (erasure-coded) block group is laid out over its internal blocks:
-- src/client/StripedBlockUtil.cpp and StripedBlockUtil.h.
pub mod Length
pub mod Count
pub mod Layout
pub mod Cells
pub mod Points
pub mod Stripes
pub mod Tiling
pub mod Ranges
pub mod Blocks
pub mod Parity
pub mod Aligned
