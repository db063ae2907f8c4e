-- ===== src/Erasure.antt =====
-- Erasure coding: src/client/GF256.cpp, RSUtil.cpp, RawErasureEncoder.cpp and RawErasureDecoder.cpp.
-- An `int8_t` of the code is the byte of its bits.
pub mod Tables
pub mod Arithmetic
pub mod Powers
pub mod Laws
pub mod Field
pub mod Matrix
pub mod Vectors
pub mod Columns
pub mod Pivot
pub mod Tracked
pub mod Inverse
pub mod Singular
pub mod Rounds
pub mod Loop
pub mod VectMul
pub mod Decode
pub mod Recover
pub mod Restore
pub mod Words
pub mod Coder
pub mod Chunks
pub mod Lines
pub mod Encode
pub mod Cauchy
pub mod Blend
pub mod Stripe
pub mod Decoder
pub mod Kernel
pub mod Points
pub mod Solvable
pub mod Inputs
pub mod Outputs
pub mod Decoding
pub mod Restoring
pub mod Encoding
