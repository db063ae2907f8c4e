-- ===== src/Codec.antt =====
-- src/common/WritableUtils.cpp: Hadoop's variable-length integers and texts in a buffer.
pub mod Writable
pub mod Cursor
pub mod Digits
pub mod RoundTrip
pub mod Integers
pub mod Texts
