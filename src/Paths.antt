-- ===== src/Paths.antt =====
-- Paths: StringSplit of src/common/StringUtil.h, and GetAbsPath, CanonicalizePath and getStandardPath
-- of src/client/FileSystemImpl.cpp.
pub mod Split
pub mod Canonical
pub mod Rejoin
pub mod Absolute
