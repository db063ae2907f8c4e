-- ===== src/OutputStream/Sizes.antt =====
-- The sizes of a packet that computePacketChunkSize of src/client/OutputStreamImpl.cpp works out.
use libhdfs.Prelude.{ℕ, ◌+◌, ◌-◌, ◌*◌, ◌/◌, ltb, if◌then◌else◌, Result, ok, int_of, ◌>>=◌}

-- `checksumSize`, the size of an `int32_t`.
abbrev pub checksum_size : ℕ
checksum_size = 4

-- The chunks of a packet of at most `packet_size` bytes, rounded up, and one at least; the sums are
-- ints. A sum below 0 is 0 here, and gives one chunk as well.
unfoldable pub chunks_for : ℕ → ℕ → ℕ → Result ℕ
chunks_for header packet_size chunk_size = do
  with_checksum ← int_of (chunk_size + checksum_size)
  sum ← int_of (packet_size + with_checksum - header)
  ok (if ltb 1 ((sum - 1) / with_checksum) then (sum - 1) / with_checksum else 1)

-- The chunks of a packet, and the size of the packet that fits them.
unfoldable pub sizes_for : ℕ → ℕ → ℕ → Result (ℕ × ℕ)
sizes_for header packet_size chunk_size = do
  chunks ← chunks_for header packet_size chunk_size
  filled ← int_of (chunks * (chunk_size + checksum_size))
  total ← int_of (filled + header)
  ok (chunks, total)
