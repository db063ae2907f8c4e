-- ===== src/Packet/Seqno.antt =====
-- What PacketHeader::sanityCheck accepts.
use libhdfs.Prelude.{◌<◌, ◌≡◌, ◌↔◌, ◌⊎◌, arith, true, false}
use libhdfs.Prelude.Int.{ℤ, pos, pos_part, ◌+ℤ◌}
use libhdfs.Packet.Header.{PacketHeader, sanity_check}

-- sanityCheck accepts a header exactly if its number follows the last one, and it is the last packet
-- with no data or another packet with some data.
pub sanity_check_iff :
    (h : PacketHeader) (last_seqno : ℤ)
    → (sanity_check h last_seqno ≡ true) ↔ (
        (h.proto.seqno ≡ last_seqno +ℤ pos 1)
        × (((h.proto.last_packet_in_block ≡ true) × (h.proto.data_len ≡ pos 0))
            ⊎ ((h.proto.last_packet_in_block ≡ false) × (0 < pos_part h.proto.data_len))))
unfolding sanity_check
sanity_check_iff h last_seqno = (λ e. ground arith, λ e. ground arith)
