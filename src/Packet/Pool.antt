-- ===== src/Packet/Pool.antt =====
-- src/client/PacketPool.cpp: packets are used again. `new Packet` is `new_packet`, and the deque of
-- shared pointers is the list of the packets that no one else holds.
use libhdfs.Prelude.{
  ℕ, ◌+◌, ◌-◌, ◌*◌, ◌^◌, ◌≤◌, ◌<◌, ◌≡◌, refl, sym, ap, ◌∙◌, arith, ltb, leb, if◌then◌else◌, true,
  false, List, [], ◌∷◌, ◌++◌, Result, ok, ◌>>=◌, length, length-append, length-replicate, replicate,
  take, drop, take-append-drop, length-take, length-drop,
}
use libhdfs.Prelude.Int.{ℤ}
use libhdfs.Packet.Header.{HeaderCodec, get_pkg_header_size}
use libhdfs.Packet.Buffer.{Packet, new_packet, reset}
use libhdfs.Packet.Layout.{Holds}

pub record PacketPool : Type 0 where
  pub max_size : ℕ
  pub packets : List Packet

-- releasePacket
unfoldable pub release_packet : Packet → PacketPool → PacketPool
release_packet packet pool =
    if leb pool.max_size (length pool.packets)
    then pool
    else record pool { packets = pool.packets ++ (packet ∷ []) }

-- No release makes a pool larger than its limit.
pub release_packet-bounded :
    (packet : Packet) (pool : PacketPool)
    → length pool.packets ≤ pool.max_size
    → length (release_packet packet pool).packets ≤ (release_packet packet pool).max_size
unfolding release_packet
release_packet-bounded packet pool h = ground (arith, length-append pool.packets (packet ∷ []))

module _ (codec : HeaderCodec) where
  -- getPacket
  unfoldable pub get_packet : ℕ → ℕ → ℕ → ℤ → ℕ → PacketPool → Result (Packet × PacketPool)
  get_packet pkt_size chunks_per_pkt offset_in_block seqno checksum_size pool = elim pool.packets [
    | [] ↦ (do
      p ← new_packet codec pkt_size chunks_per_pkt offset_in_block seqno checksum_size
      ok (p, pool))
    | first ∷ rest ↦ (do
      p ← reset codec pkt_size chunks_per_pkt offset_in_block seqno checksum_size first
      ok (p, record pool { packets = rest }))
  ]

  abbrev pub header_size : ℕ
  header_size = get_pkg_header_size codec

  -- Any buffer with room up to the data's start is an empty layout.
  module _ (p : Packet) (data_start : ℕ) where
    record IsBlank : Type 0 where
      room : data_start ≤ length p.buffer
      header_first : header_size ≤ data_start
      at_start : p.header_start ≡ 0
      checksum_start : p.checksum_start ≡ header_size
      checksum_pos : p.checksum_pos ≡ header_size
      data_from : p.data_start ≡ data_start
      data_pos : p.data_pos ≡ data_start

    IsBlank-Holds : IsBlank → Holds header_size p [] []
    IsBlank-Holds b =
        let n = header_size in
        let m = data_start - n in
        record {
          header = take n p.buffer;
          gap = take m (drop n p.buffer);
          free = drop m (drop n p.buffer);
          parts =
              sym (take-append-drop n p.buffer)
              ∙ ap (λ t. take n p.buffer ++ t) (sym (take-append-drop m (drop n p.buffer)));
          header_room = omega (arith, b.room, b.header_first, length-take n p.buffer);
          at_start = b.at_start;
          checksums_from = b.checksum_start;
          checksums_to = omega (arith, b.checksum_pos);
          data_from = omega (
            arith,
            b.data_from,
            b.room,
            b.header_first,
            length-take m (drop n p.buffer),
            length-drop n p.buffer,
          );
          data_to = omega (arith, b.data_from, b.data_pos);
        }

  -- A packet as the constructor makes it: the layout is empty, no flag or count is left over, and there
  -- is room.
  pub record IsFresh (p : Packet) (pkt_size checksum_size chunks offset : ℕ) (number : ℤ)
      : Type 0 where
    pub layout : Holds header_size p [] []
    pub count : p.num_chunks ≡ 0
    pub limit : p.max_chunks ≡ chunks
    pub offset_is : p.offset_in_block ≡ offset
    pub number_is : p.seqno ≡ number
    pub not_last : p.last_packet_in_block ≡ false
    pub not_sync : p.sync_block ≡ false
    pub checksum_is : p.checksum_size ≡ checksum_size
    pub data_at : p.data_start ≡ header_size + chunks * checksum_size
    pub long : pkt_size ≤ length p.buffer

  module _ (pkt_size chunks offset : ℕ) (seqno : ℤ) (checksum_size : ℕ)
      (room : header_size + chunks * checksum_size ≤ pkt_size)
      (small : header_size + chunks * checksum_size < 2 ^ 31) where
    data_start : ℕ
    data_start = header_size + chunks * checksum_size

    -- What the constructor and `reset` leave, over the buffer that each of them takes.
    blank : List ℕ → Packet
    blank buffer = record {
      last_packet_in_block = false;
      sync_block = false;
      checksum_pos = header_size;
      checksum_size = checksum_size;
      checksum_start = header_size;
      data_pos = header_size + chunks * checksum_size;
      data_start = header_size + chunks * checksum_size;
      header_start = 0;
      max_chunks = chunks;
      num_chunks = 0;
      offset_in_block = offset;
      seqno = seqno;
      buffer = buffer;
    }

    blank-IsFresh :
        (buffer : List ℕ)
        → pkt_size ≤ length buffer
        → IsFresh (blank buffer) pkt_size checksum_size chunks offset seqno
    unfolding blank
    blank-IsFresh buffer long =
        let start = header_size + chunks * checksum_size in
        let b : IsBlank (blank buffer) start = omega arith in
        record {
          layout = IsBlank-Holds (blank buffer) start b;
          count = refl;
          limit = refl;
          offset_is = refl;
          number_is = refl;
          not_last = refl;
          not_sync = refl;
          checksum_is = refl;
          data_at = refl;
          long = long;
        }

    within_int : ltb (header_size + chunks * checksum_size) (2 ^ 31) ≡ true
    within_int = ground arith

    new_packet-IsFresh :
        (p : Packet) × (new_packet codec pkt_size chunks offset seqno checksum_size ≡ ok p)
        × IsFresh p pkt_size checksum_size chunks offset seqno
    unfolding new_packet blank
    new_packet-IsFresh =
        let buffer = replicate pkt_size 0 in
        let long : pkt_size ≤ length buffer = omega (arith, length-replicate {A = ℕ} pkt_size 0) in
        (blank buffer, rw within_int, blank-IsFresh buffer long)

    reset-IsFresh :
        (old : Packet)
        → (p : Packet) × (reset codec pkt_size chunks offset seqno checksum_size old ≡ ok p)
          × IsFresh p pkt_size checksum_size chunks offset seqno
    unfolding reset blank
    reset-IsFresh old =
        let more = replicate (pkt_size - length old.buffer) 0 in
        let buffer : List ℕ =
          if ltb (length old.buffer) pkt_size then old.buffer ++ more else old.buffer in
        let added = length-append old.buffer more in
        let count = length-replicate {A = ℕ} (pkt_size - length old.buffer) 0 in
        let long : pkt_size ≤ length buffer = ground arith in
        (blank buffer, rw within_int, blank-IsFresh buffer long)

    abbrev Gets : PacketPool → Type 0
    Gets pool =
        (p : Packet) × (get_packet pkt_size chunks offset seqno checksum_size pool
          ≡ ok (p, record pool { packets = drop 1 pool.packets }))
        × IsFresh p pkt_size checksum_size chunks offset seqno

    get_packet_from :
        (limit : ℕ) (ps : List Packet) → Gets (record { max_size = limit; packets = ps })
    unfolding get_packet
    get_packet_from limit [] = let (p, run, fresh) = new_packet-IsFresh in (p, rw run, fresh)
    get_packet_from limit (old ∷ ps) = let (p, run, fresh) = reset-IsFresh old in (p, rw run, fresh)

    -- getPacket gives a fresh packet, with an empty layout and nothing left of its last use, whether
    -- it comes from the pool or is new; a packet that was in the pool is no longer in it. The data's
    -- start must lie inside the packet and fit an `int`.
    pub get_packet-IsFresh :
        (pool : PacketPool)
        → (p : Packet) × (get_packet pkt_size chunks offset seqno checksum_size pool
            ≡ ok (p, record pool { packets = drop 1 pool.packets }))
          × IsFresh p pkt_size checksum_size chunks offset seqno
    get_packet-IsFresh pool = get_packet_from pool.max_size pool.packets
