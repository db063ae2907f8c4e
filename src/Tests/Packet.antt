-- ===== src/Tests/Packet.antt =====
-- Packets over a small codec, and a packet of 40 bytes with two chunks.
use libhdfs.Prelude.{
  ℕ, zero, suc, ◌+◌, ◌*◌, ◌^◌, ◌≡◌, ◌≤◌, ◌<◌, ◌↔◌, refl, arith, ◌⊎◌, Bool, true, false, List, [],
  ◌∷◌, ◌++◌, Option, none, some, ok, throw, hdfs_io_exception, length,
}
use libhdfs.Prelude.Int.{ℤ, pos, negsuc, ◌+ℤ◌}
use libhdfs.Bytes.BigEndian.{write_big_endian32}
use libhdfs.Packet.Header.{
  HeaderProto, HeaderCodec, PacketHeader, get_pkg_header_size, sanity_check, write_in_buffer,
  read_fields, read_fields-write_in_buffer,
}
use libhdfs.Packet.Seqno.{sanity_check_iff}
use libhdfs.Packet.Buffer.{Packet, add_checksum, add_data, get_buffer, header_of}
use libhdfs.Packet.Layout.{Holds, add_data-Holds, add_checksum-Holds}
use libhdfs.Packet.Send.{get_buffer_lem}
use libhdfs.Packet.Pool.{
  PacketPool, get_packet, release_packet, release_packet-bounded, IsFresh, get_packet-IsFresh,
}

abbrev pub put_ℤ : ℤ → List ℕ → List ℕ
put_ℤ (pos n) rest = 0 ∷ n ∷ rest
put_ℤ (negsuc n) rest = 1 ∷ n ∷ rest

abbrev pub put_bool : Bool → ℕ
put_bool true = 1
put_bool false = 0

abbrev pub serialize : HeaderProto → List ℕ
serialize p =
    p.offset_in_block ∷ put_bool p.last_packet_in_block ∷ put_ℤ p.seqno (put_ℤ p.data_len [])

abbrev pub take_ℤ : ℕ → ℕ → ℤ
take_ℤ zero n = pos n
take_ℤ (suc _) n = negsuc n

abbrev pub take_bool : ℕ → Bool
take_bool zero = false
take_bool (suc _) = true

abbrev pub parse : List ℕ → Option HeaderProto
parse (o ∷ l ∷ s ∷ n ∷ t ∷ m ∷ []) = some (record {
  offset_in_block = o;
  seqno = take_ℤ s n;
  last_packet_in_block = take_bool l;
  data_len = take_ℤ t m;
})
parse _ = none

-- The codec's laws for each sign of the numbers and each flag.
module _ (o : ℕ) where
  of_parts : Bool → ℤ → ℤ → HeaderProto
  of_parts l s d = record { offset_in_block = o; seqno = s; last_packet_in_block = l; data_len = d }

  same_length : (l : Bool) (s d : ℤ) → length (serialize (of_parts l s d)) ≡ 6
  unfolding of_parts
  same_length l (pos s) (pos d) = refl
  same_length l (pos s) (negsuc d) = refl
  same_length l (negsuc s) (pos d) = refl
  same_length l (negsuc s) (negsuc d) = refl

  comes_back : (l : Bool) (s d : ℤ) → parse (serialize (of_parts l s d)) ≡ some (of_parts l s d)
  unfolding of_parts
  comes_back true (pos s) (pos d) = refl
  comes_back true (pos s) (negsuc d) = refl
  comes_back true (negsuc s) (pos d) = refl
  comes_back true (negsuc s) (negsuc d) = refl
  comes_back false (pos s) (pos d) = refl
  comes_back false (pos s) (negsuc d) = refl
  comes_back false (negsuc s) (pos d) = refl
  comes_back false (negsuc s) (negsuc d) = refl

pub serialize_width : (p : HeaderProto) → length (serialize p) ≡ 6
unfolding of_parts
serialize_width p = same_length p.offset_in_block p.last_packet_in_block p.seqno p.data_len

pub parse_back : (p : HeaderProto) → parse (serialize p) ≡ some p
unfolding of_parts
parse_back p = comes_back p.offset_in_block p.last_packet_in_block p.seqno p.data_len

abbrev pub codec : HeaderCodec
codec = record {
  serialize = serialize;
  parse = parse;
  fixed_width = serialize_width;
  small = omega arith;
  not_empty = omega arith;
  parse-serialize = parse_back;
}

abbrev pub zeros : List ℕ
zeros = 0 ∷ 0 ∷ 0 ∷ 0 ∷ 0 ∷ 0 ∷ 0 ∷ 0 ∷ 0 ∷ 0 ∷ 0 ∷ 0 ∷ []

-- Room for two checksums, of which one is there, and three bytes of data.
abbrev pub half_full : Packet
half_full = record {
  last_packet_in_block = false;
  sync_block = false;
  checksum_pos = 16;
  checksum_size = 4;
  checksum_start = 12;
  data_pos = 23;
  data_start = 20;
  header_start = 0;
  max_chunks = 2;
  num_chunks = 1;
  offset_in_block = 512;
  seqno = pos 5;
  buffer = zeros ++ (1 ∷ 2 ∷ 3 ∷ 4 ∷ 0 ∷ 0 ∷ 0 ∷ 0 ∷ 7 ∷ 8 ∷ 9 ∷ 0 ∷ 0 ∷ []);
}

abbrev sums : List ℕ
sums = 1 ∷ 2 ∷ 3 ∷ 4 ∷ []

abbrev bytes : List ℕ
bytes = 7 ∷ 8 ∷ 9 ∷ []

half_full-Holds : Holds 12 half_full sums bytes
half_full-Holds = record {
  header = zeros;
  gap = 0 ∷ 0 ∷ 0 ∷ 0 ∷ [];
  free = 0 ∷ 0 ∷ [];
  parts = refl;
  header_room = refl;
  at_start = refl;
  checksums_from = refl;
  checksums_to = refl;
  data_from = refl;
  data_to = refl;
}

data_fits :
    ((q : Packet) × (2 + 23 ≤ 25)
      × (add_data (5 ∷ 6 ∷ []) half_full ≡ ok q)
      × Holds 12 q sums (7 ∷ 8 ∷ 9 ∷ 5 ∷ 6 ∷ []))
    ⊎ ((25 < 2 + 23) × (add_data (5 ∷ 6 ∷ []) half_full ≡ throw hdfs_io_exception))
data_fits = add_data-Holds 12 half_full sums bytes half_full-Holds (5 ∷ 6 ∷ [])

second_checksum_fits :
    ((q : Packet) × (16 + 4 ≤ 20)
      × (add_checksum 9 half_full ≡ ok q)
      × Holds 12 q (sums ++ write_big_endian32 9) bytes)
    ⊎ ((20 < 16 + 4) × (add_checksum 9 half_full ≡ throw hdfs_io_exception))
second_checksum_fits = add_checksum-Holds 12 half_full sums bytes half_full-Holds 9 refl

get_buffer_lem_example :
    (q : Packet) × (get_buffer codec half_full
      ≡ ok (
        write_in_buffer codec (header_of codec half_full) ++ (1 ∷ 2 ∷ 3 ∷ 4 ∷ 7 ∷ 8 ∷ 9 ∷ []),
        q,
      ))
unfolding get_pkg_header_size
get_buffer_lem_example = get_buffer_lem 12 half_full sums bytes half_full-Holds codec refl

abbrev sample : HeaderProto
sample = record {
  offset_in_block = 512;
  seqno = pos 5;
  last_packet_in_block = false;
  data_len = pos 3;
}

read_fields-write_in_buffer_example :
    let h : PacketHeader = record { packet_len = pos 11; proto = sample } in
    read_fields codec (write_in_buffer codec h ++ (1 ∷ 2 ∷ [])) ≡ ok h
read_fields-write_in_buffer_example =
    read_fields-write_in_buffer codec 11 sample (1 ∷ 2 ∷ []) (omega arith) (omega arith)

sample_accepted :
    let h : PacketHeader = record { packet_len = pos 11; proto = sample } in
    (sanity_check h (pos 4) ≡ true) ↔ (
      (pos 5 ≡ pos 4 +ℤ pos 1) × (((false ≡ true) × (pos 3 ≡ pos 0)) ⊎ ((false ≡ false) × (0 < 3))))
sample_accepted = sanity_check_iff (record { packet_len = pos 11; proto = sample }) (pos 4)

abbrev pool : PacketPool
pool = record { max_size = 2; packets = half_full ∷ [] }

packet_from_pool :
    (p : Packet) × (get_packet codec 40 2 1024 (pos 6) 4 pool
      ≡ ok (p, record pool { packets = [] }))
    × IsFresh codec p 40 4 2 1024 (pos 6)
packet_from_pool = get_packet-IsFresh codec 40 2 1024 (pos 6) 4 room small pool
  where
    room : get_pkg_header_size codec + 2 * 4 ≤ 40
    room = unfold get_pkg_header_size in omega arith

    small : get_pkg_header_size codec + 2 * 4 < 2 ^ 31
    small = unfold get_pkg_header_size in omega arith

pool_stays_bounded :
    length (release_packet half_full pool).packets ≤ (release_packet half_full pool).max_size
pool_stays_bounded = release_packet-bounded half_full pool (omega arith)
