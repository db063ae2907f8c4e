-- ===== src/Packet/Header.antt =====
-- src/client/PacketHeader.cpp. The message PacketHeaderProto is protobuf's: its writer and its reader
-- are a parameter, with what PacketHeader relies on.
use libhdfs.Prelude.{
  ℕ, ◌+◌, ◌-◌, ◌%◌, ◌^◌, ◌≤◌, ◌<◌, ◌≡◌, refl, ap, ◌∙◌, arith, ltb, if◌then◌else◌, Bool, true, false,
  not, ◌&&◌, ◌||◌, List, ◌++◌, Option, none, some, Result, ok, throw, ◌>>=◌, ◌>>◌, assert,
  hdfs_io_exception, length, take, drop, cast32, cast32_pos, cast16, cast16_pos, length-append,
}
use mathlib.Core.List.{append_assoc}
use libhdfs.Prelude.Int.{ℤ, pos, negsuc, pos_part, ltb_ℤ, leb_ℤ, ◌+ℤ◌, eqb_ℤ}
use libhdfs.Bytes.{take-length}
use libhdfs.Bytes.BigEndian.{
  write_big_endian16, write_big_endian32, read_big_endian16, read_big_endian32,
  read-write_big_endian16, read-write_big_endian32,
}

-- The fields of PacketHeaderProto.
pub record HeaderProto : Type 0 where
  pub offset_in_block : ℕ
  pub seqno : ℤ
  pub last_packet_in_block : Bool
  pub data_len : ℤ

-- What CalcPkgHeaderSize fills in.
abbrev pub blank_proto : HeaderProto
blank_proto = record {
  offset_in_block = 0;
  seqno = pos 0;
  last_packet_in_block = false;
  data_len = pos 0;
}

-- The fields are required and of fixed width, so every message is as long as the blank one.
pub record HeaderCodec : Type 0 where
  pub serialize : HeaderProto → List ℕ
  pub parse : List ℕ → Option HeaderProto
  pub fixed_width : (p : HeaderProto) → length (serialize p) ≡ length (serialize blank_proto)
  pub small : length (serialize blank_proto) < 2 ^ 15
  pub not_empty : 0 < length (serialize blank_proto)
  pub parse-serialize : (p : HeaderProto) → parse (serialize p) ≡ some p

pub record PacketHeader : Type 0 where
  pub packet_len : ℤ
  pub proto : HeaderProto

-- The bytes of an `int32_t` in two's complement.
unfoldable pub bits32 : ℤ → ℕ
bits32 (pos n) = n % 2 ^ 32
bits32 (negsuc n) = 2 ^ 32 - 1 - n % 2 ^ 32

-- Packets are numbered without a gap, and exactly the last one has no data.
unfoldable pub sanity_check : PacketHeader → ℤ → Bool
sanity_check h last_seqno =
    if leb_ℤ h.proto.data_len (pos 0) && not h.proto.last_packet_in_block
    then false
    else if h.proto.last_packet_in_block && not (eqb_ℤ h.proto.data_len (pos 0))
    then false
    else eqb_ℤ h.proto.seqno (last_seqno +ℤ pos 1)

module _ (codec : HeaderCodec) where
  open codec use {serialize, parse, fixed_width, small, not_empty, parse-serialize}

  unfoldable pub get_pkg_header_size : ℕ
  get_pkg_header_size = length (serialize blank_proto) + 4 + 2

  -- writeInBuffer, as the bytes that it writes.
  unfoldable pub write_in_buffer : PacketHeader → List ℕ
  write_in_buffer h =
      write_big_endian32 (bits32 h.packet_len)
      ++ (write_big_endian16 (length (serialize h.proto)) ++ serialize h.proto)

  -- readFields behind the two integers of the front.
  unfoldable pub parse_fields : ℤ → ℤ → List ℕ → Result PacketHeader
  parse_fields packet_len proto_len buf =
      let text = parse (take (pos_part proto_len) (drop 6 buf)) in
      let parsed : Result PacketHeader = elim text [
        | none ↦ throw hdfs_io_exception
        | some p ↦ ok (record { packet_len = packet_len; proto = p })
      ] in
      if ltb_ℤ packet_len (pos 4)
        || (ltb_ℤ proto_len (pos 0) || ltb (length buf) (6 + pos_part proto_len))
      then throw hdfs_io_exception
      else parsed

  unfoldable pub read_fields : List ℕ → Result PacketHeader
  read_fields buf = do
    assert (ltb 6 (length buf))
    packet_len ← read_big_endian32 buf
    proto_len ← read_big_endian16 (drop 4 buf)
    parse_fields (cast32 packet_len) (cast16 proto_len) buf

  pub length-write_in_buffer : (h : PacketHeader) → length (write_in_buffer h) ≡ get_pkg_header_size
  unfolding write_in_buffer get_pkg_header_size write_big_endian32 write_big_endian16
  length-write_in_buffer h = omega (arith, fixed_width h.proto)

  front : ℕ → ℕ → List ℕ → List ℕ
  front x y body = write_big_endian32 x ++ (write_big_endian16 y ++ body)

  length-front : (x y : ℕ) (body : List ℕ) → length (front x y body) ≡ 6 + length body
  unfolding front write_big_endian32 write_big_endian16
  length-front x y body = omega arith

  drop-front : (x y : ℕ) (body : List ℕ) → drop 6 (front x y body) ≡ body
  unfolding front write_big_endian32 write_big_endian16
  drop-front x y body = refl

  drop-write_big_endian32 : (x : ℕ) (rest : List ℕ) → drop 4 (write_big_endian32 x ++ rest) ≡ rest
  unfolding write_big_endian32
  drop-write_big_endian32 x rest = refl

  read_front :
      (x y : ℕ) (body : List ℕ)
      → x < 2 ^ 32
      → y < 2 ^ 16
      → 0 < length body
      → read_fields (front x y body) ≡ parse_fields (cast32 x) (cast16 y) (front x y body)
  unfolding read_fields
  read_front x y body hx hy hb =
      let n = length-front x y body in
      let t : ltb 6 (length (front x y body)) ≡ true = ground arith in
      rw t (
        unfold front in
        rw (
          read-write_big_endian32 x (write_big_endian16 y ++ body) hx,
          drop-write_big_endian32 x (write_big_endian16 y ++ body),
          read-write_big_endian16 y body hy,
        ))

  parse_fields-ok :
      (n l : ℕ) (p : HeaderProto) (buf : List ℕ)
      → 4 ≤ n
      → 6 + l ≤ length buf
      → take l (drop 6 buf) ≡ serialize p
      → parse_fields (pos n) (pos l) buf ≡ ok (record { packet_len = pos n; proto = p })
  unfolding parse_fields
  parse_fields-ok n l p buf h1 h2 e = rw (e, parse-serialize p) (ground arith)

  written :
      (h : PacketHeader) (rest : List ℕ)
      → write_in_buffer h ++ rest
        ≡ front (bits32 h.packet_len) (length (serialize h.proto)) (serialize h.proto ++ rest)
  unfolding write_in_buffer front
  written h rest =
      append_assoc (write_big_endian32 (bits32 h.packet_len)) _ rest
      ∙ ap (λ t. write_big_endian32 (bits32 h.packet_len) ++ t)
          (append_assoc (write_big_endian16 (length (serialize h.proto))) (serialize h.proto) rest)

  bits32_pos : (n : ℕ) → n < 2 ^ 31 → bits32 (pos n) ≡ n
  unfolding bits32
  bits32_pos n h = omega arith

  -- readFields gives back the header that writeInBuffer wrote, whatever follows it, where the packet
  -- length is at least the four bytes that readFields asks for.
  pub read_fields-write_in_buffer :
      (n : ℕ) (p : HeaderProto) (rest : List ℕ)
      → 4 ≤ n
      → n < 2 ^ 31
      → let h : PacketHeader = record { packet_len = pos n; proto = p } in
        read_fields (write_in_buffer h ++ rest) ≡ ok h
  read_fields-write_in_buffer n p rest h1 h2 =
      let h : PacketHeader = record { packet_len = pos n; proto = p } in
      let l = length (serialize p) in
      let body = serialize p ++ rest in
      let w = fixed_width p in
      let hl : l < 2 ^ 15 = omega (arith, small) in
      let longer = length-append (serialize p) rest in
      let hb : 0 < length body = omega (arith, not_empty) in
      let found : take l (drop 6 (front n l body)) ≡ serialize p =
        rw (drop-front n l body) (take-length l (serialize p) rest refl) in
      let room : 6 + l ≤ length (front n l body) = omega (arith, length-front n l body) in
      rw (written h rest, bits32_pos n h2)
        (read_front n l body (omega arith) (omega arith) hb
          ∙ rw (cast32_pos n h2, cast16_pos l hl)
              (parse_fields-ok n l p (front n l body) h1 room found))
