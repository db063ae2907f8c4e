-- ===== src/OutputStream/Pieces.antt =====
-- A piece of the bytes goes into the packet whole, or into the chunk buffer.
use libhdfs.Prelude.{
  ℕ, ◌+◌, ◌≡◌, ◌≤◌, ◌<◌, refl, sym, ap, ◌∙◌, inl, inr, arith, leb, ◌==◌, true, false, List, [], ◌∷◌,
  ◌++◌, Option, some, ok, length, take, drop, Bool-cases, length-append, length-take, length-drop,
}
use libhdfs.Bytes.{blit, take-length}
use mathlib.Core.List.{append_assoc, append-nil}
use libhdfs.Packet.Header.{HeaderCodec}
use libhdfs.Packet.Buffer.{Packet}
use libhdfs.Packet.Pool.{PacketPool}
use libhdfs.Pipeline.Calls.{Outcome, done}
use libhdfs.OutputStream.State.{Backend, OutputStream}
use libhdfs.OutputStream.Chunking.{is_empty, put_chunk, buffer_bytes, append_piece}
use libhdfs.OutputStream.Filling.{data_of, IsFilling}
use libhdfs.OutputStream.Appending.{
  IsReliable, written, pending, content, IsSized, Fills, Waits, IsOpen, extended,
}
use libhdfs.OutputStream.Sent.{IsBetween}

blit-fits :
    (buffer : List ℕ) (pos : ℕ) (piece : List ℕ)
    → pos + length piece ≤ length buffer
    → (out : List ℕ) × (blit buffer pos piece ≡ ok out)
      × (length out ≡ length buffer)
      × (take (pos + length piece) out ≡ take pos buffer ++ piece)
unfolding blit
blit-fits buffer pos piece fits =
    let rest = drop (pos + length piece) buffer in
    let test : leb (pos + length piece) (length buffer) ≡ true = ground arith in
    (
      take pos buffer ++ (piece ++ rest),
      rw test refl,
      omega (
        arith,
        length-append (take pos buffer) (piece ++ rest),
        length-append piece rest,
        length-take pos buffer,
        length-drop (pos + length piece) buffer,
      ),
      ap (take (pos + length piece)) (sym (append_assoc (take pos buffer) piece rest))
          ∙ take-length (pos + length piece) (take pos buffer ++ piece) rest
              (omega (arith, length-append (take pos buffer) piece, length-take pos buffer)),
    )

take_all : (n : ℕ) (xs : List ℕ) → n ≡ length xs → take n xs ≡ xs
take_all n xs e = ap (take n) (sym (append-nil xs)) ∙ take-length n xs [] e

nonempty : (xs : List ℕ) → 0 < length xs → is_empty xs ≡ false
nonempty [] h = absurd (omega arith)
nonempty (x ∷ xs) h = refl

handed_on :
    (sent current held new d : List ℕ)
    → d ≡ current ++ (held ++ new)
    → sent ++ (d ++ []) ≡ (sent ++ (current ++ held)) ++ new
handed_on sent current held new d e = ap (λ x. sent ++ x) (append-nil d ∙ e) ∙ simp append_assoc

module _ {World : Type 0} (codec : HeaderCodec) (crc : List ℕ → ℕ) (backend : Backend World)
    (reliable : IsReliable backend) where
  open reliable use {sent}

  refilled :
      (s : OutputStream World) (position written number : ℕ) (buffer checksum : List ℕ)
      (current : Option Packet) (pool : PacketPool)
      → length buffer ≡ length s.buffer
      → IsSized codec crc backend reliable s
      → IsSized codec crc backend reliable (record s {
        position = position;
        bytes_written = written;
        next_seq_no = number;
        buffer = buffer;
        checksum = checksum;
        current_packet = current;
        packets = pool;
      })
  refilled s position written number buffer checksum current pool same z = record {
    some_bytes = z.some_bytes;
    sized = same ∙ z.sized;
    fits = z.fits;
    some_chunks = z.some_chunks;
    small = z.small;
    default_chunk = z.default_chunk;
    default_range = z.default_range;
  }

  -- What holds of the stream between two chunks, but for the chunk buffer.
  pub record IsPacked (s : OutputStream World) : Type 0 where
    pub sizes : IsSized codec crc backend reliable s
    pub fills : Fills codec crc backend reliable s.chunk_size s.current_packet
    pub waits : Waits codec crc backend reliable s s.current_packet

  -- A chunk in the packet, with an empty chunk buffer.
  put_chunk-done :
      (s : OutputStream World) (chunk : List ℕ)
      → IsPacked s
      → 0 < length chunk
      → length chunk ≤ s.chunk_size
      → (q : Packet) × (pool : PacketPool) × (number : ℕ) × (put_chunk codec crc backend chunk s
          ≡ done tt (record s {
            current_packet = some q;
            packets = pool;
            next_seq_no = number;
            bytes_written = s.bytes_written + length chunk;
            checksum = [];
          }))
        × ((bytes : List ℕ) × IsFilling codec s.chunk_size q bytes)
        × (data_of q ≡ pending s.current_packet ++ chunk)
  unfolding put_chunk
  put_chunk-done s chunk i some_bytes small =
      let (q, pool, number, run, filling, count, all) =
        extended codec crc backend reliable s chunk s.current_packet refl i.sizes
          (nonempty chunk some_bytes) small i.fills i.waits in
      (q, pool, number, rw run refl, filling, all)

  -- A step that returns a stream with a given content and cursor, the packet of which may be full.
  abbrev pub Reaches : Outcome (OutputStream World) (Unit {0}) → List ℕ → ℕ → Type 0
  Reaches r bytes cursor =
      (t : OutputStream World) × (r ≡ done tt t)
      × IsBetween codec crc backend reliable t
      × (content codec crc backend reliable t ≡ bytes)
      × (t.cursor ≡ cursor)

  pub put_whole :
      (s : OutputStream World) (piece : List ℕ)
      → IsOpen codec crc backend reliable s
      → s.position ≡ 0
      → length piece ≡ s.chunk_size
      → Reaches
          (append_piece codec crc backend true piece s)
          (content codec crc backend reliable s ++ piece)
          s.cursor
  unfolding append_piece
  put_whole s piece o start size =
      let u = record s { checksum = s.checksum ++ piece } in
      let z =
        refilled s s.position s.bytes_written s.next_seq_no s.buffer (s.checksum ++ piece)
          s.current_packet s.packets refl o.sizes in
      let (q, pool, number, run, filling, all) =
        put_chunk-done u piece (record { sizes = z; fills = o.fills; waits = o.waits })
          (omega (arith, o.sizes.some_bytes)) (omega arith) in
      (
        record u {
          current_packet = some q;
          packets = pool;
          next_seq_no = number;
          bytes_written = s.bytes_written + length piece;
          checksum = [];
        },
        run,
        record {
          sizes =
              refilled s s.position (s.bytes_written + length piece) number s.buffer [] (some q)
                pool refl o.sizes;
          room = o.room;
          fills = filling;
          ready = inr start;
        },
        ap (λ n. written (sent s.world) ++ (data_of q ++ take n s.buffer)) start
            ∙ handed_on (written (sent s.world)) (pending s.current_packet) (take 0 s.buffer) piece
                (data_of q) all
            ∙ sym (
                ap
                  (λ n.
                    (written (sent s.world) ++ (pending s.current_packet ++ take n s.buffer))
                    ++ piece)
                  start),
        refl,
      )

  pub put_buffered :
      (s : OutputStream World) (piece : List ℕ)
      → IsOpen codec crc backend reliable s
      → 0 < length piece
      → s.position + length piece ≤ length s.buffer
      → Reaches
          (append_piece codec crc backend false piece s)
          (content codec crc backend reliable s ++ piece)
          s.cursor
  unfolding append_piece buffer_bytes
  put_buffered s piece o some_bytes fits =
      let (buffer, stored, same, held) = blit-fits s.buffer s.position piece fits in
      let at = s.position + length piece in
      let u = record s { checksum = s.checksum ++ piece; buffer = buffer; position = at } in
      let z =
        refilled s at s.bytes_written s.next_seq_no buffer (s.checksum ++ piece) s.current_packet
          s.packets same o.sizes in
      elim (Bool-cases (at == length buffer)) [
        | inr partial ↦ (
          u,
          rw (stored, partial) refl,
          record { sizes = z; room = ground arith; fills = o.fills; ready = inl o.waits },
          ap (λ h. written (sent s.world) ++ (pending s.current_packet ++ h)) held
              ∙ simp append_assoc,
          refl,
        )
        | inl full ↦
            let whole : at ≡ length buffer = ground arith in
            let (q, pool, number, run, filling, all) =
              put_chunk-done u buffer (record { sizes = z; fills = o.fills; waits = o.waits })
                (omega arith) (omega (arith, o.sizes.sized)) in
            (
              record u {
                current_packet = some q;
                packets = pool;
                next_seq_no = number;
                bytes_written = s.bytes_written + length buffer;
                checksum = [];
                position = 0;
              },
              rw (stored, full, run) refl,
              record {
                sizes =
                    refilled s 0 (s.bytes_written + length buffer) number buffer [] (some q) pool
                      same o.sizes;
                room = omega (arith, o.sizes.some_bytes, o.sizes.sized);
                fills = filling;
                ready = inr refl;
              },
              handed_on (written (sent s.world)) (pending s.current_packet)
                  (take s.position s.buffer) piece (data_of q)
                  (all
                    ∙ ap (λ b. pending s.current_packet ++ b)
                        (sym (take_all at buffer whole) ∙ held)),
              refl,
            )
      ]
