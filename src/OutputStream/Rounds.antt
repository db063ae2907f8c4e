-- ===== src/OutputStream/Rounds.antt =====
-- What a round of appendInternal keeps: the bytes that are appended, in their order, and a packet that
-- has room for a chunk.
use libhdfs.Prelude.{
  ℕ, ◌+◌, ◌≡◌, ◌<◌, refl, sym, ap, ◌∙◌, inl, inr, if◌then◌else◌, Bool, true, false, List, [], ◌∷◌,
  ◌++◌, Option, none, length, take, Bool-cases, subst,
}
use mathlib.Core.List.{append-nil}
use libhdfs.Packet.Header.{HeaderCodec}
use libhdfs.Packet.Buffer.{Packet, set_sync_flag}
use libhdfs.Packet.Pool.{PacketPool}
use libhdfs.Pipeline.Calls.{done}
use libhdfs.OutputStream.State.{Backend, OutputStream}
use libhdfs.OutputStream.Chunking.{
  need_pipeline, send_packet, send_current, close_open_pipeline, close_pipeline,
}
use libhdfs.OutputStream.Filling.{data_of, IsFilling-data_of}
use libhdfs.OutputStream.Appending.{
  IsReliable, written, written-append, pending, content, IsSized, Fills, Waits, IsOpen,
  take_packet-done,
}

pub written-last :
    (ps : List Packet) (p : Packet) → written (ps ++ (p ∷ [])) ≡ written ps ++ data_of p
written-last ps p = written-append ps (p ∷ []) ∙ ap (λ r. written ps ++ r) (append-nil (data_of p))

module _ {World : Type 0} (codec : HeaderCodec) (crc : List ℕ → ℕ) (backend : Backend World)
    (reliable : IsReliable backend) where
  open reliable use {sent, setup_ok, send_ok, close_ok, fsync_ok}

  -- The sizes do not depend on the packets.
  pub moved :
      (s : OutputStream World) (current : Option Packet) (pool : PacketPool) (pipeline : Bool)
      (written number : ℕ) (w : World)
      → IsSized codec crc backend reliable s
      → IsSized codec crc backend reliable (record s {
        current_packet = current;
        packets = pool;
        pipeline = pipeline;
        bytes_written = written;
        next_seq_no = number;
        world = w;
      })
  moved s current pool pipeline written number w z = record {
    some_bytes = z.some_bytes;
    sized = z.sized;
    fits = z.fits;
    some_chunks = z.some_chunks;
    small = z.small;
    default_chunk = z.default_chunk;
    default_range = z.default_range;
  }

  pub need_pipeline-done :
      (p : Packet) (s : OutputStream World)
      → (there : Bool) × (w : World) × (need_pipeline codec crc backend p s
          ≡ done tt (record s { pipeline = there; world = w }))
        × (sent w ≡ sent s.world)
  unfolding need_pipeline
  need_pipeline-done p s = elim (Bool-cases s.pipeline) [
    | inl e ↦ (s.pipeline, s.world, rw e refl, refl)
    | inr e ↦
        let (w, run, same) = setup_ok s.is_append p.offset_in_block s.world in
        (true, w, rw (e, run) refl, same)
  ]

  pub send_packet-done :
      (p : Packet) (s : OutputStream World)
      → (pool : PacketPool) × (there : Bool) × (w : World) × (send_packet codec crc backend p s
          ≡ done tt
              (record s { current_packet = none; packets = pool; pipeline = there; world = w }))
        × (sent w ≡ sent s.world ++ (p ∷ []))
  unfolding send_packet
  send_packet-done p s =
      let (there, w, run, same) = need_pipeline-done p s in
      let (pool, w', sending, more) = send_ok p s.packets w in
      (pool, there, w', rw (run, sending) refl, more ∙ ap (λ ps. ps ++ (p ∷ [])) same)

  set_sync_flag-data_of : (b : Bool) (p : Packet) → data_of (set_sync_flag b p) ≡ data_of p
  unfolding set_sync_flag data_of
  set_sync_flag-data_of b p = refl

  -- closePipeline returns, and loses nothing.
  abbrev pub Closes : OutputStream World → Type 0
  Closes s =
      (pool : PacketPool) × (there : Bool) × (count number : ℕ) × (w : World) × (close_pipeline
          codec crc backend s
        ≡ done tt (record s {
          packets = pool;
          pipeline = there;
          bytes_written = count;
          next_seq_no = number;
          world = w;
        }))
      × (written (sent w) ≡ written (sent s.world))

  flagged_empty :
      (sync : Bool) (p : Packet)
      → data_of p ≡ []
      → data_of (if sync then set_sync_flag true p else p) ≡ []
  flagged_empty true p e = set_sync_flag-data_of true p ∙ e
  flagged_empty false p e = e

  without_packet :
      (s : OutputStream World)
      → IsSized codec crc backend reliable (record s { current_packet = none })
      → Closes (record s { current_packet = none })
  unfolding close_pipeline close_open_pipeline send_current
  without_packet s z = elim (Bool-cases s.pipeline) [
    | inr off ↦ (
      s.packets,
      s.pipeline,
      s.bytes_written,
      s.next_seq_no,
      s.world,
      ap
          (λ b.
            if b
            then close_open_pipeline codec crc backend (record s { current_packet = none })
            else done tt (record s { current_packet = none }))
          off,
      refl,
    )
    | inl on ↦
        let t = record s { current_packet = none } in
        let (p, pool, run, filling, room, at) = take_packet-done codec crc backend reliable t z in
        let last = if s.sync_block then set_sync_flag true p else p in
        let (pool', w, closing, more) = close_ok last pool s.world in
        let (w', synced, same) = fsync_ok w in
        (
          pool',
          false,
          0,
          s.next_seq_no + 1,
          w',
          ap (λ b. if b then close_open_pipeline codec crc backend t else done tt t) on
              ∙ rw (run, closing, synced) refl,
          ap written (same ∙ more)
              ∙ written-last (sent s.world) last
              ∙ ap (λ d. written (sent s.world) ++ d)
                  (flagged_empty s.sync_block p (IsFilling-data_of codec s.chunk_size p [] filling))
              ∙ append-nil (written (sent s.world)),
        )
  ]

  pub close_pipeline-done :
      (s : OutputStream World)
      → IsSized codec crc backend reliable s
      → s.current_packet ≡ none
      → Closes s
  close_pipeline-done s z e =
      subst Closes (sym (ap (λ c. record s { current_packet = c }) e)) (
        without_packet s
          (moved s none s.packets s.pipeline s.bytes_written s.next_seq_no s.world z))

  pub without-IsOpen :
      (s : OutputStream World)
      → IsSized codec crc backend reliable s
      → s.position < length s.buffer
      → s.current_packet ≡ none
      → IsOpen codec crc backend reliable s
  without-IsOpen s z room e = record {
    sizes = z;
    room = room;
    fills = subst (Fills codec crc backend reliable s.chunk_size) (sym e) tt;
    waits = subst (Waits codec crc backend reliable s) (sym e) tt;
  }

  pub content-without :
      (s : OutputStream World)
      → s.current_packet ≡ none
      → s.position ≡ 0
      → content codec crc backend reliable s ≡ written (sent s.world)
  content-without s e p =
      ap (λ c. written (sent s.world) ++ (pending c ++ take s.position s.buffer)) e
      ∙ ap (λ n. written (sent s.world) ++ take n s.buffer) p
      ∙ append-nil (written (sent s.world))
