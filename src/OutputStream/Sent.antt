-- ===== src/OutputStream/Sent.antt =====
-- The end of a round of appendInternal sends the packet when it is full or ends its block, and nothing
-- is lost.
use libhdfs.Prelude.{
  ℕ, ◌≡◌, ◌<◌, refl, sym, ap, ◌∙◌, ◌⊎◌, inl, inr, arith, ◌==◌, ◌||◌, if◌then◌else◌, List, ◌++◌,
  Option, none, some, length, take, Bool-cases, subst,
}
use mathlib.Core.List.{append-nil}
use libhdfs.Packet.Header.{HeaderCodec}
use libhdfs.Packet.Buffer.{Packet, is_full}
use libhdfs.Pipeline.Calls.{Outcome, done}
use libhdfs.OutputStream.State.{Backend, OutputStream}
use libhdfs.OutputStream.Chunking.{close_pipeline, send_if_ready}
use libhdfs.OutputStream.Filling.{data_of}
use libhdfs.OutputStream.Appending.{
  IsReliable, written, pending, content, IsSized, Fills, Waits, IsOpen,
}
use libhdfs.OutputStream.Resizing.{end_append-done}
use libhdfs.OutputStream.Rounds.{
  written-last, moved, send_packet-done, close_pipeline-done, without-IsOpen, content-without,
}

module _ {World : Type 0} (codec : HeaderCodec) (crc : List ℕ → ℕ) (backend : Backend World)
    (reliable : IsReliable backend) where
  open reliable use {sent}

  -- Inside a round the packet may be full, when the chunk buffer is empty.
  pub record IsBetween (s : OutputStream World) : Type 0 where
    pub sizes : IsSized codec crc backend reliable s
    pub room : s.position < length s.buffer
    pub fills : Fills codec crc backend reliable s.chunk_size s.current_packet
    pub ready : Waits codec crc backend reliable s s.current_packet ⊎ (s.position ≡ 0)

  -- A step that returns an open stream with a given content and cursor.
  abbrev pub Leads : Outcome (OutputStream World) (Unit {0}) → List ℕ → ℕ → Type 0
  Leads r bytes cursor =
      (t : OutputStream World) × (r ≡ done tt t)
      × IsOpen codec crc backend reliable t
      × (content codec crc backend reliable t ≡ bytes)
      × (t.cursor ≡ cursor)

  -- closePipeline behind a packet that ends its block
  close_if : OutputStream World → Outcome (OutputStream World) (Unit {0})
  close_if t =
      if t.bytes_written == t.block_size then close_pipeline codec crc backend t else done tt t

  close_if-Leads :
      (s : OutputStream World)
      → IsSized codec crc backend reliable s
      → s.current_packet ≡ none
      → s.position ≡ 0
      → Leads (close_if s) (written (sent s.world)) s.cursor
  unfolding close_if
  close_if-Leads s z e p = elim (Bool-cases (s.bytes_written == s.block_size)) [
    | inr open_block ↦ (
      s,
      ap (λ b. if b then close_pipeline codec crc backend s else done tt s) open_block,
      without-IsOpen codec crc backend reliable s z (omega (arith, z.some_bytes, z.sized)) e,
      content-without codec crc backend reliable s e p,
      refl,
    )
    | inl ended ↦
        let (pool, there, count, number, w, run, same) =
          close_pipeline-done codec crc backend reliable s z e in
        let t = record s {
          packets = pool;
          pipeline = there;
          bytes_written = count;
          next_seq_no = number;
          world = w;
        } in
        (
          t,
          ap (λ b. if b then close_pipeline codec crc backend s else done tt s) ended ∙ run,
          without-IsOpen codec crc backend reliable t
              (moved codec crc backend reliable s s.current_packet pool there count number w z)
              (omega (arith, z.some_bytes, z.sized)) e,
          content-without codec crc backend reliable t e p ∙ same,
          refl,
        )
  ]

  pub send_if_ready-Leads :
      (s : OutputStream World) (current : Option Packet)
      → s.current_packet ≡ current
      → IsBetween s
      → Leads
          (send_if_ready codec crc backend current s)
          (content codec crc backend reliable s)
          s.cursor
  unfolding send_if_ready is_full close_if
  send_if_ready-Leads s none e b =
      (s, refl, without-IsOpen codec crc backend reliable s b.sizes b.room e, refl, refl)
  send_if_ready-Leads s (some packet) e b =
      elim (Bool-cases (is_full packet || s.bytes_written == s.block_size)) [
        | inr early ↦ (
          s,
          rw early refl,
          record {
            sizes = b.sizes;
            room = b.room;
            fills = b.fills;
            waits = subst (Waits codec crc backend reliable s) (sym e) (ground arith, ground arith);
          },
          refl,
          refl,
        )
        | inl ripe ↦ elim b.ready [
          | inl waits ↦
              let (room, open_block) = subst (Waits codec crc backend reliable s) e waits in
              absurd (ground arith)
          | inr start ↦
              let (pool, there, w, sending, more) =
                send_packet-done codec crc backend reliable packet s in
              let u = record s {
                current_packet = none;
                packets = pool;
                pipeline = there;
                world = w;
              } in
              let (v, shrinking, z, empty, at, same, kept) =
                end_append-done codec crc backend reliable u (
                  moved codec crc backend reliable s none pool there s.bytes_written s.next_seq_no w
                    b.sizes) in
              let (t, run, opened, all, cursor) = close_if-Leads v z empty (at ∙ start) in
              (
                t,
                rw (ripe, sending, shrinking) run,
                opened,
                all
                    ∙ ap (λ x. written (sent x)) same
                    ∙ ap written more
                    ∙ written-last (sent s.world) packet
                    ∙ sym (
                        ap (λ c. written (sent s.world) ++ (pending c ++ take s.position s.buffer))
                          e
                        ∙ ap (λ n. written (sent s.world) ++ (data_of packet ++ take n s.buffer))
                            start
                        ∙ ap (λ d. written (sent s.world) ++ d) (append-nil (data_of packet))),
                cursor ∙ kept,
              )
        ]
      ]
