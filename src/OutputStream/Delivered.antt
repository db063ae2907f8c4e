-- ===== src/OutputStream/Delivered.antt =====
-- appendInternal as a whole: its loop ends, and loses nothing.
use libhdfs.Prelude.{
  ℕ, zero, suc, ◌+◌, ◌-◌, ◌≡◌, ◌≤◌, ◌<◌, refl, sym, ap, ◌∙◌, inl, inr, arith, leb, ◌==◌, ◌&&◌, Bool,
  List, [], ◌∷◌, ◌++◌, length, take, drop, min, Bool-cases, length-take, length-drop,
  take-append-drop,
}
use mathlib.Core.List.{append_assoc, append-nil}
use libhdfs.Packet.Header.{HeaderCodec}
use libhdfs.Pipeline.Calls.{done}
use libhdfs.OutputStream.State.{Backend, OutputStream}
use libhdfs.OutputStream.Chunking.{append_piece, append_round, append_loop, append_internal}
use libhdfs.OutputStream.Appending.{IsReliable, content, IsOpen}
use libhdfs.OutputStream.Sent.{Leads, send_if_ready-Leads}
use libhdfs.OutputStream.Pieces.{Reaches, put_whole, put_buffered}

module _ {World : Type 0} (codec : HeaderCodec) (crc : List ℕ → ℕ) (backend : Backend World)
    (reliable : IsReliable backend) where
  abbrev whole : List ℕ → OutputStream World → Bool
  whole todo s = s.position == 0 && leb (length s.buffer) (length todo)

  abbrev batch : List ℕ → OutputStream World → ℕ
  batch todo s = min (length s.buffer - s.position) (length todo)

  append_piece-Reaches :
      (s : OutputStream World) (todo : List ℕ)
      → IsOpen codec crc backend reliable s
      → 0 < length todo
      → Reaches codec crc backend reliable
          (append_piece codec crc backend (whole todo s) (take (batch todo s) todo) s)
          (content codec crc backend reliable s ++ take (batch todo s) todo)
          s.cursor
  append_piece-Reaches s todo o some_bytes =
      let size = length-take (batch todo s) todo in
      elim (Bool-cases (whole todo s)) [
        | inl e ↦ rw e (
            put_whole codec crc backend reliable s (take (batch todo s) todo) o (ground arith)
              (ground (arith, o.sizes.sized)))
        | inr e ↦ rw e (
            put_buffered codec crc backend reliable s (take (batch todo s) todo) o
              (omega (arith, o.room)) (omega (arith, o.room)))
      ]

  append_round-done :
      (s : OutputStream World) (todo : List ℕ)
      → IsOpen codec crc backend reliable s
      → 0 < length todo
      → (t : OutputStream World) × (n : ℕ) × (0 < n)
        × (append_round codec crc backend todo s ≡ done (drop n todo) t)
        × IsOpen codec crc backend reliable t
        × (content codec crc backend reliable t
            ≡ content codec crc backend reliable s ++ take n todo)
        × (t.cursor ≡ s.cursor)
  unfolding append_round
  append_round-done s todo o some_bytes =
      let (t, put, between, held, at) = append_piece-Reaches s todo o some_bytes in
      let (u, sending, opened, kept, same) =
        send_if_ready-Leads codec crc backend reliable t t.current_packet refl between in
      (
        u,
        batch todo s,
        omega (arith, o.room),
        rw (put, sending) refl,
        opened,
        kept ∙ held,
        same ∙ at,
      )

  append_loop-Leads :
      (fuel : ℕ) (s : OutputStream World) (todo : List ℕ)
      → length todo ≤ fuel
      → IsOpen codec crc backend reliable s
      → Leads codec crc backend reliable
          (append_loop codec crc backend fuel todo s)
          (content codec crc backend reliable s ++ todo)
          s.cursor
  unfolding append_loop
  append_loop-Leads zero s [] h o = (s, refl, o, sym (append-nil _), refl)
  append_loop-Leads zero s (x ∷ xs) h o = absurd (omega arith)
  append_loop-Leads (suc fuel) s [] h o = (s, refl, o, sym (append-nil _), refl)
  append_loop-Leads (suc fuel) s (x ∷ xs) h o =
      let todo = x ∷ xs in
      let (t, n, some_bytes, round, opened, held, at) = append_round-done s todo o (omega arith) in
      let (u, rest, last, all, same) =
        append_loop-Leads fuel t (drop n todo) (omega (arith, length-drop n todo)) opened in
      (
        u,
        rw round rest,
        last,
        all
            ∙ ap (λ b. b ++ drop n todo) held
            ∙ append_assoc (content codec crc backend reliable s) (take n todo) (drop n todo)
            ∙ ap (λ b. content codec crc backend reliable s ++ b) (take-append-drop n todo),
        same ∙ at,
      )

  -- On a stream with consistent sizes and room in its packet, over a pipeline that does not fail,
  -- appending returns: the data of the packets that were sent, of the current packet and of the chunk
  -- buffer, one behind the other, have grown by exactly the bytes that were appended, the cursor by
  -- their number, and the stream is ready for the next append.
  pub append_internal-content :
      (s : OutputStream World) (bytes : List ℕ)
      → IsOpen codec crc backend reliable s
      → (t : OutputStream World) × (append_internal codec crc backend bytes s ≡ done tt t)
        × IsOpen codec crc backend reliable t
        × (content codec crc backend reliable t ≡ content codec crc backend reliable s ++ bytes)
        × (t.cursor ≡ s.cursor + length bytes)
  unfolding append_internal
  append_internal-content s bytes o =
      let (t, run, opened, all, at) = append_loop-Leads (length bytes) s bytes (omega arith) o in
      let z = opened.sizes in
      (
        record t { cursor = t.cursor + length bytes },
        rw run refl,
        record {
          sizes = record {
            some_bytes = z.some_bytes;
            sized = z.sized;
            fits = z.fits;
            some_chunks = z.some_chunks;
            small = z.small;
            default_chunk = z.default_chunk;
            default_range = z.default_range;
          };
          room = opened.room;
          fills = opened.fills;
          waits = opened.waits;
        },
        all,
        ap (λ n. n + length bytes) at,
      )
