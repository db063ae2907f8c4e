-- ===== src/Pipeline/Resending.antt =====
-- The packets that wait are sent again, and the queue stays as it is.
use libhdfs.Prelude.{
  ℕ, zero, suc, ◌≡◌, refl, sym, ap, ◌∙◌, List, [], ◌∷◌, Bool-cases, inl, inr, Result, ok, throw,
  fault, arith, set, drop,
}
use libhdfs.Prelude.Int.{ℤ}
use libhdfs.Packet.Header.{HeaderCodec}
use libhdfs.Packet.Buffer.{Packet, close_gap, get_buffer, get_last_byte_offset_block}
use libhdfs.Pipeline.Calls.{of_result, Leaves, and_then-Leaves_from, WhenOk, of_result-Leaves}
use libhdfs.Pipeline.State.{PipelineImpl, Network, answered, is_close}
use libhdfs.Pipeline.Acks.{note_sent, resend_from, resend}
use libhdfs.Pipeline.Heard.{IsRecord}
use libhdfs.Pipeline.Queue.{
  numbers, Grows, Moves-still, Moves, Moves-refl, Moves-trans, Moving, note_sent-Moves,
}

numbers-set :
    (ps : List Packet) (i : ℕ) (p : Packet) (rest : List ℤ)
    → drop i (numbers ps) ≡ p.seqno ∷ rest
    → numbers (set ps i p) ≡ numbers ps
numbers-set [] i p rest e = refl
numbers-set (q ∷ ps) zero p rest e = ground arith
numbers-set (q ∷ ps) (suc i) p rest e = ap (λ l. q.seqno ∷ l) (numbers-set ps i p rest e)

drop_next :
    {A : Type 0} (xs : List A) (i : ℕ) (x : A) (rest : List A)
    → drop i xs ≡ x ∷ rest
    → drop (suc i) xs ≡ rest
drop_next [] zero x rest e = ground arith
drop_next [] (suc i) x rest e = ground arith
drop_next (y ∷ xs) zero x rest e = ground arith
drop_next (y ∷ xs) (suc i) x rest e = drop_next xs i x rest e

module _ {World : Type 0} (network : Network World) (log : World → List (List ℕ))
    (records : IsRecord network log) (codec : HeaderCodec) where
  -- `getBuffer` moves bytes, and leaves the number of the packet.
  pub get_buffer-WhenOk :
      (p : Packet) → WhenOk (get_buffer codec p) (λ (r : List ℕ × Packet). r.1.seqno ≡ p.seqno)
  unfolding get_buffer close_gap
  get_buffer-WhenOk p = ground arith

  -- The state while the loop is at packet `i`, in front of those that are numbered `left`.
  abbrev At : PipelineImpl World → ℕ → List ℤ → PipelineImpl World → Type 0
  At s i left t = Moves network log records s t × (drop i (numbers t.packets) ≡ left)

  goes_on :
      (s : PipelineImpl World) (i : ℕ) (left : List ℤ) (t : PipelineImpl World) (w : World)
      → At s i left t
      → Grows network log records t.world w
      → At s i left (record t { world = w })
  goes_on s i left t w (m, at) g = (
    Moves-trans network log records s t (record t { world = w }) m
        (Moves-still network log records t (record t { world = w }) refl g refl (omega arith)
          (omega arith)),
    at,
  )

  answered-At :
      {A : Type 0} (s : PipelineImpl World) (i : ℕ) (left : List ℤ) (t : PipelineImpl World)
      (r : Result A × World)
      → At s i left t
      → Grows network log records t.world r.1
      → Leaves (answered t r) (At s i left)
  answered-At s i left t (ok a, w) h g = goes_on s i left t w h g
  answered-At s i left t (throw e, w) h g = goes_on s i left t w h g
  answered-At s i left t (fault, w) h g = tt

  of_result-At :
      {A : Type 0} (s : PipelineImpl World) (i : ℕ) (left : List ℤ) (t : PipelineImpl World)
      (r : Result A)
      → At s i left t
      → Leaves (of_result r t) (At s i left)
  of_result-At s i left t (ok a) h = h
  of_result-At s i left t (throw e) h = h
  of_result-At s i left t fault h = tt

  -- The packet as getBuffer leaves it takes its place in the queue.
  put_back :
      (s t : PipelineImpl World) (i : ℕ) (packet closed : Packet) (rest : List Packet)
      → closed.seqno ≡ packet.seqno
      → At s i (numbers (packet ∷ rest)) t
      → At s i (numbers (packet ∷ rest)) (record t { packets = set t.packets i closed })
  put_back s t i packet closed rest same (m, at) =
      let kept : numbers (set t.packets i closed) ≡ numbers t.packets =
        numbers-set t.packets i closed (numbers rest)
          (at ∙ ap (λ n. n ∷ numbers rest) (sym same)) in
      let u = record t { packets = set t.packets i closed } in
      (
        Moves-trans network log records s t u m (
            Moves-still network log records t u kept (records.trace.same t.world) refl (omega arith)
              (omega arith)),
        ap (drop i) kept ∙ at,
      )

  resend_from-Leaves :
      (s : PipelineImpl World) (i : ℕ) (ps : List Packet) (t : PipelineImpl World)
      → At s i (numbers ps) t
      → Leaves (resend_from network codec i ps t) (Moves network log records s)
  unfolding resend_from
  resend_from-Leaves s i [] t h = h.0
  resend_from-Leaves s i (packet ∷ rest) t h =
      of_result-Leaves (λ (r : List ℕ × Packet). r.1.seqno ≡ packet.seqno)
        (Moves network log records s) (get_buffer codec packet) t _ (get_buffer-WhenOk packet) h.0
        λ (r : List ℕ × Packet) same.
          and_then-Leaves_from (Moves network log records s) (At s i (numbers (packet ∷ rest))) _ _
            (answered-At s i _ (record t { packets = set t.packets i r.1 })
              (network.write_fully r.0 t.world) (put_back s t i packet r.1 rest same h)
              (records.trace.write_fully r.0 t.world))
            (λ u q. q.0)
            λ _ u q.
              and_then-Leaves_from (Moves network log records s) (At s i (numbers (packet ∷ rest)))
                _ _ (of_result-At s i _ u (get_last_byte_offset_block r.1) q) (λ v q'. q'.0)
                λ n v q'. resend_from-Leaves s (suc i) rest (note_sent n v) (
                  Moves-trans network log records s v (note_sent n v) q'.0
                      (note_sent-Moves network log records n v),
                  drop_next (numbers v.packets) i packet.seqno (numbers rest) q'.1,
                )

  -- resend loses no packet of the queue.
  pub resend-Moving : Moving network log records (resend network codec)
  unfolding resend
  resend-Moving s = elim (Bool-cases (is_close s.stage)) [
    | inl c ↦ rw c tt
    | inr c ↦ rw c (resend_from-Leaves s 0 s.packets s (Moves-refl network log records s, refl))
  ]
