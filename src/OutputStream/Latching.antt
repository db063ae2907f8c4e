-- ===== src/OutputStream/Latching.antt =====
-- What is left of a stream that is closed, or whose append has failed.
use libhdfs.Prelude.{
  ℕ, ◌≡◌, refl, sym, ap, ◌∙◌, if◌then◌else◌, Bool, true, false, List, Option, none, some, Exn,
  hdfs_io_exception, subst,
}
use libhdfs.Packet.Header.{HeaderCodec}
use libhdfs.Pipeline.Calls.{
  Outcome, done, failed, broken, stuck, ◌>>◌, throws, left, handle, modify, and_then, Leaves,
  Leaves_left,
}
use libhdfs.OutputStream.State.{Backend, OutputStream, check_status}
use libhdfs.OutputStream.Chunking.{append, append_internal, noting_error}
use libhdfs.OutputStream.Closing.{reset, tell, flush, sync, finish_unless_failed, close}

module _ {World : Type 0} where
  -- checkStatus on its two fields
  abbrev checked : Option Exn → Bool → OutputStream World → Outcome (OutputStream World) (Unit {0})
  checked error closed s = elim error [
    | none ↦ if closed then failed hdfs_io_exception s else done tt s
    | some e ↦ if closed then failed hdfs_io_exception s else failed e s
  ]

  check_status-fields :
      (s : OutputStream World) (error : Option Exn) (closed : Bool)
      → s.last_error ≡ error
      → s.closed ≡ closed
      → check_status s ≡ checked error closed s
  unfolding check_status
  check_status-fields s error closed e c =
      ap (λ r. checked r s.closed s) e ∙ ap (λ b. checked error b s) c

  checked-closed :
      (error : Option Exn) (s : OutputStream World)
      → checked error true s ≡ failed hdfs_io_exception s
  checked-closed none s = refl
  checked-closed (some e) s = refl

  check_status-closed :
      (s : OutputStream World) → s.closed ≡ true → check_status s ≡ failed hdfs_io_exception s
  check_status-closed s c =
      check_status-fields s s.last_error true refl c ∙ checked-closed s.last_error s

module _ {World : Type 0} (codec : HeaderCodec) (crc : List ℕ → ℕ) (backend : Backend World) where
  -- What a stream does whose status is an exception.
  abbrev pub Refuses : Exn → OutputStream World → Type 0
  Refuses e s =
      ((bytes : List ℕ) → append codec crc backend bytes s ≡ failed e s)
      × (flush codec crc backend s ≡ failed e s)
      × (sync codec crc backend s ≡ failed e s)
      × (tell s ≡ failed e s)

  refuses : (e : Exn) (s : OutputStream World) → check_status s ≡ failed e s → Refuses e s
  unfolding append flush sync tell
  refuses e s h = ((λ bytes. rw h refl), rw h refl, rw h refl, rw h refl)

  -- However the body of close ends, the state that is left has been reset.
  reset_after :
      (r : Outcome (OutputStream World) (Unit {0}))
      → Leaves
          (and_then (handle r (λ e. modify reset >> throws e)) (λ _. modify reset))
          (λ t. t.closed ≡ true)
  unfolding reset
  reset_after (done a s) = refl
  reset_after (failed e s) = refl
  reset_after broken = tt
  reset_after stuck = tt

  -- close on two of its fields
  abbrev close_on :
      Bool → Option Exn → ℕ → Bool → OutputStream World → Outcome (OutputStream World) (Unit {0})
  close_on closed error fuel limited s =
      if closed
      then done tt s
      else and_then
          (handle (finish_unless_failed codec crc backend fuel limited error s)
            (λ e. modify reset >> throws e))
          (λ _. modify reset)

  close-fields :
      (fuel : ℕ) (limited : Bool) (s : OutputStream World) (closed : Bool) (error : Option Exn)
      → s.closed ≡ closed
      → s.last_error ≡ error
      → close codec crc backend fuel limited s ≡ close_on closed error fuel limited s
  unfolding close
  close-fields fuel limited s closed error c e =
      ap (λ b. close_on b s.last_error fuel limited s) c
      ∙ ap (λ r. close_on closed r fuel limited s) e

  close_on-Leaves :
      (fuel : ℕ) (limited : Bool) (s : OutputStream World) (closed : Bool)
      → s.closed ≡ closed
      → Leaves (close_on closed s.last_error fuel limited s) (λ t. t.closed ≡ true)
  close_on-Leaves fuel limited s true c = c
  close_on-Leaves fuel limited s false c =
      reset_after (finish_unless_failed codec crc backend fuel limited s.last_error s)

  -- Whatever state a stream is in, and whether closing it succeeds or throws: afterwards append,
  -- flush, sync and tell throw an HdfsIOException and change nothing, and closing it again returns at
  -- once and changes nothing.
  pub close-final :
      (fuel : ℕ) (limited : Bool) (s t : OutputStream World)
      → left (close codec crc backend fuel limited s) ≡ some t
      → Refuses hdfs_io_exception t × (close codec crc backend fuel limited t ≡ done tt t)
  close-final fuel limited s t e =
      let closed : t.closed ≡ true =
        Leaves_left (λ u. u.closed ≡ true) (close codec crc backend fuel limited s) t
          (subst (λ o. Leaves o (λ u. u.closed ≡ true))
            (sym (close-fields fuel limited s s.closed s.last_error refl refl))
            (close_on-Leaves fuel limited s s.closed refl))
          e in
      (
        refuses hdfs_io_exception t (check_status-closed t closed),
        close-fields fuel limited t true t.last_error closed refl,
      )

  abbrev Noted : Outcome (OutputStream World) (Unit {0}) → Type 0
  Noted (failed e t) = t.last_error ≡ some e
  Noted _ = Unit

  noting_error-Noted :
      (r : Outcome (OutputStream World) (Unit {0}))
      → Noted (handle r (λ e. modify (λ s. record s { last_error = some e }) >> throws e))
  noting_error-Noted (done a s) = tt
  noting_error-Noted (failed e s) = refl
  noting_error-Noted broken = tt
  noting_error-Noted stuck = tt

  -- When append, on a stream whose status is good, throws an exception, the stream has kept it: as
  -- long as it is not closed, append, flush, sync and tell throw the same exception and change
  -- nothing, while closing it returns without an exception, sends nothing, and resets the stream.
  pub append-latches :
      (s t : OutputStream World) (bytes : List ℕ) (e : Exn)
      → check_status s ≡ done tt s
      → append codec crc backend bytes s ≡ failed e t
      → t.closed ≡ false
      → Refuses e t
        × ((fuel : ℕ) (limited : Bool) → close codec crc backend fuel limited t ≡ done tt (reset t))
  unfolding append noting_error finish_unless_failed
  append-latches s t bytes e good h open_stream =
      let kept : Noted (append codec crc backend bytes s) =
        rw good (noting_error-Noted (append_internal codec crc backend bytes s)) in
      let noted : t.last_error ≡ some e = subst Noted h kept in
      (
        refuses e t (check_status-fields t (some e) false noted open_stream),
        (λ fuel limited. close-fields fuel limited t false (some e) open_stream noted),
      )
