-- ===== src/Pipeline/Frames.antt =====
-- What every relation keeps that does not look at the world, the error index or the connection: the
-- calls of the interfaces, and createBlockOutputStream.
use libhdfs.Prelude.{
  ℕ, Bool-cases, inl, inr, ◌||◌, Bool, true, false, not, List, [], Option, none, some, Result, ok,
  throw, fault, Exn, arith, get_elem?,
}
use libhdfs.Prelude.Int.{ℤ, pos, negsuc}
use libhdfs.Pipeline.Calls.{
  Outcome, done, and_then, handle, of_result, return, LeavesOr, Keeps, and_then-LeavesOr,
  handle-LeavesOr,
}
use libhdfs.Pipeline.State.{
  Datanode, Block, WriteBlock, Response, PipelineImpl, Network, Member, answered, deref, asserts,
}
use libhdfs.Pipeline.Acks.{buffer_size}
use libhdfs.Pipeline.Recovery.{
  is_response, bad_link_of, check_block_response, request_block, blame, is_empty, write_block_of,
  create_block_output_stream,
}

-- A relation between the world before and after a call, such as that some record of the calls has
-- grown, which every call of the network keeps.
pub record IsTrace {World : Type 0} (network : Network World) (Goes : World → World → Type 0)
    : Type 0 where
  pub same : (w : World) → Goes w w
  pub onward : (u v w : World) → Goes u v → Goes v w → Goes u w
  pub connect : (d : Datanode) (w : World) → Goes w (network.connect d w).1
  pub write_fully : (bytes : List ℕ) (w : World) → Goes w (network.write_fully bytes w).1
  pub poll : (wait : Bool) (w : World) → Goes w (network.poll wait w).1
  pub read_varint32 : (w : World) → Goes w (network.read_varint32 w).1
  pub read_fully : (n : ℕ) (w : World) → Goes w (network.read_fully n w).1
  pub write_block : (r : WriteBlock) (w : World) → Goes w (network.write_block r w).1
  pub transfer_block :
      (block : Block) (src : Datanode) (targets : List Datanode) (token : List ℕ) (w : World)
      → Goes w (network.transfer_block block src targets token w).1
  pub read_transfer_size : (w : World) → Goes w (network.read_transfer_size w).1
  pub read_transfer : (n : ℕ) (w : World) → Goes w (network.read_transfer n w).1
  pub get_additional_datanode :
      (block : Block) (nodes : List Datanode) (ids : List (List ℕ)) (excluded : List Datanode)
      (w : World)
      → Goes w (network.get_additional_datanode block nodes ids excluded w).1
  pub update_block_for_pipeline :
      (block : Block) (w : World) → Goes w (network.update_block_for_pipeline block w).1
  pub update_pipeline :
      (old new : Block) (nodes : List Datanode) (ids : List (List ℕ)) (w : World)
      → Goes w (network.update_pipeline old new nodes ids w).1

-- Any world may follow.
abbrev pub Anywhere : {World : Type 0} → World → World → Type 0
Anywhere w w' = Unit

pub Anywhere-IsTrace : {World : Type 0} (network : Network World) → IsTrace network Anywhere
Anywhere-IsTrace network = record {
  same = λ _. tt;
  onward = λ _ _ _ _ _. tt;
  connect = λ _ _. tt;
  write_fully = λ _ _. tt;
  poll = λ _ _. tt;
  read_varint32 = λ _. tt;
  read_fully = λ _ _. tt;
  write_block = λ _ _. tt;
  transfer_block = λ _ _ _ _ _. tt;
  read_transfer_size = λ _. tt;
  read_transfer = λ _ _. tt;
  get_additional_datanode = λ _ _ _ _ _. tt;
  update_block_for_pipeline = λ _ _. tt;
  update_pipeline = λ _ _ _ _ _. tt;
}

pub record IsFrame {World : Type 0} (Goes : World → World → Type 0)
    (R : PipelineImpl World → PipelineImpl World → Type 0) : Type 0 where
  pub here : (w : World) → Goes w w
  pub stays : (s : PipelineImpl World) → R s s
  pub follows : (s t u : PipelineImpl World) → R s t → R t u → R s u
  pub elsewhere :
      (s : PipelineImpl World) (w : World) (i : Option ℕ) (c : Bool)
      → Goes s.world w
      → R s (record s { world = w; error_index = i; connection = c })

module _ (X : Type 0) {World : Type 0} {Goes : World → World → Type 0}
    (R : PipelineImpl World → PipelineImpl World → Type 0) (frame : IsFrame Goes R) where
  open frame use {here, stays, follows, elsewhere}

  pub next :
      {A B : Type 0} (s : PipelineImpl World) (o : Outcome (PipelineImpl World) A)
      (f : A → Member World B)
      → LeavesOr X o (R s)
      → ((a : A) → Keeps X R (f a))
      → LeavesOr X (and_then o f) (R s)
  next = and_then-LeavesOr X R follows

  pub handled :
      {A : Type 0} (s : PipelineImpl World) (o : Outcome (PipelineImpl World) A)
      (f : Exn → Member World A)
      → LeavesOr X o (R s)
      → ((e : Exn) → Keeps X R (f e))
      → LeavesOr X (handle o f) (R s)
  handled = handle-LeavesOr X R follows

  pub answered-Leaves :
      {A : Type 0} (s : PipelineImpl World) (r : Result A × World)
      → Goes s.world r.1
      → LeavesOr X (answered s r) (R s)
  answered-Leaves s (ok a, w) g = elsewhere s w s.error_index s.connection g
  answered-Leaves s (throw e, w) g = elsewhere s w s.error_index s.connection g
  answered-Leaves s (fault, w) g = tt

  pub deref-Leaves :
      {A : Type 0} (o : Option A) (s : PipelineImpl World) → LeavesOr X (deref o s) (R s)
  deref-Leaves none s = tt
  deref-Leaves (some a) s = stays s

  pub asserts-Leaves : (b : Bool) (s : PipelineImpl World) → LeavesOr X (asserts b s) (R s)
  asserts-Leaves true s = stays s
  asserts-Leaves false s = tt

  pub buffer_size-Leaves : (n : ℤ) (s : PipelineImpl World) → LeavesOr X (buffer_size n s) (R s)
  buffer_size-Leaves (pos n) s = stays s
  buffer_size-Leaves (negsuc n) s = stays s

  pub result-Leaves :
      {A : Type 0} (r : Result A) (s : PipelineImpl World) → LeavesOr X (of_result r s) (R s)
  result-Leaves (ok a) s = stays s
  result-Leaves (throw e) s = stays s
  result-Leaves fault s = tt

  module _ (network : Network World) (trace : IsTrace network Goes) where
    check_block_response-Leaves : (r : Option Response) → Keeps X R (check_block_response network r)
    unfolding check_block_response
    check_block_response-Leaves none s = stays s
    check_block_response-Leaves (some r) s = ground (arith, stays s)

    request_block-Leaves :
        (token : List ℕ) (gs : ℕ) (recovery : Bool)
        → Keeps X R (request_block network token gs recovery)
    unfolding request_block
    request_block-Leaves token gs recovery s =
        next s (done tt (record s { connection = true })) _
          (elsewhere s s.world s.error_index true (here s.world))
          λ _ a. next a _ _ (deref-Leaves (get_elem? a.nodes 0) a) λ first t.
            next t _ _
              (answered-Leaves t (network.connect first t.world) (trace.connect first t.world))
              λ _ u. next u _ _ (deref-Leaves u.last_block u) λ block v.
                next v _ _
                  (answered-Leaves v
                    (network.write_block (write_block_of v block token gs recovery) v.world)
                    (trace.write_block (write_block_of v block token gs recovery) v.world))
                  λ _ w.
                    next w _ _
                      (answered-Leaves w (network.read_varint32 w.world)
                        (trace.read_varint32 w.world))
                      λ size x. next x _ _ (buffer_size-Leaves size x) λ n y.
                        next y _ (λ bytes. return (network.parse_response bytes))
                          (answered-Leaves y (network.read_fully n y.world)
                            (trace.read_fully n y.world))
                          λ bytes. stays

    blame-Leaves : (link : List ℕ) (wrap : Bool) (e : Exn) → Keeps X R (blame network link wrap e)
    unfolding blame
    blame-Leaves link wrap e s = elim (Bool-cases (is_empty link || network.valid_bad_link link)) [
      | inl b ↦ rw b (elsewhere s s.world _ s.connection (here s.world))
      | inr b ↦ rw b (elsewhere s s.world (some 0) s.connection (here s.world))
    ]

    pub create_block_output_stream-Leaves :
        (token : List ℕ) (gs : ℕ) (recovery : Bool)
        → Keeps X R (create_block_output_stream network token gs recovery)
    unfolding create_block_output_stream
    create_block_output_stream-Leaves token gs recovery s =
        next s _ _
          (handled s _ _ (request_block-Leaves token gs recovery s)
            λ e t. next t _ _ (blame-Leaves [] true e t) λ _. stays)
          λ response t.
            handled t _ _ (check_block_response-Leaves response t)
              (blame-Leaves (bad_link_of response) (not (is_response response)))
