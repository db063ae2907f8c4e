-- ===== src/Pipeline/Calls.antt =====
-- What a member function of src/client/Pipeline.cpp ends in, with the state that it leaves also when
-- it throws. The loops run on fuel, and `stuck` is where it runs out.
use libhdfs.Prelude.{
  ◌≡◌, subst, Option, none, some, Bool, true, false, Result, ok, throw, fault, Exn, range_error,
  hdfs_io_exception, hdfs_network_exception, hdfs_timeout_exception, hdfs_end_of_stream,
  length_error, hdfs_invalid_block_token, hdfs_rpc_exception,
}

pub data Outcome (S : Type 0) (A : Type 0) : Type 0 where
  done : A → S → Outcome S A
  failed : Exn → S → Outcome S A
  broken : Outcome S A
  stuck : Outcome S A

-- A computation over the state `S`.
abbrev pub Action : Type 0 → Type 0 → Type 0
Action S A = S → Outcome S A

module _ {S : Type 0} where
  abbrev pub and_then : {A B : Type 0} → Outcome S A → (A → Action S B) → Outcome S B
  and_then (done a s) f = f a s
  and_then (failed e s) f = failed e s
  and_then broken f = broken
  and_then stuck f = stuck

  infixl 5 ◌>>=◌ ◌>>◌
  abbrev pub ◌>>=◌ : {A B : Type 0} → Action S A → (A → Action S B) → Action S B
  ◌>>=◌ m f s = and_then (m s) f

  abbrev pub ◌>>◌ : {B : Type 0} → Action S (Unit {0}) → Action S B → Action S B
  m >> k = m >>= λ _. k

  abbrev pub return : {A : Type 0} → A → Action S A
  return a s = done a s

  abbrev pub throws : {A : Type 0} → Exn → Action S A
  throws e s = failed e s

  abbrev pub asks : {A : Type 0} → (S → A) → Action S A
  asks f s = done (f s) s

  abbrev pub modify : (S → S) → Action S (Unit {0})
  modify f s = done tt (f s)

  -- A value that may be undefined, or an exception that leaves the state alone.
  abbrev pub of_result : {A : Type 0} → Result A → Action S A
  of_result (ok a) s = done a s
  of_result (throw e) s = failed e s
  of_result fault s = broken

  -- `try { … } catch (…) { … }`: the handler runs on the state at the throw.
  abbrev pub handle : {A : Type 0} → Outcome S A → (Exn → Action S A) → Outcome S A
  handle (done a s) f = done a s
  handle (failed e s) f = f e s
  handle broken f = broken
  handle stuck f = stuck

  abbrev pub catching : {A : Type 0} → Action S A → (Exn → Action S A) → Action S A
  catching m f s = handle (m s) f

-- `catch (const HdfsIOException &)`
abbrev pub is_io : Exn → Bool
is_io hdfs_io_exception = true
is_io hdfs_network_exception = true
is_io hdfs_end_of_stream = true
is_io hdfs_rpc_exception = true
is_io _ = false

-- `catch (const HdfsInvalidBlockToken &)`, `catch (const HdfsTimeoutException &)` and
-- `catch (const HdfsIOException &)`, one behind the other.
abbrev pub is_rebuildable : Exn → Bool
is_rebuildable hdfs_invalid_block_token = true
is_rebuildable hdfs_timeout_exception = true
is_rebuildable e = is_io e

-- `catch (const HdfsException &)`
abbrev pub is_hdfs : Exn → Bool
is_hdfs range_error = false
is_hdfs length_error = false
is_hdfs _ = true

-- What holds of the state that a call leaves, whether it returns or throws; `X` is what running out of
-- fuel comes to.
abbrev pub LeavesOr : {S A : Type 0} → Type 0 → Outcome S A → (S → Type 0) → Type 0
LeavesOr X (done a t) P = P t
LeavesOr X (failed e t) P = P t
LeavesOr X broken P = Unit
LeavesOr X stuck P = X

abbrev pub Leaves : {S A : Type 0} → Outcome S A → (S → Type 0) → Type 0
Leaves o P = LeavesOr Unit o P

-- What a call that returns leaves.
abbrev pub Returns : {S A : Type 0} → Outcome S A → (A → S → Type 0) → Type 0
Returns (done a t) P = P a t
Returns (failed e t) P = Unit
Returns broken P = Unit
Returns stuck P = Unit

module _ {S : Type 0} (X : Type 0) (R : S → S → Type 0) where
  -- A relation between the state before and the state after.
  abbrev pub Keeps : {A : Type 0} → Action S A → Type 0
  Keeps m = (s : S) → LeavesOr X (m s) (R s)

  module _ (R_trans : (s t u : S) → R s t → R t u → R s u) where
    from_earlier :
        {B : Type 0} (s t : S) (o : Outcome S B) → R s t → LeavesOr X o (R t) → LeavesOr X o (R s)
    from_earlier s t (done a u) p q = R_trans s t u p q
    from_earlier s t (failed e u) p q = R_trans s t u p q
    from_earlier s t broken p q = tt
    from_earlier s t stuck p q = q

    -- The relation holds over a sequence if it holds over its parts, and over a handler too.
    pub and_then-LeavesOr :
        {A B : Type 0} (s : S) (o : Outcome S A) (f : A → Action S B)
        → LeavesOr X o (R s)
        → ((a : A) → Keeps (f a))
        → LeavesOr X (and_then o f) (R s)
    and_then-LeavesOr s (done a t) f h k = from_earlier s t (f a t) h (k a t)
    and_then-LeavesOr s (failed e t) f h k = h
    and_then-LeavesOr s broken f h k = tt
    and_then-LeavesOr s stuck f h k = h

    pub handle-LeavesOr :
        {A : Type 0} (s : S) (o : Outcome S A) (f : Exn → Action S A)
        → LeavesOr X o (R s)
        → ((e : Exn) → Keeps (f e))
        → LeavesOr X (handle o f) (R s)
    handle-LeavesOr s (done a t) f h k = h
    handle-LeavesOr s (failed e t) f h k = from_earlier s t (f e t) h (k e t)
    handle-LeavesOr s broken f h k = tt
    handle-LeavesOr s stuck f h k = h

module _ {S A : Type 0} where
  pub Leaves_weaker :
      (P Q : S → Type 0) (o : Outcome S A) → Leaves o Q → ((t : S) → Q t → P t) → Leaves o P
  Leaves_weaker P Q (done a t) h k = k t h
  Leaves_weaker P Q (failed e t) h k = k t h
  Leaves_weaker P Q broken h k = tt
  Leaves_weaker P Q stuck h k = tt

  -- A sequence from any predicate on the state between its parts.
  pub and_then-Leaves_from :
      {B : Type 0} (P Q : S → Type 0) (o : Outcome S A) (f : A → Action S B)
      → Leaves o Q
      → ((t : S) → Q t → P t)
      → ((a : A) (t : S) → Q t → Leaves (f a t) P)
      → Leaves (and_then o f) P
  and_then-Leaves_from P Q (done a t) f h w k = k a t h
  and_then-Leaves_from P Q (failed e t) f h w k = w t h
  and_then-Leaves_from P Q broken f h w k = tt
  and_then-Leaves_from P Q stuck f h w k = tt

-- What holds of the value of a call that returns.
abbrev pub WhenOk : {A : Type 0} → Result A → (A → Type 0) → Type 0
WhenOk (ok a) P = P a
WhenOk (throw e) P = Unit
WhenOk fault P = Unit

pub of_result-Leaves :
    {S A B : Type 0} (P : A → Type 0) (Q : S → Type 0) (r : Result A) (t : S) (f : A → Action S B)
    → WhenOk r P
    → Q t
    → ((a : A) → P a → Leaves (f a t) Q)
    → Leaves (and_then (of_result r t) f) Q
of_result-Leaves P Q (ok a) t f h q k = k a h
of_result-Leaves P Q (throw e) t f h q k = q
of_result-Leaves P Q fault t f h q k = tt

-- The state that a call leaves, if it returns or throws.
abbrev pub left : {S A : Type 0} → Outcome S A → Option S
left (done a t) = some t
left (failed e t) = some t
left broken = none
left stuck = none

pub Leaves_left :
    {S A : Type 0} (P : S → Type 0) (o : Outcome S A) (t : S) → Leaves o P → left o ≡ some t → P t
Leaves_left P (done a u) t h e = let same : u ≡ t = cc in subst P same h
Leaves_left P (failed x u) t h e = let same : u ≡ t = cc in subst P same h
Leaves_left P broken t h e = absurd (cc)
Leaves_left P stuck t h e = absurd (cc)

module _ {S : Type 0} where
  pub and_then-Returns :
      {A B : Type 0} (P : A → S → Type 0) (Q : B → S → Type 0) (o : Outcome S A)
      (f : A → Action S B)
      → Returns o P
      → ((a : A) (t : S) → P a t → Returns (f a t) Q)
      → Returns (and_then o f) Q
  and_then-Returns P Q (done a t) f h k = k a t h
  and_then-Returns P Q (failed e t) f h k = tt
  and_then-Returns P Q broken f h k = tt
  and_then-Returns P Q stuck f h k = tt

  -- Whatever the first part returns.
  pub and_then-Returns_any :
      {A B : Type 0} (Q : B → S → Type 0) (o : Outcome S A) (f : A → Action S B)
      → ((a : A) (t : S) → Returns (f a t) Q)
      → Returns (and_then o f) Q
  and_then-Returns_any Q (done a t) f k = k a t
  and_then-Returns_any Q (failed e t) f k = tt
  and_then-Returns_any Q broken f k = tt
  and_then-Returns_any Q stuck f k = tt

  pub handle-Returns :
      {A : Type 0} (Q : A → S → Type 0) (o : Outcome S A) (f : Exn → Action S A)
      → Returns o Q
      → ((e : Exn) (t : S) → Returns (f e t) Q)
      → Returns (handle o f) Q
  handle-Returns Q (done a t) f h k = h
  handle-Returns Q (failed e t) f h k = k e t
  handle-Returns Q broken f h k = tt
  handle-Returns Q stuck f h k = tt

  pub Returns_done :
      {A : Type 0} (P : A → S → Type 0) (o : Outcome S A) (a : A) (t : S)
      → Returns o P
      → o ≡ done a t
      → P a t
  Returns_done P o a t h e = subst (λ q. Returns q P) e h
