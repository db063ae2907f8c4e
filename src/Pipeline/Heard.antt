-- ===== src/Pipeline/Heard.antt =====
-- The acknowledgements that the network has given.
use libhdfs.Prelude.{
  Bool, subst, ℕ, ◌≡◌, refl, sym, ap, ◌∙◌, ◌⊎◌, inl, inr, List, [], ◌∷◌, ◌++◌, Option, none, some,
  ok, if◌then◌else◌, true, arith,
}
use mathlib.Core.List.{append_assoc, append-nil}
use libhdfs.Prelude.Int.{ℤ, pos, negsuc, eqb_ℤ}
use libhdfs.Pipeline.State.{Ack, Network}
use libhdfs.Pipeline.Frames.{IsTrace}
use libhdfs.Pipeline.Acks.{all_success}

-- The one list is a part of the other: what is left of it when some elements are taken out.
abbrev pub IsPart : List ℤ → List ℤ → Type 0
IsPart [] ys = Unit
IsPart (x ∷ xs) [] = ⊥
IsPart (x ∷ xs) (y ∷ ys) = ((x ≡ y) × IsPart xs ys) ⊎ IsPart (x ∷ xs) ys

IsPart-later : (xs : List ℤ) (y : ℤ) (ys : List ℤ) → IsPart xs ys → IsPart xs (y ∷ ys)
IsPart-later [] y ys h = tt
IsPart-later (x ∷ xs) y ys h = inr h

pub IsPart-append :
    (ps xs bs ys : List ℤ) → IsPart ps xs → IsPart bs ys → IsPart (ps ++ bs) (xs ++ ys)
IsPart-append [] [] bs ys h k = k
IsPart-append [] (x ∷ xs) bs ys h k = IsPart-later bs x (xs ++ ys) (IsPart-append [] xs bs ys tt k)
IsPart-append (p ∷ ps) [] bs ys h k = absurd h
IsPart-append (p ∷ ps) (x ∷ xs) bs ys (inl (e, h)) k = inl (e, IsPart-append ps xs bs ys h k)
IsPart-append (p ∷ ps) (x ∷ xs) bs ys (inr h) k = inr (IsPart-append (p ∷ ps) xs bs ys h k)

-- The numbers that have left the queue were acknowledged, all or, where the block is being closed and
-- nothing is left in the queue, all but the last.
abbrev pub AreAnswered : Bool → List ℤ → List ℤ → List ℤ → Type 0
AreAnswered closing removed acks kept =
    IsPart removed acks
    ⊎ ((closing ≡ true)
        × (front : List ℤ) × (n : ℤ) × (removed ≡ front ++ (n ∷ []))
        × IsPart front acks
        × (kept ≡ []))

no_more : (xs ys : List ℤ) → [] ≡ xs ++ ys → (xs ≡ []) × (ys ≡ [])
no_more [] ys e = (refl, sym e)
no_more (x ∷ xs) ys e = absurd (cc)

pub AreAnswered-trans :
    (closing : Bool) (a x b y kept last : List ℤ)
    → AreAnswered closing a x kept
    → AreAnswered closing b y last
    → kept ≡ b ++ last
    → AreAnswered closing (a ++ b) (x ++ y) last
AreAnswered-trans closing a x b y kept last (inl p) (inl q) e = inl (IsPart-append a x b y p q)
AreAnswered-trans closing a x b y kept last (inl p) (inr (c, f, n, r, q, z)) e = inr (
  c,
  a ++ f,
  n,
  ap (λ t. a ++ t) r ∙ sym (append_assoc a f (n ∷ [])),
  IsPart-append a x f y p q,
  z,
)
AreAnswered-trans closing a x b y kept last (inr (c, f, n, r, p, z)) k e =
    let (nothing, done) = no_more b last (sym z ∙ e) in
    inr (
      c,
      f,
      n,
      ap (λ t. a ++ t) nothing ∙ append-nil a ∙ r,
      subst (λ g. IsPart g (x ++ y)) (append-nil f) (IsPart-append f x [] y p tt),
      done,
    )

-- The number that an acknowledgement of success is for.
abbrev pub ack_numbers : Option Ack → List ℤ
ack_numbers none = []
ack_numbers (some ack) = if all_success ack.replies then ack.seqno ∷ [] else []

pub eqb_ℤ_lem : (a b : ℤ) → eqb_ℤ a b ≡ true → a ≡ b
eqb_ℤ_lem (pos n) (pos m) h = let e : n ≡ m = ground arith in ap pos e
eqb_ℤ_lem (pos n) (negsuc m) h = absurd (ground arith)
eqb_ℤ_lem (negsuc n) (pos m) h = absurd (ground arith)
eqb_ℤ_lem (negsuc n) (negsuc m) h = let e : n ≡ m = ground arith in ap negsuc e

module _ {World : Type 0} (network : Network World) where
  -- The numbers that the messages acknowledge.
  abbrev pub acked_by : List (List ℕ) → List ℤ
  acked_by [] = []
  acked_by (m ∷ ms) = ack_numbers (network.parse_ack m) ++ acked_by ms

  pub acked_by-append : (ms ns : List (List ℕ)) → acked_by (ms ++ ns) ≡ acked_by ms ++ acked_by ns
  acked_by-append [] ns = refl
  acked_by-append (m ∷ ms) ns =
      ap (λ r. ack_numbers (network.parse_ack m) ++ r) (acked_by-append ms ns)
      ∙ sym (append_assoc (ack_numbers (network.parse_ack m)) (acked_by ms) (acked_by ns))

  -- A record of the messages that have been read from the data nodes: the log of a world grows by what
  -- readFully reads, and no call takes anything from it. Any network keeps such a log when its world is
  -- paired with one.
  pub record IsRecord (log : World → List (List ℕ)) : Type 0 where
    pub trace : IsTrace network (λ v w. (new : List (List ℕ)) × (log w ≡ log v ++ new))
    pub reads :
        (n : ℕ) (v w : World) (bytes : List ℕ)
        → network.read_fully n v ≡ (ok bytes, w)
        → log w ≡ log v ++ (bytes ∷ [])
