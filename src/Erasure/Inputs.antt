-- ===== src/Erasure/Inputs.antt =====
-- The inputs that doDecode of src/client/RawErasureDecoder.cpp reads.
use libhdfs.Prelude.{
  ℕ, zero, suc, ◌+◌, ◌≤◌, ◌<◌, ◌≡◌, ◌≢◌, refl, ap, ap₂, subst, arith, inl, inr, List, [], ◌∷◌, map,
  length, take, Option, none, some, Result, ok, throw, fault, ◌>>=◌,
}
use libhdfs.Erasure.Coder.{Buffer, get_valid_indexes, find_first_valid_input}
use libhdfs.Erasure.Chunks.{region, Holds}
use libhdfs.Erasure.Encode.{AllHold}
use libhdfs.Erasure.Recover.{AllBelow}
use libhdfs.Erasure.Points.{In}
use libhdfs.Erasure.Solvable.{Differs, AllDifferent}
use libhdfs.Erasure.Decoder.{input_at, real_inputs}

pub valid-AllBelow :
    (all i : ℕ) (inputs : List (Option Buffer))
    → i + length inputs ≤ all
    → AllBelow all (get_valid_indexes i inputs)
unfolding get_valid_indexes
valid-AllBelow all i [] h = tt
valid-AllBelow all i (none ∷ bs) h = valid-AllBelow all (i + 1) bs (omega arith)
valid-AllBelow all i (some b ∷ bs) h = (omega arith, valid-AllBelow all (i + 1) bs (omega arith))

valid-Differs :
    (x i : ℕ) (inputs : List (Option Buffer)) → x < i → Differs x (get_valid_indexes i inputs)
unfolding get_valid_indexes
valid-Differs x i [] h = tt
valid-Differs x i (none ∷ bs) h = valid-Differs x (i + 1) bs (omega arith)
valid-Differs x i (some b ∷ bs) h = ((λ e. omega arith), valid-Differs x (i + 1) bs (omega arith))

pub valid-AllDifferent :
    (i : ℕ) (inputs : List (Option Buffer)) → AllDifferent (get_valid_indexes i inputs)
unfolding get_valid_indexes
valid-AllDifferent i [] = tt
valid-AllDifferent i (none ∷ bs) = valid-AllDifferent (i + 1) bs
valid-AllDifferent i (some b ∷ bs) =
    (valid-Differs i (i + 1) bs (omega arith), valid-AllDifferent (i + 1) bs)

valid_from : (x i : ℕ) (inputs : List (Option Buffer)) → In x (get_valid_indexes i inputs) → i ≤ x
unfolding get_valid_indexes
valid_from x i [] h = elim h [ ]
valid_from x i (none ∷ bs) h = let l = valid_from x (i + 1) bs h in omega arith
valid_from x i (some b ∷ bs) (inl e) = omega arith
valid_from x i (some b ∷ bs) (inr h) = let l = valid_from x (i + 1) bs h in omega arith

abbrev pub AllIn : List ℕ → List ℕ → Type 0
AllIn [] ys = Unit
AllIn (x ∷ xs) ys = In x ys × AllIn xs ys

more-AllIn : (xs : List ℕ) (y : ℕ) (ys : List ℕ) → AllIn xs ys → AllIn xs (y ∷ ys)
more-AllIn [] y ys h = tt
more-AllIn (x ∷ xs) y ys (h, hs) = (inr h, more-AllIn xs y ys hs)

pub take-AllIn : (k : ℕ) (xs : List ℕ) → AllIn (take k xs) xs
take-AllIn zero xs = tt
take-AllIn (suc k) [] = tt
take-AllIn (suc k) (x ∷ xs) = (inl refl, more-AllIn (take k xs) x xs (take-AllIn k xs))

module _ (n : ℕ) (unit : ℕ → List ℕ) where
  -- A buffer that carries unit `x`.
  abbrev pub Carries : ℕ → Buffer → Type 0
  Carries x b = Holds n b × (region n b ≡ unit x) × (b.remaining ≡ n)

  -- Each buffer that is there carries the unit of its index.
  abbrev pub AllCarry : ℕ → List (Option Buffer) → Type 0
  AllCarry i [] = Unit
  AllCarry i (none ∷ bs) = AllCarry (i + 1) bs
  AllCarry i (some b ∷ bs) = Carries i b × AllCarry (i + 1) bs

  abbrev pub Measures : Result Buffer → Type 0
  Measures (ok b) = b.remaining ≡ n
  Measures (throw e) = ⊥
  Measures fault = ⊥

  pub find_first_valid_input-Measures :
      (i : ℕ) (inputs : List (Option Buffer))
      → AllCarry i inputs
      → get_valid_indexes i inputs ≢ []
      → Measures (find_first_valid_input inputs)
  unfolding get_valid_indexes find_first_valid_input
  find_first_valid_input-Measures i [] h e = absurd (e refl)
  find_first_valid_input-Measures i (none ∷ bs) h e = find_first_valid_input-Measures (i + 1) bs h e
  find_first_valid_input-Measures i (some b ∷ bs) ((h, q, r), hs) e = r

  abbrev Found : ℕ → Result Buffer → Type 0
  Found x (ok b) = Carries x b
  Found x (throw e) = ⊥
  Found x fault = ⊥

  found :
      (i x d : ℕ) (inputs : List (Option Buffer))
      → AllCarry i inputs
      → In x (get_valid_indexes i inputs)
      → x ≡ i + d
      → Found x (input_at inputs d)
  unfolding get_valid_indexes input_at
  found i x d [] h m e = elim m [ ]
  found i x zero (none ∷ bs) h m e = let l = valid_from x (i + 1) bs m in absurd (omega arith)
  found i x (suc d) (none ∷ bs) h m e = found (i + 1) x d bs h m (omega arith)
  found i x zero (some b ∷ bs) (h, hs) m e =
      let q : i ≡ x = omega arith in subst (λ t. Carries t b) q h
  found i x (suc d) (some b ∷ bs) (h, hs) m e = elim m [
    | inl q ↦ absurd (omega arith)
    | inr q ↦ found (i + 1) x d bs hs q (omega arith)
  ]

  abbrev pub AllRemain : List Buffer → Type 0
  AllRemain [] = Unit
  AllRemain (b ∷ bs) = (b.remaining ≡ n) × AllRemain bs

  abbrev pub Chosen : List ℕ → List Buffer → Type 0
  Chosen xs bs =
      (map (region n) bs ≡ map unit xs) × AllHold n bs × (length bs ≡ length xs) × AllRemain bs

  abbrev pub AreChosen : List ℕ → Result (List Buffer) → Type 0
  AreChosen xs (ok bs) = Chosen xs bs
  AreChosen xs (throw e) = ⊥
  AreChosen xs fault = ⊥

  one_more :
      (x : ℕ) (xs : List ℕ) (r : Result Buffer) (rs : Result (List Buffer))
      → Found x r
      → AreChosen xs rs
      → AreChosen (x ∷ xs) (r >>= λ b. rs >>= λ bs. ok (b ∷ bs))
  one_more x xs (ok b) (ok bs) (h, q, r) (q', hs, l, rs) =
      (ap₂ ◌∷◌ q q', (h, hs), ap suc l, (r, rs))
  one_more x xs (throw e) rs h hs = h
  one_more x xs fault rs h hs = h
  one_more x xs (ok b) (throw e) h hs = hs
  one_more x xs (ok b) fault h hs = hs

  pub real_inputs-AreChosen :
      (inputs : List (Option Buffer)) (xs : List ℕ)
      → AllCarry 0 inputs
      → AllIn xs (get_valid_indexes 0 inputs)
      → AreChosen xs (real_inputs inputs xs)
  unfolding real_inputs
  real_inputs-AreChosen inputs [] h m = (refl, tt, refl, tt)
  real_inputs-AreChosen inputs (x ∷ xs) h (m, ms) =
      one_more x xs (input_at inputs x) (real_inputs inputs xs)
        (found 0 x x inputs h m (omega arith)) (real_inputs-AreChosen inputs xs h ms)
