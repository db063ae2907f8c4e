-- ===== src/Bytes.antt =====
-- Byte buffers: `memcpy` into and out of a buffer, and the big-endian integers of
-- src/common/BigEndian.h. A byte is a number below 256.
pub mod BigEndian
mod Bits
pub mod Xor
pub mod Or
use libhdfs.Prelude.{
  ℕ, zero, suc, ◌+◌, ◌-◌, ◌≤◌, ◌≡◌, refl, ap, sym, ◌∙◌, arith, leb, if◌then◌else◌, List, [], ◌∷◌,
  ◌++◌, length, take, drop, length-append, length-take, length-drop, Result, ok, fault, Bool-cases,
  inl, inr, true, min,
}

module _ {ℓ} {A : Type ℓ} where
  -- `memcpy(buffer + pos, bytes, …)`; past the end of the buffer it is undefined.
  unfoldable pub blit : List A → ℕ → List A → Result (List A)
  blit buffer pos bytes =
      if leb (pos + length bytes) (length buffer)
      then ok (take pos buffer ++ (bytes ++ drop (pos + length bytes) buffer))
      else fault

  -- `memcpy(…, buffer + pos, size)`
  unfoldable pub slice : List A → ℕ → ℕ → Result (List A)
  slice buffer pos size =
      if leb (pos + size) (length buffer) then ok (take size (drop pos buffer)) else fault

  pub take-length : (n : ℕ) (xs ys : List A) → n ≡ length xs → take n (xs ++ ys) ≡ xs
  take-length zero [] ys e = refl
  take-length zero (x ∷ xs) ys e = absurd (omega arith)
  take-length (suc n) [] ys e = absurd (omega arith)
  take-length (suc n) (x ∷ xs) ys e = ap (λ l. x ∷ l) (take-length n xs ys (omega arith))

  pub drop-length : (n : ℕ) (xs ys : List A) → n ≡ length xs → drop n (xs ++ ys) ≡ ys
  drop-length zero [] ys e = refl
  drop-length zero (x ∷ xs) ys e = absurd (omega arith)
  drop-length (suc n) [] ys e = absurd (omega arith)
  drop-length (suc n) (x ∷ xs) ys e = drop-length n xs ys (omega arith)

  drop-nil : (n : ℕ) → drop {A = A} n [] ≡ []
  drop-nil zero = refl
  drop-nil (suc n) = refl

  pub drop-add : (n m : ℕ) (xs : List A) → drop (n + m) xs ≡ drop m (drop n xs)
  drop-add zero m xs = let e : 0 + m ≡ m = omega arith in rw e
  drop-add (suc n) m [] = drop-nil (suc n + m) ∙ sym (drop-nil m)
  drop-add (suc n) m (x ∷ xs) =
      let e : suc n + m ≡ suc (n + m) = omega arith in rw e (drop-add n m xs)

module _ {ℓ} {A : Type ℓ} where
  -- A buffer in three parts: the middle one is overwritten, and read.
  pub blit_part :
      (front old new back : List A) (pos : ℕ)
      → pos ≡ length front
      → length new ≡ length old
      → blit (front ++ (old ++ back)) pos new ≡ ok (front ++ (new ++ back))
  unfolding blit
  blit_part front old new back pos e el =
      let total = length-append front (old ++ back) in
      let rest = length-append old back in
      let t : leb (pos + length new) (length (front ++ (old ++ back))) ≡ true = ground arith in
      rw (
        t,
        drop-add pos (length new) (front ++ (old ++ back)),
        take-length pos front (old ++ back) e,
        drop-length pos front (old ++ back) e,
        drop-length (length new) old back el,
      )

  pub slice_part :
      (front part back : List A) (pos size : ℕ)
      → pos ≡ length front
      → size ≡ length part
      → slice (front ++ (part ++ back)) pos size ≡ ok part
  unfolding slice
  slice_part front part back pos size e el =
      let total = length-append front (part ++ back) in
      let rest = length-append part back in
      let t : leb (pos + size) (length (front ++ (part ++ back))) ≡ true = ground arith in
      rw (t, drop-length pos front (part ++ back) e, take-length size part back el)

module _ {ℓ} {A : Type ℓ} where
  -- The same, for a buffer that is known to have the parts.
  pub blit_at :
      (buffer front old new back : List A) (pos : ℕ)
      → buffer ≡ front ++ (old ++ back)
      → pos ≡ length front
      → length new ≡ length old
      → blit buffer pos new ≡ ok (front ++ (new ++ back))
  blit_at buffer front old new back pos parts e el =
      rw parts (blit_part front old new back pos e el)

  pub slice_at :
      (buffer front part back : List A) (pos size : ℕ)
      → buffer ≡ front ++ (part ++ back)
      → pos ≡ length front
      → size ≡ length part
      → slice buffer pos size ≡ ok part
  slice_at buffer front part back pos size parts e el =
      rw parts (slice_part front part back pos size e el)
