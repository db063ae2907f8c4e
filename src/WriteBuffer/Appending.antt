-- ===== src/WriteBuffer/Appending.antt =====
-- What the writes of a WriteBuffer put where, and when the next write's assertion fails.
use libhdfs.Prelude.{
  ℕ, zero, suc, ◌+◌, ◌-◌, ◌*◌, ◌<◌, ◌≤◌, ◌≡◌, refl, ◌∙◌, sym, ap, arith, ltb, leb, ◌&&◌, true,
  false, inl, inr, Bool-cases, List, [], ◌∷◌, ◌++◌, length, take, drop, replicate, length-append,
  length-take, length-drop, length-replicate, ok, fault,
}
use mathlib.Core.List.{append_assoc}
use libhdfs.Bytes.{blit, take-length}
use libhdfs.WriteBuffer.{WriteBuffer, resize, grown, alloc, copy_to, write, append}

-- The data that has been written.
abbrev pub data_of : WriteBuffer → List ℕ
data_of b = take b.size b.buffer

abbrev pub IsValid : WriteBuffer → Type 0
IsValid b = b.size ≤ length b.buffer

take-append_front : (n : ℕ) (xs ys : List ℕ) → n ≤ length xs → take n (xs ++ ys) ≡ take n xs
take-append_front zero xs ys h = refl
take-append_front (suc n) [] ys h = absurd (omega arith)
take-append_front (suc n) (x ∷ xs) ys h = ap (λ r. x ∷ r) (take-append_front n xs ys (omega arith))

take-take : (n m : ℕ) (xs : List ℕ) → n ≤ m → take n (take m xs) ≡ take n xs
take-take zero m xs h = refl
take-take (suc n) zero xs h = absurd (omega arith)
take-take (suc n) (suc m) [] h = refl
take-take (suc n) (suc m) (x ∷ xs) h = ap (λ r. x ∷ r) (take-take n m xs (omega arith))

length-resize : (n : ℕ) (buffer : List ℕ) → length (resize n buffer) ≡ n
unfolding resize
length-resize n buffer = omega (
  arith,
  length-append (take n buffer) (replicate (n - length buffer) 0),
  length-take n buffer,
  length-replicate {A = ℕ} (n - length buffer) 0,
)

length-grown :
    (target : ℕ) (buffer : List ℕ)
    → (target ≤ length (grown target buffer))
      × (2 * length buffer < target → length (grown target buffer) ≡ target)
unfolding grown
length-grown target buffer = elim (Bool-cases (leb (length buffer) target)) [
  | inl t ↦ elim (Bool-cases (ltb (2 * length buffer) target)) [
    | inl u ↦ let l = length-resize target buffer in rw (t, u) (omega arith, λ h. l)
    | inr u ↦
        let l = length-resize (2 * length buffer) buffer in
        rw (t, u) (ground arith, λ h. absurd (ground arith))
  ]
  | inr t ↦ rw t (ground arith, λ h. absurd (ground arith))
]

take-resize :
    (k n : ℕ) (buffer : List ℕ)
    → k ≤ n
    → k ≤ length buffer
    → take k (resize n buffer) ≡ take k buffer
unfolding resize
take-resize k n buffer h l =
    take-append_front k (take n buffer) (replicate (n - length buffer) 0)
      (omega (arith, length-take n buffer))
    ∙ take-take k n buffer h

take-grown :
    (k target : ℕ) (buffer : List ℕ)
    → k ≤ target
    → k ≤ length buffer
    → take k (grown target buffer) ≡ take k buffer
unfolding grown
take-grown k target buffer h l = elim (Bool-cases (leb (length buffer) target)) [
  | inl t ↦ elim (Bool-cases (ltb (2 * length buffer) target)) [
    | inl u ↦ rw (t, u) (take-resize k target buffer h l)
    | inr u ↦ rw (t, u) (take-resize k (2 * length buffer) buffer (ground arith) l)
  ]
  | inr t ↦ rw t refl
]

-- The buffer that a write leaves.
abbrev after_write : List ℕ → WriteBuffer → WriteBuffer
after_write bytes b =
    let g = grown (b.size + length bytes) b.buffer in
    record {
      size = b.size + length bytes;
      buffer = take b.size g ++ (bytes ++ drop (b.size + length bytes) g);
    }

write-after_write :
    (bytes : List ℕ) (pos : ℕ) (b : WriteBuffer)
    → IsValid b
    → pos ≤ b.size
    → pos < length b.buffer
    → write bytes pos b ≡ ok (after_write bytes b)
unfolding write alloc copy_to blit
write-after_write bytes pos b v h k =
    let room = (length-grown (b.size + length bytes) b.buffer).0 in
    let s : (leb pos b.size && ltb pos (length b.buffer)) ≡ true = ground arith in
    let t : (leb b.size b.size && leb b.size (length b.buffer)) ≡ true = ground arith in
    let u : ltb b.size b.size ≡ false = ground arith in
    let w : leb (b.size + length bytes) (length (grown (b.size + length bytes) b.buffer)) ≡ true =
      ground arith in
    rw (s, t, u, w) refl

length-after_write :
    (bytes : List ℕ) (b : WriteBuffer)
    → length (after_write bytes b).buffer ≡ length (grown (b.size + length bytes) b.buffer)
length-after_write bytes b =
    let n = b.size + length bytes in
    let g = grown n b.buffer in
    let room = (length-grown n b.buffer).0 in
    omega (
      arith,
      length-append (take b.size g) (bytes ++ drop n g),
      length-append bytes (drop n g),
      length-take b.size g,
      length-drop n g,
    )

-- The documentation of write says that the data behind the given position is overwritten; the code
-- does not do so. A write at a position that its assertion allows puts the bytes behind all the data
-- that is there, whatever the position, and overwrites nothing.
pub write-data_of :
    (bytes : List ℕ) (pos : ℕ) (b : WriteBuffer)
    → IsValid b
    → pos ≤ b.size
    → pos < length b.buffer
    → (b' : WriteBuffer) × (write bytes pos b ≡ ok b')
      × IsValid b'
      × (data_of b' ≡ data_of b ++ bytes)
write-data_of bytes pos b v h k =
    let n = b.size + length bytes in
    let g = grown n b.buffer in
    let room = (length-grown n b.buffer).0 in
    let l = length-after_write bytes b in
    let front = length-take b.size g in
    let same : (take b.size g ++ bytes) ++ drop n g ≡ take b.size g ++ (bytes ++ drop n g) =
      append_assoc (take b.size g) bytes (drop n g) in
    (
      after_write bytes b,
      write-after_write bytes pos b v h k,
      omega arith,
      ap (take n) (sym same)
          ∙ take-length n (take b.size g ++ bytes) (drop n g)
              (omega (arith, length-append (take b.size g) bytes))
          ∙ ap (λ r. r ++ bytes) (take-grown b.size n b.buffer (omega arith) v),
    )

-- A write of more than twice the buffer's length behind the data fills the new buffer to its end, and
-- the next write at the end fails its assertion.
pub append-append_fault :
    (bytes more : List ℕ) (b : WriteBuffer)
    → b.size < length b.buffer
    → 2 * length b.buffer < b.size + length bytes
    → (b' : WriteBuffer) × (append bytes b ≡ ok b') × (append more b' ≡ fault)
unfolding append
append-append_fault bytes more b v h =
    let l = length-after_write bytes b in
    let full = (length-grown (b.size + length bytes) b.buffer).1 h in
    let b' = after_write bytes b in
    let s : (leb b'.size b'.size && ltb b'.size (length b'.buffer)) ≡ false = ground arith in
    (b', write-after_write bytes b.size b (omega arith) (omega arith) v, unfold write in rw s refl)
