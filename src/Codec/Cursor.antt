-- ===== src/Codec/Cursor.antt =====
-- Reading and writing at a known place of the buffer.
use libhdfs.Prelude.{
  ℕ, zero, suc, ◌+◌, ◌-◌, ◌*◌, ◌/◌, ◌%◌, ◌^◌, ◌≤◌, ◌<◌, ◌≡◌, refl, sym, subst, ap, ap₂, ◌∙◌, arith,
  ltb, true, false, List, [], ◌∷◌, ◌++◌, length, length-append, get_elem?, set, some, ok,
}
use mathlib.Core.List.{append_assoc, append-nil}
use libhdfs.Prelude.Int.{ℤ, pos}
use libhdfs.Bytes.{blit_at, slice_at}
use libhdfs.Codec.Writable.{
  WritableUtils, byte_of, read_byte, write_byte, read_bytes, write_bytes, read_raw, write_raw,
}
use libhdfs.Codec.Digits.{digits, next_digit, pow_pos}
use native.Mathlib.Nat.{pow-suc}

-- A buffer with the bytes `done` behind the position and `rest` before it.
abbrev pub at : List ℕ → List ℕ → WritableUtils
at done rest = record { buffer = done ++ rest; current = length done }

abbrev pub placed : List ℕ → ℕ → WritableUtils
placed buffer current = record { buffer = buffer; current = current }

get_elem?-append : (xs ys : List ℕ) (y : ℕ) → get_elem? (xs ++ (y ∷ ys)) (length xs) ≡ some y
get_elem?-append [] ys y = refl
get_elem?-append (x ∷ xs) ys y = get_elem?-append xs ys y

set-append : (xs ys : List ℕ) (y v : ℕ) → set (xs ++ (y ∷ ys)) (length xs) v ≡ xs ++ (v ∷ ys)
set-append [] ys y v = refl
set-append (x ∷ xs) ys y v = ap (λ l. x ∷ l) (set-append xs ys y v)

one_more :
    (done rest : List ℕ) (b : ℕ)
    → at (done ++ (b ∷ [])) rest ≡ record { buffer = done ++ (b ∷ rest); current = length done + 1 }
one_more done rest b = ap₂ placed (append_assoc done (b ∷ []) rest) (length-append done (b ∷ []))

pub read_byte-at :
    (done rest : List ℕ) (b : ℕ)
    → read_byte (at done (b ∷ rest)) ≡ ok (b, at (done ++ (b ∷ [])) rest)
unfolding read_byte
read_byte-at done rest b = rw (get_elem?-append done rest b, read_byte, one_more done rest b)

pub write_byte-at :
    (v : ℤ) (done rest : List ℕ) (old : ℕ)
    → write_byte v (at done (old ∷ rest)) ≡ ok (at (done ++ (byte_of v ∷ [])) rest)
unfolding write_byte
write_byte-at v done rest old =
    let n = length-append done (old ∷ rest) in
    let t : ltb (length done) (length (done ++ (old ∷ rest))) ≡ true = ground arith in
    rw (t, set-append done rest old (byte_of v), one_more done rest (byte_of v))

byte_of_low : (n : ℕ) → byte_of (pos (n % 256)) ≡ n % 256
unfolding byte_of
byte_of_low n = omega arith

-- The loop of WriteInt64 puts the low bytes of the number where `room` was.
pub write_bytes-at :
    (k n : ℕ) (done room rest : List ℕ)
    → length room ≡ k
    → write_bytes k n (at done (room ++ rest)) ≡ ok (at (done ++ digits k n) rest)
unfolding write_bytes digits
write_bytes-at zero n done [] rest e = ap (λ d. ok (at d rest)) (sym (append-nil done))
write_bytes-at zero n done (x ∷ room) rest e = absurd (omega arith)
write_bytes-at (suc k) n done [] rest e = absurd (omega arith)
write_bytes-at (suc k) n done (x ∷ room) rest e =
    let b = n / 256 ^ k % 256 in
    rw (write_byte-at (pos b) done (room ++ rest) x, byte_of_low (n / 256 ^ k))
      (write_bytes-at k n (done ++ (b ∷ [])) room rest (omega arith)
        ∙ ap (λ d. ok (at d rest)) (append_assoc done (b ∷ []) (digits k n)))

no_wrap :
    (i b p limit : ℕ)
    → 0 < p
    → b ≤ 255
    → (i + 1) * (p * 256) ≤ limit
    → ((i * 256 + b + 1) * p ≤ limit) × (i * 256 < limit)
no_wrap i b p limit hp hb h =
    let low : b * p ≤ 255 * p = grind arith in let keep : i ≤ i * p = grind arith in omega arith

-- The loop of ReadInt64 over the low bytes of a number, where the 64 bits do not run over.
pub read_bytes-at :
    (k n i : ℕ) (done rest : List ℕ)
    → (i + 1) * 256 ^ k ≤ 2 ^ 64
    → read_bytes k i (at done (digits k n ++ rest))
      ≡ ok (i * 256 ^ k + n % 256 ^ k, at (done ++ digits k n) rest)
unfolding read_bytes digits
read_bytes-at zero n i done rest h =
    ap₂ (λ v d. ok (v, at d rest)) (omega arith) (sym (append-nil done))
read_bytes-at (suc k) n i done rest h =
    let b = n / 256 ^ k % 256 in
    let p = pow-suc 256 k in
    let hp = pow_pos k in
    let hb : b ≤ 255 = omega arith in
    let h' = subst (λ t. (i + 1) * t ≤ 2 ^ 64) p h in
    let (room, wide) = no_wrap i b (256 ^ k) (2 ^ 64) hp hb h' in
    let keep : i * 256 % 2 ^ 64 + b ≡ i * 256 + b = omega arith in
    let value : (i * 256 + b) * 256 ^ k + n % 256 ^ k ≡ i * 256 ^ suc k + n % 256 ^ suc k =
      omega (arith, next_digit k n, ap (λ t. i * t) p) in
    rw (read_byte-at done (digits k n ++ rest) b, keep)
      (read_bytes-at k n (i * 256 + b) (done ++ (b ∷ [])) rest room
        ∙ ap₂ (λ v d. ok (v, at d rest)) value (append_assoc done (b ∷ []) (digits k n)))

-- ReadRaw and WriteRaw at the position.
pub read_raw-at :
    (done bytes rest : List ℕ)
    → read_raw (length bytes) (at done (bytes ++ rest)) ≡ ok (bytes, at (done ++ bytes) rest)
unfolding read_raw
read_raw-at done bytes rest =
    let n = length-append done (bytes ++ rest) in
    let m = length-append bytes rest in
    let t : ltb (length (done ++ (bytes ++ rest)) - length done) (length bytes) ≡ false =
      ground arith in
    rw
      (
        t,
        slice_at (done ++ (bytes ++ rest)) done bytes rest (length done) (length bytes) refl refl
            refl,
      )
      (ap₂ (λ b c. ok (bytes, placed b c)) (sym (append_assoc done bytes rest))
        (sym (length-append done bytes)))

pub write_raw-at :
    (done bytes room rest : List ℕ)
    → length room ≡ length bytes
    → write_raw bytes (at done (room ++ rest)) ≡ ok (length bytes, at (done ++ bytes) rest)
unfolding write_raw
write_raw-at done bytes room rest e =
    let n = length-append done (room ++ rest) in
    let m = length-append room rest in
    let t : ltb (length (done ++ (room ++ rest)) - length done) (length bytes) ≡ false =
      ground arith in
    rw
      (
        t,
        blit_at (done ++ (room ++ rest)) done room bytes rest (length done) refl refl (omega arith),
      )
      (ap₂ (λ b c. ok (length bytes, placed b c)) (sym (append_assoc done bytes rest))
        (sym (length-append done bytes)))
