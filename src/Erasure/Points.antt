-- ===== src/Erasure/Points.antt =====
-- The indexes of the units as the points of the Cauchy matrix of src/client/RSUtil.cpp.
use libhdfs.Prelude.{
  ℕ, zero, suc, ◌+◌, ◌%◌, ◌≤◌, ◌<◌, ◌≡◌, ◌≢◌, refl, ◌∙◌, sym, ap, ap₂, arith, ◌==◌, ==_iff,
  if◌then◌else◌, false, Bool-cases, ◌⊎◌, inl, inr, List, [], ◌∷◌, map, range, length,
}
use Prim.Native.Nat.{bit_xor}
use libhdfs.Bytes.Xor.{xor_assoc, xor_self, xor-zero, zero-xor, xor-lt}
use libhdfs.Erasure.Field.{Byte, byte_eq, gf256}
use libhdfs.Erasure.Matrix.{at}
use libhdfs.Erasure.Vectors.{dot, mul_zero, zero_add}
use libhdfs.Erasure.Decode.{to_byte, cauchy_row}
use libhdfs.Erasure.Recover.{AllBelow, shifted_range}
use libhdfs.Erasure.Kernel.{cauchy_sum, Apart, Distinct}

point_of : (p : ℕ) → p < 256 → (to_byte p).0 ≡ p
point_of p h = omega arith

xor_of_different : (p j : ℕ) → p ≢ j → bit_xor p j ≢ 0
xor_of_different p j d e = d (
    sym (xor-zero p)
    ∙ ap (bit_xor p) (sym (xor_self j))
    ∙ sym (xor_assoc p j j)
    ∙ ap (λ t. bit_xor t j) e
    ∙ zero-xor j)

-- Different indexes are different points.
pub points_apart :
    (p j : ℕ)
    → p < 256
    → j < 256
    → p ≢ j
    → gf256.is_zero (gf256.add (to_byte p) (to_byte j)) ≡ false
points_apart p j h k d =
    let e : (p % 256) ≡ p = omega arith in
    let e' : (j % 256) ≡ j = omega arith in
    let n = xor_of_different p j d in rw (e, e') (ground arith)

pub cauchy_entry :
    (p j : ℕ)
    → p < 256
    → j < 256
    → gf256.inv (to_byte (bit_xor p j)) ≡ gf256.inv (gf256.add (to_byte p) (to_byte j))
cauchy_entry p j h k =
    let e : (p % 256) ≡ p = omega arith in
    let e' : (j % 256) ≡ j = omega arith in
    let small = xor-lt 8 p j h k in
    let e'' : bit_xor p j % 256 ≡ bit_xor p j = omega arith in
    ap gf256.inv (
      byte_eq (to_byte (bit_xor p j)) (gf256.add (to_byte p) (to_byte j))
        (e'' ∙ sym (ap₂ bit_xor e e')))

-- Columns, with one of them taken out.
abbrev pub removed : ℕ → List ℕ → List ℕ
removed x [] = []
removed x (c ∷ cs) = if c == x then cs else c ∷ removed x cs

abbrev pub In : ℕ → List ℕ → Type 0
In x [] = ⊥
In x (c ∷ cs) = (c ≡ x) ⊎ In x cs

pub length-removed : (x : ℕ) (cs : List ℕ) → In x cs → suc (length (removed x cs)) ≡ length cs
length-removed x [] h = elim h [ ]
length-removed x (c ∷ cs) h = elim (Bool-cases (c == x)) [
  | inl e ↦ rw e refl
  | inr e ↦ elim h [ inl q ↦ absurd (ground arith) | inr q ↦ rw e (ap suc (length-removed x cs q)) ]
]

pub removed-In : (x y : ℕ) (cs : List ℕ) → x ≢ y → In y cs → In y (removed x cs)
removed-In x y [] d h = h
removed-In x y (c ∷ cs) d h = elim (Bool-cases (c == x)) [
  | inl e ↦ elim h [ inl q ↦ absurd (d (sym ((==_iff c x).0 e) ∙ q)) | inr q ↦ rw e q ]
  | inr e ↦ elim h [ inl q ↦ rw e (inl q) | inr q ↦ rw e (inr (removed-In x y cs d q)) ]
]

abbrev pub points : List ℕ → List Byte
points cs = map to_byte cs

pub removed-Apart :
    (a : Byte) (x : ℕ) (cs : List ℕ)
    → Apart gf256 a (points cs)
    → Apart gf256 a (points (removed x cs))
removed-Apart a x [] h = tt
removed-Apart a x (c ∷ cs) (h, hs) = elim (Bool-cases (c == x)) [
  | inl e ↦ rw e hs
  | inr e ↦ rw e (h, removed-Apart a x cs hs)
]

pub removed-Distinct :
    (x : ℕ) (cs : List ℕ) → Distinct gf256 (points cs) → Distinct gf256 (points (removed x cs))
removed-Distinct x [] h = tt
removed-Distinct x (c ∷ cs) (h, hs) = elim (Bool-cases (c == x)) [
  | inl e ↦ rw e hs
  | inr e ↦ rw e (removed-Apart (to_byte c) x cs h, removed-Distinct x cs hs)
]

-- The sum of row `p` over columns of the vector.
abbrev pub column_sum : List Byte → Byte → List ℕ → Byte
column_sum v p cs = cauchy_sum gf256 p (points cs) (map (at gf256 v) cs)

pub removed-column_sum :
    (v : List Byte) (p : Byte) (x : ℕ) (cs : List ℕ)
    → at gf256 v x ≡ gf256.zero_f
    → column_sum v p (removed x cs) ≡ column_sum v p cs
removed-column_sum v p x [] z = refl
removed-column_sum v p x (c ∷ cs) z = elim (Bool-cases (c == x)) [
  | inl e ↦
      let same : at gf256 v c ≡ gf256.zero_f = ap (at gf256 v) ((==_iff c x).0 e) ∙ z in
      let i = gf256.inv (gf256.add p (to_byte c)) in
      let term : gf256.mul i (at gf256 v c) ≡ gf256.zero_f =
        ap (gf256.mul i) same ∙ mul_zero gf256 i in
      rw e (
        sym (zero_add gf256 (column_sum v p cs))
        ∙ ap (λ t. gf256.add t (column_sum v p cs)) (sym term))
  | inr e ↦ rw e (
      ap (gf256.add (gf256.mul (gf256.inv (gf256.add p (to_byte c))) (at gf256 v c)))
        (removed-column_sum v p x cs z))
]

pub removed-AllBelow : (n x : ℕ) (cs : List ℕ) → AllBelow n cs → AllBelow n (removed x cs)
removed-AllBelow n x [] h = tt
removed-AllBelow n x (c ∷ cs) (h, hs) = elim (Bool-cases (c == x)) [
  | inl e ↦ rw e hs
  | inr e ↦ rw e (h, removed-AllBelow n x cs hs)
]

pub range-AllBelow : (a n m : ℕ) → a + n ≤ m → AllBelow m (range a n)
range-AllBelow a zero m h = tt
range-AllBelow a (suc n) m h = (omega arith, range-AllBelow (a + 1) n m (omega arith))

pub range-In : (a n y : ℕ) → a ≤ y → y < a + n → In y (range a n)
range-In a zero y h k = omega arith
range-In a (suc n) y h k = elim (Bool-cases (a == y)) [
  | inl e ↦ inl (ground arith)
  | inr e ↦ inr (range-In (a + 1) n y (ground arith) (omega arith))
]

range-Apart : (x a n : ℕ) → x < a → a + n ≤ 256 → Apart gf256 (to_byte x) (points (range a n))
range-Apart x a zero h k = tt
range-Apart x a (suc n) h k = (
  points_apart x a (omega arith) (omega arith) (λ e. omega arith),
  range-Apart x (a + 1) n (omega arith) (omega arith),
)

pub range-Distinct : (a n : ℕ) → a + n ≤ 256 → Distinct gf256 (points (range a n))
range-Distinct a zero h = tt
range-Distinct a (suc n) h =
    (range-Apart a (a + 1) n (omega arith) (omega arith), range-Distinct (a + 1) n (omega arith))

entries_of : (v : List Byte) → map (at gf256 v) (range 0 (length v)) ≡ v
entries_of [] = refl
entries_of (x ∷ xs) =
    ap (λ t. x ∷ t) (shifted_range (at gf256 (x ∷ xs)) 0 (length xs) ∙ entries_of xs)

entries_dot :
    (p : ℕ) (v : List Byte) (cs : List ℕ)
    → p < 256
    → AllBelow 256 cs
    → dot gf256 (map (λ j. gf256.inv (to_byte (bit_xor p j))) cs) (map (at gf256 v) cs)
      ≡ column_sum v (to_byte p) cs
entries_dot p v [] h b = refl
entries_dot p v (c ∷ cs) h (b, bs) =
    ap₂ gf256.add (ap (λ t. gf256.mul t (at gf256 v c)) (cauchy_entry p c h b))
      (entries_dot p v cs h bs)

-- A parity row times a vector is a sum over all columns.
pub dot-cauchy_row :
    (k p : ℕ) (v : List Byte)
    → k ≤ 256
    → p < 256
    → length v ≡ k
    → dot gf256 (cauchy_row k p) v ≡ column_sum v (to_byte p) (range 0 k)
dot-cauchy_row k p v h h' l =
    ap (dot gf256 (cauchy_row k p))
      (sym (ap (λ n. map (at gf256 v) (range 0 n)) (sym l) ∙ entries_of v))
    ∙ entries_dot p v (range 0 k) h' (range-AllBelow 0 k 256 (omega arith))
