-- ===== src/Erasure/Recover.antt =====
-- The rows that generateDecodeMatrix of src/client/RawErasureDecoder.cpp makes restore what is erased.
use libhdfs.Prelude.{
  ℕ, zero, suc, ◌+◌, ◌≤◌, ◌<◌, ◌≡◌, refl, ◌∙◌, sym, ap, ap₂, arith, List, [], ◌∷◌, map, range,
  length, get_or, ok,
}
use libhdfs.Erasure.Field.{Field}
use libhdfs.Erasure.Matrix.{at}
use libhdfs.Erasure.Vectors.{dot, mul_zero, zero_mul, zero_add, add_mul, exchange}
use libhdfs.Erasure.Tracked.{images}
use libhdfs.Erasure.Decode.{row_at, rows_at, sum_products, parity_row}

pub shifted_range {ℓ} :
    {A : Type ℓ} (g : ℕ → A) (a n : ℕ) → map g (range (a + 1) n) ≡ map (λ i. g (suc i)) (range a n)
shifted_range g a zero = refl
shifted_range g a (suc n) =
    let e : a + 1 ≡ suc a = omega arith in ap₂ ◌∷◌ (ap g e) (shifted_range g (a + 1) n)

-- Numbers below a bound.
abbrev pub AllBelow : ℕ → List ℕ → Type 0
AllBelow n [] = Unit
AllBelow n (i ∷ is) = (i < n) × AllBelow n is

module _ (f : Field) where
  open f use {F, zero_f, add, mul, add_zero, add_assoc, mul_add, mul_comm, mul_assoc}

  dot_added :
      (g : ℕ → F) (r : List F) (c : F) (a n : ℕ) (v : List F)
      → dot f (map (λ i. add (g i) (mul (at f r i) c)) (range a n)) v
        ≡ add (dot f (map g (range a n)) v) (mul c (dot f (map (at f r) (range a n)) v))
  dot_added g r c a zero v = sym (ap (add zero_f) (mul_zero f c) ∙ add_zero zero_f)
  dot_added g r c a (suc n) [] = sym (ap (add zero_f) (mul_zero f c) ∙ add_zero zero_f)
  dot_added g r c a (suc n) (y ∷ ys) =
      ap₂ add
        (add_mul f (g a) (mul (at f r a) c) y
          ∙ ap (add (mul (g a) y))
              (ap (λ t. mul t y) (mul_comm (at f r a) c) ∙ mul_assoc c (at f r a) y))
        (dot_added g r c (a + 1) n ys)
      ∙ exchange f (mul (g a) y) (mul c (mul (at f r a) y)) (dot f (map g (range (a + 1) n)) ys)
          (mul c (dot f (map (at f r) (range (a + 1) n)) ys))
      ∙ ap (add (add (mul (g a) y) (dot f (map g (range (a + 1) n)) ys)))
          (sym (mul_add c (mul (at f r a) y) (dot f (map (at f r) (range (a + 1) n)) ys)))

  dot_nothing : (a n : ℕ) (v : List F) → dot f (map (λ _. zero_f) (range a n)) v ≡ zero_f
  dot_nothing a zero v = refl
  dot_nothing a (suc n) [] = refl
  dot_nothing a (suc n) (y ∷ ys) =
      ap₂ add (zero_mul f y) (dot_nothing (a + 1) n ys) ∙ add_zero zero_f

  -- A row is the list of its entries.
  dot_entries :
      (r : List F) (n : ℕ) (v : List F)
      → length v ≤ n
      → dot f (map (at f r) (range 0 n)) v ≡ dot f r v
  dot_entries [] n v h = dot_nothing 0 n v
  dot_entries (x ∷ xs) zero [] h = refl
  dot_entries (x ∷ xs) zero (y ∷ ys) h = absurd (omega arith)
  dot_entries (x ∷ xs) (suc n) [] h = refl
  dot_entries (x ∷ xs) (suc n) (y ∷ ys) h =
      ap (add (mul x y)) (
        ap (λ t. dot f t ys) (shifted_range (at f (x ∷ xs)) 0 n)
        ∙ dot_entries xs n ys (omega arith))

  dot-sum_products :
      (e : List F) (rs : List (List F)) (g : ℕ → F) (n : ℕ) (v : List F)
      → length v ≤ n
      → dot f (map (λ i. sum_products f i e rs (g i)) (range 0 n)) v
        ≡ add (dot f (map g (range 0 n)) v) (dot f e (images f rs v))
  unfolding sum_products
  dot-sum_products [] rs g n v h = sym (add_zero (dot f (map g (range 0 n)) v))
  dot-sum_products (e ∷ es) [] g n v h = sym (add_zero (dot f (map g (range 0 n)) v))
  dot-sum_products (e ∷ es) (r ∷ rs) g n v h =
      dot-sum_products es rs (λ i. add (g i) (mul (at f r i) e)) n v h
      ∙ ap (λ t. add t (dot f es (images f rs v)))
          (dot_added g r e 0 n v
            ∙ ap (λ t. add (dot f (map g (range 0 n)) v) (mul e t)) (dot_entries r n v h))
      ∙ add_assoc (dot f (map g (range 0 n)) v) (mul e (dot f r v)) (dot f es (images f rs v))

  -- A parity row of the decode matrix is the row of the encode matrix times the inverse.
  pub dot-parity_row :
      (k : ℕ) (inverse : List (List F)) (e v : List F)
      → length v ≤ k
      → dot f (parity_row f k inverse e) v ≡ dot f e (images f inverse v)
  dot-parity_row k inverse e v h =
      dot-sum_products e inverse (λ _. zero_f) k v h
      ∙ ap (λ t. add t (dot f e (images f inverse v))) (dot_nothing 0 k v)
      ∙ zero_add f (dot f e (images f inverse v))

  abbrev pub row : List (List F) → ℕ → List F
  row m i = get_or m i []

  row_at-row : (m : List (List F)) (i : ℕ) → i < length m → row_at f m i ≡ ok (row m i)
  unfolding row_at
  row_at-row [] i h = absurd (omega arith)
  row_at-row (r ∷ rs) zero h = refl
  row_at-row (r ∷ rs) (suc i) h = row_at-row rs i (omega arith)

  pub rows_at-map :
      (m : List (List F)) (is : List ℕ)
      → AllBelow (length m) is
      → rows_at f m is ≡ ok (map (row m) is)
  unfolding rows_at
  rows_at-map m [] h = refl
  rows_at-map m (i ∷ is) (h, hs) = rw (rows_at, row_at-row m i h, rows_at-map m is hs) refl
