-- ===== src/Erasure/Vectors.antt =====
-- Sums of products over a field, and what the row operations of gfInvertMatrix do to them.
use libhdfs.Prelude.{
  ℕ, zero, suc, ◌<◌, ◌≡◌, refl, ◌∙◌, sym, ap, ap₂, arith, List, [], ◌∷◌, length, length-replicate,
  replicate,
}
use libhdfs.Erasure.Field.{Field}
use libhdfs.Erasure.Matrix.{at, unit_row, scale, add_multiple}

module _ (f : Field) where
  open f use {
    F, zero_f, one_f, add, mul, inv, is_zero, add_zero, add_comm, add_assoc, add_self, mul_comm,
    mul_assoc, one_mul, mul_add,
  }

  abbrev pub dot : List F → List F → F
  dot [] ys = zero_f
  dot (x ∷ xs) [] = zero_f
  dot (x ∷ xs) (y ∷ ys) = add (mul x y) (dot xs ys)

  pub mul_zero : (a : F) → mul a zero_f ≡ zero_f
  mul_zero a = ap (mul a) (sym (add_self one_f)) ∙ mul_add a one_f one_f ∙ add_self (mul a one_f)

  pub zero_mul : (a : F) → mul zero_f a ≡ zero_f
  zero_mul a = mul_comm zero_f a ∙ mul_zero a

  pub zero_add : (a : F) → add zero_f a ≡ a
  zero_add a = add_comm zero_f a ∙ add_zero a

  pub add_mul : (a b c : F) → mul (add a b) c ≡ add (mul a c) (mul b c)
  add_mul a b c = mul_comm (add a b) c ∙ mul_add c a b ∙ ap₂ add (mul_comm c a) (mul_comm c b)

  -- (a + b) + (c + d) with the middle two exchanged.
  pub exchange : (a b c d : F) → add (add a b) (add c d) ≡ add (add a c) (add b d)
  exchange a b c d =
      add_assoc a b (add c d)
      ∙ ap (add a) (sym (add_assoc b c d) ∙ ap (λ t. add t d) (add_comm b c) ∙ add_assoc c b d)
      ∙ sym (add_assoc a c (add b d))

  pub dot-nil : (xs : List F) → dot xs [] ≡ zero_f
  dot-nil [] = refl
  dot-nil (x ∷ xs) = refl

  pub dot-scale : (t : F) (xs ys : List F) → dot (scale f t xs) ys ≡ mul (dot xs ys) t
  unfolding scale
  dot-scale t [] ys = sym (zero_mul t)
  dot-scale t (x ∷ xs) [] = sym (zero_mul t)
  dot-scale t (x ∷ xs) (y ∷ ys) =
      ap₂ add (mul_assoc x t y ∙ ap (mul x) (mul_comm t y) ∙ sym (mul_assoc x y t))
        (dot-scale t xs ys)
      ∙ sym (add_mul (mul x y) (dot xs ys) t)

  pub dot-add_multiple :
      (t : F) (xs ps ys : List F)
      → length xs ≡ length ps
      → dot (add_multiple f t xs ps) ys ≡ add (dot xs ys) (mul t (dot ps ys))
  unfolding add_multiple
  dot-add_multiple t [] [] ys e = sym (ap (add zero_f) (mul_zero t) ∙ add_zero zero_f)
  dot-add_multiple t [] (p ∷ ps) ys e = absurd (omega arith)
  dot-add_multiple t (x ∷ xs) [] ys e = absurd (omega arith)
  dot-add_multiple t (x ∷ xs) (p ∷ ps) [] e = sym (ap (add zero_f) (mul_zero t) ∙ add_zero zero_f)
  dot-add_multiple t (x ∷ xs) (p ∷ ps) (y ∷ ys) e =
      ap₂ add (add_mul x (mul t p) y ∙ ap (add (mul x y)) (mul_assoc t p y))
        (dot-add_multiple t xs ps ys (omega arith))
      ∙ exchange (mul x y) (mul t (mul p y)) (dot xs ys) (mul t (dot ps ys))
      ∙ ap (add (add (mul x y) (dot xs ys))) (sym (mul_add t (mul p y) (dot ps ys)))

  pub dot-zeros : (n : ℕ) (ys : List F) → dot (replicate n zero_f) ys ≡ zero_f
  dot-zeros zero ys = refl
  dot-zeros (suc n) [] = refl
  dot-zeros (suc n) (y ∷ ys) = ap₂ add (zero_mul y) (dot-zeros n ys) ∙ add_zero zero_f

  pub dot-unit_row : (n i : ℕ) (ys : List F) → i < n → dot (unit_row f n i) ys ≡ at f ys i
  unfolding unit_row
  dot-unit_row zero i ys h = absurd (omega arith)
  dot-unit_row (suc n) zero [] h = refl
  dot-unit_row (suc n) (suc i) [] h = refl
  dot-unit_row (suc n) zero (y ∷ ys) h = ap₂ add (one_mul y) (dot-zeros n ys) ∙ add_zero y
  dot-unit_row (suc n) (suc i) (y ∷ ys) h =
      ap₂ add (zero_mul y) (dot-unit_row n i ys (omega arith)) ∙ zero_add (at f ys i)

  pub at-scale : (t : F) (xs : List F) (k : ℕ) → at f (scale f t xs) k ≡ mul (at f xs k) t
  unfolding scale
  at-scale t [] k = sym (zero_mul t)
  at-scale t (x ∷ xs) zero = refl
  at-scale t (x ∷ xs) (suc k) = at-scale t xs k

  pub at-add_multiple :
      (t : F) (xs ps : List F) (k : ℕ)
      → length xs ≡ length ps
      → at f (add_multiple f t xs ps) k ≡ add (at f xs k) (mul t (at f ps k))
  unfolding add_multiple
  at-add_multiple t [] [] k e = sym (ap (add zero_f) (mul_zero t) ∙ add_zero zero_f)
  at-add_multiple t [] (p ∷ ps) k e = absurd (omega arith)
  at-add_multiple t (x ∷ xs) [] k e = absurd (omega arith)
  at-add_multiple t (x ∷ xs) (p ∷ ps) zero e = refl
  at-add_multiple t (x ∷ xs) (p ∷ ps) (suc k) e = at-add_multiple t xs ps k (omega arith)

  pub length-scale : (t : F) (xs : List F) → length (scale f t xs) ≡ length xs
  unfolding scale
  length-scale t [] = refl
  length-scale t (x ∷ xs) = ap suc (length-scale t xs)

  pub length-add_multiple : (t : F) (xs ps : List F) → length (add_multiple f t xs ps) ≡ length xs
  unfolding add_multiple
  length-add_multiple t [] ps = refl
  length-add_multiple t (x ∷ xs) [] = refl
  length-add_multiple t (x ∷ xs) (p ∷ ps) = ap suc (length-add_multiple t xs ps)

  pub length-unit_row : (n i : ℕ) → length (unit_row f n i) ≡ n
  unfolding unit_row
  length-unit_row zero i = refl
  length-unit_row (suc n) zero = ap suc (length-replicate n zero_f)
  length-unit_row (suc n) (suc i) = ap suc (length-unit_row n i)
