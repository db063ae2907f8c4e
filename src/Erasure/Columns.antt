-- ===== src/Erasure/Columns.antt =====
-- Vectors that are zero, or a unit, up to a column.
use libhdfs.Prelude.{
  ℕ, zero, suc, ◌<◌, ◌≡◌, refl, ◌∙◌, sym, ap, ap₂, arith, ◌==◌, if◌then◌else◌, false, List, [], ◌∷◌,
  ◌++◌, length, replicate,
}
use libhdfs.Erasure.Field.{Field}
use libhdfs.Erasure.Matrix.{at}
use libhdfs.Erasure.Vectors.{dot, dot-nil, zero_mul, mul_zero, zero_add}

module _ (f : Field) where
  open f use {F, zero_f, one_f, add, mul, add_zero, add_assoc, add_comm, mul_comm, one_mul}

  abbrev pub delta : ℕ → ℕ → F
  delta j c = if j == c then one_f else zero_f

  abbrev tail : List F → List F
  tail [] = []
  tail (x ∷ xs) = xs

  at-tail : (x : List F) (c : ℕ) → at f (tail x) c ≡ at f x (suc c)
  at-tail [] c = refl
  at-tail (x ∷ xs) c = refl

  dot_head :
      (x : List F) (w : F) (ws : List F)
      → dot f x (w ∷ ws) ≡ add (mul (at f x zero) w) (dot f (tail x) ws)
  dot_head [] w ws = sym (ap₂ add (zero_mul f w) refl ∙ add_zero zero_f)
  dot_head (x ∷ xs) w ws = refl

  pub dot_zero_columns :
      (x v : List F) → ((c : ℕ) → c < length v → at f x c ≡ zero_f) → dot f x v ≡ zero_f
  dot_zero_columns x [] h = dot-nil f x
  dot_zero_columns x (w ∷ ws) h =
      dot_head x w ws
      ∙ ap₂ add (ap (λ t. mul t w) (h zero (omega arith)) ∙ zero_mul f w)
          (dot_zero_columns (tail x) ws (λ c l. at-tail x c ∙ h (suc c) (omega arith)))
      ∙ add_zero zero_f

  delta_next : (j c : ℕ) → delta (suc j) (suc c) ≡ delta j c
  delta_next j c = let e : (suc j == suc c) ≡ (j == c) = ground arith in rw e refl

  -- A row that is a unit up to the length of a vector picks out an entry.
  pub dot_unit_columns :
      (x v : List F) (j : ℕ)
      → ((c : ℕ) → c < length v → at f x c ≡ delta j c)
      → dot f x v ≡ at f v j
  dot_unit_columns x [] j h = dot-nil f x
  dot_unit_columns x (w ∷ ws) zero h =
      dot_head x w ws
      ∙ ap₂ add (ap (λ t. mul t w) (h zero (omega arith)) ∙ one_mul w)
          (dot_zero_columns (tail x) ws (λ c l. at-tail x c ∙ h (suc c) (omega arith) ∙ later c))
      ∙ add_zero w
    where
      later : (c : ℕ) → delta zero (suc c) ≡ zero_f
      later c = let e : (0 == suc c) ≡ false = ground arith in rw e refl
  dot_unit_columns x (w ∷ ws) (suc j) h =
      dot_head x w ws
      ∙ ap₂ add (ap (λ t. mul t w) (h zero (omega arith) ∙ first) ∙ zero_mul f w) (
          dot_unit_columns (tail x) ws j
            (λ c l. at-tail x c ∙ h (suc c) (omega arith) ∙ delta_next j c))
      ∙ zero_add f (at f ws j)
    where
      first : delta (suc j) zero ≡ zero_f
      first = let e : (suc j == 0) ≡ false = ground arith in rw e refl

  dot_zeros_right : (x : List F) (m : ℕ) → dot f x (replicate m zero_f) ≡ zero_f
  dot_zeros_right x zero = dot-nil f x
  dot_zeros_right [] (suc m) = refl
  dot_zeros_right (x ∷ xs) (suc m) = ap₂ add (mul_zero f x) (dot_zeros_right xs m) ∙ add_zero zero_f

  -- A vector that ends in 1 and zeros.
  pub dot_ending :
      (x v : List F) (m : ℕ)
      → dot f x (v ++ (one_f ∷ replicate m zero_f)) ≡ add (dot f x v) (at f x (length v))
  dot_ending [] [] m = sym (add_zero zero_f)
  dot_ending [] (w ∷ ws) m = sym (add_zero zero_f)
  dot_ending (x ∷ xs) [] m =
      ap₂ add (mul_comm x one_f ∙ one_mul x) (dot_zeros_right xs m) ∙ add_comm x zero_f
  dot_ending (x ∷ xs) (w ∷ ws) m =
      ap (add (mul x w)) (dot_ending xs ws m)
      ∙ sym (add_assoc (mul x w) (dot f xs ws) (at f xs (length ws)))
