-- ===== src/Erasure/Kernel.antt =====
-- The Cauchy matrix: a vector on which as many of its rows vanish as it has entries is 0.
use libhdfs.Prelude.{suc, ◌≤◌, ◌≡◌, refl, ◌∙◌, sym, ap, ap₂, arith, false, List, [], ◌∷◌, length}
use libhdfs.Erasure.Field.{Field}
use libhdfs.Erasure.Vectors.{mul_zero, zero_add, add_mul, exchange}

module _ (f : Field) where
  open f use {
    F, zero_f, one_f, add, mul, inv, is_zero, add_zero, add_comm, add_assoc, add_self, mul_comm,
    mul_assoc, one_mul, mul_add, mul_inv,
  }

  mul_left_comm : (a b c : F) → mul a (mul b c) ≡ mul b (mul a c)
  mul_left_comm a b c = sym (mul_assoc a b c) ∙ ap (λ t. mul t c) (mul_comm a b) ∙ mul_assoc b a c

  add_left_comm : (a b c : F) → add a (add b c) ≡ add b (add a c)
  add_left_comm a b c = sym (add_assoc a b c) ∙ ap (λ t. add t c) (add_comm a b) ∙ add_assoc b a c

  add_cancel : (a b : F) → add a (add a b) ≡ b
  add_cancel a b = sym (add_assoc a a b) ∙ ap (λ t. add t b) (add_self a) ∙ zero_add f b

  mul_cancel : (a b : F) → is_zero a ≡ false → mul a b ≡ zero_f → b ≡ zero_f
  mul_cancel a b h e =
      sym (one_mul b)
      ∙ ap (λ t. mul t b) (sym (mul_inv a h) ∙ mul_comm a (inv a))
      ∙ mul_assoc (inv a) a b
      ∙ ap (mul (inv a)) e
      ∙ mul_zero f (inv a)

  inv_cancel : (a b : F) → is_zero a ≡ false → mul (inv a) b ≡ zero_f → b ≡ zero_f
  inv_cancel a b h e =
      sym (one_mul b)
      ∙ ap (λ t. mul t b) (sym (mul_inv a h))
      ∙ mul_assoc a (inv a) b
      ∙ ap (mul a) e
      ∙ mul_zero f a

  cross :
      (x x' y y' : F)
      → add (mul (add x y') (add x' y)) (mul (add x' y') (add x y)) ≡ mul (add x x') (add y y')
  cross x x' y y' = simp (
    mul_add,
    add_mul f,
    mul_comm,
    add_comm,
    add_assoc,
    add_left_comm,
    add_cancel,
    add_self,
    zero_add f,
  )

  -- One entry, after the first column is cleared.
  cleared_entry :
      (x x' y y' v : F)
      → is_zero (add x y) ≡ false
      → is_zero (add x' y) ≡ false
      → add (mul (add x y') (mul (inv (add x y)) v)) (mul (add x' y') (mul (inv (add x' y)) v))
        ≡ mul (add x x') (mul (inv (add x y)) (mul (mul (add y y') (inv (add x' y))) v))
  cleared_entry x x' y y' v h h' =
      let p = inv (add x y) in
      let q = inv (add x' y) in
      let k = mul p (mul q v) in
      let one_p : mul (mul (add x y) p) v ≡ v =
        ap (λ t. mul t v) (mul_inv (add x y) h) ∙ one_mul v in
      let one_q : mul (mul (add x' y) q) v ≡ v =
        ap (λ t. mul t v) (mul_inv (add x' y) h') ∙ one_mul v in
      ap₂ add (ap (λ t. mul (add x y') (mul p t)) (sym one_q) ∙ shuffle (add x y') (add x' y) p q v)
        (ap (λ t. mul (add x' y') (mul q t)) (sym one_p)
          ∙ shuffle (add x' y') (add x y) q p v
          ∙ ap (mul (mul (add x' y') (add x y))) (mul_left_comm q p v))
      ∙ sym (add_mul f (mul (add x y') (add x' y)) (mul (add x' y') (add x y)) k)
      ∙ ap (λ t. mul t k) (cross x x' y y')
      ∙ gather (add x x') (add y y') p q v
    where
      shuffle : (a d p q v : F) → mul a (mul p (mul (mul d q) v)) ≡ mul (mul a d) (mul p (mul q v))
      shuffle a d p q v = simp (mul_comm, mul_assoc, mul_left_comm)

      gather : (s t p q v : F) → mul (mul s t) (mul p (mul q v)) ≡ mul s (mul p (mul (mul t q) v))
      gather s t p q v = simp (mul_comm, mul_assoc, mul_left_comm)

  -- Row `x` of the Cauchy matrix with columns `ys`, times a vector.
  abbrev pub cauchy_sum : F → List F → List F → F
  cauchy_sum x [] vs = zero_f
  cauchy_sum x (y ∷ ys) [] = zero_f
  cauchy_sum x (y ∷ ys) (v ∷ vs) = add (mul (inv (add x y)) v) (cauchy_sum x ys vs)

  -- The point `x` differs from all others.
  abbrev pub Apart : F → List F → Type 0
  Apart x [] = Unit
  Apart x (y ∷ ys) = (is_zero (add x y) ≡ false) × Apart x ys

  abbrev pub AllApart : List F → List F → Type 0
  AllApart [] ys = Unit
  AllApart (x ∷ xs) ys = Apart x ys × AllApart xs ys

  abbrev pub Distinct : List F → Type 0
  Distinct [] = Unit
  Distinct (x ∷ xs) = Apart x xs × Distinct xs

  abbrev pub Vanish : List F → List F → List F → Type 0
  Vanish [] ys vs = Unit
  Vanish (x ∷ xs) ys vs = (cauchy_sum x ys vs ≡ zero_f) × Vanish xs ys vs

  abbrev pub AreZero : List F → Type 0
  AreZero [] = Unit
  AreZero (v ∷ vs) = (v ≡ zero_f) × AreZero vs

  -- The vector of the smaller matrix.
  abbrev reduced : F → F → List F → List F → List F
  reduced x' y' [] vs = []
  reduced x' y' (y ∷ ys) [] = []
  reduced x' y' (y ∷ ys) (v ∷ vs) = mul (mul (add y y') (inv (add x' y))) v ∷ reduced x' y' ys vs

  cleared_sum :
      (x x' y' : F) (ys vs : List F)
      → Apart x ys
      → Apart x' ys
      → add (mul (add x y') (cauchy_sum x ys vs)) (mul (add x' y') (cauchy_sum x' ys vs))
        ≡ mul (add x x') (cauchy_sum x ys (reduced x' y' ys vs))
  cleared_sum x x' y' [] vs h h' = simp (mul_zero f, add_zero)
  cleared_sum x x' y' (y ∷ ys) [] h h' = simp (mul_zero f, add_zero)
  cleared_sum x x' y' (y ∷ ys) (v ∷ vs) (h, hs) (h', hs') =
      let a = add x y' in
      let c = add x' y' in
      let s = cauchy_sum x ys vs in
      let s' = cauchy_sum x' ys vs in
      ap₂ add (mul_add a (mul (inv (add x y)) v) s) (mul_add c (mul (inv (add x' y)) v) s')
      ∙ exchange f (mul a (mul (inv (add x y)) v)) (mul a s) (mul c (mul (inv (add x' y)) v))
          (mul c s')
      ∙ ap₂ add (cleared_entry x x' y y' v h h') (cleared_sum x x' y' ys vs hs hs')
      ∙ sym (
          mul_add (add x x') (mul (inv (add x y)) (mul (mul (add y y') (inv (add x' y))) v))
            (cauchy_sum x ys (reduced x' y' ys vs)))

  -- The first column falls out.
  first_term : (a v s : F) → is_zero a ≡ false → mul a (add (mul (inv a) v) s) ≡ add v (mul a s)
  first_term a v s h =
      mul_add a (mul (inv a) v) s
      ∙ ap (λ t. add t (mul a s))
          (sym (mul_assoc a (inv a) v) ∙ ap (λ t. mul t v) (mul_inv a h) ∙ one_mul v)

  smaller_sum :
      (x x' y' v' : F) (ys vs : List F)
      → is_zero (add x x') ≡ false
      → Apart x (y' ∷ ys)
      → Apart x' (y' ∷ ys)
      → cauchy_sum x (y' ∷ ys) (v' ∷ vs) ≡ zero_f
      → cauchy_sum x' (y' ∷ ys) (v' ∷ vs) ≡ zero_f
      → cauchy_sum x ys (reduced x' y' ys vs) ≡ zero_f
  smaller_sum x x' y' v' ys vs d (h, hs) (h', hs') e e' =
      let a = add x y' in
      let c = add x' y' in
      let s = cauchy_sum x ys vs in
      let s' = cauchy_sum x' ys vs in
      mul_cancel (add x x') (cauchy_sum x ys (reduced x' y' ys vs)) d (
        sym (cleared_sum x x' y' ys vs hs hs')
        ∙ sym (zero_add f (add (mul a s) (mul c s')))
        ∙ ap (λ t. add t (add (mul a s) (mul c s'))) (sym (add_self v'))
        ∙ exchange f v' v' (mul a s) (mul c s')
        ∙ sym (ap₂ add (first_term a v' s h) (first_term c v' s' h'))
        ∙ ap₂ (λ p q. add (mul a p) (mul c q)) e e'
        ∙ ap₂ add (mul_zero f a) (mul_zero f c)
        ∙ add_self zero_f)

  smaller-Vanish :
      (xs : List F) (x' y' v' : F) (ys vs : List F)
      → Apart x' xs
      → AllApart xs (y' ∷ ys)
      → Apart x' (y' ∷ ys)
      → Vanish xs (y' ∷ ys) (v' ∷ vs)
      → cauchy_sum x' (y' ∷ ys) (v' ∷ vs) ≡ zero_f
      → Vanish xs ys (reduced x' y' ys vs)
  smaller-Vanish [] x' y' v' ys vs d h h' e e' = tt
  smaller-Vanish (x ∷ xs) x' y' v' ys vs (d, ds) (h, hs) h' (e, es) e' = (
    smaller_sum x x' y' v' ys vs (ap is_zero (add_comm x x') ∙ d) h h' e e',
    smaller-Vanish xs x' y' v' ys vs ds hs h' es e',
  )

  reduced-AreZero :
      (x' y' : F) (ys vs : List F)
      → length vs ≡ length ys
      → Apart x' ys
      → Apart y' ys
      → AreZero (reduced x' y' ys vs)
      → AreZero vs
  reduced-AreZero x' y' [] [] l h d z = tt
  reduced-AreZero x' y' [] (v ∷ vs) l h d z = absurd (omega arith)
  reduced-AreZero x' y' (y ∷ ys) [] l h d z = tt
  reduced-AreZero x' y' (y ∷ ys) (v ∷ vs) l (h, hs) (d, ds) (z, zs) = (
    inv_cancel (add x' y) v h (
        mul_cancel (add y y') (mul (inv (add x' y)) v) (ap is_zero (add_comm y y') ∙ d)
          (sym (mul_assoc (add y y') (inv (add x' y)) v) ∙ z)),
    reduced-AreZero x' y' ys vs (omega arith) hs ds zs,
  )

  sum_of_zeros : (x : F) (ys vs : List F) → AreZero vs → cauchy_sum x ys vs ≡ zero_f
  sum_of_zeros x [] vs z = refl
  sum_of_zeros x (y ∷ ys) [] z = refl
  sum_of_zeros x (y ∷ ys) (v ∷ vs) (z, zs) =
      ap₂ (λ t s. add (mul (inv (add x y)) t) s) z (sum_of_zeros x ys vs zs)
      ∙ ap (λ t. add t zero_f) (mul_zero f (inv (add x y)))
      ∙ add_zero zero_f

  shorter-AllApart : (xs : List F) (y : F) (ys : List F) → AllApart xs (y ∷ ys) → AllApart xs ys
  shorter-AllApart [] y ys h = tt
  shorter-AllApart (x ∷ xs) y ys ((h, hs), k) = (hs, shorter-AllApart xs y ys k)

  pub cauchy_kernel :
      (xs ys vs : List F)
      → length ys ≤ length xs
      → length vs ≡ length ys
      → AllApart xs ys
      → Distinct xs
      → Distinct ys
      → Vanish xs ys vs
      → AreZero vs
  cauchy_kernel xs [] [] l m h d d' e = tt
  cauchy_kernel xs [] (v ∷ vs) l m h d d' e = absurd (omega arith)
  cauchy_kernel xs (y ∷ ys) [] l m h d d' e = tt
  cauchy_kernel [] (y ∷ ys) (v ∷ vs) l m h d d' e = absurd (omega arith)
  cauchy_kernel (x ∷ xs) (y ∷ ys) (v ∷ vs) l m ((h, hx), hs) (d, ds) (d', ds') (e, es) =
      let zs = reduced-AreZero x y ys vs (omega arith) hx d' (
        cauchy_kernel xs ys (reduced x y ys vs) (omega arith)
          (length_reduced x y ys vs (omega arith)) (shorter-AllApart xs y ys hs) ds ds'
          (smaller-Vanish xs x y v ys vs d hs (h, hx) es e)) in
      (
        inv_cancel (add x y) v h (
            sym (add_zero (mul (inv (add x y)) v))
            ∙ ap (add (mul (inv (add x y)) v)) (sym (sum_of_zeros x ys vs zs))
            ∙ e),
        zs,
      )
    where
      length_reduced :
          (x y : F) (ys vs : List F)
          → length vs ≡ length ys
          → length (reduced x y ys vs) ≡ length ys
      length_reduced x y [] vs e = refl
      length_reduced x y (y' ∷ ys) [] e = absurd (omega arith)
      length_reduced x y (y' ∷ ys) (v ∷ vs) e = ap suc (length_reduced x y ys vs (omega arith))
