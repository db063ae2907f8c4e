-- ===== src/Erasure/Tracked.antt =====
-- The row operations of gfInvertMatrix keep each row of `inMatrix` the combination of the original
-- rows that the row of `outMatrix` says.
use libhdfs.Prelude.{ℕ, ◌<◌, ◌≡◌, ◌∙◌, sym, ap, ap₂, false, List, [], ◌∷◌, map, length}
use libhdfs.Erasure.Field.{Field}
use libhdfs.Erasure.Matrix.{at, Row, scale_row, eliminate}
use libhdfs.Erasure.Vectors.{
  dot, dot-scale, dot-add_multiple, at-add_multiple, length-scale, length-add_multiple, zero_mul,
  mul_zero,
}
use libhdfs.Erasure.Pivot.{AllRows}

module _ (f : Field) where
  open f use {
    F, zero_f, one_f, add, mul, inv, is_zero, add_zero, add_self, mul_comm, mul_assoc, mul_inv,
    one_mul,
  }

  -- The product of a matrix and a vector.
  abbrev pub images : List (List F) → List F → List F
  images [] d = []
  images (r ∷ rs) d = dot f r d ∷ images rs d

  pub record IsTracked (n : ℕ) (matrix : List (List F)) (r : Row f) : Type 0 where
    pub width : length r.0 ≡ n
    pub out_width : length r.1 ≡ n
    pub tracked : (d : List F) → dot f r.0 d ≡ dot f r.1 (images matrix d)

  pub scale_row-IsTracked :
      (n : ℕ) (matrix : List (List F)) (t : F) (r : Row f)
      → IsTracked n matrix r
      → IsTracked n matrix (scale_row f t r)
  unfolding scale_row
  scale_row-IsTracked n matrix t r h = record {
    width = length-scale f t r.0 ∙ h.width;
    out_width = length-scale f t r.1 ∙ h.out_width;
    tracked = λ d.
        dot-scale f t r.0 d
        ∙ ap (λ x. mul x t) (h.tracked d)
        ∙ sym (dot-scale f t r.1 (images matrix d));
  }

  pub eliminate-IsTracked :
      (n : ℕ) (matrix : List (List F)) (i : ℕ) (q r : Row f)
      → IsTracked n matrix q
      → IsTracked n matrix r
      → IsTracked n matrix (eliminate f i q r)
  unfolding eliminate
  eliminate-IsTracked n matrix i q r k h =
      let t = at f r.0 i in
      record {
        width = length-add_multiple f t r.0 q.0 ∙ h.width;
        out_width = length-add_multiple f t r.1 q.1 ∙ h.out_width;
        tracked = λ d.
            dot-add_multiple f t r.0 q.0 d (h.width ∙ sym k.width)
            ∙ ap₂ add (h.tracked d) (ap (mul t) (k.tracked d))
            ∙ sym (dot-add_multiple f t r.1 q.1 (images matrix d) (h.out_width ∙ sym k.out_width));
      }

  pub AllRows-eliminate :
      (n : ℕ) (matrix : List (List F)) (i : ℕ) (q : Row f) (rs : List (Row f))
      → IsTracked n matrix q
      → AllRows f (IsTracked n matrix) rs
      → AllRows f (IsTracked n matrix) (map (eliminate f i q) rs)
  AllRows-eliminate n matrix i q [] k h = tt
  AllRows-eliminate n matrix i q (r ∷ rs) k (h, hs) =
      (eliminate-IsTracked n matrix i q r k h, AllRows-eliminate n matrix i q rs k hs)

  -- A vector on which a row of `inMatrix` vanishes.
  abbrev pub Kills : List F → Row f → Type 0
  Kills v r = dot f r.0 v ≡ zero_f

  pub Kills-scale_row :
      (v : List F) (p : Row f) (i : ℕ)
      → is_zero (at f p.0 i) ≡ false
      → Kills v (scale_row f (inv (at f p.0 i)) p)
      → Kills v p
  unfolding scale_row
  Kills-scale_row v p i n h =
      let a = at f p.0 i in
      let x = dot f p.0 v in
      sym (one_mul x)
      ∙ mul_comm one_f x
      ∙ ap (mul x) (sym (mul_inv a n) ∙ mul_comm a (inv a))
      ∙ sym (mul_assoc x (inv a) a)
      ∙ ap (λ t. mul t a) (sym (dot-scale f (inv a) p.0 v) ∙ h)
      ∙ zero_mul f a

  Kills-eliminate :
      (v : List F) (i n : ℕ) (q r : Row f)
      → length q.0 ≡ n
      → length r.0 ≡ n
      → Kills v q
      → Kills v (eliminate f i q r)
      → Kills v r
  unfolding eliminate
  Kills-eliminate v i n q r lq lr kq h =
      let t = at f r.0 i in
      sym (add_zero (dot f r.0 v))
      ∙ ap (add (dot f r.0 v)) (sym (mul_zero f t) ∙ ap (mul t) (sym kq))
      ∙ sym (dot-add_multiple f t r.0 q.0 v (lr ∙ sym lq))
      ∙ h

  pub AllRows-Kills :
      (v : List F) (i n : ℕ) (matrix : List (List F)) (q : Row f) (rs : List (Row f))
      → IsTracked n matrix q
      → AllRows f (IsTracked n matrix) rs
      → Kills v q
      → AllRows f (Kills v) (map (eliminate f i q) rs)
      → AllRows f (Kills v) rs
  AllRows-Kills v i n matrix q [] k hs kq h = tt
  AllRows-Kills v i n matrix q (r ∷ rs) k (t, ts) kq (h, hs) =
      (Kills-eliminate v i n q r k.width t.width kq h, AllRows-Kills v i n matrix q rs k ts kq hs)

  -- The columns below `i` that the rounds before have cleared.
  abbrev pub IsCleared : ℕ → Row f → Type 0
  IsCleared i r = (c : ℕ) → c < i → at f r.0 c ≡ zero_f

  pub at-eliminate :
      (n : ℕ) (matrix : List (List F)) (i c : ℕ) (q r : Row f)
      → IsTracked n matrix q
      → IsTracked n matrix r
      → at f (eliminate f i q r).0 c ≡ add (at f r.0 c) (mul (at f r.0 i) (at f q.0 c))
  unfolding eliminate
  at-eliminate n matrix i c q r k h =
      at-add_multiple f (at f r.0 i) r.0 q.0 c (h.width ∙ sym k.width)
