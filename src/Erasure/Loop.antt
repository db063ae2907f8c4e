-- ===== src/Erasure/Loop.antt =====
-- All rounds of gfInvertMatrix.
use libhdfs.Prelude.{
  ℕ, zero, suc, ◌+◌, ◌<◌, ◌≡◌, refl, ap, subst, arith, List, [], ◌∷◌, ◌++◌, map, length,
  length-append, Option, none, some, Result, ok, ◌>>=◌,
}
use libhdfs.Erasure.Field.{Field}
use libhdfs.Erasure.Matrix.{
  at, Row, scale_row, eliminate, choose_pivot, with_pivot, invert_rows, start_rows,
  gf_invert_matrix,
}
use libhdfs.Erasure.Columns.{delta}
use libhdfs.Erasure.Pivot.{AllRows, HasZero, IsPivot, choose_pivot-IsPivot}
use libhdfs.Erasure.Tracked.{
  IsTracked, scale_row-IsTracked, AllRows-eliminate, Kills, Kills-scale_row, AllRows-Kills,
  IsCleared,
}
use libhdfs.Erasure.Inverse.{
  AreReduced, IsLoop, Inverts, reduced_rows, out_rows-AreRows, AreRows, start_rows-IsTracked,
  start_rows-IsKernel, start_rows-IsCleared, length-start_rows,
}
use libhdfs.Erasure.Singular.{no_pivot}
use libhdfs.Erasure.Rounds.{pivot_columns, AreReduced-eliminate, AllRows-IsCleared}

module _ (f : Field) where
  open f use {
    F, zero_f, one_f, add, mul, inv, is_zero, add_zero, add_self, mul_comm, mul_inv, one_mul,
  }

  mapped_size : (g : Row f → Row f) (rs : List (Row f)) → length (map g rs) ≡ length rs
  mapped_size g [] = refl
  mapped_size g (r ∷ rs) = ap suc (mapped_size g rs)

  abbrev pivot_of : ℕ → Row f → Row f
  pivot_of i p = scale_row f (inv (at f p.0 i)) p

  AllRows-snoc :
      (P : Row f → Type 0) (rs : List (Row f)) (q : Row f)
      → AllRows f P rs
      → P q
      → AllRows f P (rs ++ (q ∷ []))
  AllRows-snoc P [] q h k = (k, tt)
  AllRows-snoc P (r ∷ rs) q (h, hs) k = (h, AllRows-snoc P rs q hs k)

  front_rows :
      (P : Row f → Type 0) (rs : List (Row f)) (q : Row f)
      → AllRows f P (rs ++ (q ∷ []))
      → AllRows f P rs × P q
  front_rows P [] q (k, h) = (tt, k)
  front_rows P (r ∷ rs) q (h, hs) = let (a, b) = front_rows P rs q hs in ((h, a), b)

  round-IsLoop :
      (n : ℕ) (matrix : List (List F)) (i : ℕ) (done todo : List (Row f)) (p : Row f)
      (ss : List (Row f))
      → IsLoop f n matrix i done todo
      → ((P : Row f → Type 0) → IsPivot f P i todo (some (p, ss)))
      → let q = pivot_of i p in
        IsLoop f n matrix
          (suc i)
          (map (eliminate f i q) done ++ (q ∷ []))
          (map (eliminate f i q) ss)
  round-IsLoop n matrix i done todo p ss h pivot =
      let q = pivot_of i p in
      let Tracked = IsTracked f n matrix in
      let (tp, tss) = (pivot Tracked).0 h.todo_tracked in
      let (cp, css) = (pivot (IsCleared f i)).0 h.cleared in
      let nonzero = (pivot Tracked).3 in
      let tq : IsTracked f n matrix q = scale_row-IsTracked f n matrix (inv (at f p.0 i)) p tp in
      let hq : (c : ℕ) → c < suc i → at f q.0 c ≡ delta f i c =
        λ c k. pivot_columns f i c p cp nonzero k in
      let l = length-append (map (eliminate f i q) done) (q ∷ []) in
      let m = mapped_size (eliminate f i q) done in
      let counted = h.count in
      record {
        done_tracked =
            AllRows-snoc Tracked (map (eliminate f i q) done) q
              (AllRows-eliminate f n matrix i q done tq h.done_tracked) tq;
        todo_tracked = AllRows-eliminate f n matrix i q ss tq tss;
        reduced =
            AreReduced-eliminate f n matrix i 0 q done tq hq h.done_tracked (omega arith) h.reduced;
        cleared = AllRows-IsCleared f n matrix i q ss tq hq tss css;
        count = omega arith;
        kernel = λ v dones todos.
            let (de, kq) = front_rows (Kills f v) (map (eliminate f i q) done) q dones in
            let kp = Kills-scale_row f v p i nonzero kq in
            h.kernel v (AllRows-Kills f v i n matrix q done tq h.done_tracked kq de)
              ((pivot (Kills f v)).1 (kp, AllRows-Kills f v i n matrix q ss tq tss kq todos));
      }

  abbrev outs : List (Row f) → Result (List (List F))
  outs rows = ok (map (λ r. r.1) rows)

  with_pivot-Inverts :
      (n : ℕ) (matrix : List (List F)) (rounds i : ℕ) (done todo : List (Row f))
      (o : Option (Row f × List (Row f)))
      → IsLoop f n matrix i done todo
      → i + suc rounds ≡ n
      → length todo ≡ suc rounds
      → ((P : Row f → Type 0) → IsPivot f P i todo o)
      → ((done' todo' : List (Row f))
          → IsLoop f n matrix (i + 1) done' todo'
          → length todo' ≡ rounds
          → Inverts f n matrix (invert_rows f rounds (i + 1) done' todo' >>= outs))
      → Inverts f n matrix (
          with_pivot f o (λ p ss.
            let q = pivot_of i p in
            invert_rows f rounds
              (i + 1)
              (map (eliminate f i q) done ++ (q ∷ []))
              (map (eliminate f i q) ss))
          >>= outs)
  unfolding with_pivot
  with_pivot-Inverts n matrix rounds i done todo none h e l pivot next =
      (refl, no_pivot f n matrix i rounds done todo h e (pivot (HasZero f i)))
  with_pivot-Inverts n matrix rounds i done todo (some (p, ss)) h e l pivot next =
      let q = pivot_of i p in
      let size = (pivot (HasZero f i)).2 in
      let m = mapped_size (eliminate f i q) ss in
      let s : suc i ≡ i + 1 = omega arith in
      next (map (eliminate f i q) done ++ (q ∷ [])) (map (eliminate f i q) ss)
        (subst
          (λ k.
            IsLoop f n matrix k (map (eliminate f i q) done ++ (q ∷ [])) (map (eliminate f i q) ss))
          s (round-IsLoop n matrix i done todo p ss h pivot))
        (omega arith)

  invert_rows-Inverts :
      (n : ℕ) (matrix : List (List F)) (rounds i : ℕ) (done todo : List (Row f))
      → IsLoop f n matrix i done todo
      → i + rounds ≡ n
      → length todo ≡ rounds
      → Inverts f n matrix (invert_rows f rounds i done todo >>= outs)
  unfolding invert_rows
  invert_rows-Inverts n matrix zero i done todo h e l =
      let same : i ≡ n = omega arith in
      let counted = h.count in
      (
        λ d m.
            reduced_rows f n matrix d [] d done refl m (omega arith) h.done_tracked
              (subst (λ k. AreReduced f k 0 done) same h.reduced),
        out_rows-AreRows f n matrix done h.done_tracked,
      )
  invert_rows-Inverts n matrix (suc rounds) i done [] h e l = absurd (omega arith)
  invert_rows-Inverts n matrix (suc rounds) i done (r ∷ rs) h e l =
      with_pivot-Inverts n matrix rounds i done (r ∷ rs) (choose_pivot f i r rs) h e l
        (λ P. choose_pivot-IsPivot f P i r rs)
        (λ done' todo' h' l'.
          invert_rows-Inverts n matrix rounds (i + 1) done' todo' h' (omega arith) l')

  -- gfInvertMatrix of a square matrix returns a matrix of the same width whose product with the given
  -- one is the identity, or it throws, and then there is a vector with a 1 in it on which the given
  -- matrix vanishes.
  pub gf_invert_matrix-Inverts :
      (n : ℕ) (matrix : List (List F))
      → length matrix ≡ n
      → AreRows f n matrix
      → Inverts f n matrix (gf_invert_matrix f n matrix)
  unfolding gf_invert_matrix
  gf_invert_matrix-Inverts n matrix e w =
      let l = length-start_rows f n 0 matrix in
      invert_rows-Inverts n matrix n 0 [] (start_rows f n 0 matrix)
        record {
          done_tracked = tt;
          todo_tracked = start_rows-IsTracked f n matrix [] matrix 0 refl refl (omega arith) w;
          reduced = tt;
          cleared = start_rows-IsCleared f n 0 matrix;
          count = refl;
          kernel = λ v dones todos. start_rows-IsKernel f n 0 matrix v todos;
        }
        (omega arith) (omega arith)
