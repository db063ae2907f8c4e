-- ===== src/LruMap/Recency.antt =====
-- The maximal size of an LruMap, and insert and setMaxSize.
use libhdfs.Prelude.{
  ℕ, zero, suc, ◌+◌, ◌-◌, ◌≤◌, ◌≡◌, refl, ◌∙◌, sym, ap, arith, ltb, ◌∷◌, ok, take, Bool-cases, inl,
  inr, Option-cases,
}
use libhdfs.LruMap.{LruMap, KeyEquality, push_front, forget, limit, insert, set_max_size}
use libhdfs.LruMap.Nodes.{locate, without, erase_node-without}
use libhdfs.LruMap.Without.{
  locate-without_self, locate-without_other, AreDistinct-without, length-without, without_missing,
}
use libhdfs.LruMap.Entries.{remove, entries-without, length-entries, take_all, take-take}
use libhdfs.LruMap.Invariant.{
  entries, IsConsistent, push_front-IsConsistent, forget_last-IsConsistent,
}

pub record IsValid {K V : Type 0} (eq : KeyEquality K) (m : LruMap K V) : Type 0 where
  pub consistent : IsConsistent eq m
  pub bounded : m.count ≤ m.max_size

module _ {K V : Type 0} (eq : KeyEquality K) where
  -- The cut at the maximal size.
  limit-IsValid :
      (m : LruMap K V)
      → IsConsistent eq m
      → m.count ≤ m.max_size + 1
      → (m' : LruMap K V) × (limit eq m ≡ ok m')
        × IsValid eq m'
        × (m'.max_size ≡ m.max_size)
        × (entries m'.list ≡ take m.max_size (entries m.list))
  unfolding limit
  limit-IsValid m c h = elim (Bool-cases (ltb m.max_size m.count)) [
    | inl t ↦
        let (m', e, c', n, s, p) = forget_last-IsConsistent eq m c (ground arith) in
        let size : m'.count ≡ m.max_size = ground arith in
        (
          m',
          rw t e,
          record { consistent = c'; bounded = omega arith },
          s,
          p ∙ ap (λ k. take k (entries m.list)) size,
        )
    | inr t ↦
        let n = c.counted in
        let l = length-entries eq m.list in
        (
          m,
          rw t refl,
          record { consistent = c; bounded = ground arith },
          refl,
          sym (take_all eq m.max_size (entries m.list) (ground arith)),
        )
  ]

  -- insert never fails: the new entry comes to the front, an old entry of its key is gone, and the
  -- entry at the end is dropped where there is one too many.
  pub insert-entries :
      (key : K) (value : V) (m : LruMap K V)
      → IsValid eq m
      → (m' : LruMap K V) × (insert eq key value m ≡ ok m')
        × IsValid eq m'
        × (m'.max_size ≡ m.max_size)
        × (entries m'.list ≡ take m.max_size ((key, value) ∷ remove eq key (entries m.list)))
  unfolding insert push_front
  insert-entries key value m v = elim (Option-cases (locate eq key m.list)) [
    | inl e ↦
        let c = v.consistent in
        let n = c.counted in
        let b = v.bounded in
        let pushed =
          push_front-IsConsistent eq m key value (m.count + 1) (omega arith) c.distinct e
            (λ k _. c.indexed k) in
        let (m', r, w, s, p) = limit-IsValid _ (unfold push_front in pushed) (omega arith) in
        (
          m',
          rw (c.indexed key, e) r,
          w,
          s,
          p
              ∙ ap (λ es. take m.max_size ((key, value) ∷ es))
                  (ap entries (sym (without_missing eq key m.list e))
                    ∙ entries-without eq key m.list),
        )
    | inr (it, e) ↦
        let c = v.consistent in
        let n = c.counted in
        let b = v.bounded in
        let l = length-without eq key it m.list e in
        let ns = without eq key m.list in
        let pushed =
          push_front-IsConsistent eq (record m { count = m.count - 1; list = ns }) key value
            (m.count - 1 + 1) (omega arith)
            (AreDistinct-without eq key m.next_address m.list c.distinct)
            (locate-without_self eq key m.next_address m.list c.distinct)
            (λ k t. c.indexed k ∙ sym (locate-without_other eq key k m.list t)) in
        let (m', r, w, s, p) = limit-IsValid _ (unfold push_front in pushed) (omega arith) in
        (
          m',
          rw (c.indexed key, e, erase_node-without eq key m.next_address it m.list c.distinct e) r,
          w,
          s,
          p ∙ ap (λ es. take m.max_size ((key, value) ∷ es)) (entries-without eq key m.list),
        )
  ]

  forget-entries :
      (rounds : ℕ) (m : LruMap K V)
      → IsConsistent eq m
      → rounds ≤ m.count
      → (m' : LruMap K V) × (forget eq rounds m ≡ ok m')
        × IsConsistent eq m'
        × (m'.count + rounds ≡ m.count)
        × (m'.max_size ≡ m.max_size)
        × (entries m'.list ≡ take m'.count (entries m.list))
  unfolding forget
  forget-entries zero m c h =
      let n = c.counted in
      let l = length-entries eq m.list in
      (m, refl, c, omega arith, refl, sym (take_all eq m.count (entries m.list) (omega arith)))
  forget-entries (suc rounds) m c h =
      let (m1, e, c1, n, s, p) = forget_last-IsConsistent eq m c (omega arith) in
      let (m2, f, c2, k, t, q) = forget-entries rounds m1 c1 (omega arith) in
      (
        m2,
        rw (e, f) refl,
        c2,
        omega arith,
        t ∙ s,
        q ∙ ap (take m2.count) p ∙ take-take eq m2.count m1.count (entries m.list) (omega arith),
      )

  -- setMaxSize never fails: it keeps the entries used last, as many as the new size allows.
  pub set_max_size-entries :
      (s : ℕ) (m : LruMap K V)
      → IsValid eq m
      → (m' : LruMap K V) × (set_max_size eq s m ≡ ok m')
        × IsValid eq m'
        × (m'.max_size ≡ s)
        × (entries m'.list ≡ take s (entries m.list))
  unfolding set_max_size
  set_max_size-entries s m v =
      let c = v.consistent in
      let with_size : IsConsistent eq (record m { max_size = s }) = record {
        counted = c.counted;
        distinct = c.distinct;
        indexed = c.indexed;
      } in
      let (m', e, c', n, t, p) =
        forget-entries (m.count - s) (record m { max_size = s }) with_size (omega arith) in
      let k = c.counted in
      let l = length-entries eq m.list in
      let cut : take m'.count (entries m.list) ≡ take s (entries m.list) =
        elim (Bool-cases (ltb s m.count)) [
          | inl f ↦ ap (λ i. take i (entries m.list)) {x = m'.count} {y = s} (ground arith)
          | inr f ↦
              take_all eq m'.count (entries m.list) (ground arith)
              ∙ sym (take_all eq s (entries m.list) (ground arith))
        ] in
      (m', e, record { consistent = c'; bounded = omega arith }, t, p ∙ cut)
