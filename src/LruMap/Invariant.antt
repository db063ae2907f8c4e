-- ===== src/LruMap/Invariant.antt =====
-- The list, the index and the count of an LruMap agree.
use libhdfs.Prelude.{
  ℕ, suc, ◌+◌, ◌-◌, ◌<◌, ◌≡◌, refl, ◌∙◌, sym, ap, ap₂, subst, arith, false, List, [], ◌∷◌, none,
  some, ok, length, take, Bool-cases, inl, inr,
}
use libhdfs.LruMap.{Node, LruMap, KeyEquality, assign, pop_back, last_node, forget_last, push_front}
use libhdfs.LruMap.Nodes.{locate, without, AreDistinct}
use libhdfs.LruMap.Without.{
  locate-without_self, locate-without_other, AreDistinct-without, length-without, pop_back-without,
  AreDistinct-fresh, AreDistinct-later,
}

-- The entries, the last used first.
abbrev pub entries : {K V : Type 0} → List (Node K V) → List (K × V)
entries [] = []
entries (n ∷ ns) = (n.key, n.value) ∷ entries ns

pub record IsConsistent {K V : Type 0} (eq : KeyEquality K) (m : LruMap K V) : Type 0 where
  pub counted : m.count ≡ length m.list
  pub distinct : AreDistinct eq m.next_address m.list
  pub indexed : (k : K) → m.index k ≡ locate eq k m.list

module _ {K V : Type 0} (eq : KeyEquality K) where
  abbrev pub detached : K → LruMap K V → LruMap K V
  detached key m = record m {
    count = m.count - 1;
    list = without eq key m.list;
    index = assign eq key none m.index;
  }

  pub detached-IsConsistent :
      (m : LruMap K V) (key : K) (it : ℕ)
      → IsConsistent eq m
      → locate eq key m.list ≡ some it
      → IsConsistent eq (detached key m)
  unfolding assign
  detached-IsConsistent m key it c e =
      let n = length-without eq key it m.list e in
      let counted = c.counted in
      record {
        counted = omega arith;
        distinct = AreDistinct-without eq key m.next_address m.list c.distinct;
        indexed = λ k. elim (Bool-cases (eq.same key k)) [
          | inl t ↦ rw t (
              sym (
                subst (λ j. locate eq j (without eq key m.list) ≡ none) (eq.same_sound key k t)
                  (locate-without_self eq key m.next_address m.list c.distinct)))
          | inr t ↦ rw t (c.indexed k ∙ sym (locate-without_other eq key k m.list t))
        ];
      }

  -- A new node may be put in front when its key has no node; the index may still hold an old
  -- iterator of that key.
  pub push_front-IsConsistent :
      (m : LruMap K V) (key : K) (value : V) (count : ℕ)
      → count ≡ length m.list + 1
      → AreDistinct eq m.next_address m.list
      → locate eq key m.list ≡ none
      → ((k : K) → eq.same key k ≡ false → m.index k ≡ locate eq k m.list)
      → IsConsistent eq (record (push_front eq key value m) { count = count })
  unfolding push_front assign
  push_front-IsConsistent m key value count n d e f = record {
    counted = omega arith;
    distinct = (
      omega arith,
      e,
      AreDistinct-fresh eq m.next_address m.list d,
      AreDistinct-later eq m.next_address m.list d,
    );
    indexed = λ k. elim (Bool-cases (eq.same key k)) [ inl t ↦ rw t refl | inr t ↦ rw t (f k t) ];
  }

  entries-pop_back :
      (n : Node K V) (ns : List (Node K V))
      → entries (pop_back (n ∷ ns)) ≡ take (length ns) (entries (n ∷ ns))
  unfolding pop_back
  entries-pop_back n [] = refl
  entries-pop_back n (m ∷ ns) = ap (λ r. (n.key, n.value) ∷ r) (entries-pop_back m ns)

  -- Forgetting the last entry.
  pub forget_last-IsConsistent :
      (m : LruMap K V)
      → IsConsistent eq m
      → 0 < m.count
      → (m' : LruMap K V) × (forget_last eq m ≡ ok m')
        × IsConsistent eq m'
        × (m'.count + 1 ≡ m.count)
        × (m'.max_size ≡ m.max_size)
        × (entries m'.list ≡ take m'.count (entries m.list))
  unfolding forget_last
  forget_last-IsConsistent m c h = of_list m.list refl
    where
      of_list :
          (ns : List (Node K V))
          → m.list ≡ ns
          → (m' : LruMap K V) × (forget_last eq m ≡ ok m')
            × IsConsistent eq m'
            × (m'.count + 1 ≡ m.count)
            × (m'.max_size ≡ m.max_size)
            × (entries m'.list ≡ take m'.count (entries m.list))
      of_list [] e = let n = c.counted ∙ ap length e in absurd (omega arith)
      of_list (n ∷ ns) e =
          let d = subst (AreDistinct eq m.next_address) e c.distinct in
          let (l, f, g, p) = pop_back-without eq m.next_address n ns d in
          let size : m.count ≡ suc (length ns) = c.counted ∙ ap length e in
          let found = ap (locate eq l.key) e ∙ g in
          let same_list : pop_back m.list ≡ without eq l.key m.list =
            ap pop_back e ∙ p ∙ sym (ap (without eq l.key) e) in
          (
            detached l.key m,
            rw (ap last_node e ∙ f, same_list) refl,
            detached-IsConsistent m l.key l.address c found,
            omega arith,
            refl,
            ap entries (sym same_list ∙ ap pop_back e)
                ∙ entries-pop_back n ns
                ∙ ap₂ take (omega arith) (ap entries (sym e)),
          )
