-- ===== src/LruMap/Lookup.antt =====
-- Lookups in an LruMap: erase, find and findAndErase.
use libhdfs.Prelude.{
  ℕ, ◌-◌, ◌≡◌, refl, ◌∙◌, sym, ap, arith, if◌then◌else◌, Bool, true, false, List, ◌∷◌, Option, none,
  some, Result, ok, inl, inr, Option-cases,
}
use libhdfs.LruMap.{LruMap, KeyEquality, assign, push_front, erase, find_and_erase_internal}
use libhdfs.LruMap.Nodes.{locate, without, erase_node-without}
use libhdfs.LruMap.Without.{
  locate-without_self, locate-without_other, AreDistinct-without, length-without, without_missing,
}
use libhdfs.LruMap.Entries.{
  remove, value_of, touched, entries-without, value_of_missing, value_of-locate,
}
use libhdfs.LruMap.Invariant.{entries, detached, detached-IsConsistent, push_front-IsConsistent}
use libhdfs.LruMap.Recency.{IsValid}

module _ {K V : Type 0} (eq : KeyEquality K) where
  -- erase never fails and takes the key's entry out.
  pub erase-entries :
      (key : K) (m : LruMap K V)
      → IsValid eq m
      → (m' : LruMap K V) × (erase eq key m ≡ ok m')
        × IsValid eq m'
        × (entries m'.list ≡ remove eq key (entries m.list))
  unfolding erase
  erase-entries key m v = elim (Option-cases (locate eq key m.list)) [
    | inl e ↦ (
      m,
      rw (erase, v.consistent.indexed key, e) refl,
      v,
      ap entries (sym (without_missing eq key m.list e)) ∙ entries-without eq key m.list,
    )
    | inr (it, e) ↦
        let c = v.consistent in
        let b = v.bounded in
        (
          detached eq key m,
          rw
              (
                erase,
                c.indexed key,
                e,
                erase_node-without eq key m.next_address it m.list c.distinct e,
              )
              refl,
          record { consistent = detached-IsConsistent eq m key it c e; bounded = omega arith },
          entries-without eq key m.list,
        )
  ]

  -- The two ends of findAndEraseInternal.
  taken_or_moved :
      (key : K) (gone : Bool) (m : LruMap K V) (it : ℕ) (value : V)
      → IsValid eq m
      → locate eq key m.list ≡ some it
      → let ns = without eq key m.list in
        (m' : LruMap K V) × (Path
          (Result (Option V × LruMap K V))
          (ok (
            some value,
            if gone
                then record m { count = m.count - 1; list = ns; index = assign eq key none m.index }
                else push_front eq key value (record m { list = ns }),
          ))
          (ok (some value, m')))
        × IsValid eq m'
        × (entries m'.list ≡ (
            if gone
            then remove eq key (entries m.list)
            else touched eq key (some value) (entries m.list)))
  taken_or_moved key true m it value v e =
      let c = v.consistent in
      let b = v.bounded in
      (
        detached eq key m,
        refl,
        record { consistent = detached-IsConsistent eq m key it c e; bounded = omega arith },
        entries-without eq key m.list,
      )
  taken_or_moved key false m it value v e =
      let c = v.consistent in
      let b = v.bounded in
      let n = c.counted in
      let l = length-without eq key it m.list e in
      let ns = without eq key m.list in
      let pushed =
        push_front-IsConsistent eq (record m { list = ns }) key value m.count (omega arith)
          (AreDistinct-without eq key m.next_address m.list c.distinct)
          (locate-without_self eq key m.next_address m.list c.distinct)
          (λ k t. c.indexed k ∙ sym (locate-without_other eq key k m.list t)) in
      (
        push_front eq key value (record m { list = ns }),
        refl,
        unfold push_front in record { consistent = unfold push_front in pushed; bounded = b },
        unfold push_front in ap (λ es. (key, value) ∷ es) (entries-without eq key m.list),
      )

  untouched :
      (key : K) {es : List (K × V)} (gone : Bool)
      → remove eq key es ≡ es
      → (if gone then remove eq key es else es) ≡ es
  untouched key true e = e
  untouched key false e = refl

  -- findAndEraseInternal never fails: it gives the key's value, if there is one, and takes the entry
  -- out or moves it to the front; without an entry nothing changes.
  pub find_and_erase_internal-entries :
      (key : K) (gone : Bool) (m : LruMap K V)
      → IsValid eq m
      → (m' : LruMap K V) × (find_and_erase_internal eq key gone m
          ≡ ok (value_of eq key (entries m.list), m'))
        × IsValid eq m'
        × (entries m'.list ≡ (
            if gone
            then remove eq key (entries m.list)
            else touched eq key (value_of eq key (entries m.list)) (entries m.list)))
  unfolding find_and_erase_internal
  find_and_erase_internal-entries key gone m v = elim (Option-cases (locate eq key m.list)) [
    | inl e ↦
        let f = value_of_missing eq key m.list e in
        let same : remove eq key (entries m.list) ≡ entries m.list =
          sym (entries-without eq key m.list) ∙ ap entries (without_missing eq key m.list e) in
        (
          m,
          rw (find_and_erase_internal, v.consistent.indexed key, e, f) refl,
          v,
          rw f (sym (untouched key gone same)),
        )
    | inr (it, e) ↦
        let c = v.consistent in
        let (value, f, g) = value_of-locate eq key it m.next_address m.list c.distinct e in
        let h = erase_node-without eq key m.next_address it m.list c.distinct e in
        let (m', r, w, p) = taken_or_moved key gone m it value v e in
        (m', rw (find_and_erase_internal, c.indexed key, e, f, g, h) r, w, rw f p)
  ]
