-- ===== src/Tests/LruMap.antt =====
-- An LruMap of numbers with room for two entries.
use libhdfs.Prelude.{ℕ, ◌≡◌, refl, arith, ◌==◌, false, if◌then◌else◌, [], ◌∷◌, none, some, ok, take}
use libhdfs.LruMap.{LruMap, KeyEquality, insert, erase, set_max_size, find_and_erase_internal}
use libhdfs.LruMap.Invariant.{entries}
use libhdfs.LruMap.Entries.{remove, value_of, touched}
use libhdfs.LruMap.Recency.{IsValid, insert-entries, set_max_size-entries}
use libhdfs.LruMap.Lookup.{erase-entries, find_and_erase_internal-entries}

abbrev numbers : KeyEquality ℕ
numbers = record {
  same = λ a b. a == b;
  same_refl = λ k. ground arith;
  same_sound = λ a b e. ground arith;
}

abbrev full : LruMap ℕ ℕ
full = record {
  count = 2;
  max_size = 2;
  list =
      record { address = 1; key = 8; value = 80 }
      ∷ record { address = 0; key = 7; value = 70 }
      ∷ [];
  index = λ k. if 8 == k then some 1 else if 7 == k then some 0 else none;
  next_address = 2;
}

full-IsValid : IsValid numbers full
full-IsValid = record {
  consistent = record {
    counted = refl;
    distinct = (omega arith, refl, (refl, tt), (omega arith, refl, tt, tt));
    indexed = λ k. refl;
  };
  bounded = omega arith;
}

insert-entries_example :
    (m' : LruMap ℕ ℕ) × (insert numbers 9 90 full ≡ ok m')
    × IsValid numbers m'
    × (m'.max_size ≡ 2)
    × (entries m'.list ≡ take 2 ((9, 90) ∷ remove numbers 9 (entries full.list)))
insert-entries_example = insert-entries numbers 9 90 full full-IsValid

full_map_shrinks :
    (m' : LruMap ℕ ℕ) × (set_max_size numbers 1 full ≡ ok m')
    × IsValid numbers m'
    × (m'.max_size ≡ 1)
    × (entries m'.list ≡ take 1 (entries full.list))
full_map_shrinks = set_max_size-entries numbers 1 full full-IsValid

full_map_erases :
    (m' : LruMap ℕ ℕ) × (erase numbers 7 full ≡ ok m')
    × IsValid numbers m'
    × (entries m'.list ≡ remove numbers 7 (entries full.list))
full_map_erases = erase-entries numbers 7 full full-IsValid

find_and_erase_internal-entries_example :
    (m' : LruMap ℕ ℕ) × (find_and_erase_internal numbers 7 false full
      ≡ ok (value_of numbers 7 (entries full.list), m'))
    × IsValid numbers m'
    × (entries m'.list
        ≡ touched numbers 7 (value_of numbers 7 (entries full.list)) (entries full.list))
find_and_erase_internal-entries_example =
    find_and_erase_internal-entries numbers 7 false full full-IsValid
