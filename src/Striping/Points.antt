-- ===== src/Striping/Points.antt =====
-- The `std::set<long>` of StripedBlockUtil::mergeRangesForInternalBlocks, as its list in order.
use libhdfs.Prelude.{ℕ, ◌<◌, ◌≡◌, refl, ◌⊎◌, inl, arith, ltb, ◌==◌, if◌then◌else◌, List, [], ◌∷◌}

unfoldable pub insert : ℕ → List ℕ → List ℕ
insert p [] = p ∷ []
insert p (x ∷ xs) =
    let rest = insert p xs in if ltb p x then p ∷ x ∷ xs else if p == x then x ∷ xs else x ∷ rest

-- The points after `x` increase.
abbrev pub Increasing : ℕ → List ℕ → Type 0
Increasing x [] = Unit
Increasing x (y ∷ ys) = (x < y) × Increasing y ys

abbrev pub IsSorted : List ℕ → Type 0
IsSorted [] = Unit
IsSorted (x ∷ xs) = Increasing x xs

abbrev pub Has : ℕ → List ℕ → Type 0
Has p [] = ⊥
Has p (x ∷ xs) = (p ≡ x) ⊎ Has p xs

pub insert-Increasing :
    (p x : ℕ) (xs : List ℕ) → x < p → Increasing x xs → Increasing x (insert p xs)
unfolding insert
insert-Increasing p x [] h s = omega arith
insert-Increasing p x (y ∷ ys) h (a, s) = ground (arith, insert-Increasing p y ys)

pub insert-IsSorted : (p : ℕ) (xs : List ℕ) → IsSorted xs → IsSorted (insert p xs)
unfolding insert
insert-IsSorted p [] s = tt
insert-IsSorted p (x ∷ xs) s = ground (arith, insert-Increasing p x xs)

pub insert-Has_self : (p : ℕ) (xs : List ℕ) → Has p (insert p xs)
unfolding insert
insert-Has_self p [] = inl refl
insert-Has_self p (x ∷ xs) = ground (arith, insert-Has_self p xs)

pub insert-Has : (p q : ℕ) (xs : List ℕ) → Has q xs → Has q (insert p xs)
unfolding insert
insert-Has p q [] h = absurd h
insert-Has p q (x ∷ xs) h = ground (arith, insert-Has p q xs)
