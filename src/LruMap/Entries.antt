-- ===== src/LruMap/Entries.antt =====
-- Recency lists: the entries of an LruMap as a list of pairs, the last used first.
use libhdfs.Prelude.{
  ℕ, zero, suc, ◌≤◌, ◌≡◌, refl, sym, ap, arith, ◌==◌, if◌then◌else◌, true, false, List, [], ◌∷◌,
  Option, none, some, ok, length, take, Bool-cases, inl, inr,
}
use libhdfs.LruMap.{Node, KeyEquality, value_at}
use libhdfs.LruMap.Nodes.{locate, without, AreDistinct, none_some, locate-Avoids}
use libhdfs.LruMap.Invariant.{entries}

-- The operations of the promise.
abbrev pub remove : {K V : Type 0} → KeyEquality K → K → List (K × V) → List (K × V)
remove eq k [] = []
remove eq k ((j, v) ∷ es) = if eq.same j k then es else ((j, v) ∷ remove eq k es)

abbrev pub value_of : {K V : Type 0} → KeyEquality K → K → List (K × V) → Option V
value_of eq k [] = none
value_of eq k ((j, v) ∷ es) = if eq.same j k then some v else value_of eq k es

-- A find moves the entry to the front.
abbrev pub touched : {K V : Type 0} → KeyEquality K → K → Option V → List (K × V) → List (K × V)
touched eq k none es = es
touched eq k (some v) es = (k, v) ∷ remove eq k es

module _ {K V : Type 0} (eq : KeyEquality K) where
  pub entries-without :
      (k : K) (ns : List (Node K V)) → entries (without eq k ns) ≡ remove eq k (entries ns)
  entries-without k [] = refl
  entries-without k (n ∷ ns) = elim (Bool-cases (eq.same n.key k)) [
    | inl t ↦ rw t refl
    | inr t ↦ rw t (ap (λ r. (n.key, n.value) ∷ r) (entries-without k ns))
  ]

  pub length-entries : (ns : List (Node K V)) → length (entries ns) ≡ length ns
  length-entries [] = refl
  length-entries (n ∷ ns) = ap suc (length-entries ns)

  pub take_all : (n : ℕ) (es : List (K × V)) → length es ≤ n → take n es ≡ es
  take_all zero [] h = refl
  take_all zero (e ∷ es) h = absurd (omega arith)
  take_all (suc n) [] h = refl
  take_all (suc n) (e ∷ es) h = ap (λ r. e ∷ r) (take_all n es (omega arith))

  pub take-take : (n k : ℕ) (es : List (K × V)) → n ≤ k → take n (take k es) ≡ take n es
  take-take zero k es h = refl
  take-take (suc n) zero es h = absurd (omega arith)
  take-take (suc n) (suc k) [] h = refl
  take-take (suc n) (suc k) (e ∷ es) h = ap (λ r. e ∷ r) (take-take n k es (omega arith))

  pub value_of_missing :
      (k : K) (ns : List (Node K V)) → locate eq k ns ≡ none → value_of eq k (entries ns) ≡ none
  value_of_missing k [] e = refl
  value_of_missing k (n ∷ ns) e = elim (Bool-cases (eq.same n.key k)) [
    | inl t ↦ absurd (none_some (sym (rw t at e)))
    | inr t ↦ rw t (value_of_missing k ns (rw t at e))
  ]

  pub value_of-locate :
      (k : K) (it bound : ℕ) (ns : List (Node K V))
      → AreDistinct eq bound ns
      → locate eq k ns ≡ some it
      → (v : V) × (value_of eq k (entries ns) ≡ some v) × (value_at it ns ≡ ok v)
  unfolding value_at
  value_of-locate k it bound [] d e = absurd (none_some e)
  value_of-locate k it bound (n ∷ ns) (l, u, w, d) e = elim (Bool-cases (eq.same n.key k)) [
    | inl t ↦
        let f : some n.address ≡ some it = rw t at e in
        let s : (it == n.address) ≡ true = ground arith in (n.value, rw t refl, rw s refl)
    | inr t ↦
        let f : locate eq k ns ≡ some it = rw t at e in
        let a = locate-Avoids eq k n.address it ns w f in
        let s : (it == n.address) ≡ false = ground arith in
        let (v, g, h) = value_of-locate k it bound ns d f in (v, rw t g, rw s h)
  ]
