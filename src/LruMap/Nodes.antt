-- ===== src/LruMap/Nodes.antt =====
-- Lists of nodes with different keys and addresses: what erasing through an iterator does to them.
use libhdfs.Prelude.{
  ℕ, ◌<◌, ◌≡◌, refl, subst, arith, ◌==◌, if◌then◌else◌, true, false, List, [], ◌∷◌, Option, none,
  some, ok, Bool-cases, inl, inr,
}
use libhdfs.LruMap.{Node, KeyEquality, erase_node}

-- The address, and the value, of a key's node.
abbrev pub locate : {K V : Type 0} → KeyEquality K → K → List (Node K V) → Option ℕ
locate eq k [] = none
locate eq k (n ∷ ns) = if eq.same n.key k then some n.address else locate eq k ns

-- The list without a key's node.
abbrev pub without : {K V : Type 0} → KeyEquality K → K → List (Node K V) → List (Node K V)
without eq k [] = []
without eq k (n ∷ ns) = if eq.same n.key k then ns else (n ∷ without eq k ns)

-- No node of the list has the address.
abbrev pub Avoids : {K V : Type 0} → ℕ → List (Node K V) → Type 0
Avoids a [] = Unit
Avoids a (n ∷ ns) = ((a == n.address) ≡ false) × Avoids a ns

-- Different keys, and different addresses below `bound`.
abbrev pub AreDistinct : {K V : Type 0} → KeyEquality K → ℕ → List (Node K V) → Type 0
AreDistinct eq bound [] = Unit
AreDistinct eq bound (n ∷ ns) =
    (n.address < bound)
    × (locate eq n.key ns ≡ none)
    × Avoids n.address ns
    × AreDistinct eq bound ns

pub none_some : {a : ℕ} → Path (Option ℕ) none (some a) → ⊥
none_some e = subst is_none e tt
  where
    is_none : Option ℕ → Type 0
    is_none none = Unit
    is_none (some a) = ⊥

module _ {K V : Type 0} (eq : KeyEquality K) where
  pub locate-Avoids :
      (k : K) (a b : ℕ) (ns : List (Node K V))
      → Avoids a ns
      → locate eq k ns ≡ some b
      → (a == b) ≡ false
  locate-Avoids k a b [] v e = absurd (none_some e)
  locate-Avoids k a b (n ∷ ns) (d, v) e = elim (Bool-cases (eq.same n.key k)) [
    | inl t ↦ let f : some n.address ≡ some b = rw t at e in ground arith
    | inr t ↦ locate-Avoids k a b ns v (rw t at e)
  ]

  pub erase_node-without :
      (k : K) (bound it : ℕ) (ns : List (Node K V))
      → AreDistinct eq bound ns
      → locate eq k ns ≡ some it
      → erase_node it ns ≡ ok (without eq k ns)
  unfolding erase_node
  erase_node-without k bound it [] d e = absurd (none_some e)
  erase_node-without k bound it (n ∷ ns) (l, u, v, d) e = elim (Bool-cases (eq.same n.key k)) [
    | inl t ↦
        let f : some n.address ≡ some it = rw t at e in
        let s : (it == n.address) ≡ true = ground arith in rw (t, s) refl
    | inr t ↦
        let f : locate eq k ns ≡ some it = rw t at e in
        let a = locate-Avoids k n.address it ns v f in
        let s : (it == n.address) ≡ false = ground arith in
        rw (t, s, erase_node-without k bound it ns d f) refl
  ]
