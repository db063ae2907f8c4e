-- ===== src/LruMap/Without.antt =====
-- Lists of nodes: what is left of a list without a key's node, and its last node.
use libhdfs.Prelude.{
  ℕ, ◌+◌, ◌≡◌, refl, ◌∙◌, sym, ap, subst, arith, if◌then◌else◌, false, List, [], ◌∷◌, none, some,
  ok, length, Bool-cases, inl, inr,
}
use libhdfs.LruMap.{Node, KeyEquality, last_node, pop_back}
use libhdfs.LruMap.Nodes.{locate, without, Avoids, AreDistinct, none_some}

module _ {K V : Type 0} (eq : KeyEquality K) where
  pub locate-without_self :
      (k : K) (bound : ℕ) (ns : List (Node K V))
      → AreDistinct eq bound ns
      → locate eq k (without eq k ns) ≡ none
  locate-without_self k bound [] d = refl
  locate-without_self k bound (n ∷ ns) (l, u, v, d) = elim (Bool-cases (eq.same n.key k)) [
    | inl t ↦ rw t (subst (λ j. locate eq j ns ≡ none) (eq.same_sound n.key k t) u)
    | inr t ↦ rw (t, t) (locate-without_self k bound ns d)
  ]

  pub locate-without_other :
      (k j : K) (ns : List (Node K V))
      → eq.same k j ≡ false
      → locate eq j (without eq k ns) ≡ locate eq j ns
  locate-without_other k j [] h = refl
  locate-without_other k j (n ∷ ns) h = elim (Bool-cases (eq.same n.key k)) [
    | inl t ↦
        let s : eq.same n.key j ≡ false =
          subst (λ i. eq.same i j ≡ false) (sym (eq.same_sound n.key k t)) h in
        rw (t, s) refl
    | inr t ↦
        rw t
          (ap (λ r. if eq.same n.key j then some n.address else r) (locate-without_other k j ns h))
  ]

  locate-without_none :
      (k j : K) (ns : List (Node K V))
      → locate eq j ns ≡ none
      → locate eq j (without eq k ns) ≡ none
  locate-without_none k j [] h = refl
  locate-without_none k j (n ∷ ns) h = elim (Bool-cases (eq.same n.key j)) [
    | inl s ↦ absurd (none_some (sym (rw s at h)))
    | inr s ↦
        let f : locate eq j ns ≡ none = rw s at h in
        elim (Bool-cases (eq.same n.key k)) [
          | inl t ↦ rw t f
          | inr t ↦ rw (t, s) (locate-without_none k j ns f)
        ]
  ]

  Avoids-without : (k : K) (a : ℕ) (ns : List (Node K V)) → Avoids a ns → Avoids a (without eq k ns)
  Avoids-without k a [] v = tt
  Avoids-without k a (n ∷ ns) (d, v) = elim (Bool-cases (eq.same n.key k)) [
    | inl t ↦ rw t v
    | inr t ↦ rw t (d, Avoids-without k a ns v)
  ]

  pub AreDistinct-without :
      (k : K) (bound : ℕ) (ns : List (Node K V))
      → AreDistinct eq bound ns
      → AreDistinct eq bound (without eq k ns)
  AreDistinct-without k bound [] d = tt
  AreDistinct-without k bound (n ∷ ns) (l, u, v, d) = elim (Bool-cases (eq.same n.key k)) [
    | inl t ↦ rw t d
    | inr t ↦ rw t (
      l,
      locate-without_none k n.key ns u,
      Avoids-without k n.address ns v,
      AreDistinct-without k bound ns d,
    )
  ]

  pub length-without :
      (k : K) (it : ℕ) (ns : List (Node K V))
      → locate eq k ns ≡ some it
      → length (without eq k ns) + 1 ≡ length ns
  length-without k it [] e = absurd (none_some e)
  length-without k it (n ∷ ns) e = elim (Bool-cases (eq.same n.key k)) [
    | inl t ↦ rw t (omega arith)
    | inr t ↦ let r = length-without k it ns (rw t at e) in rw t (omega arith)
  ]

  pub without_missing :
      (k : K) (ns : List (Node K V)) → locate eq k ns ≡ none → without eq k ns ≡ ns
  without_missing k [] e = refl
  without_missing k (n ∷ ns) e = elim (Bool-cases (eq.same n.key k)) [
    | inl t ↦ absurd (none_some (sym (rw t at e)))
    | inr t ↦ rw t (ap (λ r. n ∷ r) (without_missing k ns (rw t at e)))
  ]

  -- The last node is the one that is found under its key, and `pop_back` takes out just that.
  pub pop_back-without :
      (bound : ℕ) (n : Node K V) (ns : List (Node K V))
      → AreDistinct eq bound (n ∷ ns)
      → (l : Node K V) × (last_node (n ∷ ns) ≡ ok l)
        × (locate eq l.key (n ∷ ns) ≡ some l.address)
        × (pop_back (n ∷ ns) ≡ without eq l.key (n ∷ ns))
  unfolding last_node pop_back
  pop_back-without bound n [] d = let t = eq.same_refl n.key in (n, refl, rw t refl, rw t refl)
  pop_back-without bound n (m ∷ ns) (a, u, v, d) =
      let (l, e, f, g) = pop_back-without bound m ns d in
      elim (Bool-cases (eq.same n.key l.key)) [
        | inl t ↦ absurd (
            none_some
              (sym (subst (λ j. locate eq j (m ∷ ns) ≡ none) (eq.same_sound n.key l.key t) u) ∙ f))
        | inr t ↦ (l, e, rw t f, rw t (ap (λ r. n ∷ r) g))
      ]

  -- New addresses are not in use.
  pub AreDistinct-fresh :
      (bound : ℕ) (ns : List (Node K V)) → AreDistinct eq bound ns → Avoids bound ns
  AreDistinct-fresh bound [] d = tt
  AreDistinct-fresh bound (n ∷ ns) (l, u, v, d) = (ground arith, AreDistinct-fresh bound ns d)

  pub AreDistinct-later :
      (bound : ℕ) (ns : List (Node K V)) → AreDistinct eq bound ns → AreDistinct eq (bound + 1) ns
  AreDistinct-later bound [] d = tt
  AreDistinct-later bound (n ∷ ns) (l, u, v, d) = (omega arith, u, v, AreDistinct-later bound ns d)
