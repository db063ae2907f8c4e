-- ===== src/Paths/Rejoin.antt =====
-- The components of a canonical path are its own: StringSplit after CanonicalizePath.
use libhdfs.Prelude.{ℕ, zero, suc, ◌≡◌, refl, ◌∙◌, ap, List, [], ◌∷◌}
use libhdfs.Paths.Split.{
  push_token, split_from, string_split, IsToken, AreTokens, string_split-AreTokens,
  split_from-plain,
}
use libhdfs.Paths.Canonical.{
  slash, Component, same, parent, name, component, visit, backwards, join, or_root,
  canonicalize_path,
}

-- The components that the loop keeps are names.
abbrev pub AreNames : List (List ℕ) → Type 0
AreNames [] = Unit
AreNames (s ∷ ss) = (component s ≡ name) × AreNames ss

visit-AreTokens :
    (k : Component) (s : List ℕ) (found : ℕ × List (List ℕ))
    → IsToken slash s
    → AreTokens slash found.1
    → AreTokens slash (visit k s found).1
unfolding visit
visit-AreTokens same s (skip, tmp) t ts = ts
visit-AreTokens parent s (skip, tmp) t ts = ts
visit-AreTokens name s (zero, tmp) t ts = (t, ts)
visit-AreTokens name s (suc skip, tmp) t ts = ts

visit-AreNames :
    (k : Component) (s : List ℕ) (found : ℕ × List (List ℕ))
    → component s ≡ k
    → AreNames found.1
    → AreNames (visit k s found).1
unfolding visit
visit-AreNames same s (skip, tmp) e ns = ns
visit-AreNames parent s (skip, tmp) e ns = ns
visit-AreNames name s (zero, tmp) e ns = (e, ns)
visit-AreNames name s (suc skip, tmp) e ns = ns

backwards-AreTokens : (ss : List (List ℕ)) → AreTokens slash ss → AreTokens slash (backwards ss).1
unfolding backwards
backwards-AreTokens [] ts = tt
backwards-AreTokens (s ∷ ss) (t, ts) =
    visit-AreTokens (component s) s (backwards ss) t (backwards-AreTokens ss ts)

pub backwards-AreNames : (ss : List (List ℕ)) → AreNames (backwards ss).1
unfolding backwards
backwards-AreNames [] = tt
backwards-AreNames (s ∷ ss) =
    visit-AreNames (component s) s (backwards ss) refl (backwards-AreNames ss)

backwards-names : (ss : List (List ℕ)) → AreNames ss → backwards ss ≡ (zero, ss)
unfolding backwards visit
backwards-names [] ns = refl
backwards-names (s ∷ ss) (n, ns) = rw (n, backwards-names ss ns) refl

-- A token is over where the next component begins, or the path ends.
split-token :
    (x : ℕ) (xs : List ℕ) (ts : List (List ℕ))
    → split_from slash (x ∷ xs) (join ts) ≡ (x ∷ xs) ∷ split_from slash [] (join ts)
unfolding split_from join push_token
split-token x xs [] = refl
split-token x xs (t ∷ ts) = refl

split-join : (ts : List (List ℕ)) → AreTokens slash ts → split_from slash [] (join ts) ≡ ts
unfolding split_from join push_token
split-join [] a = refl
split-join ([] ∷ ts) (t, a) = absurd t
split-join ((x ∷ xs) ∷ ts) (t, a) =
    split_from-plain slash [] (x ∷ xs) (join ts) t
    ∙ split-token x xs ts
    ∙ ap (λ u. (x ∷ xs) ∷ u) (split-join ts a)

string_split-or_root :
    (ts : List (List ℕ)) → AreTokens slash ts → string_split (or_root (join ts)) slash ≡ ts
unfolding string_split or_root join split_from push_token
string_split-or_root [] a = refl
string_split-or_root (t ∷ ts) a = split-join (t ∷ ts) a

pub kept_components :
    (path : List ℕ)
    → string_split (canonicalize_path path) slash ≡ (backwards (string_split path slash)).1
unfolding canonicalize_path
kept_components path =
    string_split-or_root (backwards (string_split path slash)).1
      (backwards-AreTokens (string_split path slash) (string_split-AreTokens path slash))

-- The path that CanonicalizePath gives has no component `.` or `..`, none that is empty, and is not
-- changed by a second CanonicalizePath.
pub canonicalize_path_twice :
    (path : List ℕ)
    → AreNames (string_split (canonicalize_path path) slash)
      × (canonicalize_path (canonicalize_path path) ≡ canonicalize_path path)
canonicalize_path_twice path =
    let found = backwards (string_split path slash) in
    let names = backwards-AreNames (string_split path slash) in
    (
      rw (kept_components path) names,
      unfold canonicalize_path in
          ap (λ ss. or_root (join (backwards ss).1)) (kept_components path)
          ∙ ap (λ f. or_root (join f.1)) (backwards-names found.1 names),
    )
