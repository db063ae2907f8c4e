-- ===== src/Paths/Absolute.antt =====
-- GetAbsPath and FileSystemImpl::getStandardPath of src/client/FileSystemImpl.cpp.
use libhdfs.Prelude.{
  ℕ, ◌≡◌, refl, ◌∙◌, ap, ◌==◌, if◌then◌else◌, false, inl, inr, Bool-cases, List, [], ◌∷◌, ◌++◌,
}
use libhdfs.Paths.Split.{string_split, split_from, push_token}
use libhdfs.Paths.Canonical.{
  slash, walk, reversed, join, or_root, canonicalize_path, canonicalize_path-walk,
}

unfoldable pub get_abs_path : List ℕ → List ℕ → List ℕ
get_abs_path prefix [] = prefix
get_abs_path prefix (x ∷ xs) = if slash == x then x ∷ xs else (prefix ++ (slash ∷ x ∷ xs))

-- `base` is the working directory that the lock guards.
unfoldable pub get_standard_path : List ℕ → List ℕ → List ℕ
get_standard_path base path = canonicalize_path (get_abs_path base path)

-- Without a NUL before it, a path's components come before those of what follows the separator.
abbrev pub HasNoNul : List ℕ → Type 0
HasNoNul [] = Unit
HasNoNul (x ∷ xs) = ((x == 0) ≡ false) × HasNoNul xs

push_token-append :
    (t : List ℕ) (xs ys : List (List ℕ)) → push_token t (xs ++ ys) ≡ push_token t xs ++ ys
unfolding push_token
push_token-append [] xs ys = refl
push_token-append (x ∷ t) xs ys = refl

split_from-append :
    (t xs ys : List ℕ)
    → HasNoNul xs
    → split_from slash t (xs ++ (slash ∷ ys)) ≡ split_from slash t xs ++ split_from slash [] ys
unfolding split_from
split_from-append t [] ys h = push_token-append t [] (split_from slash [] ys)
split_from-append t (x ∷ xs) ys (e, h) = elim (Bool-cases (x == slash)) [
  | inl f ↦
      rw (e, f)
        (ap (push_token t) (split_from-append [] xs ys h)
          ∙ push_token-append t (split_from slash [] xs) (split_from slash [] ys))
  | inr f ↦ rw (e, f) (split_from-append (t ++ (x ∷ [])) xs ys h)
]

string_split-append :
    (xs ys : List ℕ)
    → HasNoNul xs
    → string_split (xs ++ (slash ∷ ys)) slash ≡ string_split xs slash ++ string_split ys slash
unfolding string_split
string_split-append xs ys h = split_from-append [] xs ys h

walk-append : (xs ys stack : List (List ℕ)) → walk (xs ++ ys) stack ≡ walk ys (walk xs stack)
walk-append [] ys stack = refl
walk-append (x ∷ xs) ys stack = walk-append xs ys _

-- A path that does not begin with `/` is resolved from the directory that the working directory
-- stands for, and any other path from the root.
pub get_standard_path-walk :
    (base path : List ℕ) (x : ℕ)
    → HasNoNul base
    → let start = if slash == x then [] else walk (string_split base slash) [] in
      get_standard_path base (x ∷ path)
      ≡ or_root (join (reversed (walk (string_split (x ∷ path) slash) start)))
unfolding get_standard_path get_abs_path
get_standard_path-walk base path x h = elim (Bool-cases (slash == x)) [
  | inl e ↦ rw e (canonicalize_path-walk (x ∷ path))
  | inr e ↦ rw e (
      canonicalize_path-walk (base ++ (slash ∷ x ∷ path))
      ∙ ap (λ ss. or_root (join (reversed (walk ss [])))) (string_split-append base (x ∷ path) h)
      ∙ ap (λ ss. or_root (join (reversed ss)))
          (walk-append (string_split base slash) (string_split (x ∷ path) slash) []))
]
