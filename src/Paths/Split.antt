-- ===== src/Paths/Split.antt =====
-- StringSplit of src/common/StringUtil.h: the tokens that `strtok_r` finds for a separator of one
-- character. A string is the list of its characters' codes.
use libhdfs.Prelude.{
  ℕ, ◌≡◌, ◌∙◌, sym, ap, ◌==◌, Bool-cases, inl, inr, if◌then◌else◌, false, List, [], ◌∷◌, ◌++◌,
}
use mathlib.Core.List.{append_assoc, append-nil}

-- A token that has come to its end: an empty one is none.
unfoldable pub push_token : List ℕ → List (List ℕ) → List (List ℕ)
push_token [] rest = rest
push_token (x ∷ xs) rest = (x ∷ xs) ∷ rest

-- The tokens from here on, behind the characters `token` of the one that is open. `s.data()` ends
-- at its first NUL for `strtok_r`.
unfoldable pub split_from : ℕ → List ℕ → List ℕ → List (List ℕ)
split_from sep token [] = push_token token []
split_from sep token (x ∷ xs) =
    let more = split_from sep (token ++ (x ∷ [])) xs in
    let next = push_token token (split_from sep [] xs) in
    if x == 0 then push_token token [] else if x == sep then next else more

unfoldable pub string_split : List ℕ → ℕ → List (List ℕ)
string_split str sep = split_from sep [] str

-- No separator and no NUL in a string.
abbrev pub IsPlain : ℕ → List ℕ → Type 0
IsPlain sep [] = Unit
IsPlain sep (x ∷ xs) = ((x == 0) ≡ false) × ((x == sep) ≡ false) × IsPlain sep xs

abbrev pub IsToken : ℕ → List ℕ → Type 0
IsToken sep [] = ⊥
IsToken sep (x ∷ xs) = IsPlain sep (x ∷ xs)

abbrev pub AreTokens : ℕ → List (List ℕ) → Type 0
AreTokens sep [] = Unit
AreTokens sep (t ∷ ts) = IsToken sep t × AreTokens sep ts

IsPlain-append :
    (sep : ℕ) (xs : List ℕ) (x : ℕ)
    → IsPlain sep xs
    → (x == 0) ≡ false
    → (x == sep) ≡ false
    → IsPlain sep (xs ++ (x ∷ []))
IsPlain-append sep [] x p z s = (z, s, tt)
IsPlain-append sep (y ∷ ys) x (a, b, p) z s = (a, b, IsPlain-append sep ys x p z s)

push_token-AreTokens :
    (sep : ℕ) (t : List ℕ) (ts : List (List ℕ))
    → IsPlain sep t
    → AreTokens sep ts
    → AreTokens sep (push_token t ts)
unfolding push_token
push_token-AreTokens sep [] ts p a = a
push_token-AreTokens sep (x ∷ xs) ts p a = (p, a)

split_from-AreTokens :
    (sep : ℕ) (t xs : List ℕ) → IsPlain sep t → AreTokens sep (split_from sep t xs)
unfolding split_from
split_from-AreTokens sep t [] p = push_token-AreTokens sep t [] p tt
split_from-AreTokens sep t (x ∷ xs) p = elim (Bool-cases (x == 0)) [
  | inl e ↦ rw e (push_token-AreTokens sep t [] p tt)
  | inr e ↦ elim (Bool-cases (x == sep)) [
    | inl f ↦
        rw (e, f)
          (push_token-AreTokens sep t (split_from sep [] xs) p (split_from-AreTokens sep [] xs tt))
    | inr f ↦ rw (e, f) (split_from-AreTokens sep (t ++ (x ∷ [])) xs (IsPlain-append sep t x p e f))
  ]
]

pub string_split-AreTokens : (str : List ℕ) (sep : ℕ) → AreTokens sep (string_split str sep)
unfolding string_split
string_split-AreTokens str sep = split_from-AreTokens sep [] str tt

-- The characters of a token are taken up one by one.
pub split_from-plain :
    (sep : ℕ) (t xs rest : List ℕ)
    → IsPlain sep xs
    → split_from sep t (xs ++ rest) ≡ split_from sep (t ++ xs) rest
unfolding split_from
split_from-plain sep t [] rest p = ap (λ u. split_from sep u rest) (sym (append-nil t))
split_from-plain sep t (x ∷ xs) rest (a, b, p) =
    rw (a, b)
      (split_from-plain sep (t ++ (x ∷ [])) xs rest p
        ∙ ap (λ u. split_from sep u rest) (append_assoc t (x ∷ []) xs))
