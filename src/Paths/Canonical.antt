-- ===== src/Paths/Canonical.antt =====
-- CanonicalizePath of src/client/FileSystemImpl.cpp, and what it stands for: going through the
-- components from the root, one after the other.
use libhdfs.Prelude.{
  ℕ, zero, suc, ◌&&◌, ◌≡◌, refl, ◌∙◌, sym, ap, ◌==◌, if◌then◌else◌, List, [], ◌∷◌, ◌++◌, drop,
}
use mathlib.Core.List.{append_assoc, append-nil}
use libhdfs.Paths.Split.{string_split}

abbrev pub slash : ℕ
slash = 47

-- What the loop does with a component: nothing for `.`, one more to skip for `..`.
pub data Component : Type 0 where
  same parent name : Component

unfoldable pub component : List ℕ → Component
component [] = same
component (a ∷ []) = if a == 46 then same else name
component (a ∷ b ∷ []) = if a == 46 && b == 46 then parent else name
component (a ∷ b ∷ c ∷ cs) = name

-- One round of the loop: `skip` components of the path before this one are to be left out, and
-- `tmp` is what is kept of the ones behind it.
unfoldable pub visit : Component → List ℕ → ℕ × List (List ℕ) → ℕ × List (List ℕ)
visit same s (skip, tmp) = (skip, tmp)
visit parent s (skip, tmp) = (suc skip, tmp)
visit name s (zero, tmp) = (zero, s ∷ tmp)
visit name s (suc skip, tmp) = (skip, tmp)

-- The loop goes over the components from the last to the first.
unfoldable pub backwards : List (List ℕ) → ℕ × List (List ℕ)
backwards [] = (zero, [])
backwards (s ∷ components) = visit (component s) s (backwards components)

unfoldable pub join : List (List ℕ) → List ℕ
join [] = []
join (s ∷ tmp) = slash ∷ (s ++ join tmp)

unfoldable pub or_root : List ℕ → List ℕ
or_root [] = slash ∷ []
or_root (x ∷ xs) = x ∷ xs

unfoldable pub canonicalize_path : List ℕ → List ℕ
canonicalize_path path = or_root (join (backwards (string_split path slash)).1)

-- Walking down from the root: the directories that one is in, the innermost first.
abbrev pub enter : Component → List ℕ → List (List ℕ) → List (List ℕ)
enter same s stack = stack
enter parent s stack = drop 1 stack
enter name s stack = s ∷ stack

abbrev pub walk : List (List ℕ) → List (List ℕ) → List (List ℕ)
walk [] stack = stack
walk (s ∷ components) stack = walk components (enter (component s) s stack)

abbrev pub reversed : List (List ℕ) → List (List ℕ)
reversed [] = []
reversed (x ∷ xs) = reversed xs ++ (x ∷ [])

drop-suc : (n : ℕ) (xs : List (List ℕ)) → drop n (drop 1 xs) ≡ drop (suc n) xs
drop-suc zero [] = refl
drop-suc (suc n) [] = refl
drop-suc zero (x ∷ xs) = refl
drop-suc (suc n) (x ∷ xs) = refl

walk-enter :
    (k : Component) (s : List ℕ) (found : ℕ × List (List ℕ)) (stack : List (List ℕ))
    → reversed found.1 ++ drop found.0 (enter k s stack)
      ≡ reversed (visit k s found).1 ++ drop (visit k s found).0 stack
unfolding visit
walk-enter same s (skip, tmp) stack = refl
walk-enter parent s (skip, tmp) stack = ap (λ t. reversed tmp ++ t) (drop-suc skip stack)
walk-enter name s (zero, tmp) stack = sym (append_assoc (reversed tmp) (s ∷ []) stack)
walk-enter name s (suc skip, tmp) stack = refl

walk-backwards :
    (components stack : List (List ℕ))
    → walk components stack
      ≡ reversed (backwards components).1 ++ drop (backwards components).0 stack
unfolding backwards
walk-backwards [] stack = refl
walk-backwards (s ∷ components) stack =
    walk-backwards components (enter (component s) s stack)
    ∙ walk-enter (component s) s (backwards components) stack

drop_nil : (n : ℕ) → drop {A = List ℕ} n [] ≡ []
drop_nil zero = refl
drop_nil (suc n) = refl

reversed-append : (xs ys : List (List ℕ)) → reversed (xs ++ ys) ≡ reversed ys ++ reversed xs
reversed-append [] ys = sym (append-nil (reversed ys))
reversed-append (x ∷ xs) ys =
    rw (reversed-append xs ys) (append_assoc (reversed ys) (reversed xs) (x ∷ []))

reversed_twice : (xs : List (List ℕ)) → reversed (reversed xs) ≡ xs
reversed_twice [] = refl
reversed_twice (x ∷ xs) =
    reversed-append (reversed xs) (x ∷ []) ∙ ap (λ t. x ∷ t) (reversed_twice xs)

-- CanonicalizePath gives the directory that one reaches from the root by going through the path's
-- components from the first to the last, where `.` stays and `..` goes up, at the root nowhere.
pub canonicalize_path-walk :
    (path : List ℕ)
    → canonicalize_path path ≡ or_root (join (reversed (walk (string_split path slash) [])))
unfolding canonicalize_path
canonicalize_path-walk path =
    let found = backwards (string_split path slash) in
    let w : walk (string_split path slash) [] ≡ reversed found.1 =
      walk-backwards (string_split path slash) []
      ∙ ap (λ t. reversed found.1 ++ t) (drop_nil found.0)
      ∙ append-nil (reversed found.1) in
    ap (λ t. or_root (join t)) (sym (ap reversed w ∙ reversed_twice found.1))
