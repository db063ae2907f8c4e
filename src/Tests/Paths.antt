-- ===== src/Tests/Paths.antt =====
-- Paths, with `/` for 47, `.` for 46 and letters from 97 on.
use libhdfs.Prelude.{◌≡◌, refl, [], ◌∷◌}
use libhdfs.Paths.Split.{string_split, split_from, push_token}
use libhdfs.Paths.Canonical.{
  canonicalize_path, canonicalize_path-walk, component, visit, backwards, join, or_root, slash,
  walk, reversed,
}
use libhdfs.Paths.Rejoin.{AreNames, canonicalize_path_twice}
use libhdfs.Paths.Absolute.{get_standard_path, get_standard_path-walk}

-- `/a/./b//../c` is `/a/c`, and `/..` is `/`.
canonicalize_path_dots :
    canonicalize_path (47 ∷ 97 ∷ 47 ∷ 46 ∷ 47 ∷ 98 ∷ 47 ∷ 47 ∷ 46 ∷ 46 ∷ 47 ∷ 99 ∷ [])
    ≡ 47 ∷ 97 ∷ 47 ∷ 99 ∷ []
unfolding canonicalize_path component visit backwards join or_root string_split split_from
    push_token
canonicalize_path_dots = refl

canonicalize_path_root : canonicalize_path (47 ∷ 46 ∷ 46 ∷ []) ≡ 47 ∷ []
unfolding canonicalize_path component visit backwards join or_root string_split split_from
    push_token
canonicalize_path_root = refl

-- `../b` in the working directory `/a`.
get_standard_path-walk_example :
    get_standard_path (47 ∷ 97 ∷ []) (46 ∷ 46 ∷ 47 ∷ 98 ∷ [])
    ≡ or_root (
        join (
          reversed (
            walk
              (string_split (46 ∷ 46 ∷ 47 ∷ 98 ∷ []) slash)
              (walk (string_split (47 ∷ 97 ∷ []) slash) []))))
get_standard_path-walk_example =
    get_standard_path-walk (47 ∷ 97 ∷ []) (46 ∷ 47 ∷ 98 ∷ []) 46 (refl, (refl, tt))

canonicalize_path-walk_example :
    canonicalize_path (47 ∷ 97 ∷ [])
    ≡ or_root (join (reversed (walk (string_split (47 ∷ 97 ∷ []) slash) [])))
canonicalize_path-walk_example = canonicalize_path-walk (47 ∷ 97 ∷ [])

canonicalize_path_twice_example :
    AreNames (string_split (canonicalize_path (97 ∷ 47 ∷ 46 ∷ [])) slash)
    × (canonicalize_path (canonicalize_path (97 ∷ 47 ∷ 46 ∷ []))
        ≡ canonicalize_path (97 ∷ 47 ∷ 46 ∷ []))
canonicalize_path_twice_example = canonicalize_path_twice (97 ∷ 47 ∷ 46 ∷ [])
