-- ===== src/Permission.antt =====
-- src/client/Permission.h and Permission.cpp: the actions of a permission and its 16-bit flag.
use libhdfs.Prelude.{
  ℕ, zero, suc, max, ◌+◌, ◌-◌, ◌*◌, ◌/◌, ◌%◌, ◌^◌, ◌<◌, ◌≡◌, refl, arith, ◌==◌, if◌then◌else◌, Bool,
  true, false, List, [], ◌∷◌, ◌++◌,
}

pub data Action : Type 0 where
  none execute write write_execute read read_execute read_write all : Action

-- The enumerator's value.
unfoldable pub to_uint : Action → ℕ
to_uint none = 0
to_uint execute = 1
to_uint write = 2
to_uint write_execute = 3
to_uint read = 4
to_uint read_execute = 5
to_uint read_write = 6
to_uint all = 7

-- `(Action)` of a number below 8.
unfoldable pub of_uint : ℕ → Action
of_uint n =
    if n == 0
    then none
    else if n == 1
    then execute
    else if n == 2
    then write
    else if n == 3
    then write_execute
    else if n == 4
    then read
    else if n == 5
    then read_execute
    else if n == 6
    then read_write
    else all

-- `&` and `|` of numbers of `width` bits; an Action's value has three.
unfoldable pub and_bits : ℕ → ℕ → ℕ → ℕ
and_bits zero a b = 0
and_bits (suc width) a b = a % 2 * (b % 2) + 2 * and_bits width (a / 2) (b / 2)

unfoldable pub or_bits : ℕ → ℕ → ℕ → ℕ
or_bits zero a b = 0
or_bits (suc width) a b = max (a % 2) (b % 2) + 2 * or_bits width (a / 2) (b / 2)

unfoldable pub implies : Action → Action → Bool
implies a b = and_bits 3 (to_uint a) (to_uint b) == to_uint b

unfoldable pub action_and : Action → Action → Action
action_and a b = of_uint (and_bits 3 (to_uint a) (to_uint b))

unfoldable pub action_or : Action → Action → Action
action_or a b = of_uint (or_bits 3 (to_uint a) (to_uint b))

unfoldable pub complement : Action → Action
complement a = of_uint (7 - to_uint a)

-- The characters of the strings.
pub data Letter : Type 0 where
  dash r w x : Letter

unfoldable pub action_to_string : Action → List Letter
action_to_string none = dash ∷ dash ∷ dash ∷ []
action_to_string execute = dash ∷ dash ∷ x ∷ []
action_to_string write = dash ∷ w ∷ dash ∷ []
action_to_string write_execute = dash ∷ w ∷ x ∷ []
action_to_string read = r ∷ dash ∷ dash ∷ []
action_to_string read_execute = r ∷ dash ∷ x ∷ []
action_to_string read_write = r ∷ w ∷ dash ∷ []
action_to_string all = r ∷ w ∷ x ∷ []

pub record Permission : Type 0 where
  pub user_action : Action
  pub group_action : Action
  pub other_action : Action
  pub sticky_bit : Bool

-- The two constructors.
unfoldable pub of_actions : Action → Action → Action → Permission
of_actions u g o = record {
  user_action = u;
  group_action = g;
  other_action = o;
  sticky_bit = false;
}

unfoldable pub of_mode : ℕ → Permission
of_mode mode = record {
  user_action = of_uint (mode / 64 % 8);
  group_action = of_uint (mode / 8 % 8);
  other_action = of_uint (mode % 8);
  sticky_bit = mode / 512 % 2 == 1;
}

unfoldable pub to_short : Permission → ℕ
to_short p =
    (to_uint p.user_action * 64
      + to_uint p.group_action * 8
      + to_uint p.other_action
      + (if p.sticky_bit then 512 else 0))
    % 2 ^ 16

unfoldable pub to_string : Permission → List Letter
to_string p =
    action_to_string p.user_action
    ++ (action_to_string p.group_action ++ action_to_string p.other_action)

of_uint-to_uint : (a : Action) → of_uint (to_uint a) ≡ a
unfolding of_uint to_uint
of_uint-to_uint none = refl
of_uint-to_uint execute = refl
of_uint-to_uint write = refl
of_uint-to_uint write_execute = refl
of_uint-to_uint read = refl
of_uint-to_uint read_execute = refl
of_uint-to_uint read_write = refl
of_uint-to_uint all = refl

to_uint-small : (a : Action) → to_uint a < 8
unfolding to_uint
to_uint-small none = omega arith
to_uint-small execute = omega arith
to_uint-small write = omega arith
to_uint-small write_execute = omega arith
to_uint-small read = omega arith
to_uint-small read_execute = omega arith
to_uint-small read_write = omega arith
to_uint-small all = omega arith

to_uint-of_uint : (n : ℕ) → n < 8 → to_uint (of_uint n) ≡ n
unfolding of_uint to_uint
to_uint-of_uint n h = ground arith

-- The digits of a flag.
module _ (u g o : ℕ) (hu : u < 8) (hg : g < 8) (ho : o < 8) (s : ℕ) (hs : s < 2) where
  digits :
      let flag = (u * 64 + g * 8 + o + s * 512) % 2 ^ 16 in
      (flag / 64 % 8 ≡ u) × (flag / 8 % 8 ≡ g) × (flag % 8 ≡ o) × (flag / 512 % 2 ≡ s)
  digits = (omega arith, omega arith, omega arith, omega arith)

-- A permission comes back from its flag, and of a 16-bit flag the low ten bits come back from its
-- permission.
pub of_mode-to_short :
    ((p : Permission) → of_mode (to_short p) ≡ p)
    × ((mode : ℕ) → to_short (of_mode mode) ≡ mode % 1024)
unfolding of_mode to_short
of_mode-to_short = (back, forth)
  where
    four : Action → Action → Action → Bool → Permission
    four u g o s = record { user_action = u; group_action = g; other_action = o; sticky_bit = s }

    back_with :
        (u g o : Action) (s : Bool) (n : ℕ)
        → (if s then 512 else 0) ≡ n * 512
        → n < 2
        → (n == 1) ≡ s
        → of_mode (to_short (four u g o s)) ≡ four u g o s
    back_with u g o s n e h f =
        let (a, b, c, d) =
          digits (to_uint u) (to_uint g) (to_uint o) (to_uint-small u) (to_uint-small g)
            (to_uint-small o) n h in
        rw (e, a, b, c, d, of_uint-to_uint u, of_uint-to_uint g, of_uint-to_uint o, f) refl

    back_for : (u g o : Action) (s : Bool) → of_mode (to_short (four u g o s)) ≡ four u g o s
    back_for u g o true = back_with u g o true 1 refl (omega arith) refl
    back_for u g o false = back_with u g o false 0 refl (omega arith) refl

    back : (p : Permission) → of_mode (to_short p) ≡ p
    back p = back_for p.user_action p.group_action p.other_action p.sticky_bit

    forth : (mode : ℕ) → to_short (of_mode mode) ≡ mode % 1024
    forth mode =
        let u = to_uint-of_uint (mode / 64 % 8) (omega arith) in
        let g = to_uint-of_uint (mode / 8 % 8) (omega arith) in
        let o = to_uint-of_uint (mode % 8) (omega arith) in rw (u, g, o) (ground arith)

abbrev pub letter : Letter → Bool → Letter
letter l b = if b then l else dash

-- The string of an action spells out which of reading, writing and executing it implies, and an
-- action and its complement share nothing and make up everything.
pub action_to_string-implies :
    (a : Action)
    → (action_to_string a
        ≡ letter r (implies a read)
          ∷ letter w (implies a write)
          ∷ letter x (implies a execute)
          ∷ [])
      × (action_and a (complement a) ≡ none)
      × (action_or a (complement a) ≡ all)
unfolding action_to_string implies action_and action_or complement and_bits or_bits to_uint of_uint
action_to_string-implies none = (refl, refl, refl)
action_to_string-implies execute = (refl, refl, refl)
action_to_string-implies write = (refl, refl, refl)
action_to_string-implies write_execute = (refl, refl, refl)
action_to_string-implies read = (refl, refl, refl)
action_to_string-implies read_execute = (refl, refl, refl)
action_to_string-implies read_write = (refl, refl, refl)
action_to_string-implies all = (refl, refl, refl)
