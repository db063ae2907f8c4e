-- ===== src/Erasure/Powers.antt =====
-- What the tables hold: multiplication is repeated doubling.
use libhdfs.Prelude.{
  ℕ, zero, suc, ◌+◌, ◌-◌, ◌*◌, ◌%◌, ◌≤◌, ◌<◌, ◌≡◌, refl, ◌∙◌, sym, ap, arith, ltb, leb, ◌==◌,
  ==_iff, ◌||◌, ◌&&◌, if◌then◌else◌, Bool, true, false, inl, inr, Bool-cases, get_or,
}
use Prim.Native.Nat.{bit_xor}
use libhdfs.Bytes.Xor.{xor-lt}
use libhdfs.Erasure.Tables.{gf_base, gf_log_base}
use libhdfs.Erasure.Arithmetic.{gf_mul, times_two}

-- A test of every number below a bound, the bound itself first.
unfoldable pub all_below : ℕ → (ℕ → Bool) → Bool
all_below zero test = true
all_below (suc bound) test = test bound && all_below bound test

pub below_holds :
    (bound : ℕ) (test : ℕ → Bool) (k : ℕ) → all_below bound test ≡ true → k < bound → test k ≡ true
unfolding all_below
below_holds zero test k passed h = absurd (omega arith)
below_holds (suc bound) test k passed h = let earlier = below_holds bound test k in ground arith

-- The logarithm of a byte other than 0, and the power.
abbrev pub log : ℕ → ℕ
log a = get_or gf_log_base a 0

-- 1 doubled `n` times.
pub doubled : ℕ → ℕ → ℕ
doubled zero c = c
doubled (suc n) c = times_two (doubled n c)

log_table :
    all_below 255 (λ a.
      leb 1 (log (a + 1)) && leb (log (a + 1)) 255 && (get_or gf_base (log (a + 1)) 0 == a + 1))
    ≡ true
unfolding all_below gf_base gf_log_base
log_table = refl

base_table : all_below 255 (λ n. get_or gf_base (n + 1) 0 == times_two (get_or gf_base n 0)) ≡ true
unfolding all_below gf_base times_two
base_table = refl

linear_table :
    all_below 256
      (λ x. all_below 256 (λ y. times_two (bit_xor x y) == bit_xor (times_two x) (times_two y)))
    ≡ true
unfolding all_below times_two
linear_table = refl

twos : (x y : ℕ) → x < 256 → y < 256 → times_two (bit_xor x y) ≡ bit_xor (times_two x) (times_two y)
twos x y h k = (==_iff _ _).0 (below_holds 256 _ y (below_holds 256 _ x linear_table h) k)

times_two-lt : (c : ℕ) → c < 256 → times_two c < 256
unfolding times_two
times_two-lt c h =
    xor-lt 8 (2 * c % 256) (if ltb 127 c then 0x1d else 0) (omega arith) (ground arith)

pub doubled-lt : (n c : ℕ) → c < 256 → doubled n c < 256
unfolding doubled
doubled-lt zero c h = h
doubled-lt (suc n) c h = times_two-lt (doubled n c) (doubled-lt n c h)

pub doubled-xor :
    (n x y : ℕ) → x < 256 → y < 256 → doubled n (bit_xor x y) ≡ bit_xor (doubled n x) (doubled n y)
unfolding doubled
doubled-xor zero x y h k = refl
doubled-xor (suc n) x y h k =
    ap times_two (doubled-xor n x y h k)
    ∙ twos (doubled n x) (doubled n y) (doubled-lt n x h) (doubled-lt n y k)

pub doubled-zero : (n : ℕ) → doubled n 0 ≡ 0
unfolding doubled times_two
doubled-zero zero = refl
doubled-zero (suc n) = rw (doubled-zero n) refl

pub doubled_add : (m n c : ℕ) → doubled (m + n) c ≡ doubled m (doubled n c)
unfolding doubled
doubled_add zero n c = let e : 0 + n ≡ n = omega arith in rw e refl
doubled_add (suc m) n c =
    let e : suc m + n ≡ suc (m + n) = omega arith in rw e (ap times_two (doubled_add m n c))

pub doubled_comm : (m n c : ℕ) → doubled m (doubled n c) ≡ doubled n (doubled m c)
doubled_comm m n c =
    let e : m + n ≡ n + m = omega arith in
    sym (doubled_add m n c) ∙ ap (λ k. doubled k c) e ∙ doubled_add n m c

pub base-doubled : (n : ℕ) → n ≤ 255 → get_or gf_base n 0 ≡ doubled n 1
unfolding doubled
base-doubled zero h = unfold gf_base in refl
base-doubled (suc n) h =
    let e : suc n ≡ n + 1 = omega arith in
    rw e ((==_iff _ _).0 (below_holds 255 _ n base_table (omega arith)))
    ∙ ap times_two (base-doubled n (omega arith))

-- A byte other than 0 is a power of 2.
pub log_range : (a : ℕ) → 0 < a → a < 256 → (1 ≤ log a) × (log a ≤ 255) × (doubled (log a) 1 ≡ a)
log_range a h k =
    let e : a - 1 + 1 ≡ a = omega arith in
    let t = below_holds 255 _ (a - 1) log_table (omega arith) in
    let t' : (leb 1 (log a) && leb (log a) 255 && (get_or gf_base (log a) 0 == a)) ≡ true =
      rw e at t in
    let l : log a ≤ 255 = ground arith in
    let b : get_or gf_base (log a) 0 ≡ a = ground arith in
    (ground arith, l, sym (base-doubled (log a) l) ∙ b)

pub doubled_one : doubled 255 1 ≡ 1
doubled_one = sym (base-doubled 255 (omega arith)) ∙ unfold gf_base in refl

-- The powers of 2 repeat after 255.
pub doubled_cycle : (c : ℕ) → c < 256 → doubled 255 c ≡ c
doubled_cycle zero h = doubled-zero 255
doubled_cycle (suc c) h =
    let (p, q, e) = log_range (suc c) (omega arith) h in
    ap (doubled 255) (sym e)
    ∙ doubled_comm 255 (log (suc c)) 1
    ∙ ap (doubled (log (suc c))) doubled_one
    ∙ e

-- gfMul by a byte other than 0 doubles as often as its logarithm says.
pub gf_mul-doubled : (a b : ℕ) → 0 < a → a < 256 → b < 256 → gf_mul a b ≡ doubled (log a) b
unfolding gf_mul
gf_mul-doubled a zero p h k =
    let t : (a == 0 || 0 == 0) ≡ true = ground arith in rw t (sym (doubled-zero (log a)))
gf_mul-doubled a (suc b) p h k =
    let (a1, a2, ea) = log_range a p h in
    let (b1, b2, eb) = log_range (suc b) (omega arith) k in
    let tmp = log a + log (suc b) in
    let t : (a == 0 || suc b == 0) ≡ false = ground arith in
    let sum : doubled tmp 1 ≡ doubled (log a) (suc b) =
      doubled_add (log a) (log (suc b)) 1 ∙ ap (doubled (log a)) eb in
    elim (Bool-cases (ltb 254 tmp)) [
      | inl u ↦
          let e : tmp - 255 + 255 ≡ tmp = ground arith in
          rw (t, u)
            (base-doubled (tmp - 255) (omega arith)
              ∙ ap (doubled (tmp - 255)) (sym doubled_one)
              ∙ sym (doubled_add (tmp - 255) 255 1)
              ∙ ap (λ n. doubled n 1) e
              ∙ sum)
      | inr u ↦ rw (t, u) (base-doubled tmp (ground arith) ∙ sum)
    ]
