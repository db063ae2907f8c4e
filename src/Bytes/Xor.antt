-- ===== src/Bytes/Xor.antt =====
-- The laws of `^` on numbers, from the law for the lowest bit.
use libhdfs.Prelude.{ℕ, zero, suc, ◌+◌, ◌*◌, ◌/◌, ◌%◌, ◌^◌, ◌≤◌, ◌<◌, ◌≡◌, refl, ◌∙◌, ap, arith}
use Prim.Native.Nat.{bit_xor, bit_xor-bitwise, differ}
use native.Mathlib.Nat.{pow-suc}
use libhdfs.Bytes.Bits.{bits_halves}

differ-sum : (x y : ℕ) → x ≤ 1 → y ≤ 1 → differ x y ≡ (x + y) % 2
differ-sum zero y h k = omega arith
differ-sum (suc x) zero h k = omega arith
differ-sum (suc x) (suc y) h k = let p = zero_of x h in let q = zero_of y k in rw (p, q) refl
  where
    zero_of : (n : ℕ) → suc n ≤ 1 → n ≡ 0
    zero_of n l = omega arith

pub zero-xor : (b : ℕ) → bit_xor 0 b ≡ b
zero-xor b = bit_xor-bitwise 0 b

xor_step : (x y : ℕ) → bit_xor x y ≡ 2 * bit_xor (x / 2) (y / 2) + (x + y) % 2
xor_step zero y = let p = zero-xor y in let q = zero-xor (y / 2) in omega arith
xor_step (suc x) y =
    let p = bit_xor-bitwise (suc x) y in
    let q = bit_xor-bitwise (suc x / 2) (y / 2) in
    omega
      (arith, bits_halves differ x y, differ-sum (suc x % 2) (y % 2) (omega arith) (omega arith))

xor_comm_fuel : (n a b : ℕ) → a ≤ n → b ≤ n → bit_xor a b ≡ bit_xor b a
xor_comm_fuel zero zero zero p q = refl
xor_comm_fuel zero (suc a) b p q = absurd (omega arith)
xor_comm_fuel zero zero (suc b) p q = absurd (omega arith)
xor_comm_fuel (suc n) a b p q =
    omega (
      arith,
      xor_step a b,
      xor_step b a,
      xor_comm_fuel n (a / 2) (b / 2) (omega arith) (omega arith),
    )

pub xor_comm : (a b : ℕ) → bit_xor a b ≡ bit_xor b a
xor_comm a b = xor_comm_fuel (a + b) a b (omega arith) (omega arith)

pub xor-zero : (a : ℕ) → bit_xor a 0 ≡ a
xor-zero a = xor_comm a 0 ∙ zero-xor a

xor_self_fuel : (n a : ℕ) → a ≤ n → bit_xor a a ≡ 0
xor_self_fuel zero zero h = refl
xor_self_fuel zero (suc a) h = absurd (omega arith)
xor_self_fuel (suc n) a h = omega (arith, xor_step a a, xor_self_fuel n (a / 2) (omega arith))

pub xor_self : (a : ℕ) → bit_xor a a ≡ 0
xor_self a = xor_self_fuel a a (omega arith)

xor_halves :
    (a b : ℕ) → (bit_xor a b / 2 ≡ bit_xor (a / 2) (b / 2)) × (bit_xor a b % 2 ≡ (a + b) % 2)
xor_halves a b = omega (arith, xor_step a b)

xor_assoc_fuel :
    (n a b c : ℕ) → a ≤ n → b ≤ n → c ≤ n → bit_xor (bit_xor a b) c ≡ bit_xor a (bit_xor b c)
xor_assoc_fuel zero zero zero zero p q r = refl
xor_assoc_fuel zero (suc a) b c p q r = absurd (omega arith)
xor_assoc_fuel zero zero (suc b) c p q r = absurd (omega arith)
xor_assoc_fuel zero zero zero (suc c) p q r = absurd (omega arith)
xor_assoc_fuel (suc n) a b c p q r =
    let (h, l) = xor_halves a b in
    let (h', l') = xor_halves b c in
    let ih = xor_assoc_fuel n (a / 2) (b / 2) (c / 2) (omega arith) (omega arith) (omega arith) in
    let left : bit_xor (bit_xor a b) c
        ≡ 2 * bit_xor (bit_xor (a / 2) (b / 2)) (c / 2) + (bit_xor a b + c) % 2 =
      rw (← h) (xor_step (bit_xor a b) c) in
    let right : bit_xor a (bit_xor b c)
        ≡ 2 * bit_xor (a / 2) (bit_xor (b / 2) (c / 2)) + (a + bit_xor b c) % 2 =
      rw (← h') (xor_step a (bit_xor b c)) in
    omega arith

pub xor_assoc : (a b c : ℕ) → bit_xor (bit_xor a b) c ≡ bit_xor a (bit_xor b c)
xor_assoc a b c = xor_assoc_fuel (a + b + c) a b c (omega arith) (omega arith) (omega arith)

-- Numbers of `k` bits.
pub xor-lt : (k a b : ℕ) → a < 2 ^ k → b < 2 ^ k → bit_xor a b < 2 ^ k
xor-lt zero zero zero p q = omega arith
xor-lt zero (suc a) b p q = absurd (omega arith)
xor-lt zero zero (suc b) p q = absurd (omega arith)
xor-lt (suc k) a b p q = omega (
  arith,
  xor_step a b,
  xor-lt k (a / 2) (b / 2) (omega (arith, pow-suc 2 k)) (omega (arith, pow-suc 2 k)),
  pow-suc 2 k,
)

-- Bits above those of the other number stay.
pub xor_above :
    (k y r m : ℕ) → y < 2 ^ k → m < 2 ^ k → bit_xor (y + r * 2 ^ k) m ≡ bit_xor y m + r * 2 ^ k
xor_above zero zero r zero h p = omega (arith, xor-zero (0 + r * 2 ^ 0))
xor_above zero (suc y) r m h p = absurd (omega arith)
xor_above zero zero r (suc m) h p = absurd (omega arith)
xor_above (suc k) y r m h p =
    let e : r * 2 ^ suc k ≡ 2 * (r * 2 ^ k) = grind (arith, ap (λ t. r * t) (pow-suc 2 k)) in
    let half : (y + 2 * (r * 2 ^ k)) / 2 ≡ y / 2 + r * 2 ^ k = omega arith in
    rw e (
      omega (
        arith,
        xor_step (y + 2 * (r * 2 ^ k)) m,
        xor_step y m,
        ap (λ t. bit_xor t (m / 2)) half,
        xor_above k (y / 2) r (m / 2) (omega (arith, pow-suc 2 k)) (omega (arith, pow-suc 2 k)),
      ))
