-- ===== src/Bytes/Or.antt =====
-- `|` of a number and of bits above it is their sum.
use libhdfs.Prelude.{ℕ, zero, suc, ◌+◌, ◌*◌, ◌/◌, ◌%◌, ◌^◌, ◌<◌, ◌≡◌, ap, arith}
use Prim.Native.Nat.{bit_or, bit_or-bitwise, max}
use native.Mathlib.Nat.{pow-suc}
use libhdfs.Bytes.Bits.{bits_halves}

pub zero-or : (b : ℕ) → bit_or 0 b ≡ b
zero-or b = bit_or-bitwise 0 b

or_halves : (x y : ℕ) → bit_or x y ≡ 2 * bit_or (x / 2) (y / 2) + max (x % 2) (y % 2)
or_halves zero y = let p = zero-or y in let q = zero-or (y / 2) in omega arith
or_halves (suc x) y =
    let p = bit_or-bitwise (suc x) y in
    let q = bit_or-bitwise (suc x / 2) (y / 2) in omega (arith, bits_halves max x y)

-- The bits of `a` are below bit `k`, and those of the other from bit `k` on.
pub or_disjoint : (k a x : ℕ) → a < 2 ^ k → bit_or a (x * 2 ^ k) ≡ a + x * 2 ^ k
or_disjoint zero zero x h = omega (arith, zero-or (x * 2 ^ 0))
or_disjoint zero (suc a) x h = absurd (omega arith)
or_disjoint (suc k) a x h =
    let e : x * 2 ^ suc k ≡ 2 * (x * 2 ^ k) = grind (arith, ap (λ t. x * t) (pow-suc 2 k)) in
    let half : 2 * (x * 2 ^ k) / 2 ≡ x * 2 ^ k = omega arith in
    rw e (
      omega (
        arith,
        or_halves a (2 * (x * 2 ^ k)),
        half,
        ap (bit_or (a / 2)) half,
        or_disjoint k (a / 2) x (omega (arith, pow-suc 2 k)),
      ))
