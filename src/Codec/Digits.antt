-- ===== src/Codec/Digits.antt =====
-- The bytes of a number, the high one first, as WritableUtils writes and reads them.
use libhdfs.Prelude.{
  ℕ, zero, suc, ◌+◌, ◌*◌, ◌/◌, ◌%◌, ◌^◌, ◌≤◌, ◌<◌, ◌≡◌, refl, ap, ◌∙◌, arith, ◌==◌, List, [], ◌∷◌,
  length, mod_of_sum, Bool-cases, inl, inr,
}
use native.Mathlib.Nat.{div-add-mod', mod-lt, pow-suc}
use libhdfs.Codec.Writable.{byte_count}

-- The `k` low bytes of `n`.
unfoldable pub digits : ℕ → ℕ → List ℕ
digits zero n = []
digits (suc k) n = (n / 256 ^ k % 256) ∷ digits k n

pub length-digits : (k n : ℕ) → length (digits k n) ≡ k
unfolding digits
length-digits zero n = refl
length-digits (suc k) n = ap suc (length-digits k n)

pub pow_pos : (k : ℕ) → 0 < 256 ^ k
pow_pos zero = omega arith
pow_pos (suc k) = omega (arith, pow_pos k, pow-suc 256 k)

next_part : (b n : ℕ) → 0 < b → n % (b * 256) ≡ n / b % 256 * b + n % b
next_part b n hb =
    let d = n / b in
    let split : n ≡ d / 256 * (b * 256) + (d % 256 * b + n % b) =
      omega (arith, div-add-mod' n b, ap (λ t. t * b) (div-add-mod' d 256)) in
    let low = mod-lt n hb in
    let one : d % 256 ≤ 255 = omega arith in
    let scaled : d % 256 * b ≤ 255 * b = grind arith in
    let small : d % 256 * b + n % b < b * 256 = omega arith in
    ap (λ t. t % (b * 256)) split ∙ mod_of_sum (d / 256) (b * 256) (d % 256 * b + n % b) small

-- The low k + 1 bytes are the next byte over the low k.
pub next_digit : (k n : ℕ) → n % 256 ^ suc k ≡ n / 256 ^ k % 256 * 256 ^ k + n % 256 ^ k
next_digit k n = ap (λ t. n % t) (pow-suc 256 k) ∙ next_part (256 ^ k) n (pow_pos k)

pub byte_count_bound : (fuel n : ℕ) → n < 256 ^ fuel → n < 256 ^ byte_count fuel n
unfolding byte_count
byte_count_bound zero n h = h
byte_count_bound (suc fuel) n h = elim (Bool-cases (n == 0)) [
  | inl e ↦ rw e (ground arith)
  | inr e ↦
      let small : n / 256 < 256 ^ fuel = omega (arith, pow-suc 256 fuel) in
      let ih = byte_count_bound fuel (n / 256) small in
      rw e (omega (arith, pow-suc 256 (byte_count fuel (n / 256))))
]

pub byte_count-le : (fuel n : ℕ) → byte_count fuel n ≤ fuel
unfolding byte_count
byte_count-le zero n = omega arith
byte_count-le (suc fuel) n = ground (arith, byte_count-le fuel (n / 256))
