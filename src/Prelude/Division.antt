-- ===== src/Prelude/Division.antt =====
-- Quotients and remainders of a sum that is given as a multiple and a rest.
use Prim.Native.Nat.{ℕ, ◌+◌, ◌*◌, ◌/◌, ◌%◌, ◌≤◌, ◌<◌}
use mathlib.Core.Path.{◌≡◌, ◌∙◌}
use native.Mathlib.Nat.{mul-add-div_right, mul-add-mod_self_right, div-eq_of_lt, mod-eq_of_lt}
use native.Mathlib.Nat.{le-div_iff_mul-le, div-add-mod'}
use native.Mathlib.Omega.{arith}

pub div_of_sum : (q n s : ℕ) → s < n → (q * n + s) / n ≡ q
div_of_sum q n s h = omega (arith, mul-add-div_right {m = n} (omega arith) q s, div-eq_of_lt h)

pub mod_of_sum : (q n s : ℕ) → s < n → (q * n + s) % n ≡ s
mod_of_sum q n s h = mul-add-mod_self_right q n s ∙ mod-eq_of_lt h

pub div_mono : (n a b : ℕ) → 0 < n → a ≤ b → a / n ≤ b / n
div_mono n a b hn h = (le-div_iff_mul-le {k = n} hn).1 (omega (arith, div-add-mod' a n))
