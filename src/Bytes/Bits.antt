-- ===== src/Bytes/Bits.antt =====
-- An operation on the bits of two numbers works on the lowest bits and on the halves.
use libhdfs.Prelude.{ℕ, zero, suc, ◌+◌, ◌-◌, ◌*◌, ◌/◌, ◌%◌, ◌≤◌, ◌≡◌, refl, ◌∙◌, sym, ap, arith}
use Prim.Native.Nat.{digits}

module _ (g : ℕ → ℕ → ℕ) where
  abbrev pub bits : ℕ → ℕ → ℕ → ℕ
  bits count x y = digits (λ t. t) g count x y

  -- One round more than needed changes nothing.
  bits_more : (x count y : ℕ) → x ≤ count → bits (suc count) x y ≡ bits count x y
  bits_more zero zero y h = refl
  bits_more zero (suc count) y h = refl
  bits_more (suc x) zero y h = absurd (omega arith)
  bits_more (suc x) (suc count) y h =
      ap (λ t. t * 2 + g (suc x % 2) (y % 2)) (bits_more (suc x / 2) count (y / 2) (omega arith))

  bits_enough : (extra x y : ℕ) → bits (extra + x) x y ≡ bits x x y
  bits_enough zero x y = let e : 0 + x ≡ x = omega arith in ap (λ t. bits t x y) e
  bits_enough (suc extra) x y =
      let e : suc extra + x ≡ suc (extra + x) = omega arith in
      ap (λ t. bits t x y) e ∙ bits_more x (extra + x) y (omega arith) ∙ bits_enough extra x y

  pub bits_halves :
      (x y : ℕ)
      → bits (suc x) (suc x) y ≡ bits (suc x / 2) (suc x / 2) (y / 2) * 2 + g (suc x % 2) (y % 2)
  bits_halves x y =
      let half = suc x / 2 in
      let e : (x - half) + half ≡ x = omega arith in
      ap (λ t. bits t half (y / 2) * 2 + g (suc x % 2) (y % 2)) (sym e)
      ∙ ap (λ t. t * 2 + g (suc x % 2) (y % 2)) (bits_enough (x - half) half (y / 2))
