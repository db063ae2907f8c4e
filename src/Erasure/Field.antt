-- ===== src/Erasure/Field.antt =====
-- The interface between the byte arithmetic and the matrices: a field in which every element is its
-- own negative.
use libhdfs.Prelude.{ℕ, ◌<◌, ◌≡◌, arith, ◌==◌, Bool, true, false}
use Prim.Native.Nat.{bit_xor}
use mathlib.Core.HLevel.{Σ_prop_path}
use native.Mathlib.Bridge.{le_prop}
use libhdfs.Bytes.Xor.{xor-zero, xor-lt, xor_comm, xor_assoc, xor_self}
use libhdfs.Erasure.Arithmetic.{gf_mul, gf_inv}
use libhdfs.Erasure.Laws.{
  gf_mul_comm, gf_mul-lt, gf_mul_assoc, one-gf_mul, gf_mul-xor, gf_inv-lt, gf_mul-gf_inv,
}

pub record Field : Type 1 where
  pub F : Type 0
  pub zero_f : F
  pub one_f : F
  pub add : F → F → F
  pub mul : F → F → F
  pub inv : F → F
  pub is_zero : F → Bool
  pub add_zero : (a : F) → add a zero_f ≡ a
  pub add_comm : (a b : F) → add a b ≡ add b a
  pub add_assoc : (a b c : F) → add (add a b) c ≡ add a (add b c)
  pub add_self : (a : F) → add a a ≡ zero_f
  pub mul_comm : (a b : F) → mul a b ≡ mul b a
  pub mul_assoc : (a b c : F) → mul (mul a b) c ≡ mul a (mul b c)
  pub one_mul : (a : F) → mul one_f a ≡ a
  pub mul_add : (a b c : F) → mul a (add b c) ≡ add (mul a b) (mul a c)
  pub mul_inv : (a : F) → is_zero a ≡ false → mul a (inv a) ≡ one_f
  pub is_zero_sound : (a : F) → is_zero a ≡ true → a ≡ zero_f

abbrev pub Byte : Type 0
Byte = (n : ℕ) × (n < 256)

pub byte_eq : (a b : Byte) → a.0 ≡ b.0 → a ≡ b
byte_eq a b e = Σ_prop_path (λ n. le_prop) e

pub byte_inv : (a : Byte) → (a.0 == 0) ≡ false → gf_mul a.0 (gf_inv a.0) ≡ 1
byte_inv a e = gf_mul-gf_inv a.0 (ground arith) a.1

pub byte_zero : (a : Byte) → (a.0 == 0) ≡ true → a.0 ≡ 0
byte_zero a e = ground arith

pub small : (n : ℕ) → n < 2 → n < 256
small n h = omega arith

-- The bytes with `^`, gfMul and gfInv.
abbrev pub gf256 : Field
gf256 = record {
  F = Byte;
  zero_f = (0, small 0 (omega arith));
  one_f = (1, small 1 (omega arith));
  add = λ a b. (bit_xor a.0 b.0, xor-lt 8 a.0 b.0 a.1 b.1);
  mul = λ a b. (gf_mul a.0 b.0, gf_mul-lt a.0 b.0 a.1 b.1);
  inv = λ a. (gf_inv a.0, gf_inv-lt a.0 a.1);
  is_zero = λ a. a.0 == 0;
  add_zero = λ a. byte_eq _ a (xor-zero a.0);
  add_comm = λ a b. byte_eq _ _ (xor_comm a.0 b.0);
  add_assoc = λ a b c. byte_eq _ _ (xor_assoc a.0 b.0 c.0);
  add_self = λ a. byte_eq _ _ (xor_self a.0);
  mul_comm = λ a b. byte_eq _ _ (gf_mul_comm a.0 b.0);
  mul_assoc = λ a b c. byte_eq _ _ (gf_mul_assoc a.0 b.0 c.0 a.1 b.1 c.1);
  one_mul = λ a. byte_eq _ a (one-gf_mul a.0 a.1);
  mul_add = λ a b c. byte_eq _ _ (gf_mul-xor a.0 b.0 c.0 a.1 b.1 c.1);
  mul_inv = λ a e. byte_eq _ _ (byte_inv a e);
  is_zero_sound = λ a e. byte_eq _ _ (byte_zero a e);
}
