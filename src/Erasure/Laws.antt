-- ===== src/Erasure/Laws.antt =====
-- gfMul and gfInv with `^` make the bytes a field.
use libhdfs.Prelude.{
  ℕ, zero, suc, ◌+◌, ◌-◌, ◌%◌, ◌<◌, ◌≡◌, refl, ◌∙◌, sym, ap, ap₂, arith, ◌==◌, ◌||◌, true, false,
}
use Prim.Native.Nat.{bit_xor}
use libhdfs.Bytes.Xor.{xor-zero, xor-lt}
use libhdfs.Erasure.Tables.{gf_log_base}
use libhdfs.Erasure.Arithmetic.{gf_mul, gf_inv}
use libhdfs.Erasure.Powers.{
  log, doubled, doubled-lt, doubled-xor, doubled_add, doubled_comm, base-doubled, log_range,
  doubled_one, doubled_cycle, gf_mul-doubled,
}

gf_mul-zero_left : (b : ℕ) → gf_mul 0 b ≡ 0
unfolding gf_mul
gf_mul-zero_left b = refl

gf_mul-zero_right : (a : ℕ) → gf_mul a 0 ≡ 0
unfolding gf_mul
gf_mul-zero_right a = let t : (a == 0 || 0 == 0) ≡ true = ground arith in rw t refl

pub gf_mul_comm : (a b : ℕ) → gf_mul a b ≡ gf_mul b a
unfolding gf_mul
gf_mul_comm a b =
    let e : log a + log b ≡ log b + log a = omega arith in
    let t : (a == 0 || b == 0) ≡ (b == 0 || a == 0) = ground arith in rw (e, t) refl

pub gf_mul-lt : (a b : ℕ) → a < 256 → b < 256 → gf_mul a b < 256
gf_mul-lt zero b h k = rw (gf_mul-zero_left b) (omega arith)
gf_mul-lt (suc a) b h k =
    rw (gf_mul-doubled (suc a) b (omega arith) h k) (doubled-lt (log (suc a)) b k)

pub gf_mul_assoc :
    (a b c : ℕ) → a < 256 → b < 256 → c < 256 → gf_mul (gf_mul a b) c ≡ gf_mul a (gf_mul b c)
gf_mul_assoc zero b c h k l =
    ap (λ t. gf_mul t c) (gf_mul-zero_left b)
    ∙ gf_mul-zero_left c
    ∙ sym (gf_mul-zero_left (gf_mul b c))
gf_mul_assoc (suc a) b zero h k l =
    gf_mul-zero_right (gf_mul (suc a) b)
    ∙ sym (gf_mul-zero_right (suc a))
    ∙ ap (gf_mul (suc a)) (sym (gf_mul-zero_right b))
gf_mul_assoc (suc a) b (suc c) h k l =
    gf_mul_comm (gf_mul (suc a) b) (suc c)
    ∙ gf_mul-doubled (suc c) (gf_mul (suc a) b) (omega arith) l (gf_mul-lt (suc a) b h k)
    ∙ ap (doubled (log (suc c))) (gf_mul-doubled (suc a) b (omega arith) h k)
    ∙ doubled_comm (log (suc c)) (log (suc a)) b
    ∙ ap (doubled (log (suc a)))
        (sym (gf_mul-doubled (suc c) b (omega arith) l k) ∙ gf_mul_comm (suc c) b)
    ∙ sym (gf_mul-doubled (suc a) (gf_mul b (suc c)) (omega arith) h (gf_mul-lt b (suc c) k l))

pub one-gf_mul : (b : ℕ) → b < 256 → gf_mul 1 b ≡ b
one-gf_mul b h =
    gf_mul-doubled 1 b (omega arith) (omega arith) h ∙ unfold gf_log_base in doubled_cycle b h

pub gf_mul-xor :
    (a x y : ℕ)
    → a < 256
    → x < 256
    → y < 256
    → gf_mul a (bit_xor x y) ≡ bit_xor (gf_mul a x) (gf_mul a y)
gf_mul-xor zero x y h k l =
    gf_mul-zero_left (bit_xor x y)
    ∙ sym (xor-zero 0)
    ∙ sym (ap₂ bit_xor (gf_mul-zero_left x) (gf_mul-zero_left y))
gf_mul-xor (suc a) x y h k l =
    gf_mul-doubled (suc a) (bit_xor x y) (omega arith) h (xor-lt 8 x y k l)
    ∙ doubled-xor (log (suc a)) x y k l
    ∙ sym (
        ap₂ bit_xor (gf_mul-doubled (suc a) x (omega arith) h k)
          (gf_mul-doubled (suc a) y (omega arith) h l))

gf_inv-doubled : (a : ℕ) → 0 < a → a < 256 → gf_inv a ≡ doubled (255 - log a) 1
unfolding gf_inv
gf_inv-doubled a h k =
    let (p, q, e) = log_range a h k in
    let t : (a == 0) ≡ false = ground arith in
    let i : (511 - log a) % 256 ≡ 255 - log a = omega arith in
    rw (t, i) (base-doubled (255 - log a) (omega arith))

pub gf_inv-lt : (a : ℕ) → a < 256 → gf_inv a < 256
gf_inv-lt zero h = unfold gf_inv in omega arith
gf_inv-lt (suc a) h =
    rw (gf_inv-doubled (suc a) (omega arith) h) (doubled-lt (255 - log (suc a)) 1 (omega arith))

pub gf_mul-gf_inv : (a : ℕ) → 0 < a → a < 256 → gf_mul a (gf_inv a) ≡ 1
gf_mul-gf_inv a h k =
    let (p, q, e) = log_range a h k in
    let s : log a + (255 - log a) ≡ 255 = omega arith in
    gf_mul-doubled a (gf_inv a) h k (gf_inv-lt a k)
    ∙ ap (doubled (log a)) (gf_inv-doubled a h k)
    ∙ sym (doubled_add (log a) (255 - log a) 1)
    ∙ ap (λ n. doubled n 1) s
    ∙ doubled_one

-- Bytes with `^` as addition and gfMul as multiplication are a field: gfMul is commutative,
-- associative and distributes over `^`, 1 is neutral for it, and gfInv of a byte other than 0 is
-- its inverse.
pub gf_mul-IsField :
    (a b c : ℕ)
    → a < 256
    → b < 256
    → c < 256
    → (gf_mul a b ≡ gf_mul b a)
      × (gf_mul (gf_mul a b) c ≡ gf_mul a (gf_mul b c))
      × (gf_mul a (bit_xor b c) ≡ bit_xor (gf_mul a b) (gf_mul a c))
      × (gf_mul 1 a ≡ a)
      × (0 < a → gf_mul a (gf_inv a) ≡ 1)
gf_mul-IsField a b c h k l = (
  gf_mul_comm a b,
  gf_mul_assoc a b c h k l,
  gf_mul-xor a b c h k l,
  one-gf_mul a h,
  λ p. gf_mul-gf_inv a p h,
)
