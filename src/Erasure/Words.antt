-- ===== src/Erasure/Words.antt =====
-- The words of encodeData in src/client/RSUtil.cpp: eight bytes are loaded, mixed and stored together.
use libhdfs.Prelude.{
  ℕ, zero, suc, ◌+◌, ◌*◌, ◌/◌, ◌%◌, ◌^◌, ◌≤◌, ◌<◌, ◌≡◌, refl, ◌∙◌, sym, ap, arith, List, [], ◌∷◌,
  length,
}
use Prim.Native.Nat.{bit_xor, bit_or}
use native.Mathlib.Nat.{pow-suc, pow-le-pow_right}
use libhdfs.Bytes.Xor.{xor_above, xor-lt}
use libhdfs.Bytes.Or.{zero-or, or_disjoint}
use libhdfs.Erasure.Arithmetic.{gf_mul}
use libhdfs.Erasure.Laws.{gf_mul-lt}

-- The eight bytes at an address, as the little-endian `unsigned long long` there.
abbrev pub load : List ℕ → ℕ
load [] = 0
load (b ∷ bs) = b + 256 * load bs

abbrev pub store : ℕ → ℕ → List ℕ
store zero v = []
store (suc n) v = v % 256 ∷ store n (v / 256)

-- `static_cast<unsigned char>(t2 ^ tableLine[0xff & t1])`
unfoldable pub mix_byte : ℕ → ℕ → ℕ → ℕ
mix_byte s t1 t2 = bit_xor t2 (gf_mul s (t1 % 256)) % 256

-- The loop over `k`.
unfoldable pub mix_bytes : ℕ → ℕ → ℕ → ℕ → ℕ → ℕ → ℕ
mix_bytes zero s t1 t2 t3 t4 = t3
mix_bytes (suc k) s t1 t2 t3 t4 =
    mix_bytes k s (t1 / 256) (t2 / 256)
      (bit_or t3 (mix_byte s (t1 / 256) (t2 / 256) * 2 ^ (t4 + 8) % 2 ^ 64)) (t4 + 8)

unfoldable pub mix_word : ℕ → ℕ → ℕ → ℕ
mix_word s t1 t2 = mix_bytes 7 s t1 t2 (bit_or 0 (mix_byte s t1 t2)) 0

-- Byte by byte: `out ^= table[in]`.
abbrev pub mixed : ℕ → List ℕ → List ℕ → List ℕ
mixed s [] ys = []
mixed s (x ∷ xs) [] = []
mixed s (x ∷ xs) (y ∷ ys) = bit_xor y (gf_mul s x) ∷ mixed s xs ys

abbrev pub AllBytes : List ℕ → Type 0
AllBytes [] = Unit
AllBytes (b ∷ bs) = (b < 256) × AllBytes bs

mix_byte-low :
    (s x y p q : ℕ)
    → s < 256
    → x < 256
    → y < 256
    → mix_byte s (x + 256 * p) (y + 256 * q) ≡ bit_xor y (gf_mul s x)
unfolding mix_byte
mix_byte-low s x y p q hs hx hy =
    let m = gf_mul s x in
    let low : (x + 256 * p) % 256 ≡ x = omega arith in
    let hm : m < 256 = gf_mul-lt s x hs hx in
    let small = xor-lt 8 y m hy hm in
    let e : q * 2 ^ 8 ≡ 256 * q = omega arith in
    rw low (omega (arith, xor_above 8 y q m hy hm, ap (λ t. bit_xor (y + t) m) e))

pow_eight : (n : ℕ) → 2 ^ (n + 8) ≡ 2 ^ n * 256
pow_eight zero = refl
pow_eight (suc n) =
    let e : suc n + 8 ≡ suc (n + 8) = omega arith in
    omega (arith, ap (λ t. 2 ^ t) e, pow-suc 2 (n + 8), pow-suc 2 n, pow_eight n)

scaled_byte-lt : (b p t : ℕ) → b < 256 → t < p → t + b * p < p * 256
scaled_byte-lt b p t h k = let top : b * p ≤ 255 * p = grind arith in omega arith

mix_bytes-load :
    (k s x y t3 t4 : ℕ) (xs ys : List ℕ)
    → s < 256
    → length xs ≡ k
    → length ys ≡ k
    → AllBytes xs
    → AllBytes ys
    → x < 256
    → y < 256
    → t3 < 2 ^ (t4 + 8)
    → t4 + 8 * (k + 1) ≤ 64
    → mix_bytes k s (x + 256 * load xs) (y + 256 * load ys) t3 t4
      ≡ t3 + load (mixed s xs ys) * 2 ^ (t4 + 8)
unfolding mix_bytes
mix_bytes-load zero s x y t3 t4 [] [] hs l m b c hx hy h bound = omega arith
mix_bytes-load zero s x y t3 t4 (x' ∷ xs) ys hs l m b c hx hy h bound = absurd (omega arith)
mix_bytes-load zero s x y t3 t4 [] (y' ∷ ys) hs l m b c hx hy h bound = absurd (omega arith)
mix_bytes-load (suc k) s x y t3 t4 [] ys hs l m b c hx hy h bound = absurd (omega arith)
mix_bytes-load (suc k) s x y t3 t4 (x' ∷ xs) [] hs l m b c hx hy h bound = absurd (omega arith)
mix_bytes-load (suc k) s x y t3 t4 (x' ∷ xs) (y' ∷ ys) hs l m (b, bs) (c, cs) hx hy h bound =
    let p = 2 ^ (t4 + 8) in
    let m' = bit_xor y' (gf_mul s x') in
    let small : m' < 256 = xor-lt 8 y' (gf_mul s x') c (gf_mul-lt s x' hs b) in
    let ex : (x + 256 * (x' + 256 * load xs)) / 256 ≡ x' + 256 * load xs = omega arith in
    let ey : (y + 256 * (y' + 256 * load ys)) / 256 ≡ y' + 256 * load ys = omega arith in
    let low = mix_byte-low s x' y' (load xs) (load ys) hs b c in
    let bound' : t3 + m' * p < 2 ^ (t4 + 8 + 8) =
      omega (arith, scaled_byte-lt m' p t3 small h, pow_eight (t4 + 8)) in
    let top : 2 ^ (t4 + 8 + 8) ≤ 2 ^ 64 = pow-le-pow_right (omega arith) {j = 64} (omega arith) in
    let fits : m' * p % 2 ^ 64 ≡ m' * p = omega arith in
    let rest = load (mixed s xs ys) in
    let ih =
      mix_bytes-load k s x' y' (t3 + m' * p) (t4 + 8) xs ys hs (omega arith) (omega arith) bs cs b c
        bound' (omega arith) in
    let sum : rest * 2 ^ (t4 + 8 + 8) ≡ 256 * rest * p =
      grind (arith, ap (λ t. rest * t) (pow_eight (t4 + 8))) in
    let split : (m' + 256 * rest) * p ≡ m' * p + 256 * rest * p = grind arith in
    rw (ex, ey, low, fits, or_disjoint (t4 + 8) t3 m' h) (ih ∙ omega arith)

store-load : (bs : List ℕ) → AllBytes bs → store (length bs) (load bs) ≡ bs
store-load [] h = refl
store-load (b ∷ bs) (h, hs) =
    let low : (b + 256 * load bs) % 256 ≡ b = omega arith in
    let high : (b + 256 * load bs) / 256 ≡ load bs = omega arith in
    rw (low, high) (ap (λ t. b ∷ t) (store-load bs hs))

pub length-mixed :
    (s : ℕ) (xs ys : List ℕ) → length xs ≡ length ys → length (mixed s xs ys) ≡ length ys
length-mixed s [] [] e = refl
length-mixed s [] (y ∷ ys) e = absurd (omega arith)
length-mixed s (x ∷ xs) [] e = absurd (omega arith)
length-mixed s (x ∷ xs) (y ∷ ys) e = ap suc (length-mixed s xs ys (omega arith))

pub mixed-AllBytes :
    (s : ℕ) (xs ys : List ℕ) → s < 256 → AllBytes xs → AllBytes ys → AllBytes (mixed s xs ys)
mixed-AllBytes s [] ys h b c = tt
mixed-AllBytes s (x ∷ xs) [] h b c = tt
mixed-AllBytes s (x ∷ xs) (y ∷ ys) h (b, bs) (c, cs) =
    (xor-lt 8 y (gf_mul s x) c (gf_mul-lt s x h b), mixed-AllBytes s xs ys h bs cs)

-- The word that encodeData computes from eight input bytes and eight output bytes holds, byte by
-- byte, the output byte xor the product of the coefficient with the input byte.
pub mix_word-mixed :
    (s : ℕ) (xs ys : List ℕ)
    → s < 256
    → length xs ≡ 8
    → length ys ≡ 8
    → AllBytes xs
    → AllBytes ys
    → store 8 (mix_word s (load xs) (load ys)) ≡ mixed s xs ys
unfolding mix_word
mix_word-mixed s [] ys h l m b c = absurd (omega arith)
mix_word-mixed s (x ∷ xs) [] h l m b c = absurd (omega arith)
mix_word-mixed s (x ∷ xs) (y ∷ ys) h l m (b, bs) (c, cs) =
    let low = mix_byte-low s x y (load xs) (load ys) h b c in
    let first = bit_xor y (gf_mul s x) in
    let small : first < 2 ^ (0 + 8) = xor-lt 8 y (gf_mul s x) c (gf_mul-lt s x h b) in
    let word =
      mix_bytes-load 7 s x y first 0 xs ys h (omega arith) (omega arith) bs cs b c small
        (omega arith) in
    let size : length (mixed s (x ∷ xs) (y ∷ ys)) ≡ 8 =
      length-mixed s (x ∷ xs) (y ∷ ys) (omega arith) ∙ m in
    let whole : first + load (mixed s xs ys) * 2 ^ (0 + 8) ≡ load (mixed s (x ∷ xs) (y ∷ ys)) =
      omega arith in
    rw (low, zero-or first)
      (ap (store 8) (word ∙ whole)
        ∙ ap (λ t. store t (load (mixed s (x ∷ xs) (y ∷ ys)))) (sym size)
        ∙ store-load (mixed s (x ∷ xs) (y ∷ ys))
            (mixed-AllBytes s (x ∷ xs) (y ∷ ys) h (b, bs) (c, cs)))
