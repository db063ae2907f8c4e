-- ===== src/Erasure/Outputs.antt =====
-- The outputs that doDecode of src/client/RawErasureDecoder.cpp writes.
use libhdfs.Prelude.{
  ℕ, zero, suc, ◌+◌, ◌*◌, ◌≡◌, refl, ◌∙◌, sym, ap, ap₂, arith, leb, true, List, [], ◌∷◌, ◌++◌, map,
  length, length-append, length-map, length-replicate, replicate, take_front, drop_front, take,
  drop, ok,
}
use libhdfs.Erasure.Field.{Byte, gf256}
use libhdfs.Erasure.Inverse.{AreRows}
use libhdfs.Erasure.Words.{AllBytes}
use libhdfs.Erasure.Coder.{Buffer, write_bytes, reset_buffer, reset_output_buffers}
use libhdfs.Erasure.Chunks.{region, with_region, Holds}
use libhdfs.Erasure.Lines.{append-AllBytes}
use libhdfs.Erasure.Encode.{
  products, encoded, AllHold, region-with_region, with_region_twice, with_region-Holds,
}
use libhdfs.Erasure.Stripe.{values, written}
use libhdfs.Erasure.Decoder.{flat}

abbrev pub zeroed : ℕ → Buffer → Buffer
zeroed n b = with_region n (replicate n 0) b

zeros-AllBytes : (n : ℕ) → AllBytes (replicate n 0)
zeros-AllBytes zero = tt
zeros-AllBytes (suc n) = (omega arith, zeros-AllBytes n)

reset_buffer-zeroed : (n : ℕ) (b : Buffer) → Holds n b → reset_buffer n b ≡ ok (zeroed n b)
unfolding reset_buffer write_bytes
reset_buffer-zeroed n b (h, k) =
    let zeros : List ℕ = replicate n 0 in
    let l : length zeros ≡ n = length-replicate n 0 in
    let fits : leb (b.position + length zeros) (length b.bytes) ≡ true = ground arith in
    rw (fits, l) refl

pub reset-zeroed :
    (n : ℕ) (bs : List Buffer) → AllHold n bs → reset_output_buffers n bs ≡ ok (map (zeroed n) bs)
unfolding reset_output_buffers
reset-zeroed n [] h = refl
reset-zeroed n (b ∷ bs) (h, hs) = rw (reset_buffer-zeroed n b h, reset-zeroed n bs hs) refl

pub zeroed-AllHold : (n : ℕ) (bs : List Buffer) → AllHold n bs → AllHold n (map (zeroed n) bs)
zeroed-AllHold n [] h = tt
zeroed-AllHold n (b ∷ bs) (h, hs) = (
  with_region-Holds n b h (replicate n 0) (length-replicate {A = ℕ} n 0) (zeros-AllBytes n),
  zeroed-AllHold n bs hs,
)

-- The outputs with their regions replaced.
abbrev pub with_regions : ℕ → List (List ℕ) → List Buffer → List Buffer
with_regions n [] bs = []
with_regions n (u ∷ us) [] = []
with_regions n (u ∷ us) (b ∷ bs) = with_region n u b ∷ with_regions n us bs

values-AllBytes : (bs : List Byte) → AllBytes (values bs)
values-AllBytes [] = tt
values-AllBytes (b ∷ bs) = (b.1, values-AllBytes bs)

pub flat-AllBytes : (rows : List (List Byte)) → AllBytes (flat rows)
flat-AllBytes [] = tt
flat-AllBytes (r ∷ rs) = append-AllBytes (values r) (flat rs) (values-AllBytes r) (flat-AllBytes rs)

pub length-flat :
    (k : ℕ) (rows : List (List Byte)) → AreRows gf256 k rows → length (flat rows) ≡ length rows * k
length-flat k [] w = omega arith
length-flat k (r ∷ rs) (w, ws) =
    let step : suc (length rs) * k ≡ k + length rs * k = grind arith in
    omega (arith, length-append (values r) (flat rs), length-map r (λ b. b.0), length-flat k rs ws)

-- Over zeros, each row of the coefficients writes its combination.
pub encoded-with_regions :
    (k n : ℕ) (rows : List (List Byte)) (inputs outputs : List Buffer)
    → AreRows gf256 k rows
    → length outputs ≡ length rows
    → AllHold n outputs
    → encoded k n (flat rows) inputs (map (zeroed n) outputs)
      ≡ with_regions n (map (λ r. written n r (map (region n) inputs)) rows) outputs
encoded-with_regions k n [] inputs [] w l h = refl
encoded-with_regions k n [] inputs (o ∷ os) w l h = absurd (omega arith)
encoded-with_regions k n (r ∷ rs) inputs [] w l h = absurd (omega arith)
encoded-with_regions k n (r ∷ rs) inputs (o ∷ os) (w, ws) l (h, hs) =
    let width : length (values r) ≡ k = length-map r (λ b. b.0) ∙ w in
    let front : take k (values r ++ flat rs) ≡ values r =
      ap (λ t. take t (values r ++ flat rs)) (sym width) ∙ take_front (values r) (flat rs) in
    let back : drop k (values r ++ flat rs) ≡ flat rs =
      ap (λ t. drop t (values r ++ flat rs)) (sym width) ∙ drop_front (values r) (flat rs) in
    let zeros : List ℕ = replicate n 0 in
    let size : length zeros ≡ n = length-replicate n 0 in
    ap₂ ◌∷◌
      (ap₂ (λ c z. with_region n (products c (map (region n) inputs) z) (with_region n zeros o))
          front (region-with_region n o h zeros size)
        ∙ with_region_twice n o h zeros size (products (values r) (map (region n) inputs) zeros))
      (ap (λ c. encoded k n c inputs (map (zeroed n) os)) back
        ∙ encoded-with_regions k n rs inputs os ws (omega arith) hs)
