-- ===== src/Erasure/Lines.antt =====
-- encodeData of src/client/RSUtil.cpp on the regions of its buffers.
use libhdfs.Prelude.{
  ℕ, ◌+◌, ◌*◌, ◌/◌, ◌%◌, ◌<◌, ◌≡◌, ◌∙◌, sym, ap, ap₂, subst, arith, List, [], ◌∷◌, ◌++◌, length,
  length-append, length-take, length-drop, take-append-drop, take, drop, Result, ok, ◌>>=◌,
}
use mathlib.Core.List.{append_assoc}
use libhdfs.Erasure.Words.{mixed, AllBytes, length-mixed}
use libhdfs.Erasure.Coder.{Buffer, xor_chunks, xor_word, xor_byte, xor_input}
use libhdfs.Erasure.Chunks.{
  xor_chunks-mixed, xor_word-Mixes, xor_byte-Mixes, mixed-append, split_bytes, region, with_region,
  Holds,
}

pub append-AllBytes : (xs ys : List ℕ) → AllBytes xs → AllBytes ys → AllBytes (xs ++ ys)
append-AllBytes [] ys h k = k
append-AllBytes (x ∷ xs) ys (h, hs) k = (h, append-AllBytes xs ys hs k)

abbrev loops : ℕ → ℕ → ℕ → ℕ → ℕ → List ℕ → List ℕ → Result (List ℕ)
loops s t r i o input output =
    xor_chunks (xor_word s) 8 t i o input output
    >>= xor_chunks (xor_byte s) 1 r (i + t * 8) (o + t * 8) input

-- The words, then the bytes that are left.
loops-mixed :
    (s t r : ℕ) (pre' xs post' pre ys post : List ℕ)
    → s < 256
    → length xs ≡ t * 8 + r
    → length ys ≡ t * 8 + r
    → AllBytes xs
    → AllBytes ys
    → loops s t r (length pre') (length pre) (pre' ++ (xs ++ post')) (pre ++ (ys ++ post))
      ≡ ok (pre ++ (mixed s xs ys ++ post))
loops-mixed s t r pre' xs post' pre ys post h l m b c =
    let us = take (t * 8) xs in
    let xs' = drop (t * 8) xs in
    let vs = take (t * 8) ys in
    let ys' = drop (t * 8) ys in
    let ex : us ++ xs' ≡ xs = take-append-drop (t * 8) xs in
    let ey : vs ++ ys' ≡ ys = take-append-drop (t * 8) ys in
    let lu : length us ≡ t * 8 = omega (arith, length-take (t * 8) xs) in
    let lv : length vs ≡ t * 8 = omega (arith, length-take (t * 8) ys) in
    let lx : length xs' ≡ r * 1 = omega (arith, length-drop (t * 8) xs) in
    let ly : length ys' ≡ r * 1 = omega (arith, length-drop (t * 8) ys) in
    let (bu, bx) = split_bytes us xs' (subst AllBytes (sym ex) b) in
    let (bv, by) = split_bytes vs ys' (subst AllBytes (sym ey) c) in
    let both = mixed s us vs in
    let i : length (pre' ++ us) ≡ length pre' + t * 8 = omega (arith, length-append pre' us) in
    let o : length (pre ++ both) ≡ length pre + t * 8 =
      omega (arith, length-append pre both, length-mixed s us vs (lu ∙ sym lv)) in
    let first =
      xor_chunks-mixed (xor_word s) 8 s (xor_word-Mixes s h) t pre' us (xs' ++ post') pre vs
        (ys' ++ post) lu lv bu bv in
    let second =
      xor_chunks-mixed (xor_byte s) 1 s (xor_byte-Mixes s) r (pre' ++ us) xs' post' (pre ++ both)
        ys' post lx ly bx by in
    ap₂ (λ a d. loops s t r (length pre') (length pre) (pre' ++ (a ++ post')) (pre ++ (d ++ post)))
      (sym ex) (sym ey)
    ∙ ap₂ (λ a d. loops s t r (length pre') (length pre) (pre' ++ a) (pre ++ d))
        (append_assoc us xs' post') (append_assoc vs ys' post)
    ∙ ap
        (λ q.
          q
          >>= xor_chunks (xor_byte s) 1 r (length pre' + t * 8) (length pre + t * 8)
              (pre' ++ (us ++ (xs' ++ post'))))
        first
    ∙ ap₂ (λ a d. xor_chunks (xor_byte s) 1 r (length pre' + t * 8) (length pre + t * 8) a d)
        (sym (append_assoc pre' us (xs' ++ post'))) (sym (append_assoc pre both (ys' ++ post)))
    ∙ ap₂
        (λ a d.
          xor_chunks (xor_byte s) 1 r a d ((pre' ++ us) ++ (xs' ++ post'))
            ((pre ++ both) ++ (ys' ++ post)))
        (sym i) (sym o)
    ∙ second
    ∙ ap ok (
        append_assoc pre both (mixed s xs' ys' ++ post)
        ∙ ap (λ a. pre ++ a)
            (sym (append_assoc both (mixed s xs' ys') post)
              ∙ ap (λ a. a ++ post)
                  (sym (mixed-append s us xs' vs ys' (lu ∙ sym lv)) ∙ ap₂ (mixed s) ex ey)))

pub split_block :
    (n : ℕ) (b : Buffer)
    → take b.position b.bytes ++ (region n b ++ drop n (drop b.position b.bytes)) ≡ b.bytes
split_block n b =
    ap (λ t. take b.position b.bytes ++ t) (take-append-drop n (drop b.position b.bytes))
    ∙ take-append-drop b.position b.bytes

pub length_before : (n : ℕ) (b : Buffer) → Holds n b → length (take b.position b.bytes) ≡ b.position
length_before n b (h, k) = omega (arith, length-take b.position b.bytes)

pub length-region : (n : ℕ) (b : Buffer) → Holds n b → length (region n b) ≡ n
length-region n b (h, k) =
    omega (arith, length-take n (drop b.position b.bytes), length-drop b.position b.bytes)

pub region-AllBytes : (n : ℕ) (b : Buffer) → Holds n b → AllBytes (region n b)
region-AllBytes n b (h, k) =
    let (x, y) =
      split_bytes (take b.position b.bytes) (region n b ++ drop n (drop b.position b.bytes))
        (subst AllBytes (sym (split_block n b)) k) in
    (split_bytes (region n b) (drop n (drop b.position b.bytes)) y).0

-- One input is xored, times its coefficient, into the region of the output.
pub xor_input-mixed :
    (s n : ℕ) (input output : Buffer)
    → s < 256
    → Holds n input
    → Holds n output
    → xor_input s n input output
      ≡ ok (with_region n (mixed s (region n input) (region n output)) output)
unfolding xor_input
xor_input-mixed s n input output h k m =
    let t = n / 8 in
    let r = n % 8 in
    let whole : t * 8 + r ≡ n = omega arith in
    let pre' = take input.position input.bytes in
    let pre = take output.position output.bytes in
    let xs = region n input in
    let ys = region n output in
    let post' = drop n (drop input.position input.bytes) in
    let post = drop n (drop output.position output.bytes) in
    let line : loops s t r input.position output.position input.bytes output.bytes
        ≡ ok (pre ++ (mixed s xs ys ++ post)) =
      ap₂ (λ a d. loops s t r a d input.bytes output.bytes) (sym (length_before n input k))
        (sym (length_before n output m))
      ∙ ap₂ (λ a d. loops s t r (length pre') (length pre) a d) (sym (split_block n input))
          (sym (split_block n output))
      ∙ loops-mixed s t r pre' xs post' pre ys post h (length-region n input k ∙ sym whole)
          (length-region n output m ∙ sym whole) (region-AllBytes n input k)
          (region-AllBytes n output m) in
    ap (λ q. q >>= λ block. ok (record output { bytes = block })) line
