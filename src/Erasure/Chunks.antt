-- ===== src/Erasure/Chunks.antt =====
-- The inner loops of encodeData in src/client/RSUtil.cpp: words and single bytes do the same.
use libhdfs.Prelude.{
  ℕ, zero, suc, ◌+◌, ◌*◌, ◌≤◌, ◌<◌, ◌≡◌, refl, ◌∙◌, sym, ap, ap₂, subst, arith, leb, true, List, [],
  ◌∷◌, ◌++◌, length, length-append, length-take, length-drop, take-append-drop, take_front,
  drop_front, take, drop, ok,
}
use mathlib.Core.List.{append_assoc}
use Prim.Native.Nat.{bit_xor}
use libhdfs.Erasure.Arithmetic.{gf_mul}
use libhdfs.Erasure.Words.{mixed, AllBytes, mix_word-mixed, length-mixed}
use libhdfs.Erasure.Coder.{Buffer, read_bytes, write_bytes, xor_chunks, xor_word, xor_byte}

read_bytes_middle :
    (pre xs post : List ℕ) → read_bytes (length xs) (pre ++ (xs ++ post)) (length pre) ≡ ok xs
unfolding read_bytes
read_bytes_middle pre xs post =
    let l = length-append pre (xs ++ post) in
    let m = length-append xs post in
    let fits : leb (length pre + length xs) (length (pre ++ (xs ++ post))) ≡ true = ground arith in
    rw (fits, drop_front pre (xs ++ post), take_front xs post) refl

write_bytes_middle :
    (pre new ys post : List ℕ)
    → length new ≡ length ys
    → write_bytes new (length pre) (pre ++ (ys ++ post)) ≡ ok (pre ++ (new ++ post))
unfolding write_bytes
write_bytes_middle pre new ys post e =
    let l = length-append pre (ys ++ post) in
    let m = length-append ys post in
    let fits : leb (length pre + length new) (length (pre ++ (ys ++ post))) ≡ true = ground arith in
    rw (fits, e, drop_front pre (ys ++ post), take_front pre (ys ++ post), drop_front ys post) refl

pub mixed-append :
    (s : ℕ) (us xs vs ys : List ℕ)
    → length us ≡ length vs
    → mixed s (us ++ xs) (vs ++ ys) ≡ mixed s us vs ++ mixed s xs ys
mixed-append s [] xs [] ys e = refl
mixed-append s [] xs (b ∷ vs) ys e = absurd (omega arith)
mixed-append s (a ∷ us) xs [] ys e = absurd (omega arith)
mixed-append s (a ∷ us) xs (b ∷ vs) ys e =
    ap (λ t. bit_xor b (gf_mul s a) ∷ t) (mixed-append s us xs vs ys (omega arith))

pub split_bytes : (xs ys : List ℕ) → AllBytes (xs ++ ys) → AllBytes xs × AllBytes ys
split_bytes [] ys h = (tt, h)
split_bytes (x ∷ xs) ys (h, hs) = let (a, b) = split_bytes xs ys hs in ((h, a), b)

-- Chunks of one size are mixed as their bytes are.
abbrev pub Mixes : (List ℕ → List ℕ → List ℕ) → ℕ → ℕ → Type 0
Mixes mix size s =
    (xs ys : List ℕ)
    → length xs ≡ size
    → length ys ≡ size
    → AllBytes xs
    → AllBytes ys
    → mix xs ys ≡ mixed s xs ys

pub xor_byte-Mixes : (s : ℕ) → Mixes (xor_byte s) 1 s
xor_byte-Mixes s [] ys l m b c = refl
xor_byte-Mixes s (x ∷ xs) [] l m b c = refl
xor_byte-Mixes s (x ∷ []) (y ∷ ys) l m b c = refl
xor_byte-Mixes s (x ∷ x' ∷ xs) (y ∷ ys) l m b c = absurd (omega arith)

pub xor_word-Mixes : (s : ℕ) → s < 256 → Mixes (xor_word s) 8 s
xor_word-Mixes s h xs ys l m b c = mix_word-mixed s xs ys h l m b c

module _ (mix : List ℕ → List ℕ → List ℕ) (size s : ℕ) (mixes : Mixes mix size s) where
  xor_chunks_parts :
      (count : ℕ) (pre' us xs post' pre vs ys post : List ℕ)
      → length us ≡ size
      → length vs ≡ size
      → AllBytes us
      → AllBytes vs
      → xor_chunks mix size
          (suc count)
          (length pre')
          (length pre)
          (pre' ++ (us ++ (xs ++ post')))
          (pre ++ (vs ++ (ys ++ post)))
        ≡ xor_chunks mix size count
            (length (pre' ++ us))
            (length (pre ++ mixed s us vs))
            ((pre' ++ us) ++ (xs ++ post'))
            ((pre ++ mixed s us vs) ++ (ys ++ post))
  unfolding xor_chunks
  xor_chunks_parts count pre' us xs post' pre vs ys post l m b c =
      let same = length-mixed s us vs (l ∙ sym m) in
      let i : length (pre' ++ us) ≡ length pre' + size = omega (arith, length-append pre' us) in
      let o : length (pre ++ mixed s us vs) ≡ length pre + size =
        omega (arith, length-append pre (mixed s us vs)) in
      let first = read_bytes_middle pre' us (xs ++ post') in
      let second = read_bytes_middle pre vs (ys ++ post) in
      let third = write_bytes_middle pre (mixed s us vs) vs (ys ++ post) same in
      let first' : read_bytes size (pre' ++ (us ++ (xs ++ post'))) (length pre') ≡ ok us =
        ap (λ t. read_bytes t (pre' ++ (us ++ (xs ++ post'))) (length pre')) (sym l) ∙ first in
      let second' : read_bytes size (pre ++ (vs ++ (ys ++ post))) (length pre) ≡ ok vs =
        ap (λ t. read_bytes t (pre ++ (vs ++ (ys ++ post))) (length pre)) (sym m) ∙ second in
      rw
        (
          first',
          second',
          mixes us vs l m b c,
          third,
          i,
          o,
          append_assoc pre' us (xs ++ post'),
          append_assoc pre (mixed s us vs) (ys ++ post),
        )
        refl

  pub xor_chunks-mixed :
      (count : ℕ) (pre' xs post' pre ys post : List ℕ)
      → length xs ≡ count * size
      → length ys ≡ count * size
      → AllBytes xs
      → AllBytes ys
      → xor_chunks mix size count
          (length pre')
          (length pre)
          (pre' ++ (xs ++ post'))
          (pre ++ (ys ++ post))
        ≡ ok (pre ++ (mixed s xs ys ++ post))
  unfolding xor_chunks
  xor_chunks-mixed zero pre' [] post' pre [] post l m b c = refl
  xor_chunks-mixed zero pre' (x ∷ xs) post' pre ys post l m b c = absurd (omega arith)
  xor_chunks-mixed zero pre' [] post' pre (y ∷ ys) post l m b c = absurd (omega arith)
  xor_chunks-mixed (suc count) pre' xs post' pre ys post l m b c =
      let us = take size xs in
      let xs' = drop size xs in
      let vs = take size ys in
      let ys' = drop size ys in
      let ex : us ++ xs' ≡ xs = take-append-drop size xs in
      let ey : vs ++ ys' ≡ ys = take-append-drop size ys in
      let more : suc count * size ≡ size + count * size = grind arith in
      let lu : length us ≡ size = omega (arith, length-take size xs) in
      let lv : length vs ≡ size = omega (arith, length-take size ys) in
      let lx : length xs' ≡ count * size = omega (arith, length-drop size xs) in
      let ly : length ys' ≡ count * size = omega (arith, length-drop size ys) in
      let (bu, bx) = split_bytes us xs' (subst AllBytes (sym ex) b) in
      let (bv, by) = split_bytes vs ys' (subst AllBytes (sym ey) c) in
      let both = mixed s us vs in
      ap₂
        (λ t u.
          xor_chunks mix size (suc count) (length pre') (length pre) (pre' ++ (t ++ post'))
            (pre ++ (u ++ post)))
        (sym ex) (sym ey)
      ∙ ap₂
          (λ t u. xor_chunks mix size (suc count) (length pre') (length pre) (pre' ++ t) (pre ++ u))
          (append_assoc us xs' post') (append_assoc vs ys' post)
      ∙ xor_chunks_parts count pre' us xs' post' pre vs ys' post lu lv bu bv
      ∙ xor_chunks-mixed count (pre' ++ us) xs' post' (pre ++ both) ys' post lx ly bx by
      ∙ ap ok (
          append_assoc pre both (mixed s xs' ys' ++ post)
          ∙ ap (λ t. pre ++ t)
              (sym (append_assoc both (mixed s xs' ys') post)
                ∙ ap (λ t. t ++ post)
                    (sym (mixed-append s us xs' vs ys' (lu ∙ sym lv)) ∙ ap₂ (mixed s) ex ey)))

-- The region of a buffer that the coder works on, and the buffer with another one.
abbrev pub region : ℕ → Buffer → List ℕ
region n b = take n (drop b.position b.bytes)

abbrev pub with_region : ℕ → List ℕ → Buffer → Buffer
with_region n new b = record b {
  bytes = take b.position b.bytes ++ (new ++ drop n (drop b.position b.bytes));
}

abbrev pub Holds : ℕ → Buffer → Type 0
Holds n b = (b.position + n ≤ length b.bytes) × AllBytes b.bytes
