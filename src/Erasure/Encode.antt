-- ===== src/Erasure/Encode.antt =====
-- encodeData of src/client/RSUtil.cpp over all inputs and outputs, with the tables of initTables.
use libhdfs.Prelude.{
  ℕ, zero, suc, ◌+◌, ◌*◌, ◌≤◌, ◌≡◌, refl, ◌∙◌, sym, ap, ap₂, subst, arith, leb, true, List, [], ◌∷◌,
  ◌++◌, map, length, length-append, length-take, length-drop, take-append-drop, take_front,
  drop_front, take, drop, ok, ◌>>=◌,
}
use libhdfs.Erasure.VectMul.{gf_vect_mul_init}
use libhdfs.Erasure.Words.{mixed, AllBytes, length-mixed, mixed-AllBytes}
use libhdfs.Erasure.Coder.{Buffer, byte_of, encode_output, encode_outputs, encode_data, init_tables}
use libhdfs.Erasure.Chunks.{split_bytes, region, with_region, Holds}
use libhdfs.Erasure.Lines.{
  append-AllBytes, split_block, length_before, length-region, region-AllBytes, xor_input-mixed,
}

-- What a row of coefficients adds to the bytes of an output, input by input.
abbrev pub products : List ℕ → List (List ℕ) → List ℕ → List ℕ
products [] xs acc = acc
products (c ∷ cs) [] acc = acc
products (c ∷ cs) (x ∷ xs) acc = products cs xs (mixed c x acc)

-- The outputs, one row of `k` coefficients for each.
abbrev pub encoded : ℕ → ℕ → List ℕ → List Buffer → List Buffer → List Buffer
encoded k n coefficients inputs [] = []
encoded k n coefficients inputs (o ∷ os) =
    with_region n (products (take k coefficients) (map (region n) inputs) (region n o)) o
    ∷ encoded k n (drop k coefficients) inputs os

abbrev pub AllHold : ℕ → List Buffer → Type 0
AllHold n [] = Unit
AllHold n (b ∷ bs) = Holds n b × AllHold n bs

module _ (n : ℕ) (o : Buffer) (h : Holds n o) (new : List ℕ) (l : length new ≡ n) where
  pre : List ℕ
  pre = take o.position o.bytes

  post : List ℕ
  post = drop n (drop o.position o.bytes)

  drop_before : (x : List ℕ) → drop o.position (take o.position o.bytes ++ x) ≡ x
  drop_before x =
      ap (λ t. drop t (take o.position o.bytes ++ x)) (sym (length_before n o h))
      ∙ drop_front (take o.position o.bytes) x

  take_before :
      (x : List ℕ) → take o.position (take o.position o.bytes ++ x) ≡ take o.position o.bytes
  take_before x =
      ap (λ t. take t (take o.position o.bytes ++ x)) (sym (length_before n o h))
      ∙ take_front (take o.position o.bytes) x

  take_new : (x : List ℕ) → take n (new ++ x) ≡ new
  take_new x = ap (λ t. take t (new ++ x)) (sym l) ∙ take_front new x

  drop_new : (x : List ℕ) → drop n (new ++ x) ≡ x
  drop_new x = ap (λ t. drop t (new ++ x)) (sym l) ∙ drop_front new x

  pub region-with_region : region n (with_region n new o) ≡ new
  unfolding post
  region-with_region = ap (take n) (drop_before (new ++ post)) ∙ take_new post

  pub with_region_twice : (x : List ℕ) → with_region n x (with_region n new o) ≡ with_region n x o
  unfolding post
  with_region_twice x =
      ap₂ (λ a d. record o { bytes = a ++ (x ++ d) }) (take_before (new ++ post))
        (ap (drop n) (drop_before (new ++ post)) ∙ drop_new post)

  pub with_region-Holds : AllBytes new → Holds n (with_region n new o)
  unfolding post
  with_region-Holds k =
      let sizes = length-append (take o.position o.bytes) (new ++ post) in
      let sizes' = length-append new post in
      let before = length_before n o h in
      let (b, rest) =
        split_bytes (take o.position o.bytes) (region n o ++ post)
          (subst AllBytes (sym (split_block n o)) h.1) in
      let (c, d) = split_bytes (region n o) post rest in
      (
        omega arith,
        append-AllBytes (take o.position o.bytes) (new ++ post) b (append-AllBytes new post k d),
      )

-- The tables hold the coefficients from number `base` on.
abbrev pub Reads : List ℕ → ℕ → List ℕ → Type 0
Reads tables base cs = (i c : ℕ) → byte_of cs i ≡ ok c → byte_of tables ((base + i) * 32 + 1) ≡ ok c

Reads-tail :
    (tables : List ℕ) (base c : ℕ) (cs : List ℕ)
    → Reads tables base (c ∷ cs)
    → Reads tables (base + 1) cs
unfolding byte_of
Reads-tail tables base c cs h i c' e =
    let s : base + 1 + i ≡ base + suc i = omega arith in rw s (h (suc i) c' e)

Reads-drop :
    (tables : List ℕ) (k base : ℕ) (cs : List ℕ)
    → Reads tables base cs
    → Reads tables (base + k) (drop k cs)
unfolding byte_of
Reads-drop tables zero base cs h i c e =
    let s : base + 0 + i ≡ base + i = omega arith in rw s (h i c e)
Reads-drop tables (suc k) base [] h i c e = absurd (ground arith)
Reads-drop tables (suc k) base (c' ∷ cs) h i c e =
    let s : base + 1 + k ≡ base + suc k = omega arith in
    subst (λ t. Reads tables t (drop k cs)) s
      (Reads-drop tables k (base + 1) cs (Reads-tail tables base c' cs h)) i c e

byte_of-take : (k i c : ℕ) (cs : List ℕ) → byte_of (take k cs) i ≡ ok c → byte_of cs i ≡ ok c
unfolding byte_of
byte_of-take zero i c cs e = absurd (ground arith)
byte_of-take (suc k) i c [] e = e
byte_of-take (suc k) zero c (x ∷ cs) e = e
byte_of-take (suc k) (suc i) c (x ∷ cs) e = byte_of-take k i c cs e

encode_output-products :
    (tables : List ℕ) (num n l j : ℕ) (cs : List ℕ) (inputs : List Buffer) (o : Buffer)
    → Reads tables (l * num + j) cs
    → AllBytes cs
    → length cs ≡ length inputs
    → AllHold n inputs
    → Holds n o
    → encode_output tables num n l j inputs o
      ≡ ok (with_region n (products cs (map (region n) inputs) (region n o)) o)
unfolding encode_output
encode_output-products tables num n l j [] [] o r b e hs h =
    ap (λ t. ok (record o { bytes = t })) (sym (split_block n o))
encode_output-products tables num n l j [] (i ∷ is) o r b e hs h = absurd (omega arith)
encode_output-products tables num n l j (c ∷ cs) [] o r b e hs h = absurd (omega arith)
encode_output-products tables num n l j (c ∷ cs) (i ∷ is) o r (b, bs) e (hi, his) h =
    let at : j * 32 + l * num * 32 + 1 ≡ (l * num + j + 0) * 32 + 1 = grind arith in
    let read : byte_of tables (j * 32 + l * num * 32 + 1) ≡ ok c =
      ap (byte_of tables) at ∙ r 0 c (unfold byte_of in refl) in
    let new = mixed c (region n i) (region n o) in
    let size : length new ≡ n =
      length-mixed c (region n i) (region n o) (length-region n i hi ∙ sym (length-region n o h))
      ∙ length-region n o h in
    let small =
      mixed-AllBytes c (region n i) (region n o) b (region-AllBytes n i hi)
        (region-AllBytes n o h) in
    let o' = with_region n new o in
    let next : l * num + j + 1 ≡ l * num + (j + 1) = omega arith in
    let ih =
      encode_output-products tables num n l (j + 1) cs is o'
        (subst (λ t. Reads tables t cs) next (Reads-tail tables (l * num + j) c cs r)) bs
        (omega arith) his (with_region-Holds n o h new size small) in
    rw (read, xor_input-mixed c n i o b hi h)
      (ih
        ∙ ap (λ t. ok (with_region n (products cs (map (region n) is) t) o'))
            (region-with_region n o h new size)
        ∙ ap ok (with_region_twice n o h new size (products cs (map (region n) is) new)))

encode_outputs-encoded :
    (tables : List ℕ) (n l : ℕ) (flat : List ℕ) (inputs outputs : List Buffer)
    → Reads tables (l * length inputs) flat
    → AllBytes flat
    → length flat ≡ length outputs * length inputs
    → AllHold n inputs
    → AllHold n outputs
    → encode_outputs tables n inputs l outputs ≡ ok (encoded (length inputs) n flat inputs outputs)
unfolding encode_outputs
encode_outputs-encoded tables n l flat inputs [] r b e hs h = refl
encode_outputs-encoded tables n l flat inputs (o ∷ os) r b e hs (h, h') =
    let k = length inputs in
    let row = take k flat in
    let more = drop k flat in
    let (bt, bd) = split_bytes row more (subst AllBytes (sym (take-append-drop k flat)) b) in
    let size : length flat ≡ k + length os * k = grind arith in
    let width : length row ≡ k = omega (arith, length-take k flat) in
    let rest : length more ≡ length os * k = omega (arith, length-drop k flat) in
    let start : l * k + 0 ≡ l * k = omega arith in
    let next : l * k + k ≡ (l + 1) * k = grind arith in
    let first =
      encode_output-products tables k n l 0 row inputs o
        (λ i c q.
          ap (λ t. byte_of tables ((t + i) * 32 + 1)) start ∙ r i c (byte_of-take k i c flat q))
        bt width hs h in
    let ih =
      encode_outputs-encoded tables n (l + 1) more inputs os
        (subst (λ t. Reads tables t more) next (Reads-drop tables k (l * k) flat r)) bd rest hs
        h' in
    rw (first, ih) refl

pub filled : List ℕ → List ℕ → List ℕ
filled [] blank = blank
filled (c ∷ cs) blank = gf_vect_mul_init c ++ filled cs (drop 32 blank)

pub init_tables-filled :
    (cs blank : List ℕ)
    → 32 * length cs ≤ length blank
    → init_tables cs blank ≡ ok (filled cs blank)
unfolding init_tables filled
init_tables-filled [] blank h = refl
init_tables-filled (c ∷ cs) blank h =
    let fits : leb 32 (length blank) ≡ true = ground arith in
    rw (init_tables-filled cs (drop 32 blank) (omega (arith, length-drop 32 blank)), fits) refl

byte_of_after :
    (before rest : List ℕ) (i : ℕ) → byte_of (before ++ rest) (length before + i) ≡ byte_of rest i
unfolding byte_of
byte_of_after [] rest i = let e : 0 + i ≡ i = omega arith in rw e refl
byte_of_after (x ∷ xs) rest i =
    let e : suc (length xs) + i ≡ suc (length xs + i) = omega arith in
    rw e (byte_of_after xs rest i)

filled-Reads : (cs blank : List ℕ) → Reads (filled cs blank) 0 cs
unfolding filled byte_of gf_vect_mul_init
filled-Reads [] blank i c e = absurd (ground arith)
filled-Reads (x ∷ cs) blank zero c e = e
filled-Reads (x ∷ cs) blank (suc i) c e =
    let s : (0 + suc i) * 32 + 1 ≡ 32 + ((0 + i) * 32 + 1) = omega arith in
    ap (byte_of (filled (x ∷ cs) blank)) s
    ∙ byte_of_after (gf_vect_mul_init x) (filled cs (drop 32 blank)) ((0 + i) * 32 + 1)
    ∙ filled-Reads cs (drop 32 blank) i c e

-- Let the coefficients be bytes, one row of them for each output with one for each input, and let
-- the tables have room for them. If the region of every input and output, as long as what remains
-- of the first input, lies in its block, and the blocks hold bytes, then encodeData with the tables
-- that initTables makes succeeds, and it changes each output only in its region, by xoring to each
-- byte the gfMul products of the output's row with the bytes of the inputs at the same offset.
pub encode_data-encoded :
    (flat blank : List ℕ) (i : Buffer) (inputs outputs : List Buffer)
    → AllBytes flat
    → length flat ≡ length outputs * length (i ∷ inputs)
    → 32 * length flat ≤ length blank
    → AllHold i.remaining (i ∷ inputs)
    → AllHold i.remaining outputs
    → (init_tables flat blank >>= λ tables. encode_data tables (i ∷ inputs) outputs)
      ≡ ok (encoded (length (i ∷ inputs)) i.remaining flat (i ∷ inputs) outputs)
unfolding encode_data
encode_data-encoded flat blank i inputs outputs b e room hs h =
    let zeroth : 0 * length (i ∷ inputs) ≡ 0 = omega arith in
    rw (init_tables-filled flat blank room) (
      encode_outputs-encoded (filled flat blank) i.remaining 0 flat (i ∷ inputs) outputs
        (subst (λ t. Reads (filled flat blank) t flat) (sym zeroth) (filled-Reads flat blank)) b e
        hs h)
