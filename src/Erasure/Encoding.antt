-- ===== src/Erasure/Encoding.antt =====
-- RawErasureEncoder of src/client/RawErasureEncoder.cpp writes the parity units.
use libhdfs.Prelude.{
  ℕ, zero, suc, ◌+◌, ◌-◌, ◌*◌, ◌≤◌, ◌<◌, ◌≡◌, refl, ◌∙◌, sym, ap, ap₂, subst, arith, leb, false,
  List, ◌∷◌, map, range, length, length-map, length-range, length-replicate, drop_front, replicate,
  drop, ok, ◌>>=◌,
}
use libhdfs.Erasure.Field.{Byte, gf256}
use libhdfs.Erasure.Matrix.{unit_row}
use libhdfs.Erasure.Inverse.{AreRows}
use libhdfs.Erasure.Decode.{cauchy_row, gen_cauchy_matrix}
use libhdfs.Erasure.Cauchy.{family-AreRows, gen_cauchy_matrix-cauchy_row}
use libhdfs.Erasure.Coder.{Buffer, encode_data}
use libhdfs.Erasure.Chunks.{region}
use libhdfs.Erasure.Encode.{AllHold, encoded, encode_data-encoded, init_tables-filled}
use libhdfs.Erasure.Stripe.{values, written, unit_bytes}
use libhdfs.Erasure.Decoder.{flat, raw_erasure_encoder, do_encode}
use libhdfs.Erasure.Outputs.{
  zeroed, reset-zeroed, zeroed-AllHold, with_regions, flat-AllBytes, length-flat,
  encoded-with_regions,
}

module _ (k parity : ℕ) (small : k + parity < 256) where
  abbrev all : ℕ
  all = k + parity

  abbrev rows : List (List Byte)
  rows = map (cauchy_row k) (range k parity)

  parity_rows : drop k (gen_cauchy_matrix all k) ≡ rows
  unfolding gen_cauchy_matrix
  parity_rows =
      let firsts = map (unit_row gf256 k) (range 0 k) in
      let size : length firsts ≡ k = length-map (range 0 k) (unit_row gf256 k) ∙ length-range 0 k in
      let count : all - k ≡ parity = omega arith in
      ap (λ t. drop t (gen_cauchy_matrix all k)) (sym size)
      ∙ drop_front firsts (map (cauchy_row k) (range k (all - k)))
      ∙ ap (λ t. map (cauchy_row k) (range k t)) count

  -- The rows are those of the parity units.
  written_units :
      (n : ℕ) (data_units : List (List Byte)) (a m : ℕ)
      → k ≤ a
      → a + m ≤ all
      → map (λ r. written n r (map values data_units)) (map (cauchy_row k) (range a m))
        ≡ map (unit_bytes n (gen_cauchy_matrix all k) data_units) (range a m)
  written_units n data_units a zero h h' = refl
  written_units n data_units a (suc m) h h' =
      ap₂ ◌∷◌
        (ap (λ r. written n r (map values data_units))
          (sym (gen_cauchy_matrix-cauchy_row all k a h (omega arith))))
        (written_units n data_units (a + 1) m (omega arith) (omega arith))

  -- Let the first input have n bytes left, and let the inputs' regions of n bytes be those of the data
  -- units, one input for each. Then the encoder for k data units and `parity` parity units, of which
  -- there are fewer than 256 together, is made, and doEncode succeeds: each output holds, in the
  -- region at its position, the bytes of its parity unit and is unchanged elsewhere.
  pub do_encode-with_regions :
      (n : ℕ) (data_units : List (List Byte)) (b : Buffer) (bs outputs : List Buffer)
      → b.remaining ≡ n
      → length (b ∷ bs) ≡ k
      → map (region n) (b ∷ bs) ≡ map values data_units
      → AllHold n (b ∷ bs)
      → length outputs ≡ parity
      → AllHold n outputs
      → (raw_erasure_encoder k parity >>= λ coder. do_encode coder n (b ∷ bs) outputs)
        ≡ ok (
            with_regions n
              (map (unit_bytes n (gen_cauchy_matrix all k) data_units) (range k parity))
              outputs)
  unfolding raw_erasure_encoder do_encode
  do_encode-with_regions n data_units b bs outputs r size q hs l hold =
      let blank : List ℕ = replicate (all * k * 32) 0 in
      let outs = map (zeroed n) outputs in
      let fine : leb 256 (k + parity) ≡ false = ground arith in
      let width : AreRows gf256 k rows =
        family-AreRows k (cauchy_row k) (λ i. length-map (range 0 k) _ ∙ length-range 0 k) k
          parity in
      let count : length rows ≡ parity =
        length-map (range k parity) (cauchy_row k) ∙ length-range k parity in
      let area : length (flat rows) ≡ parity * k =
        length-flat k rows width ∙ ap (λ t. t * k) count in
      let part : parity * k ≤ all * k = grind arith in
      let size_of_blank : length blank ≡ all * k * 32 = length-replicate (all * k * 32) 0 in
      let room : 32 * length (flat rows) ≤ length blank = omega arith in
      let made = init_tables-filled (flat rows) blank room in
      let run =
        encode_data-encoded (flat rows) blank b bs outs (flat-AllBytes rows)
          (area ∙ ap₂ ◌*◌ (sym l ∙ sym (length-map outputs (zeroed n))) (sym size)) room
          (subst (λ m. AllHold m (b ∷ bs)) (sym r) hs)
          (subst (λ m. AllHold m outs) (sym r) (zeroed-AllHold n outputs hold)) in
      rw (fine, parity_rows, made, reset-zeroed n outputs hold)
        (ap (λ t. t >>= λ held. encode_data held (b ∷ bs) outs) (sym made)
          ∙ run
          ∙ ap₂ (λ a m. ok (encoded a m (flat rows) (b ∷ bs) outs)) size r
          ∙ ap ok (
              encoded-with_regions k n rows (b ∷ bs) outputs width (l ∙ sym count) hold
              ∙ ap (λ us. with_regions n us outputs)
                  (ap (λ regions. map (λ c. written n c regions) rows) q
                    ∙ written_units n data_units k parity (omega arith) (omega arith))))
