-- ===== src/Erasure/Restoring.antt =====
-- RawErasureDecoder::decode of src/client/RawErasureDecoder.cpp, from its inputs to its outputs.
use libhdfs.Prelude.{
  ℕ, ◌*◌, ◌≡◌, refl, ◌∙◌, sym, ap, ap₂, subst, arith, inr, ◌==◌, true, false, leb, List, [], ◌∷◌,
  ◌++◌, map, length, length-map, length-take, replicate, take, Option, Result, ok, throw, fault,
  ◌>>=◌,
}
use libhdfs.Erasure.Field.{Byte}
use libhdfs.Erasure.Decode.{gen_cauchy_matrix}
use libhdfs.Erasure.Coder.{Buffer, encode_data, get_valid_indexes, find_first_valid_input}
use libhdfs.Erasure.Encode.{encoded, encode_data-encoded, AllHold}
use libhdfs.Erasure.Stripe.{written, unit_bytes}
use libhdfs.Erasure.Decoder.{
  flat, RawErasureDecoder, consumed, prepare_decoding, process_erasures, chosen_inputs, do_decode,
  decode_from, decode,
}
use libhdfs.Erasure.Inputs.{
  take-AllIn, Measures, find_first_valid_input-Measures, Chosen, AreChosen, real_inputs-AreChosen,
}
use libhdfs.Erasure.Outputs.{
  zeroed, reset-zeroed, zeroed-AllHold, with_regions, flat-AllBytes, length-flat,
  encoded-with_regions,
}
use libhdfs.Erasure.Decoding.{
  IsPrepared, IsReady, prepare_decoding-IsReady, IsStripe, HasTables, has_tables, some_valid,
}

module _ (s : RawErasureDecoder) (n : ℕ) (data_units : List (List Byte))
    (inputs : List (Option Buffer)) (outputs : List Buffer) (datas parities : List ℕ)
    (h : IsStripe s n data_units inputs outputs datas parities) where
  abbrev pub unit : ℕ → List ℕ
  unit = unit_bytes n (gen_cauchy_matrix s.num_all_units s.num_data_units) data_units

  abbrev pub erased : List ℕ
  erased = datas ++ parities

  abbrev valid : List ℕ
  valid = get_valid_indexes 0 inputs

  abbrev read : List ℕ
  read = take s.num_data_units valid

  -- The outputs with the regions of the erased units.
  abbrev pub restored : List Buffer
  restored = with_regions n (map unit erased) outputs

  tables : HasTables s n data_units inputs outputs datas parities
  tables = has_tables s n data_units inputs outputs datas parities h

  encode_data-restored :
      (bs : List Buffer)
      → Chosen n unit read bs
      → encode_data tables.tables bs (map (zeroed n) outputs) ≡ ok restored
  encode_data-restored [] (q, hs, l, rs) =
      let a = h.some_data in
      let b = h.enough in absurd (omega (arith, length-take s.num_data_units valid))
  encode_data-restored (b ∷ bs) (q, hs, l, (r, rs)) =
      let t = tables in
      let width = t.width in
      let outs = map (zeroed n) outputs in
      let enough = h.enough in
      let size : length (b ∷ bs) ≡ s.num_data_units =
        omega (arith, length-take s.num_data_units valid) in
      let count : length outputs ≡ length t.rows = omega (
        arith,
        h.outputs_count,
        ap length t.writes,
        length-map t.rows (λ c. written n c (map unit read)),
        length-map erased unit,
      ) in
      let area : length (flat t.rows) ≡ length outs * length (b ∷ bs) =
        length-flat s.num_data_units t.rows width
        ∙ ap₂ ◌*◌ (sym count ∙ sym (length-map outputs (zeroed n))) (sym size) in
      let hold = h.outputs_hold in
      let blank = replicate (s.num_all_units * s.num_data_units * 32) 0 in
      ap (λ made. made >>= λ held. encode_data held (b ∷ bs) outs) (sym t.made)
      ∙ encode_data-encoded (flat t.rows) blank b bs outs (flat-AllBytes t.rows) area t.room
          (subst (λ m. AllHold m (b ∷ bs)) (sym r) hs)
          (subst (λ m. AllHold m outs) (sym r) (zeroed-AllHold n outputs hold))
      ∙ ap₂ (λ a m. ok (encoded a m (flat t.rows) (b ∷ bs) outs)) size r
      ∙ ap ok (
          encoded-with_regions s.num_data_units n t.rows (b ∷ bs) outputs width count hold
          ∙ ap (λ us. with_regions n us outputs)
              (ap (λ regions. map (λ c. written n c regions) t.rows) q ∙ t.writes))

  from_chosen :
      (r : Result (List Buffer))
      → AreChosen n unit read r
      → (r >>= λ bs. encode_data tables.tables bs (map (zeroed n) outputs)) ≡ ok restored
  from_chosen (ok bs) c = encode_data-restored bs c
  from_chosen (throw e) c = absurd c
  from_chosen fault c = absurd c

  -- The decoder after the call.
  abbrev after : RawErasureDecoder
  after = (prepare_decoding s inputs erased).0

  ready :
      IsPrepared s
      → ((prepare_decoding s inputs erased).1 ≡ ok tt) × IsReady s valid erased tables.tables after
  ready prepared =
      prepare_decoding-IsReady s inputs erased tables.tables prepared
        (some_valid s n data_units inputs outputs datas parities h) tables.held

  chosen : IsPrepared s → AreChosen n unit read (chosen_inputs after inputs)
  unfolding chosen_inputs
  chosen prepared =
      let t = (ready prepared).1 in
      let enough = h.enough in
      let fits : leb s.num_data_units (length valid) ≡ true = ground arith in
      rw (t.same_units, t.valid_now, fits)
        (real_inputs-AreChosen n unit inputs read h.carried (take-AllIn s.num_data_units valid))

  do_decode-restored : IsPrepared s → do_decode s n inputs erased outputs ≡ (after, ok restored)
  unfolding do_decode
  do_decode-restored prepared =
      let r = ready prepared in
      let t = r.1 in
      rw (reset-zeroed n outputs h.outputs_hold, r.0)
        (ap
            (λ tbl. (
              after,
              chosen_inputs after inputs >>= λ bs. encode_data tbl bs (map (zeroed n) outputs),
            ))
            t.tables_now
          ∙ ap (λ q. (after, q)) (from_chosen (chosen_inputs after inputs) (chosen prepared)))

  -- The call's results: the decoder stays prepared, the inputs are consumed, and the outputs hold the
  -- erased units.
  abbrev Restored : RawErasureDecoder × Result (List (Option Buffer) × List Buffer) → Type 0
  Restored r = IsPrepared r.0 × (r.1 ≡ ok (consumed n inputs, restored))

  decode_from-Restored :
      (r : Result Buffer)
      → Measures n unit r
      → IsPrepared s
      → Restored (decode_from s inputs erased outputs r)
  unfolding decode_from
  decode_from-Restored (throw e) f prepared = absurd f
  decode_from-Restored fault f prepared = absurd f
  decode_from-Restored (ok b) f prepared =
      let positive = h.some_bytes in
      let more : (n == 0) ≡ false = ground arith in
      let t = (ready prepared).1 in
      rw (f, more, do_decode-restored prepared)
        (
          inr (
              ap₂
                (λ m v.
                  process_erasures after.num_data_units after.num_all_units m v
                    after.cached_erased_indexes)
                t.same_matrix t.valid_now
              ∙ ap (process_erasures after.num_data_units after.num_all_units s.encode_matrix valid)
                  t.cached_now
              ∙ ap₂ (λ a b. process_erasures a b s.encode_matrix valid erased) t.same_units
                  t.same_all
              ∙ tables.held
              ∙ ap ok (sym t.tables_now)),
          refl,
        )

  -- Let the decoder be prepared (new, or with tables that fit its cached indexes), let the inputs that
  -- are there carry units of one stripe, at least as many as there are data units, and let the
  -- erased indexes list data units before parity units, with one output for each. Then decode
  -- succeeds: the inputs are consumed, each output holds, in the region at its position, the bytes
  -- of its erased unit and is unchanged elsewhere, and the decoder is prepared for the next call.
  pub decode-restored :
      IsPrepared s
      → IsPrepared (decode s inputs erased outputs).0
        × ((decode s inputs erased outputs).1 ≡ ok (consumed n inputs, restored))
  unfolding decode
  decode-restored prepared =
      decode_from-Restored (find_first_valid_input inputs)
        (find_first_valid_input-Measures n unit 0 inputs h.carried
          (some_valid s n data_units inputs outputs datas parities h))
        prepared
