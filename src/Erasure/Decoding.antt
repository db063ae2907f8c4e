-- ===== src/Erasure/Decoding.antt =====
-- RawErasureDecoder::decode of src/client/RawErasureDecoder.cpp restores the erased units.
use libhdfs.Prelude.{
  ℕ, zero, suc, ◌+◌, ◌*◌, ◌≤◌, ◌<◌, ◌≡◌, ◌≢◌, refl, ◌∙◌, sym, ap, ap₂, subst, arith, ◌⊎◌, inl, inr,
  ◌&&◌, true, false, Bool-cases, ltb, List, [], ◌∷◌, ◌++◌, map, length, length-map,
  length-replicate, replicate, take, Option, Result, ok, throw, fault,
}
use libhdfs.Erasure.Field.{Byte, gf256}
use libhdfs.Erasure.Inverse.{AreRows}
use libhdfs.Erasure.Decode.{gen_cauchy_matrix, generate_decode_matrix}
use libhdfs.Erasure.Recover.{AllBelow}
use libhdfs.Erasure.Coder.{Buffer, init_tables, get_valid_indexes, copy_of}
use libhdfs.Erasure.Encode.{AllHold, filled, init_tables-filled}
use libhdfs.Erasure.Stripe.{
  written, unit_bytes, RestoresRegions, generate_decode_matrix-RestoresRegions,
}
use libhdfs.Erasure.Decoder.{
  flat, RawErasureDecoder, count_erased, process_erasures, same_indexes, finish_preparing,
  prepare_decoding,
}
use libhdfs.Erasure.Inputs.{valid-AllBelow, valid-AllDifferent, AllCarry}
use libhdfs.Erasure.Outputs.{length-flat}

same_sound : (xs ys : List ℕ) → same_indexes xs ys ≡ true → xs ≡ ys
same_sound [] [] h = refl
same_sound [] (y ∷ ys) h = ground arith
same_sound (x ∷ xs) [] h = ground arith
same_sound (x ∷ xs) (y ∷ ys) h = ap₂ ◌∷◌ (ground arith) (same_sound xs ys (ground arith))

copy_of-all : (xs : List ℕ) → copy_of xs (length xs) ≡ xs
unfolding copy_of
copy_of-all [] = refl
copy_of-all (x ∷ xs) = ap (λ t. x ∷ t) (copy_of-all xs)

abbrev pub tables_for : RawErasureDecoder → List ℕ → List ℕ → Result (List ℕ)
tables_for s valid erased =
    process_erasures s.num_data_units s.num_all_units s.encode_matrix valid erased

-- The tables are those of the cached indexes; a new decoder has no valid indexes.
abbrev pub IsPrepared : RawErasureDecoder → Type 0
IsPrepared s =
    (s.valid_indexes ≡ []) ⊎ (tables_for s s.valid_indexes s.cached_erased_indexes ≡ ok s.gf_tables)

-- What prepareDecoding leaves.
pub record IsReady (s : RawErasureDecoder) (valid erased tables : List ℕ) (t : RawErasureDecoder)
    : Type 0 where
  pub same_units : t.num_data_units ≡ s.num_data_units
  pub same_all : t.num_all_units ≡ s.num_all_units
  pub same_matrix : t.encode_matrix ≡ s.encode_matrix
  pub valid_now : t.valid_indexes ≡ valid
  pub cached_now : t.cached_erased_indexes ≡ erased
  pub tables_now : t.gf_tables ≡ tables

value_of : Result (List ℕ) → List ℕ
value_of (ok x) = x
value_of (throw e) = []
value_of fault = []

pub prepare_decoding-IsReady :
    (s : RawErasureDecoder) (inputs : List (Option Buffer)) (erased tables : List ℕ)
    → IsPrepared s
    → get_valid_indexes 0 inputs ≢ []
    → tables_for s (get_valid_indexes 0 inputs) erased ≡ ok tables
    → ((prepare_decoding s inputs erased).1 ≡ ok tt)
      × IsReady s (get_valid_indexes 0 inputs) erased tables (prepare_decoding s inputs erased).0
unfolding prepare_decoding finish_preparing value_of
prepare_decoding-IsReady s inputs erased tables prepared some_valid e =
    let valid = get_valid_indexes 0 inputs in
    elim (Bool-cases
      (same_indexes s.cached_erased_indexes erased && same_indexes s.valid_indexes valid)) [
        | inl h ↦
            let ce = same_sound s.cached_erased_indexes erased (ground arith) in
            let ve = same_sound s.valid_indexes valid (ground arith) in
            let hit : s.gf_tables ≡ tables = elim prepared [
              | inl q ↦ absurd (some_valid (sym ve ∙ q))
              | inr q ↦ ap value_of (sym q ∙ ap₂ (tables_for s) ve ce ∙ e)
            ] in
            rw h (
              refl,
              record {
                same_units = refl;
                same_all = refl;
                same_matrix = refl;
                valid_now = ve;
                cached_now = ce;
                tables_now = hit;
              },
            )
        | inr h ↦
            rw (h, copy_of-all erased, copy_of-all valid, e)
              (
                refl,
                record {
                  same_units = refl;
                  same_all = refl;
                  same_matrix = refl;
                  valid_now = refl;
                  cached_now = refl;
                  tables_now = refl;
                },
              )
      ]

abbrev pub NoneBelow : ℕ → List ℕ → Type 0
NoneBelow k [] = Unit
NoneBelow k (x ∷ xs) = (k ≤ x) × NoneBelow k xs

count_parities :
    (k all : ℕ) (ps : List ℕ) → AllBelow all ps → NoneBelow k ps → count_erased k all ps ≡ ok 0
unfolding count_erased
count_parities k all [] b c = refl
count_parities k all (p ∷ ps) (b, bs) (c, cs) =
    let inside : ltb p all ≡ true = ground arith in
    let past : ltb p k ≡ false = ground arith in
    rw (inside, count_parities k all ps bs cs, past) refl

count_both :
    (k all : ℕ) (datas ps : List ℕ)
    → k ≤ all
    → AllBelow k datas
    → AllBelow all ps
    → NoneBelow k ps
    → count_erased k all (datas ++ ps) ≡ ok (length datas)
unfolding count_erased
count_both k all [] ps h d b c = count_parities k all ps b c
count_both k all (x ∷ xs) ps h (d, ds) b c =
    let inside : ltb x all ≡ true = ground arith in
    let data_unit : ltb x k ≡ true = ground arith in
    let e : length xs + 1 ≡ suc (length xs) = omega arith in
    rw (inside, count_both k all xs ps h ds b c, data_unit) (ap ok e)

module _ (s : RawErasureDecoder) (n : ℕ) (data_units : List (List Byte))
    (inputs : List (Option Buffer)) (outputs : List Buffer) (datas parities : List ℕ) where
  abbrev pub unit : ℕ → List ℕ
  unit = unit_bytes n (gen_cauchy_matrix s.num_all_units s.num_data_units) data_units

  abbrev pub erased : List ℕ
  erased = datas ++ parities

  abbrev pub valid : List ℕ
  valid = get_valid_indexes 0 inputs

  -- Inputs that carry units of one stripe, enough of them, and outputs for the erased units.
  pub record IsStripe : Type 0 where
    pub fits : s.num_data_units ≤ s.num_all_units
    pub bounded : s.num_all_units ≤ 256
    pub some_data : 0 < s.num_data_units
    pub some_bytes : 0 < n
    pub matrix : s.encode_matrix ≡ gen_cauchy_matrix s.num_all_units s.num_data_units
    pub units_count : length data_units ≡ s.num_data_units
    pub units_width : AreRows gf256 n data_units
    pub inputs_count : length inputs ≤ s.num_all_units
    pub enough : s.num_data_units ≤ length valid
    pub carried : AllCarry n unit 0 inputs
    pub datas_below : AllBelow s.num_data_units datas
    pub parities_below : AllBelow s.num_all_units parities
    pub parities_from : NoneBelow s.num_data_units parities
    pub erased_count : length erased ≤ s.num_all_units
    pub outputs_count : length outputs ≡ length erased
    pub outputs_hold : AllHold n outputs

  abbrev pub read : List ℕ
  read = take s.num_data_units valid

  abbrev pub blank : List ℕ
  blank = replicate (s.num_all_units * s.num_data_units * 32) 0

  -- The decode matrix and its tables.
  pub record HasTables : Type 0 where
    pub rows : List (List Byte)
    pub tables : List ℕ
    pub width : AreRows gf256 s.num_data_units rows
    pub writes : map (λ r. written n r (map unit read)) rows ≡ map unit erased
    pub made : init_tables (flat rows) blank ≡ ok tables
    pub room : 32 * length (flat rows) ≤ length blank
    pub held : tables_for s valid erased ≡ ok tables

  made_tables :
      (h : IsStripe) (r : Result (List (List Byte)))
      → generate_decode_matrix gf256 s.num_data_units s.num_all_units s.encode_matrix valid
          (length datas)
          erased
        ≡ r
      → RestoresRegions s.num_data_units n
          (gen_cauchy_matrix s.num_all_units s.num_data_units)
          read
          erased
          r
      → HasTables
  unfolding process_erasures
  made_tables h (throw e) q w = absurd w
  made_tables h fault q w = absurd w
  made_tables h (ok rows) q (w, restores) =
      let k = s.num_data_units in
      let all = s.num_all_units in
      let same_length = ap length (restores data_units h.units_count h.units_width) in
      let count : length rows ≡ length erased =
        omega (arith, length-map rows (λ r. written n r (map unit read)), length-map erased unit) in
      let few = h.erased_count in
      let area : length erased * k ≤ all * k = grind arith in
      let room : 32 * length (flat rows) ≤ length blank = omega (
        arith,
        length-flat k rows w,
        length-replicate (all * k * 32) zero,
        ap (λ t. t * k) count,
      ) in
      let made = init_tables-filled (flat rows) blank room in
      record {
        rows = rows;
        tables = filled (flat rows) blank;
        width = w;
        writes = restores data_units h.units_count h.units_width;
        made = made;
        room = room;
        held =
            rw
              (
                count_both k all datas parities h.fits h.datas_below h.parities_below
                    h.parities_from,
                q,
              )
              made;
      }

  pub has_tables : IsStripe → HasTables
  has_tables h =
      let k = s.num_data_units in
      let all = s.num_all_units in
      made_tables h _ refl (
        subst
          (λ m.
            RestoresRegions k n (gen_cauchy_matrix all k) read erased
              (generate_decode_matrix gf256 k all m valid (length datas) erased))
          (sym h.matrix)
          (generate_decode_matrix-RestoresRegions k all n valid datas parities h.fits h.bounded
            h.enough (valid-AllBelow all 0 inputs (let few = h.inputs_count in omega arith))
            (valid-AllDifferent 0 inputs) h.datas_below h.parities_below))

  pub some_valid : IsStripe → valid ≢ []
  some_valid h e = let a = h.some_data in let b = h.enough in omega (arith, ap length e)
