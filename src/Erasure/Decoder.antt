-- ===== src/Erasure/Decoder.antt =====
-- The objects of src/client/RawErasureDecoder.cpp and RawErasureEncoder.cpp.
use libhdfs.Prelude.{
  ℕ, zero, suc, ◌+◌, ◌-◌, ◌*◌, ltb, leb, ◌==◌, ◌&&◌, Bool, true, false, if◌then◌else◌, List, [],
  ◌∷◌, ◌++◌, length, replicate, take, drop, Option, none, some, Result, ok, throw, fault, ◌>>=◌,
  invalid_parameter,
}
use libhdfs.Erasure.Field.{Byte, gf256}
use libhdfs.Erasure.Decode.{gen_cauchy_matrix, generate_decode_matrix}
use libhdfs.Erasure.Coder.{
  Buffer, encode_data, init_tables, reset_output_buffers, get_valid_indexes, find_first_valid_input,
  copy_of,
}
use libhdfs.Erasure.Stripe.{values}

-- A matrix in one vector, row after row.
abbrev pub flat : List (List Byte) → List ℕ
flat [] = []
flat (r ∷ rs) = values r ++ flat rs

-- encodeMatrix is used in the constructor alone.
pub record RawErasureEncoder : Type 0 where
  pub num_data_units : ℕ
  pub num_all_units : ℕ
  pub gf_tables : List ℕ

-- The field of the coders has 256 elements.
unfoldable pub raw_erasure_encoder : ℕ → ℕ → Result RawErasureEncoder
raw_erasure_encoder k parity =
    let all = k + parity in
    if leb 256 all
    then throw invalid_parameter
    else (init_tables (flat (drop k (gen_cauchy_matrix all k))) (replicate (all * k * 32) 0)
        >>= λ tables. ok record { num_data_units = k; num_all_units = all; gf_tables = tables })

unfoldable pub do_encode : RawErasureEncoder → ℕ → List Buffer → List Buffer → Result (List Buffer)
do_encode coder encode_length inputs outputs =
    reset_output_buffers encode_length outputs >>= encode_data coder.gf_tables inputs

-- `dataLen` bytes are consumed.
unfoldable pub consumed : ℕ → List (Option Buffer) → List (Option Buffer)
consumed data_len [] = []
consumed data_len (none ∷ bs) = none ∷ consumed data_len bs
consumed data_len (some b ∷ bs) =
    some (record b { position = b.position + data_len; remaining = b.remaining - data_len })
    ∷ consumed data_len bs

-- An access to a buffer that is not there is undefined.
unfoldable pub all_there : List (Option Buffer) → Result (List Buffer)
all_there [] = ok []
all_there (none ∷ bs) = fault
all_there (some b ∷ bs) = all_there bs >>= λ cs. ok (b ∷ cs)

-- The inputs and the outputs, after the call.
unfoldable pub encode :
    RawErasureEncoder
    → List (Option Buffer)
    → List Buffer
    → Result (List (Option Buffer) × List Buffer)
encode coder inputs outputs = find_first_valid_input inputs >>= λ first.
    if first.remaining == 0
    then ok (inputs, outputs)
    else (all_there inputs >>= λ buffers.
        do_encode coder first.remaining buffers outputs >>= λ outs.
        ok (consumed first.remaining inputs, outs))

-- decodeMatrix, invertMatrix, numErasedDataUnits and erasureFlags are filled anew before each use, so
-- they are no part of the state between calls.
pub record RawErasureDecoder : Type 0 where
  pub num_data_units : ℕ
  pub num_all_units : ℕ
  pub encode_matrix : List (List Byte)
  pub valid_indexes : List ℕ
  pub cached_erased_indexes : List ℕ
  pub gf_tables : List ℕ

unfoldable pub raw_erasure_decoder : ℕ → ℕ → Result RawErasureDecoder
raw_erasure_decoder k parity =
    let all = k + parity in
    if leb 256 all
    then throw invalid_parameter
    else ok record {
      num_data_units = k;
      num_all_units = all;
      encode_matrix = gen_cauchy_matrix all k;
      valid_indexes = [];
      cached_erased_indexes = [];
      gf_tables = [];
    }

-- The number of erased data units; an erased index that is no unit is a write past the end of
-- `erasureFlags`.
unfoldable pub count_erased : ℕ → ℕ → List ℕ → Result ℕ
count_erased k all [] = ok 0
count_erased k all (i ∷ is) =
    let rest = count_erased k all is in
    if ltb i all then (rest >>= λ n. ok (if ltb i k then n + 1 else n)) else fault

-- The tables that processErasures fills, for the valid and the erased indexes.
unfoldable pub process_erasures : ℕ → ℕ → List (List Byte) → List ℕ → List ℕ → Result (List ℕ)
process_erasures k all encode_matrix valid_indexes erased =
    count_erased k all erased >>= λ num_erased.
    generate_decode_matrix gf256 k all encode_matrix valid_indexes num_erased erased >>= λ rows.
    init_tables (flat rows) (replicate (all * k * 32) 0)

abbrev pub same_indexes : List ℕ → List ℕ → Bool
same_indexes [] [] = true
same_indexes [] (y ∷ ys) = false
same_indexes (x ∷ xs) [] = false
same_indexes (x ∷ xs) (y ∷ ys) = (x == y) && same_indexes xs ys

-- An exception leaves the cache set and the tables at 0.
unfoldable pub finish_preparing :
    RawErasureDecoder → Result (List ℕ) → RawErasureDecoder × Result (Unit {0})
finish_preparing s (ok tables) = (record s { gf_tables = tables }, ok tt)
finish_preparing s (throw e) = (s, throw e)
finish_preparing s fault = (s, fault)

unfoldable pub prepare_decoding :
    RawErasureDecoder → List (Option Buffer) → List ℕ → RawErasureDecoder × Result (Unit {0})
prepare_decoding s inputs erased =
    let tmp_valid_indexes = get_valid_indexes 0 inputs in
    let s' = record s {
      cached_erased_indexes = copy_of erased (length erased);
      valid_indexes = copy_of tmp_valid_indexes (length tmp_valid_indexes);
      gf_tables = replicate (s.num_all_units * s.num_data_units * 32) 0;
    } in
    if same_indexes s.cached_erased_indexes erased && same_indexes s.valid_indexes tmp_valid_indexes
    then (s, ok tt)
    else finish_preparing s'
        (process_erasures s.num_data_units s.num_all_units s.encode_matrix s'.valid_indexes erased)

unfoldable pub input_at : List (Option Buffer) → ℕ → Result Buffer
input_at [] i = fault
input_at (none ∷ bs) zero = fault
input_at (some b ∷ bs) zero = ok b
input_at (b ∷ bs) (suc i) = input_at bs i

unfoldable pub real_inputs : List (Option Buffer) → List ℕ → Result (List Buffer)
real_inputs inputs [] = ok []
real_inputs inputs (i ∷ is) = input_at inputs i >>= λ b. real_inputs inputs is >>= λ bs. ok (b ∷ bs)

-- `validIndexes[i]` for each data unit.
unfoldable pub chosen_inputs : RawErasureDecoder → List (Option Buffer) → Result (List Buffer)
chosen_inputs s inputs =
    if leb s.num_data_units (length s.valid_indexes)
    then real_inputs inputs (take s.num_data_units s.valid_indexes)
    else fault

unfoldable pub do_decode :
    RawErasureDecoder
    → ℕ
    → List (Option Buffer)
    → List ℕ
    → List Buffer
    → RawErasureDecoder × Result (List Buffer)
do_decode s decode_length inputs erased outputs =
    let (s', prepared) = prepare_decoding s inputs erased in
    (
      s',
      reset_output_buffers decode_length outputs >>= λ outs. prepared >>= λ _.
          chosen_inputs s' inputs >>= λ buffers. encode_data s'.gf_tables buffers outs,
    )

-- The rest of `decode`, where the first valid input gives the length.
unfoldable pub decode_from :
    RawErasureDecoder
    → List (Option Buffer)
    → List ℕ
    → List Buffer
    → Result Buffer
    → RawErasureDecoder × Result (List (Option Buffer) × List Buffer)
decode_from s inputs erased outputs (throw e) = (s, throw e)
decode_from s inputs erased outputs fault = (s, fault)
decode_from s inputs erased outputs (ok first) =
    let (s', outs) = do_decode s first.remaining inputs erased outputs in
    if first.remaining == 0
    then (s, ok (inputs, outputs))
    else (s', outs >>= λ os. ok (consumed first.remaining inputs, os))

-- The decoder, and the inputs and the outputs after the call.
unfoldable pub decode :
    RawErasureDecoder
    → List (Option Buffer)
    → List ℕ
    → List Buffer
    → RawErasureDecoder × Result (List (Option Buffer) × List Buffer)
decode s inputs erased outputs = decode_from s inputs erased outputs (find_first_valid_input inputs)
