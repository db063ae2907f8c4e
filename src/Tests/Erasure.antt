-- ===== src/Tests/Erasure.antt =====
-- Runs of the erasure coder.
use libhdfs.Prelude.{
  ◌+◌, map, range, Option, none, some, inl, ℕ, ◌<◌, ◌≡◌, ◌≢◌, refl, arith, List, [], ◌∷◌, ◌++◌,
  length, replicate, take, ok, ◌>>=◌,
}
use Prim.Native.Nat.{bit_xor}
use libhdfs.Erasure.Tables.{gf_base, gf_log_base}
use libhdfs.Erasure.Arithmetic.{gf_mul, gf_inv}
use libhdfs.Erasure.Laws.{gf_mul-IsField}
use libhdfs.Erasure.Field.{Byte, gf256}
use libhdfs.Erasure.Matrix.{gf_invert_matrix}
use libhdfs.Erasure.Inverse.{Inverts}
use libhdfs.Erasure.Loop.{gf_invert_matrix-Inverts}
use libhdfs.Erasure.VectMul.{gf_vect_mul_init, digit_products, gf_vect_mul_init-gf_mul}
use libhdfs.Erasure.Decode.{to_byte, gen_cauchy_matrix, generate_decode_matrix}
use libhdfs.Erasure.Stripe.{RestoresRegions, generate_decode_matrix-RestoresRegions}
use libhdfs.Erasure.Coder.{Buffer, encode_data, init_tables}
use libhdfs.Erasure.Matrix.{unit_row}
use libhdfs.Erasure.Coder.{get_valid_indexes}
use libhdfs.Erasure.Decoder.{
  RawErasureDecoder, raw_erasure_decoder, raw_erasure_encoder, do_encode, consumed, decode,
}
use libhdfs.Erasure.Encoding.{do_encode-with_regions}
use libhdfs.Erasure.Outputs.{with_regions}
use libhdfs.Erasure.Inputs.{AllCarry}
use libhdfs.Erasure.Stripe.{unit_bytes}
use libhdfs.Erasure.Decoding.{IsPrepared, IsStripe}
use libhdfs.Erasure.Restoring.{restored, decode-restored}
use libhdfs.Erasure.Encode.{encoded, encode_data-encoded}

-- 2 is its own half: 2 * 0x8e is 1.
inverse_of_two : gf_mul 2 0x8e ≡ 1
unfolding gf_mul gf_base gf_log_base
inverse_of_two = refl

gf_mul-IsField_example :
    (gf_mul 2 0x8e ≡ gf_mul 0x8e 2)
    × (gf_mul (gf_mul 2 0x8e) 255 ≡ gf_mul 2 (gf_mul 0x8e 255))
    × (gf_mul 2 (bit_xor 0x8e 255) ≡ bit_xor (gf_mul 2 0x8e) (gf_mul 2 255))
    × (gf_mul 1 2 ≡ 2)
    × (0 < 2 → gf_mul 2 (gf_inv 2) ≡ 1)
gf_mul-IsField_example = gf_mul-IsField 2 0x8e 255 (omega arith) (omega arith) (omega arith)

gf_vect_mul_init-gf_mul_example : gf_vect_mul_init 0x8e ≡ digit_products 0x8e
gf_vect_mul_init-gf_mul_example = gf_vect_mul_init-gf_mul 0x8e (omega arith)

-- The first pivot is 0, so the rows change places.
abbrev swapped : List (List Byte)
swapped = (to_byte 0 ∷ to_byte 3 ∷ []) ∷ (to_byte 2 ∷ to_byte 7 ∷ []) ∷ []

gf_invert_matrix-Inverts_example : Inverts gf256 2 swapped (gf_invert_matrix gf256 2 swapped)
gf_invert_matrix-Inverts_example = gf_invert_matrix-Inverts gf256 2 swapped refl (refl, (refl, tt))

one_two : ◌≢◌ {A = ℕ} 1 2
one_two e = omega arith

-- Units 0 and 3 of two data and two parity units are erased.
generate_decode_matrix-RestoresRegions_example :
    RestoresRegions 2 5 (gen_cauchy_matrix 4 2) (take 2 (1 ∷ 2 ∷ [])) ((0 ∷ []) ++ (3 ∷ [])) (
      generate_decode_matrix gf256 2 4
        (gen_cauchy_matrix 4 2)
        (1 ∷ 2 ∷ [])
        1
        ((0 ∷ []) ++ (3 ∷ [])))
generate_decode_matrix-RestoresRegions_example =
    generate_decode_matrix-RestoresRegions 2 4 5 (1 ∷ 2 ∷ []) (0 ∷ []) (3 ∷ []) (omega arith)
      (omega arith) (omega arith) (omega arith, (omega arith, tt)) ((one_two, tt), (tt, tt))
      (omega arith, tt) (omega arith, tt)

-- Nine bytes, one word and one more, from the second of a block.
abbrev input : ℕ → Buffer
input b = record { bytes = 0 ∷ b ∷ 2 ∷ 3 ∷ 4 ∷ 5 ∷ 6 ∷ 7 ∷ 8 ∷ 9 ∷ []; position = 1; remaining = 9 }

abbrev output : Buffer
output = record { bytes = replicate 9 0; position = 0; remaining = 9 }

abbrev blank : List ℕ
blank = replicate 64 0

encode_data-encoded_example :
    (init_tables (2 ∷ 0x8e ∷ []) blank >>= λ tables.
    encode_data tables (input 200 ∷ input 17 ∷ []) (output ∷ []))
    ≡ ok (
        encoded
          (length (input 200 ∷ input 17 ∷ []))
          9
          (2 ∷ 0x8e ∷ [])
          (input 200 ∷ input 17 ∷ [])
          (output ∷ []))
encode_data-encoded_example =
    encode_data-encoded (2 ∷ 0x8e ∷ []) blank (input 200) (input 17 ∷ []) (output ∷ [])
      (ground arith) (ground arith) (ground arith) (ground arith) (ground arith)

-- Two data units of two bytes and a parity unit, of which unit 0 is erased.
abbrev data_regions : List (List Byte)
data_regions = (to_byte 5 ∷ to_byte 7 ∷ []) ∷ (to_byte 9 ∷ to_byte 11 ∷ []) ∷ []

abbrev decoder : RawErasureDecoder
decoder = record {
  num_data_units = 2;
  num_all_units = 3;
  encode_matrix = gen_cauchy_matrix 3 2;
  valid_indexes = [];
  cached_erased_indexes = [];
  gf_tables = [];
}

-- The decoder that the constructor makes.
new_decoder : raw_erasure_decoder 2 1 ≡ ok decoder
unfolding raw_erasure_decoder
new_decoder = refl

abbrev carrying : ℕ → ℕ → Buffer
carrying a b = record { bytes = 0 ∷ a ∷ b ∷ []; position = 1; remaining = 2 }

abbrev read_units : List (Option Buffer)
read_units = none ∷ some (carrying 9 11) ∷ some (carrying 139 127) ∷ []

abbrev into : List Buffer
into = carrying 1 2 ∷ []

carrying_units : AllCarry 2 (unit_bytes 2 (gen_cauchy_matrix 3 2) data_regions) 0 read_units
unfolding gen_cauchy_matrix unit_row gf_mul gf_inv gf_base gf_log_base
carrying_units = ((ground arith, refl, refl), ((ground arith, refl, refl), tt))

decoder-IsStripe : IsStripe decoder 2 data_regions read_units into (0 ∷ []) []
unfolding get_valid_indexes
decoder-IsStripe = record {
  fits = omega arith;
  bounded = omega arith;
  some_data = omega arith;
  some_bytes = omega arith;
  matrix = refl;
  units_count = refl;
  units_width = (refl, (refl, tt));
  inputs_count = omega arith;
  enough = omega arith;
  carried = carrying_units;
  datas_below = (omega arith, tt);
  parities_below = tt;
  parities_from = tt;
  erased_count = omega arith;
  outputs_count = refl;
  outputs_hold = ground arith;
}

decode-restored_example :
    IsPrepared (decode decoder read_units ((0 ∷ []) ++ []) into).0
    × ((decode decoder read_units ((0 ∷ []) ++ []) into).1
        ≡ ok (
          consumed 2 read_units,
          restored decoder 2 data_regions read_units into (0 ∷ []) [] decoder-IsStripe,
        ))
decode-restored_example =
    decode-restored decoder 2 data_regions read_units into (0 ∷ []) [] decoder-IsStripe (inl refl)

do_encode-with_regions_example :
    (raw_erasure_encoder 2 1 >>= λ coder.
    do_encode coder 2 (carrying 5 7 ∷ carrying 9 11 ∷ []) into)
    ≡ ok (
        with_regions 2
          (map (unit_bytes 2 (gen_cauchy_matrix (2 + 1) 2) data_regions) (range 2 1))
          into)
do_encode-with_regions_example =
    do_encode-with_regions 2 1 (omega arith) 2 data_regions (carrying 5 7) (carrying 9 11 ∷ []) into
      refl refl refl (ground arith) refl (ground arith)
