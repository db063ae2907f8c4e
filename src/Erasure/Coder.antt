-- ===== src/Erasure/Coder.antt =====
-- encodeData and initTables of src/client/RSUtil.cpp, and src/client/CoderUtil.cpp.
use libhdfs.Prelude.{
  ℕ, zero, suc, ◌+◌, ◌*◌, ◌/◌, ◌%◌, leb, if◌then◌else◌, List, [], ◌∷◌, ◌++◌, length, take, drop,
  replicate, Option, none, some, Result, ok, throw, fault, ◌>>=◌, hadoop_illegal_argument,
}
use Prim.Native.Nat.{bit_xor}
use libhdfs.Erasure.Arithmetic.{gf_mul}
use libhdfs.Erasure.VectMul.{gf_vect_mul_init}
use libhdfs.Erasure.Words.{load, store, mix_word}

-- What the coder uses of a ByteBuffer: its block, its position and what remains up to its limit.
-- Two buffers share no memory, and positions are below 2^31, where the casts to `int` keep them.
pub record Buffer : Type 0 where
  pub bytes : List ℕ
  pub position : ℕ
  pub remaining : ℕ

-- `len` bytes at an address; past the end of the block the access is undefined.
unfoldable pub read_bytes : ℕ → List ℕ → ℕ → Result (List ℕ)
read_bytes len block at =
    if leb (at + len) (length block) then ok (take len (drop at block)) else fault

unfoldable pub write_bytes : List ℕ → ℕ → List ℕ → Result (List ℕ)
write_bytes new at block =
    if leb (at + length new) (length block)
    then ok (take at block ++ (new ++ drop (length new) (drop at block)))
    else fault

-- The two inner loops: `count` times, `size` bytes of the input are mixed into the output.
unfoldable pub xor_chunks :
    (List ℕ → List ℕ → List ℕ) → ℕ → ℕ → ℕ → ℕ → List ℕ → List ℕ → Result (List ℕ)
xor_chunks mix size zero i_pos o_pos input output = ok output
xor_chunks mix size (suc count) i_pos o_pos input output = read_bytes size input i_pos >>= λ t1.
    read_bytes size output o_pos >>= λ t2.
    write_bytes (mix t1 t2) o_pos output
    >>= xor_chunks mix size count (i_pos + size) (o_pos + size) input

-- Eight bytes at a time.
abbrev pub xor_word : ℕ → List ℕ → List ℕ → List ℕ
xor_word s t1 t2 = store 8 (mix_word s (load t1) (load t2))

-- One of the bytes that are left.
abbrev pub xor_byte : ℕ → List ℕ → List ℕ → List ℕ
xor_byte s [] ys = []
xor_byte s (x ∷ xs) [] = []
xor_byte s (x ∷ xs) (y ∷ ys) = bit_xor y (gf_mul s x) ∷ []

-- `output ^= s * input`, on `data_len` bytes.
unfoldable pub xor_input : ℕ → ℕ → Buffer → Buffer → Result Buffer
xor_input s data_len input output =
    let times = data_len / 8 in
    xor_chunks (xor_word s) 8 times input.position output.position input.bytes output.bytes
    >>= xor_chunks (xor_byte s) 1 (data_len % 8) (input.position + times * 8)
        (output.position + times * 8) input.bytes
    >>= λ block. ok (record output { bytes = block })

unfoldable pub byte_of : List ℕ → ℕ → Result ℕ
byte_of [] i = fault
byte_of (b ∷ bs) zero = ok b
byte_of (b ∷ bs) (suc i) = byte_of bs i

-- The loop over `j`, from the inputs that are left.
unfoldable pub encode_output : List ℕ → ℕ → ℕ → ℕ → ℕ → List Buffer → Buffer → Result Buffer
encode_output tables num_inputs data_len l j [] output = ok output
encode_output tables num_inputs data_len l j (input ∷ inputs) output =
    byte_of tables (j * 32 + l * num_inputs * 32 + 1) >>= λ s.
    xor_input s data_len input output >>= encode_output tables num_inputs data_len l (j + 1) inputs

-- The loop over `l`.
unfoldable pub encode_outputs : List ℕ → ℕ → List Buffer → ℕ → List Buffer → Result (List Buffer)
encode_outputs tables data_len inputs l [] = ok []
encode_outputs tables data_len inputs l (output ∷ outputs) =
    encode_output tables (length inputs) data_len l 0 inputs output >>= λ o.
    encode_outputs tables data_len inputs (l + 1) outputs >>= λ os. ok (o ∷ os)

unfoldable pub encode_data : List ℕ → List Buffer → List Buffer → Result (List Buffer)
encode_data tables [] outputs = fault
encode_data tables (i ∷ is) outputs = encode_outputs tables i.remaining (i ∷ is) 0 outputs

-- The coefficients are those of `codingMatrix` from `matrixOffset` on; a write past the end of the
-- tables is undefined.
unfoldable pub init_tables : List ℕ → List ℕ → Result (List ℕ)
init_tables [] tables = ok tables
init_tables (c ∷ cs) tables = init_tables cs (drop 32 tables) >>= λ rest.
    if leb 32 (length tables) then ok (gf_vect_mul_init c ++ rest) else fault

-- `memset(buffer + pos, 0, len)`
unfoldable pub reset_buffer : ℕ → Buffer → Result Buffer
reset_buffer len b =
    write_bytes (replicate len 0) b.position b.bytes >>= λ block. ok (record b { bytes = block })

unfoldable pub reset_output_buffers : ℕ → List Buffer → Result (List Buffer)
reset_output_buffers data_len [] = ok []
reset_output_buffers data_len (b ∷ bs) =
    reset_buffer data_len b >>= λ c. reset_output_buffers data_len bs >>= λ cs. ok (c ∷ cs)

-- The indexes of the buffers that are there; `i` is the index of the first.
unfoldable pub get_valid_indexes : ℕ → List (Option Buffer) → List ℕ
get_valid_indexes i [] = []
get_valid_indexes i (none ∷ bs) = get_valid_indexes (i + 1) bs
get_valid_indexes i (some b ∷ bs) = i ∷ get_valid_indexes (i + 1) bs

unfoldable pub find_first_valid_input : List (Option Buffer) → Result Buffer
find_first_valid_input [] = throw hadoop_illegal_argument
find_first_valid_input (none ∷ bs) = find_first_valid_input bs
find_first_valid_input (some b ∷ bs) = ok b

-- `copyOf(original, newLength)`, of which the rest is 0.
unfoldable pub copy_of : List ℕ → ℕ → List ℕ
copy_of original zero = []
copy_of [] (suc n) = 0 ∷ copy_of [] n
copy_of (x ∷ xs) (suc n) = x ∷ copy_of xs n
