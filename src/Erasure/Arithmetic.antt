-- ===== src/Erasure/Arithmetic.antt =====
-- gfMul, gfInv and the multiplication by 2 of src/client/GF256.cpp.
use libhdfs.Prelude.{ℕ, ◌+◌, ◌-◌, ◌*◌, ◌%◌, ltb, ◌==◌, ◌||◌, if◌then◌else◌, get_or}
use Prim.Native.Nat.{bit_xor}
use libhdfs.Erasure.Tables.{gf_base, gf_log_base}

unfoldable pub gf_mul : ℕ → ℕ → ℕ
gf_mul a b =
    let tmp = get_or gf_log_base a 0 + get_or gf_log_base b 0 in
    if a == 0 || b == 0 then 0 else get_or gf_base (if ltb 254 tmp then tmp - 255 else tmp) 0

-- `(255 - GF_LOG_BASE[a & 0xff]) & 0xff`, where the logarithm is read as a signed char.
unfoldable pub gf_inv : ℕ → ℕ
gf_inv a = if a == 0 then 0 else get_or gf_base ((511 - get_or gf_log_base a 0) % 256) 0

-- `(c << 1) ^ ((c & 0x80) != 0 ? 0x1d : 0)`, as a char.
unfoldable pub times_two : ℕ → ℕ
times_two c = bit_xor (2 * c % 256) (if ltb 127 c then 0x1d else 0)
