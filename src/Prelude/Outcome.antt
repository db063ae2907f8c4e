-- ===== src/Prelude/Outcome.antt =====
-- What a call of the C++ code can end in: a value, a thrown exception, or a fault, which stands for
-- undefined behaviour (a signed overflow, a read through a null or past-the-end pointer) and for a
-- failed `assert`.
use libhdfs.Prelude.Tests.{ltb, if◌then◌else◌}
use libhdfs.Prelude.Int.{ℤ, pos, negsuc, leb_ℤ}
use Prim.Native.Nat.{ℕ, ◌-◌, ◌%◌, ◌^◌, ◌≤◌, ◌<◌}
use mathlib.Core.Path.{◌≡◌}
use mathlib.Core.Bool.{Bool, true, false, ◌&&◌}
use native.Mathlib.Omega.{arith}

-- The exception classes that the modelled code throws.
pub data Exn : Type 0 where
  invalid_parameter range_error hdfs_io_exception hdfs_network_exception hdfs_timeout_exception :
      Exn
  hdfs_canceled hdfs_end_of_stream length_error hdfs_exception hadoop_illegal_argument : Exn
  hdfs_invalid_block_token hdfs_file_system_closed safe_mode_exception hdfs_rpc_exception : Exn
  not_replicated_yet checksum_exception file_not_found : Exn

pub data Result {ℓ} (A : Type ℓ) : Type ℓ where
  ok : A → Result A
  throw : Exn → Result A
  fault : Result A

infixl 5 ◌>>=◌ ◌>>◌
abbrev pub ◌>>=◌ {ℓ κ} : {A : Type ℓ} {B : Type κ} → Result A → (A → Result B) → Result B
ok a >>= f = f a
throw e >>= f = throw e
fault >>= f = fault

abbrev pub ◌>>◌ {ℓ} : {B : Type ℓ} → Result (Unit {0}) → Result B → Result B
m >> k = m >>= λ _. k

-- `if (!test) THROW(e)`.
abbrev pub require : Bool → Exn → Result (Unit {0})
require true e = ok tt
require false e = throw e

-- `assert(test)`.
abbrev pub assert : Bool → Result (Unit {0})
assert true = ok tt
assert false = fault

-- The value of an `int32_t` expression: out of range it is a signed overflow.
unfoldable pub i32 : ℤ → Result ℤ
i32 z = if leb_ℤ (negsuc (2 ^ 31 - 1)) z && leb_ℤ z (pos (2 ^ 31 - 1)) then ok z else fault

pub i32_pos : (n : ℕ) → n < 2 ^ 31 → i32 (pos n) ≡ ok (pos n)
unfolding i32
i32_pos n h = ground arith

-- The value of an `int` expression that is not negative: out of range it is a signed overflow.
unfoldable pub int_of : ℕ → Result ℕ
int_of n = if ltb n (2 ^ 31) then ok n else fault

pub int_of-ok : (n : ℕ) → n < 2 ^ 31 → int_of n ≡ ok n
unfolding int_of
int_of-ok n h = ground arith

-- `static_cast<int32_t>` of a number: the low 32 bits, as a signed integer.
unfoldable pub cast32 : ℕ → ℤ
cast32 n = let w = n % 2 ^ 32 in if ltb w (2 ^ 31) then pos w else negsuc (2 ^ 32 - w - 1)

pub cast32_pos : (n : ℕ) → n < 2 ^ 31 → cast32 n ≡ pos n
unfolding cast32
cast32_pos n h = ground arith

pub i32_large : (n : ℕ) → 2 ^ 31 ≤ n → i32 (pos n) ≡ fault
unfolding i32
i32_large n h = ground arith

-- `static_cast<int16_t>`
unfoldable pub cast16 : ℕ → ℤ
cast16 n = let w = n % 2 ^ 16 in if ltb w (2 ^ 15) then pos w else negsuc (2 ^ 16 - w - 1)

pub cast16_pos : (n : ℕ) → n < 2 ^ 15 → cast16 n ≡ pos n
unfolding cast16
cast16_pos n h = ground arith
