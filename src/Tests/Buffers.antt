-- ===== src/Tests/Buffers.antt =====
-- A WriteBuffer of two bytes.
use libhdfs.Prelude.{◌≡◌, arith, [], ◌∷◌, ok, fault}
use libhdfs.WriteBuffer.{WriteBuffer, write, append}
use libhdfs.WriteBuffer.Appending.{IsValid, data_of, write-data_of, append-append_fault}

abbrev two : WriteBuffer
two = record { size = 1; buffer = 9 ∷ 0 ∷ [] }

write-data_of_example :
    (b' : WriteBuffer) × (write (5 ∷ 6 ∷ []) 0 two ≡ ok b')
    × IsValid b'
    × (data_of b' ≡ 9 ∷ 5 ∷ 6 ∷ [])
write-data_of_example = write-data_of (5 ∷ 6 ∷ []) 0 two (omega arith) (omega arith) (omega arith)

append-append_fault_example :
    (b' : WriteBuffer) × (append (5 ∷ 6 ∷ 7 ∷ 8 ∷ []) two ≡ ok b') × (append (1 ∷ []) b' ≡ fault)
append-append_fault_example =
    append-append_fault (5 ∷ 6 ∷ 7 ∷ 8 ∷ []) (1 ∷ []) two (omega arith) (omega arith)
