-- ===== src/Subgraph/Decoding/Sequences.antt =====
-- Sequences of signed numbers: what the encoder's loop writes, read one number after the other.
use block_oracle.Prelude.{ℕ, ◌≡◌, List, [], ◌∷◌, ◌++◌, append_assoc, append-nil, All}
use block_oracle.Prelude.Int.{ℤ, IsI64}
use block_oracle.Encoding.Serialize.{serialize_i64, serialize_i64s, zigzag}
use block_oracle.Encoding.Varint.{serialize_u64-append}
use block_oracle.Subgraph.Decoding.Fields.{zigzag-IsU64}

serialize_i64-append :
    (a : ℤ) (bytes : List ℕ) → IsI64 a → serialize_i64 a bytes ≡ bytes ++ serialize_i64 a []
unfolding serialize_i64
serialize_i64-append a bytes h = serialize_u64-append (zigzag a) bytes (zigzag-IsU64 a h)

-- The loop appends to the buffer, ...
pub serialize_i64s-append :
    (xs : List ℤ) (bytes : List ℕ)
    → All IsI64 xs
    → serialize_i64s xs bytes ≡ bytes ++ serialize_i64s xs []
unfolding serialize_i64s
serialize_i64s-append [] bytes h = rw (append-nil bytes)
serialize_i64s-append (x ∷ xs) bytes h =
    rw
      (
        serialize_i64s-append xs (serialize_i64 x bytes) h.1,
        serialize_i64s-append xs (serialize_i64 x []) h.1,
        serialize_i64-append x bytes h.0,
      )
      (append_assoc bytes (serialize_i64 x []) (serialize_i64s xs []))

-- ... so the first number stands in front, before what is written for the others.
pub serialize_i64s-cons :
    (x : ℤ) (xs : List ℤ) (rest : List ℕ)
    → All IsI64 xs
    → serialize_i64s (x ∷ xs) [] ++ rest ≡ serialize_i64 x [] ++ (serialize_i64s xs [] ++ rest)
unfolding serialize_i64s
serialize_i64s-cons x xs rest h =
    rw (serialize_i64s-append xs (serialize_i64 x []) h)
      (append_assoc (serialize_i64 x []) (serialize_i64s xs []) rest)
