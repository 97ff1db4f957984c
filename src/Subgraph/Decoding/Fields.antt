-- ===== src/Subgraph/Decoding/Fields.antt =====
-- Signed numbers and texts: the ZigZag code and the length prefix.
use native.Mathlib.Nat.{mod-eq_of_lt}
use block_oracle.Prelude.{
  ℕ, ◌+◌, ◌-◌, ◌*◌, ◌/◌, ◌%◌, ◌^◌, ◌<◌, ◌≡◌, refl, ◌∙◌, true, List, [], ◌++◌, append_assoc, arith,
  length,
}
use block_oracle.Prelude.Bits.{bit_xor_ones, bit_xor-zero}
use block_oracle.Prelude.Int.{ℤ, pos, negsuc, IsI64}
use block_oracle.Prelude.Text.{Str}
use block_oracle.Encoding.Messages.{IsU64}
use block_oracle.Encoding.Serialize.{zigzag, serialize_i64, serialize_str}
use block_oracle.Subgraph.Decoding.{
  BytesReader, decode_u64, decode_zigzag, decode_i64, decode_string,
}
use block_oracle.Subgraph.Decoding.Peeks.{At, At-advance, advance_lem}
use block_oracle.Subgraph.Decoding.RoundTrip.{decode_u64-serialize_u64}

-- The code of an `i64` in plain arithmetic: the numbers from 0 up go to the even ones, those below
-- to the odd ones.
abbrev pub interleave : ℤ → ℕ
interleave (pos n) = 2 * n
interleave (negsuc n) = 2 * n + 1

pub zigzag-interleave : (a : ℤ) → IsI64 a → zigzag a ≡ interleave a
unfolding zigzag
zigzag-interleave (pos n) h = rw bit_xor-zero (omega arith)
zigzag-interleave (negsuc n) h =
    omega (arith, bit_xor_ones 64 ((2 ^ 64 - 1 - n) * 2 % 2 ^ 64) (omega arith))

decode_zigzag-interleave : (a : ℤ) → IsI64 a → decode_zigzag (interleave a) ≡ a
unfolding decode_zigzag
decode_zigzag-interleave (pos n) h = rw (even n, half n, bit_xor-zero) (ground arith)
  where
    even : (n : ℕ) → (2 ^ 64 - 2 * n % 2) % 2 ^ 64 ≡ 0
    even n = omega arith

    half : (n : ℕ) → 2 * n / 2 ≡ n
    half n = omega arith
decode_zigzag-interleave (negsuc n) h =
    rw (odd n, half n) (ground (arith, bit_xor_ones 64 n (omega arith)))
  where
    odd : (n : ℕ) → (2 ^ 64 - (2 * n + 1) % 2) % 2 ^ 64 ≡ 2 ^ 64 - 1
    odd n = omega arith

    half : (n : ℕ) → (2 * n + 1) / 2 ≡ n
    half n = omega arith

-- Decoding undoes the ZigZag code of every `i64`.
pub decode_zigzag-zigzag : (a : ℤ) → IsI64 a → decode_zigzag (zigzag a) ≡ a
decode_zigzag-zigzag a h = rw (zigzag-interleave a h) (decode_zigzag-interleave a h)

pub zigzag-IsU64 : (a : ℤ) → IsI64 a → IsU64 (zigzag a)
zigzag-IsU64 (pos n) h = rw (zigzag-interleave (pos n) h) (omega arith)
zigzag-IsU64 (negsuc n) h = rw (zigzag-interleave (negsuc n) h) (omega arith)

-- A reader that stands before what `serialize_i64` wrote for an `i64` reads that number, keeps its
-- error flag, and then stands before whatever follows.
pub decode_i64-serialize_i64 :
    (a : ℤ) (r : BytesReader) (rest : List ℕ)
    → IsI64 a
    → At r (serialize_i64 a [] ++ rest)
    → ((decode_i64 r).0 ≡ a) × At (decode_i64 r).1 rest × ((decode_i64 r).1.ok ≡ r.ok)
unfolding decode_i64 serialize_i64
decode_i64-serialize_i64 a r rest h at =
    let (value, next, fine) = decode_u64-serialize_u64 (zigzag a) r rest (zigzag-IsU64 a h) at in
    (rw value (decode_zigzag-zigzag a h), next, fine)

-- A reader without an error that stands before what `serialize_str` wrote for a text shorter than
-- 4 GiB reads that text, has no error, and then stands before whatever follows.
pub decode_string-serialize_str :
    (s : Str) (r : BytesReader) (rest : List ℕ)
    → length s < 2 ^ 32
    → r.ok ≡ true
    → At r (serialize_str s [] ++ rest)
    → ((decode_string r).0 ≡ s) × At (decode_string r).1 rest × ((decode_string r).1.ok ≡ true)
unfolding decode_string serialize_str
decode_string-serialize_str s r rest h fine at =
    let (value, next, fine') =
      decode_u64-serialize_u64 (length s) r (s ++ rest) (omega arith) (rw append_assoc at at) in
    rw
      (
        fine' ∙ fine,
        value,
        mod-eq_of_lt h,
        advance_lem (length s) (decode_u64 r).1 s rest next refl,
      )
      (refl, At-advance (length s) (decode_u64 r).1 s rest next refl, fine' ∙ fine)
