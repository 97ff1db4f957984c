-- ===== src/Subgraph/Decoding.antt =====
-- packages/subgraph/src/decoding.ts: the reader of payload bytes in the subgraph. A read past the
-- end clears `ok` and gives a dummy value; nothing is thrown.
pub mod Peeks
pub mod RoundTrip
pub mod Fields
pub mod Sequences
pub mod Progress
use block_oracle.Prelude.{
  ℕ, zero, suc, ◌+◌, ◌-◌, ◌*◌, ◌/◌, ◌%◌, ◌^◌, bit_or, bit_xor, Bool, true, false, List, [], Option,
  none, some, length, take, drop, get_elem?, ltb, leb, ◌==◌, if◌then◌else◌,
}
use block_oracle.Prelude.Int.{ℤ, pos, negsuc}
use block_oracle.Prelude.Text.{Str}

pub record BytesReader : Type 0 where
  pub bytes : List ℕ
  pub offset : ℕ
  pub ok : Bool

abbrev pub new_reader : List ℕ → BytesReader
new_reader bytes = record { bytes = bytes; offset = 0; ok = true }

-- The number of bytes that are left.
unfoldable pub remaining : BytesReader → ℕ
remaining r = length r.bytes - r.offset

unfoldable pub advance : ℕ → BytesReader → List ℕ × BytesReader
unfolding remaining
advance n r =
    if ltb (remaining r) n
    then ([], record r { ok = false })
    else (take n (drop r.offset r.bytes), record r { offset = r.offset + n })

-- A byte by its index, in a reader that has it.
abbrev byte_or_zero : Option ℕ → ℕ
byte_or_zero none = 0
byte_or_zero (some b) = b

unfoldable pub peek : ℕ → BytesReader → ℕ × BytesReader
unfolding remaining
peek i r =
    if leb (remaining r) i
    then (0, record r { ok = false })
    else (byte_or_zero (get_elem? r.bytes (r.offset + i)), r)

-- The number of low zero digits of `v`, for `v` below `2 ^ fuel`.
unfoldable pub trailing_zeros : ℕ → ℕ → ℕ
trailing_zeros zero v = 0
trailing_zeros (suc fuel) v =
    let rest = trailing_zeros fuel (v / 2) in if v % 2 == 0 then suc rest else 0

-- `min(ctz(first), 8)` on a `u64`.
unfoldable pub tag_shift : ℕ → ℕ
unfolding trailing_zeros
tag_shift first = let c = trailing_zeros 64 first in if ltb c 8 then c else 8

-- `acc | (peek(i) << shift) | (peek(i + 1) << (shift + 8)) | …`, `count` terms from left to right.
unfoldable pub peeks : ℕ → ℕ → ℕ → ℕ → BytesReader → ℕ × BytesReader
peeks zero i shift acc r = (acc, r)
peeks (suc count) i shift acc r =
    let (b, r') = peek i r in
    peeks count (i + 1) (shift + 8) (bit_or acc (b * 2 ^ shift % 2 ^ 64)) r'

-- The branch of `decodeU64` for each shift: the bits of the first byte above the marker, and then
-- `shift` bytes. From 7 on the first byte has no such bits.
unfoldable pub decode_shift : ℕ → ℕ → BytesReader → ℕ × BytesReader
unfolding peeks
decode_shift shift first r =
    if leb shift 6
    then peeks shift 1 (7 - shift) (first / 2 ^ (shift + 1)) r
    else peeks shift 1 0 0 r

unfoldable pub decode_u64 : BytesReader → ℕ × BytesReader
decode_u64 r =
    let (first, r₁) = peek 0 r in
    let shift = tag_shift first in
    let (num, r₂) = decode_shift shift first r₁ in (num, (advance (shift + 1) r₂).1)

-- A `u64` read as an `i64`.
abbrev pub as_i64 : ℕ → ℤ
as_i64 n = if ltb n (2 ^ 63) then pos n else negsuc (2 ^ 64 - 1 - n)

-- `((input >> 1) ^ -(input & 1)) as i64`
unfoldable pub decode_zigzag : ℕ → ℤ
decode_zigzag input = as_i64 (bit_xor (input / 2) ((2 ^ 64 - input % 2) % 2 ^ 64))

unfoldable pub decode_i64 : BytesReader → ℤ × BytesReader
decode_i64 r = let (n, r') = decode_u64 r in (decode_zigzag n, r')

-- `length as u32` drops the high half.
unfoldable pub decode_string : BytesReader → Str × BytesReader
decode_string r = let (n, r') = decode_u64 r in if r'.ok then advance (n % 2 ^ 32) r' else ([], r')
