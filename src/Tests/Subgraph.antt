-- ===== src/Tests/Subgraph.antt =====
-- packages/subgraph/src/decoding.ts and helpers.ts against crates/encoding/src/serialize.rs: the vectors
-- of its tests, and instances of the theorems on decoding.
use native.Mathlib.Decide.{dec_lt}
use block_oracle.Prelude.{ℕ, ◌^◌, ◌-◌, ◌≡◌, refl, true, List, [], ◌∷◌, ◌++◌, arith}
use block_oracle.Prelude.Int.{negsuc}
use block_oracle.Prelude.Outcome.{ok}
use block_oracle.Prelude.Text.{bytes_of}
use block_oracle.Encoding.Messages.{CompressedMessage}
use block_oracle.Encoding.Serialize.{
  serialize_u64, serialize_i64, serialize_str, zigzag, message_tag, serialize_preamble, num_bytes,
  bit_length, push_bytes, first_byte,
}
use block_oracle.Encoding.Varint.{encoding, extra_bytes, serialize_u64-encoding}
use block_oracle.Subgraph.Decoding.{BytesReader, new_reader, decode_u64, decode_i64, decode_string}
use block_oracle.Subgraph.Decoding.Peeks.{At}
use block_oracle.Subgraph.Decoding.RoundTrip.{decode_u64-serialize_u64}
use block_oracle.Subgraph.Decoding.Fields.{decode_i64-serialize_i64, decode_string-serialize_str}
use block_oracle.Subgraph.Tags.{decode_tags, decode_tags-serialize_preamble}

u64_23 : serialize_u64 23 [] ≡ 47 ∷ []
unfolding serialize_u64 num_bytes bit_length push_bytes first_byte dec_lt
u64_23 = refl

u64_9000 : serialize_u64 9000 [] ≡ 162 ∷ 140 ∷ []
unfolding serialize_u64 num_bytes bit_length push_bytes first_byte dec_lt
u64_9000 = refl

u64_24345908991 : serialize_u64 24345908991 [] ≡ 240 ∷ 223 ∷ 34 ∷ 100 ∷ 181 ∷ []
unfolding serialize_u64 num_bytes bit_length push_bytes first_byte dec_lt
u64_24345908991 = refl

zigzag_min : zigzag (negsuc (2 ^ 63 - 1)) ≡ 2 ^ 64 - 1
unfolding zigzag
zigzag_min = refl

-- The encodings of 9000, of -3 and of "gnosis", each with a byte behind it.
abbrev reader_9000 : BytesReader
reader_9000 = new_reader (162 ∷ 140 ∷ 7 ∷ [])

abbrev reader_minus_three : BytesReader
reader_minus_three = new_reader (11 ∷ 7 ∷ [])

abbrev reader_gnosis : BytesReader
reader_gnosis = new_reader (13 ∷ (bytes_of "gnosis" ++ (7 ∷ [])))

at_9000 : At reader_9000 (serialize_u64 9000 [] ++ (7 ∷ []))
at_9000 = rw u64_9000 refl

At-minus_three : At reader_minus_three (serialize_i64 (negsuc 2) [] ++ (7 ∷ []))
unfolding serialize_i64 zigzag serialize_u64 num_bytes bit_length push_bytes first_byte dec_lt
At-minus_three = refl

At-gnosis : At reader_gnosis (serialize_str (bytes_of "gnosis") [] ++ (7 ∷ []))
unfolding serialize_str serialize_u64 num_bytes bit_length push_bytes first_byte dec_lt
At-gnosis = refl

decode_u64-serialize_u64_example :
    ((decode_u64 reader_9000).0 ≡ 9000)
    × At (decode_u64 reader_9000).1 (7 ∷ [])
    × ((decode_u64 reader_9000).1.ok ≡ true)
decode_u64-serialize_u64_example =
    decode_u64-serialize_u64 9000 reader_9000 (7 ∷ []) (omega arith) at_9000

serialize_u64-encoding_example : serialize_u64 9000 (1 ∷ []) ≡ 1 ∷ encoding (extra_bytes 9000) 9000
serialize_u64-encoding_example = serialize_u64-encoding 9000 (1 ∷ []) (omega arith)

decode_i64-serialize_i64_example :
    ((decode_i64 reader_minus_three).0 ≡ negsuc 2)
    × At (decode_i64 reader_minus_three).1 (7 ∷ [])
    × ((decode_i64 reader_minus_three).1.ok ≡ true)
decode_i64-serialize_i64_example =
    decode_i64-serialize_i64 (negsuc 2) reader_minus_three (7 ∷ []) (omega arith, omega arith)
      At-minus_three

decode_string-serialize_str_example :
    ((decode_string reader_gnosis).0 ≡ bytes_of "gnosis")
    × At (decode_string reader_gnosis).1 (7 ∷ [])
    × ((decode_string reader_gnosis).1.ok ≡ true)
decode_string-serialize_str_example =
    decode_string-serialize_str (bytes_of "gnosis") reader_gnosis (7 ∷ []) (omega arith) refl
      At-gnosis

decode_tags-serialize_preamble_example :
    (bytes : List ℕ) × (serialize_preamble {E = Unit}
        (CompressedMessage.reset ∷ CompressedMessage.update_version 0 ∷ [])
        (9 ∷ [])
      ≡ ok bytes)
    × ((r : BytesReader)
        → r.bytes ≡ bytes ++ (1 ∷ [])
        → r.offset ≡ 1
        → ((decode_tags r).0
            ≡ message_tag CompressedMessage.reset
              ∷ message_tag (CompressedMessage.update_version 0)
              ∷ [])
          × At (decode_tags r).1 (1 ∷ [])
          × ((decode_tags r).1.ok ≡ r.ok))
decode_tags-serialize_preamble_example =
    decode_tags-serialize_preamble CompressedMessage.reset (CompressedMessage.update_version 0)
      (9 ∷ []) (1 ∷ [])
