-- ===== src/Tests/Json.antt =====
-- Instances of the theorems on crates/json-oracle-encoder.
use block_oracle.Prelude.{ℕ, ◌≡◌, refl, List, [], ◌∷◌}
use block_oracle.Prelude.Outcome.{ok}
use block_oracle.Prelude.Text.{bytes_of}
use block_oracle.Encoding.Serialize.{
  serialize_messages, serialize_chunk, serialize_chunk_messages, serialize_preamble,
  serialize_message, serialize_str, serialize_register_networks, serialize_strs, serialize_u64s,
  fold_tags, message_tag, serialize_u64, num_bytes, bit_length, push_bytes, first_byte,
}
use native.Mathlib.Decide.{dec_lt}
use block_oracle.Json.{
  ready_to_encode, encode_block, messages_to_encoded_message_blocks, the_only_one, JsonMessage,
  MessageBlock, message_block_with_one_message, compressed_contents, messages_to_payload,
}

abbrev registration : MessageBlock
registration =
    message_block_with_one_message (JsonMessage.register_networks [] (bytes_of "eip155:1" ∷ []))

abbrev registration_bytes : List ℕ
registration_bytes = 3 ∷ 1 ∷ 3 ∷ 17 ∷ bytes_of "eip155:1"

-- The left side holds of it.
registration_encoded : messages_to_payload (registration ∷ []) ≡ ok registration_bytes
unfolding messages_to_payload messages_to_encoded_message_blocks encode_block compressed_contents
    ready_to_encode the_only_one serialize_messages serialize_chunk serialize_chunk_messages
    serialize_preamble serialize_message serialize_str serialize_register_networks serialize_strs
    serialize_u64s fold_tags message_tag serialize_u64 num_bytes bit_length push_bytes first_byte
    dec_lt
registration_encoded = refl
