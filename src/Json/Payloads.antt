-- ===== src/Json/Payloads.antt =====
-- When crates/json-oracle-encoder/src/lib.rs gives a payload, and which one.
use block_oracle.Prelude.{ℕ, ◌≡◌, List, [], ◌∷◌, map, length}
use block_oracle.Prelude.Int.{ℤ}
use block_oracle.Prelude.Outcome.{ok}
use block_oracle.Prelude.Text.{Str}
use block_oracle.Encoding.Messages.{CompressedMessage, str_to_u64, empty, non_empty}
use block_oracle.Encoding.Serialize.{serialize_messages}
use block_oracle.Json.{
  JsonMessage, json_empty, json_non_empty, MessageBlock, message_block,
  message_block_with_one_message, JsonError,
}

-- A message of the JSON file and the message of the encoder that it stands for: the same kind with the
-- same contents, permissions by number, and byte arrays with the lengths of their types.
pub data Encodes : JsonMessage → CompressedMessage → Type 0 where
  same_reset : Encodes JsonMessage.reset CompressedMessage.reset
  -- The file has no contents for them.
  no_epochs : Encodes JsonMessage.correct_epochs (CompressedMessage.correct_epochs [])
  same_version :
      {v : ℕ} → Encodes (JsonMessage.update_version v) (CompressedMessage.update_version v)
  same_networks :
      {remove : List ℕ} {add : List Str}
      → Encodes
          (JsonMessage.register_networks remove add)
          (CompressedMessage.register_networks remove add)
  same_networks_and_aliases :
      {remove : List ℕ} {add : List (Str × Str)}
      → Encodes
          (JsonMessage.register_networks_and_aliases remove add)
          (CompressedMessage.register_networks_and_aliases remove add)
  numbered_permissions :
      {address : List ℕ} {valid_through : ℕ} {permissions : List Str}
      → length address ≡ 20
      → Encodes
          (JsonMessage.change_permissions address valid_through permissions)
          (CompressedMessage.change_permissions address valid_through (map str_to_u64 permissions))
  same_count :
      {count : ℕ}
      → Encodes
          (JsonMessage.set_block_numbers_for_next_epoch (json_empty count))
          (CompressedMessage.set_block_numbers_for_next_epoch (empty count))
  same_set :
      {root : List ℕ} {accelerations : List ℤ}
      → length root ≡ 32
      → Encodes
          (JsonMessage.set_block_numbers_for_next_epoch (json_non_empty root accelerations))
          (CompressedMessage.set_block_numbers_for_next_epoch (non_empty accelerations root))

-- One for one, in order.
abbrev pub EncodesAll : List JsonMessage → List CompressedMessage → Type 0
EncodesAll [] [] = Unit
EncodesAll [] (c ∷ cs) = ⊥
EncodesAll (m ∷ ms) [] = ⊥
EncodesAll (m ∷ ms) (c ∷ cs) = Encodes m c × EncodesAll ms cs

-- The file has one block, a list of messages or a single one.
pub data IsOneBlock : List MessageBlock → List JsonMessage → Type 0 where
  of_list : {ms : List JsonMessage} → IsOneBlock (message_block ms ∷ []) ms
  of_message : {m : JsonMessage} → IsOneBlock (message_block_with_one_message m ∷ []) (m ∷ [])

-- The messages of a block, and what they are encoded to.
abbrev IsPayloadOf : List MessageBlock → List ℕ → Type 0
IsPayloadOf blocks payload =
    (ms : List JsonMessage) × (cs : List CompressedMessage) × IsOneBlock blocks ms
    × EncodesAll ms cs
    × (serialize_messages {E = JsonError} cs [] ≡ ok payload)
