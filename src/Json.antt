-- ===== src/Json.antt =====
-- crates/json-oracle-encoder/src/lib.rs: from messages in JSON to payloads. The JSON is given as what
-- serde makes of it; the ABI's encoding of the call is a parameter.
pub mod Payloads
use block_oracle.Prelude.{ℕ, List, [], ◌∷◌, ◌++◌, map, length, ◌==◌, if◌then◌else◌}
use block_oracle.Prelude.Int.{ℤ}
use block_oracle.Prelude.Outcome.{Outcome, ok, err, panic, ◌>>=◌}
use block_oracle.Prelude.Text.{Str, bytes_of}
use block_oracle.Encoding.Messages.{CompressedMessage, str_to_u64, empty, non_empty}
use block_oracle.Encoding.Serialize.{serialize_messages}

pub data JsonBlockNumbers : Type 0 where
  json_empty : (count : ℕ) → JsonBlockNumbers
  json_non_empty : (merkle_root : List ℕ) → (accelerations : List ℤ) → JsonBlockNumbers

pub data JsonMessage : Type 0 where
  set_block_numbers_for_next_epoch : JsonBlockNumbers → JsonMessage
  correct_epochs : JsonMessage
  register_networks : (remove : List ℕ) → (add : List Str) → JsonMessage
  update_version : (version_number : ℕ) → JsonMessage
  reset : JsonMessage
  register_networks_and_aliases : (remove : List ℕ) → (add : List (Str × Str)) → JsonMessage
  change_permissions :
      (address : List ℕ) → (valid_through : ℕ) → (permissions : List Str) → JsonMessage

unfoldable pub message_type : JsonMessage → Str
message_type (JsonMessage.set_block_numbers_for_next_epoch b) =
    bytes_of "SetBlockNumbersForNextEpoch"
message_type JsonMessage.correct_epochs = bytes_of "CorrectEpochs"
message_type (JsonMessage.register_networks r a) = bytes_of "RegisterNetworks"
message_type (JsonMessage.update_version v) = bytes_of "UpdateVersion"
message_type JsonMessage.reset = bytes_of "Reset"
message_type (JsonMessage.register_networks_and_aliases r a) = bytes_of "RegisterNetworksAndAliases"
message_type (JsonMessage.change_permissions a v p) = bytes_of "ChangePermissions"

pub data MessageBlock : Type 0 where
  message_block : List JsonMessage → MessageBlock
  message_block_with_one_message : JsonMessage → MessageBlock

pub data JsonError : Type 0 where
  bad_address_length : JsonError
  bad_merkle_root : JsonError
  not_one_block : JsonError

unfoldable pub ready_to_encode : JsonMessage → Outcome JsonError CompressedMessage
ready_to_encode JsonMessage.reset = ok CompressedMessage.reset
ready_to_encode JsonMessage.correct_epochs = ok (CompressedMessage.correct_epochs [])
ready_to_encode (JsonMessage.update_version v) = ok (CompressedMessage.update_version v)
ready_to_encode (JsonMessage.register_networks r a) = ok (CompressedMessage.register_networks r a)
ready_to_encode (JsonMessage.register_networks_and_aliases r a) =
    ok (CompressedMessage.register_networks_and_aliases r a)
ready_to_encode (JsonMessage.change_permissions address valid_through permissions) =
    if length address == 20
    then ok
        (CompressedMessage.change_permissions address valid_through (map str_to_u64 permissions))
    else err bad_address_length
ready_to_encode (JsonMessage.set_block_numbers_for_next_epoch (json_empty count)) =
    ok (CompressedMessage.set_block_numbers_for_next_epoch (empty count))
ready_to_encode (JsonMessage.set_block_numbers_for_next_epoch (json_non_empty root accelerations)) =
    if length root == 32
    then ok (CompressedMessage.set_block_numbers_for_next_epoch (non_empty accelerations root))
    else err bad_merkle_root

abbrev pub contents_of : MessageBlock → List JsonMessage
contents_of (message_block b) = b
contents_of (message_block_with_one_message m) = m ∷ []

-- The loop over the messages of a block.
unfoldable pub compressed_contents : List JsonMessage → Outcome JsonError (List CompressedMessage)
unfolding ready_to_encode
compressed_contents [] = ok []
compressed_contents (m ∷ ms) =
    ready_to_encode m >>= λ c. compressed_contents ms >>= λ cs. ok (c ∷ cs)

-- The types of a block's messages, and its payload.
unfoldable pub encode_block : MessageBlock → Outcome JsonError (List Str × List ℕ)
unfolding compressed_contents message_type
encode_block block = compressed_contents (contents_of block) >>= λ compressed.
    serialize_messages compressed [] >>= λ payload.
    ok (map message_type (contents_of block), payload)

unfoldable pub messages_to_encoded_message_blocks :
    List MessageBlock → Outcome JsonError (List (List Str × List ℕ))
unfolding encode_block
messages_to_encoded_message_blocks [] = ok []
messages_to_encoded_message_blocks (block ∷ blocks) = encode_block block >>= λ encoded.
    messages_to_encoded_message_blocks blocks >>= λ rest. ok (encoded ∷ rest)

unfoldable pub the_only_one : List (List Str × List ℕ) → Outcome JsonError (List ℕ)
the_only_one (encoded ∷ []) = ok encoded.1
the_only_one [] = err not_one_block
the_only_one (e ∷ f ∷ es) = err not_one_block

unfoldable pub messages_to_payload : List MessageBlock → Outcome JsonError (List ℕ)
unfolding messages_to_encoded_message_blocks the_only_one
messages_to_payload json = messages_to_encoded_message_blocks json >>= the_only_one

-- The signature of the call, and the arguments as the ABI encodes them.
unfoldable pub calldata : List ℕ → (List ℕ → List ℕ) → List ℕ → List ℕ
calldata signature encode payload = signature ++ encode payload

unfoldable pub messages_to_calldata :
    List ℕ → (List ℕ → List ℕ) → List MessageBlock → Outcome JsonError (List ℕ)
unfolding messages_to_payload calldata
messages_to_calldata signature encode json =
    messages_to_payload json >>= λ payload. ok (calldata signature encode payload)
