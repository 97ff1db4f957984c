-- ===== src/Tests/Mapping.antt =====
-- Instances of the theorems on packages/subgraph/src/mapping.ts, and runs of its handlers.
use block_oracle.Prelude.{
  length, ◌≤◌, ◌<◌, ◌==◌, Bool, ◌++◌, ℕ, ◌≡◌, ◌≢◌, ◌↔◌, ◌⊎◌, refl, List, [], ◌∷◌, none, some, arith,
}
use block_oracle.Prelude.Text.{bytes_of, Str, str_compare}
use block_oracle.Subgraph.Store.{
  initial_cache, put_permissions, put_permission_list_entry, is_network_already_registered,
  StoreCache, get_permission_list_entry, get_network, put_network,
}
use block_oracle.Subgraph.Constants.{initial_permission_set}
use block_oracle.Subgraph.Decoding.{
  decode_string, decode_u64, decode_shift, tag_shift, peek, advance, remaining,
}
use block_oracle.Subgraph.Reached.{
  Reached, created, after_payload, Reached-IsListed, process_payload_ends,
}
use block_oracle.Subgraph.Mapping.{
  Context, PayloadEnd, not_allowed, invalid, aborted, process_message, permit, committed,
  out_of_fuel, process_messages, process_message_block, process_message_blocks, process_payload,
}
use block_oracle.Subgraph.Events.{Log, parse_calldata, search_logs, get_event_from_receipt}
use block_oracle.Subgraph.Events.Calldata.{be_bytes, parse_calldata-call}
use block_oracle.Subgraph.Events.Multisig.{HasLog, get_event_from_receipt_lem}
use block_oracle.Prelude.Outcome.{ok}
use block_oracle.Encoding.Messages.{CompressedMessage, empty, str_to_u64}
use block_oracle.Subgraph.Active.{done, get_active_networks, collect_active}
use block_oracle.Subgraph.Chain.{IsListed}
use block_oracle.Subgraph.Mapping.Registry.{
  execute_register_networks, change_networks, decode_removals, take_out, insert_networks,
}
use block_oracle.Subgraph.Mapping.Links.{commit_network_changes, clear_networks, link_networks}
use block_oracle.Subgraph.Tags.{decode_tags, collect_tags, get_tag, from_unsigned_bytes, is_valid}
use block_oracle.Subgraph.Mapping.Permissions.{
  is_submitter_allowed, does_submitter_have_permission, valid_entries, includes, tag_name,
}
use block_oracle.Subgraph.Mapping.Epochs.EmptySet.{empty_set_not_committed}
use block_oracle.Subgraph.Mapping.Forbidden.{HasNoPermission, process_payload_forbidden}
use block_oracle.Encoding.Serialize.{
  serialize_messages, serialize_chunk, serialize_chunk_messages, serialize_preamble,
  serialize_message, serialize_set_block_numbers, fold_tags, message_tag, serialize_u64, num_bytes,
  bit_length, push_bytes, first_byte,
}
use native.Mathlib.Decide.{dec_lt}
use block_oracle.Subgraph.Mapping.Names.{IsRenamed, str_to_u64-tag_name}
use block_oracle.Tests.Store.{cache, context}

-- What the encoder writes for three empty sets.
abbrev three_empty_sets : CompressedMessage
three_empty_sets = CompressedMessage.set_block_numbers_for_next_epoch (empty 3)

three_empty_sets_bytes : serialize_messages {E = Unit} (three_empty_sets ∷ []) [] ≡ ok (0 ∷ 7 ∷ [])
unfolding serialize_messages serialize_chunk serialize_chunk_messages serialize_preamble
    serialize_message serialize_set_block_numbers fold_tags message_tag serialize_u64 num_bytes
    bit_length push_bytes first_byte dec_lt
three_empty_sets_bytes = refl

empty_set_not_committed_example : process_payload context (0 ∷ 7 ∷ []) cache ≢ committed cache
empty_set_not_committed_example =
    empty_set_not_committed 3 context cache cache (0 ∷ 7 ∷ []) (omega arith) three_empty_sets_bytes

-- A submitter who is on the list without a permission, and a payload that is a preamble alone.
abbrev cache_without_permissions : StoreCache
cache_without_permissions = record cache { permission_entries = λ id. none }

no_permission : HasNoPermission context cache_without_permissions
unfolding does_submitter_have_permission get_permission_list_entry includes
no_permission tag = refl

preamble_alone :
    process_payload context (0 ∷ []) cache_without_permissions ≡ committed cache_without_permissions
unfolding process_payload is_submitter_allowed valid_entries includes get_permission_list_entry
    str_compare process_message_blocks process_message_block process_messages decode_tags
    collect_tags get_tag from_unsigned_bytes is_valid advance remaining
preamble_alone = refl

process_payload_forbidden_example : cache_without_permissions ≡ cache_without_permissions
process_payload_forbidden_example =
    process_payload_forbidden context (0 ∷ []) cache_without_permissions cache_without_permissions
      no_permission preamble_alone

-- The first payload: the owner of the initial permissions registers a network.
abbrev owner_context : Context
owner_context = record context { submitter = bytes_of "0x8c6de8f8d562f3382417340a6994601ee08d3809" }

abbrev registration : List ℕ
registration = 3 ∷ 1 ∷ 3 ∷ 17 ∷ bytes_of "eip155:1"

abbrev committed_or : StoreCache → PayloadEnd → StoreCache
committed_or c (committed c') = c'
committed_or c not_allowed = c
committed_or c invalid = c
committed_or c aborted = c
committed_or c out_of_fuel = c

abbrev first_cache : StoreCache
first_cache = initial_cache initial_permission_set

abbrev registered_cache : StoreCache
registered_cache = committed_or first_cache (process_payload owner_context registration first_cache)

registration_committed :
    process_payload owner_context registration first_cache ≡ committed registered_cache
unfolding initial_cache put_permissions put_permission_list_entry process_payload
    is_submitter_allowed does_submitter_have_permission valid_entries includes
    get_permission_list_entry tag_name str_compare process_message_blocks process_message_block
    process_messages process_message permit decode_tags collect_tags get_tag from_unsigned_bytes
    is_valid advance remaining decode_u64 decode_shift tag_shift peek execute_register_networks
    change_networks decode_removals take_out insert_networks decode_string
    is_network_already_registered get_active_networks collect_active get_network
    commit_network_changes clear_networks link_networks put_network
registration_committed = refl

registered : Reached initial_permission_set registered_cache
registered = after_payload owner_context registration refl created registration_committed

Reached-IsListed_example :
    (ids : List Str) × IsListed registered_cache ids
    × ((fuel : ℕ)
        → length ids ≤ fuel
        → collect_active fuel registered_cache.state.network_array_head registered_cache
          ≡ some (ids, registered_cache))
    × (get_active_networks registered_cache ≡ done (ids, registered_cache))
Reached-IsListed_example = Reached-IsListed initial_permission_set registered_cache registered

-- A payload of two blocks, the first of which lists the networks and the second of which fails.
process_payload_ends_example :
    process_payload owner_context (registration ++ (7 ∷ [])) registered_cache ≢ out_of_fuel
process_payload_ends_example =
    process_payload_ends initial_permission_set registered_cache registered owner_context
      (registration ++ (7 ∷ []))

-- A call whose payload is two bytes, and a log behind one of the multisig's.
abbrev word_of_offset : List ℕ
word_of_offset = be_bytes 32 32

parse_calldata-call_example :
    parse_calldata
      ((161 ∷ 220 ∷ 227 ∷ 50 ∷ word_of_offset) ++ (be_bytes 32 2 ++ ((5 ∷ 0 ∷ []) ++ (0 ∷ 0 ∷ []))))
    ≡ some (5 ∷ 0 ∷ [])
parse_calldata-call_example =
    parse_calldata-call (161 ∷ 220 ∷ 227 ∷ 50 ∷ word_of_offset) (5 ∷ 0 ∷ []) (0 ∷ 0 ∷ []) refl
      (omega arith)

abbrev is_topic : ℕ → ℕ → Bool
is_topic n topic = topic == n

abbrev multisig_log : Log ℕ
multisig_log = record { log_index = 4; topics = 1 ∷ []; address = 9 ∷ [] }

abbrev oracle_log : Log ℕ
oracle_log = record { log_index = 5; topics = 2 ∷ []; address = 8 ∷ [] }

multisig_found :
    get_event_from_receipt (is_topic 1) (is_topic 2) (some (multisig_log ∷ oracle_log ∷ [])) 6
    ≡ some (some multisig_log)
unfolding get_event_from_receipt search_logs
multisig_found = refl

get_event_from_receipt_lem_example :
    (index : ℕ) × (index < 6)
    × HasLog (is_topic 1) index (multisig_log ∷ oracle_log ∷ []) multisig_log
    × ((j : ℕ)
        → index < j
        → j < 6
        → (l : Log ℕ) × HasLog (is_topic 2) j (multisig_log ∷ oracle_log ∷ []) l)
get_event_from_receipt_lem_example =
    get_event_from_receipt_lem (is_topic 1) (is_topic 2) (multisig_log ∷ oracle_log ∷ []) 6
      multisig_log multisig_found

str_to_u64-tag_name_example :
    (IsRenamed 5 × (str_to_u64 (tag_name 5) ≡ 7))
    ⊎ ((¬ IsRenamed 5) × ((s : Str) → (str_to_u64 s ≡ 5) ↔ (s ≡ tag_name 5)))
str_to_u64-tag_name_example = str_to_u64-tag_name 5 (omega arith)
