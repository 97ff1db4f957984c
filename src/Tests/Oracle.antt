-- ===== src/Tests/Oracle.antt =====
-- Instances of the theorems on crates/oracle.
use block_oracle.Prelude.{
  ℕ, ◌-◌, ◌≤◌, ◌≡◌, ◌≢◌, ◌↔◌, ◌⊎◌, refl, true, List, [], ◌∷◌, ◌++◌, map, arith, none, some, All,
  take,
}
use block_oracle.Prelude.Int.{pos, ◌-ℤ◌}
use block_oracle.Prelude.Outcome.{ok, err, panic}
use block_oracle.Prelude.Text.{Str, bytes_of, str_compare}
use block_oracle.Prelude.TreeMap.{TreeMap, lookup, insert, extend}
use block_oracle.Encoding.Messages.{Bytes32, BlockPtr, zero_hash}
use block_oracle.Encoding.Serialize.{serialize_messages}
use block_oracle.Encoding.Encoder as E
use block_oracle.Encoding.Encoder.{network_index}
use block_oracle.Encoding.Encoder.Alignment.{IsDistinct}
use block_oracle.Encoding.Encoder.Fill.{ptr_for}
use block_oracle.Encoding.Encoder.Blocks.{Fits}
use block_oracle.Oracle.ChainId.{
  has_valid_parts, split_parts, all_alphanumeric_or_hyphen, is_alphanumeric_or_hyphen, Caip2ChainId,
  from_str, namespace_part, reference_part, separator, IsPart, from_str_lem,
}
use block_oracle.Oracle.Control.{Error, SubgraphQueryError, Turn, init, oracle_task}
use block_oracle.Oracle.Control.Schedule.{pause, quiet, end_of, oracle_task_lem}
use block_oracle.Oracle.Freshness.{Provider, subgraph_is_fresh}
use block_oracle.Oracle.Freshness.Scan.{IsQuiet, subgraph_is_fresh_iff}
use block_oracle.Oracle.State.{
  NetworkData, GlobalStateData, Network, GlobalState, SubgraphState, available_networks,
  global_state_try_from, query_subgraph, network_from, networks_try_from, network_try_from,
  latest_update, all_unique, has_id, epoch_try_from, check_errors, latest_epoch_number,
  has_registered_networks,
}
use block_oracle.Oracle.State.Conversion.{AllConverted, global_state_try_from_lem}
use block_oracle.Oracle.Payload.{set_block_numbers_for_next_epoch}
use block_oracle.Oracle.Payload.Registered.{registered_blocks}
use block_oracle.Oracle.Payload.NextEpoch.{
  new_blocks_message, next_epoch_payload, no_registered_block_panics,
}
use block_oracle.Oracle.Epoch.{
  Settings, Answers, request_failed, not_found, get_latest_blockmeta_blocks, latest_blocks, run,
  get_latest_blocks, answered, jrpc_blocks, blockmeta_blocks, detect_new_epoch, is_new_epoch,
  check_epoch, handle_new_epoch,
}
use block_oracle.Oracle.Epoch.Latest.{failed_request_panics}
use block_oracle.Oracle.Epoch.Submission.{IsDue, run_submits}

abbrev toy_digest : List ℕ → Bytes32
toy_digest bytes = take 32 (bytes ++ zero_hash)

-- Chain identifiers.
abbrev mainnet : Str
mainnet = bytes_of "eip155:1"

abbrev mainnet_id : Caip2ChainId
mainnet_id = record { chain_id = mainnet }

mainnet_is_valid : from_str mainnet ≡ ok mainnet_id
unfolding from_str has_valid_parts split_parts all_alphanumeric_or_hyphen is_alphanumeric_or_hyphen
mainnet_is_valid = refl

from_str_lem_example :
    (ns reference : Str) × (namespace_part mainnet_id ≡ ok ns)
    × (reference_part mainnet_id ≡ ok reference)
    × (mainnet ≡ mainnet)
    × (mainnet ≡ ns ++ (separator ∷ reference))
    × IsPart 3 8 ns
    × IsPart 1 32 reference
from_str_lem_example = from_str_lem mainnet mainnet_id mainnet_is_valid

-- The main loop: a good run, a failed run, and CTRL+C.
abbrev three_turns : List Turn
three_turns =
    record { ctrlc_presses = 0; run_result = ok tt }
    ∷ record { ctrlc_presses = 0; run_result = err (Error.subgraph SubgraphQueryError.transport) }
    ∷ record { ctrlc_presses = 1; run_result = ok tt }
    ∷ []

no_panics : All (λ (turn : Turn). turn.run_result ≢ panic) three_turns
no_panics = (λ e. cc, (λ e. cc, (λ e. cc, tt)))

oracle_task_lem_example :
    oracle_task 120 init three_turns ≡ (map (pause 120) (quiet three_turns), end_of three_turns)
oracle_task_lem_example = oracle_task_lem 120 three_turns (omega arith) no_panics

-- Freshness, on a chain of empty blocks.
abbrev empty_blocks : Provider
empty_blocks n = ok (some (record { transactions = [] }))

subgraph_is_fresh_iff_example :
    (subgraph_is_fresh 3 6 empty_blocks 1 2 10 ≡ ok true)
    ↔ ((6 ≤ 3) ⊎ ((6 - 3 ≤ 10) × ((n : ℕ) → 3 ≤ n → n ≤ 6 → IsQuiet empty_blocks 1 2 n)))
subgraph_is_fresh_iff_example = subgraph_is_fresh_iff 3 6 empty_blocks 1 2 10

failed_request_panics_example :
    get_latest_blockmeta_blocks ((mainnet, not_found) ∷ (bytes_of "eip155:5", request_failed) ∷ [])
    ≡ panic
failed_request_panics_example =
    failed_request_panics ((mainnet, not_found) ∷ (bytes_of "eip155:5", request_failed) ∷ []) tt

-- A subgraph with one network, which has had no block yet.
abbrev mainnet_data : NetworkData
mainnet_data = record { id = mainnet; array_index = some (pos 0); block_numbers = [] }

abbrev global_data : GlobalStateData
global_data = record {
  networks = mainnet_data ∷ [];
  encoding_version = pos 0;
  latest_valid_epoch = none;
}

abbrev mainnet_network : Network
mainnet_network = record { id = mainnet_id; array_index = 0; latest_block_update = none }

abbrev global_state : GlobalState
global_state = record {
  networks = mainnet_network ∷ [];
  encoding_version = pos 0;
  latest_epoch_number = none;
}

global_state_converted : global_state_try_from global_data ≡ ok global_state
unfolding global_state_try_from networks_try_from network_try_from latest_update all_unique has_id
    epoch_try_from from_str has_valid_parts split_parts all_alphanumeric_or_hyphen
    is_alphanumeric_or_hyphen
global_state_converted = refl

global_state_try_from_lem_example :
    IsDistinct (available_networks (mainnet_network ∷ []))
    × AllConverted 0 (mainnet_data ∷ []) (mainnet_network ∷ [])
global_state_try_from_lem_example =
    global_state_try_from_lem global_data global_state global_state_converted

abbrev state : SubgraphState
state = record {
  last_indexed_block_number = 3;
  global_state = some global_state;
  last_payload = none;
}

abbrev ptr_27 : BlockPtr
ptr_27 = record { number = 27; hash = zero_hash }

abbrev heads : TreeMap BlockPtr
heads = (mainnet, ptr_27) ∷ []

abbrev registered_heads : TreeMap BlockPtr
registered_heads = registered_blocks (mainnet_network ∷ []) heads

mainnet-Fits :
    All
      (λ (n : Str × E.Network). Fits n.1 (ptr_for registered_heads n))
      (available_networks (mainnet_network ∷ []))
unfolding ◌-ℤ◌ lookup str_compare has_id
mainnet-Fits = (((omega arith, omega arith), (omega arith, omega arith)), tt)

mainnet_differs : (ptr_for registered_heads (mainnet, network_from mainnet_network)).number ≢ 0
unfolding lookup str_compare has_id
mainnet_differs = omega arith

next_epoch_payload_example :
    (bytes : List ℕ) × (serialize_messages {E = E.Error}
        (new_blocks_message toy_digest registered_heads (available_networks (mainnet_network ∷ []))
          ∷ [])
        []
      ≡ ok bytes)
    × (set_block_numbers_for_next_epoch toy_digest state heads ≡ ok bytes)
next_epoch_payload_example =
    next_epoch_payload toy_digest state heads 0 (mainnet, network_from mainnet_network)
      global_state_try_from_lem_example.0 (tt, tt) mainnet-Fits refl mainnet_differs

no_registered_block_panics_example : set_block_numbers_for_next_epoch toy_digest state [] ≡ panic
no_registered_block_panics_example = no_registered_block_panics toy_digest state [] tt refl

-- A run on that subgraph.
abbrev settings : Settings
settings = record { owner_address = 1; data_edge_address = 2; freshness_threshold = 10 }

abbrev answers : Answers
answers = record {
  owner_balance = some 5;
  subgraph_response = ok (record {
    errors = none;
    data_field =
        some (record { meta_block_number = pos 3; global_state = some global_data; payloads = [] });
  });
  manager_epoch = some 8;
  protocol_chain_head = some 6;
  block_with_txs = empty_blocks;
  jrpc_heads = (mainnet, some ptr_27) ∷ [];
  blockmeta_heads = [];
  submit_call = λ payload. ok 99;
}

state_read : query_subgraph answers.subgraph_response ≡ ok state
unfolding query_subgraph check_errors
state_read = rw (query_subgraph, global_state_converted) refl

heads_read : latest_blocks toy_digest some answers ≡ ok heads
unfolding latest_blocks get_latest_blocks get_latest_blockmeta_blocks answered jrpc_blocks
    blockmeta_blocks insert extend
heads_read = refl

due : detect_new_epoch settings answers state ≡ ok true
unfolding detect_new_epoch is_new_epoch check_epoch latest_epoch_number has_registered_networks
due = refl

payload_submitted : run toy_digest some settings answers ≡ ok (some next_epoch_payload_example.0)
unfolding run handle_new_epoch
payload_submitted =
    rw (run, state_read)
      (rw (due, handle_new_epoch, heads_read) (rw (next_epoch_payload_example.2) refl))

run_submits_example :
    (s : SubgraphState) × (blocks : TreeMap BlockPtr) × (receipt : ℕ) × (query_subgraph
        answers.subgraph_response
      ≡ ok s)
    × IsDue settings answers s
    × (latest_blocks toy_digest some answers ≡ ok blocks)
    × (set_block_numbers_for_next_epoch toy_digest s blocks ≡ ok next_epoch_payload_example.0)
    × (answers.submit_call next_epoch_payload_example.0 ≡ ok receipt)
run_submits_example =
    run_submits toy_digest some settings answers next_epoch_payload_example.0 payload_submitted
