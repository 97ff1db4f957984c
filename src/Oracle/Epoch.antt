-- ===== src/Oracle/Epoch.antt =====
-- `Oracle::run` of crates/oracle/src/runner/oracle.rs and what it calls: `query_current_epoch` of
-- crates/oracle/src/contracts.rs, `get_latest_blocks` of jrpc_utils.rs and
-- `get_latest_blockmeta_blocks` of blockmeta_client.rs. What the oracle learns from outside in one run
-- is a record of answers; a request that fails has the answer `none`. The answers of the chains are
-- listed in the order in which they arrive.
pub mod Submission
pub mod Latest
use block_oracle.Prelude.{
  ℕ, zero, suc, ◌^◌, Bool, true, false, List, [], ◌∷◌, ◌++◌, Option, none, some, length, ltb, ◌==◌,
  if◌then◌else◌,
}
use block_oracle.Prelude.Outcome.{Outcome, ok, err, panic, ◌>>=◌, ◌>>◌, assert, map_err, ok_or}
use block_oracle.Prelude.Text.{Str}
use block_oracle.Prelude.TreeMap.{TreeMap, collect}
use block_oracle.Encoding.Messages.{Bytes32, BlockPtr}
use block_oracle.Oracle.Control.{Error, ContractError, SubgraphQueryError}
use block_oracle.Oracle.Freshness.{Provider, subgraph_is_fresh}
use block_oracle.Oracle.State.{
  Response, SubgraphState, latest_epoch_number, has_registered_networks, query_subgraph,
}
use block_oracle.Oracle.Payload.{set_block_numbers_for_next_epoch}

-- The head of a chain by its StreamingFast Blockmeta service, with the hash as text.
pub record BlockmetaBlock : Type 0 where
  pub num : ℕ
  pub id : Str

pub data BlockmetaAnswer : Type 0 where
  head : BlockmetaBlock → BlockmetaAnswer
  not_found : BlockmetaAnswer
  request_failed : BlockmetaAnswer

-- The configuration that a run reads.
pub record Settings : Type 0 where
  pub owner_address : ℕ
  pub data_edge_address : ℕ
  pub freshness_threshold : ℕ

pub record Answers : Type 0 where
  pub owner_balance : Option ℕ
  pub subgraph_response : Outcome SubgraphQueryError Response
  pub manager_epoch : Option ℕ
  pub protocol_chain_head : Option ℕ
  pub block_with_txs : Provider
  pub jrpc_heads : List (Str × Option BlockPtr)
  pub blockmeta_heads : List (Str × BlockmetaAnswer)
  pub submit_call : List ℕ → Outcome ContractError ℕ

pub data NewEpochCheck : Type 0 where
  recently_initialized : NewEpochCheck
  previous_epoch : (subgraph_latest_indexed_block : ℕ) → NewEpochCheck
  same_epoch : NewEpochCheck

-- `U256::as_u64` panics on a number that does not fit.
unfoldable pub query_current_epoch : Option ℕ → Outcome Error ℕ
query_current_epoch none = err Error.epoch_manager_call_failed
query_current_epoch (some epoch_number) =
    if ltb epoch_number (2 ^ 64) then ok epoch_number else panic

-- The subgraph's epoch against the manager's.
unfoldable pub compare_epochs : ℕ → ℕ → ℕ → Outcome Error NewEpochCheck
compare_epochs subgraph_latest_indexed_block subgraph_latest_epoch manager_current_epoch =
    if ltb subgraph_latest_epoch manager_current_epoch
    then ok (previous_epoch subgraph_latest_indexed_block)
    else if subgraph_latest_epoch == manager_current_epoch
    then ok same_epoch
    else err (Error.epoch_manager_behind_subgraph manager_current_epoch subgraph_latest_epoch)

-- The check, by the subgraph's latest epoch.
unfoldable pub check_epoch : SubgraphState → Option ℕ → Option ℕ → Outcome Error NewEpochCheck
unfolding query_current_epoch compare_epochs
check_epoch state manager_epoch (some epoch_num) =
    query_current_epoch manager_epoch >>= λ manager_current_epoch.
    compare_epochs state.last_indexed_block_number epoch_num manager_current_epoch
check_epoch state manager_epoch none =
    if has_registered_networks state
    then ok recently_initialized
    else err Error.subgraph_not_initialized

unfoldable pub is_new_epoch : SubgraphState → Option ℕ → Outcome Error NewEpochCheck
unfolding check_epoch
is_new_epoch state manager_epoch = check_epoch state manager_epoch (latest_epoch_number state)

-- The case of `detect_new_epoch` in which the subgraph is at a previous epoch.
unfoldable pub check_freshness : Settings → Answers → ℕ → Outcome Error Bool
check_freshness settings answers last_block_number_indexed =
    ok_or answers.protocol_chain_head Error.bad_jrpc_protocol_chain >>= λ current_block.
    map_err (λ e. Error.bad_jrpc_protocol_chain)
      (subgraph_is_fresh last_block_number_indexed current_block answers.block_with_txs
        settings.owner_address settings.data_edge_address settings.freshness_threshold)
    >>= λ is_fresh. (if is_fresh then ok true else err Error.subgraph_not_fresh)

abbrev pub new_epoch_of : Settings → Answers → NewEpochCheck → Outcome Error Bool
new_epoch_of settings answers same_epoch = ok false
new_epoch_of settings answers (previous_epoch n) = check_freshness settings answers n
new_epoch_of settings answers recently_initialized = ok true

unfoldable pub detect_new_epoch : Settings → Answers → SubgraphState → Outcome Error Bool
unfolding is_new_epoch check_freshness
detect_new_epoch settings answers state =
    is_new_epoch state answers.manager_epoch >>= new_epoch_of settings answers

-- Two answers for one chain trip the assertion.
unfoldable pub get_latest_blocks :
    List (Str × Option BlockPtr) → Outcome Error (TreeMap (Option BlockPtr))
get_latest_blocks answers =
    let block_ptr_per_chain = collect answers in
    assert (length block_ptr_per_chain == length answers) >> ok block_ptr_per_chain

-- The answers that are kept: a failed request is printed and passed over.
unfoldable pub answered : List (Str × BlockmetaAnswer) → List (Str × Option BlockmetaBlock)
answered [] = []
answered ((id, head block) ∷ answers) = (id, some block) ∷ answered answers
answered ((id, not_found) ∷ answers) = (id, none) ∷ answered answers
answered ((id, request_failed) ∷ answers) = answered answers

unfoldable pub get_latest_blockmeta_blocks :
    List (Str × BlockmetaAnswer) → Outcome Error (TreeMap (Option BlockmetaBlock))
unfolding answered
get_latest_blockmeta_blocks answers =
    let block_ptr_per_chain = collect (answered answers) in
    assert (length block_ptr_per_chain == length answers) >> ok block_ptr_per_chain

unfoldable pub jrpc_blocks : TreeMap (Option BlockPtr) → List (Str × BlockPtr)
jrpc_blocks [] = []
jrpc_blocks ((id, none) ∷ m) = jrpc_blocks m
jrpc_blocks ((id, some block) ∷ m) = (id, block) ∷ jrpc_blocks m

module _ (digest : List ℕ → Bytes32) (parse_hash : Str → Option Bytes32) where
  -- A block whose hash is not one is passed over.
  unfoldable pub blockmeta_blocks : TreeMap (Option BlockmetaBlock) → List (Str × BlockPtr)
  blockmeta_blocks [] = []
  blockmeta_blocks ((id, none) ∷ m) = blockmeta_blocks m
  blockmeta_blocks ((id, some block) ∷ m) =
      let rest = blockmeta_blocks m in
      elim (parse_hash block.id) [
        | none ↦ rest
        | some hash ↦ (id, record { number = block.num; hash = hash }) ∷ rest
      ]

  -- The latest blocks; of two for one chain, that of the Blockmeta service.
  unfoldable pub latest_blocks : Answers → Outcome Error (TreeMap BlockPtr)
  unfolding get_latest_blocks get_latest_blockmeta_blocks jrpc_blocks blockmeta_blocks
  latest_blocks answers = get_latest_blocks answers.jrpc_heads >>= λ jrpc.
      get_latest_blockmeta_blocks answers.blockmeta_heads >>= λ blockmeta.
      ok (collect (collect (jrpc_blocks jrpc) ++ collect (blockmeta_blocks blockmeta)))

  -- The payload, once it is submitted.
  unfoldable pub handle_new_epoch : Answers → SubgraphState → Outcome Error (List ℕ)
  unfolding latest_blocks
  handle_new_epoch answers state = latest_blocks answers >>= λ blocks.
      set_block_numbers_for_next_epoch digest state blocks >>= λ payload.
      map_err Error.contract_error (answers.submit_call payload) >>= λ receipt. ok payload

  -- One polling iteration: the payload that it submitted, if it did.
  unfoldable pub run : Settings → Answers → Outcome Error (Option (List ℕ))
  unfolding detect_new_epoch handle_new_epoch
  run settings answers = ok_or answers.owner_balance Error.bad_jrpc_protocol_chain >>= λ balance.
      map_err Error.subgraph (query_subgraph answers.subgraph_response) >>= λ state.
      detect_new_epoch settings answers state >>= λ is_new.
      (if is_new
        then (handle_new_epoch answers state >>= λ payload. ok (some payload))
        else ok none)
