-- ===== src/Oracle/Freshness.antt =====
-- `subgraph_is_fresh` of crates/oracle/src/runner/oracle.rs and `calls_in_block_range` of
-- crates/oracle/src/runner/jrpc_utils.rs. The JSON-RPC provider is the function `block_with_txs` from
-- block numbers to its answers; addresses are numbers.
pub mod Scan
use block_oracle.Prelude.{
  ℕ, zero, suc, ◌+◌, ◌-◌, Bool, true, false, ◌&&◌, List, [], ◌∷◌, ◌++◌, Option, none, some,
  is_empty, ltb, ◌==◌, if◌then◌else◌,
}
use block_oracle.Prelude.Outcome.{Outcome, ok, err, panic, ◌>>=◌, ok_or}

-- Failed requests are not told apart.
pub data Web3Error : Type 0 where
  request_failed : Web3Error
  invalid_response : (block_number : ℕ) → Web3Error

pub record Transaction : Type 0 where
  pub from : Option ℕ
  pub to : Option ℕ

pub record Block : Type 0 where
  pub transactions : List Transaction

abbrev pub Provider : Type 0
Provider = ℕ → Outcome Web3Error (Option Block)

-- `lo..` of the given length.
unfoldable pub numbers_from : ℕ → ℕ → List ℕ
numbers_from zero lo = []
numbers_from (suc n) lo = lo ∷ numbers_from n (lo + 1)

-- `lo..=hi`
abbrev pub range_inclusive : ℕ → ℕ → List ℕ
range_inclusive lo hi = numbers_from (suc hi - lo) lo

-- `try_join_all` over the requests.
unfoldable pub fetch_blocks : Provider → List ℕ → Outcome Web3Error (List (Option Block))
fetch_blocks block_with_txs [] = ok []
fetch_blocks block_with_txs (n ∷ ns) =
    block_with_txs n >>= λ block. fetch_blocks block_with_txs ns >>= λ blocks. ok (block ∷ blocks)

-- The loop over the blocks and their numbers.
unfoldable pub collect_txs : List ℕ → List (Option Block) → Outcome Web3Error (List Transaction)
collect_txs (n ∷ ns) (block_opt ∷ blocks) = ok_or block_opt (invalid_response n) >>= λ block.
    collect_txs ns blocks >>= λ txs. ok (block.transactions ++ txs)
collect_txs ns [] = ok []
collect_txs [] (block_opt ∷ blocks) = panic

abbrev pub is_address : Option ℕ → ℕ → Bool
is_address none a = false
is_address (some b) a = b == a

unfoldable pub is_call : ℕ → ℕ → Transaction → Bool
is_call from_address to_address tx = is_address tx.from from_address && is_address tx.to to_address

-- `retain`
unfoldable pub retain_calls : ℕ → ℕ → List Transaction → List Transaction
unfolding is_call
retain_calls from_address to_address [] = []
retain_calls from_address to_address (tx ∷ txs) =
    let rest = retain_calls from_address to_address txs in
    if is_call from_address to_address tx then tx ∷ rest else rest

unfoldable pub calls_in_block_range :
    Provider → ℕ → ℕ → ℕ → ℕ → Outcome Web3Error (List Transaction)
unfolding numbers_from fetch_blocks collect_txs retain_calls
calls_in_block_range block_with_txs lo hi from_address to_address =
    fetch_blocks block_with_txs (range_inclusive lo hi) >>= λ blocks.
    collect_txs (range_inclusive lo hi) blocks >>= λ txs.
    ok (retain_calls from_address to_address txs)

unfoldable pub subgraph_is_fresh : ℕ → ℕ → Provider → ℕ → ℕ → ℕ → Outcome Web3Error Bool
unfolding calls_in_block_range
subgraph_is_fresh subgraph_latest_block current_block block_with_txs owner_address contract_address
      freshness_threshold =
    if ltb current_block subgraph_latest_block
    then ok true
    else let block_distance = current_block - subgraph_latest_block in
      if block_distance == 0
      then ok true
      else if ltb freshness_threshold block_distance
      then ok false
      else (calls_in_block_range block_with_txs subgraph_latest_block current_block owner_address
            contract_address
          >>= λ calls. ok (is_empty calls))
