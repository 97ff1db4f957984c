-- ===== src/Subgraph/Events.antt =====
-- packages/subgraph/src/mapping.ts and helpers.ts: the handlers of calls and of logs, which choose what
-- `processPayload` is given. `none` where AssemblyScript aborts. How the library of graph-node writes
-- numbers is a parameter, and so are the hashes of the two event signatures, as tests on a topic.
pub mod Calldata
pub mod Multisig
use block_oracle.Prelude.{
  ℕ, zero, suc, ◌+◌, ◌-◌, ◌^◌, Bool, List, [], ◌∷◌, ◌++◌, Option, none, some, take, drop, ltb, ◌==◌,
  if◌then◌else◌,
}
use block_oracle.Prelude.Text.{Str, bytes_of}
use block_oracle.Subgraph.Tags.{from_unsigned_bytes}
use block_oracle.Subgraph.Store.{StoreCache}
use block_oracle.Subgraph.Mapping.{Context, PayloadEnd, aborted, process_payload}
use block_oracle.Subgraph.Mapping.Permissions.{to_hex_string}

-- `bytes.slice(start, end)`
abbrev pub slice : ℕ → ℕ → List ℕ → List ℕ
slice start end bytes = take (end - start) (drop start bytes)

unfoldable pub reverse : List ℕ → List ℕ
reverse [] = []
reverse (b ∷ bytes) = reverse bytes ++ (b ∷ [])

-- The bytes that a call of `crossChainEpochOracle(bytes)` carries; `toI32` takes lengths below 2^31.
unfoldable pub parse_calldata : List ℕ → Option (List ℕ)
unfolding reverse
parse_calldata calldata =
    let length = from_unsigned_bytes (reverse (slice 36 68 calldata)) in
    if ltb length (2 ^ 31) then some (slice 68 (68 + length) calldata) else none

-- `ethereum.Log`, with topics of any type.
pub record Log (Topic : Type 0) : Type 0 where
  pub log_index : ℕ
  pub topics : List Topic
  pub address : List ℕ

-- How the loop over the logs of a receipt ends.
pub data Search (Topic : Type 0) : Type 0 where
  desired : Option (Log Topic) → Search Topic
  -- Another log of the oracle: the one before is looked at.
  previous : Search Topic
  -- A log without a topic.
  trap : Search Topic

module _ {Topic : Type 0} (is_safe is_log : Topic → Bool) where
  -- The loop, with the log that it has found.
  unfoldable pub search_logs : ℕ → List (Log Topic) → Option (Log Topic) → Search Topic
  search_logs index [] found = desired found
  search_logs index (l ∷ logs) found =
      if l.log_index == index
      then elim l.topics [
        | [] ↦ trap
        | topic ∷ topics ↦
            if is_safe topic
            then search_logs index logs (some l)
            else if is_log topic
            then previous
            else search_logs index logs found
      ]
      else search_logs index logs found

  -- `getEventFromReceipt` for the index below `bound`; there is no log below the index 0.
  unfoldable pub get_event_from_receipt :
      Option (List (Log Topic)) → ℕ → Option (Option (Log Topic))
  unfolding search_logs
  get_event_from_receipt receipt zero = some none
  get_event_from_receipt receipt (suc bound) = elim receipt [
    | none ↦ some none
    | some logs ↦ elim (search_logs bound logs none) [
      | desired found ↦ some found
      | trap ↦ none
      | previous ↦ get_event_from_receipt receipt bound
    ]
  ]

  -- The multisig that executed the transaction, if there is one, and its sender otherwise.
  abbrev pub submitter_of : List ℕ → Option (Log Topic) → Str
  submitter_of from none = to_hex_string from
  submitter_of from (some l) = to_hex_string l.address

  module _ (to_string : ℕ → Str) where
    -- `handleLogCrossChainEpochOracle`. The other fields of the context are `x`.
    unfoldable pub handle_log_cross_chain_epoch_oracle :
        Context → List ℕ → List ℕ → ℕ → Option (List (Log Topic)) → List ℕ → StoreCache → PayloadEnd
    unfolding parse_calldata get_event_from_receipt
    handle_log_cross_chain_epoch_oracle x from hash log_index receipt calldata c =
        elim (parse_calldata calldata) [
          | none ↦ aborted
          | some payload ↦ elim (get_event_from_receipt receipt log_index) [
            | none ↦ aborted
            | some found ↦
                process_payload
                  (record x {
                    submitter = submitter_of from found;
                    payload_id = to_hex_string hash ++ bytes_of "-" ++ to_string log_index;
                  })
                  payload c
          ]
        ]

-- `handleCrossChainEpochOracle`
unfoldable pub handle_cross_chain_epoch_oracle :
    Context → List ℕ → List ℕ → List ℕ → StoreCache → PayloadEnd
handle_cross_chain_epoch_oracle x from hash payload c =
    process_payload (record x { submitter = to_hex_string from; payload_id = to_hex_string hash })
      payload c
