-- ===== src/Oracle/Monitor.antt =====
-- crates/oracle/src/runner/transaction_monitor.rs, with its options from crates/oracle/src/config.rs.
-- The JSON-RPC provider is a function from the number of an attempt and the parameters that are sent to
-- what the attempt meets. Addresses, hashes and receipts are numbers, and the errors of the provider are
-- not told apart.
pub mod Bumps
pub mod Attempts
pub mod Confirms
use block_oracle.Prelude.{
  ℕ, zero, suc, ◌+◌, ◌*◌, ◌/◌, ◌^◌, Bool, true, false, List, [], ◌∷◌, ◌++◌, Option, none, some, ltb,
  ◌==◌, if◌then◌else◌,
}
use block_oracle.Prelude.Outcome.{Outcome, ok, err, panic, ◌>>=◌, expect}
use block_oracle.Oracle.Control.{TransactionMonitorError}

pub record TransactionMonitoringOptions : Type 0 where
  pub confirmation_timeout_in_seconds : ℕ
  pub max_retries : ℕ
  pub gas_percentual_increase : ℕ
  pub poll_interval_in_seconds : ℕ
  pub confirmations : ℕ
  pub gas_limit : ℕ
  pub max_fee_per_gas : Option ℕ
  pub max_priority_fee_per_gas : Option ℕ

abbrev pub default_options : TransactionMonitoringOptions
default_options = record {
  confirmation_timeout_in_seconds = 120;
  max_retries = 10;
  gas_percentual_increase = 50;
  poll_interval_in_seconds = 5;
  confirmations = 2;
  gas_limit = 100000;
  max_fee_per_gas = none;
  max_priority_fee_per_gas = none;
}

pub record TransactionParameters : Type 0 where
  pub to : Option ℕ
  pub gas : ℕ
  pub gas_price : Option ℕ
  pub calldata : List ℕ
  pub nonce : Option ℕ
  pub max_fee_per_gas : Option ℕ
  pub max_priority_fee_per_gas : Option ℕ

-- The answer of the provider to a request: `none` if the request failed.
abbrev pub Answer : Type 0 → Type 0
Answer = Option

-- `TransactionMonitor::new`, from the provider's answers for the nonce and the gas price on.
unfoldable pub new_parameters :
    Answer ℕ
    → Answer ℕ
    → ℕ
    → List ℕ
    → TransactionMonitoringOptions
    → Outcome TransactionMonitorError TransactionParameters
new_parameters (some nonce) (some gas_price) contract_address calldata options = ok (record {
  to = some contract_address;
  gas = options.gas_limit;
  gas_price = some gas_price;
  calldata = calldata;
  nonce = some nonce;
  max_fee_per_gas = options.max_fee_per_gas;
  max_priority_fee_per_gas = options.max_priority_fee_per_gas;
})
new_parameters none gas_price contract_address calldata options =
    err TransactionMonitorError.startup
new_parameters (some nonce) none contract_address calldata options =
    err TransactionMonitorError.startup

-- How a broadcast ends within its time: with a receipt, or with an error of the provider.
pub data Broadcast : Type 0 where
  in_time : Answer ℕ → Broadcast
  too_late : Broadcast

-- What one turn of the loop meets: the hash under which the transaction is signed, how its broadcast
-- ends, and the receipts that there are for earlier hashes.
pub record Attempt : Type 0 where
  pub signed : Answer ℕ
  pub broadcast : Broadcast
  pub transaction_receipt : ℕ → Answer (Option ℕ)

-- Requests that fail are passed over.
unfoldable pub check_previously_sent_transactions : (ℕ → Answer (Option ℕ)) → List ℕ → Option ℕ
check_previously_sent_transactions transaction_receipt [] = none
check_previously_sent_transactions transaction_receipt (hash ∷ hashes) =
    let rest = check_previously_sent_transactions transaction_receipt hashes in
    elim (transaction_receipt hash) [
      | none ↦ rest
      | some receipt ↦ elim receipt [ none ↦ rest | some r ↦ some r ]
    ]

pub data Sent : Type 0 where
  confirmed : (receipt : ℕ) → Sent
  provider_error : Sent
  timed_out : (hash : ℕ) → Sent

unfoldable pub send_transaction_and_wait_for_confirmation : Attempt → Sent
send_transaction_and_wait_for_confirmation a = elim a.signed [
  | none ↦ provider_error
  | some hash ↦ elim a.broadcast [
    | too_late ↦ timed_out hash
    | in_time answer ↦ elim answer [ none ↦ provider_error | some receipt ↦ confirmed receipt ]
  ]
]

-- `100 + percentual_increase` is an `u32`, and the product an `U256`.
unfoldable pub bump_gas : ℕ → ℕ → Outcome TransactionMonitorError (Option ℕ)
bump_gas gas_price percentual_increase =
    if ltb (100 + percentual_increase) (2 ^ 32)
    then ok (
        if ltb (gas_price * (100 + percentual_increase)) (2 ^ 256)
        then some (gas_price * (100 + percentual_increase) / 100)
        else none)
    else panic

-- The price, if there is one, is bumped in place; overflow panics.
unfoldable pub bump_price : Option ℕ → ℕ → Outcome TransactionMonitorError (Option ℕ)
unfolding bump_gas
bump_price none percentual_increase = ok none
bump_price (some gas) percentual_increase =
    bump_gas gas percentual_increase >>= λ bumped. expect bumped >>= λ gas'. ok (some gas')

unfoldable pub bump_parameters :
    TransactionParameters → ℕ → Outcome TransactionMonitorError TransactionParameters
unfolding bump_price
bump_parameters p percentual_increase = bump_price p.gas_price percentual_increase >>= λ gas_price.
    ok (record p { gas_price = gas_price })

-- A set of hashes, as a list.
unfoldable pub insert_hash : ℕ → List ℕ → List ℕ
insert_hash h [] = h ∷ []
insert_hash h (k ∷ ks) = let rest = insert_hash h ks in if h == k then k ∷ ks else k ∷ rest

-- What is sent, and how it ends.
abbrev pub Run : Type 0
Run = List TransactionParameters × Outcome TransactionMonitorError ℕ

abbrev pub sent_before : TransactionParameters → Run → Run
sent_before p (sent, result) = (p ∷ sent, result)

module _ (provider : ℕ → TransactionParameters → Attempt) (percentual_increase : ℕ) where
  -- The loop, with the number of the attempt.
  unfoldable pub retry_loop : ℕ → ℕ → List ℕ → TransactionParameters → Run
  unfolding check_previously_sent_transactions send_transaction_and_wait_for_confirmation
      bump_parameters insert_hash
  retry_loop i zero sent p = ([], err TransactionMonitorError.broadcast_failure)
  retry_loop i (suc retries) sent p =
      let attempt = provider i p in
      elim (check_previously_sent_transactions attempt.transaction_receipt sent) [
        | some receipt ↦ (p ∷ [], ok receipt)
        | none ↦ elim (send_transaction_and_wait_for_confirmation attempt) [
          | confirmed receipt ↦ (p ∷ [], ok receipt)
          | provider_error ↦ (p ∷ [], err TransactionMonitorError.provider)
          | timed_out hash ↦ elim (bump_parameters p percentual_increase) [
            | ok p' ↦ sent_before p (retry_loop (i + 1) retries (insert_hash hash sent) p')
            | err e ↦ (p ∷ [], err e)
            | panic ↦ (p ∷ [], panic)
          ]
        ]
      ]

unfoldable pub execute_transaction :
    (ℕ → TransactionParameters → Attempt)
    → TransactionMonitoringOptions
    → TransactionParameters
    → Run
unfolding retry_loop
execute_transaction provider options p =
    retry_loop provider options.gas_percentual_increase 0 options.max_retries [] p
