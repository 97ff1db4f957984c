-- ===== src/Tests/Monitor.antt =====
-- Instances of the theorems on the transaction monitor and the contract calls of crates/oracle.
use block_oracle.Prelude.{
  ℕ, ◌≤◌, ◌≡◌, ◌≢◌, refl, [], ◌∷◌, arith, length, none, some, All, ltb, if◌then◌else◌, inl,
}
use block_oracle.Prelude.Outcome.{ok, err, panic}
use block_oracle.Oracle.Control.{TransactionMonitorError}
use block_oracle.Oracle.Monitor.{
  Attempt, too_late, in_time, send_transaction_and_wait_for_confirmation, TransactionParameters,
  default_options, execute_transaction,
}
use block_oracle.Oracle.Monitor.Bumps.{IsSameTransaction}
use block_oracle.Oracle.Monitor.Attempts.{
  Rises, execute_transaction_lem, execute_transaction_not_panic,
}
use block_oracle.Oracle.Monitor.Confirms as Confirms
use block_oracle.Oracle.Monitor.Confirms.{Settles, execute_transaction_confirms}
use block_oracle.Oracle.Contracts.{ProviderView, submit_call}
use block_oracle.Oracle.Contracts.Calls.{IsCall, submit_call_lem}

-- The transaction monitor, where every broadcast times out.
abbrev slow_provider : ℕ → TransactionParameters → Attempt
slow_provider i p = record {
  signed = some i;
  broadcast = too_late;
  transaction_receipt = λ hash. some none;
}

abbrev first_parameters : TransactionParameters
first_parameters = record {
  to = some 7;
  gas = 100000;
  gas_price = some 1000;
  calldata = [];
  nonce = some 4;
  max_fee_per_gas = none;
  max_priority_fee_per_gas = none;
}

execute_transaction_lem_example :
    All
      (IsSameTransaction first_parameters)
      (execute_transaction slow_provider default_options first_parameters).0
    × Rises 1000 (execute_transaction slow_provider default_options first_parameters).0
    × (length (execute_transaction slow_provider default_options first_parameters).0 ≤ 10)
    × ((execute_transaction slow_provider default_options first_parameters).1
          ≡ err TransactionMonitorError.broadcast_failure
        → length (execute_transaction slow_provider default_options first_parameters).0 ≡ 10)
execute_transaction_lem_example =
    execute_transaction_lem slow_provider default_options first_parameters

execute_transaction_not_panic_example :
    (execute_transaction slow_provider default_options first_parameters).1 ≢ panic
execute_transaction_not_panic_example =
    execute_transaction_not_panic slow_provider default_options first_parameters (omega arith)
      (omega arith)

-- A provider that takes two transactions in vain and confirms the third.
abbrev third_time : ℕ → TransactionParameters → Attempt
third_time i p = record {
  signed = some i;
  broadcast = if ltb i 2 then too_late else in_time (some 9);
  transaction_receipt = λ hash. some none;
}

third_time-Answers : Confirms.Answers third_time
unfolding send_transaction_and_wait_for_confirmation
third_time-Answers i p = ground arith

third_time-Settles : Settles third_time 2
unfolding send_transaction_and_wait_for_confirmation
third_time-Settles p = inl (9, refl)

execute_transaction_confirms_example :
    (receipt : ℕ) × ((execute_transaction third_time default_options first_parameters).1
      ≡ ok receipt)
execute_transaction_confirms_example =
    execute_transaction_confirms third_time default_options first_parameters 2 (omega arith)
      (omega arith) third_time-Answers (omega arith) third_time-Settles

abbrev view : ProviderView
view = record { transaction_count = some 4; gas_price = some 1000; attempts = slow_provider }

submit_call_lem_example :
    All (IsCall some view 7 (1 ∷ 2 ∷ [])) (submit_call some view default_options 7 (1 ∷ 2 ∷ [])).0
submit_call_lem_example = submit_call_lem some view default_options 7 (1 ∷ 2 ∷ [])
