-- ===== src/Oracle/Contracts.antt =====
-- `submit_call` of crates/oracle/src/contracts.rs: the call of the DataEdge contract. The ABI's encoding
-- of the call is a parameter, `none` where it fails.
pub mod Calls
use block_oracle.Prelude.{ℕ, List, [], Option, none, some}
use block_oracle.Prelude.Outcome.{Outcome, ok, err, panic, map_err}
use block_oracle.Oracle.Control.{ContractError, TransactionMonitorError}
use block_oracle.Oracle.Monitor.{
  Answer, Attempt, TransactionMonitoringOptions, TransactionParameters, Run, new_parameters,
  execute_transaction,
}

-- What the provider tells the monitor before and during its attempts.
pub record ProviderView : Type 0 where
  pub transaction_count : Answer ℕ
  pub gas_price : Answer ℕ
  pub attempts : ℕ → TransactionParameters → Attempt

-- What is sent, and how the call ends.
abbrev pub Call : Type 0
Call = List TransactionParameters × Outcome ContractError ℕ

abbrev pub monitored : Run → Call
monitored (sent, result) = (sent, map_err ContractError.transaction_monitor result)

-- A monitor that has started executes the transaction.
unfoldable pub start_monitor :
    ProviderView
    → TransactionMonitoringOptions
    → Outcome TransactionMonitorError TransactionParameters
    → Call
start_monitor view options (ok p) = monitored (execute_transaction view.attempts options p)
start_monitor view options (err e) = ([], err (ContractError.transaction_monitor e))
start_monitor view options panic = ([], panic)

unfoldable pub submit_call :
    (List ℕ → Option (List ℕ)) → ProviderView → TransactionMonitoringOptions → ℕ → List ℕ → Call
unfolding start_monitor
submit_call abi_encode_data_edge_payload view options data_edge_address payload =
    elim (abi_encode_data_edge_payload payload) [
      | none ↦ ([], err ContractError.abi_encode)
      | some calldata ↦
          start_monitor view options (
            new_parameters view.transaction_count view.gas_price data_edge_address calldata options)
    ]
