-- ===== src/Oracle/Control.antt =====
-- crates/oracle/src/runner/mod.rs, error_handling.rs and ctrlc.rs, and the errors of subgraph.rs,
-- contracts.rs and transaction_monitor.rs: what an error of a polling iteration does to the main loop.
-- The texts and sources that errors carry, and the logging, are left out. A duration is a number of
-- seconds, as the configuration gives it.
pub mod Schedule
use block_oracle.Prelude.{
  ℕ, zero, suc, ◌*◌, ◌^◌, Bool, true, false, List, [], ◌∷◌, Option, none, some, ltb, if◌then◌else◌,
}
use block_oracle.Prelude.Outcome.{Outcome, ok, err, panic, ◌>>=◌}
use block_oracle.Oracle.ChainId.{Caip2ChainId}

-- `ControlFlow<(), u32>`
pub data OracleControlFlow : Type 0 where
  break_loop : OracleControlFlow
  continue_loop : ℕ → OracleControlFlow

pub data SubgraphQueryError : Type 0 where
  transport : SubgraphQueryError
  indexing_error : SubgraphQueryError
  bad_data : SubgraphQueryError
  other : SubgraphQueryError

pub data TransactionMonitorError : Type 0 where
  startup : TransactionMonitorError
  signing : TransactionMonitorError
  provider : TransactionMonitorError
  broadcast_failure : TransactionMonitorError

pub data ContractError : Type 0 where
  transaction_monitor : TransactionMonitorError → ContractError
  abi_encode : ContractError

pub data Error : Type 0 where
  bad_jrpc_protocol_chain : Error
  bad_jrpc_indexed_chain : Caip2ChainId → Error
  subgraph : SubgraphQueryError → Error
  contract_error : ContractError → Error
  epoch_manager_call_failed : Error
  epoch_manager_behind_subgraph : ℕ → ℕ → Error
  subgraph_not_fresh : Error
  subgraph_not_initialized : Error

unfoldable pub subgraph_instruction : SubgraphQueryError → OracleControlFlow
subgraph_instruction SubgraphQueryError.transport = continue_loop 4
subgraph_instruction SubgraphQueryError.indexing_error = continue_loop 40
subgraph_instruction SubgraphQueryError.bad_data = continue_loop 40
subgraph_instruction SubgraphQueryError.other = continue_loop 40

unfoldable pub instruction : Error → OracleControlFlow
unfolding subgraph_instruction
instruction (Error.subgraph e) = subgraph_instruction e
instruction Error.bad_jrpc_protocol_chain = continue_loop 0
instruction (Error.bad_jrpc_indexed_chain id) = continue_loop 0
instruction (Error.contract_error e) = continue_loop 0
instruction Error.epoch_manager_call_failed = continue_loop 0
instruction (Error.epoch_manager_behind_subgraph m s) = continue_loop 0
instruction Error.subgraph_not_fresh = continue_loop 2
instruction Error.subgraph_not_initialized = continue_loop 2

-- `Duration * u32` panics when the seconds leave 64 bits.
unfoldable pub duration_mul : ℕ → ℕ → Outcome Error ℕ
duration_mul seconds factor =
    if ltb (seconds * factor) (2 ^ 64) then ok (seconds * factor) else panic

-- How long the loop sleeps after an error, or the error that ends it.
unfoldable pub handle_error : Error → ℕ → Outcome Error ℕ
unfolding instruction duration_mul
handle_error e polling_interval = elim (instruction e) [
  | break_loop ↦ err e
  | continue_loop cooldown_multiplier ↦ duration_mul polling_interval cooldown_multiplier
]

pub record CtrlcHandler : Type 0 where
  pub ctrlc_received : Bool

abbrev pub init : CtrlcHandler
init = record { ctrlc_received = false }

-- A press of CTRL+C; there is no state after the process exits.
unfoldable pub press : CtrlcHandler → Option CtrlcHandler
press h = if h.ctrlc_received then none else some (record h { ctrlc_received = true })

abbrev pub poll_ctrlc : CtrlcHandler → Bool
poll_ctrlc h = h.ctrlc_received

unfoldable pub presses : ℕ → CtrlcHandler → Option CtrlcHandler
unfolding press
presses zero h = some h
presses (suc n) h = elim (press h) [ none ↦ none | some h' ↦ presses n h' ]

-- What one turn of the loop meets: the presses of CTRL+C since the last test, and how the oracle's
-- `run` ends if it is called.
pub record Turn : Type 0 where
  pub ctrlc_presses : ℕ
  pub run_result : Outcome Error (Unit {0})

pub data TaskEnd : Type 0 where
  still_running : TaskEnd
  returned : TaskEnd
  returned_error : Error → TaskEnd
  exited : TaskEnd
  panicked : TaskEnd

abbrev pub after_sleep : ℕ → List ℕ × TaskEnd → List ℕ × TaskEnd
after_sleep seconds (slept, end) = (seconds ∷ slept, end)

-- The main loop over the given turns: the sleeps it makes and how it ends.
unfoldable pub oracle_task : ℕ → CtrlcHandler → List Turn → List ℕ × TaskEnd
unfolding presses handle_error
oracle_task polling_interval handler [] = ([], still_running)
oracle_task polling_interval handler (turn ∷ turns) = elim (presses turn.ctrlc_presses handler) [
  | none ↦ ([], exited)
  | some h ↦
      let rest = oracle_task polling_interval h turns in
      if poll_ctrlc h then ([], returned) else elim turn.run_result [
        | ok u ↦ after_sleep polling_interval rest
        | err e ↦ elim (handle_error e polling_interval) [
          | ok wait ↦ after_sleep wait rest
          | err e' ↦ ([], returned_error e')
          | panic ↦ ([], panicked)
        ]
        | panic ↦ ([], panicked)
      ]
]
