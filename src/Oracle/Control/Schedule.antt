-- ===== src/Oracle/Control/Schedule.antt =====
-- The main loop of crates/oracle/src/runner/mod.rs, described without the loop.
use native.Mathlib.Nat.{mul-le-mul_left}
use block_oracle.Prelude.{
  ℕ, zero, suc, ◌*◌, ◌^◌, ◌≤◌, ◌<◌, ◌≡◌, ◌≢◌, refl, ap, List, [], ◌∷◌, map, All, arith, ◌==◌,
  if◌then◌else◌,
}
use block_oracle.Prelude.Outcome.{Outcome, ok, err, panic}
use block_oracle.Oracle.Control.{
  Error, SubgraphQueryError, Turn, TaskEnd, still_running, returned, exited, CtrlcHandler, init,
  instruction, handle_error, duration_mul, press, presses, oracle_task, after_sleep, continue_loop,
}

-- The polling intervals that an error costs.
abbrev pub cooldown : Error → ℕ
cooldown (Error.subgraph SubgraphQueryError.transport) = 4
cooldown (Error.subgraph SubgraphQueryError.indexing_error) = 40
cooldown (Error.subgraph SubgraphQueryError.bad_data) = 40
cooldown (Error.subgraph SubgraphQueryError.other) = 40
cooldown Error.subgraph_not_fresh = 2
cooldown Error.subgraph_not_initialized = 2
cooldown Error.bad_jrpc_protocol_chain = 0
cooldown (Error.bad_jrpc_indexed_chain id) = 0
cooldown (Error.contract_error e) = 0
cooldown Error.epoch_manager_call_failed = 0
cooldown (Error.epoch_manager_behind_subgraph m s) = 0

abbrev pub pause : ℕ → Turn → ℕ
pause interval turn = elim turn.run_result [
  | ok u ↦ interval
  | err e ↦ interval * cooldown e
  | panic ↦ 0
]

-- The turns before the first press of CTRL+C.
abbrev pub quiet : List Turn → List Turn
quiet [] = []
quiet (turn ∷ turns) = if turn.ctrlc_presses == 0 then turn ∷ quiet turns else []

-- One press ends the loop, two before the next test end the process.
abbrev pub end_of : List Turn → TaskEnd
end_of [] = still_running
end_of (turn ∷ turns) =
    if turn.ctrlc_presses == 0
    then end_of turns
    else if turn.ctrlc_presses == 1
    then returned
    else exited

instruction_lem : (e : Error) → instruction e ≡ continue_loop (cooldown e)
unfolding instruction block_oracle.Oracle.Control.subgraph_instruction
instruction_lem (Error.subgraph SubgraphQueryError.transport) = refl
instruction_lem (Error.subgraph SubgraphQueryError.indexing_error) = refl
instruction_lem (Error.subgraph SubgraphQueryError.bad_data) = refl
instruction_lem (Error.subgraph SubgraphQueryError.other) = refl
instruction_lem Error.subgraph_not_fresh = refl
instruction_lem Error.subgraph_not_initialized = refl
instruction_lem Error.bad_jrpc_protocol_chain = refl
instruction_lem (Error.bad_jrpc_indexed_chain id) = refl
instruction_lem (Error.contract_error e) = refl
instruction_lem Error.epoch_manager_call_failed = refl
instruction_lem (Error.epoch_manager_behind_subgraph m s) = refl

cooldown-le : (e : Error) → cooldown e ≤ 40
cooldown-le (Error.subgraph SubgraphQueryError.transport) = omega arith
cooldown-le (Error.subgraph SubgraphQueryError.indexing_error) = omega arith
cooldown-le (Error.subgraph SubgraphQueryError.bad_data) = omega arith
cooldown-le (Error.subgraph SubgraphQueryError.other) = omega arith
cooldown-le Error.subgraph_not_fresh = omega arith
cooldown-le Error.subgraph_not_initialized = omega arith
cooldown-le Error.bad_jrpc_protocol_chain = omega arith
cooldown-le (Error.bad_jrpc_indexed_chain id) = omega arith
cooldown-le (Error.contract_error e) = omega arith
cooldown-le Error.epoch_manager_call_failed = omega arith
cooldown-le (Error.epoch_manager_behind_subgraph m s) = omega arith

handle_error_lem :
    (e : Error) (interval : ℕ)
    → interval * 40 < 2 ^ 64
    → handle_error e interval ≡ ok (interval * cooldown e)
unfolding handle_error duration_mul
handle_error_lem e interval h =
    let small : interval * cooldown e ≤ interval * 40 = mul-le-mul_left interval (cooldown-le e) in
    rw (handle_error, instruction_lem e) (ground arith)

-- For a polling interval of which 40 fit in 64 bits of seconds, and runs that do not panic: no error
-- ends the main loop. It sleeps one interval after each good run, the error's number of intervals
-- after each failed run, and ends at the first test after CTRL+C was pressed, by returning if it was
-- pressed once and by leaving the process if it was pressed again.
pub oracle_task_lem :
    (interval : ℕ) (turns : List Turn)
    → interval * 40 < 2 ^ 64
    → All (λ turn. turn.run_result ≢ panic) turns
    → oracle_task interval init turns ≡ (map (pause interval) (quiet turns), end_of turns)
unfolding oracle_task presses press
oracle_task_lem interval [] h np = refl
oracle_task_lem interval (turn ∷ turns) h np =
    go turn.ctrlc_presses turn.run_result (oracle_task_lem interval turns h np.1) refl refl
  where
    go :
        (n : ℕ) (r : Outcome Error (Unit {0}))
        → oracle_task interval init turns ≡ (map (pause interval) (quiet turns), end_of turns)
        → turn.ctrlc_presses ≡ n
        → turn.run_result ≡ r
        → oracle_task interval init (turn ∷ turns)
          ≡ (map (pause interval) (quiet (turn ∷ turns)), end_of (turn ∷ turns))
    go zero (ok u) rest en er = rw (en, er) (ap (after_sleep interval) rest)
    go zero (err e) rest en er =
        rw (en, er, handle_error_lem e interval h) (ap (after_sleep (interval * cooldown e)) rest)
    go zero panic rest en er = elim (np.0 er) [ ]
    go (suc zero) r rest en er = rw en refl
    go (suc (suc n)) r rest en er = rw en (ground arith)
