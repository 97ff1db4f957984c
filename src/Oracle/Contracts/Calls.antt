-- ===== src/Oracle/Contracts/Calls.antt =====
-- What `submit_call` of crates/oracle/src/contracts.rs sends.
use mathlib.Core.Path.{subst}
use block_oracle.Prelude.{
  ℕ, ◌≡◌, ◌≢◌, refl, ap, ◌∙◌, sym, List, [], ◌∷◌, Option, none, some, All, Option-cases, inl, inr,
}
use block_oracle.Prelude.Outcome.{Outcome, ok, err, panic}
use block_oracle.Oracle.Control.{TransactionMonitorError}
use block_oracle.Oracle.Monitor.{
  TransactionMonitoringOptions, TransactionParameters, new_parameters, execute_transaction,
}
use block_oracle.Oracle.Monitor.Bumps.{IsSameTransaction}
use block_oracle.Oracle.Monitor.Attempts.{execute_transaction_lem}
use block_oracle.Oracle.Contracts.{ProviderView, start_monitor, submit_call}

-- A call of the contract with the payload, under the nonce that the provider gave.
abbrev pub IsCall :
    (List ℕ → Option (List ℕ)) → ProviderView → ℕ → List ℕ → TransactionParameters → Type 0
IsCall abi_encode view data_edge_address payload q =
    (q.to ≡ some data_edge_address)
    × (abi_encode payload ≡ some q.calldata)
    × (q.nonce ≡ view.transaction_count)
    × (q.nonce ≢ none)

module _ (abi_encode : List ℕ → Option (List ℕ)) (view : ProviderView)
    (options : TransactionMonitoringOptions) (data_edge_address : ℕ) (payload : List ℕ) where
  -- The parameters with which the monitor starts.
  abbrev fresh_parameters : ℕ → ℕ → List ℕ → TransactionParameters
  fresh_parameters nonce gas_price calldata = record {
    to = some data_edge_address;
    gas = options.gas_limit;
    gas_price = some gas_price;
    calldata = calldata;
    nonce = some nonce;
    max_fee_per_gas = options.max_fee_per_gas;
    max_priority_fee_per_gas = options.max_priority_fee_per_gas;
  }

  calls_like :
      (p : TransactionParameters) (ps : List TransactionParameters)
      → IsCall abi_encode view data_edge_address payload p
      → All (IsSameTransaction p) ps
      → All (IsCall abi_encode view data_edge_address payload) ps
  calls_like p [] h same = tt
  calls_like p (q ∷ ps) h same = (
    (
      ap (λ (t : TransactionParameters). t.to) (same.0) ∙ h.0,
      h.1 ∙ ap (λ (t : TransactionParameters). some t.calldata) (sym same.0),
      ap (λ (t : TransactionParameters). t.nonce) (same.0) ∙ h.2,
      λ e. h.3 (sym (ap (λ (t : TransactionParameters). t.nonce) (same.0)) ∙ e),
    ),
    calls_like p ps h same.1,
  )

  first-IsCall :
      (count price : Option ℕ) (calldata : List ℕ) (p : TransactionParameters)
      → view.transaction_count ≡ count
      → abi_encode payload ≡ some calldata
      → new_parameters count price data_edge_address calldata options ≡ ok p
      → IsCall abi_encode view data_edge_address payload p
  unfolding new_parameters
  first-IsCall none price calldata p c e h = cc
  first-IsCall (some n) none calldata p c e h = cc
  first-IsCall (some n) (some g) calldata p c e h =
      let whole : fresh_parameters n g calldata ≡ p = cc in
      subst (IsCall abi_encode view data_edge_address payload) whole (refl, e, sym c, λ f. cc f)

  started :
      (m : Outcome TransactionMonitorError TransactionParameters)
      → ((p : TransactionParameters)
          → m ≡ ok p
          → IsCall abi_encode view data_edge_address payload p)
      → All (IsCall abi_encode view data_edge_address payload) (start_monitor view options m).0
  unfolding start_monitor
  started (ok p) h =
      calls_like p (execute_transaction view.attempts options p).0 (h p refl)
        (execute_transaction_lem view.attempts options p).0
  started (err e) h = tt
  started panic h = tt

  -- Every transaction that is sent for a payload is a call of the DataEdge contract with the encoding
  -- of that payload, and all of them bear the one nonce that the provider gave before the first.
  pub submit_call_lem :
      All
        (IsCall abi_encode view data_edge_address payload)
        (submit_call abi_encode view options data_edge_address payload).0
  unfolding submit_call
  submit_call_lem = elim (Option-cases (abi_encode payload)) [
    | inl fails ↦ rw (submit_call, fails) tt
    | inr (calldata, e) ↦
        rw (submit_call, e)
          (started
            (new_parameters view.transaction_count view.gas_price data_edge_address calldata
              options)
            (λ p h. first-IsCall view.transaction_count view.gas_price calldata p refl e h))
  ]
