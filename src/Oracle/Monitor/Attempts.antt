-- ===== src/Oracle/Monitor/Attempts.antt =====
-- What the transaction monitor of crates/oracle/src/runner/transaction_monitor.rs sends, and how often.
use block_oracle.Prelude.{
  ℕ, zero, suc, ◌+◌, ◌*◌, ◌^◌, ◌≤◌, ◌<◌, ◌≡◌, ◌≢◌, refl, ap, ◌∙◌, List, [], ◌∷◌, Option, none, some,
  arith, length, All,
}
use block_oracle.Prelude.Outcome.{Outcome, ok, err, panic}
use block_oracle.Oracle.Control.{TransactionMonitorError}
use block_oracle.Oracle.Monitor.{
  TransactionMonitoringOptions, TransactionParameters, Attempt, Run, Sent, confirmed,
  provider_error, timed_out, check_previously_sent_transactions,
  send_transaction_and_wait_for_confirmation, bump_parameters, insert_hash, retry_loop,
  execute_transaction, sent_before,
}
use block_oracle.Oracle.Monitor.Bumps.{
  price, IsSameTransaction, bump-same, bump_not_err, bump_ok, price-lt, room_left,
}

-- The prices never fall, from `lo` on.
abbrev pub Rises : ℕ → List TransactionParameters → Type 0
Rises lo [] = Unit
Rises lo (p ∷ ps) = (lo ≤ price p) × Rises (price p) ps

Rises-from : (lo hi : ℕ) (ps : List TransactionParameters) → lo ≤ hi → Rises hi ps → Rises lo ps
Rises-from lo hi [] h r = tt
Rises-from lo hi (p ∷ ps) h r = (omega arith, r.1)

All-same :
    (p q : TransactionParameters) (ps : List TransactionParameters)
    → IsSameTransaction p q
    → All (IsSameTransaction q) ps
    → All (IsSameTransaction p) ps
All-same p q [] e h = tt
All-same p q (r ∷ ps) e h = (
  ap (λ (t : TransactionParameters). record t { gas_price = p.gas_price }) (h.0) ∙ e,
  All-same p q ps e h.1,
)

module _ (provider : ℕ → TransactionParameters → Attempt) (percentual_increase : ℕ) where
  -- How a turn of the loop can end it: not by giving up, and by a panic only if the price cannot be bumped.
  abbrev Stops : TransactionParameters → Outcome TransactionMonitorError ℕ → Type 0
  Stops p result =
      (result ≢ err TransactionMonitorError.broadcast_failure)
      × (result ≡ panic → bump_parameters p percentual_increase ≡ panic)

  -- What holds of the run after one turn.
  turn_cases :
      (P : Run → Type 0) (i retries : ℕ) (sent : List ℕ) (p : TransactionParameters)
      → ((result : Outcome TransactionMonitorError ℕ) → Stops p result → P (p ∷ [], result))
      → ((sent' : List ℕ) (p' : TransactionParameters)
          → bump_parameters p percentual_increase ≡ ok p'
          → P (sent_before p (retry_loop provider percentual_increase (i + 1) retries sent' p')))
      → P (retry_loop provider percentual_increase i (suc retries) sent p)
  unfolding retry_loop
  turn_cases P i retries sent p stop next =
      go (check_previously_sent_transactions (provider i p).transaction_receipt sent)
        (send_transaction_and_wait_for_confirmation (provider i p))
        (bump_parameters p percentual_increase) refl refl refl
    where
      go :
          (o : Option ℕ) (s : Sent) (b : Outcome TransactionMonitorError TransactionParameters)
          → check_previously_sent_transactions (provider i p).transaction_receipt sent ≡ o
          → send_transaction_and_wait_for_confirmation (provider i p) ≡ s
          → bump_parameters p percentual_increase ≡ b
          → P (retry_loop provider percentual_increase i (suc retries) sent p)
      go (some r) s b eo es eb = rw (retry_loop, eo) (stop (ok r) (λ h. cc, λ h. cc))
      go none (confirmed r) b eo es eb = rw (retry_loop, eo, es) (stop (ok r) (λ h. cc, λ h. cc))
      go none provider_error b eo es eb =
          rw (retry_loop, eo, es) (stop (err TransactionMonitorError.provider) (λ h. cc, λ h. cc))
      go none (timed_out hash) (ok p') eo es eb =
          rw (retry_loop, eo, es, eb) (next (insert_hash hash sent) p' eb)
      go none (timed_out hash) (err e) eo es eb = absurd (bump_not_err p percentual_increase e eb)
      go none (timed_out hash) panic eo es eb =
          rw (retry_loop, eo, es, eb) (stop panic (λ h. cc, λ h. eb))

  same_transactions :
      (retries i : ℕ) (sent : List ℕ) (p : TransactionParameters)
      → All (IsSameTransaction p) (retry_loop provider percentual_increase i retries sent p).0
  unfolding retry_loop
  same_transactions zero i sent p = tt
  same_transactions (suc retries) i sent p =
      turn_cases (λ run. All (IsSameTransaction p) run.0) i retries sent p (λ result h. (refl, tt))
        (λ sent' p' h. (
          refl,
          All-same p p' _ (bump-same p p' percentual_increase h).0
              (same_transactions retries (i + 1) sent' p'),
        ))

  rising_prices :
      (retries i : ℕ) (sent : List ℕ) (p : TransactionParameters)
      → Rises (price p) (retry_loop provider percentual_increase i retries sent p).0
  unfolding retry_loop
  rising_prices zero i sent p = tt
  rising_prices (suc retries) i sent p =
      turn_cases (λ run. Rises (price p) run.0) i retries sent p (λ result h. (omega arith, tt))
        (λ sent' p' h. (
          omega arith,
          Rises-from (price p) (price p') _ (bump-same p p' percentual_increase h).1
              (rising_prices retries (i + 1) sent' p'),
        ))

  number_of_attempts :
      (retries i : ℕ) (sent : List ℕ) (p : TransactionParameters)
      → let run = retry_loop provider percentual_increase i retries sent p in
        (length run.0 ≤ retries)
        × (run.1 ≡ err TransactionMonitorError.broadcast_failure → length run.0 ≡ retries)
  unfolding retry_loop
  number_of_attempts zero i sent p = (omega arith, λ h. refl)
  number_of_attempts (suc retries) i sent p =
      turn_cases
        (λ run.
          (length run.0 ≤ suc retries)
          × (run.1 ≡ err TransactionMonitorError.broadcast_failure → length run.0 ≡ suc retries))
        i retries sent p (λ result h. (omega arith, λ e. absurd (h.0 e)))
        (λ sent' p' h.
          let (few, all) = number_of_attempts retries (i + 1) sent' p' in
          (omega arith, λ e. ap suc (all e)))

-- What the monitor sends: always the same transaction, with the same nonce and the same call, but
-- for its gas price, which never falls; at most as many times as there are retries, and exactly as
-- many times if it gives up.
pub execute_transaction_lem :
    (provider : ℕ → TransactionParameters → Attempt) (options : TransactionMonitoringOptions)
    (p : TransactionParameters)
    → let run = execute_transaction provider options p in
      All (IsSameTransaction p) run.0
      × Rises (price p) run.0
      × (length run.0 ≤ options.max_retries)
      × (run.1 ≡ err TransactionMonitorError.broadcast_failure → length run.0 ≡ options.max_retries)
unfolding execute_transaction
execute_transaction_lem provider options p =
    let i = options.gas_percentual_increase in
    let n = options.max_retries in
    let (few, all) = number_of_attempts provider i n 0 [] p in
    (same_transactions provider i n 0 [] p, rising_prices provider i n 0 [] p, few, all)

module _ (provider : ℕ → TransactionParameters → Attempt) (percentual_increase : ℕ)
    (low : percentual_increase ≤ 100) where
  retry_loop_not_panic :
      (retries i : ℕ) (sent : List ℕ) (p : TransactionParameters)
      → price p * 2 ^ retries < 2 ^ 248
      → (retry_loop provider percentual_increase i retries sent p).1 ≢ panic
  unfolding retry_loop
  retry_loop_not_panic zero i sent p room = λ h. cc
  retry_loop_not_panic (suc retries) i sent p room =
      let (q, e, double) = bump_ok p percentual_increase low (price-lt retries p room) in
      turn_cases provider percentual_increase (λ run. run.1 ≢ panic) i retries sent p
        (λ result h s. cc (h.1 s))
        (λ sent' p' h.
          let whole : q ≡ p' = cc in
          retry_loop_not_panic retries (i + 1) sent' p'
            (rw (← whole) (room_left retries p q double room)))

-- With an increase of at most 100 percent, and a first price so low that doubling it on every retry
-- stays below 2^248, the price never overflows: the monitor ends with a receipt or an error.
pub execute_transaction_not_panic :
    (provider : ℕ → TransactionParameters → Attempt) (options : TransactionMonitoringOptions)
    (p : TransactionParameters)
    → options.gas_percentual_increase ≤ 100
    → price p * 2 ^ options.max_retries < 2 ^ 248
    → (execute_transaction provider options p).1 ≢ panic
unfolding execute_transaction
execute_transaction_not_panic provider options p low room =
    retry_loop_not_panic provider options.gas_percentual_increase low options.max_retries 0 [] p
      room
