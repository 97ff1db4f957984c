-- ===== src/Oracle/Monitor/Confirms.antt =====
-- When the transaction monitor of crates/oracle/src/runner/transaction_monitor.rs gets its receipt.
use native.Mathlib.Nat.{eq-or-lt_of_le}
use block_oracle.Prelude.{
  ℕ, zero, suc, ◌+◌, ◌*◌, ◌^◌, ◌≤◌, ◌<◌, ◌≡◌, ◌≢◌, refl, List, [], ◌∷◌, Option, none, some, arith,
  length, ◌⊎◌, inl, inr,
}
use block_oracle.Prelude.Outcome.{ok}
use block_oracle.Oracle.Monitor.{
  TransactionMonitoringOptions, TransactionParameters, Attempt, Sent, confirmed, provider_error,
  timed_out, check_previously_sent_transactions, send_transaction_and_wait_for_confirmation,
  insert_hash, retry_loop, execute_transaction,
}
use block_oracle.Oracle.Monitor.Bumps.{price, price-lt, room_left, bump_ok}

-- The provider answers every broadcast: the code makes no attempt after an error.
abbrev pub Answers : (ℕ → TransactionParameters → Attempt) → Type 0
Answers provider =
    (i : ℕ) (p : TransactionParameters)
    → send_transaction_and_wait_for_confirmation (provider i p) ≢ provider_error

-- At the attempt `k` the broadcast is confirmed, or it is not the first and the provider has a receipt
-- for every transaction sent before.
abbrev pub Settles : (ℕ → TransactionParameters → Attempt) → ℕ → Type 0
Settles provider k =
    (p : TransactionParameters)
    → ((r : ℕ) × (send_transaction_and_wait_for_confirmation (provider k p) ≡ confirmed r))
      ⊎ ((0 < k)
          × ((hash : ℕ) → (r : ℕ) × ((provider k p).transaction_receipt hash ≡ some (some r))))

length-insert_hash : (h : ℕ) (ks : List ℕ) → 0 < length (insert_hash h ks)
unfolding insert_hash
length-insert_hash h [] = omega arith
length-insert_hash h (k ∷ ks) = ground (arith, length-insert_hash h ks)

found_earlier :
    (transaction_receipt : ℕ → Option (Option ℕ)) (sent : List ℕ)
    → 0 < length sent
    → ((hash : ℕ) → (r : ℕ) × (transaction_receipt hash ≡ some (some r)))
    → check_previously_sent_transactions transaction_receipt sent ≢ none
unfolding check_previously_sent_transactions
found_earlier transaction_receipt [] h all e = absurd (omega arith)
found_earlier transaction_receipt (hash ∷ sent) h all e =
    let (r, receipt) = all hash in
    let found : some r ≡ none = rw (check_previously_sent_transactions, receipt) at e in cc

module _ (provider : ℕ → TransactionParameters → Attempt) (percentual_increase k : ℕ)
    (low : percentual_increase ≤ 100) (answers : Answers provider)
    (settles : Settles provider k) where
  settled :
      (p : TransactionParameters) (sent : List ℕ) (hash : ℕ)
      → (0 < k → 0 < length sent)
      → check_previously_sent_transactions (provider k p).transaction_receipt sent ≡ none
      → send_transaction_and_wait_for_confirmation (provider k p) ≡ timed_out hash
      → ⊥
  settled p sent hash some_sent eo es = elim (settles p) [
    | inl (r, done) ↦ cc
    | inr (later, all) ↦
        found_earlier (provider k p).transaction_receipt sent (some_sent later) all eo
  ]

  turn_confirms :
      (retries i : ℕ) (sent : List ℕ) (p : TransactionParameters)
      → i ≤ k
      → (0 < i → 0 < length sent)
      → price p * 2 ^ suc retries < 2 ^ 248
      → ((hash : ℕ) (q : TransactionParameters)
          → i < k
          → price q * 2 ^ retries < 2 ^ 248
          → (r : ℕ) × ((retry_loop provider percentual_increase
                (i + 1)
                retries
                (insert_hash hash sent)
                q).1
              ≡ ok r))
      → (r : ℕ) × ((retry_loop provider percentual_increase i (suc retries) sent p).1 ≡ ok r)
  unfolding retry_loop
  turn_confirms retries i sent p reached some_sent room next =
      go (check_previously_sent_transactions (provider i p).transaction_receipt sent)
        (send_transaction_and_wait_for_confirmation (provider i p)) refl refl
    where
      go :
          (o : Option ℕ) (s : Sent)
          → check_previously_sent_transactions (provider i p).transaction_receipt sent ≡ o
          → send_transaction_and_wait_for_confirmation (provider i p) ≡ s
          → (r : ℕ) × ((retry_loop provider percentual_increase i (suc retries) sent p).1 ≡ ok r)
      go (some r) s eo es = (r, rw (retry_loop, eo))
      go none (confirmed r) eo es = (r, rw (retry_loop, eo, es))
      go none provider_error eo es = absurd (answers i p es)
      go none (timed_out hash) eo es = elim (eq-or-lt_of_le reached) [
        | inl now ↦ absurd (settled p sent hash (rw now at some_sent) (rw now at eo) (rw now at es))
        | inr before ↦
            let (q, e, double) = bump_ok p percentual_increase low (price-lt retries p room) in
            let (r, done) = next hash q before (room_left retries p q double room) in
            (r, rw (retry_loop, eo, es, e) done)
      ]

  retry_loop_confirms :
      (retries i : ℕ) (sent : List ℕ) (p : TransactionParameters)
      → i ≤ k
      → k < i + retries
      → (0 < i → 0 < length sent)
      → price p * 2 ^ retries < 2 ^ 248
      → (r : ℕ) × ((retry_loop provider percentual_increase i retries sent p).1 ≡ ok r)
  retry_loop_confirms zero i sent p reached more some_sent room = absurd (omega arith)
  retry_loop_confirms (suc retries) i sent p reached more some_sent room =
      turn_confirms retries i sent p reached some_sent room (λ hash q before room'.
        retry_loop_confirms retries (i + 1) (insert_hash hash sent) q (omega arith) (omega arith)
          (λ h. length-insert_hash hash sent) room')

-- The monitor gets a receipt in the end: if the provider answers every broadcast and, at some attempt
-- among the retries, confirms the broadcast or has receipts for the transactions sent before, then
-- with an increase of at most 100 percent and a first price with room for the doublings, the result
-- is a receipt.
pub execute_transaction_confirms :
    (provider : ℕ → TransactionParameters → Attempt) (options : TransactionMonitoringOptions)
    (p : TransactionParameters) (k : ℕ)
    → options.gas_percentual_increase ≤ 100
    → price p * 2 ^ options.max_retries < 2 ^ 248
    → Answers provider
    → k < options.max_retries
    → Settles provider k
    → (receipt : ℕ) × ((execute_transaction provider options p).1 ≡ ok receipt)
unfolding execute_transaction
execute_transaction_confirms provider options p k low room answers more settles =
    retry_loop_confirms provider options.gas_percentual_increase k low answers settles
      options.max_retries 0 [] p (omega arith) (omega arith) (λ h. absurd (omega arith)) room
