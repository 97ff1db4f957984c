-- ===== src/Oracle/Epoch/Submission.antt =====
-- When a run of crates/oracle/src/runner/oracle.rs submits a payload.
use mathlib.Core.Path.{subst}
use block_oracle.Prelude.{
  ℕ, ◌<◌, ◌≡◌, ◌⊎◌, inl, inr, refl, ap, ◌∙◌, sym, Bool, true, false, List, Option, none, some,
  arith, ltb, if◌then◌else◌, Bool-cases,
}
use block_oracle.Prelude.Outcome.{
  Outcome, ok, err, panic, ◌>>=◌, map_err, ok_or, >>=-eq-ok, eq-ok_of_map_err, eq-some_of_ok_or,
}
use block_oracle.Prelude.Text.{Str}
use block_oracle.Prelude.TreeMap.{TreeMap}
use block_oracle.Encoding.Messages.{Bytes32, BlockPtr}
use block_oracle.Oracle.Control.{Error}
use block_oracle.Oracle.Freshness.{subgraph_is_fresh}
use block_oracle.Oracle.State.{
  SubgraphState, latest_epoch_number, has_registered_networks, query_subgraph,
}
use block_oracle.Oracle.Payload.{set_block_numbers_for_next_epoch}
use block_oracle.Oracle.Epoch.{
  Settings, Answers, NewEpochCheck, recently_initialized, previous_epoch, same_epoch,
  query_current_epoch, compare_epochs, check_epoch, is_new_epoch, check_freshness, new_epoch_of,
  detect_new_epoch, latest_blocks, handle_new_epoch, run,
}

-- The subgraph has networks and no epoch yet, or it is at an epoch before the manager's and fresh.
abbrev pub IsDue : Settings → Answers → SubgraphState → Type 0
IsDue settings answers state =
    ((latest_epoch_number state ≡ none) × (has_registered_networks state ≡ true))
    ⊎ ((epoch manager current : ℕ) × (latest_epoch_number state ≡ some epoch)
        × (answers.manager_epoch ≡ some manager)
        × (epoch < manager)
        × (answers.protocol_chain_head ≡ some current)
        × (subgraph_is_fresh state.last_indexed_block_number current answers.block_with_txs
              settings.owner_address settings.data_edge_address settings.freshness_threshold
            ≡ ok true))

fresh_head :
    (settings : Settings) (answers : Answers) (n : ℕ)
    → check_freshness settings answers n ≡ ok true
    → (current : ℕ) × (answers.protocol_chain_head ≡ some current)
      × (subgraph_is_fresh n current answers.block_with_txs settings.owner_address
            settings.data_edge_address settings.freshness_threshold
          ≡ ok true)
unfolding check_freshness
fresh_head settings answers n h =
    let (current, e, h₁) =
      >>=-eq-ok (ok_or answers.protocol_chain_head Error.bad_jrpc_protocol_chain) _ h in
    let (fresh, e', h₂) =
      >>=-eq-ok
        (map_err (λ x. Error.bad_jrpc_protocol_chain)
          (subgraph_is_fresh n current answers.block_with_txs settings.owner_address
            settings.data_edge_address settings.freshness_threshold))
        _ h₁ in
    let is_true : fresh ≡ true = passed_fresh fresh h₂ in
    (
      current,
      eq-some_of_ok_or answers.protocol_chain_head Error.bad_jrpc_protocol_chain e,
      eq-ok_of_map_err (λ x. Error.bad_jrpc_protocol_chain) _ e' ∙ ap ok is_true,
    )
  where
    passed_fresh :
        (b : Bool)
        → Path (Outcome Error Bool) (if b then ok true else err Error.subgraph_not_fresh) (ok true)
        → b ≡ true
    passed_fresh true h = refl
    passed_fresh false h = cc

-- What a check that finds a new epoch has seen.
abbrev Seen : SubgraphState → Option ℕ → NewEpochCheck → Type 0
Seen state manager_epoch recently_initialized =
    (latest_epoch_number state ≡ none) × (has_registered_networks state ≡ true)
Seen state manager_epoch (previous_epoch n) =
    (epoch manager : ℕ) × (latest_epoch_number state ≡ some epoch)
    × (manager_epoch ≡ some manager)
    × (epoch < manager)
    × (n ≡ state.last_indexed_block_number)
Seen state manager_epoch same_epoch = Unit

known_manager : (o : Option ℕ) (m : ℕ) → query_current_epoch o ≡ ok m → o ≡ some m
unfolding query_current_epoch
known_manager none m h = cc
known_manager (some n) m h = ground arith

compared :
    (n epoch manager : ℕ) (c : NewEpochCheck)
    → compare_epochs n epoch manager ≡ ok c
    → (c ≡ same_epoch) ⊎ ((c ≡ previous_epoch n) × (epoch < manager))
unfolding compare_epochs
compared n epoch manager c h = elim (Bool-cases (ltb epoch manager)) [
  | inl t ↦ inr (ground arith, ground arith)
  | inr t ↦ inl (ground arith)
]

seen :
    (state : SubgraphState) (manager_epoch : Option ℕ) (c : NewEpochCheck)
    → is_new_epoch state manager_epoch ≡ ok c
    → Seen state manager_epoch c
unfolding is_new_epoch check_epoch
seen state manager_epoch c h = go (latest_epoch_number state) refl h
  where
    go :
        (o : Option ℕ)
        → latest_epoch_number state ≡ o
        → check_epoch state manager_epoch o ≡ ok c
        → Seen state manager_epoch c
    go none unset h = elim (Bool-cases (has_registered_networks state)) [
      | inl t ↦
          let found : recently_initialized ≡ c = ground arith in
          subst (Seen state manager_epoch) found (unset, t)
      | inr t ↦ absurd (ground arith)
    ]
    go (some epoch) e h =
        let (manager, q, h') = >>=-eq-ok (query_current_epoch manager_epoch) _ h in
        elim (compared state.last_indexed_block_number epoch manager c h') [
          | inl same ↦ subst (Seen state manager_epoch) (sym same) tt
          | inr (found, less) ↦
              subst (Seen state manager_epoch) (sym found)
                (epoch, manager, e, known_manager manager_epoch manager q, less, refl)
        ]

IsDue-of_detect :
    (settings : Settings) (answers : Answers) (state : SubgraphState)
    → detect_new_epoch settings answers state ≡ ok true
    → IsDue settings answers state
unfolding detect_new_epoch
IsDue-of_detect settings answers state h =
    let (c, e, h') = >>=-eq-ok (is_new_epoch state answers.manager_epoch) _ h in
    go c (seen state answers.manager_epoch c e) h'
  where
    go :
        (c : NewEpochCheck)
        → Seen state answers.manager_epoch c
        → new_epoch_of settings answers c ≡ ok true
        → IsDue settings answers state
    go same_epoch s h' = cc
    go recently_initialized s h' = inl s
    go (previous_epoch n) (epoch, manager, e, e', less, at) h' =
        let (current, head, fresh) = fresh_head settings answers n h' in
        inr (epoch, manager, current, e, e', less, head, rw (← at) fresh)

-- A payload is submitted only for a state of the subgraph that was read in this run and is due: it has
-- networks and no epoch yet, or its epoch is before the manager's and it is fresh. The payload is the
-- one for the latest blocks of the chains, and its submission succeeded.
pub run_submits :
    (digest : List ℕ → Bytes32) (parse_hash : Str → Option Bytes32) (settings : Settings)
    (answers : Answers) (payload : List ℕ)
    → run digest parse_hash settings answers ≡ ok (some payload)
    → (state : SubgraphState) × (blocks : TreeMap BlockPtr) × (receipt : ℕ) × (query_subgraph
          answers.subgraph_response
        ≡ ok state)
      × IsDue settings answers state
      × (latest_blocks digest parse_hash answers ≡ ok blocks)
      × (set_block_numbers_for_next_epoch digest state blocks ≡ ok payload)
      × (answers.submit_call payload ≡ ok receipt)
unfolding run handle_new_epoch
run_submits digest parse_hash settings answers payload h =
    let (balance, e₁, h₁) =
      >>=-eq-ok (ok_or answers.owner_balance Error.bad_jrpc_protocol_chain) _ h in
    let (state, e₂, h₂) =
      >>=-eq-ok (map_err Error.subgraph (query_subgraph answers.subgraph_response)) _ h₁ in
    let (is_new, e₃, h₃) = >>=-eq-ok (detect_new_epoch settings answers state) _ h₂ in
    let (new, handled) = submitted is_new (handle_new_epoch digest parse_hash answers state) h₃ in
    let (blocks, e₄, h₄) = >>=-eq-ok (latest_blocks digest parse_hash answers) _ handled in
    let (sent, e₅, h₅) = >>=-eq-ok (set_block_numbers_for_next_epoch digest state blocks) _ h₄ in
    let (receipt, e₆, h₆) =
      >>=-eq-ok (map_err Error.contract_error (answers.submit_call sent)) _ h₅ in
    let same : sent ≡ payload = cc in
    (
      state,
      blocks,
      receipt,
      eq-ok_of_map_err Error.subgraph _ e₂,
      IsDue-of_detect settings answers state (e₃ ∙ ap ok new),
      e₄,
      e₅ ∙ ap ok same,
      subst (λ bytes. answers.submit_call bytes ≡ ok receipt) same
          (eq-ok_of_map_err Error.contract_error _ e₆),
    )
  where
    submitted :
        (is_new : Bool) (m : Outcome Error (List ℕ))
        → Path
            (Outcome Error (Option (List ℕ)))
            (if is_new then (m >>= λ p. ok (some p)) else ok none)
            (ok (some payload))
        → (is_new ≡ true) × (m ≡ ok payload)
    submitted true (ok p) h = (refl, cc)
    submitted true (err e) h = cc
    submitted true panic h = cc
    submitted false m h = cc
