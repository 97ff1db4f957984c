-- ===== src/Tests/Delivery.antt =====
-- Instances of the theorems on packages/subgraph/src/mapping.ts, on what the oracle submits to it, and
-- runs of its handlers.
use block_oracle.Prelude.{ℕ, ◌≡◌, ◌≢◌, refl, List, [], ◌∷◌, none, some, arith, inl}
use block_oracle.Prelude.Int.{pos, ◌-ℤ◌}
use block_oracle.Prelude.Outcome.{ok}
use block_oracle.Prelude.Text.{str_compare}
use block_oracle.Prelude.TreeMap.{TreeMap, lookup}
use block_oracle.Encoding.Messages.{BlockPtr, zero_hash}
use block_oracle.Encoding.Encoder.{network_index}
use block_oracle.Encoding.Encoder.Alignment.{IsDistinct}
use block_oracle.Encoding.Encoder.Blocks.{moved_networks}
use block_oracle.Oracle.State.{Network, SubgraphState, network_from, has_id}
use block_oracle.Oracle.Payload.{set_block_numbers_for_next_epoch}
use block_oracle.Subgraph.Store.{
  StoreCache, get_network_epoch_block_number, get_permission_list_entry,
}
use block_oracle.Subgraph.Active.{previous_block_number}
use block_oracle.Subgraph.Linked.{Represents}
use block_oracle.Subgraph.Mapping.{committed, process_payload}
use block_oracle.Subgraph.Mapping.Epochs.Agreement.{Readable, AllFit}
use block_oracle.Subgraph.Mapping.Epochs.GoesBack.{GoesBack}
use block_oracle.Subgraph.Mapping.Permissions.{
  is_submitter_allowed, does_submitter_have_permission, valid_entries, includes, tag_name,
}
use block_oracle.Tests.Encoding.{first_byte_digest, length-first_byte_digest}
use block_oracle.Delivery.{
  networks_of, pointer_of, MaySubmit, payload_is_committed, stale_block_is_submitted,
}
use block_oracle.Tests.Store.{mainnet, stored_network, cache, context}

-- One network, at block 20 of epoch 4, which was 5 blocks after the one before.
abbrev mainnet_network : Network
mainnet_network = record {
  id = record { chain_id = mainnet };
  array_index = 0;
  latest_block_update = some (record {
    block_number = 20;
    acceleration = pos 2;
    delta = pos 5;
    updated_at_epoch_number = 4;
  });
}

abbrev state : SubgraphState
state = record {
  last_indexed_block_number = 3;
  global_state = some (record {
    networks = mainnet_network ∷ [];
    encoding_version = pos 0;
    latest_epoch_number = some 4;
  });
  last_payload = none;
}

-- The chain's head is at a block.
abbrev head_at : ℕ → TreeMap BlockPtr
head_at number = (mainnet, record { number = number; hash = zero_hash }) ∷ []

cache-Represents : Represents cache (networks_of state)
unfolding previous_block_number get_network_epoch_block_number str_compare
cache-Represents = ((stored_network, refl, refl, refl, refl, (refl, refl), refl), refl)

may_submit : MaySubmit context cache 5
unfolding is_submitter_allowed does_submitter_have_permission valid_entries includes
    get_permission_list_entry tag_name str_compare
may_submit = record { allowed = refl; permitted = refl; current = refl; fresh = λ e. cc }

distinct : IsDistinct (networks_of state)
unfolding network_index
distinct = (refl, tt)

Readable-27 : Readable (pointer_of state (head_at 27)) (networks_of state)
unfolding ◌-ℤ◌ lookup str_compare has_id
Readable-27 = ((((omega arith, omega arith), (omega arith, omega arith)), refl), tt)

differs_27 : (pointer_of state (head_at 27) (mainnet, network_from mainnet_network)).number ≢ 20
unfolding lookup str_compare has_id
differs_27 = omega arith

payload_is_committed_example :
    (bytes : List ℕ) × (c' : StoreCache) × (set_block_numbers_for_next_epoch first_byte_digest state
        (head_at 27)
      ≡ ok bytes)
    × (process_payload context bytes cache ≡ committed c')
    × Represents c' (moved_networks (pointer_of state (head_at 27)) (networks_of state))
    × (c'.state ≡ record cache.state { latest_valid_epoch = some 5 })
payload_is_committed_example =
    payload_is_committed first_byte_digest length-first_byte_digest state (head_at 27) 0
      (mainnet, network_from mainnet_network) context cache 5 distinct (tt, tt) Readable-27 refl
      differs_27 cache-Represents may_submit

-- The same, where the chain's head is behind.
fit_15 : AllFit (pointer_of state (head_at 15)) (networks_of state)
unfolding ◌-ℤ◌ lookup str_compare has_id
fit_15 = (((omega arith, omega arith), (omega arith, omega arith)), tt)

GoesBack-15 : GoesBack (pointer_of state (head_at 15)) (networks_of state)
unfolding ◌-ℤ◌ lookup str_compare has_id
GoesBack-15 = inl refl

differs_15 : (pointer_of state (head_at 15) (mainnet, network_from mainnet_network)).number ≢ 20
unfolding lookup str_compare has_id
differs_15 = omega arith

stale_block_is_submitted_example :
    (bytes : List ℕ) × (set_block_numbers_for_next_epoch first_byte_digest state (head_at 15)
      ≡ ok bytes)
    × ((c' : StoreCache) → process_payload context bytes cache ≢ committed c')
stale_block_is_submitted_example =
    stale_block_is_submitted first_byte_digest length-first_byte_digest state (head_at 15) 0
      (mainnet, network_from mainnet_network) context cache 5 distinct (tt, tt) fit_15 GoesBack-15
      refl differs_15 cache-Represents may_submit
