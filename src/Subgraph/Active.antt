-- ===== src/Subgraph/Active.antt =====
-- `getActiveNetworks`, `nextEpochId` and `createOrUpdateNetworkEpochBlockNumber` of
-- packages/subgraph/src/helpers.ts, on the entities of the cache.
use block_oracle.Prelude.{
  ℕ, zero, suc, Bool, true, false, List, [], ◌∷◌, Option, none, some, length, ◌==◌, if◌then◌else◌,
}
use block_oracle.Prelude.Int.{ℤ}
use block_oracle.Prelude.Text.{Str}
use block_oracle.Subgraph.Decoding.{BytesReader}
use block_oracle.Subgraph.Networks.{NetworkEpochBlockNumber, next_block_number}
use block_oracle.Subgraph.Store.{
  Network, StoreCache, get_network, put_network, is_none, get_network_epoch_block_number,
  put_block_number,
}

-- `reader.fail(reason)`
abbrev pub fail : BytesReader → BytesReader
fail r = record r { ok = false }

abbrev cons_if : Bool → Str → List Str → List Str
cons_if true id ids = id ∷ ids
cons_if false id ids = ids

-- The loop along the list from `next_id`; `none` where `fuel` links do not reach its end.
unfoldable pub collect_active : ℕ → Option Str → StoreCache → Option (List Str × StoreCache)
collect_active fuel none c = some ([], c)
collect_active zero (some id) c = none
collect_active (suc fuel) (some id) c =
    let (network, c') = get_network id c in
    elim (collect_active fuel network.next_array_element c') [
      | none ↦ none
      | some (ids, c'') ↦ some (cons_if (is_none network.removed_at) id ids, c'')
    ]

-- How a handler ends.
pub data Run (A : Type 0) : Type 0 where
  done : A → Run A
  -- AssemblyScript aborts.
  trapped : Run A
  -- A walk along the list of networks is not at its end after as many links as there is fuel.
  endless : Run A

-- The identifiers of the active networks, in order; it aborts where the assertion on their number
-- fails. The number of active networks is the fuel.
unfoldable pub get_active_networks : StoreCache → Run (List Str × StoreCache)
unfolding collect_active
get_active_networks c =
    elim (collect_active c.state.active_network_count c.state.network_array_head c) [
      | none ↦ endless
      | some (ids, c') ↦
          if length ids == c.state.active_network_count then done (ids, c') else trapped
    ]

abbrev is_epoch : Option ℕ → ℕ → Bool
is_epoch none e = false
is_epoch (some l) e = e == l

-- `response` is the answer of the contract EpochManager, `none` where the call reverts.
unfoldable pub next_epoch_id : Option ℕ → Option ℕ → BytesReader → ℕ × BytesReader
next_epoch_id none latest_valid_epoch r = (0, fail r)
next_epoch_id (some e) latest_valid_epoch r =
    (e, if is_epoch latest_valid_epoch e then fail r else r)

-- The record of a network's latest valid block number, if there is one.
unfoldable pub previous_block_number : Network → StoreCache → Option NetworkEpochBlockNumber
unfolding get_network_epoch_block_number
previous_block_number n c = elim n.latest_valid_block_number [
  | none ↦ none
  | some key ↦ get_network_epoch_block_number key c
]

unfoldable pub create_or_update_block_number :
    Str → ℕ → ℤ → StoreCache → NetworkEpochBlockNumber × StoreCache
unfolding get_network put_network put_block_number previous_block_number
create_or_update_block_number id epoch_id acceleration c =
    let (network, c') = get_network id c in
    let block_number = next_block_number (previous_block_number network c') acceleration in
    (
      block_number,
      put_network id (record network { latest_valid_block_number = some (epoch_id, id) })
          (put_block_number epoch_id id block_number c'),
    )
