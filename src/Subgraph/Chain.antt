-- ===== src/Subgraph/Chain.antt =====
-- The linked list of active networks in the store of packages/subgraph, and `getActiveNetworks` of
-- helpers.ts on it.
use block_oracle.Prelude.{
  ℕ, zero, suc, ◌≤◌, ◌≡◌, ◌≢◌, sym, List, [], ◌∷◌, Option, none, some, arith, All, length, ==_iff,
}
use block_oracle.Prelude.Text.{Str}
use block_oracle.Subgraph.Store.{Network, StoreCache, get_network}
use block_oracle.Subgraph.Active.{done, collect_active, get_active_networks}

-- From `head` on the list has these networks, and none of them was removed.
abbrev pub Chain : StoreCache → Option Str → List Str → Type 0
Chain c head [] = head ≡ none
Chain c head (id ∷ ids) =
    (s : Network) × (head ≡ some id)
    × (c.networks id ≡ some s)
    × (s.removed_at ≡ none)
    × Chain c s.next_array_element ids

abbrev pub IsOther : Str → List Str → Type 0
IsOther id ids = All (λ (j : Str). j ≢ id) ids

abbrev pub IsUnique : List Str → Type 0
IsUnique [] = Unit
IsUnique (id ∷ ids) = IsOther id ids × IsUnique ids

-- The list that the state points to has these networks, each once, and the state has their number.
abbrev pub IsListed : StoreCache → List Str → Type 0
IsListed c ids =
    Chain c c.state.network_array_head ids
    × IsUnique ids
    × (c.state.active_network_count ≡ length ids)

abbrev pub IsWellFormed : StoreCache → Type 0
IsWellFormed c = (ids : List Str) × IsListed c ids

pub get_network-found :
    (id : Str) (c : StoreCache) (s : Network) → c.networks id ≡ some s → get_network id c ≡ (s, c)
unfolding get_network
get_network-found id c s h = rw (get_network, h)

-- Fuel for every network is enough to walk along the list.
pub collect_active-Chain :
    (fuel : ℕ) (head : Option Str) (c : StoreCache) (ids : List Str)
    → Chain c head ids
    → length ids ≤ fuel
    → collect_active fuel head c ≡ some (ids, c)
unfolding collect_active
collect_active-Chain fuel head c [] h enough = rw (h, collect_active)
collect_active-Chain zero head c (id ∷ ids) h enough = absurd (omega arith)
collect_active-Chain (suc fuel) head c (id ∷ ids) (s, here, found, active, link) enough = rw (
  here,
  collect_active,
  get_network-found id c s found,
  collect_active-Chain fuel s.next_array_element c ids link (omega arith),
  get_network-found id c s found,
  active,
)

-- The walk along a list with its number of networks ends, and finds them.
pub get_active_networks-Chain :
    (c : StoreCache) (ids : List Str)
    → Chain c c.state.network_array_head ids
    → c.state.active_network_count ≡ length ids
    → get_active_networks c ≡ done (ids, c)
unfolding get_active_networks
get_active_networks-Chain c ids h count = rw (
  get_active_networks,
  collect_active-Chain c.state.active_network_count c.state.network_array_head c ids h
      (omega (arith, count)),
  (==_iff (length ids) c.state.active_network_count).1 (sym count),
)
