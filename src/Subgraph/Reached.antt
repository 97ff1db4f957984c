-- ===== src/Subgraph/Reached.antt =====
-- The stores that packages/subgraph comes to, from the first one by any sequence of payloads.
use block_oracle.Prelude.{ℕ, ◌≤◌, some, length, ◌≡◌, ◌≢◌, refl, List, [], ◌∷◌}
use block_oracle.Prelude.Text.{Str}
use block_oracle.Subgraph.Store.{
  StoreCache, PermissionSet, put_permissions, put_permission_list_entry, initial_cache,
}
use block_oracle.Subgraph.Active.{done, collect_active, get_active_networks}
use block_oracle.Subgraph.Chain.{
  IsListed, IsWellFormed, collect_active-Chain, get_active_networks-Chain,
}
use block_oracle.Subgraph.Mapping.{Context, committed, out_of_fuel, process_payload}
use block_oracle.Subgraph.Mapping.Listed.Payloads.{
  process_payload-IsWellFormed, process_payload_terminates,
}

-- Payloads that are not committed leave the store as it is, so they are no steps.
pub data Reached (initial : PermissionSet) : StoreCache → Type 0 where
  created : Reached initial (initial_cache initial)
  after_payload :
      {c c' : StoreCache} (x : Context) (payload_bytes : List ℕ)
      → x.initial_permissions ≡ initial
      → Reached initial c
      → process_payload x payload_bytes c ≡ committed c'
      → Reached initial c'

put_permissions_state :
    (ps : PermissionSet) (c : StoreCache) → (put_permissions ps c).state ≡ c.state
unfolding put_permissions put_permission_list_entry
put_permissions_state [] c = refl
put_permissions_state ((id, e) ∷ ps) c = put_permissions_state ps (put_permission_list_entry id e c)

initial_cache-IsWellFormed : (initial : PermissionSet) → IsWellFormed (initial_cache initial)
unfolding initial_cache
initial_cache-IsWellFormed initial = (
  [],
  (
    rw (initial_cache, put_permissions_state) refl,
    tt,
    rw (initial_cache, put_permissions_state) refl,
  ),
)

Reached-IsWellFormed :
    (initial : PermissionSet) (c : StoreCache) → Reached initial c → IsWellFormed c
Reached-IsWellFormed initial c created = initial_cache-IsWellFormed initial
Reached-IsWellFormed initial c (after_payload {c = before} x payload_bytes same h e) =
    process_payload-IsWellFormed x payload_bytes before c (Reached-IsWellFormed initial before h) e

-- In every store that the subgraph comes to, the list of networks is in order: it has different
-- networks, none of them removed, and the state has their number. So the walk along it, with fuel for
-- the networks, ends and finds them, and the assertion on their number does not fail.
pub Reached-IsListed :
    (initial : PermissionSet) (c : StoreCache)
    → Reached initial c
    → (ids : List Str) × IsListed c ids
      × ((fuel : ℕ)
          → length ids ≤ fuel
          → collect_active fuel c.state.network_array_head c ≡ some (ids, c))
      × (get_active_networks c ≡ done (ids, c))
Reached-IsListed initial c h =
    let (ids, (chain, unique, count)) = Reached-IsWellFormed initial c h in
    (
      ids,
      (chain, unique, count),
      (λ fuel. collect_active-Chain fuel c.state.network_array_head c ids chain),
      get_active_networks-Chain c ids chain count,
    )

-- In every store that the subgraph comes to, any payload is processed to an end: the loop over its
-- blocks takes no more turns than the payload has bytes, and each walk along the list of networks, in
-- whatever a message before it has left, is at the end of the list after as many links as the state
-- counts active networks.
pub process_payload_ends :
    (initial : PermissionSet) (c : StoreCache)
    → Reached initial c
    → (x : Context) (payload_bytes : List ℕ) → process_payload x payload_bytes c ≢ out_of_fuel
process_payload_ends initial c h x payload_bytes =
    process_payload_terminates x payload_bytes c (Reached-IsWellFormed initial c h)
