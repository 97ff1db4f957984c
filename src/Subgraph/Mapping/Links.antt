-- ===== src/Subgraph/Mapping/Links.antt =====
-- `commitNetworkChanges` and `wipeNetworkList` of packages/subgraph/src/helpers.ts: the linked list.
use block_oracle.Prelude.{ℕ, ◌+◌, List, [], ◌∷◌, Option, none, some, length}
use block_oracle.Prelude.Text.{Str}
use block_oracle.Subgraph.Store.{MessageId, Network, StoreCache, get_network, put_network}

abbrev pub cleared : MessageId → Network → Network
cleared message n = record n {
  next_array_element = none;
  array_index = none;
  removed_at = some message;
  last_updated_at = some message;
}

unfoldable pub clear_networks : MessageId → (Network → Network) → List Str → StoreCache → StoreCache
clear_networks message f [] c = c
clear_networks message f (id ∷ ids) c =
    let (network, c') = get_network id c in
    clear_networks message f ids (put_network id (f (cleared message network)) c')

abbrev pub head : List Str → Option Str
head [] = none
head (id ∷ ids) = some id

-- The list is linked again, from the index `k` on.
unfoldable pub link_networks : MessageId → ℕ → List Str → StoreCache → StoreCache
link_networks message k [] c = c
link_networks message k (id ∷ ids) c =
    let (network, c') = get_network id c in
    link_networks message (k + 1) ids (
      put_network id
        (record network {
          next_array_element = head ids;
          array_index = some k;
          last_updated_at = some message;
        })
        c')

unfoldable pub commit_network_changes : List Str → List Str → MessageId → StoreCache → StoreCache
unfolding clear_networks link_networks
commit_network_changes removed networks message c =
    let c' = link_networks message 0 networks (clear_networks message (λ n. n) removed c) in
    record c' {
      state = record c'.state {
        network_array_head = head networks;
        active_network_count = length networks;
      };
    }

-- `wipeNetworkList` also forgets the block numbers.
unfoldable pub wipe_network_list : MessageId → List Str → StoreCache → StoreCache
unfolding clear_networks
wipe_network_list message networks c =
    clear_networks message (λ n. record n { latest_valid_block_number = none }) networks c
