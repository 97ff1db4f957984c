-- ===== src/Subgraph/Linked.antt =====
-- The subgraph's list of active networks against the networks of the encoder.
use block_oracle.Prelude.{
  ℕ, suc, ◌≡◌, refl, ap, ◌∙◌, sym, List, [], ◌∷◌, map, Option, none, some, All, length,
}
use block_oracle.Prelude.Int.{pos}
use block_oracle.Prelude.Text.{Str}
use block_oracle.Encoding.Encoder.{Networks}
use block_oracle.Encoding.Encoder as E
use block_oracle.Subgraph.Networks.{NetworkEpochBlockNumber, Agrees}
use block_oracle.Subgraph.Store.{Network, StoreCache, get_network_epoch_block_number}
use block_oracle.Subgraph.Chain.{Chain, get_active_networks-Chain}
use block_oracle.Subgraph.Active.{previous_block_number, done, get_active_networks}

-- The record of the network's latest block number agrees with the encoder, which starts from 0.
abbrev pub LatestAgrees : Option NetworkEpochBlockNumber → E.Network → Type 0
LatestAgrees none n = (n.block_number ≡ 0) × (n.block_delta ≡ pos 0)
LatestAgrees (some b) n = Agrees b n

-- A block number of the network itself.
abbrev pub IsOwn : Str → Option (ℕ × Str) → Type 0
IsOwn id none = Unit
IsOwn id (some key) = key.1 ≡ id

-- From `head` on the subgraph's list has the encoder's networks, in order and active, and agrees
-- with the encoder on the block numbers of each.
abbrev pub Linked : StoreCache → Option Str → Networks → Type 0
Linked c head [] = head ≡ none
Linked c head (n ∷ ns) =
    (s : Network) × (head ≡ some n.0)
    × (c.networks n.0 ≡ some s)
    × (s.removed_at ≡ none)
    × IsOwn n.0 s.latest_valid_block_number
    × LatestAgrees (previous_block_number s c) n.1
    × Linked c s.next_array_element ns

-- The two caches hold the same of a network.
abbrev pub SameFor : StoreCache → StoreCache → Str → Type 0
SameFor c c' id =
    (c'.networks id ≡ c.networks id) × ((e : ℕ) → c'.block_numbers e id ≡ c.block_numbers e id)

pub previous-SameFor :
    (c c' : StoreCache) (s : Network) (id : Str)
    → SameFor c c' id
    → IsOwn id s.latest_valid_block_number
    → previous_block_number s c' ≡ previous_block_number s c
unfolding previous_block_number get_network_epoch_block_number
previous-SameFor c c' s id same own = go s.latest_valid_block_number own refl
  where
    go :
        (o : Option (ℕ × Str))
        → IsOwn id o
        → s.latest_valid_block_number ≡ o
        → previous_block_number s c' ≡ previous_block_number s c
    go none h e = rw (previous_block_number, e)
    go (some (i, j)) h e = rw (previous_block_number, e, h) (same.1 i)

pub Linked-SameFor :
    (c c' : StoreCache) (head : Option Str) (ns : Networks)
    → All (λ (n : Str × E.Network). SameFor c c' n.0) ns
    → Linked c head ns
    → Linked c' head ns
Linked-SameFor c c' head [] same h = h
Linked-SameFor c c' head (n ∷ ns) same (s, at, found, active, own, agrees, rest) = (
  s,
  at,
  same.0.0 ∙ found,
  active,
  own,
  rw (previous-SameFor c c' s n.0 same.0 own) agrees,
  Linked-SameFor c c' s.next_array_element ns same.1 rest,
)

-- The subgraph's active networks are those of the encoder, in its order.
abbrev pub Represents : StoreCache → Networks → Type 0
Represents c ns =
    Linked c c.state.network_array_head ns × (c.state.active_network_count ≡ length ns)

abbrev pub ids_of : Networks → List Str
ids_of = map (λ (n : Str × E.Network). n.0)

length-ids_of : (ns : Networks) → length (ids_of ns) ≡ length ns
length-ids_of [] = refl
length-ids_of (n ∷ ns) = ap suc (length-ids_of ns)

Linked-Chain :
    (c : StoreCache) (head : Option Str) (ns : Networks)
    → Linked c head ns
    → Chain c head (ids_of ns)
Linked-Chain c head [] h = h
Linked-Chain c head (n ∷ ns) (s, here, found, active, own, agrees, link) =
    (s, here, found, active, Linked-Chain c s.next_array_element ns link)

pub get_active_networks-Represents :
    (c : StoreCache) (ns : Networks) → Represents c ns → get_active_networks c ≡ done (ids_of ns, c)
get_active_networks-Represents c ns h =
    get_active_networks-Chain c (ids_of ns) (Linked-Chain c c.state.network_array_head ns h.0)
      (h.1 ∙ sym (length-ids_of ns))
