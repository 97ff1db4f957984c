-- ===== src/Subgraph/Store.antt =====
-- packages/subgraph/src/store-cache.ts: the entities that a payload's messages read and write.
-- The cache reads through to graph-node's store, and every entity that it holds is saved at the end,
-- so one value stands for both: a function from identifiers to entities. Entities are shared by
-- reference in the source; here they are named by their identifiers and looked up where they are used.
-- Left out are the entities that only keep a record of messages, but for those of new epochs, and
-- links that only queries follow.
use block_oracle.Prelude.{
  ℕ, Bool, true, false, List, [], ◌∷◌, Option, none, some, ◌==◌, if◌then◌else◌,
}
use block_oracle.Prelude.Int.{ℤ, pos}
use block_oracle.Prelude.Text.{Str, str_eq}
use block_oracle.Subgraph.Networks.{NetworkEpochBlockNumber}

-- `[payloadId, block, message].join("-")`
abbrev pub MessageId : Type 0
MessageId = Str × ℕ × ℕ

pub record Network : Type 0 where
  pub alias : Str
  pub next_array_element : Option Str
  pub array_index : Option ℕ
  pub added_at : Option MessageId
  pub removed_at : Option MessageId
  pub last_updated_at : Option MessageId
  -- The identifier is `[epoch, network].join("-")`.
  pub latest_valid_block_number : Option (ℕ × Str)

-- `new Network(id)`
abbrev pub new_network : Network
new_network = record {
  alias = [];
  next_array_element = none;
  array_index = none;
  added_at = none;
  removed_at = none;
  last_updated_at = none;
  latest_valid_block_number = none;
}

pub record PermissionListEntry : Type 0 where
  -- Names of message tags.
  pub permissions : List Str
  pub valid_through : ℕ

pub record GlobalState : Type 0 where
  pub network_array_head : Option Str
  pub active_network_count : ℕ
  pub network_count : ℤ
  pub latest_valid_epoch : Option ℕ
  pub encoding_version : ℕ
  pub permission_list : List Str

pub record SetBlockNumbersForEpochMessage : Type 0 where
  pub merkle_root : List ℕ
  pub accelerations : List ℤ

pub record StoreCache : Type 0 where
  pub state : GlobalState
  pub networks : Str → Option Network
  pub epochs : ℕ → Bool
  pub block_numbers : ℕ → Str → Option NetworkEpochBlockNumber
  pub permission_entries : Str → Option PermissionListEntry
  pub set_block_numbers_messages : List SetBlockNumbersForEpochMessage

-- A map with one more entry.
abbrev pub put {ℓ} : {V : Type ℓ} → Str → V → (Str → Option V) → Str → Option V
put k v f j = if str_eq j k then some v else f j

unfoldable pub put_network : Str → Network → StoreCache → StoreCache
put_network id n c = record c { networks = put id n c.networks }

-- A network that is not there is made, and stays in the cache.
unfoldable pub get_network : Str → StoreCache → Network × StoreCache
unfolding put_network
get_network id c = elim (c.networks id) [
  | some n ↦ (n, c)
  | none ↦ (new_network, put_network id new_network c)
]

abbrev pub is_some {ℓ} : {A : Type ℓ} → Option A → Bool
is_some none = false
is_some (some a) = true

abbrev pub is_none {ℓ} : {A : Type ℓ} → Option A → Bool
is_none none = true
is_none (some a) = false

unfoldable pub is_network_already_registered : Str → StoreCache → Bool
is_network_already_registered id c = elim (c.networks id) [
  | none ↦ false
  | some n ↦ is_none n.removed_at
]

-- Whether the epoch was there before does not matter: its only field is its number.
unfoldable pub get_epoch : ℕ → StoreCache → StoreCache
get_epoch e c = record c { epochs = λ i. if i == e then true else c.epochs i }

unfoldable pub get_network_epoch_block_number :
    ℕ × Str → StoreCache → Option NetworkEpochBlockNumber
get_network_epoch_block_number (e, id) c = c.block_numbers e id

unfoldable pub put_block_number : ℕ → Str → NetworkEpochBlockNumber → StoreCache → StoreCache
put_block_number e id b c = record c {
  block_numbers = λ i. if i == e then put id b (c.block_numbers i) else c.block_numbers i;
}

abbrev pub new_permission_list_entry : PermissionListEntry
new_permission_list_entry = record { permissions = []; valid_through = 0 }

-- The blank entry that the cache keeps of a missing one reads as the missing one does.
unfoldable pub get_permission_list_entry : Str → StoreCache → PermissionListEntry
get_permission_list_entry id c = elim (c.permission_entries id) [
  | some e ↦ e
  | none ↦ new_permission_list_entry
]

unfoldable pub put_permission_list_entry : Str → PermissionListEntry → StoreCache → StoreCache
put_permission_list_entry id e c = record c { permission_entries = put id e c.permission_entries }

-- `INITIAL_PERMISSION_SET`, in its order.
abbrev pub PermissionSet : Type 0
PermissionSet = List (Str × PermissionListEntry)

abbrev pub keys : PermissionSet → List Str
keys [] = []
keys ((id, e) ∷ ps) = id ∷ keys ps

unfoldable pub put_permissions : PermissionSet → StoreCache → StoreCache
unfolding put_permission_list_entry
put_permissions [] c = c
put_permissions ((id, e) ∷ ps) c = put_permissions ps (put_permission_list_entry id e c)

-- `resetGlobalState`
unfoldable pub reset_global_state : PermissionSet → StoreCache → StoreCache
unfolding put_permissions
reset_global_state initial c = record (put_permissions initial c) {
  state = record {
    network_array_head = none;
    active_network_count = 0;
    network_count = pos 0;
    latest_valid_epoch = none;
    encoding_version = 0;
    permission_list = keys initial;
  };
}

-- The constructor of the cache, where the store has no state yet: the first entities.
unfoldable pub initial_cache : PermissionSet → StoreCache
unfolding put_permissions
initial_cache initial = put_permissions initial (record {
  state = record {
    network_array_head = none;
    active_network_count = 0;
    network_count = pos 0;
    latest_valid_epoch = none;
    encoding_version = 0;
    permission_list = keys initial;
  };
  networks = λ id. none;
  epochs = λ e. false;
  block_numbers = λ e id. none;
  permission_entries = λ id. none;
  set_block_numbers_messages = [];
})
