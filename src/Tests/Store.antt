-- ===== src/Tests/Store.antt =====
-- A store of packages/subgraph with one network and one submitter, for the tests.
use block_oracle.Prelude.{false, [], ◌∷◌, none, some}
use block_oracle.Prelude.Int.{pos}
use block_oracle.Prelude.Text.{Str, bytes_of}
use block_oracle.Subgraph.Store as Store
use block_oracle.Subgraph.Store.{
  PermissionListEntry, StoreCache, put, get_network_epoch_block_number, get_permission_list_entry,
  get_network, put_network,
}
use block_oracle.Subgraph.Constants.{initial_permission_set, alias_of}
use block_oracle.Subgraph.Mapping.{Context}

abbrev pub mainnet : Str
mainnet = bytes_of "eip155:1"

-- The same network in the store, with a submitter of block numbers.
abbrev pub oracle_address : Str
oracle_address = bytes_of "0x5f49491e965895ded343af13389ee45ef60ed793"

abbrev pub stored_network : Store.Network
stored_network = record Store.new_network { latest_valid_block_number = some (4, mainnet) }

abbrev pub cache : StoreCache
cache = record {
  state = record {
    network_array_head = some mainnet;
    active_network_count = 1;
    network_count = pos 1;
    latest_valid_epoch = some 4;
    encoding_version = 0;
    permission_list = oracle_address ∷ [];
  };
  networks = put mainnet stored_network (λ id. none);
  epochs = λ e. false;
  block_numbers =
      λ e id. some (record { block_number = pos 20; delta = pos 5; acceleration = pos 2 });
  permission_entries =
      put oracle_address
        (record { permissions = bytes_of "SetBlockNumbersForEpochMessage" ∷ []; valid_through = 0 })
        (λ id. none);
  set_block_numbers_messages = [];
}

abbrev pub context : Context
context = record {
  submitter = oracle_address;
  payload_id = bytes_of "0x01";
  block_number = 1000;
  current_epoch = some 5;
  aliases = alias_of;
  initial_permissions = initial_permission_set;
}
