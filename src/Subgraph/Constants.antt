-- ===== src/Subgraph/Constants.antt =====
-- packages/subgraph/src/constants.ts: who may submit what at first, and the aliases that are known
-- beforehand.
use block_oracle.Prelude.{ℕ, List, [], ◌∷◌, if◌then◌else◌}
use block_oracle.Prelude.Text.{Str, str_eq, bytes_of}
use block_oracle.Subgraph.Store.{PermissionListEntry, PermissionSet}

abbrev block_number_tags : List Str
block_number_tags =
    bytes_of "SetBlockNumbersForEpochMessage"
    ∷ bytes_of "CorrectEpochsMessage"
    ∷ bytes_of "ResetStateMessage"
    ∷ []

abbrev owner_tags : List Str
owner_tags =
    bytes_of "UpdateVersionsMessage"
    ∷ bytes_of "RegisterNetworksMessage"
    ∷ bytes_of "RegisterNetworksAndAliasesMessage"
    ∷ bytes_of "ChangePermissionsMessage"
    ∷ []

abbrev entry : ℕ → List Str → PermissionListEntry
entry valid_through permissions = record {
  permissions = permissions;
  valid_through = valid_through;
}

-- `INITIAL_PERMISSION_SET`
abbrev pub initial_permission_set : PermissionSet
initial_permission_set =
    (bytes_of "0x881355f34b1c4c8e02ed6b20d16d4bf2c35f5d07", entry 67713000 block_number_tags)
    ∷ (bytes_of "0x3e4470ac38a67a81b5d855aaef8936d45afafa88", entry 97000000 block_number_tags)
    ∷ (bytes_of "0x5f49491e965895ded343af13389ee45ef60ed793", entry 0 block_number_tags)
    ∷ (bytes_of "0x8c6de8f8d562f3382417340a6994601ee08d3809", entry 0 owner_tags)
    ∷ []

-- `PRELOADED_ALIASES`
abbrev pub preloaded_aliases : List (Str × Str)
preloaded_aliases =
    (bytes_of "bip122:000000000019d6689c085ae165831e93", bytes_of "btc")
    ∷ (bytes_of "eip155:1", bytes_of "mainnet")
    ∷ (bytes_of "eip155:5", bytes_of "goerli")
    ∷ (bytes_of "eip155:10", bytes_of "optimism")
    ∷ (bytes_of "eip155:56", bytes_of "bsc")
    ∷ (bytes_of "eip155:97", bytes_of "chapel")
    ∷ (bytes_of "eip155:99", bytes_of "poa-core")
    ∷ (bytes_of "eip155:100", bytes_of "gnosis")
    ∷ (bytes_of "eip155:122", bytes_of "fuse")
    ∷ (bytes_of "eip155:137", bytes_of "matic")
    ∷ (bytes_of "eip155:250", bytes_of "fantom")
    ∷ (bytes_of "eip155:280", bytes_of "zksync-era-testnet")
    ∷ (bytes_of "eip155:288", bytes_of "boba")
    ∷ (bytes_of "eip155:1023", bytes_of "clover")
    ∷ (bytes_of "eip155:1284", bytes_of "moonbeam")
    ∷ (bytes_of "eip155:1285", bytes_of "moonriver")
    ∷ (bytes_of "eip155:1287", bytes_of "mbase")
    ∷ (bytes_of "eip155:4002", bytes_of "fantom-testnet")
    ∷ (bytes_of "eip155:42161", bytes_of "arbitrum-one")
    ∷ (bytes_of "eip155:42220", bytes_of "celo")
    ∷ (bytes_of "eip155:43113", bytes_of "fuji")
    ∷ (bytes_of "eip155:43114", bytes_of "avalanche")
    ∷ (bytes_of "eip155:44787", bytes_of "celo-alfajores")
    ∷ (bytes_of "eip155:80001", bytes_of "mumbai")
    ∷ (bytes_of "eip155:17000", bytes_of "holesky")
    ∷ (bytes_of "eip155:1313161554", bytes_of "aurora")
    ∷ (bytes_of "eip155:1313161555", bytes_of "aurora-testnet")
    ∷ (bytes_of "eip155:1666600000", bytes_of "harmony")
    ∷ (bytes_of "eip155:84532", bytes_of "base-sepolia")
    ∷ (bytes_of "eip155:300", bytes_of "zksync-era-sepolia")
    ∷ (bytes_of "eip155:1101", bytes_of "polygon-zkevm")
    ∷ (bytes_of "eip155:324", bytes_of "zksync-era")
    ∷ (bytes_of "eip155:11155111", bytes_of "sepolia")
    ∷ (bytes_of "eip155:421613", bytes_of "arbitrum-goerli")
    ∷ (bytes_of "eip155:421614", bytes_of "arbitrum-sepolia")
    ∷ (bytes_of "eip155:1442", bytes_of "polygon-zkevm-testnet")
    ∷ (bytes_of "eip155:59144", bytes_of "linea")
    ∷ (bytes_of "eip155:59140", bytes_of "linea-goerli")
    ∷ (bytes_of "eip155:8453", bytes_of "base")
    ∷ (bytes_of "eip155:534351", bytes_of "scroll-sepolia")
    ∷ (bytes_of "eip155:534352", bytes_of "scroll")
    ∷ (bytes_of "eip155:12611", bytes_of "astar-zkevm-sepolia")
    ∷ (bytes_of "eip155:81457", bytes_of "blast-mainnet")
    ∷ (bytes_of "eip155:3776", bytes_of "astar-zkevm-mainnet")
    ∷ (bytes_of "eip155:713715", bytes_of "sei-testnet")
    ∷ (bytes_of "eip155:168587773", bytes_of "blast-testnet")
    ∷ []

unfoldable pub alias_among : List (Str × Str) → Str → Str
alias_among [] id = []
alias_among ((known, alias) ∷ rest) id = if str_eq known id then alias else alias_among rest id

-- The alias of a network that is registered without one.
abbrev pub alias_of : Str → Str
alias_of id = alias_among preloaded_aliases id
