-- ===== src/Oracle/Config/Table.antt =====
-- crates/oracle/src/config.rs: what serde derives for the tables of the configuration file.
use block_oracle.Prelude.{ℕ, List, [], ◌∷◌, Option, none, some}
use block_oracle.Prelude.Int.{ℤ}
use block_oracle.Prelude.Outcome.{Outcome, ok, ◌>>=◌, map_err}
use block_oracle.Prelude.Text.{Str}
use block_oracle.Oracle.ChainId.{Caip2ChainId, from_str}
use block_oracle.Oracle.Monitor.{TransactionMonitoringOptions, default_options}
use block_oracle.Oracle.Config.{
  freshness_threshold, protocol_chain_polling_interval_in_seconds,
  web3_transport_retry_max_wait_time_in_seconds, metrics_port, Environment, any_text,
  either_literal_or_env_var, from_str_wrapper, required, or_default, unsigned, optional_u64,
  ConfigError, toml,
}

pub record OptionsTable : Type 0 where
  pub confirmation_timeout_in_seconds : Option ℤ
  pub max_retries : Option ℤ
  pub gas_percentual_increase : Option ℤ
  pub poll_interval_in_seconds : Option ℤ
  pub confirmations : Option ℤ
  pub gas_limit : Option ℤ
  pub max_fee_per_gas : Option ℤ
  pub max_priority_fee_per_gas : Option ℤ

-- `TransactionMonitoringOptions::deserialize`; `usize` has 64 bits.
unfoldable pub deserialize_options : OptionsTable → Outcome ConfigError TransactionMonitoringOptions
unfolding unsigned
deserialize_options t = do
  timeout ← or_default (unsigned 64) 120 t.confirmation_timeout_in_seconds
  retries ← or_default (unsigned 32) 10 t.max_retries
  increase ← or_default (unsigned 32) 50 t.gas_percentual_increase
  interval ← or_default (unsigned 64) 5 t.poll_interval_in_seconds
  depth ← or_default (unsigned 64) 2 t.confirmations
  limit ← or_default (unsigned 64) 100000 t.gas_limit
  fee ← or_default optional_u64 none t.max_fee_per_gas
  priority_fee ← or_default optional_u64 none t.max_priority_fee_per_gas
  ok (record {
    confirmation_timeout_in_seconds = timeout;
    max_retries = retries;
    gas_percentual_increase = increase;
    poll_interval_in_seconds = interval;
    confirmations = depth;
    gas_limit = limit;
    max_fee_per_gas = fee;
    max_priority_fee_per_gas = priority_fee;
  })

pub record ProtocolTable : Type 0 where
  pub name : Option Str
  pub jrpc : Option Str
  pub polling_interval_in_seconds : Option ℤ

pub record ConfigTable : Type 0 where
  pub owner_address : Option Str
  pub owner_private_key : Option Str
  pub data_edge_address : Option Str
  pub epoch_manager_address : Option Str
  pub subgraph_url : Option Str
  pub bearer_token : Option Str
  pub freshness_threshold : Option ℤ
  pub web3_transport_retry_max_wait_time_in_seconds : Option ℤ
  pub log_level : Option Str
  pub protocol_chain : Option ProtocolTable
  pub indexed_chains : Option (List (Str × Str))
  pub blockmeta_indexed_chains : Option (List (Str × Str))
  pub metrics_port : Option ℤ
  pub transaction_monitoring : Option OptionsTable
  pub blockmeta_auth_token : Option Str

abbrev pub parse_chain_id : Str → Outcome ConfigError Caip2ChainId
parse_chain_id s = map_err (λ e. toml) (from_str s)

pub record Formats (H160 Url SecretKey LevelFilter : Type 0) : Type 0 where
  pub parse_address : Str → Option H160
  pub parse_url : Str → Option Url
  pub parse_key : Str → Option SecretKey
  pub parse_level : Str → Option LevelFilter
  pub info : LevelFilter

pub record SerdeProtocolChain (Url : Type 0) : Type 0 where
  pub name : Caip2ChainId
  pub jrpc : Url
  pub polling_interval_in_seconds : ℕ

pub record ConfigFile (H160 Url SecretKey LevelFilter : Type 0) : Type 0 where
  pub owner_address : H160
  pub owner_private_key : SecretKey
  pub data_edge_address : H160
  pub epoch_manager_address : H160
  pub subgraph_url : Url
  pub bearer_token : Str
  pub freshness_threshold : ℕ
  pub web3_transport_retry_max_wait_time_in_seconds : ℕ
  pub log_level : LevelFilter
  pub protocol_chain : SerdeProtocolChain Url
  pub indexed_chains : List (Caip2ChainId × Url)
  pub blockmeta_indexed_chains : Option (List (Caip2ChainId × Str))
  pub metrics_port : ℕ
  pub transaction_monitoring_options : TransactionMonitoringOptions
  pub blockmeta_auth_token : Str

module _ (env : Environment) where
  -- A map from chains to values, in the order of the table.
  unfoldable pub deserialize_chains :
      {T : Type 0}
      → (Str → Option T)
      → List (Str × Str)
      → Outcome ConfigError (List (Caip2ChainId × T))
  unfolding either_literal_or_env_var
  deserialize_chains parse [] = ok []
  deserialize_chains parse ((key, value) ∷ entries) = do
    id ← parse_chain_id key
    provider ← either_literal_or_env_var env parse value
    rest ← deserialize_chains parse entries
    ok ((id, provider) ∷ rest)

  unfoldable pub deserialize_protocol_chain :
      {Url : Type 0}
      → (Str → Option Url)
      → ProtocolTable
      → Outcome ConfigError (SerdeProtocolChain Url)
  unfolding either_literal_or_env_var unsigned
  deserialize_protocol_chain parse t = do
    name ← required parse_chain_id t.name
    jrpc ← required (either_literal_or_env_var env parse) t.jrpc
    interval ←
        or_default (unsigned 64) protocol_chain_polling_interval_in_seconds
          t.polling_interval_in_seconds
    ok (record { name = name; jrpc = jrpc; polling_interval_in_seconds = interval })

  module _ {H160 Url SecretKey LevelFilter : Type 0}
      (f : Formats H160 Url SecretKey LevelFilter) where
    -- `ConfigFile::deserialize`
    unfoldable pub deserialize :
        ConfigTable → Outcome ConfigError (ConfigFile H160 Url SecretKey LevelFilter)
    unfolding either_literal_or_env_var unsigned deserialize_options deserialize_chains
        deserialize_protocol_chain
    deserialize t = do
      owner ← required (from_str_wrapper f.parse_address) t.owner_address
      key ← required (either_literal_or_env_var env f.parse_key) t.owner_private_key
      data_edge ← required (either_literal_or_env_var env f.parse_address) t.data_edge_address
      manager ← required (either_literal_or_env_var env f.parse_address) t.epoch_manager_address
      subgraph ← required (either_literal_or_env_var env f.parse_url) t.subgraph_url
      bearer ← required (either_literal_or_env_var env any_text) t.bearer_token
      threshold ← or_default (unsigned 64) freshness_threshold t.freshness_threshold
      max_wait ←
          or_default (unsigned 64) web3_transport_retry_max_wait_time_in_seconds
            t.web3_transport_retry_max_wait_time_in_seconds
      level ← or_default (from_str_wrapper f.parse_level) f.info t.log_level
      protocol ← required (deserialize_protocol_chain f.parse_url) t.protocol_chain
      chains ← required (deserialize_chains f.parse_url) t.indexed_chains
      blockmeta_chains ←
          or_default (λ entries. deserialize_chains any_text entries >>= λ cs. ok (some cs)) none
            t.blockmeta_indexed_chains
      port ← or_default (unsigned 16) metrics_port t.metrics_port
      options ← or_default deserialize_options default_options t.transaction_monitoring
      auth ← required (either_literal_or_env_var env any_text) t.blockmeta_auth_token
      ok (record {
        owner_address = owner;
        owner_private_key = key;
        data_edge_address = data_edge;
        epoch_manager_address = manager;
        subgraph_url = subgraph;
        bearer_token = bearer;
        freshness_threshold = threshold;
        web3_transport_retry_max_wait_time_in_seconds = max_wait;
        log_level = level;
        protocol_chain = protocol;
        indexed_chains = chains;
        blockmeta_indexed_chains = blockmeta_chains;
        metrics_port = port;
        transaction_monitoring_options = options;
        blockmeta_auth_token = auth;
      })
