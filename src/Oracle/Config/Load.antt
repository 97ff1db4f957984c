-- ===== src/Oracle/Config/Load.antt =====
-- crates/oracle/src/config.rs: `Config`, as `Config::parse` makes it from what the file system and the
-- crate `toml` answer.
use block_oracle.Prelude.{ℕ, List, [], ◌∷◌, Option, none, some}
use block_oracle.Prelude.Outcome.{Outcome, ok, ◌>>=◌, unwrap}
use block_oracle.Prelude.Text.{Str}
use block_oracle.Oracle.ChainId.{Caip2ChainId}
use block_oracle.Oracle.Monitor.{TransactionMonitoringOptions}
use block_oracle.Oracle.Config.{ConfigError, Environment}
use block_oracle.Oracle.Config.Table.{ConfigTable, Formats, ConfigFile, deserialize}

pub record IndexedChain (Url : Type 0) : Type 0 where
  pub id : Caip2ChainId
  pub jrpc_url : Url

pub record BlockmetaIndexedChain : Type 0 where
  pub id : Caip2ChainId
  pub url : Str

pub record ProtocolChain (Url : Type 0) : Type 0 where
  pub id : Caip2ChainId
  pub jrpc_url : Url
  pub polling_interval : ℕ

pub record Config (H160 Url SecretKey LevelFilter : Type 0) : Type 0 where
  pub log_level : LevelFilter
  pub owner_private_key : SecretKey
  pub data_edge_address : H160
  pub epoch_manager_address : H160
  pub subgraph_url : Url
  pub bearer_token : Str
  pub owner_address : H160
  pub indexed_chains : List (IndexedChain Url)
  pub blockmeta_indexed_chains : List BlockmetaIndexedChain
  pub freshness_threshold : ℕ
  pub protocol_chain : ProtocolChain Url
  pub retry_strategy_max_wait_time : ℕ
  pub metrics_port : ℕ
  pub transaction_monitoring_options : TransactionMonitoringOptions
  pub blockmeta_auth_token : Str

unfoldable pub indexed_chains_of :
    {Url : Type 0} → List (Caip2ChainId × Url) → List (IndexedChain Url)
indexed_chains_of [] = []
indexed_chains_of ((id, provider) ∷ entries) =
    record { id = id; jrpc_url = provider } ∷ indexed_chains_of entries

unfoldable pub blockmeta_chains_of : List (Caip2ChainId × Str) → List BlockmetaIndexedChain
blockmeta_chains_of [] = []
blockmeta_chains_of ((id, provider) ∷ entries) =
    record { id = id; url = provider } ∷ blockmeta_chains_of entries

abbrev pub unwrap_or_default : {A : Type 0} → Option (List A) → List A
unwrap_or_default none = []
unwrap_or_default (some xs) = xs

module _ {H160 Url SecretKey LevelFilter : Type 0} where
  unfoldable pub from_config_file :
      ConfigFile H160 Url SecretKey LevelFilter → Config H160 Url SecretKey LevelFilter
  unfolding indexed_chains_of blockmeta_chains_of
  from_config_file file = record {
    log_level = file.log_level;
    owner_private_key = file.owner_private_key;
    data_edge_address = file.data_edge_address;
    epoch_manager_address = file.epoch_manager_address;
    subgraph_url = file.subgraph_url;
    bearer_token = file.bearer_token;
    freshness_threshold = file.freshness_threshold;
    owner_address = file.owner_address;
    retry_strategy_max_wait_time = file.web3_transport_retry_max_wait_time_in_seconds;
    indexed_chains = indexed_chains_of file.indexed_chains;
    blockmeta_indexed_chains =
        blockmeta_chains_of (unwrap_or_default file.blockmeta_indexed_chains);
    protocol_chain = record {
      id = file.protocol_chain.name;
      jrpc_url = file.protocol_chain.jrpc;
      polling_interval = file.protocol_chain.polling_interval_in_seconds;
    };
    metrics_port = file.metrics_port;
    transaction_monitoring_options = file.transaction_monitoring_options;
    blockmeta_auth_token = file.blockmeta_auth_token;
  }

  module _ (env : Environment) (f : Formats H160 Url SecretKey LevelFilter) where
    -- `contents` is the file's table, or the error of reading it or of parsing its text.
    unfoldable pub from_file :
        Outcome ConfigError ConfigTable
        → Outcome ConfigError (ConfigFile H160 Url SecretKey LevelFilter)
    from_file contents = contents >>= deserialize env f

    unfoldable pub parse :
        {E : Type 0}
        → Outcome ConfigError ConfigTable
        → Outcome E (Config H160 Url SecretKey LevelFilter)
    unfolding from_file from_config_file
    parse contents = unwrap (from_file contents) >>= λ file. ok (from_config_file file)
