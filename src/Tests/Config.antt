-- ===== src/Tests/Config.antt =====
-- crates/oracle/src/config.rs: an instance of the theorem on variables, and defaults.
use block_oracle.Prelude.{ℕ, ◌≡◌, ◌≢◌, arith, refl, [], ◌∷◌, none, some, if◌then◌else◌}
use block_oracle.Prelude.Int.{pos, negsuc}
use block_oracle.Prelude.Outcome.{ok, err}
use block_oracle.Prelude.Text.{Str, bytes_of, str_eq, str_compare}
use block_oracle.Oracle.Monitor.{default_options}
use block_oracle.Oracle.Config.{toml, Environment, any_text, unsigned}
use block_oracle.Oracle.Config.Table.{OptionsTable, ConfigTable, Formats, deserialize_options}
use block_oracle.Oracle.Config.Load.{parse}
use block_oracle.Oracle.Config.Environment.{
  IsLiteral, StandsFor, literal, variable, TableStandsFor, parse_expanded,
}

abbrev no_options : OptionsTable
no_options = record {
  confirmation_timeout_in_seconds = none;
  max_retries = none;
  gas_percentual_increase = none;
  poll_interval_in_seconds = none;
  confirmations = none;
  gas_limit = none;
  max_fee_per_gas = none;
  max_priority_fee_per_gas = none;
}

-- An empty table gives `TransactionMonitoringOptions::default()`.
defaults : deserialize_options no_options ≡ ok default_options
unfolding deserialize_options
defaults = refl

negative_retries :
    deserialize_options (record no_options { max_retries = some (negsuc 0) }) ≡ err toml
unfolding deserialize_options unsigned
negative_retries = refl

-- Two variables are set.
abbrev two_variables : Environment
two_variables name =
    if str_eq name (bytes_of "TOKEN")
    then some (bytes_of "secret")
    else if str_eq name (bytes_of "KEY")
    then some (bytes_of "0x05")
    else none

abbrev formats : Formats Str Str Str ℕ
formats = record {
  parse_address = any_text;
  parse_url = any_text;
  parse_key = any_text;
  parse_level = λ s. none;
  info = 3;
}

abbrev table : ConfigTable
table = record {
  owner_address = some (bytes_of "0x01");
  owner_private_key = some (bytes_of "$KEY");
  data_edge_address = some (bytes_of "0x02");
  epoch_manager_address = some (bytes_of "0x03");
  subgraph_url = some (bytes_of "http://localhost");
  bearer_token = some (bytes_of "$TOKEN");
  freshness_threshold = some (pos 20);
  web3_transport_retry_max_wait_time_in_seconds = none;
  log_level = none;
  protocol_chain = some (record {
    name = some (bytes_of "eip155:1");
    jrpc = some (bytes_of "http://localhost/1");
    polling_interval_in_seconds = none;
  });
  indexed_chains = some ((bytes_of "eip155:5", bytes_of "$TOKEN") ∷ []);
  blockmeta_indexed_chains = none;
  metrics_port = none;
  transaction_monitoring = some no_options;
  blockmeta_auth_token = some (bytes_of "$TOKEN");
}

-- The same with the values in place of the variables.
abbrev expanded : ConfigTable
expanded = record table {
  owner_private_key = some (bytes_of "0x05");
  bearer_token = some (bytes_of "secret");
  indexed_chains = some ((bytes_of "eip155:5", bytes_of "secret") ∷ []);
  blockmeta_auth_token = some (bytes_of "secret");
}

IsLiteral-other : (c : ℕ) (s : Str) → c ≢ b'$' → IsLiteral (c ∷ s)
IsLiteral-other c s h name e = h cc

key_set : two_variables (bytes_of "KEY") ≡ some (bytes_of "0x05")
unfolding str_compare
key_set = refl

token_set : two_variables (bytes_of "TOKEN") ≡ some (bytes_of "secret")
unfolding str_compare
token_set = refl

token : StandsFor two_variables (bytes_of "$TOKEN") (bytes_of "secret")
token = variable token_set (IsLiteral-other b's' (bytes_of "ecret") (omega arith))

table-expanded : TableStandsFor two_variables table expanded
table-expanded = record {
  owner_address = refl;
  owner_private_key = variable key_set (IsLiteral-other b'0' (bytes_of "x05") (omega arith));
  data_edge_address = literal (IsLiteral-other b'0' (bytes_of "x02") (omega arith));
  epoch_manager_address = literal (IsLiteral-other b'0' (bytes_of "x03") (omega arith));
  subgraph_url = literal (IsLiteral-other b'h' (bytes_of "ttp://localhost") (omega arith));
  bearer_token = token;
  freshness_threshold = refl;
  web3_transport_retry_max_wait_time_in_seconds = refl;
  log_level = refl;
  protocol_chain =
      (refl, literal (IsLiteral-other b'h' (bytes_of "ttp://localhost/1") (omega arith)), refl);
  indexed_chains = (refl, token, tt);
  blockmeta_indexed_chains = tt;
  metrics_port = refl;
  transaction_monitoring = refl;
  blockmeta_auth_token = token;
}

abbrev no_variables : Environment
no_variables name = none

parse_expanded_example :
    parse two_variables formats {E = Unit} (ok table) ≡ parse no_variables formats (ok expanded)
parse_expanded_example =
    parse_expanded two_variables no_variables formats table expanded table-expanded
