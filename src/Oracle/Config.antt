-- ===== src/Oracle/Config.antt =====
-- crates/oracle/src/config.rs: from a TOML table to the configuration. The crate `toml` gives the table;
-- an integer is an `i64`. The formats of addresses, URLs, keys and log levels are those of other
-- crates: their types and `FromStr` are parameters. Entries of maps stand in the order of the table.
-- Durations are in seconds.
pub mod Table
pub mod Load
pub mod Environment
use block_oracle.Prelude.{
  ℕ, ◌^◌, Bool, true, false, List, [], ◌∷◌, map, Option, none, some, ltb, ◌==◌, if◌then◌else◌,
}
use block_oracle.Prelude.Int.{ℤ, pos, negsuc}
use block_oracle.Prelude.Outcome.{Outcome, ok, err, panic, ◌>>=◌, ok_or, map_err, unwrap}
use block_oracle.Prelude.Text.{Str}
use block_oracle.Oracle.ChainId.{Caip2ChainId, from_str}
use block_oracle.Oracle.Monitor.{TransactionMonitoringOptions, default_options}

-- Where an error in the table lies is left out.
pub data ConfigError : Type 0 where
  io : ConfigError
  toml : ConfigError

-- `serde_defaults`, but for those of the transaction monitor, which stand in `default_options`.
abbrev pub freshness_threshold : ℕ
freshness_threshold = 10

abbrev pub protocol_chain_polling_interval_in_seconds : ℕ
protocol_chain_polling_interval_in_seconds = 120

abbrev pub web3_transport_retry_max_wait_time_in_seconds : ℕ
web3_transport_retry_max_wait_time_in_seconds = 60

abbrev pub metrics_port : ℕ
metrics_port = 9090

-- `std::env::var`; `none` where the variable is missing or no text.
abbrev pub Environment : Type 0
Environment = Str → Option Str

-- `raw_s.strip_prefix('$')`
unfoldable pub strip_dollar : Str → Option Str
strip_dollar [] = none
strip_dollar (c ∷ s) = if c == b'$' then some s else none

-- The text that a value stands for.
unfoldable pub resolve : Environment → Str → Option Str
unfolding strip_dollar
resolve env raw = elim (strip_dollar raw) [ none ↦ some raw | some name ↦ env name ]

-- `String::from_str`
abbrev pub any_text : Str → Option Str
any_text = some

module _ {T : Type 0} where
  -- `EitherLiteralOrEnvVar::deserialize`
  unfoldable pub either_literal_or_env_var :
      Environment → (Str → Option T) → Str → Outcome ConfigError T
  unfolding resolve
  either_literal_or_env_var env parse raw =
      ok_or (resolve env raw) toml >>= λ value. ok_or (parse value) toml

  -- `FromStrWrapper::deserialize`
  abbrev pub from_str_wrapper : (Str → Option T) → Str → Outcome ConfigError T
  from_str_wrapper parse raw = ok_or (parse raw) toml

  -- A field without a default.
  abbrev pub required :
      {A : Type 0} → (A → Outcome ConfigError T) → Option A → Outcome ConfigError T
  required f none = err toml
  required f (some a) = f a

  -- `#[serde(default = …)]`
  abbrev pub or_default :
      {A : Type 0} → (A → Outcome ConfigError T) → T → Option A → Outcome ConfigError T
  or_default f d none = ok d
  or_default f d (some a) = f a

-- An integer that fits an unsigned type of `w` bits.
unfoldable pub unsigned : ℕ → ℤ → Outcome ConfigError ℕ
unsigned w (pos n) = if ltb n (2 ^ w) then ok n else err toml
unsigned w (negsuc n) = err toml

abbrev pub optional_u64 : ℤ → Outcome ConfigError (Option ℕ)
optional_u64 n = unsigned 64 n >>= λ v. ok (some v)
