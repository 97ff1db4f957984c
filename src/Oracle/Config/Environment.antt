-- ===== src/Oracle/Config/Environment.antt =====
-- The variables of the environment in a configuration file of crates/oracle/src/config.rs.
use block_oracle.Prelude.{
  ◌≡◌, ◌≢◌, refl, ap, ◌∙◌, sym, List, [], ◌∷◌, Option, none, some, Bool-cases, inl, inr, ◌==◌,
  arith,
}
use block_oracle.Prelude.Outcome.{Outcome, ok, ◌>>=◌, ok_or, unwrap}
use block_oracle.Prelude.Text.{Str}
use block_oracle.Oracle.ChainId.{Caip2ChainId}
use block_oracle.Oracle.Config.{
  ConfigError, toml, Environment, strip_dollar, resolve, either_literal_or_env_var, required,
  or_default, any_text,
}
use block_oracle.Oracle.Config.Table.{
  ProtocolTable, ConfigTable, ConfigFile, Formats, deserialize_chains, deserialize_protocol_chain,
  deserialize,
}
use block_oracle.Oracle.Config.Load.{from_config_file, from_file, parse}

-- A text that does not start with a dollar sign.
abbrev pub IsLiteral : Str → Type 0
IsLiteral raw = (name : Str) → raw ≢ b'$' ∷ name

module _ (env : Environment) where
  -- What a value of the file stands for: itself, or the value of the variable that it names.
  pub data StandsFor : Str → Str → Type 0 where
    literal : {raw : Str} → IsLiteral raw → StandsFor raw raw
    variable :
        {name value : Str} → env name ≡ some value → IsLiteral value → StandsFor (b'$' ∷ name) value

  abbrev pub FieldStandsFor : Option Str → Option Str → Type 0
  FieldStandsFor none none = Unit
  FieldStandsFor none (some value) = ⊥
  FieldStandsFor (some raw) none = ⊥
  FieldStandsFor (some raw) (some value) = StandsFor raw value

  -- The keys are no values, and stay.
  abbrev pub EntriesStandFor : List (Str × Str) → List (Str × Str) → Type 0
  EntriesStandFor [] [] = Unit
  EntriesStandFor [] (entry ∷ values) = ⊥
  EntriesStandFor (entry ∷ entries) [] = ⊥
  EntriesStandFor ((key, raw) ∷ entries) ((key', value) ∷ values) =
      (key ≡ key') × StandsFor raw value × EntriesStandFor entries values

  abbrev pub ChainsStandFor : Option (List (Str × Str)) → Option (List (Str × Str)) → Type 0
  ChainsStandFor none none = Unit
  ChainsStandFor none (some values) = ⊥
  ChainsStandFor (some entries) none = ⊥
  ChainsStandFor (some entries) (some values) = EntriesStandFor entries values

  abbrev pub ProtocolStandsFor : Option ProtocolTable → Option ProtocolTable → Type 0
  ProtocolStandsFor none none = Unit
  ProtocolStandsFor none (some t) = ⊥
  ProtocolStandsFor (some t) none = ⊥
  ProtocolStandsFor (some t) (some t') =
      (t.name ≡ t'.name)
      × FieldStandsFor t.jrpc t'.jrpc
      × (t.polling_interval_in_seconds ≡ t'.polling_interval_in_seconds)

  -- The fields that may name a variable, and those that may not: they are the same.
  pub record TableStandsFor (t t' : ConfigTable) : Type 0 where
    pub owner_address : t.owner_address ≡ t'.owner_address
    pub owner_private_key : FieldStandsFor t.owner_private_key t'.owner_private_key
    pub data_edge_address : FieldStandsFor t.data_edge_address t'.data_edge_address
    pub epoch_manager_address : FieldStandsFor t.epoch_manager_address t'.epoch_manager_address
    pub subgraph_url : FieldStandsFor t.subgraph_url t'.subgraph_url
    pub bearer_token : FieldStandsFor t.bearer_token t'.bearer_token
    pub freshness_threshold : t.freshness_threshold ≡ t'.freshness_threshold
    pub web3_transport_retry_max_wait_time_in_seconds :
        t.web3_transport_retry_max_wait_time_in_seconds
        ≡ t'.web3_transport_retry_max_wait_time_in_seconds
    pub log_level : t.log_level ≡ t'.log_level
    pub protocol_chain : ProtocolStandsFor t.protocol_chain t'.protocol_chain
    pub indexed_chains : ChainsStandFor t.indexed_chains t'.indexed_chains
    pub blockmeta_indexed_chains :
        ChainsStandFor t.blockmeta_indexed_chains t'.blockmeta_indexed_chains
    pub metrics_port : t.metrics_port ≡ t'.metrics_port
    pub transaction_monitoring : t.transaction_monitoring ≡ t'.transaction_monitoring
    pub blockmeta_auth_token : FieldStandsFor t.blockmeta_auth_token t'.blockmeta_auth_token

strip_dollar-IsLiteral : (raw : Str) → IsLiteral raw → strip_dollar raw ≡ none
unfolding strip_dollar
strip_dollar-IsLiteral [] h = refl
strip_dollar-IsLiteral (c ∷ s) h = elim (Bool-cases (c == b'$')) [
  | inl dollar ↦ let first : c ≡ b'$' = ground arith in absurd (h s (rw first refl))
  | inr other ↦ rw (strip_dollar, other)
]

resolve-IsLiteral : (env : Environment) (raw : Str) → IsLiteral raw → resolve env raw ≡ some raw
unfolding resolve
resolve-IsLiteral env raw h = rw (resolve, strip_dollar-IsLiteral raw h)

module _ (env env' : Environment) where
  -- What a value stands for is what it is resolved to, and no other environment changes that again.
  resolve-StandsFor :
      {raw value : Str} → StandsFor env raw value → resolve env raw ≡ resolve env' value
  unfolding resolve strip_dollar
  resolve-StandsFor (literal {raw = raw} h) =
      resolve-IsLiteral env raw h ∙ sym (resolve-IsLiteral env' raw h)
  resolve-StandsFor (variable {value = value} found h) =
      found ∙ sym (resolve-IsLiteral env' value h)

  value-StandsFor :
      {T : Type 0} (parse : Str → Option T) {raw value : Str}
      → StandsFor env raw value
      → either_literal_or_env_var env parse raw ≡ either_literal_or_env_var env' parse value
  unfolding either_literal_or_env_var
  value-StandsFor parse h =
      ap (λ o. ok_or o toml >>= λ value. ok_or (parse value) toml) (resolve-StandsFor h)

  field-StandsFor :
      {T : Type 0} (parse : Str → Option T) (field field' : Option Str)
      → FieldStandsFor env field field'
      → required (either_literal_or_env_var env parse) field
        ≡ required (either_literal_or_env_var env' parse) field'
  field-StandsFor parse none none h = refl
  field-StandsFor parse none (some value) h = absurd h
  field-StandsFor parse (some raw) none h = absurd h
  field-StandsFor parse (some raw) (some value) h = value-StandsFor parse h

  entries-StandFor :
      {T : Type 0} (parse : Str → Option T) (entries values : List (Str × Str))
      → EntriesStandFor env entries values
      → deserialize_chains env parse entries ≡ deserialize_chains env' parse values
  unfolding deserialize_chains
  entries-StandFor parse [] [] h = refl
  entries-StandFor parse [] (entry ∷ values) h = absurd h
  entries-StandFor parse (entry ∷ entries) [] h = absurd h
  entries-StandFor parse ((key, raw) ∷ entries) ((key', value) ∷ values) h =
      rw (h.0, value-StandsFor parse h.1, entries-StandFor parse entries values h.2)

  protocol-StandsFor :
      {Url : Type 0} (parse : Str → Option Url) (t t' : Option ProtocolTable)
      → ProtocolStandsFor env t t'
      → required (deserialize_protocol_chain env parse) t
        ≡ required (deserialize_protocol_chain env' parse) t'
  unfolding deserialize_protocol_chain
  protocol-StandsFor parse none none h = refl
  protocol-StandsFor parse none (some t) h = absurd h
  protocol-StandsFor parse (some t) none h = absurd h
  protocol-StandsFor parse (some t) (some t') h =
      rw (h.0, field-StandsFor parse t.jrpc t'.jrpc h.1, h.2)

  chains-StandFor :
      {T : Type 0} (parse : Str → Option T) (field field' : Option (List (Str × Str)))
      → ChainsStandFor env field field'
      → required (deserialize_chains env parse) field
        ≡ required (deserialize_chains env' parse) field'
  chains-StandFor parse none none h = refl
  chains-StandFor parse none (some values) h = absurd h
  chains-StandFor parse (some entries) none h = absurd h
  chains-StandFor parse (some entries) (some values) h = entries-StandFor parse entries values h

  blockmeta-StandFor :
      (field field' : Option (List (Str × Str)))
      → ChainsStandFor env field field'
      → or_default
          (λ entries. deserialize_chains env any_text entries >>= λ cs. ok (some cs))
          none
          field
        ≡ or_default
            (λ entries. deserialize_chains env' any_text entries >>= λ cs. ok (some cs))
            none
            field'
  blockmeta-StandFor none none h = refl
  blockmeta-StandFor none (some values) h = absurd h
  blockmeta-StandFor (some entries) none h = absurd h
  blockmeta-StandFor (some entries) (some values) h =
      ap (λ (o : Outcome ConfigError (List (Caip2ChainId × Str))). o >>= λ cs. ok (some cs))
        (entries-StandFor any_text entries values h)

  module _ {H160 Url SecretKey LevelFilter : Type 0}
      (f : Formats H160 Url SecretKey LevelFilter) where
    deserialize-StandsFor :
        (t t' : ConfigTable) → TableStandsFor env t t' → deserialize env f t ≡ deserialize env' f t'
    unfolding deserialize
    deserialize-StandsFor t t' h = rw (
      h.owner_address,
      field-StandsFor f.parse_key t.owner_private_key t'.owner_private_key h.owner_private_key,
      field-StandsFor f.parse_address t.data_edge_address t'.data_edge_address h.data_edge_address,
      field-StandsFor f.parse_address t.epoch_manager_address t'.epoch_manager_address
          h.epoch_manager_address,
      field-StandsFor f.parse_url t.subgraph_url t'.subgraph_url h.subgraph_url,
      field-StandsFor any_text t.bearer_token t'.bearer_token h.bearer_token,
      h.freshness_threshold,
      h.web3_transport_retry_max_wait_time_in_seconds,
      h.log_level,
      protocol-StandsFor f.parse_url t.protocol_chain t'.protocol_chain h.protocol_chain,
      chains-StandFor f.parse_url t.indexed_chains t'.indexed_chains h.indexed_chains,
      blockmeta-StandFor t.blockmeta_indexed_chains t'.blockmeta_indexed_chains
          h.blockmeta_indexed_chains,
      h.metrics_port,
      h.transaction_monitoring,
      field-StandsFor any_text t.blockmeta_auth_token t'.blockmeta_auth_token
          h.blockmeta_auth_token,
    )

    -- A file is read as the one without variables that it stands for. Where in `t'` each variable that
    -- `t` names is replaced by its value in the environment, no value starts with a dollar sign, and
    -- all else is the same, `t` gives the configuration, or the panic, that `t'` gives in any
    -- environment. The owner's address and the level of the log name no variables, and neither do
    -- the keys of maps and the name of the protocol chain.
    pub parse_expanded :
        {E : Type 0} (t t' : ConfigTable)
        → TableStandsFor env t t'
        → parse env f {E = E} (ok t) ≡ parse env' f {E = E} (ok t')
    unfolding parse from_file
    parse_expanded {E} t t' h =
        ap
          (λ (o : Outcome ConfigError (ConfigFile H160 Url SecretKey LevelFilter)).
            unwrap {F = E} o >>= λ file. ok (from_config_file file))
          (deserialize-StandsFor t t' h)
