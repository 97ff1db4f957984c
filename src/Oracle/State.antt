-- ===== src/Oracle/State.antt =====
-- crates/oracle/src/subgraph.rs: the state of the Epoch Subgraph as the oracle reads it from the
-- answer to its GraphQL query. The answer is given as records with the fields that the query selects;
-- the texts of errors are left out.
pub mod Conversion
use block_oracle.Prelude.{
  ℕ, zero, suc, ◌+◌, ◌-◌, ◌*◌, ◌^◌, Bool, true, false, not, ◌&&◌, ◌||◌, List, [], ◌∷◌, ◌++◌, Option,
  none, some, length, map, ltb, leb, ◌==◌, if◌then◌else◌,
}
use block_oracle.Prelude.Int.{ℤ, pos, negsuc}
use block_oracle.Prelude.Outcome.{Outcome, ok, err, panic, ◌>>=◌, ◌>>◌, ok_or, map_err, err_if}
use block_oracle.Prelude.Text.{Str, str_eq, bytes_of}
use block_oracle.Encoding.Encoder as E
use block_oracle.Oracle.ChainId.{Caip2ChainId, from_str}
use block_oracle.Oracle.Control.{SubgraphQueryError}

-- The answer to the query.
pub record BlockNumberData : Type 0 where
  pub block_number : Str
  pub acceleration : Str
  pub delta : Str
  pub epoch_number : Str

pub record NetworkData : Type 0 where
  pub id : Str
  pub array_index : Option ℤ
  pub block_numbers : List BlockNumberData

pub record GlobalStateData : Type 0 where
  pub networks : List NetworkData
  pub encoding_version : ℤ
  pub latest_valid_epoch : Option Str

pub record PayloadData : Type 0 where
  pub valid : Bool
  pub created_at : Str

pub record ResponseData : Type 0 where
  pub meta_block_number : ℤ
  pub global_state : Option GlobalStateData
  pub payloads : List PayloadData

-- The messages of the errors, and the data.
pub record Response : Type 0 where
  pub errors : Option (List Str)
  pub data_field : Option ResponseData

-- What the oracle keeps of it.
pub record BlockUpdate : Type 0 where
  pub block_number : ℕ
  pub acceleration : ℤ
  pub delta : ℤ
  pub updated_at_epoch_number : ℕ

pub record Network : Type 0 where
  pub id : Caip2ChainId
  pub array_index : ℕ
  pub latest_block_update : Option BlockUpdate

pub record GlobalState : Type 0 where
  pub networks : List Network
  pub encoding_version : ℤ
  pub latest_epoch_number : Option ℕ

pub record Payload : Type 0 where
  pub valid : Bool
  pub created_at : ℤ

pub record SubgraphState : Type 0 where
  pub last_indexed_block_number : ℕ
  pub global_state : Option GlobalState
  pub last_payload : Option Payload

unfoldable pub latest_epoch_number : SubgraphState → Option ℕ
latest_epoch_number s = elim s.global_state [ none ↦ none | some gs ↦ gs.latest_epoch_number ]

unfoldable pub has_registered_networks : SubgraphState → Bool
has_registered_networks s = elim s.global_state [
  | none ↦ false
  | some gs ↦ ltb 0 (length gs.networks)
]

-- `From<Network> for epoch_encoding::Network`
abbrev pub network_from : Network → E.Network
network_from val = elim val.latest_block_update [
  | none ↦ record { block_number = 0; block_delta = pos 0; array_index = val.array_index }
  | some block_update ↦ record {
    block_number = block_update.block_number;
    block_delta = block_update.delta;
    array_index = val.array_index;
  }
]

-- The networks as the encoder is given them.
abbrev pub available_networks : List Network → E.Networks
available_networks ns = map (λ n. (n.id.chain_id, network_from n)) ns

-- `x as u64` of an `i64`.
abbrev pub as_u64 : ℤ → ℕ
as_u64 (pos n) = n
as_u64 (negsuc n) = 2 ^ 64 - 1 - n

-- The decimal digits from left to right, after a part that is worth `acc`.
unfoldable pub parse_digits : ℕ → Str → Option ℕ
parse_digits acc [] = some acc
parse_digits acc (c ∷ s) =
    let rest = parse_digits (acc * 10 + (c - b'0')) s in
    if leb b'0' c && leb c b'9' then rest else none

-- `str::parse::<u64>`: digits, after an optional '+'.
abbrev digits_up_to : ℕ → Str → Option ℕ
digits_up_to limit [] = none
digits_up_to limit (c ∷ s) = elim (parse_digits 0 (c ∷ s)) [
  | none ↦ none
  | some n ↦ if leb n limit then some n else none
]

unfoldable pub parse_u64 : Str → Option ℕ
unfolding parse_digits
parse_u64 [] = none
parse_u64 (c ∷ s) = digits_up_to (2 ^ 64 - 1) (if c == b'+' then s else c ∷ s)

-- `str::parse::<i64>`: a '-' is allowed too.
abbrev pub negative : ℕ → ℤ
negative zero = pos 0
negative (suc n) = negsuc n

unfoldable pub parse_i64 : Str → Option ℤ
unfolding parse_digits
parse_i64 [] = none
parse_i64 (c ∷ s) =
    if c == b'-'
    then elim (digits_up_to (2 ^ 63) s) [ none ↦ none | some n ↦ some (negative n) ]
    else elim (digits_up_to (2 ^ 63 - 1) (if c == b'+' then s else c ∷ s)) [
      | none ↦ none
      | some n ↦ some (pos n)
    ]

-- Why data is refused.
pub data BadData : Type 0 where
  invalid_network_name : BadData
  no_array_index : BadData
  many_block_numbers : BadData
  bad_number : BadData
  bad_index : BadData
  duplicated_ids : BadData

abbrev parsed : {A : Type 0} → Option A → Outcome BadData A
parsed o = ok_or o bad_number

unfoldable pub block_update_from : BlockNumberData → Outcome BadData BlockUpdate
unfolding parse_u64 parse_i64
block_update_from d = parsed (parse_u64 d.block_number) >>= λ block_number.
    parsed (parse_i64 d.acceleration) >>= λ acceleration. parsed (parse_i64 d.delta) >>= λ delta.
    parsed (parse_u64 d.epoch_number) >>= λ epoch. ok (record {
      block_number = block_number;
      acceleration = acceleration;
      delta = delta;
      updated_at_epoch_number = epoch;
    })

-- No block number, or the only one.
unfoldable pub latest_update : List BlockNumberData → Outcome BadData (Option BlockUpdate)
unfolding block_update_from
latest_update [] = ok none
latest_update (d ∷ []) = block_update_from d >>= λ u. ok (some u)
latest_update (d ∷ e ∷ ds) = err many_block_numbers

-- `TryFrom` for `Network`
unfoldable pub network_try_from : NetworkData → Outcome BadData Network
unfolding latest_update
network_try_from value = map_err (λ e. invalid_network_name) (from_str value.id) >>= λ id.
    ok_or value.array_index no_array_index >>= λ index.
    latest_update value.block_numbers >>= λ update.
    ok (record { id = id; array_index = as_u64 index; latest_block_update = update })

-- `value.array_index == Some(expected_i as i64)`, for the positions of a list in memory.
abbrev pub is_index : Option ℤ → ℕ → Bool
is_index (some (pos n)) k = n == k
is_index (some (negsuc n)) k = false
is_index none k = false

-- The loop over the networks, from the position `expected_i` on.
unfoldable pub networks_try_from : ℕ → List NetworkData → Outcome BadData (List Network)
unfolding network_try_from
networks_try_from expected_i [] = ok []
networks_try_from expected_i (value ∷ values) =
    err_if (not (is_index value.array_index expected_i)) bad_index
    >> (network_try_from value >>= λ network.
        networks_try_from (expected_i + 1) values >>= λ networks. ok (network ∷ networks))

unfoldable pub has_id : Str → List Network → Bool
has_id id [] = false
has_id id (n ∷ ns) = str_eq n.id.chain_id id || has_id id ns

-- `all_unique` on the identifiers.
unfoldable pub all_unique : List Network → Bool
unfolding has_id
all_unique [] = true
all_unique (n ∷ ns) = not (has_id n.id.chain_id ns) && all_unique ns

unfoldable pub epoch_try_from : Option Str → Outcome BadData (Option ℕ)
unfolding parse_u64
epoch_try_from none = ok none
epoch_try_from (some s) = parsed (parse_u64 s) >>= λ n. ok (some n)

-- `TryFrom` for `GlobalState`
unfoldable pub global_state_try_from : GlobalStateData → Outcome BadData GlobalState
unfolding networks_try_from all_unique epoch_try_from
global_state_try_from value = networks_try_from 0 value.networks >>= λ networks.
    err_if (not (all_unique networks)) duplicated_ids
    >> (epoch_try_from value.latest_valid_epoch >>= λ epoch. ok (record {
      networks = networks;
      encoding_version = value.encoding_version;
      latest_epoch_number = epoch;
    }))

unfoldable pub payload_try_from : PayloadData → Outcome BadData Payload
unfolding parse_i64
payload_try_from value = parsed (parse_i64 value.created_at) >>= λ created_at.
    ok (record { valid = value.valid; created_at = created_at })

abbrev pub transpose :
    {A B : Type 0} → (A → Outcome BadData B) → Option A → Outcome BadData (Option B)
transpose f none = ok none
transpose f (some a) = f a >>= λ b. ok (some b)

abbrev pub first : {A : Type 0} → List A → Option A
first [] = none
first (a ∷ others) = some a

-- Only the first error is looked at.
unfoldable pub check_errors : Option (List Str) → Outcome SubgraphQueryError (Unit {0})
check_errors none = ok tt
check_errors (some []) = ok tt
check_errors (some (message ∷ messages)) =
    if str_eq message (bytes_of "indexing_error")
    then err SubgraphQueryError.indexing_error
    else err SubgraphQueryError.other

-- `query_subgraph`, from the answer or the failed request on.
unfoldable pub query_subgraph :
    Outcome SubgraphQueryError Response → Outcome SubgraphQueryError SubgraphState
unfolding check_errors global_state_try_from payload_try_from
query_subgraph request = request >>= λ response.
    check_errors response.errors
    >> (ok_or response.data_field SubgraphQueryError.other >>= λ d.
        map_err (λ e. SubgraphQueryError.bad_data) (transpose global_state_try_from d.global_state)
        >>= λ global_state.
            map_err (λ e. SubgraphQueryError.bad_data)
              (transpose payload_try_from (first d.payloads))
            >>= λ last_payload. ok (record {
              last_indexed_block_number = as_u64 d.meta_block_number;
              global_state = global_state;
              last_payload = last_payload;
            }))
