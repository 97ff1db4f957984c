-- ===== src/Subgraph/Mapping/Epochs.antt =====
-- packages/subgraph/src/mapping.ts: the handlers of new epochs and of versions.
-- A handler takes the cache and the reader and gives both back, where it ends and does not abort.
pub mod Stored
pub mod Agreement
pub mod Accepted
pub mod Payload
pub mod EmptySet
pub mod GoesBack
use block_oracle.Prelude.{
  ℕ, zero, suc, ◌+◌, ◌-◌, ◌%◌, ◌^◌, Bool, true, false, List, [], ◌∷◌, ◌++◌, Option, none, some,
  ◌==◌, if◌then◌else◌,
}
use block_oracle.Prelude.Int.{ℤ, pos, negsuc}
use block_oracle.Prelude.Text.{Str}
use block_oracle.Subgraph.Decoding.{BytesReader, advance, decode_i64, decode_u64}
use block_oracle.Subgraph.Store.{StoreCache, get_epoch}
use block_oracle.Subgraph.Active.{
  Run, done, trapped, endless, fail, get_active_networks, next_epoch_id,
  create_or_update_block_number,
}

-- `cache.getEpoch` for `count` epochs from `i` on.
unfoldable pub backfill : ℕ → ℕ → StoreCache → StoreCache
backfill zero i c = c
backfill (suc count) i c = backfill count (i + 1) (get_epoch i c)

abbrev pub previous_epoch_number : Option ℕ → ℕ
previous_epoch_number none = 0
previous_epoch_number (some e) = e

-- The epochs up to the new one are made, and the new one is the latest.
unfoldable pub enter_epoch : ℕ → StoreCache → StoreCache
unfolding backfill
enter_epoch e c =
    let first = previous_epoch_number c.state.latest_valid_epoch + 1 in
    let c' = get_epoch e (backfill (e - first) first c) in
    record c' { state = record c'.state { latest_valid_epoch = some e } }

abbrev pub is_negative : ℤ → Bool
is_negative (pos n) = false
is_negative (negsuc n) = true

-- The loop over the networks: the accelerations that were decoded, the cache and the reader.
unfoldable pub update_block_numbers :
    ℕ → List Str → StoreCache → BytesReader → List ℤ × StoreCache × BytesReader
update_block_numbers e [] c r = ([], c, r)
update_block_numbers e (id ∷ ids) c r =
    let (acceleration, r') = decode_i64 r in
    let (block_number, c') = create_or_update_block_number id e acceleration c in
    let rest = update_block_numbers e ids c' r' in
    if r'.ok
    then if is_negative block_number.delta
      then ([], c', fail r')
      else (acceleration ∷ rest.0, rest.1, rest.2)
    else ([], c, r')

-- The message is kept where it was read to its end: a failed reader drops the whole cache.
abbrev pub keep_message : List ℕ → List ℤ × StoreCache × BytesReader → StoreCache × BytesReader
keep_message root (accelerations, c, r) = (
  if r.ok
      then record c {
        set_block_numbers_messages =
            c.set_block_numbers_messages
            ++ (record { merkle_root = root; accelerations = accelerations } ∷ []);
      }
      else c,
  r,
)

-- After the active networks have been listed.
unfoldable pub set_block_numbers :
    Option ℕ → List Str → StoreCache → BytesReader → StoreCache × BytesReader
set_block_numbers response ids c r =
    let (e, r₁) = next_epoch_id response c.state.latest_valid_epoch r in
    let (root, r₂) = advance 32 r₁ in
    keep_message root (update_block_numbers e ids (enter_epoch e c) r₂)

unfoldable pub execute_set_block_numbers_for_epoch :
    Option ℕ → StoreCache → BytesReader → Run (StoreCache × BytesReader)
unfolding set_block_numbers
execute_set_block_numbers_for_epoch response c r =
    if c.state.active_network_count == 0 then done (c, fail r) else elim (get_active_networks c) [
      | trapped ↦ trapped
      | endless ↦ endless
      | done (ids, c') ↦ done (set_block_numbers response ids c' r)
    ]

-- `version as i32`, as a pattern of 32 bits.
unfoldable pub execute_update_versions : StoreCache → BytesReader → StoreCache × BytesReader
execute_update_versions c r =
    let (version, r') = decode_u64 r in
    (record c { state = record c.state { encoding_version = version % 2 ^ 32 } }, r')
