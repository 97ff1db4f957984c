-- ===== src/Subgraph/Mapping.antt =====
-- packages/subgraph/src/mapping.ts: a payload, its blocks and their messages. A payload whose
-- messages are all read and permitted is committed whole; any other leaves the store as it is.
pub mod Epochs
pub mod Links
pub mod Registry
pub mod Permissions
pub mod Names
pub mod Progress
pub mod Payloads
pub mod Forbidden
pub mod Listed
pub mod Refused
use block_oracle.Prelude.{
  ℕ, zero, suc, ◌+◌, Bool, true, false, ◌&&◌, List, [], ◌∷◌, Option, none, some, length, ltb, ◌==◌,
  if◌then◌else◌,
}
use block_oracle.Prelude.Text.{Str}
use block_oracle.Subgraph.Decoding.{BytesReader, new_reader, remaining}
use block_oracle.Subgraph.Tags.{decode_tags}
use block_oracle.Subgraph.Store.{MessageId, StoreCache, PermissionSet}
use block_oracle.Subgraph.Active.{Run, done, trapped, endless, fail}
use Epochs.{execute_set_block_numbers_for_epoch, execute_update_versions}
use Registry.{
  Aliases, execute_register_networks, execute_register_networks_and_aliases, execute_reset_state,
}
use Permissions.{
  tag_name, is_submitter_allowed, does_submitter_have_permission, execute_change_permissions,
}

-- What a payload comes with, and what the contract and the constants of the subgraph say.
pub record Context : Type 0 where
  pub submitter : Str
  pub payload_id : Str
  pub block_number : ℕ
  -- The answer of the Epoch Manager, `none` where the call reverts.
  pub current_epoch : Option ℕ
  pub aliases : Aliases
  pub initial_permissions : PermissionSet

-- The message of a tag; `CorrectEpochs` does nothing yet.
unfoldable pub process_message :
    Context → MessageId → ℕ → StoreCache → BytesReader → Run (StoreCache × BytesReader)
process_message x id zero c r = execute_set_block_numbers_for_epoch x.current_epoch c r
process_message x id (suc zero) c r = done (c, r)
process_message x id (suc (suc zero)) c r = done (execute_update_versions c r)
process_message x id (suc (suc (suc zero))) c r = execute_register_networks x.aliases id c r
process_message x id (suc (suc (suc (suc zero)))) c r = execute_change_permissions c r
process_message x id (suc (suc (suc (suc (suc zero))))) c r =
    execute_reset_state x.initial_permissions id c r
process_message x id (suc (suc (suc (suc (suc (suc zero)))))) c r =
    execute_register_networks_and_aliases id c r
process_message x id (suc (suc (suc (suc (suc (suc (suc tag))))))) c r = done (c, fail r)

-- A missing permission fails the reader; the message is processed all the same.
unfoldable pub permit : Context → ℕ → StoreCache → BytesReader → BytesReader
permit x tag c r = if does_submitter_have_permission c x.submitter (tag_name tag) then r else fail r

-- The loop over the tags, from the message `i` of the block on.
unfoldable pub process_messages :
    Context → ℕ → ℕ → List ℕ → StoreCache → BytesReader → Run (StoreCache × BytesReader)
unfolding permit process_message
process_messages x block i [] c r = done (c, r)
process_messages x block i (tag ∷ tags) c r = elim (r.ok && ltb 0 (remaining r)) [
  | false ↦ done (c, r)
  | true ↦ elim (process_message x (x.payload_id, block, i) tag c (permit x tag c r)) [
    | trapped ↦ trapped
    | endless ↦ endless
    | done (c', r') ↦ process_messages x block (i + 1) tags c' r'
  ]
]

unfoldable pub process_message_block :
    Context → ℕ → StoreCache → BytesReader → Run (StoreCache × BytesReader)
unfolding process_messages
process_message_block x block c r =
    let (tags, r') = decode_tags r in
    if r'.ok then process_messages x block 0 tags c r' else done (c, r')

pub data PayloadEnd : Type 0 where
  -- Nothing is saved, ...
  not_allowed : PayloadEnd
  -- ... or the payload alone, marked as not valid, ...
  invalid : PayloadEnd
  -- ... or the payload and the cache.
  committed : StoreCache → PayloadEnd
  -- The handler traps.
  aborted : PayloadEnd
  out_of_fuel : PayloadEnd

-- `while (reader.length() > 0)`, from the block `i` on.
unfoldable pub process_message_blocks : ℕ → Context → ℕ → StoreCache → BytesReader → PayloadEnd
process_message_blocks zero x i c r = if ltb 0 (remaining r) then out_of_fuel else committed c
process_message_blocks (suc fuel) x i c r = elim (ltb 0 (remaining r)) [
  | false ↦ committed c
  | true ↦ elim (process_message_block x i c r) [
    | trapped ↦ aborted
    | endless ↦ out_of_fuel
    | done (c', r') ↦ elim r'.ok [
      | false ↦ invalid
      | true ↦ process_message_blocks fuel x (i + 1) c' r'
    ]
  ]
]

-- One block takes a byte at least, so the number of bytes is fuel enough.
unfoldable pub process_payload : Context → List ℕ → StoreCache → PayloadEnd
unfolding process_message_blocks
process_payload x payload_bytes c =
    if is_submitter_allowed c x.submitter x.block_number
    then process_message_blocks (length payload_bytes) x 0 c (new_reader payload_bytes)
    else not_allowed
