-- ===== src/Encoding/Messages.antt =====
-- crates/encoding/src/messages.rs: the messages of the oracle, before and after compression.
-- A byte is a number below 256, an array of bytes a list of bytes, and a `u64` a number below 2^64.
use block_oracle.Prelude.{ℕ, ◌^◌, ◌<◌, List, [], ◌∷◌, Option, none, some, if◌then◌else◌}
use block_oracle.Prelude.Int.{ℤ}
use block_oracle.Prelude.Text.{Str, str_eq, bytes_of}
use block_oracle.Prelude.TreeMap.{TreeMap}

abbrev pub IsByte : ℕ → Type 0
IsByte b = b < 256

abbrev pub IsU64 : ℕ → Type 0
IsU64 v = v < 2 ^ 64

abbrev pub NetworkIndex : Type 0
NetworkIndex = ℕ

-- `[u8; 32]`.
abbrev pub Bytes32 : Type 0
Bytes32 = List ℕ

abbrev pub zero_hash : Bytes32
zero_hash =
    0 ∷ 0 ∷ 0 ∷ 0 ∷ 0 ∷ 0 ∷ 0 ∷ 0 ∷ 0 ∷ 0 ∷ 0 ∷ 0 ∷ 0 ∷ 0 ∷ 0 ∷ 0 ∷ 0 ∷ 0 ∷ 0 ∷ 0 ∷ 0 ∷ 0 ∷ 0 ∷ 0
    ∷ 0 ∷ 0 ∷ 0 ∷ 0 ∷ 0 ∷ 0 ∷ 0 ∷ 0 ∷ []

pub record BlockPtr : Type 0 where
  pub number : ℕ
  pub hash : Bytes32

pub record EpochDetails : Type 0 where
  pub tx_hash : Bytes32
  pub merkle_root : Bytes32

pub data Message : Type 0 where
  set_block_numbers_for_next_epoch : TreeMap BlockPtr → Message
  register_networks : List NetworkIndex → List Str → Message
  correct_epochs : List (NetworkIndex × EpochDetails) → Message
  update_version : ℕ → Message
  reset : Message
  register_networks_and_aliases : List NetworkIndex → List (Str × Str) → Message
  change_permissions : List ℕ → ℕ → List Str → Message

unfoldable pub str_to_u64 : Str → ℕ
str_to_u64 str =
    if str_eq str (bytes_of "SetBlockNumbersForNextEpochMessage")
    then 0
    else if str_eq str (bytes_of "CorrectEpochsMessage")
    then 1
    else if str_eq str (bytes_of "UpdateVersionMessage")
    then 2
    else if str_eq str (bytes_of "RegisterNetworksMessage")
    then 3
    else if str_eq str (bytes_of "ChangePermissionsMessage")
    then 4
    else if str_eq str (bytes_of "ResetStateMessage")
    then 5
    else if str_eq str (bytes_of "RegisterNetworksAndAliasesMessage")
    then 6
    else 7

pub data CompressedSetBlockNumbers : Type 0 where
  empty : ℕ → CompressedSetBlockNumbers
  non_empty : List ℤ → Bytes32 → CompressedSetBlockNumbers

pub data CompressedMessage : Type 0 where
  set_block_numbers_for_next_epoch : CompressedSetBlockNumbers → CompressedMessage
  correct_epochs : List (NetworkIndex × EpochDetails) → CompressedMessage
  register_networks : List ℕ → List Str → CompressedMessage
  update_version : ℕ → CompressedMessage
  reset : CompressedMessage
  register_networks_and_aliases : List ℕ → List (Str × Str) → CompressedMessage
  change_permissions : List ℕ → ℕ → List ℕ → CompressedMessage

unfoldable pub as_non_empty_block_numbers : CompressedMessage → Option (List ℤ × Bytes32)
as_non_empty_block_numbers
      (CompressedMessage.set_block_numbers_for_next_epoch (non_empty accelerations root)) =
    some (accelerations, root)
as_non_empty_block_numbers m = none
