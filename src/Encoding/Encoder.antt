-- ===== src/Encoding/Encoder.antt =====
-- crates/encoding/src/lib.rs: the `Encoder`, which compresses messages against what it knows of each
-- network. A method takes the encoder and gives its outcome and the encoder that it leaves, also
-- where it ends with an error. The crate is built with overflow checks, so `i64` overflow panics.
pub mod Alignment
pub mod Blocks
pub mod Batch
pub mod Registry
pub mod Fill
mod Indexed
use block_oracle.Prelude.{
  ℕ, zero, suc, ◌+◌, ◌-◌, ◌^◌, Bool, true, false, not, List, [], ◌∷◌, ◌++◌, map, Option, none, some,
  get_elem?, set, ltb, leb, ◌==◌, if◌then◌else◌, is_empty,
}
use block_oracle.Prelude.Int.{ℤ, pos, negsuc, ◌-ℤ◌, is_i64}
use block_oracle.Prelude.Outcome.{Outcome, ok, err, panic, expect, ok_or}
use block_oracle.Prelude.Outcome as O
use block_oracle.Prelude.Text.{Str, str_eq}
use block_oracle.Prelude.TreeMap.{TreeMap, contains_key}
use block_oracle.Prelude.TreeMap
use block_oracle.Encoding.Messages.{
  BlockPtr, Bytes32, zero_hash, NetworkIndex, Message, CompressedMessage, str_to_u64, empty,
  non_empty,
}
use block_oracle.Encoding.Merkle.{MerkleLeaf, merkle_root}
use block_oracle.Encoding.Serialize.{serialize_messages}

abbrev pub current_encoding_version : ℕ
current_encoding_version = 0

pub data Error : Type 0 where
  unsupported_encoding_version : ℕ → Error
  message_after_encoding_version_change : Error
  invalid_network_id : Str → Error

pub record Network : Type 0 where
  pub block_number : ℕ
  pub block_delta : ℤ
  pub array_index : ℕ

-- `Network::default()`
abbrev pub default_network : Network
default_network = record { block_number = 0; block_delta = pos 0; array_index = 0 }

abbrev pub Networks : Type 0
Networks = List (Str × Network)

pub record Encoder : Type 0 where
  pub networks : Networks
  pub encoding_version : ℕ
  pub compressed : List CompressedMessage

abbrev pub Action : Type 0 → Type 0
Action A = Encoder → Outcome Error A × Encoder

abbrev pub pure : {A : Type 0} → A → Action A
pure a e = (ok a, e)

-- What follows a call, by how the call ended.
abbrev pub proceed :
    {A B : Type 0} → (A → Action B) → Outcome Error A × Encoder → Outcome Error B × Encoder
proceed f (ok a, e) = f a e
proceed f (err x, e) = (err x, e)
proceed f (panic, e) = (panic, e)

infixl 5 ◌>>=◌ ◌>>◌
abbrev pub ◌>>=◌ : {A B : Type 0} → Action A → (A → Action B) → Action B
◌>>=◌ m f e = proceed f (m e)

abbrev pub ◌>>◌ : {A B : Type 0} → Action A → Action B → Action B
m >> k = m >>= λ _. k

-- A computation that reads the encoder and does not write it.
abbrev pub lift : {A : Type 0} → (Encoder → Outcome Error A) → Action A
lift f e = (f e, e)

abbrev pub fail : {A : Type 0} → Error → Action A
fail x e = (err x, e)

-- `self.compressed.push(message)`
abbrev pub push : CompressedMessage → Action (Unit {0})
push m e = (ok tt, record e { compressed = e.compressed ++ (m ∷ []) })

unfoldable pub new_encoder : ℕ → Networks → Outcome Error Encoder
new_encoder version networks =
    if version == current_encoding_version
    then ok (record { networks = networks; encoding_version = version; compressed = [] })
    else err (unsupported_encoding_version version)

-- The position of the first network with the identifier.
unfoldable pub network_index : Str → Networks → Option NetworkIndex
network_index id [] = none
network_index id ((i, n) ∷ ns) =
    if str_eq i id
    then some 0
    else elim (network_index id ns) [ none ↦ none | some k ↦ some (suc k) ]

unfoldable pub add_network : Str → Networks → Networks
add_network id ns = ns ++ ((id, default_network) ∷ [])

-- `none` where no network has the `array_index`: the Rust code panics there.
unfoldable pub remove_network : NetworkIndex → Networks → Option Networks
remove_network k [] = none
remove_network k (n ∷ ns) =
    if n.1.array_index == k
    then some ns
    else elim (remove_network k ns) [ none ↦ none | some ms ↦ some (n ∷ ms) ]

module _ {T : Type 0} where
  -- The entries with their network's index, up to the first identifier that is not known.
  unfoldable pub index_entries : Networks → TreeMap T → Outcome Error (List (NetworkIndex × T))
  index_entries ns [] = ok []
  index_entries ns ((id, x) ∷ m) =
      O.◌>>=◌ (ok_or (network_index id ns) (invalid_network_id id))
        λ i. O.◌>>=◌ (index_entries ns m) λ entries. ok ((i, x) ∷ entries)

  -- `sort_by` on the index is stable, and so is insertion from the right.
  unfoldable pub insert_by_index :
      NetworkIndex × T → List (NetworkIndex × T) → List (NetworkIndex × T)
  insert_by_index e [] = e ∷ []
  insert_by_index e (f ∷ fs) = if leb e.0 f.0 then e ∷ f ∷ fs else f ∷ insert_by_index e fs

  unfoldable pub sort_by_index : List (NetworkIndex × T) → List (NetworkIndex × T)
  sort_by_index [] = []
  sort_by_index (e ∷ es) = insert_by_index e (sort_by_index es)

  unfoldable pub sort_network_data_by_index : Networks → TreeMap T → Outcome Error (List T)
  unfolding index_entries
  sort_network_data_by_index ns chain_data =
      O.◌>>=◌ (index_entries ns chain_data) λ entries. ok (map (λ e. e.1) (sort_by_index entries))

-- A network with no new block keeps its block number, with a hash of zeros.
unfoldable pub fill_missing : Networks → TreeMap BlockPtr → TreeMap BlockPtr
fill_missing [] ptrs = ptrs
fill_missing ((id, n) ∷ ns) ptrs = fill_missing ns (
    if contains_key id ptrs
    then ptrs
    else TreeMap.insert id (record { number = n.block_number; hash = zero_hash }) ptrs)

-- `x as i64` of a `u64`.
abbrev pub as_i64 : ℕ → ℤ
as_i64 n = if ltb n (2 ^ 63) then pos n else negsuc (2 ^ 64 - 1 - n)

-- `a - b` on `i64`, with overflow checks.
unfoldable pub checked_sub : ℤ → ℤ → Outcome Error ℤ
checked_sub a b = if is_i64 (a -ℤ b) then ok (a -ℤ b) else panic

-- A network moved to a new block, and its acceleration.
unfoldable pub update_network : Network → BlockPtr → Outcome Error (Network × ℤ)
unfolding checked_sub
update_network n ptr = O.◌>>=◌ (checked_sub (as_i64 ptr.number) (as_i64 n.block_number)) λ delta.
    O.◌>>=◌ (checked_sub delta n.block_delta)
      λ acceleration. ok (record n { block_number = ptr.number; block_delta = delta }, acceleration)

abbrev pub merkle_leaf : ℕ → BlockPtr → MerkleLeaf
merkle_leaf i ptr = record { network_index = i; block_number = ptr.number; block_hash = ptr.hash }

-- What the loop over the sorted pointers has built: the networks, the accelerations, the leaves.
pub record Progress : Type 0 where
  pub networks : Networks
  pub accelerations : List ℤ
  pub merkle_leaves : List MerkleLeaf

-- The loop, from the index `i` on; `networks[i]` panics out of range.
unfoldable pub update_networks : ℕ → List BlockPtr → Progress → Outcome Error Progress
unfolding update_network
update_networks i [] p = ok p
update_networks i (ptr ∷ ptrs) p = O.◌>>=◌ (expect (get_elem? p.networks i)) λ entry.
    O.◌>>=◌ (update_network entry.1 ptr) λ updated. update_networks (i + 1) ptrs (record {
      networks = set p.networks i (entry.0, updated.0);
      accelerations = p.accelerations ++ (updated.1 ∷ []);
      merkle_leaves = p.merkle_leaves ++ (merkle_leaf i ptr ∷ []);
    })

-- The last message, if there is one.
unfoldable pub last_message : List CompressedMessage → Option CompressedMessage
last_message [] = none
last_message (m ∷ []) = some m
last_message (m ∷ n ∷ ms) = last_message (n ∷ ms)

-- An empty set extends an empty set before it. (A count of 2 ^ 64 is out of reach.)
unfoldable pub extend_empty : List CompressedMessage → List CompressedMessage
extend_empty [] = CompressedMessage.set_block_numbers_for_next_epoch (empty 1) ∷ []
extend_empty (CompressedMessage.set_block_numbers_for_next_epoch (empty count) ∷ []) =
    CompressedMessage.set_block_numbers_for_next_epoch (empty (count + 1)) ∷ []
extend_empty (m ∷ []) = m ∷ CompressedMessage.set_block_numbers_for_next_epoch (empty 1) ∷ []
extend_empty (m ∷ n ∷ ms) = m ∷ extend_empty (n ∷ ms)

abbrev pub compress_empty_block_ptrs : Action (Unit {0})
compress_empty_block_ptrs e = (ok tt, record e { compressed = extend_empty e.compressed })

unfoldable pub remove_networks : List NetworkIndex → Action (Unit {0})
unfolding remove_network
remove_networks [] = pure tt
remove_networks (k ∷ ks) = do
  ns ← lift (λ e. expect (remove_network k e.networks))
  (λ e. (ok tt, record e { networks = ns }))
  remove_networks ks

unfoldable pub add_networks : List Str → Action (Unit {0})
unfolding add_network
add_networks [] = pure tt
add_networks (id ∷ ids) = do
  (λ e. (ok tt, record e { networks = add_network id e.networks }))
  add_networks ids

abbrev pub is_update_version : Option CompressedMessage → Bool
is_update_version (some (CompressedMessage.update_version v)) = true
is_update_version m = false

-- The sorted pointers, and the networks moved to them.
unfoldable pub new_blocks : Networks → TreeMap BlockPtr → Outcome Error Progress
new_blocks ns ptrs = O.◌>>=◌ (sort_network_data_by_index ns (fill_missing ns ptrs)) λ sorted.
    update_networks 0 sorted (record { networks = ns; accelerations = []; merkle_leaves = [] })

-- `Ok(std::mem::take(&mut self.compressed))`
abbrev pub take_batch : Action (List CompressedMessage)
take_batch e = (ok e.compressed, record e { compressed = [] })

module _ (digest : List ℕ → Bytes32) where
  -- The networks are written back and the message is pushed.
  abbrev pub commit_blocks : Progress → Action (Unit {0})
  commit_blocks p = do
    (λ e. (ok tt, record e { networks = p.networks }))
    push (
        CompressedMessage.set_block_numbers_for_next_epoch
          (non_empty p.accelerations (merkle_root digest p.merkle_leaves)))

  unfoldable pub compress_block_ptrs : TreeMap BlockPtr → Action (Unit {0})
  compress_block_ptrs ptrs = do p ← lift (λ e. new_blocks e.networks ptrs); commit_blocks p

  -- The cases of `compress_message`, once it is known that no version update came before.
  unfoldable pub dispatch : Message → Action (Unit {0})
  unfolding remove_networks add_networks compress_block_ptrs
  dispatch (Message.set_block_numbers_for_next_epoch ptrs) =
      if is_empty ptrs then compress_empty_block_ptrs else compress_block_ptrs ptrs
  dispatch (Message.register_networks remove add) = do
    remove_networks remove
    add_networks add
    push (CompressedMessage.register_networks remove add)
  dispatch (Message.correct_epochs data_by_network_id) =
      push (CompressedMessage.correct_epochs data_by_network_id)
  dispatch (Message.update_version version) =
      if version == current_encoding_version
      then (λ e.
          push (CompressedMessage.update_version version) (record e { encoding_version = version }))
      else fail (unsupported_encoding_version version)
  dispatch Message.reset = λ e. push CompressedMessage.reset (record e { networks = [] })
  dispatch (Message.register_networks_and_aliases remove add) = do
    remove_networks remove
    add_networks (map (λ p. p.0) add)
    push (CompressedMessage.register_networks_and_aliases remove add)
  dispatch (Message.change_permissions address valid_through permissions) =
      push (CompressedMessage.change_permissions address valid_through (map str_to_u64 permissions))

  unfoldable pub compress_message : Message → Action (Unit {0})
  unfolding dispatch last_message
  compress_message m e =
      if is_update_version (last_message e.compressed)
      then fail message_after_encoding_version_change e
      else dispatch m e

  unfoldable pub compress_all : List Message → Action (Unit {0})
  compress_all [] = pure tt
  compress_all (m ∷ ms) = do compress_message m; compress_all ms

  unfoldable pub compress : List Message → Action (List CompressedMessage)
  compress ms = do compress_all ms; take_batch

-- `Encoder::encode`
unfoldable pub encode : List CompressedMessage → Outcome Error (List ℕ)
encode compressed = serialize_messages compressed []
