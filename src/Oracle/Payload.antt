-- ===== src/Oracle/Payload.antt =====
-- `set_block_numbers_for_next_epoch` of crates/oracle/src/runner/oracle.rs: the payload for a new epoch.
-- Chain identifiers are given as their texts.
pub mod Equality
pub mod Registered
pub mod NextEpoch
use block_oracle.Prelude.{
  ℕ, Bool, true, false, not, List, [], ◌∷◌, map, Option, none, some, if◌then◌else◌,
}
use block_oracle.Prelude.Outcome.{Outcome, ok, err, panic, ◌>>=◌, ◌>>◌, assert, unwrap}
use block_oracle.Prelude.Text.{Str, str_eq}
use block_oracle.Prelude.TreeMap.{TreeMap, remove, collect}
use block_oracle.Encoding.Messages.{Bytes32, BlockPtr, Message}
use block_oracle.Encoding.Encoder.{
  Networks, Encoder, new_encoder, current_encoding_version, compress, encode,
}
use block_oracle.Oracle.Control.{Error}
use block_oracle.Oracle.State.{SubgraphState, Network, available_networks, has_id}
use block_oracle.Oracle.Payload.Equality.{encoder_eq}

abbrev pub registered_networks : SubgraphState → List Network
registered_networks state = elim state.global_state [ none ↦ [] | some gs ↦ gs.networks ]

-- The chains that are not registered.
unfoldable pub ignored_networks : List Network → TreeMap BlockPtr → List Str
ignored_networks ns [] = []
ignored_networks ns ((id, ptr) ∷ m) =
    let rest = ignored_networks ns m in if has_id id ns then rest else id ∷ rest

unfoldable pub remove_all : List Str → TreeMap BlockPtr → TreeMap BlockPtr
remove_all [] m = m
remove_all (id ∷ ids) m = remove_all ids (remove id m)

abbrev pub known_blocks : List Network → TreeMap BlockPtr → TreeMap BlockPtr
known_blocks ns latest_blocks = remove_all (ignored_networks ns latest_blocks) latest_blocks

module _ (digest : List ℕ → Bytes32) where
  -- What the encoder is asked to do, and the test at the end that it did something.
  unfoldable pub encode_blocks : Networks → TreeMap BlockPtr → Outcome Error (List ℕ)
  encode_blocks networks blocks =
      unwrap (new_encoder current_encoding_version networks) >>= λ initially.
      let (result, engine) =
        compress digest (Message.set_block_numbers_for_next_epoch blocks ∷ []) initially in
      unwrap result >>= λ compressed. unwrap (encode compressed) >>= λ encoded.
      assert (not (encoder_eq engine initially)) >> ok encoded

  unfoldable pub set_block_numbers_for_next_epoch :
      SubgraphState → TreeMap BlockPtr → Outcome Error (List ℕ)
  unfolding ignored_networks remove_all encode_blocks
  set_block_numbers_for_next_epoch state latest_blocks =
      let ns = registered_networks state in
      encode_blocks (available_networks ns) (collect (known_blocks ns latest_blocks))
