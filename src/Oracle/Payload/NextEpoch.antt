-- ===== src/Oracle/Payload/NextEpoch.antt =====
-- When `set_block_numbers_for_next_epoch` of crates/oracle/src/runner/oracle.rs gives a payload.
use block_oracle.Prelude.{
  ℕ, zero, suc, ◌≡◌, ◌≢◌, refl, ap, ◌∙◌, true, false, List, [], ◌∷◌, some, arith, All, get_elem?,
  is_empty,
}
use block_oracle.Prelude.Int.{ℤ, pos, negsuc}
use block_oracle.Prelude.Outcome.{ok, panic}
use block_oracle.Prelude.Text.{Str, str_compare_refl}
use block_oracle.Prelude.TreeMap.{TreeMap, IsSorted, lookup, collect, collect_sorted}
use block_oracle.Encoding.Messages.{Bytes32, BlockPtr, Message, CompressedMessage, empty, non_empty}
use block_oracle.Encoding.Merkle.{merkle_root}
use block_oracle.Encoding.Serialize.{serialize_messages}
use block_oracle.Encoding.Serialize.Totality.{serialize_messages_total}
use block_oracle.Encoding.Encoder.{
  Network, Networks, Encoder, Error, new_encoder, compress, compress_all, compress_message,
  dispatch, encode, last_message, current_encoding_version,
}
use block_oracle.Encoding.Encoder.Alignment.{IsDistinct, AllKnown}
use block_oracle.Encoding.Encoder.Fill.{ptr_for}
use block_oracle.Encoding.Encoder.Blocks.{
  Fits, leaves_from, moved_networks, accelerations_of, compress_block_ptrs_lem,
}
use block_oracle.Encoding.Encoder.Batch.{compress-empties}
use block_oracle.Oracle.State.{SubgraphState, available_networks}
use block_oracle.Oracle.Payload.{
  registered_networks, encode_blocks, set_block_numbers_for_next_epoch,
}
use block_oracle.Oracle.Payload.Equality.{list_eq, encoder_eq, int_eq}
use block_oracle.Oracle.Payload.Registered.{
  registered_blocks, registered-IsSorted, registered-AllKnown, known_blocks-registered,
}

-- The encoder as the oracle makes it.
abbrev pub encoder_of : Networks → Encoder
encoder_of ns = record {
  networks = ns;
  encoding_version = current_encoding_version;
  compressed = [];
}

-- The message that moves every network to its pointer.
abbrev pub new_blocks_message : (List ℕ → Bytes32) → TreeMap BlockPtr → Networks → CompressedMessage
new_blocks_message digest blocks ns = CompressedMessage.set_block_numbers_for_next_epoch (
    non_empty (accelerations_of (ptr_for blocks) ns)
      (merkle_root digest (leaves_from (ptr_for blocks) 0 ns)))

int_eq_refl : (a : ℤ) → int_eq a a ≡ true
int_eq_refl (pos n) = ground arith
int_eq_refl (negsuc n) = ground arith

module _ (digest : List ℕ → Bytes32) where
  compress_one :
      (blocks : TreeMap BlockPtr) (ns : Networks)
      → is_empty blocks ≡ false
      → IsDistinct ns
      → IsSorted blocks
      → AllKnown ns blocks
      → All (λ (n : Str × Network). Fits n.1 (ptr_for blocks n)) ns
      → compress digest (Message.set_block_numbers_for_next_epoch blocks ∷ []) (encoder_of ns) ≡ (
        ok (new_blocks_message digest blocks ns ∷ []),
        encoder_of (moved_networks (ptr_for blocks) ns),
      )
  unfolding compress compress_all compress_message dispatch last_message
  compress_one blocks ns some_block d s a fits =
      rw (some_block, compress_block_ptrs_lem digest blocks (encoder_of ns) d s a fits) refl

  moved_differs :
      (blocks : TreeMap BlockPtr) (ns : Networks) (k : ℕ) (n : Str × Network)
      → get_elem? ns k ≡ some n
      → (ptr_for blocks n).number ≢ n.1.block_number
      → encoder_eq (encoder_of (moved_networks (ptr_for blocks) ns)) (encoder_of ns) ≡ false
  unfolding encoder_eq list_eq
  moved_differs blocks [] k n h differs = cc
  moved_differs blocks (m ∷ ns) zero n h differs = ground arith
  moved_differs blocks (m ∷ ns) (suc k) n h differs =
      ground (arith, moved_differs blocks ns k n h differs)

  encoder_eq_refl : (ns : Networks) → encoder_eq (encoder_of ns) (encoder_of ns) ≡ true
  unfolding encoder_eq list_eq
  encoder_eq_refl [] = refl
  encoder_eq_refl (n ∷ ns) =
      ground (arith, str_compare_refl n.0, int_eq_refl n.1.block_delta, encoder_eq_refl ns)

  some_block :
      (blocks : TreeMap BlockPtr) (n : Str × Network)
      → (ptr_for blocks n).number ≢ n.1.block_number
      → is_empty blocks ≡ false
  unfolding lookup
  some_block [] n differs = absurd (differs refl)
  some_block (e ∷ blocks) n differs = refl

  -- The blocks that reach the encoder are those of the registered networks, in order.
  blocks_of :
      (state : SubgraphState) (latest_blocks : TreeMap BlockPtr)
      → IsSorted latest_blocks
      → set_block_numbers_for_next_epoch digest state latest_blocks
        ≡ encode_blocks digest
            (available_networks (registered_networks state))
            (registered_blocks (registered_networks state) latest_blocks)
  unfolding set_block_numbers_for_next_epoch
  blocks_of state latest_blocks s =
      let ns = registered_networks state in
      ap (λ m. encode_blocks digest (available_networks ns) (collect m))
        (known_blocks-registered ns latest_blocks s)
      ∙ ap (encode_blocks digest (available_networks ns)) (
          collect_sorted (registered_blocks ns latest_blocks)
            (registered-IsSorted ns latest_blocks s))

  encode_blocks_ok :
      (ns : Networks) (blocks : TreeMap BlockPtr) (ms : List CompressedMessage) (engine : Encoder)
      (bytes : List ℕ)
      → compress digest (Message.set_block_numbers_for_next_epoch blocks ∷ []) (encoder_of ns)
        ≡ (ok ms, engine)
      → serialize_messages {E = Error} ms [] ≡ ok bytes
      → encoder_eq engine (encoder_of ns) ≡ false
      → encode_blocks digest ns blocks ≡ ok bytes
  unfolding encode_blocks new_encoder encode
  encode_blocks_ok ns blocks ms engine bytes c e differs =
      rw (encode_blocks, c) (rw (e, differs) refl)

  encode_blocks_same :
      (ns : Networks) (blocks : TreeMap BlockPtr) (ms : List CompressedMessage) (bytes : List ℕ)
      → compress digest (Message.set_block_numbers_for_next_epoch blocks ∷ []) (encoder_of ns)
        ≡ (ok ms, encoder_of ns)
      → serialize_messages {E = Error} ms [] ≡ ok bytes
      → encode_blocks digest ns blocks ≡ panic
  unfolding encode_blocks new_encoder encode
  encode_blocks_same ns blocks ms bytes c e =
      rw (encode_blocks, c) (rw (e, encoder_eq_refl ns) refl)

  -- Where the registered networks have distinct identifiers, the latest blocks are an ordered map,
  -- no difference overflows, and a registered network gets a block whose number is not its old
  -- one: the payload is the encoding of one message, which moves every registered network to its
  -- own latest block, or leaves it where it has none.
  pub next_epoch_payload :
      (state : SubgraphState) (latest_blocks : TreeMap BlockPtr) (k : ℕ) (n : Str × Network)
      → IsDistinct (available_networks (registered_networks state))
      → IsSorted latest_blocks
      → All
          (λ (n : Str × Network).
            Fits n.1 (ptr_for (registered_blocks (registered_networks state) latest_blocks) n))
          (available_networks (registered_networks state))
      → get_elem? (available_networks (registered_networks state)) k ≡ some n
      → (ptr_for (registered_blocks (registered_networks state) latest_blocks) n).number
        ≢ n.1.block_number
      → (bytes : List ℕ) × (serialize_messages {E = Error}
            (new_blocks_message digest
                (registered_blocks (registered_networks state) latest_blocks)
                (available_networks (registered_networks state))
              ∷ [])
            []
          ≡ ok bytes)
        × (set_block_numbers_for_next_epoch digest state latest_blocks ≡ ok bytes)
  next_epoch_payload state latest_blocks k n d s fits here differs =
      let ns = registered_networks state in
      let blocks = registered_blocks ns latest_blocks in
      let message = new_blocks_message digest blocks (available_networks ns) in
      let (bytes, e) = serialize_messages_total {E = Error} (message ∷ []) [] (λ f. f, tt) in
      (
        bytes,
        e,
        blocks_of state latest_blocks s
            ∙ encode_blocks_ok (available_networks ns) blocks (message ∷ []) _ bytes
                (compress_one blocks (available_networks ns) (some_block blocks n differs) d
                  (registered-IsSorted ns latest_blocks s) (registered-AllKnown ns latest_blocks)
                  fits)
                e (moved_differs blocks (available_networks ns) k n here differs),
      )

  -- Where no registered network has an entry in the ordered map of the latest blocks, the code
  -- panics instead of giving a payload.
  pub no_registered_block_panics :
      (state : SubgraphState) (latest_blocks : TreeMap BlockPtr)
      → IsSorted latest_blocks
      → registered_blocks (registered_networks state) latest_blocks ≡ []
      → set_block_numbers_for_next_epoch digest state latest_blocks ≡ panic
  no_registered_block_panics state latest_blocks s none_left =
      let ns = available_networks (registered_networks state) in
      let message = CompressedMessage.set_block_numbers_for_next_epoch (empty 1) in
      let (bytes, e) = serialize_messages_total {E = Error} (message ∷ []) [] (λ f. f, tt) in
      blocks_of state latest_blocks s
      ∙ ap (encode_blocks digest ns) none_left
      ∙ encode_blocks_same ns [] (message ∷ []) bytes
          (compress-empties digest 0 (encoder_of ns) refl) e
