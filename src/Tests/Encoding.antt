-- ===== src/Tests/Encoding.antt =====
-- Instances of the theorems on crates/encoding: two networks, of which one has a new block.
use block_oracle.Prelude.{
  length, ℕ, zero, suc, ◌≡◌, ◌≢◌, refl, false, List, [], ◌∷◌, ◌++◌, map, arith, none, some, All,
  take, get_elem?, inl, inr, Option, ap, sym, ◌∙◌,
}
use block_oracle.Prelude.Int.{pos, negsuc, ◌-ℤ◌}
use block_oracle.Prelude.Outcome.{ok, err, panic}
use block_oracle.Prelude.Text.{Str, bytes_of, str_compare}
use block_oracle.Prelude.TreeMap.{TreeMap, IsSorted, lookup}
use block_oracle.Encoding.Messages.{
  Bytes32, BlockPtr, CompressedMessage, Message, zero_hash, non_empty,
}
use block_oracle.Encoding.Serialize.{serialize_messages}
use block_oracle.Encoding.Serialize.Totality.{serialize_messages_total, serialize_messages_panics}
use block_oracle.Encoding.Merkle.{MerkleLeaf, leaf_hash, merkle_root, first_or_default}
use block_oracle.Encoding.Merkle.Root.{levels, merkle_root-levels, merkle_root_ignores_last}
use block_oracle.Encoding.Encoder.{
  Encoder, Error, Network, Networks, compress, compress_block_ptrs, invalid_network_id,
  network_index, remove_network, sort_network_data_by_index, is_update_version, last_message,
}
use block_oracle.Encoding.Encoder.Alignment.{sort_network_data_by_index-map}
use block_oracle.Encoding.Encoder.Fill.{ptr_for}
use block_oracle.Encoding.Encoder.Blocks.{
  Fits, moved_networks, accelerations_of, leaves_from, compress_block_ptrs_lem,
  compress_block_ptrs_unknown,
}
use block_oracle.Encoding.Encoder.Batch.{
  empties, empty_set, replicate, compress-empties, compress_after_update_version,
}
use block_oracle.Encoding.Encoder.Registry.{remove_network_lem, compress_removal_panics}

-- The first 32 bytes, in place of a hash.
abbrev toy_digest : List ℕ → Bytes32
toy_digest bytes = take 32 (bytes ++ zero_hash)

abbrev mainnet : Str
mainnet = bytes_of "eip155:1"

abbrev gnosis : Str
gnosis = bytes_of "eip155:100"

abbrev two_networks : Networks
two_networks =
    (gnosis, record { block_number = 20; block_delta = pos 5; array_index = 0 })
    ∷ (mainnet, record { block_number = 50; block_delta = negsuc 1; array_index = 1 })
    ∷ []

abbrev encoder : Encoder
encoder = record { networks = two_networks; encoding_version = 0; compressed = [] }

abbrev ptr_27 : BlockPtr
ptr_27 = record { number = 27; hash = zero_hash }

abbrev gnosis_moves : TreeMap BlockPtr
gnosis_moves = (gnosis, ptr_27) ∷ []

gnosis_found : network_index gnosis two_networks ≡ some 0
unfolding network_index str_compare
gnosis_found = refl

mainnet_found : network_index mainnet two_networks ≡ some 1
unfolding network_index str_compare
mainnet_found = refl

distinct :
    network_index gnosis
      ((mainnet, record { block_number = 50; block_delta = negsuc 1; array_index = 1 }) ∷ [])
    ≡ none
unfolding network_index str_compare
distinct = refl

some≢none : {k : ℕ} → Path (Option ℕ) (some k) none → ⊥
some≢none p = cc

known_gnosis : network_index gnosis two_networks ≢ none
known_gnosis e = some≢none (sym gnosis_found ∙ e)

known_mainnet : network_index mainnet two_networks ≢ none
known_mainnet e = some≢none (sym mainnet_found ∙ e)

no_network : (id : Str) → network_index id [] ≡ none
unfolding network_index
no_network id = refl

fits : All (λ (n : Str × Network). Fits n.1 (ptr_for gnosis_moves n)) two_networks
unfolding ◌-ℤ◌ lookup str_compare
fits = (
  ((omega arith, omega arith), (omega arith, omega arith)),
  (((omega arith, omega arith), (omega arith, omega arith)), tt),
)

compress_block_ptrs_lem_example : compress_block_ptrs toy_digest gnosis_moves encoder ≡ (
  ok tt,
  record encoder {
    networks = moved_networks (ptr_for gnosis_moves) two_networks;
    compressed =
        CompressedMessage.set_block_numbers_for_next_epoch (
          non_empty
            (accelerations_of (ptr_for gnosis_moves) two_networks)
            (merkle_root toy_digest (leaves_from (ptr_for gnosis_moves) 0 two_networks)))
        ∷ [];
  },
)
compress_block_ptrs_lem_example =
    compress_block_ptrs_lem toy_digest gnosis_moves encoder (distinct, (no_network mainnet, tt))
      (tt, tt) (known_gnosis, tt) fits

unknown_chain : network_index (bytes_of "eip155:5") two_networks ≡ none
unfolding network_index str_compare
unknown_chain = refl

found_ptr : lookup (bytes_of "eip155:5") ((bytes_of "eip155:5", ptr_27) ∷ []) ≡ some ptr_27
unfolding lookup str_compare
found_ptr = refl

compress_block_ptrs_unknown_example :
    (j : Str) × (network_index j two_networks ≡ none)
    × (compress_block_ptrs toy_digest ((bytes_of "eip155:5", ptr_27) ∷ []) encoder
        ≡ (err (invalid_network_id j), encoder))
compress_block_ptrs_unknown_example =
    compress_block_ptrs_unknown toy_digest ((bytes_of "eip155:5", ptr_27) ∷ []) encoder
      (bytes_of "eip155:5") ptr_27 found_ptr unknown_chain

-- The numbers of the two networks, in the order of their identifiers.
abbrev numbers : TreeMap ℕ
numbers = (mainnet, 50) ∷ (gnosis, 20) ∷ []

numbers-IsSorted : IsSorted numbers
unfolding str_compare
numbers-IsSorted = ((refl, tt), (tt, tt))

numbers_full :
    (k : ℕ) (n : Str × Network)
    → get_elem? two_networks k ≡ some n
    → lookup n.0 numbers ≡ some n.1.block_number
unfolding lookup str_compare
numbers_full zero n h =
    ap (λ (o : Option (Str × Network)). elim o [ none ↦ none | some m ↦ lookup m.0 numbers ])
      (sym h)
    ∙ ap (λ (o : Option (Str × Network)). elim o [ none ↦ none | some m ↦ some m.1.block_number ]) h
numbers_full (suc zero) n h =
    ap (λ (o : Option (Str × Network)). elim o [ none ↦ none | some m ↦ lookup m.0 numbers ])
      (sym h)
    ∙ ap (λ (o : Option (Str × Network)). elim o [ none ↦ none | some m ↦ some m.1.block_number ]) h
numbers_full (suc (suc k)) n h = cc

sort_network_data_by_index-map_example :
    sort_network_data_by_index two_networks numbers
    ≡ ok (map (λ (n : Str × Network). n.1.block_number) two_networks)
sort_network_data_by_index-map_example =
    sort_network_data_by_index-map two_networks numbers (λ n. n.1.block_number)
      (distinct, (no_network mainnet, tt)) numbers-IsSorted (known_mainnet, (known_gnosis, tt))
      numbers_full

compress-empties_example :
    compress toy_digest (replicate 3 empty_set) encoder ≡ (ok (empties 3 ∷ []), encoder)
compress-empties_example = compress-empties toy_digest 2 encoder refl

compress_after_update_version_example :
    (compress toy_digest (Message.reset ∷ Message.update_version 0 ∷ Message.reset ∷ []) encoder).0
    ≢ ok (
        CompressedMessage.reset ∷ CompressedMessage.update_version 0 ∷ CompressedMessage.reset ∷ [])
compress_after_update_version_example =
    compress_after_update_version toy_digest (Message.reset ∷ []) [] 0 Message.reset encoder
      (CompressedMessage.reset ∷ CompressedMessage.update_version 0 ∷ CompressedMessage.reset ∷ [])

abbrev mainnet_only : Networks
mainnet_only = (mainnet, record { block_number = 50; block_delta = negsuc 1; array_index = 1 }) ∷ []

gnosis_removed : remove_network 0 two_networks ≡ some mainnet_only
unfolding remove_network
gnosis_removed = refl

remove_network_lem_example :
    (front : Networks) × (n : Str × Network) × (back : Networks) × (two_networks
      ≡ front ++ (n ∷ back))
    × (mainnet_only ≡ front ++ back)
    × (n.1.array_index ≡ 0)
    × All (λ (m : Str × Network). m.1.array_index ≢ 0) front
remove_network_lem_example = remove_network_lem 0 two_networks mainnet_only gnosis_removed

no_third : remove_network 2 two_networks ≡ none
unfolding remove_network
no_third = refl

nothing_pending : is_update_version (last_message encoder.compressed) ≡ false
unfolding last_message
nothing_pending = refl

compress_removal_panics_example :
    (compress toy_digest
      (Message.register_networks [] (bytes_of "eip155:5" ∷ [])
        ∷ Message.register_networks (2 ∷ []) []
        ∷ [])
      encoder).0
    ≡ panic
compress_removal_panics_example =
    compress_removal_panics toy_digest (bytes_of "eip155:5" ∷ []) [] 2 encoder nothing_pending
      (omega arith) no_third

serialize_messages_total_example :
    (out : List ℕ) × (serialize_messages {E = Error}
        (CompressedMessage.reset ∷ CompressedMessage.update_version 0 ∷ [])
        []
      ≡ ok out)
serialize_messages_total_example =
    serialize_messages_total {E = Error}
      (CompressedMessage.reset ∷ CompressedMessage.update_version 0 ∷ []) [] (λ f. f, (λ f. f, tt))

serialize_messages_panics_example :
    serialize_messages {E = Error}
      (CompressedMessage.reset ∷ CompressedMessage.correct_epochs [] ∷ [])
      []
    ≡ panic
serialize_messages_panics_example =
    serialize_messages_panics {E = Error}
      (CompressedMessage.reset ∷ CompressedMessage.correct_epochs [] ∷ []) [] (inr (inl tt))

abbrev leaf : ℕ → MerkleLeaf
leaf n = record { network_index = n; block_number = n; block_hash = zero_hash }

merkle_root-levels_example :
    merkle_root toy_digest (leaf 0 ∷ leaf 1 ∷ leaf 2 ∷ [])
    ≡ first_or_default
        (levels toy_digest 3 (map (leaf_hash toy_digest) (leaf 0 ∷ leaf 1 ∷ leaf 2 ∷ [])))
merkle_root-levels_example = merkle_root-levels toy_digest (leaf 0 ∷ leaf 1 ∷ leaf 2 ∷ [])

merkle_root_ignores_last_example :
    merkle_root toy_digest (leaf 0 ∷ leaf 1 ∷ leaf 2 ∷ [])
    ≡ merkle_root toy_digest (leaf 0 ∷ leaf 1 ∷ leaf 3 ∷ [])
merkle_root_ignores_last_example =
    merkle_root_ignores_last toy_digest (leaf 0) (leaf 1 ∷ []) (leaf 2) (leaf 3)

-- A digest of 32 bytes.
abbrev pub first_byte_digest : List ℕ → Bytes32
first_byte_digest [] = zero_hash
first_byte_digest (b ∷ bytes) =
    b ∷ 0 ∷ 0 ∷ 0 ∷ 0 ∷ 0 ∷ 0 ∷ 0 ∷ 0 ∷ 0 ∷ 0 ∷ 0 ∷ 0 ∷ 0 ∷ 0 ∷ 0 ∷ 0 ∷ 0 ∷ 0 ∷ 0 ∷ 0 ∷ 0 ∷ 0 ∷ 0
    ∷ 0 ∷ 0 ∷ 0 ∷ 0 ∷ 0 ∷ 0 ∷ 0 ∷ 0 ∷ []

pub length-first_byte_digest : (input : List ℕ) → length (first_byte_digest input) ≡ 32
length-first_byte_digest [] = refl
length-first_byte_digest (b ∷ bytes) = refl
