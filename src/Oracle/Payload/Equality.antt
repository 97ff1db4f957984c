-- ===== src/Oracle/Payload/Equality.antt =====
-- `==` on the encoder of crates/encoding/src/lib.rs, as Rust derives it from the fields.
use block_oracle.Prelude.{ℕ, Bool, true, false, ◌&&◌, List, [], ◌∷◌, ◌==◌}
use block_oracle.Prelude.Int.{ℤ, pos, negsuc}
use block_oracle.Prelude.Text.{str_eq}
use block_oracle.Encoding.Messages.{
  EpochDetails, CompressedMessage, CompressedSetBlockNumbers, empty, non_empty,
}
use block_oracle.Encoding.Encoder.{Network, Encoder}

unfoldable pub list_eq : {A : Type 0} → (A → A → Bool) → List A → List A → Bool
list_eq eq [] [] = true
list_eq eq [] (y ∷ ys) = false
list_eq eq (x ∷ xs) [] = false
list_eq eq (x ∷ xs) (y ∷ ys) = eq x y && list_eq eq xs ys

abbrev pair_eq : {A B : Type 0} → (A → A → Bool) → (B → B → Bool) → A × B → A × B → Bool
pair_eq eq eq' p q = eq p.0 q.0 && eq' p.1 q.1

abbrev pub int_eq : ℤ → ℤ → Bool
int_eq (pos m) (pos n) = m == n
int_eq (pos m) (negsuc n) = false
int_eq (negsuc m) (pos n) = false
int_eq (negsuc m) (negsuc n) = m == n

abbrev numbers_eq : List ℕ → List ℕ → Bool
numbers_eq = list_eq (λ m n. m == n)

abbrev details_eq : EpochDetails → EpochDetails → Bool
details_eq d e = numbers_eq d.tx_hash e.tx_hash && numbers_eq d.merkle_root e.merkle_root

abbrev block_numbers_eq : CompressedSetBlockNumbers → CompressedSetBlockNumbers → Bool
block_numbers_eq (empty m) (empty n) = m == n
block_numbers_eq (non_empty a r) (non_empty b s) = list_eq int_eq a b && numbers_eq r s
block_numbers_eq m n = false

unfoldable pub message_eq : CompressedMessage → CompressedMessage → Bool
unfolding list_eq
message_eq (CompressedMessage.set_block_numbers_for_next_epoch m)
      (CompressedMessage.set_block_numbers_for_next_epoch n) =
    block_numbers_eq m n
message_eq (CompressedMessage.correct_epochs d) (CompressedMessage.correct_epochs e) =
    list_eq (pair_eq (λ m n. m == n) details_eq) d e
message_eq (CompressedMessage.register_networks r a) (CompressedMessage.register_networks s b) =
    numbers_eq r s && list_eq str_eq a b
message_eq (CompressedMessage.update_version v) (CompressedMessage.update_version w) = v == w
message_eq CompressedMessage.reset CompressedMessage.reset = true
message_eq (CompressedMessage.register_networks_and_aliases r a)
      (CompressedMessage.register_networks_and_aliases s b) =
    numbers_eq r s && list_eq (pair_eq str_eq str_eq) a b
message_eq (CompressedMessage.change_permissions a v p)
      (CompressedMessage.change_permissions b w q) =
    numbers_eq a b && v == w && numbers_eq p q
message_eq m n = false

abbrev pub network_eq : Network → Network → Bool
network_eq m n =
    m.block_number == n.block_number
    && int_eq m.block_delta n.block_delta
    && m.array_index == n.array_index

unfoldable pub encoder_eq : Encoder → Encoder → Bool
unfolding list_eq message_eq
encoder_eq d e =
    list_eq (pair_eq str_eq network_eq) d.networks e.networks
    && d.encoding_version == e.encoding_version
    && list_eq message_eq d.compressed e.compressed
