-- ===== src/Encoding/Merkle/Size.antt =====
-- crates/encoding/src/merkle.rs: the root has the size of a hash, as the type `[u8; 32]` says.
use block_oracle.Prelude.{ℕ, zero, suc, ◌≡◌, refl, List, [], ◌∷◌, map, length, All}
use block_oracle.Encoding.Messages.{Bytes32}
use block_oracle.Encoding.Merkle.{MerkleLeaf, leaf_hash, combine, first_or_default, merkle_root}
use block_oracle.Encoding.Merkle.Level.{pair_up, drop_last}
use block_oracle.Encoding.Merkle.Root.{levels, merkle_root-levels}

abbrev pub Is32 : Bytes32 → Type 0
Is32 h = length h ≡ 32

drop_last-Is32 : (xs : List Bytes32) → All Is32 xs → All Is32 (drop_last xs)
drop_last-Is32 [] h = tt
drop_last-Is32 (x ∷ []) h = tt
drop_last-Is32 (x ∷ y ∷ r) h = (h.0, drop_last-Is32 (y ∷ r) h.1)

first-Is32 : (xs : List Bytes32) → All Is32 xs → Is32 (first_or_default xs)
first-Is32 [] h = refl
first-Is32 (x ∷ xs) h = h.0

module _ (digest : List ℕ → Bytes32) (sized : (input : List ℕ) → Is32 (digest input)) where
  pair_up-Is32 : (xs : List Bytes32) → All Is32 xs → All Is32 (pair_up digest xs)
  unfolding combine
  pair_up-Is32 [] h = tt
  pair_up-Is32 (x ∷ []) h = h
  pair_up-Is32 (x ∷ y ∷ r) h = (sized _, pair_up-Is32 r h.1.1)

  levels-Is32 : (n : ℕ) (xs : List Bytes32) → All Is32 xs → All Is32 (levels digest n xs)
  unfolding levels
  levels-Is32 zero xs h = h
  levels-Is32 (suc n) [] h = tt
  levels-Is32 (suc n) (x ∷ []) h = h
  levels-Is32 (suc n) (x ∷ y ∷ r) h =
      levels-Is32 n (drop_last (pair_up digest (x ∷ y ∷ r)))
        (drop_last-Is32 (pair_up digest (x ∷ y ∷ r)) (pair_up-Is32 (x ∷ y ∷ r) h))

  hashes-Is32 : (leaves : List MerkleLeaf) → All Is32 (map (leaf_hash digest) leaves)
  unfolding leaf_hash
  hashes-Is32 [] = tt
  hashes-Is32 (leaf ∷ leaves) = (sized _, hashes-Is32 leaves)

  -- The root has 32 bytes for every list of leaves, also for an empty one, if the digest has.
  pub merkle_root-Is32 : (leaves : List MerkleLeaf) → Is32 (merkle_root digest leaves)
  merkle_root-Is32 leaves =
      let hashes : List Bytes32 = map (leaf_hash digest) leaves in
      rw (merkle_root-levels digest leaves) (
        first-Is32 (levels digest (length hashes) hashes)
          (levels-Is32 (length hashes) hashes (hashes-Is32 leaves)))
