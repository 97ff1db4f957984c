-- ===== src/Encoding/Merkle.antt =====
-- crates/encoding/src/merkle.rs: the Merkle root of the block pointers of an epoch. `digest` stands
-- for the Keccak-256 hasher of `tiny_keccak`: the hash of the bytes that it was fed.
pub mod Level
pub mod Root
pub mod Size
use block_oracle.Prelude.{
  ℕ, zero, suc, ◌+◌, ◌-◌, ◌*◌, ◌/◌, ◌%◌, ◌^◌, true, false, List, [], ◌∷◌, ◌++◌, map, length, set,
  take, ltb, if◌then◌else◌,
}
use block_oracle.Prelude.Text.{str_compare}
use block_oracle.Encoding.Messages.{Bytes32, NetworkIndex, zero_hash}
use block_oracle.Encoding.Varint.{le_bytes}
use Prim.Native.Nat.Ordering.{lt, eq, gt}

pub record MerkleLeaf : Type 0 where
  pub network_index : NetworkIndex
  pub block_number : ℕ
  pub block_hash : Bytes32

-- `scratch[i]`; the loop tests that the index is in range before each read.
unfoldable pub elem : List Bytes32 → ℕ → Bytes32
elem [] i = zero_hash
elem (x ∷ xs) zero = x
elem (x ∷ xs) (suc i) = elem xs i

-- `scratch.first().cloned().unwrap_or_default()`
abbrev pub first_or_default : List Bytes32 → Bytes32
first_or_default [] = zero_hash
first_or_default (x ∷ xs) = x

-- `a.min(b)` and `a.max(b)` of arrays, which are ordered byte by byte.
unfoldable pub min_bytes : Bytes32 → Bytes32 → Bytes32
min_bytes a b = elim (str_compare b a) [ lt ↦ b | eq ↦ a | gt ↦ a ]

unfoldable pub max_bytes : Bytes32 → Bytes32 → Bytes32
max_bytes a b = elim (str_compare b a) [ lt ↦ a | eq ↦ b | gt ↦ b ]

module _ (digest : List ℕ → Bytes32) where
  unfoldable pub leaf_hash : MerkleLeaf → Bytes32
  leaf_hash leaf =
      digest (le_bytes 8 leaf.network_index ++ (le_bytes 8 leaf.block_number ++ leaf.block_hash))

  unfoldable pub combine : Bytes32 → Bytes32 → Bytes32
  unfolding min_bytes max_bytes
  combine a b = digest (min_bytes a b ++ max_bytes a b)

  -- The loop over pairs, in place: the new scratch, `write` and `read`. Each round moves `read` two
  -- on, so `length scratch` rounds are more than enough.
  unfoldable pub pair_loop : ℕ → List Bytes32 → ℕ → ℕ → List Bytes32 × ℕ × ℕ
  pair_loop zero scratch write read = (scratch, write, read)
  pair_loop (suc fuel) scratch write read =
      let next =
        pair_loop fuel (set scratch write (combine (elem scratch read) (elem scratch (read + 1))))
          (write + 1) (read + 2) in
      if ltb (read + 1) (length scratch) then next else (scratch, write, read)

  -- The odd one out is moved down: the new scratch and `write`.
  unfoldable pub move_last : List Bytes32 × ℕ × ℕ → List Bytes32 × ℕ
  move_last (scratch, write, read) =
      if ltb read (length scratch)
      then (set scratch write (elem scratch read), write + 1)
      else (scratch, write)

  -- `scratch.truncate(write - 1)`
  abbrev truncate_level : List Bytes32 × ℕ → List Bytes32
  truncate_level (scratch, write) = take (write - 1) scratch

  -- One round of the outer loop.
  unfoldable pub level : List Bytes32 → List Bytes32
  unfolding pair_loop move_last
  level scratch = truncate_level (move_last (pair_loop (length scratch) scratch 0 0))

  -- `while scratch.len() > 1`; each round makes the scratch shorter.
  unfoldable pub level_loop : ℕ → List Bytes32 → List Bytes32
  level_loop zero scratch = scratch
  level_loop (suc fuel) scratch =
      let next = level_loop fuel (level scratch) in if ltb 1 (length scratch) then next else scratch

  unfoldable pub merkle_root : List MerkleLeaf → Bytes32
  unfolding level_loop
  merkle_root leaves =
      let scratch = map leaf_hash leaves in first_or_default (level_loop (length scratch) scratch)
