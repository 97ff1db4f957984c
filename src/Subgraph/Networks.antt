-- ===== src/Subgraph/Networks.antt =====
-- packages/subgraph/src/helpers.ts: the block number that the subgraph computes for a network from an
-- acceleration, against the encoder that computed the acceleration.
use block_oracle.Prelude.{◌≡◌, refl, Option, none, some}
use block_oracle.Prelude.Int.{ℤ, pos, ◌+ℤ◌, ◌-ℤ◌, int_laws}
use block_oracle.Encoding.Messages.{BlockPtr}
use block_oracle.Encoding.Encoder.{Network, as_i64}
use block_oracle.Encoding.Encoder.Blocks.{acceleration, delta, moved}

-- What the subgraph stores of a network in an epoch, in integers of any size.
pub record NetworkEpochBlockNumber : Type 0 where
  pub block_number : ℤ
  pub delta : ℤ
  pub acceleration : ℤ

-- `createOrUpdateNetworkEpochBlockNumber`: from the record of the network's latest valid block number.
unfoldable pub next_block_number : Option NetworkEpochBlockNumber → ℤ → NetworkEpochBlockNumber
next_block_number none a = record { block_number = a; delta = a; acceleration = a }
next_block_number (some previous) a = record {
  block_number = previous.block_number +ℤ (previous.delta +ℤ a);
  delta = previous.delta +ℤ a;
  acceleration = a;
}

-- The subgraph holds for a network what the encoder holds.
abbrev pub Agrees : NetworkEpochBlockNumber → Network → Type 0
Agrees s n = (s.block_number ≡ as_i64 n.block_number) × (s.delta ≡ n.block_delta)

regain : (d x : ℤ) → d +ℤ (x -ℤ d) ≡ x
regain d x = omega int_laws

-- Where the subgraph agrees with the encoder on a network, it agrees again after the acceleration for
-- the network's next block.
pub next_block_number-Agrees :
    (s : NetworkEpochBlockNumber) (n : Network) (ptr : BlockPtr)
    → Agrees s n
    → Agrees (next_block_number (some s) (acceleration n ptr)) (moved n ptr)
unfolding next_block_number
next_block_number-Agrees s n ptr h =
    rw (h.0, h.1, regain n.block_delta (delta n ptr))
      (regain (as_i64 n.block_number) (as_i64 ptr.number), refl)

-- A network without a block number agrees after its first block, where the encoder starts from 0.
pub next_block_number_first :
    (n : Network) (ptr : BlockPtr)
    → n.block_number ≡ 0
    → n.block_delta ≡ pos 0
    → Agrees (next_block_number none (acceleration n ptr)) (moved n ptr)
unfolding next_block_number
next_block_number_first n ptr h k =
    rw (h, k) (from_zero (as_i64 ptr.number), from_zero_delta (as_i64 ptr.number))
  where
    from_zero : (x : ℤ) → x -ℤ pos 0 -ℤ pos 0 ≡ x
    from_zero x = omega int_laws

    from_zero_delta : (x : ℤ) → x -ℤ pos 0 -ℤ pos 0 ≡ x -ℤ pos 0
    from_zero_delta x = omega int_laws
