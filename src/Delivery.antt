-- ===== src/Delivery.antt =====
-- From the oracle to the subgraph: the payload that crates/oracle/src/runner/oracle.rs makes for a new
-- epoch, processed by packages/subgraph/src/mapping.ts.
use block_oracle.Prelude.{ℕ, ◌<◌, ◌≡◌, ◌≢◌, true, List, [], ◌∷◌, some, arith, length, get_elem?}
use block_oracle.Prelude.Outcome.{ok}
use block_oracle.Prelude.Text.{Str}
use block_oracle.Prelude.TreeMap.{TreeMap, IsSorted}
use block_oracle.Encoding.Messages.{BlockPtr, Bytes32}
use block_oracle.Encoding.Merkle.{merkle_root}
use block_oracle.Encoding.Merkle.Size.{merkle_root-Is32}
use block_oracle.Encoding.Encoder.{Network, Networks}
use block_oracle.Encoding.Encoder.Alignment.{IsDistinct}
use block_oracle.Encoding.Encoder.Blocks.{leaves_from, moved_networks}
use block_oracle.Encoding.Encoder.Fill.{ptr_for}
use block_oracle.Oracle.State.{SubgraphState, available_networks}
use block_oracle.Oracle.Payload.{registered_networks, set_block_numbers_for_next_epoch}
use block_oracle.Oracle.Payload.Registered.{registered_blocks}
use block_oracle.Oracle.Payload.NextEpoch.{next_epoch_payload}
use block_oracle.Subgraph.Store.{StoreCache}
use block_oracle.Subgraph.Linked.{Represents}
use block_oracle.Subgraph.Mapping.{Context, committed, process_payload}
use block_oracle.Subgraph.Mapping.Epochs.Agreement.{Readable, AllFit, Readable-AllFit}
use block_oracle.Subgraph.Mapping.Epochs.Payload.{process_payload-IsAccepted}
use block_oracle.Subgraph.Mapping.Epochs.GoesBack.{GoesBack, GoesBack-not_committed}
use block_oracle.Subgraph.Mapping.Permissions.{
  is_submitter_allowed, does_submitter_have_permission, tag_name,
}

-- The encoder's view of the networks that the oracle read from the subgraph.
abbrev pub networks_of : SubgraphState → Networks
networks_of state = available_networks (registered_networks state)

-- The pointer that each of them gets from the latest blocks.
abbrev pub pointer_of : SubgraphState → TreeMap BlockPtr → Str × Network → BlockPtr
pointer_of state latest_blocks =
    ptr_for (registered_blocks (registered_networks state) latest_blocks)

-- The submitter may set block numbers, and the Epoch Manager is at an epoch that is not the latest one.
pub record MaySubmit (x : Context) (c : StoreCache) (epoch : ℕ) : Type 0 where
  pub allowed : is_submitter_allowed c x.submitter x.block_number ≡ true
  pub permitted : does_submitter_have_permission c x.submitter (tag_name 0) ≡ true
  pub current : x.current_epoch ≡ some epoch
  pub fresh : c.state.latest_valid_epoch ≢ some epoch

lt-length_of_get :
    {A : Type 0} (xs : List A) (k : ℕ) {x : A} → get_elem? xs k ≡ some x → 0 < length xs
lt-length_of_get [] k h = cc
lt-length_of_get (x ∷ xs) k h = omega arith

module _ (digest : List ℕ → Bytes32) (sized : (input : List ℕ) → length (digest input) ≡ 32) where
  -- What the oracle submits arrives. The digest has 32 bytes; the networks that the oracle read are
  -- distinct, and the subgraph still has them; the latest blocks are an
  -- ordered map, one of them is new to the network at position `k`, no difference overflows and no
  -- network goes back; the submitter may set block numbers, and the Epoch Manager answers with an
  -- epoch that is not the latest one. Then the oracle gives a payload, the subgraph commits it, its
  -- networks are those of the oracle moved to their latest blocks, and of its state only the latest
  -- epoch has changed, to the new one.
  pub payload_is_committed :
      (state : SubgraphState) (latest_blocks : TreeMap BlockPtr) (k : ℕ) (n : Str × Network)
      (x : Context) (c : StoreCache) (epoch : ℕ)
      → IsDistinct (networks_of state)
      → IsSorted latest_blocks
      → Readable (pointer_of state latest_blocks) (networks_of state)
      → get_elem? (networks_of state) k ≡ some n
      → (pointer_of state latest_blocks n).number ≢ n.1.block_number
      → Represents c (networks_of state)
      → MaySubmit x c epoch
      → (bytes : List ℕ) × (c' : StoreCache) × (set_block_numbers_for_next_epoch digest state
            latest_blocks
          ≡ ok bytes)
        × (process_payload x bytes c ≡ committed c')
        × Represents c' (moved_networks (pointer_of state latest_blocks) (networks_of state))
        × (c'.state ≡ record c.state { latest_valid_epoch = some epoch })
  payload_is_committed state latest_blocks k n x c epoch d s h here differs rep may =
      let ns : Networks = networks_of state in
      let ptr : Str × Network → BlockPtr = pointer_of state latest_blocks in
      let (bytes, out, made) =
        next_epoch_payload digest state latest_blocks k n d s (Readable-AllFit ptr ns h) here
          differs in
      let (c', done, moved, latest) =
        process_payload-IsAccepted ptr ns (merkle_root digest (leaves_from ptr 0 ns)) epoch x c
          bytes (lt-length_of_get ns k here) d rep may.current may.fresh h
          (merkle_root-Is32 digest sized (leaves_from ptr 0 ns)) may.allowed may.permitted out in
      (bytes, c', made, done, moved, latest)

  -- A block before the last one of its network stops the epoch. The digest has 32 bytes; the networks
  -- that the oracle read are distinct, and the subgraph still has them;
  -- the latest blocks are an ordered map, one of them is new to the network at position `k`, no
  -- difference overflows, but some network goes back; the submitter may set block numbers, and the
  -- epoch is new. Then the oracle still gives a payload, and the subgraph does not commit it.
  pub stale_block_is_submitted :
      (state : SubgraphState) (latest_blocks : TreeMap BlockPtr) (k : ℕ) (n : Str × Network)
      (x : Context) (c : StoreCache) (epoch : ℕ)
      → IsDistinct (networks_of state)
      → IsSorted latest_blocks
      → AllFit (pointer_of state latest_blocks) (networks_of state)
      → GoesBack (pointer_of state latest_blocks) (networks_of state)
      → get_elem? (networks_of state) k ≡ some n
      → (pointer_of state latest_blocks n).number ≢ n.1.block_number
      → Represents c (networks_of state)
      → MaySubmit x c epoch
      → (bytes : List ℕ) × (set_block_numbers_for_next_epoch digest state latest_blocks ≡ ok bytes)
        × ((c' : StoreCache) → process_payload x bytes c ≢ committed c')
  stale_block_is_submitted state latest_blocks k n x c epoch d s fits back here differs rep may =
      let ns : Networks = networks_of state in
      let ptr : Str × Network → BlockPtr = pointer_of state latest_blocks in
      let root : Bytes32 = merkle_root digest (leaves_from ptr 0 ns) in
      let (bytes, out, made) =
        next_epoch_payload digest state latest_blocks k n d s fits here differs in
      (
        bytes,
        made,
        λ c'.
            GoesBack-not_committed ptr ns root epoch x c c' bytes (lt-length_of_get ns k here) d rep
              may.current may.fresh fits back (merkle_root-Is32 digest sized (leaves_from ptr 0 ns))
              out,
      )
