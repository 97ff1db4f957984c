-- ===== src/Subgraph/Mapping/Epochs/Stored.antt =====
-- A block number that the handler of new epochs in packages/subgraph/src/mapping.ts has stored.
use block_oracle.Prelude.{ℕ, ◌≡◌, refl, false, Option, none, some, arith, ==_iff}
use block_oracle.Prelude.Int.{ℤ}
use block_oracle.Prelude.Text.{Str, str_eq, str_eq_iff}
use block_oracle.Encoding.Messages.{BlockPtr}
use block_oracle.Encoding.Encoder.{Networks, network_index}
use block_oracle.Encoding.Encoder as E
use block_oracle.Encoding.Encoder.Blocks.{acceleration, moved}
use block_oracle.Subgraph.Networks.{
  NetworkEpochBlockNumber, next_block_number, Agrees, next_block_number-Agrees,
  next_block_number_first,
}
use block_oracle.Subgraph.Store.{
  Network, StoreCache, get_network, put_network, put_block_number, get_network_epoch_block_number,
}
use block_oracle.Subgraph.Active.{previous_block_number, create_or_update_block_number}
use block_oracle.Subgraph.Linked.{LatestAgrees, SameFor}

pub next-LatestAgrees :
    (o : Option NetworkEpochBlockNumber) (n : E.Network) (ptr : BlockPtr)
    → LatestAgrees o n
    → Agrees (next_block_number o (acceleration n ptr)) (moved n ptr)
next-LatestAgrees none n ptr h = next_block_number_first n ptr h.0 h.1
next-LatestAgrees (some s) n ptr h = next_block_number-Agrees s n ptr h

-- The cache after a network's block number is stored.
abbrev pub stored : Str → Network → ℕ → ℤ → StoreCache → StoreCache
stored id s e a c =
    put_network id (record s { latest_valid_block_number = some (e, id) })
      (put_block_number e id (next_block_number (previous_block_number s c) a) c)

pub create_or_update_stored :
    (id : Str) (e : ℕ) (a : ℤ) (c : StoreCache) (s : Network)
    → c.networks id ≡ some s
    → create_or_update_block_number id e a c
      ≡ (next_block_number (previous_block_number s c) a, stored id s e a c)
unfolding create_or_update_block_number get_network
create_or_update_stored id e a c s h = rw (get_network, h)

pub stored-SameFor :
    (id : Str) (s : Network) (e : ℕ) (a : ℤ) (c : StoreCache) (j : Str)
    → str_eq j id ≡ false
    → SameFor c (stored id s e a c) j
unfolding put_network put_block_number
stored-SameFor id s e a c j h = (rw h, λ i. ground arith)

pub same_state :
    (id : Str) (s : Network) (e : ℕ) (a : ℤ) (c : StoreCache) → (stored id s e a c).state ≡ c.state
unfolding put_network put_block_number
same_state id s e a c = refl

pub same_messages :
    (id : Str) (s : Network) (e : ℕ) (a : ℤ) (c : StoreCache)
    → (stored id s e a c).set_block_numbers_messages ≡ c.set_block_numbers_messages
unfolding put_network put_block_number
same_messages id s e a c = refl

-- The network that is stored agrees with the encoder's network after its new block.
pub stored-Agrees :
    (id : Str) (s : Network) (e : ℕ) (n : E.Network) (ptr : BlockPtr) (c : StoreCache)
    → LatestAgrees (previous_block_number s c) n
    → LatestAgrees
        (previous_block_number
          (record s { latest_valid_block_number = some (e, id) })
          (stored id s e (acceleration n ptr) c))
        (moved n ptr)
unfolding previous_block_number get_network_epoch_block_number put_network put_block_number
stored-Agrees id s e n ptr c h =
    rw ((==_iff e e).1 refl, (str_eq_iff id id).1 refl)
      (next-LatestAgrees (previous_block_number s c) n ptr h)
