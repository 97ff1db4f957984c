-- ===== src/Subgraph/Mapping/Listed/Registry.antt =====
-- The handlers of packages/subgraph/src/mapping.ts that change the list of networks leave it
-- well-formed.
use block_oracle.Prelude.{
  ℕ, ◌≡◌, ◌≢◌, refl, ◌∙◌, sym, true, false, List, [], ◌∷◌, ◌++◌, Option, some, All, All-append,
  length,
}
use block_oracle.Prelude.Int.{ℤ}
use block_oracle.Prelude.Text.{Str}
use block_oracle.Subgraph.Decoding.{BytesReader, decode_u64}
use block_oracle.Subgraph.Store.{MessageId, StoreCache, PermissionSet, reset_global_state}
use block_oracle.Subgraph.Active.{done}
use block_oracle.Subgraph.Chain.{IsUnique, IsListed, IsWellFormed}
use block_oracle.Subgraph.Mapping.Registry.{
  Aliases, Insertions, as_i32, rounds, decode_removals, take_out, wrap, flat, insert_networks,
  insert_networks_and_aliases, count_networks, insert_and_commit, change_networks,
  execute_register_networks, execute_register_networks_and_aliases, execute_reset_state,
}
use block_oracle.Subgraph.Mapping.Links.{commit_network_changes}
use block_oracle.Subgraph.Mapping.Listed.{
  IsActive, IsKept, either_case, either_trap, after_walk, All-map, Chain-IsActive,
  commit_network_changes-IsListed,
}
use block_oracle.Subgraph.Mapping.Listed.Insertions.{
  IsInserted, IsUnique-append, insert_networks-IsInserted, insert_networks_and_aliases-IsInserted,
}
use block_oracle.Subgraph.Mapping.Listed.Removals.{flat-wrap, All-take_out, IsUnique-take_out}

All-swap :
    (R : Str → Str → Type 0) (xs ys : List Str)
    → All (λ (y : Str). All (λ (x : Str). R x y) xs) ys
    → All (λ (x : Str). All (λ (y : Str). R x y) ys) xs
All-swap R [] ys h = tt
All-swap R (x ∷ xs) ys h = (All-map ys (λ y k. k.0) h, All-swap R xs ys (All-map ys (λ y k. k.1) h))

module _ (insert : ℕ → Insertions → Insertions) (ids : List Str)
    (inserts : (count : ℕ) (i : Insertions)
      → IsInserted ids i
      → (insert count i).reader.ok ≡ true
      → IsInserted ids (insert count i)) where
  -- The networks that are left and those inserted, where those removed are others.
  inserted-IsListed :
      (x : List Str × List (Option Str)) (message : MessageId) (value : ℤ) (ks : List ℤ)
      (i : Insertions)
      → IsUnique ids
      → take_out ks (wrap ids) ≡ some x
      → IsInserted ids i
      → IsWellFormed (
          commit_network_changes x.0
            (flat x.1 ++ i.added)
            message
            (count_networks value i.reinsertions i.cache))
  inserted-IsListed x message value ks i u taken (before, added, unique, apart) =
      let left : List Str = flat x.1 in
      let (left_unique, left_apart) =
        IsUnique-take_out ks (wrap ids) x taken (rw (flat-wrap ids) u) in
      let part : (P : Str → Type 0) → All P ids → All P x.0 × All P left =
        λ P h. All-take_out P ks (wrap ids) x taken (rw (flat-wrap ids) h) in
      (
        left ++ i.added,
        commit_network_changes-IsListed x.0 (left ++ i.added) message
            (count_networks value i.reinsertions i.cache)
            (IsUnique-append left i.added left_unique unique
              (All-map i.added (λ y others. (part (λ j. j ≢ y) others).1) apart))
            (All-append (IsActive i.cache) left i.added (part (IsActive i.cache) before).1 added)
            (All-append (λ j. All (λ (r : Str). j ≢ r) x.0) left i.added
              (All-swap (λ j r. j ≢ r) left x.0 left_apart)
              (All-map i.added
                (λ y others. All-map x.0 (λ r other e. other (sym e)) (part (λ j. j ≢ y) others).0)
                apart)),
      )

  insert_and_commit-IsKept :
      (x : List Str × List (Option Str)) (message : MessageId) (ks : List ℤ) (c : StoreCache)
      (r : BytesReader)
      → IsListed c ids
      → take_out ks (wrap ids) ≡ some x
      → IsKept (done (insert_and_commit insert x.0 (flat x.1) message c r))
  insert_and_commit-IsKept x message ks c r h taken =
      let (value, r') = decode_u64 r in
      let start : Insertions = record { cache = c; reader = r'; added = []; reinsertions = 0 } in
      let i : Insertions = insert (rounds (as_i32 value)) start in
      let P : StoreCache × BytesReader → Type 0 = λ y. IsKept (done y) in
      either_case P r'.ok _ (c, r')
        (λ fine.
          either_case P i.reader.ok _ (i.cache, i.reader)
            (λ fine' ok. inserted-IsListed x message (as_i32 value) ks i h.1 taken (
              inserts (rounds (as_i32 value)) start
                (Chain-IsActive c c.state.network_array_head ids h.0, tt, tt, tt) fine'))
            (λ failed fine'. let no : true ≡ false = sym fine' ∙ failed in cc))
        (λ failed fine. (ids, h))

  change_networks-IsKept :
      (message : MessageId) (c : StoreCache) (r : BytesReader)
      → IsListed c ids
      → IsKept (change_networks insert ids message c r)
  unfolding change_networks
  change_networks-IsKept message c r h =
      let (value, r₁) = decode_u64 r in
      let (ks, r₂) = decode_removals (rounds (as_i32 value)) (length ids) r₁ in
      either_case IsKept r₁.ok _ (done (c, r₁))
        (λ fine.
          either_case IsKept r₂.ok _ (done (c, r₂))
            (λ fine'.
              either_trap (take_out ks (wrap ids))
                (λ x. done (insert_and_commit insert x.0 (flat x.1) message c r₂))
                (λ x taken. insert_and_commit-IsKept x message ks c r₂ h taken))
            (λ failed ok. (ids, h)))
        (λ failed ok. (ids, h))

pub register_networks-IsKept :
    (aliases : Aliases) (message : MessageId) (c : StoreCache) (r : BytesReader)
    → IsWellFormed c
    → IsKept (execute_register_networks aliases message c r)
unfolding execute_register_networks
register_networks-IsKept aliases message c r (ids, h) =
    after_walk c ids (λ x. change_networks (insert_networks aliases message) x.0 message x.1 r) h
      (change_networks-IsKept (insert_networks aliases message) ids
        (insert_networks-IsInserted aliases message ids) message c r h)

pub register_networks_and_aliases-IsKept :
    (message : MessageId) (c : StoreCache) (r : BytesReader)
    → IsWellFormed c
    → IsKept (execute_register_networks_and_aliases message c r)
unfolding execute_register_networks_and_aliases
register_networks_and_aliases-IsKept message c r (ids, h) =
    after_walk c ids (λ x. change_networks (insert_networks_and_aliases message) x.0 message x.1 r)
      h
      (change_networks-IsKept (insert_networks_and_aliases message) ids
        (insert_networks_and_aliases-IsInserted message ids) message c r h)

-- After a reset the list is empty.
pub reset_state-IsKept :
    (initial : PermissionSet) (message : MessageId) (c : StoreCache) (r : BytesReader)
    → IsWellFormed c
    → IsKept (execute_reset_state initial message c r)
unfolding execute_reset_state reset_global_state
reset_state-IsKept initial message c r (ids, h) =
    after_walk c ids _ h (λ fine. ([], (refl, tt, refl)))
