-- ===== src/Subgraph/Mapping/Listed/Epochs.antt =====
-- The handler of new epochs of packages/subgraph/src/mapping.ts leaves the list of networks as it is.
use block_oracle.Prelude.{
  ℕ, zero, suc, ◌+◌, ◌-◌, ◌≡◌, ◌≢◌, refl, ◌∙◌, sym, true, false, List, [], ◌∷◌, Option, some,
  Bool-cases, Option-cases, inl, inr, ◌==◌,
}
use block_oracle.Prelude.Int.{ℤ}
use block_oracle.Prelude.Text.{Str, str_eq, str_eq_iff}
use block_oracle.Subgraph.Decoding.{BytesReader, advance, decode_i64}
use block_oracle.Subgraph.Networks.{next_block_number}
use block_oracle.Subgraph.Store.{
  Network, StoreCache, get_network, put_network, get_epoch, put_block_number,
}
use block_oracle.Subgraph.Active.{
  done, fail, next_epoch_id, previous_block_number, create_or_update_block_number,
}
use block_oracle.Subgraph.Chain.{IsWellFormed, get_network-found}
use block_oracle.Subgraph.Mapping.Epochs.{
  backfill, previous_epoch_number, enter_epoch, is_negative, update_block_numbers, keep_message,
  set_block_numbers, execute_set_block_numbers_for_epoch,
}
use block_oracle.Subgraph.Mapping.Listed.{
  Keeps, Chain-Keeps, IsKept, either_case, after_walk, put_network-other, put_network-same,
  get_network-other,
}

-- The networks are linked as before, and the state points to the same list.
abbrev pub KeepsList : StoreCache → StoreCache → Type 0
KeepsList c c' =
    Keeps c c'
    × (c'.state.network_array_head ≡ c.state.network_array_head)
    × (c'.state.active_network_count ≡ c.state.active_network_count)

pub KeepsList-IsWellFormed : (c c' : StoreCache) → KeepsList c c' → IsWellFormed c → IsWellFormed c'
KeepsList-IsWellFormed c c' (keeps, same, count) (ids, (chain, unique, length_ids)) = (
  ids,
  (
    rw same (Chain-Keeps c c' c.state.network_array_head ids keeps chain),
    unique,
    count ∙ length_ids,
  ),
)

pub KeepsList-refl : (c : StoreCache) → KeepsList c c
KeepsList-refl c = ((λ id s found. (s, found, refl, refl)), refl, refl)

KeepsList-trans : (c c' c'' : StoreCache) → KeepsList c c' → KeepsList c' c'' → KeepsList c c''
KeepsList-trans c c' c'' (k, h, n) (k', h', n') = (
  (λ id s found.
      let (s', found', next, removed) = k id s found in
      let (s'', found'', next', removed') = k' id s' found' in
      (s'', found'', next' ∙ next, removed' ∙ removed)),
  h' ∙ h,
  n' ∙ n,
)

get_epoch-KeepsList : (e : ℕ) (c : StoreCache) → KeepsList c (get_epoch e c)
unfolding get_epoch
get_epoch-KeepsList e c = ((λ id s found. (s, found, refl, refl)), refl, refl)

backfill-KeepsList : (count i : ℕ) (c : StoreCache) → KeepsList c (backfill count i c)
unfolding backfill
backfill-KeepsList zero i c = KeepsList-refl c
backfill-KeepsList (suc count) i c =
    KeepsList-trans c (get_epoch i c) (backfill count (i + 1) (get_epoch i c))
      (get_epoch-KeepsList i c) (backfill-KeepsList count (i + 1) (get_epoch i c))

enter_epoch-KeepsList : (e : ℕ) (c : StoreCache) → KeepsList c (enter_epoch e c)
unfolding enter_epoch
enter_epoch-KeepsList e c =
    let first : ℕ = previous_epoch_number c.state.latest_valid_epoch + 1 in
    let b : StoreCache = backfill (e - first) first c in
    KeepsList-trans c b (get_epoch e b) (backfill-KeepsList (e - first) first c)
      (get_epoch-KeepsList e b)

-- A block number is stored, and its network moved to it.
module _ (id : Str) (e : ℕ) (a : ℤ) (c : StoreCache) where
  abbrev moved : Network → Network
  moved n = record n { latest_valid_block_number = some (e, id) }

  abbrev numbered : Network → StoreCache → StoreCache
  numbered n c' = put_block_number e id (next_block_number (previous_block_number n c') a) c'

  get_network_state : (get_network id c).1.state ≡ c.state
  unfolding get_network put_network
  get_network_state = elim (Option-cases (c.networks id)) [
    | inl missing ↦ rw (get_network, missing) refl
    | inr (s, found) ↦ rw (get_network, found) refl
  ]

  create_or_update-Keeps : Keeps c (create_or_update_block_number id e a c).1
  unfolding create_or_update_block_number put_block_number
  create_or_update-Keeps j s found = elim (Bool-cases (str_eq j id)) [
    | inl same ↦
        let j-id : j ≡ id = (str_eq_iff j id).0 same in
        let here : c.networks id ≡ some s = rw (← j-id) found in
        rw (create_or_update_block_number, get_network-found id c s here, j-id)
          (moved s, put_network-same id (moved s) (numbered s c), refl, refl)
    | inr other ↦
        let apart : j ≢ id = differs j other in
        let (n, c') = get_network id c in
        (
          s,
          put_network-other id (moved n) (numbered n c') j apart
              ∙ get_network-other id c j apart
              ∙ found,
          refl,
          refl,
        )
  ]
    where
      differs : (j : Str) → str_eq j id ≡ false → j ≢ id
      differs j other same = let no : true ≡ false = sym ((str_eq_iff j id).1 same) ∙ other in cc

  create_or_update-KeepsList : KeepsList c (create_or_update_block_number id e a c).1
  unfolding create_or_update_block_number put_block_number put_network
  create_or_update-KeepsList =
      (create_or_update-Keeps, rw get_network_state refl, rw get_network_state refl)

update_block_numbers-KeepsList :
    (e : ℕ) (ids : List Str) (c : StoreCache) (r : BytesReader)
    → KeepsList c (update_block_numbers e ids c r).1
unfolding update_block_numbers
update_block_numbers-KeepsList e [] c r = KeepsList-refl c
update_block_numbers-KeepsList e (id ∷ ids) c r =
    let (a, r') = decode_i64 r in
    let (b, c') = create_or_update_block_number id e a c in
    let stored : KeepsList c c' = create_or_update-KeepsList id e a c in
    let P : List ℤ × StoreCache × BytesReader → Type 0 = λ x. KeepsList c x.1 in
    either_case P r'.ok _ ([], c, r')
      (λ fine.
        either_case P (is_negative b.delta) ([], c', fail r') _ (λ back. stored)
          (λ rises.
            KeepsList-trans c c' (update_block_numbers e ids c' r').1 stored
              (update_block_numbers-KeepsList e ids c' r')))
      (λ failed. KeepsList-refl c)

keep_message-KeepsList :
    (root : List ℕ) (x : List ℤ × StoreCache × BytesReader) → KeepsList x.1 (keep_message root x).0
keep_message-KeepsList root (accelerations, c, r) =
    either_case (KeepsList c) r.ok _ c (λ fine. KeepsList-refl c) (λ failed. KeepsList-refl c)

set_block_numbers-KeepsList :
    (response : Option ℕ) (ids : List Str) (c : StoreCache) (r : BytesReader)
    → KeepsList c (set_block_numbers response ids c r).0
unfolding set_block_numbers
set_block_numbers-KeepsList response ids c r =
    let (e, r₁) = next_epoch_id response c.state.latest_valid_epoch r in
    let (root, r₂) = advance 32 r₁ in
    let entered : StoreCache = enter_epoch e c in
    let updated = update_block_numbers e ids entered r₂ in
    KeepsList-trans c updated.1 (keep_message root updated).0
      (KeepsList-trans c entered updated.1 (enter_epoch-KeepsList e c)
        (update_block_numbers-KeepsList e ids entered r₂))
      (keep_message-KeepsList root updated)

pub set_block_numbers-IsKept :
    (response : Option ℕ) (c : StoreCache) (r : BytesReader)
    → IsWellFormed c
    → IsKept (execute_set_block_numbers_for_epoch response c r)
unfolding execute_set_block_numbers_for_epoch
set_block_numbers-IsKept response c r (ids, h) =
    either_case IsKept (c.state.active_network_count == 0) (done (c, fail r)) _
      (λ nothing fine. (ids, h))
      (λ active.
        after_walk c ids (λ x. done (set_block_numbers response x.0 x.1 r)) h
          (λ fine.
            KeepsList-IsWellFormed c (set_block_numbers response ids c r).0
              (set_block_numbers-KeepsList response ids c r) (ids, h)))
