-- ===== src/Subgraph/Mapping/Registry.antt =====
-- packages/subgraph/src/mapping.ts and helpers.ts: the handlers that change the list of networks.
-- What a handler leaves in the cache after a failed read is
-- dropped with the whole payload, so the handlers below stop at the failure.
use block_oracle.Prelude.{
  ℕ, zero, suc, ◌+◌, ◌-◌, ◌%◌, ◌^◌, Bool, true, List, [], ◌∷◌, ◌++◌, Option, none, some, length,
  get_elem?, set, ltb, if◌then◌else◌,
}
use block_oracle.Prelude.Int.{ℤ, pos, negsuc, ◌+ℤ◌, ◌-ℤ◌}
use block_oracle.Prelude.Text.{Str}
use block_oracle.Subgraph.Decoding.{BytesReader, advance, decode_u64, decode_string}
use block_oracle.Subgraph.Store.{
  MessageId, Network, StoreCache, PermissionSet, get_network, put_network, is_none,
  is_network_already_registered, reset_global_state,
}
use block_oracle.Subgraph.Active.{Run, done, trapped, endless, fail, get_active_networks}
use block_oracle.Subgraph.Mapping.Links.{commit_network_changes, wipe_network_list}

-- `x as i32` of a `u64`.
abbrev pub as_i32 : ℕ → ℤ
as_i32 n = let low = n % 2 ^ 32 in if ltb low (2 ^ 31) then pos low else negsuc (2 ^ 32 - 1 - low)

-- The number of rounds of `for (let i = 0; i < n; i++)`.
abbrev pub rounds : ℤ → ℕ
rounds (pos n) = n
rounds (negsuc n) = 0

abbrev pub is_below : ℤ → ℕ → Bool
is_below (pos k) n = ltb k n
is_below (negsuc k) n = true

-- The identifiers to remove, `count` of them, from a list of `n` networks.
unfoldable pub decode_removals : ℕ → ℕ → BytesReader → List ℤ × BytesReader
decode_removals zero n r = ([], r)
decode_removals (suc count) n r =
    let (value, r') = decode_u64 r in
    let r'' : BytesReader = if is_below (as_i32 value) n then r' else fail r' in
    let rest = decode_removals count n r'' in
    if r''.ok then (as_i32 value ∷ rest.0, rest.1) else ([], r'')

-- `array[i]` traps outside the array.
abbrev pub at_index {ℓ} : {A : Type ℓ} → List A → ℤ → Option A
at_index xs (pos k) = get_elem? xs k
at_index xs (negsuc k) = none

-- Networks to remove are taken out of their places, which stay as empty ones; an empty place traps.
unfoldable pub take_out : List ℤ → List (Option Str) → Option (List Str × List (Option Str))
take_out [] places = some ([], places)
take_out (k ∷ ks) places = elim (at_index places k) [
  | none ↦ none
  | some place ↦ elim place [
    | none ↦ none
    | some id ↦ elim (take_out ks (set places (rounds k) none)) [
      | none ↦ none
      | some (removed, left) ↦ some (id ∷ removed, left)
    ]
  ]
]

abbrev pub wrap : List Str → List (Option Str)
wrap [] = []
wrap (id ∷ ids) = some id ∷ wrap ids

-- `filter` and `flat`: the places that are left.
abbrev pub flat : List (Option Str) → List Str
flat [] = []
flat (none ∷ places) = flat places
flat (some id ∷ places) = id ∷ flat places

-- A network that was removed before is a reinsertion.
abbrev pub registered_at : MessageId → Network → Network
registered_at message n =
    if is_none n.removed_at
    then record n { added_at = some message }
    else record n { last_updated_at = some message; removed_at = none }

-- What the loop over the insertions has built.
pub record Insertions : Type 0 where
  pub cache : StoreCache
  pub reader : BytesReader
  pub added : List Str
  pub reinsertions : ℕ

abbrev pub insert_network :
    MessageId → Str → (Network → Network) → BytesReader → Insertions → Insertions
insert_network message id with_alias r i =
    let (network, c) = get_network id i.cache in
    record {
      cache = put_network id (with_alias (registered_at message network)) c;
      reader = r;
      added = i.added ++ (id ∷ []);
      reinsertions = if is_none network.removed_at then i.reinsertions else i.reinsertions + 1;
    }

-- `PRELOADED_ALIASES`, and the empty text for other networks.
abbrev pub Aliases : Type 0
Aliases = Str → Str

unfoldable pub insert_networks : Aliases → MessageId → ℕ → Insertions → Insertions
insert_networks aliases message zero i = i
insert_networks aliases message (suc count) i =
    let (id, r) = decode_string i.reader in
    let next : Insertions = insert_network message id (λ n. record n { alias = aliases id }) r i in
    let rest = insert_networks aliases message count next in
    if r.ok
    then if is_network_already_registered id i.cache then record i { reader = fail r } else rest
    else record i { reader = r }

unfoldable pub insert_networks_and_aliases : MessageId → ℕ → Insertions → Insertions
insert_networks_and_aliases message zero i = i
insert_networks_and_aliases message (suc count) i =
    let (id, r) = decode_string i.reader in
    let (alias, r') = decode_string r in
    let next : Insertions = insert_network message id (λ n. record n { alias = alias }) r' i in
    let rest = insert_networks_and_aliases message count next in
    if r.ok
    then if is_network_already_registered id i.cache
      then record i { reader = fail r }
      else if r'.ok
      then rest
      else record i { reader = r' }
    else record i { reader = r }

abbrev pub count_networks : ℤ → ℕ → StoreCache → StoreCache
count_networks insertions reinsertions c = record c {
  state = record c.state {
    network_count = c.state.network_count +ℤ insertions -ℤ pos reinsertions;
  };
}

-- The part of both handlers after the removals: `insert` is the loop over the insertions.
abbrev pub insert_and_commit :
    (ℕ → Insertions → Insertions)
    → List Str
    → List Str
    → MessageId
    → StoreCache
    → BytesReader
    → StoreCache × BytesReader
insert_and_commit insert removed left message c r =
    let (value, r') = decode_u64 r in
    let i : Insertions =
      insert (rounds (as_i32 value))
        (record { cache = c; reader = r'; added = []; reinsertions = 0 }) in
    if r'.ok
    then if i.reader.ok
      then (
        commit_network_changes removed (left ++ i.added) message
            (count_networks (as_i32 value) i.reinsertions i.cache),
        i.reader,
      )
      else (i.cache, i.reader)
    else (c, r')

unfoldable pub change_networks :
    (ℕ → Insertions → Insertions)
    → List Str
    → MessageId
    → StoreCache
    → BytesReader
    → Run (StoreCache × BytesReader)
unfolding decode_removals take_out
change_networks insert networks message c r =
    let (value, r₁) = decode_u64 r in
    let (removals, r₂) = decode_removals (rounds (as_i32 value)) (length networks) r₁ in
    if r₁.ok
    then if r₂.ok
      then elim (take_out removals (wrap networks)) [
        | none ↦ trapped
        | some (removed, left) ↦ done (insert_and_commit insert removed (flat left) message c r₂)
      ]
      else done (c, r₂)
    else done (c, r₁)

unfoldable pub execute_register_networks :
    Aliases → MessageId → StoreCache → BytesReader → Run (StoreCache × BytesReader)
unfolding insert_networks change_networks
execute_register_networks aliases message c r = elim (get_active_networks c) [
  | trapped ↦ trapped
  | endless ↦ endless
  | done (networks, c') ↦ change_networks (insert_networks aliases message) networks message c' r
]

unfoldable pub execute_register_networks_and_aliases :
    MessageId → StoreCache → BytesReader → Run (StoreCache × BytesReader)
unfolding insert_networks_and_aliases change_networks
execute_register_networks_and_aliases message c r = elim (get_active_networks c) [
  | trapped ↦ trapped
  | endless ↦ endless
  | done (networks, c') ↦
      change_networks (insert_networks_and_aliases message) networks message c' r
]

-- A byte is read, so that the message is not the end of the payload.
unfoldable pub execute_reset_state :
    PermissionSet → MessageId → StoreCache → BytesReader → Run (StoreCache × BytesReader)
execute_reset_state initial message c r = elim (get_active_networks c) [
  | trapped ↦ trapped
  | endless ↦ endless
  | done (networks, c') ↦
      let (byte, r') = advance 1 r in
      done (reset_global_state initial (wipe_network_list message networks c'), r')
]
