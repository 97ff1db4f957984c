-- ===== src/Subgraph/Mapping/Listed.antt =====
-- The handlers of packages/subgraph/src/mapping.ts on the linked list of active networks.
pub mod Removals
pub mod Insertions
pub mod Registry
pub mod Epochs
pub mod Payloads
use mathlib.Core.Path.{subst}
use block_oracle.Prelude.{
  ℕ, zero, suc, ◌+◌, ◌≡◌, ◌≢◌, refl, ap, ◌∙◌, sym, Bool, true, false, List, [], ◌∷◌, ◌++◌, Option,
  none, some, arith, All, All-append, length, get_elem?, set, Bool-cases, Option-cases, inl, inr,
  if◌then◌else◌,
}
use block_oracle.Prelude.Text.{Str, str_eq, str_eq_iff}
use block_oracle.Subgraph.Decoding.{BytesReader}
use block_oracle.Subgraph.Store.{MessageId, Network, StoreCache, get_network, put_network, is_none}
use block_oracle.Subgraph.Active.{Run, done, trapped, endless, get_active_networks}
use block_oracle.Subgraph.Chain.{
  Chain, IsOther, IsUnique, IsListed, IsWellFormed, get_network-found, get_active_networks-Chain,
}
use block_oracle.Subgraph.Mapping.Registry.{as_i32, at_index, take_out, wrap, flat, rounds}
use block_oracle.Subgraph.Mapping.Links.{
  head, cleared, clear_networks, link_networks, commit_network_changes,
}

-- A network that is there and was not removed.
abbrev pub IsActive : StoreCache → Str → Type 0
IsActive c id = (s : Network) × (c.networks id ≡ some s) × (s.removed_at ≡ none)

-- A handler ends, and what it leaves is well-formed, where it does not trap and the reader has not
-- failed.
abbrev pub IsKept : Run (StoreCache × BytesReader) → Type 0
IsKept trapped = Unit
IsKept endless = ⊥
IsKept (done x) = x.1.ok ≡ true → IsWellFormed x.0

-- Of a choice, what holds of either case under its test.
pub either_case :
    {X : Type 0} (P : X → Type 0) (test : Bool) (p q : X)
    → (test ≡ true → P p)
    → (test ≡ false → P q)
    → P (if test then p else q)
either_case P true p q h k = h refl
either_case P false p q h k = k refl

-- What follows a call that may trap.
pub either_trap :
    {X : Type 0} (o : Option X) (f : X → Run (StoreCache × BytesReader))
    → ((x : X) → o ≡ some x → IsKept (f x))
    → IsKept (elim o [ none ↦ trapped | some x ↦ f x ])
either_trap none f h = tt
either_trap (some x) f h = h x refl

-- What follows the walk along a list in order: it ends.
pub after_walk :
    (c : StoreCache) (ids : List Str) (f : List Str × StoreCache → Run (StoreCache × BytesReader))
    → IsListed c ids
    → IsKept (f (ids, c))
    → IsKept (elim (get_active_networks c) [ trapped ↦ trapped | endless ↦ endless | done x ↦ f x ])
after_walk c ids f h kept = rw (get_active_networks-Chain c ids h.0 h.2) kept

-- The networks of the one cache are in the other, linked as before.
abbrev pub Keeps : StoreCache → StoreCache → Type 0
Keeps c c' =
    (id : Str) (s : Network)
    → c.networks id ≡ some s
    → (s' : Network) × (c'.networks id ≡ some s')
      × (s'.next_array_element ≡ s.next_array_element)
      × (s'.removed_at ≡ s.removed_at)

pub Chain-Keeps :
    (c c' : StoreCache) (first : Option Str) (ids : List Str)
    → Keeps c c'
    → Chain c first ids
    → Chain c' first ids
Chain-Keeps c c' first [] k h = h
Chain-Keeps c c' first (id ∷ ids) k (s, here, found, active, link) =
    let (s', found', next, removed) = k id s found in
    (s', here, found', removed ∙ active, rw next (Chain-Keeps c c' s.next_array_element ids k link))

pub Chain-IsActive :
    (c : StoreCache) (first : Option Str) (ids : List Str)
    → Chain c first ids
    → All (IsActive c) ids
Chain-IsActive c first [] h = tt
Chain-IsActive c first (id ∷ ids) (s, here, found, active, link) =
    ((s, found, active), Chain-IsActive c s.next_array_element ids link)

str_eq-other : (j id : Str) → j ≢ id → str_eq j id ≡ false
str_eq-other j id other = elim (Bool-cases (str_eq j id)) [
  | inl same ↦ absurd (other ((str_eq_iff j id).0 same))
  | inr differs ↦ differs
]

pub put_network-other :
    (id : Str) (n : Network) (c : StoreCache) (j : Str)
    → j ≢ id
    → (put_network id n c).networks j ≡ c.networks j
unfolding put_network
put_network-other id n c j other = rw (str_eq-other j id other)

pub put_network-same :
    (id : Str) (n : Network) (c : StoreCache) → (put_network id n c).networks id ≡ some n
unfolding put_network
put_network-same id n c = rw ((str_eq_iff id id).1 refl)

pub get_network-other :
    (id : Str) (c : StoreCache) (j : Str) → j ≢ id → (get_network id c).1.networks j ≡ c.networks j
unfolding get_network
get_network-other id c j other = elim (Option-cases (c.networks id)) [
  | inl missing ↦ rw (get_network, missing) (put_network-other id _ c j other)
  | inr (s, found) ↦ rw (get_network, found)
]

-- Networks that are not cleared are as before.
clear_networks-other :
    (message : MessageId) (f : Network → Network) (ids : List Str) (c : StoreCache) (j : Str)
    → All (λ (id : Str). j ≢ id) ids
    → (clear_networks message f ids c).networks j ≡ c.networks j
unfolding clear_networks
clear_networks-other message f [] c j others = refl
clear_networks-other message f (id ∷ ids) c j others =
    clear_networks-other message f ids _ j others.1
    ∙ put_network-other id _ (get_network id c).1 j others.0
    ∙ get_network-other id c j others.0

link_networks-other :
    (message : MessageId) (k : ℕ) (ids : List Str) (c : StoreCache) (j : Str)
    → All (λ (id : Str). j ≢ id) ids
    → (link_networks message k ids c).networks j ≡ c.networks j
unfolding link_networks
link_networks-other message k [] c j others = refl
link_networks-other message k (id ∷ ids) c j others =
    link_networks-other message (k + 1) ids _ j others.1
    ∙ put_network-other id _ (get_network id c).1 j others.0
    ∙ get_network-other id c j others.0

pub All-IsActive :
    (c c' : StoreCache) (ids : List Str)
    → All (λ (j : Str). c'.networks j ≡ c.networks j) ids
    → All (IsActive c) ids
    → All (IsActive c') ids
All-IsActive c c' [] same h = tt
All-IsActive c c' (id ∷ ids) same ((s, found, active), h) =
    ((s, same.0 ∙ found, active), All-IsActive c c' ids same.1 h)

pub All-map :
    {P Q : Str → Type 0} (ids : List Str) → ((j : Str) → P j → Q j) → All P ids → All Q ids
All-map [] f h = tt
All-map (id ∷ ids) f h = (f id h.0, All-map ids f h.1)

link_networks-cons :
    (message : MessageId) (k : ℕ) (id : Str) (ids : List Str) (c : StoreCache) (s : Network)
    → c.networks id ≡ some s
    → link_networks message k (id ∷ ids) c
      ≡ link_networks message (k + 1) ids (
          put_network id
            (record s {
              next_array_element = head ids;
              array_index = some k;
              last_updated_at = some message;
            })
            c)
unfolding link_networks
link_networks-cons message k id ids c s found = rw (link_networks, get_network-found id c s found)

-- Active networks, each once, are linked into a list.
link_networks-Chain :
    (message : MessageId) (k : ℕ) (ids : List Str) (c : StoreCache)
    → IsUnique ids
    → All (IsActive c) ids
    → Chain (link_networks message k ids c) (head ids) ids
link_networks-Chain message k [] c u h = refl
link_networks-Chain message k (id ∷ ids) c u ((s, found, active), h) =
    let linked : Network = record s {
      next_array_element = head ids;
      array_index = some k;
      last_updated_at = some message;
    } in
    let c' : StoreCache = put_network id linked c in
    let others : All (λ (j : Str). c'.networks j ≡ c.networks j) ids =
      All-map ids (λ j other. put_network-other id linked c j other) u.0 in
    subst (λ c''. Chain c'' (some id) (id ∷ ids))
      (sym (link_networks-cons message k id ids c s found))
      (
        linked,
        refl,
        link_networks-other message (k + 1) ids c' id (All-map ids (λ j other e. other (sym e)) u.0)
            ∙ put_network-same id linked c,
        active,
        link_networks-Chain message (k + 1) ids c' u.1 (All-IsActive c c' ids others h),
      )

pub commit_network_changes-IsListed :
    (removed ids : List Str) (message : MessageId) (c : StoreCache)
    → IsUnique ids
    → All (IsActive c) ids
    → All (λ (j : Str). All (λ (id : Str). j ≢ id) removed) ids
    → IsListed (commit_network_changes removed ids message c) ids
unfolding commit_network_changes
commit_network_changes-IsListed removed ids message c u h apart =
    let c' : StoreCache = clear_networks message (λ n. n) removed c in
    let others : All (λ (j : Str). c'.networks j ≡ c.networks j) ids =
      All-map ids (λ j. clear_networks-other message (λ n. n) removed c j) apart in
    (
      Chain-Keeps (link_networks message 0 ids c') (commit_network_changes removed ids message c)
          (head ids) ids (λ id s found. (s, found, refl, refl))
          (link_networks-Chain message 0 ids c' u (All-IsActive c c' ids others h)),
      u,
      refl,
    )
