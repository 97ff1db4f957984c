-- ===== src/Subgraph/Mapping/Listed/Insertions.antt =====
-- Insertions into the list of networks, in packages/subgraph/src/mapping.ts.
use block_oracle.Prelude.{
  ℕ, zero, suc, ◌≡◌, ◌≢◌, refl, ◌∙◌, sym, true, false, List, [], ◌∷◌, ◌++◌, none, All, All-append,
  Bool-cases, Option-cases, inl, inr,
}
use block_oracle.Prelude.Text.{Str}
use block_oracle.Subgraph.Decoding.{BytesReader, decode_string}
use block_oracle.Subgraph.Store.{
  MessageId, Network, StoreCache, get_network, put_network, is_network_already_registered,
}
use block_oracle.Subgraph.Chain.{IsOther, IsUnique}
use block_oracle.Subgraph.Mapping.Registry.{
  Aliases, Insertions, registered_at, insert_network, insert_networks, insert_networks_and_aliases,
}
use block_oracle.Subgraph.Mapping.Listed.{
  IsActive, All-map, put_network-other, put_network-same, get_network-other,
}

-- The networks from before and those inserted are active, and no network was inserted twice.
abbrev pub IsInserted : List Str → Insertions → Type 0
IsInserted ids i =
    All (IsActive i.cache) ids
    × All (IsActive i.cache) i.added
    × IsUnique i.added
    × All (λ (y : Str). IsOther y ids) i.added

pub IsUnique-append :
    (xs ys : List Str)
    → IsUnique xs
    → IsUnique ys
    → All (λ (y : Str). IsOther y xs) ys
    → IsUnique (xs ++ ys)
IsUnique-append [] ys u v apart = v
IsUnique-append (x ∷ xs) ys u v apart = (
  All-append (λ j. j ≢ x) xs ys u.0 (All-map ys (λ y h e. h.0 (sym e)) apart),
  IsUnique-append xs ys u.1 v (All-map ys (λ y h. h.1) apart),
)

IsActive-other :
    (c : StoreCache) (id : Str)
    → is_network_already_registered id c ≡ false
    → (j : Str) → IsActive c j
    → j ≢ id
unfolding is_network_already_registered
IsActive-other c id free j (s, found, active) same =
    let taken : true ≡ false = rw (← same, is_network_already_registered, found, active) at free in
    cc

IsActive-registered_at :
    (message : MessageId) (n : Network) → (registered_at message n).removed_at ≡ none
IsActive-registered_at message n = elim (Option-cases n.removed_at) [
  | inl active ↦ rw (registered_at, active) refl
  | inr (m, removed) ↦ rw (registered_at, removed) refl
]

module _ (message : MessageId) (id : Str) (with_alias : Network → Network)
    (keeps : (n : Network) → (with_alias n).removed_at ≡ n.removed_at) where
  pub insert_network-IsInserted :
      (ids : List Str) (r : BytesReader) (i : Insertions)
      → is_network_already_registered id i.cache ≡ false
      → IsInserted ids i
      → IsInserted ids (insert_network message id with_alias r i)
  insert_network-IsInserted ids r i free (before, added, unique, apart) =
      let network : Network = (get_network id i.cache).0 in
      let n : Network = with_alias (registered_at message network) in
      let c' : StoreCache = put_network id n (get_network id i.cache).1 in
      let stays : (j : Str) → IsActive i.cache j → IsActive c' j = λ j active.
        let other = IsActive-other i.cache id free j active in
        (
          active.0,
          put_network-other id n (get_network id i.cache).1 j other
              ∙ get_network-other id i.cache j other
              ∙ active.1,
          active.2,
        ) in
      let others = All-map i.added (IsActive-other i.cache id free) added in
      (
        All-map ids stays before,
        All-append (IsActive c') i.added (id ∷ []) (All-map i.added stays added) (
          (
            n,
            put_network-same id n (get_network id i.cache).1,
            keeps _ ∙ IsActive-registered_at message network,
          ),
          tt,
        ),
        IsUnique-append i.added (id ∷ []) unique (tt, tt) (others, tt),
        All-append (λ y. IsOther y ids) i.added (id ∷ []) apart
            (All-map ids (IsActive-other i.cache id free) before, tt),
      )

pub insert_networks-IsInserted :
    (aliases : Aliases) (message : MessageId) (ids : List Str) (count : ℕ) (i : Insertions)
    → IsInserted ids i
    → (insert_networks aliases message count i).reader.ok ≡ true
    → IsInserted ids (insert_networks aliases message count i)
unfolding insert_networks
insert_networks-IsInserted aliases message ids zero i h ok = h
insert_networks-IsInserted aliases message ids (suc count) i h ok =
    let (id, r) = decode_string i.reader in
    let with_alias : Network → Network = λ n. record n { alias = aliases id } in
    let next : Insertions = insert_network message id with_alias r i in
    elim (Bool-cases r.ok) [
      | inr failed ↦ let no : r.ok ≡ true = rw (insert_networks, failed) at ok in cc
      | inl fine ↦ elim (Bool-cases (is_network_already_registered id i.cache)) [
        | inl taken ↦ let no : false ≡ true = rw (insert_networks, fine, taken) at ok in cc
        | inr free ↦
            rw (insert_networks, fine, free)
              (insert_networks-IsInserted aliases message ids count next
                (insert_network-IsInserted message id with_alias (λ n. refl) ids r i free h)
                (rw (insert_networks, fine, free) at ok))
      ]
    ]

pub insert_networks_and_aliases-IsInserted :
    (message : MessageId) (ids : List Str) (count : ℕ) (i : Insertions)
    → IsInserted ids i
    → (insert_networks_and_aliases message count i).reader.ok ≡ true
    → IsInserted ids (insert_networks_and_aliases message count i)
unfolding insert_networks_and_aliases
insert_networks_and_aliases-IsInserted message ids zero i h ok = h
insert_networks_and_aliases-IsInserted message ids (suc count) i h ok =
    let (id, r) = decode_string i.reader in
    let (alias, r') = decode_string r in
    let with_alias : Network → Network = λ n. record n { alias = alias } in
    let next : Insertions = insert_network message id with_alias r' i in
    elim (Bool-cases r.ok) [
      | inr failed ↦ let no : r.ok ≡ true = rw (insert_networks_and_aliases, failed) at ok in cc
      | inl fine ↦ elim (Bool-cases (is_network_already_registered id i.cache)) [
        | inl taken ↦
            let no : false ≡ true = rw (insert_networks_and_aliases, fine, taken) at ok in cc
        | inr free ↦ elim (Bool-cases r'.ok) [
          | inr failed ↦
              let no : r'.ok ≡ true = rw (insert_networks_and_aliases, fine, free, failed) at ok in
              cc
          | inl fine' ↦
              rw (insert_networks_and_aliases, fine, free, fine')
                (insert_networks_and_aliases-IsInserted message ids count next
                  (insert_network-IsInserted message id with_alias (λ n. refl) ids r' i free h)
                  (rw (insert_networks_and_aliases, fine, free, fine') at ok))
        ]
      ]
    ]
