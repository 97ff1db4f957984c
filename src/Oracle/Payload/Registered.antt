-- ===== src/Oracle/Payload/Registered.antt =====
-- The blocks of the registered networks: what `set_block_numbers_for_next_epoch` of
-- crates/oracle/src/runner/oracle.rs keeps of the latest blocks.
use block_oracle.Prelude.{
  ◌≡◌, ◌≢◌, refl, ap, ◌∙◌, true, false, List, [], ◌∷◌, none, arith, All, if◌then◌else◌, Bool-cases,
  inl, inr,
}
use block_oracle.Prelude.Text.{Str, str_eq, str_compare_refl, str_compare_back}
use block_oracle.Prelude.TreeMap.{TreeMap, IsSorted, IsBelow, remove}
use block_oracle.Encoding.Messages.{BlockPtr}
use block_oracle.Encoding.Encoder.{network_index}
use block_oracle.Encoding.Encoder.Alignment.{AllKnown}
use block_oracle.Oracle.State.{Network, available_networks, has_id}
use block_oracle.Oracle.Payload.{ignored_networks, remove_all, known_blocks}

-- The entries of the registered networks.
abbrev pub registered_blocks : List Network → TreeMap BlockPtr → TreeMap BlockPtr
registered_blocks ns [] = []
registered_blocks ns ((id, ptr) ∷ m) =
    if has_id id ns then (id, ptr) ∷ registered_blocks ns m else registered_blocks ns m

has_id-known :
    (id : Str) (ns : List Network)
    → has_id id ns ≡ true
    → network_index id (available_networks ns) ≢ none
unfolding has_id network_index
has_id-known id [] h e = cc
has_id-known id (n ∷ ns) h e = ground (arith, h, e, has_id-known id ns)

module _ (ns : List Network) where
  registered-IsBelow :
      (k : Str) (m : TreeMap BlockPtr) → IsBelow k m → IsBelow k (registered_blocks ns m)
  registered-IsBelow k [] b = tt
  registered-IsBelow k (e ∷ m) b = ground (arith, registered-IsBelow k m b.1)

  pub registered-IsSorted : (m : TreeMap BlockPtr) → IsSorted m → IsSorted (registered_blocks ns m)
  registered-IsSorted [] s = tt
  registered-IsSorted (e ∷ m) s =
      ground (arith, registered-IsBelow e.0 m s.0, registered-IsSorted m s.1)

  pub registered-AllKnown :
      (m : TreeMap BlockPtr) → AllKnown (available_networks ns) (registered_blocks ns m)
  registered-AllKnown [] = tt
  registered-AllKnown (e ∷ m) = ground (arith, has_id-known e.0 ns, registered-AllKnown m)

  -- Identifiers that come after `k`.
  ignored-after :
      (k : Str) (m : TreeMap BlockPtr)
      → IsBelow k m
      → All (λ id. str_eq id k ≡ false) (ignored_networks ns m)
  unfolding ignored_networks
  ignored-after k [] b = tt
  ignored-after k (e ∷ m) b = ground (arith, str_compare_back k e.0, ignored-after k m b.1)

  remove_all_after :
      (ids : List Str) (k : Str) (ptr : BlockPtr) (m : TreeMap BlockPtr)
      → All (λ id. str_eq id k ≡ false) ids
      → remove_all ids ((k, ptr) ∷ m) ≡ (k, ptr) ∷ remove_all ids m
  unfolding remove_all remove
  remove_all_after [] k ptr m h = refl
  remove_all_after (id ∷ ids) k ptr m h = rw (h.0) (remove_all_after ids k ptr (remove id m) h.1)

  remove_first : (id : Str) (ptr : BlockPtr) (m : TreeMap BlockPtr) → remove id ((id, ptr) ∷ m) ≡ m
  unfolding remove
  remove_first id ptr m = ground (arith, str_compare_refl id)

  pub known_blocks-registered :
      (m : TreeMap BlockPtr) → IsSorted m → known_blocks ns m ≡ registered_blocks ns m
  unfolding ignored_networks remove_all remove
  known_blocks-registered [] s = refl
  known_blocks-registered ((id, ptr) ∷ m) s = elim (Bool-cases (has_id id ns)) [
    | inl known ↦
        rw (known_blocks, ignored_networks, known)
          (remove_all_after (ignored_networks ns m) id ptr m (ignored-after id m s.0)
            ∙ ap (λ t. (id, ptr) ∷ t) (known_blocks-registered m s.1))
    | inr unknown ↦
        rw (known_blocks, ignored_networks, unknown)
          (ap (remove_all (ignored_networks ns m)) (remove_first id ptr m)
            ∙ known_blocks-registered m s.1)
  ]
