-- ===== src/Encoding/Encoder/Fill.antt =====
-- The pointers that `compress_block_ptrs` works on: every network gets one, in the networks' order.
use block_oracle.Prelude.{
  ℕ, zero, suc, ◌≡◌, ◌≢◌, [], ◌∷◌, map, none, some, arith, get_elem?, All, inl, inr, Option-cases,
  Bool-cases, All-of_get_elem?,
}
use block_oracle.Prelude.Outcome.{ok}
use block_oracle.Prelude.Text.{Str, eq_of_str_compare, str_compare_refl}
use block_oracle.Prelude.TreeMap.{
  TreeMap, IsSorted, lookup, insert, contains_key, lookup-insert, insert-IsSorted,
}
use block_oracle.Encoding.Messages.{BlockPtr, zero_hash}
use block_oracle.Encoding.Encoder.{
  Network, Networks, network_index, sort_network_data_by_index, fill_missing,
}
use block_oracle.Encoding.Encoder.Alignment.{
  IsDistinct, AllKnown, network_index-get_elem?, sort_network_data_by_index-map,
}

-- The pointer of a network that has no new block.
abbrev pub kept_ptr : Network → BlockPtr
kept_ptr n = record { number = n.block_number; hash = zero_hash }

-- The pointer that a network gets: the one under its identifier, or its old block.
abbrev pub ptr_for : TreeMap BlockPtr → Str × Network → BlockPtr
ptr_for ptrs n = elim (lookup n.0 ptrs) [ none ↦ kept_ptr n.1 | some p ↦ p ]

pub lookup-fill_missing-some :
    (ns : Networks) (ptrs : TreeMap BlockPtr) (j : Str) {p : BlockPtr}
    → lookup j ptrs ≡ some p
    → lookup j (fill_missing ns ptrs) ≡ some p
unfolding fill_missing
lookup-fill_missing-some [] ptrs j h = h
lookup-fill_missing-some (n ∷ ns) ptrs j h =
    lookup-fill_missing-some ns _ j
      (ground (arith, h, eq_of_str_compare j n.0, lookup-insert j n.0 (kept_ptr n.1) ptrs))

lookup-fill_missing-none :
    (ns : Networks) (ptrs : TreeMap BlockPtr) (k : ℕ) (n : Str × Network)
    → IsDistinct ns
    → get_elem? ns k ≡ some n
    → lookup n.0 ptrs ≡ none
    → lookup n.0 (fill_missing ns ptrs) ≡ some (kept_ptr n.1)
unfolding fill_missing
lookup-fill_missing-none [] ptrs k n d h u = cc
lookup-fill_missing-none (m ∷ ns) ptrs zero n d h u =
    lookup-fill_missing-some ns _ n.0
      (ground (arith, h, str_compare_refl n.0, lookup-insert n.0 m.0 (kept_ptr m.1) ptrs))
lookup-fill_missing-none (m ∷ ns) ptrs (suc k) n d h u = lookup-fill_missing-none ns _ k n d.1 h (
    ground (
      arith,
      u,
      eq_of_str_compare n.0 m.0,
      network_index-get_elem? ns k n d.1 h,
      lookup-insert n.0 m.0 (kept_ptr m.1) ptrs,
    ))

-- Every network finds its pointer in the filled map.
lookup-fill_missing :
    (ns : Networks) (ptrs : TreeMap BlockPtr) (k : ℕ) (n : Str × Network)
    → IsDistinct ns
    → get_elem? ns k ≡ some n
    → lookup n.0 (fill_missing ns ptrs) ≡ some (ptr_for ptrs n)
lookup-fill_missing ns ptrs k n d h = elim (Option-cases (lookup n.0 ptrs)) [
  | inl u ↦ rw (u, ptr_for) (lookup-fill_missing-none ns ptrs k n d h u)
  | inr (p, e) ↦ rw (e, ptr_for) (lookup-fill_missing-some ns ptrs n.0 e)
]

fill_missing-IsSorted :
    (ns : Networks) (ptrs : TreeMap BlockPtr) → IsSorted ptrs → IsSorted (fill_missing ns ptrs)
unfolding fill_missing
fill_missing-IsSorted [] ptrs s = s
fill_missing-IsSorted (n ∷ ns) ptrs s =
    fill_missing-IsSorted ns _ (ground (arith, s, insert-IsSorted n.0 (kept_ptr n.1) ptrs))

module _ (known : Networks) where
  insert-AllKnown :
      (id : Str) (p : BlockPtr) (m : TreeMap BlockPtr)
      → network_index id known ≢ none
      → AllKnown known m
      → AllKnown known (insert id p m)
  unfolding insert
  insert-AllKnown id p [] k a = (k, tt)
  insert-AllKnown id p (e ∷ m) k a = ground (arith, insert-AllKnown id p m k a.1)

  fill_missing-AllKnown :
      (ns : Networks) (ptrs : TreeMap BlockPtr)
      → All (λ (n : Str × Network). network_index n.0 known ≢ none) ns
      → AllKnown known ptrs
      → AllKnown known (fill_missing ns ptrs)
  unfolding fill_missing
  fill_missing-AllKnown [] ptrs k a = a
  fill_missing-AllKnown (n ∷ ns) ptrs k a =
      fill_missing-AllKnown ns _ k.1 (elim (Bool-cases (contains_key n.0 ptrs)) [
        | inl old ↦ rw old a
        | inr new ↦ rw new (insert-AllKnown n.0 (kept_ptr n.1) ptrs k.0 a)
      ])

-- The filled map is in order: its identifiers are the networks'.
fill_missing_known :
    (ns : Networks) (ptrs : TreeMap BlockPtr)
    → IsDistinct ns
    → AllKnown ns ptrs
    → AllKnown ns (fill_missing ns ptrs)
fill_missing_known ns ptrs d a =
    fill_missing-AllKnown ns ns ptrs
      (All-of_get_elem? _ ns (λ k n h unknown. cc (network_index-get_elem? ns k n d h))) a

-- The pointers come out in the order of the networks, one for each.
pub sort-fill_missing :
    (ns : Networks) (ptrs : TreeMap BlockPtr)
    → IsDistinct ns
    → IsSorted ptrs
    → AllKnown ns ptrs
    → sort_network_data_by_index ns (fill_missing ns ptrs) ≡ ok (map (ptr_for ptrs) ns)
sort-fill_missing ns ptrs d s a =
    sort_network_data_by_index-map ns (fill_missing ns ptrs) (ptr_for ptrs) d
      (fill_missing-IsSorted ns ptrs s) (fill_missing_known ns ptrs d a)
      (λ k n. lookup-fill_missing ns ptrs k n d)
