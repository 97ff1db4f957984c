-- ===== src/Encoding/Encoder/Alignment.antt =====
-- `sort_network_data_by_index`: data by identifier comes out in the order of the networks.
use native.Mathlib.Nat.{zero-add}
use block_oracle.Prelude.{
  ℕ, zero, suc, ◌≡◌, ◌≢◌, refl, ap, ◌∙◌, sym, List, [], ◌∷◌, map, none, some, arith, get_elem?,
  get_elem?-map-some, get_elem?-map-none, All, inl, inr, Option-cases,
}
use block_oracle.Prelude.Outcome.{ok}
use block_oracle.Prelude.Text.{Str, eq_of_str_compare, str_compare_refl}
use block_oracle.Prelude.TreeMap.{TreeMap, IsSorted, lookup, lookup_below}
use block_oracle.Encoding.Encoder.{
  Network, Networks, network_index, index_entries, sort_by_index, sort_network_data_by_index,
}
use block_oracle.Encoding.Encoder.Indexed.{
  find, IsFresh, zero-le-All, find-sort_by_index, sort_by_index-IsAscending, values_of_find,
}

-- No identifier is there twice.
abbrev pub IsDistinct : Networks → Type 0
IsDistinct [] = Unit
IsDistinct (n ∷ ns) = (network_index n.0 ns ≡ none) × IsDistinct ns

-- The position that is found holds the identifier, ...
pub get_elem?-network_index :
    (id : Str) (ns : Networks) (k : ℕ)
    → network_index id ns ≡ some k
    → (n : Str × Network) × (get_elem? ns k ≡ some n) × (n.0 ≡ id)
unfolding network_index
get_elem?-network_index id [] k h = cc
get_elem?-network_index id (n ∷ ns) zero h = (n, refl, ground (arith, eq_of_str_compare n.0 id))
get_elem?-network_index id (n ∷ ns) (suc k) h = get_elem?-network_index id ns k (ground arith)

-- ... and a network is found at its own position.
pub network_index-get_elem? :
    (ns : Networks) (k : ℕ) (n : Str × Network)
    → IsDistinct ns
    → get_elem? ns k ≡ some n
    → network_index n.0 ns ≡ some k
unfolding network_index
network_index-get_elem? [] k n d h = cc
network_index-get_elem? (m ∷ ns) zero n d h = ground (arith, str_compare_refl n.0)
network_index-get_elem? (m ∷ ns) (suc k) n d h =
    ground (arith, network_index-get_elem? ns k n d.1 h, eq_of_str_compare m.0 n.0)

abbrev position : Str → Networks → ℕ
position id ns = elim (network_index id ns) [ none ↦ 0 | some k ↦ k ]

module _ {T : Type 0} (ns : Networks) where
  -- Every identifier of the map is a network's.
  abbrev pub AllKnown : TreeMap T → Type 0
  AllKnown = All (λ (e : Str × T). network_index e.0 ns ≢ none)

  abbrev indexed : TreeMap T → List (ℕ × T)
  indexed [] = []
  indexed ((id, x) ∷ m) = (position id ns, x) ∷ indexed m

  index_entries-indexed : (m : TreeMap T) → AllKnown m → index_entries ns m ≡ ok (indexed m)
  unfolding index_entries
  index_entries-indexed [] a = refl
  index_entries-indexed ((id, x) ∷ m) a = ground (arith, index_entries-indexed m a.1)

  -- At a network's position stands what the map has under its identifier.
  find-indexed :
      (m : TreeMap T) (k : ℕ) (n : Str × Network)
      → IsDistinct ns
      → AllKnown m
      → get_elem? ns k ≡ some n
      → find k (indexed m) ≡ lookup n.0 m
  unfolding lookup
  find-indexed [] k n d a h = refl
  find-indexed ((id, x) ∷ m) k n d a h = elim (Option-cases (network_index id ns)) [
    | inl unknown ↦ absurd (a.0 unknown)
    | inr (i, e) ↦
        let (n', there, same) = get_elem?-network_index id ns i e in
        ground (
          arith,
          e,
          there,
          same,
          network_index-get_elem? ns k n d h,
          eq_of_str_compare n.0 id,
          str_compare_refl id,
          find-indexed m k n d a.1 h,
        )
  ]

  -- Past the last network stands nothing.
  find-indexed-none :
      (m : TreeMap T) (k : ℕ) → AllKnown m → get_elem? ns k ≡ none → find k (indexed m) ≡ none
  find-indexed-none [] k a h = refl
  find-indexed-none ((id, x) ∷ m) k a h = elim (Option-cases (network_index id ns)) [
    | inl unknown ↦ absurd (a.0 unknown)
    | inr (i, e) ↦
        let (n', there, same) = get_elem?-network_index id ns i e in
        ground (arith, e, there, find-indexed-none m k a.1 h)
  ]

  indexed-IsFresh : (m : TreeMap T) → IsDistinct ns → IsSorted m → AllKnown m → IsFresh (indexed m)
  indexed-IsFresh [] d s a = tt
  indexed-IsFresh ((id, x) ∷ m) d s a = elim (Option-cases (network_index id ns)) [
    | inl unknown ↦ absurd (a.0 unknown)
    | inr (i, e) ↦
        let (n', there, same) = get_elem?-network_index id ns i e in
        (
          rw (e, position) (find-indexed m i n' d a.1 there ∙ rw same (lookup_below id m s.0)),
          indexed-IsFresh m d s.1 a.1,
        )
  ]

  -- Where the networks have distinct identifiers, every identifier of the ordered map is a
  -- network's, and the map has the value `f n` for every network `n`, the values come out in the
  -- order of the networks.
  pub sort_network_data_by_index-map :
      (m : TreeMap T) (f : Str × Network → T)
      → IsDistinct ns
      → IsSorted m
      → AllKnown m
      → ((k : ℕ) (n : Str × Network) → get_elem? ns k ≡ some n → lookup n.0 m ≡ some (f n))
      → sort_network_data_by_index ns m ≡ ok (map f ns)
  unfolding sort_network_data_by_index
  sort_network_data_by_index-map m f d s a full = rw (index_entries-indexed m a) (
      ap ok (
        values_of_find 0 (sort_by_index (indexed m)) (map f ns)
          (sort_by_index-IsAscending (indexed m) (indexed-IsFresh m d s a))
          (zero-le-All (sort_by_index (indexed m)))
          (λ k. rw zero-add (find-sort_by_index k (indexed m) ∙ at_place k))))
    where
      at_place : (k : ℕ) → find k (indexed m) ≡ get_elem? (map f ns) k
      at_place k = elim (Option-cases (get_elem? ns k)) [
        | inl out ↦ find-indexed-none m k a out ∙ sym (get_elem?-map-none f ns k out)
        | inr (n, e) ↦ find-indexed m k n d a e ∙ full k n e ∙ sym (get_elem?-map-some f ns k n e)
      ]
