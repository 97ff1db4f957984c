-- ===== src/Encoding/Encoder/Blocks.antt =====
-- `compress_block_ptrs`: what a non-empty set of block pointers does to every network.
use block_oracle.Prelude.{
  ℕ, ◌+◌, ◌≡◌, refl, ap, List, [], ◌∷◌, ◌++◌, map, none, some, arith, length, length-append,
  get_elem?, set, All, append_assoc, append-nil, inl, inr, Option-cases,
}
use block_oracle.Prelude.Int.{ℤ, ◌-ℤ◌, IsI64}
use block_oracle.Prelude.Outcome.{ok, err}
use block_oracle.Prelude.Text.{Str, eq_of_str_compare}
use block_oracle.Prelude.TreeMap.{TreeMap, IsSorted, lookup}
use block_oracle.Encoding.Messages.{BlockPtr, Bytes32, CompressedMessage, non_empty}
use block_oracle.Encoding.Merkle.{MerkleLeaf, merkle_root}
use block_oracle.Encoding.Encoder.{
  Network, Networks, Encoder, network_index, index_entries, sort_network_data_by_index,
  invalid_network_id, fill_missing, as_i64, checked_sub, update_network, update_networks,
  merkle_leaf, compress_block_ptrs, proceed, new_blocks, commit_blocks,
}
use block_oracle.Encoding.Encoder.Alignment.{IsDistinct, AllKnown}
use block_oracle.Encoding.Encoder.Fill.{ptr_for, lookup-fill_missing-some, sort-fill_missing}

-- The step from a network's last block to the new one, and how it differs from the step before.
abbrev pub delta : Network → BlockPtr → ℤ
delta n ptr = as_i64 ptr.number -ℤ as_i64 n.block_number

abbrev pub acceleration : Network → BlockPtr → ℤ
acceleration n ptr = delta n ptr -ℤ n.block_delta

-- The two differences of a network fit an `i64`.
abbrev pub Fits : Network → BlockPtr → Type 0
Fits n ptr = IsI64 (delta n ptr) × IsI64 (acceleration n ptr)

abbrev pub moved : Network → BlockPtr → Network
moved n ptr = record n { block_number = ptr.number; block_delta = delta n ptr }

checked_sub_fits : (a b : ℤ) → IsI64 (a -ℤ b) → checked_sub a b ≡ ok (a -ℤ b)
unfolding checked_sub
checked_sub_fits a b h = ground arith

update_network-Fits :
    (n : Network) (ptr : BlockPtr)
    → Fits n ptr
    → update_network n ptr ≡ ok (moved n ptr, acceleration n ptr)
unfolding update_network
update_network-Fits n ptr h = rw (checked_sub_fits _ _ h.0) (rw (checked_sub_fits _ _ h.1))

module _ (ptr : Str × Network → BlockPtr) where
  -- The leaves of the networks, from the index `i` on.
  abbrev pub leaves_from : ℕ → Networks → List MerkleLeaf
  leaves_from i [] = []
  leaves_from i (n ∷ ns) = merkle_leaf i (ptr n) ∷ leaves_from (i + 1) ns

  abbrev pub moved_networks : Networks → Networks
  moved_networks = map (λ n. (n.0, moved n.1 (ptr n)))

  abbrev pub accelerations_of : Networks → List ℤ
  accelerations_of = map (λ n. acceleration n.1 (ptr n))

  get_elem?-middle :
      (front back : Networks) (n : Str × Network)
      → get_elem? (front ++ (n ∷ back)) (length front) ≡ some n
  get_elem?-middle [] back n = refl
  get_elem?-middle (m ∷ front) back n = get_elem?-middle front back n

  set-middle :
      (front back : Networks) (n m : Str × Network)
      → set (front ++ (n ∷ back)) (length front) m ≡ front ++ (m ∷ back)
  set-middle [] back n m = refl
  set-middle (x ∷ front) back n m = ap (λ t. x ∷ t) (set-middle front back n m)

  update_networks-Fits :
      (todo front : Networks) (i : ℕ) (accs : List ℤ) (leaves : List MerkleLeaf)
      → length front ≡ i
      → All (λ (n : Str × Network). Fits n.1 (ptr n)) todo
      → update_networks i
          (map ptr todo)
          (record { networks = front ++ todo; accelerations = accs; merkle_leaves = leaves })
        ≡ ok (record {
          networks = front ++ moved_networks todo;
          accelerations = accs ++ accelerations_of todo;
          merkle_leaves = leaves ++ leaves_from i todo;
        })
  unfolding update_networks
  update_networks-Fits [] front i accs leaves e h = rw (append-nil accs) (rw (append-nil leaves))
  update_networks-Fits (n ∷ todo) front i accs leaves e h =
      let m : Str × Network = (n.0, moved n.1 (ptr n)) in
      let rest =
        update_networks-Fits todo (front ++ (m ∷ [])) (length front + 1)
          (accs ++ (acceleration n.1 (ptr n) ∷ []))
          (leaves ++ (merkle_leaf (length front) (ptr n) ∷ [])) (length-append front (m ∷ []))
          h.1 in
      rw (← e) (
        rw (get_elem?-middle front todo n) (
          rw (update_network-Fits n.1 (ptr n) h.0)
            (rw (set-middle front todo n m) (simp append_assoc at rest))))

new_blocks-Fits :
    (ptrs : TreeMap BlockPtr) (ns : Networks)
    → IsDistinct ns
    → IsSorted ptrs
    → AllKnown ns ptrs
    → All (λ (n : Str × Network). Fits n.1 (ptr_for ptrs n)) ns
    → new_blocks ns ptrs
      ≡ ok (record {
        networks = moved_networks (ptr_for ptrs) ns;
        accelerations = accelerations_of (ptr_for ptrs) ns;
        merkle_leaves = leaves_from (ptr_for ptrs) 0 ns;
      })
unfolding new_blocks
new_blocks-Fits ptrs ns d s a fits =
    rw (sort-fill_missing ns ptrs d s a)
      (update_networks-Fits (ptr_for ptrs) ns [] 0 [] [] refl fits)

-- Where the identifiers of the networks are distinct, every identifier of the ordered map is a
-- network's, and no difference overflows: every network moves to its own pointer, or keeps its block
-- if it has none; the message holds the accelerations in the order of the networks and the Merkle
-- root of their pointers.
pub compress_block_ptrs_lem :
    (digest : List ℕ → Bytes32) (ptrs : TreeMap BlockPtr) (e : Encoder)
    → IsDistinct e.networks
    → IsSorted ptrs
    → AllKnown e.networks ptrs
    → All (λ (n : Str × Network). Fits n.1 (ptr_for ptrs n)) e.networks
    → compress_block_ptrs digest ptrs e ≡ (
      ok tt,
      record e {
        networks = moved_networks (ptr_for ptrs) e.networks;
        compressed =
            e.compressed
            ++ (CompressedMessage.set_block_numbers_for_next_epoch (
                  non_empty
                    (accelerations_of (ptr_for ptrs) e.networks)
                    (merkle_root digest (leaves_from (ptr_for ptrs) 0 e.networks)))
                ∷ []);
      },
    )
unfolding compress_block_ptrs
compress_block_ptrs_lem digest ptrs e d s a fits =
    ap (λ r. proceed (commit_blocks digest) (r, e)) (new_blocks-Fits ptrs e.networks d s a fits)

index_entries_unknown :
    (ns : Networks) {T : Type 0} (m : TreeMap T) (id : Str) (x : T)
    → lookup id m ≡ some x
    → network_index id ns ≡ none
    → (j : Str) × (network_index j ns ≡ none) × (index_entries ns m ≡ err (invalid_network_id j))
unfolding lookup index_entries
index_entries_unknown ns [] id x h u = cc
index_entries_unknown ns (n ∷ m) id x h u = elim (Option-cases (network_index n.0 ns)) [
  | inl unknown ↦ (n.0, unknown, rw unknown)
  | inr (k, e) ↦
      let (j, unknown, stops) =
        index_entries_unknown ns m id x (ground (arith, h, e, u, eq_of_str_compare id n.0)) u in
      (j, unknown, rw e (rw stops))
]

-- A set that names a network that is not registered is refused: the error names such a network, and
-- the encoder is left as it was.
pub compress_block_ptrs_unknown :
    (digest : List ℕ → Bytes32) (ptrs : TreeMap BlockPtr) (e : Encoder) (id : Str) (p : BlockPtr)
    → lookup id ptrs ≡ some p
    → network_index id e.networks ≡ none
    → (j : Str) × (network_index j e.networks ≡ none)
      × (compress_block_ptrs digest ptrs e ≡ (err (invalid_network_id j), e))
unfolding compress_block_ptrs new_blocks sort_network_data_by_index
compress_block_ptrs_unknown digest ptrs e id p h u =
    let (j, unknown, stops) =
      index_entries_unknown e.networks (fill_missing e.networks ptrs) id p
        (lookup-fill_missing-some e.networks ptrs id h) u in
    let fails : new_blocks e.networks ptrs ≡ err (invalid_network_id j) = rw stops in
    (j, unknown, ap (λ r. proceed (commit_blocks digest) (r, e)) fails)
