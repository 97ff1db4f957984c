-- ===== src/Encoding/Merkle/Root.antt =====
-- The root: the loop ends with at most one hash, and which leaves the root depends on.
use mathlib.Core.List.{map-append}
use block_oracle.Prelude.{
  ℕ, zero, suc, ◌+◌, ◌-◌, ◌≤◌, ◌<◌, ◌≡◌, refl, sym, ap, ◌∙◌, List, [], ◌∷◌, ◌++◌, map, arith,
  length, length-append,
}
use block_oracle.Prelude.Text.{eq_of_str_compare, str_compare_flip, str_compare_back}
use block_oracle.Encoding.Messages.{Bytes32, zero_hash}
use block_oracle.Encoding.Merkle.{
  MerkleLeaf, leaf_hash, min_bytes, max_bytes, combine, level_loop, merkle_root, first_or_default,
}
use block_oracle.Encoding.Merkle.Level.{drop_last, pair_up, level-pair_up, length-pair_up}

length-drop_last {ℓ} : {A : Type ℓ} (xs : List A) → length (drop_last xs) ≡ length xs - 1
length-drop_last [] = omega arith
length-drop_last (x ∷ []) = omega arith
length-drop_last (x ∷ y ∷ r) = omega (arith, length-drop_last (y ∷ r))

drop_last-append {ℓ} : {A : Type ℓ} (xs : List A) (a : A) → drop_last (xs ++ (a ∷ [])) ≡ xs
drop_last-append [] a = refl
drop_last-append (x ∷ []) a = refl
drop_last-append (x ∷ y ∷ r) a = ap (λ t. x ∷ t) (drop_last-append (y ∷ r) a)

module _ (digest : List ℕ → Bytes32) where
  -- The plain recursion: neighbours are combined and the last hash of the new level is dropped, until
  -- one hash is left, or none.
  unfoldable pub levels : ℕ → List Bytes32 → List Bytes32
  levels zero xs = xs
  levels (suc n) [] = []
  levels (suc n) (x ∷ []) = x ∷ []
  levels (suc n) (x ∷ y ∷ r) = levels n (drop_last (pair_up digest (x ∷ y ∷ r)))

  level_loop-levels : (n : ℕ) (xs : List Bytes32) → level_loop digest n xs ≡ levels n xs
  unfolding level_loop levels
  level_loop-levels zero xs = refl
  level_loop-levels (suc n) [] = refl
  level_loop-levels (suc n) (x ∷ []) = refl
  level_loop-levels (suc n) (x ∷ y ∷ r) = ground (
    arith,
    level-pair_up digest (x ∷ y ∷ r) (omega arith),
    level_loop-levels n (drop_last (pair_up digest (x ∷ y ∷ r))),
  )

  length-levels : (n : ℕ) (xs : List Bytes32) → length xs ≤ suc n → length (levels n xs) ≤ 1
  unfolding levels
  length-levels zero xs h = h
  length-levels (suc n) [] h = omega arith
  length-levels (suc n) (x ∷ []) h = omega arith
  length-levels (suc n) (x ∷ y ∷ r) h =
      let next : List Bytes32 = pair_up digest (x ∷ y ∷ r) in
      length-levels n (drop_last next)
        (omega (arith, length-drop_last next, length-pair_up digest (x ∷ y ∷ r)))

  -- The loop ends within the rounds that it is given: at most one hash is left.
  pub length-level_loop :
      (scratch : List Bytes32) → length (level_loop digest (length scratch) scratch) ≤ 1
  length-level_loop scratch =
      rw (level_loop-levels (length scratch) scratch)
        (length-levels (length scratch) scratch (omega arith))

  -- The root of any leaves is the one hash that the plain recursion over the leaves' hashes leaves, or
  -- 32 zero bytes where it leaves none.
  pub merkle_root-levels :
      (leaves : List MerkleLeaf)
      → let hashes = map (leaf_hash digest) leaves in
        merkle_root digest leaves ≡ first_or_default (levels (length hashes) hashes)
  unfolding merkle_root
  merkle_root-levels leaves =
      let hashes : List Bytes32 = map (leaf_hash digest) leaves in
      ap first_or_default (level_loop-levels (length hashes) hashes)

  drop_last-cons :
      (c : Bytes32) (ps : List Bytes32) → 0 < length ps → drop_last (c ∷ ps) ≡ c ∷ drop_last ps
  drop_last-cons c [] h = absurd (omega arith)
  drop_last-cons c (p ∷ ps) h = refl

  -- The pairing of neighbours keeps what stands last in its last element.
  next_level_ignores :
      (y : Bytes32) (ys : List Bytes32) (a b : Bytes32)
      → drop_last (pair_up digest (y ∷ (ys ++ (a ∷ []))))
        ≡ drop_last (pair_up digest (y ∷ (ys ++ (b ∷ []))))
  next_level_ignores y [] a b = refl
  next_level_ignores y (z ∷ []) a b = refl
  next_level_ignores y (z ∷ w ∷ r) a b =
      drop_last-cons (combine digest y z) (pair_up digest (w ∷ (r ++ (a ∷ [])))) (nonempty a)
      ∙ ap (λ t. combine digest y z ∷ t) (next_level_ignores w r a b)
      ∙ sym
          (drop_last-cons (combine digest y z) (pair_up digest (w ∷ (r ++ (b ∷ [])))) (nonempty b))
    where
      nonempty : (c : Bytes32) → 0 < length (pair_up digest (w ∷ (r ++ (c ∷ []))))
      nonempty c =
          omega (arith, length-pair_up digest (w ∷ (r ++ (c ∷ []))), length-append r (c ∷ []))

  levels_ignore :
      (n : ℕ) (y : Bytes32) (ys : List Bytes32) (a b : Bytes32)
      → levels (suc n) (y ∷ (ys ++ (a ∷ []))) ≡ levels (suc n) (y ∷ (ys ++ (b ∷ [])))
  unfolding levels
  levels_ignore n y [] a b = refl
  levels_ignore n y (z ∷ ys) a b = ap (levels n) (next_level_ignores y (z ∷ ys) a b)

  root_ignores :
      (y : Bytes32) (ys : List Bytes32) (a b : Bytes32)
      → first_or_default (levels (suc (length (ys ++ (a ∷ [])))) (y ∷ (ys ++ (a ∷ []))))
        ≡ first_or_default (levels (suc (length (ys ++ (b ∷ [])))) (y ∷ (ys ++ (b ∷ []))))
  root_ignores y ys a b =
      rw (length-append ys (a ∷ []), length-append ys (b ∷ []))
        (ap first_or_default (levels_ignore (length ys + 1) y ys a b))

  -- The root of two or more leaves does not depend on the last leaf: whatever stands there, the root
  -- is the same.
  pub merkle_root_ignores_last :
      (first : MerkleLeaf) (others : List MerkleLeaf) (a b : MerkleLeaf)
      → merkle_root digest (first ∷ (others ++ (a ∷ [])))
        ≡ merkle_root digest (first ∷ (others ++ (b ∷ [])))
  merkle_root_ignores_last first others a b =
      merkle_root-levels (first ∷ (others ++ (a ∷ [])))
      ∙ rw
          (
            map-append (leaf_hash digest) others (a ∷ []),
            map-append (leaf_hash digest) others (b ∷ []),
          )
          (root_ignores (leaf_hash digest first) (map (leaf_hash digest) others)
            (leaf_hash digest a) (leaf_hash digest b))
      ∙ sym (merkle_root-levels (first ∷ (others ++ (b ∷ []))))

  -- The root of any two leaves is 32 zero bytes.
  pub merkle_root_two : (a b : MerkleLeaf) → merkle_root digest (a ∷ b ∷ []) ≡ zero_hash
  unfolding levels
  merkle_root_two a b = merkle_root-levels (a ∷ b ∷ [])

  -- The root of one leaf is the leaf's hash.
  pub merkle_root_one : (a : MerkleLeaf) → merkle_root digest (a ∷ []) ≡ leaf_hash digest a
  unfolding levels
  merkle_root_one a = merkle_root-levels (a ∷ [])

  -- The order of the two hashes that are combined does not matter.
  pub combine_comm : (a b : Bytes32) → combine digest a b ≡ combine digest b a
  unfolding combine min_bytes max_bytes
  combine_comm a b = ground (
    arith,
    eq_of_str_compare a b,
    eq_of_str_compare b a,
    str_compare_flip a b,
    str_compare_flip b a,
    str_compare_back a b,
    str_compare_back b a,
  )
