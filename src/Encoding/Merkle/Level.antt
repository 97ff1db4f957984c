-- ===== src/Encoding/Merkle/Level.antt =====
-- One round of the Merkle loop, which works in place, against the plain pairing of neighbours.
use native.Mathlib.Numerals.{add-one}
use block_oracle.Prelude.{
  ℕ, zero, suc, ◌+◌, ◌-◌, ◌/◌, ◌≤◌, ◌<◌, ◌≡◌, refl, ap, ◌∙◌, List, [], ◌∷◌, ◌++◌, arith,
  append_assoc, append-nil, length, set, take, drop,
}
use block_oracle.Prelude.Drops.{length-drop, drop-drop, drop-suc}
use block_oracle.Encoding.Messages.{Bytes32}
use block_oracle.Encoding.Merkle.{elem, combine, pair_loop, move_last, level}

-- `xs` without its last element.
abbrev pub drop_last {ℓ} : {A : Type ℓ} → List A → List A
drop_last [] = []
drop_last (x ∷ []) = []
drop_last (x ∷ y ∷ r) = x ∷ drop_last (y ∷ r)

length-set {ℓ} : {A : Type ℓ} (xs : List A) (i : ℕ) (v : A) → length (set xs i v) ≡ length xs
length-set [] i v = refl
length-set (x ∷ xs) zero v = refl
length-set (x ∷ xs) (suc i) v = ap suc (length-set xs i v)

drop-set {ℓ} :
    {A : Type ℓ} (n i : ℕ) (xs : List A) (v : A) → i < n → drop n (set xs i v) ≡ drop n xs
drop-set zero i xs v h = absurd (omega arith)
drop-set (suc n) i [] v h = refl
drop-set (suc n) zero (x ∷ xs) v h = refl
drop-set (suc n) (suc i) (x ∷ xs) v h = drop-set n i xs v (omega arith)

take-set {ℓ} :
    {A : Type ℓ} (i : ℕ) (xs : List A) (v : A)
    → i < length xs
    → take (suc i) (set xs i v) ≡ take i xs ++ (v ∷ [])
take-set i [] v h = absurd (omega arith)
take-set zero (x ∷ xs) v h = refl
take-set (suc i) (x ∷ xs) v h = ap (λ t. x ∷ t) (take-set i xs v (omega arith))

elem-drop :
    (n : ℕ) (xs : List Bytes32) {b : Bytes32} {t : List Bytes32} → drop n xs ≡ b ∷ t → elem xs n ≡ b
unfolding elem
elem-drop zero [] h = cc
elem-drop zero (x ∷ xs) h = cc
elem-drop (suc n) [] h = cc
elem-drop (suc n) (x ∷ xs) h = elem-drop n xs h

-- A prefix one shorter is the prefix without its last element.
take-drop_last {ℓ} :
    {A : Type ℓ} (n : ℕ) (xs ys : List A)
    → take (suc n) xs ≡ ys
    → length ys ≡ suc n
    → take n xs ≡ drop_last ys
take-drop_last n [] ys h e = absurd (omega (arith, ap length h))
take-drop_last zero (x ∷ xs) ys h e = rw (← h)
take-drop_last (suc n) (x ∷ []) ys h e = absurd (omega (arith, ap length h))
take-drop_last (suc n) (x ∷ y ∷ r) ys h e =
    rw (← h)
      (ap (λ t. x ∷ t) (take-drop_last n (y ∷ r) (y ∷ take n r) refl (omega (arith, ap length h))))

module _ (digest : List ℕ → Bytes32) where
  -- Neighbours combined, and the odd one out kept.
  abbrev pub pair_up : List Bytes32 → List Bytes32
  pair_up [] = []
  pair_up (x ∷ []) = x ∷ []
  pair_up (x ∷ y ∷ r) = combine digest x y ∷ pair_up r

  pub length-pair_up : (xs : List Bytes32) → length (pair_up xs) ≡ (length xs + 1) / 2
  length-pair_up [] = omega arith
  length-pair_up (x ∷ []) = omega arith
  length-pair_up (x ∷ y ∷ r) = omega (arith, length-pair_up r)

  -- The state of the inner loop: what is written is `take write`, what is still to be read `drop read`.
  pair_loop_lem :
      (rest : List Bytes32) (fuel : ℕ) (scratch : List Bytes32) (write read : ℕ)
      → drop read scratch ≡ rest
      → write ≤ read
      → length rest ≤ fuel
      → let (scratch', write') = move_last digest (pair_loop digest fuel scratch write read) in
        (take write' scratch' ≡ take write scratch ++ pair_up rest)
        × (write' ≡ write + length (pair_up rest))
  unfolding pair_loop move_last
  pair_loop_lem [] zero scratch write read h w f =
      ground (arith, length-drop read scratch, ap length h, append-nil (take write scratch))
  pair_loop_lem [] (suc fuel) scratch write read h w f =
      ground (arith, length-drop read scratch, ap length h, append-nil (take write scratch))
  pair_loop_lem (x ∷ []) zero scratch write read h w f = absurd (omega arith)
  pair_loop_lem (x ∷ []) (suc fuel) scratch write read h w f = ground (
    arith,
    length-drop read scratch,
    ap length h,
    elem-drop read scratch h,
    add-one write,
    take-set write scratch x,
  )
  pair_loop_lem (x ∷ y ∷ r) zero scratch write read h w f = absurd (omega arith)
  pair_loop_lem (x ∷ y ∷ r) (suc fuel) scratch write read h w f =
      let scratch' : List Bytes32 = set scratch write (combine digest x y) in
      let after : drop (read + 2) scratch' ≡ r =
        drop-set (read + 2) write scratch (combine digest x y) (omega arith)
        ∙ (drop-drop 2 read scratch ∙ rw h) in
      ground (
        arith,
        length-drop read scratch,
        ap length h,
        elem-drop read scratch h,
        elem-drop (read + 1) scratch (drop-suc read scratch h),
        add-one write,
        take-set write scratch (combine digest x y),
        append_assoc (take write scratch) (combine digest x y ∷ []) (pair_up r),
        pair_loop_lem r fuel scratch' (write + 1) (read + 2) after (omega arith) (omega arith),
      )

  -- One round of the in-place loop over two or more hashes combines neighbours, keeps the odd one out,
  -- and then drops the last hash of the new level.
  pub level-pair_up :
      (scratch : List Bytes32)
      → 1 < length scratch
      → level digest scratch ≡ drop_last (pair_up scratch)
  unfolding level
  level-pair_up scratch h =
      let (kept, count) =
        pair_loop_lem scratch (length scratch) scratch 0 0 refl (omega arith) (omega arith) in
      let n : ℕ = length (pair_up scratch) - 1 in
      let moved : List Bytes32 × ℕ =
        move_last digest (pair_loop digest (length scratch) scratch 0 0) in
      let full : moved.1 ≡ suc n = omega (arith, count, length-pair_up scratch) in
      let short : moved.1 - 1 ≡ n = omega (arith, full) in
      rw short (
        take-drop_last n moved.0 (pair_up scratch) (rw full at kept)
          (omega (arith, length-pair_up scratch)))
