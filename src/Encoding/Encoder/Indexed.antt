-- ===== src/Encoding/Encoder/Indexed.antt =====
-- Lists of values under numbers: lookup, insertion sort, and the list that ascending numbers from
-- `b` on stand for.
use block_oracle.Prelude.{
  ℕ, suc, ◌+◌, ◌-◌, ◌≤◌, ◌<◌, ◌≡◌, refl, ap, ◌∙◌, sym, List, [], ◌∷◌, map, Option, none, some,
  arith, get_elem?, All, ◌==◌, if◌then◌else◌,
}
use mathlib.Core.Path.{ap₂}
use native.Mathlib.Nat.{add-zero}
use block_oracle.Encoding.Encoder.{insert_by_index, sort_by_index}

module _ {T : Type 0} where
  abbrev pub find : ℕ → List (ℕ × T) → Option T
  find k [] = none
  find k (e ∷ es) = if e.0 == k then some e.1 else find k es

  -- The numbers ascend, so none is there twice.
  abbrev pub IsAscending : List (ℕ × T) → Type 0
  IsAscending [] = Unit
  IsAscending (e ∷ es) = All (λ (f : ℕ × T). e.0 < f.0) es × IsAscending es

  -- No number is there twice.
  abbrev pub IsFresh : List (ℕ × T) → Type 0
  IsFresh [] = Unit
  IsFresh (e ∷ es) = (find e.0 es ≡ none) × IsFresh es

  find-insert_by_index :
      (k : ℕ) (e : ℕ × T) (es : List (ℕ × T))
      → find k (insert_by_index e es) ≡ (if e.0 == k then some e.1 else find k es)
  unfolding insert_by_index
  find-insert_by_index k e [] = refl
  find-insert_by_index k e (f ∷ es) = ground (arith, find-insert_by_index k e es)

  pub find-sort_by_index : (k : ℕ) (es : List (ℕ × T)) → find k (sort_by_index es) ≡ find k es
  unfolding sort_by_index
  find-sort_by_index k [] = refl
  find-sort_by_index k (e ∷ es) =
      find-insert_by_index k e (sort_by_index es)
      ∙ ap (λ t. if e.0 == k then some e.1 else t) (find-sort_by_index k es)

  below_trans :
      (i j : ℕ) (es : List (ℕ × T))
      → i < j
      → All (λ (f : ℕ × T). j < f.0) es
      → All (λ (f : ℕ × T). i < f.0) es
  below_trans i j [] h a = tt
  below_trans i j (e ∷ es) h a = (omega arith, below_trans i j es h a.1)

  insert_by_index_above :
      (i : ℕ) (e : ℕ × T) (es : List (ℕ × T))
      → i < e.0
      → All (λ (f : ℕ × T). i < f.0) es
      → All (λ (f : ℕ × T). i < f.0) (insert_by_index e es)
  unfolding insert_by_index
  insert_by_index_above i e [] h a = (h, tt)
  insert_by_index_above i e (f ∷ es) h a = ground (arith, insert_by_index_above i e es h a.1)

  insert_by_index-IsAscending :
      (e : ℕ × T) (es : List (ℕ × T))
      → find e.0 es ≡ none
      → IsAscending es
      → IsAscending (insert_by_index e es)
  unfolding insert_by_index
  insert_by_index-IsAscending e [] h a = (tt, tt)
  insert_by_index-IsAscending e (f ∷ es) h a = ground (
    arith,
    below_trans e.0 f.0 es,
    insert_by_index_above f.0 e es,
    insert_by_index-IsAscending e es,
  )

  pub sort_by_index-IsAscending : (es : List (ℕ × T)) → IsFresh es → IsAscending (sort_by_index es)
  unfolding sort_by_index
  sort_by_index-IsAscending [] h = tt
  sort_by_index-IsAscending (e ∷ es) h =
      insert_by_index-IsAscending e (sort_by_index es) (find-sort_by_index e.0 es ∙ h.0)
        (sort_by_index-IsAscending es h.1)

  find_above : (k : ℕ) (es : List (ℕ × T)) → All (λ (f : ℕ × T). k < f.0) es → find k es ≡ none
  find_above k [] a = refl
  find_above k (e ∷ es) a = ground (arith, find_above k es a.1)

  pub zero-le-All : (es : List (ℕ × T)) → All (λ (f : ℕ × T). 0 ≤ f.0) es
  zero-le-All [] = tt
  zero-le-All (e ∷ es) = (omega arith, zero-le-All es)

  first_place :
      (b : ℕ) (e : ℕ × T) (es : List (ℕ × T)) (x : T)
      → IsAscending (e ∷ es)
      → b ≤ e.0
      → find b (e ∷ es) ≡ some x
      → (e.0 ≡ b) × (e.1 ≡ x)
  first_place b e es x a lo h = ground (arith, find_above b es, below_trans b e.0 es)

  -- An ascending list that finds at `b + k` what stands at place `k` of `xs` holds `xs`.
  pub values_of_find :
      (b : ℕ) (es : List (ℕ × T)) (xs : List T)
      → IsAscending es
      → All (λ (f : ℕ × T). b ≤ f.0) es
      → ((k : ℕ) → find (b + k) es ≡ get_elem? xs k)
      → map (λ (e : ℕ × T). e.1) es ≡ xs
  values_of_find b [] [] a lo h = refl
  values_of_find b [] (x ∷ xs) a lo h = cc (h 0)
  values_of_find b (e ∷ es) [] a lo h = ground (arith, h (e.0 - b))
  values_of_find b (e ∷ es) (x ∷ xs) a lo h =
      let (here, value) = first_place b e es x a lo.0 (at_zero ∙ h 0) in
      ap₂ (λ v t. v ∷ t) value
        (values_of_find (suc b) es xs a.1 (rw here at a.0)
          (λ k. ground (arith, h (suc k), shift k)))
    where
      at_zero : find b (e ∷ es) ≡ find (b + 0) (e ∷ es)
      at_zero = ap (λ t. find t (e ∷ es)) (sym (add-zero b))

      shift : (k : ℕ) → b + suc k ≡ suc b + k
      shift k = omega arith
