-- ===== src/Prelude/Lists.antt =====
-- Lists measured and indexed by native numbers, under the library's names.
use Prim.Native.Nat.{ℕ, zero, suc, ◌+◌}
use mathlib.Core.Path.{◌≡◌, refl, ap}
use mathlib.Core.List.{List, [], ◌∷◌, ◌++◌, map}
use mathlib.Core.Option.{Option, none, some}
use native.Mathlib.Omega.{arith}

module _ {ℓ} {A : Type ℓ} where
  abbrev pub length : List A → ℕ
  length [] = 0
  length (x ∷ xs) = suc (length xs)

  abbrev pub get_elem? : List A → ℕ → Option A
  get_elem? [] i = none
  get_elem? (x ∷ xs) zero = some x
  get_elem? (x ∷ xs) (suc i) = get_elem? xs i

  -- A write out of bounds changes nothing.
  abbrev pub set : List A → ℕ → A → List A
  set [] i v = []
  set (x ∷ xs) zero v = v ∷ xs
  set (x ∷ xs) (suc i) v = x ∷ set xs i v

  abbrev pub take : ℕ → List A → List A
  take zero xs = []
  take (suc n) [] = []
  take (suc n) (x ∷ xs) = x ∷ take n xs

  abbrev pub drop : ℕ → List A → List A
  drop zero xs = xs
  drop (suc n) [] = []
  drop (suc n) (x ∷ xs) = drop n xs

  abbrev pub is_empty : List A → mathlib.Core.Bool.Bool
  is_empty [] = mathlib.Core.Bool.true
  is_empty (x ∷ xs) = mathlib.Core.Bool.false

module _ {ℓ} {A : Type ℓ} where
  pub length-append : (xs ys : List A) → length (xs ++ ys) ≡ length xs + length ys
  length-append [] ys = omega arith
  length-append (x ∷ xs) ys = omega (arith, length-append xs ys)

  pub take-append : (xs ys : List A) → take (length xs) (xs ++ ys) ≡ xs
  take-append [] ys = refl
  take-append (x ∷ xs) ys = ap (λ t. x ∷ t) (take-append xs ys)

  pub drop-append : (xs ys : List A) → drop (length xs) (xs ++ ys) ≡ ys
  drop-append [] ys = refl
  drop-append (x ∷ xs) ys = drop-append xs ys

  pub length-map {κ} : {B : Type κ} (f : A → B) (xs : List A) → length (map f xs) ≡ length xs
  length-map f [] = refl
  length-map f (x ∷ xs) = ap suc (length-map f xs)

module _ {ℓ κ} {A : Type ℓ} {B : Type κ} where
  pub get_elem?-map-some :
      (f : A → B) (xs : List A) (k : ℕ) (x : A)
      → get_elem? xs k ≡ some x
      → get_elem? (map f xs) k ≡ some (f x)
  get_elem?-map-some f [] k x h = cc
  get_elem?-map-some f (y ∷ ys) zero x h = cc
  get_elem?-map-some f (y ∷ ys) (suc k) x h = get_elem?-map-some f ys k x h

  pub get_elem?-map-none :
      (f : A → B) (xs : List A) (k : ℕ) → get_elem? xs k ≡ none → get_elem? (map f xs) k ≡ none
  get_elem?-map-none f [] k h = refl
  get_elem?-map-none f (y ∷ ys) zero h = cc
  get_elem?-map-none f (y ∷ ys) (suc k) h = get_elem?-map-none f ys k h

module _ {ℓ κ} {A : Type ℓ} where
  -- Every element satisfies the predicate.
  abbrev pub All : (A → Type κ) → List A → Type κ
  All P [] = Unit
  All P (x ∷ xs) = P x × All P xs

  pub All-append : (P : A → Type κ) (xs ys : List A) → All P xs → All P ys → All P (xs ++ ys)
  All-append P [] ys hx hy = hy
  All-append P (x ∷ xs) ys hx hy = (hx.0, All-append P xs ys hx.1 hy)

  pub append-All : (P : A → Type κ) (xs ys : List A) → All P (xs ++ ys) → All P xs × All P ys
  append-All P [] ys h = (tt, h)
  append-All P (x ∷ xs) ys h = let (hx, hy) = append-All P xs ys h.1 in ((h.0, hx), hy)

  pub All-of_get_elem? :
      (P : A → Type κ) (xs : List A) → ((k : ℕ) (x : A) → get_elem? xs k ≡ some x → P x) → All P xs
  All-of_get_elem? P [] h = tt
  All-of_get_elem? P (x ∷ xs) h = (h 0 x refl, All-of_get_elem? P xs (λ k. h (suc k)))
