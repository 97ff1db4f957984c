-- ===== src/Prelude/Drops.antt =====
-- What `drop` leaves of a list.
use Prim.Native.Nat.{ℕ, zero, suc, ◌+◌, ◌-◌, ◌<◌}
use mathlib.Core.Path.{◌≡◌, refl}
use mathlib.Core.List.{List, [], ◌∷◌}
use mathlib.Core.Option.{some}
use native.Mathlib.Nat.{zero-add, suc-add}
use native.Mathlib.Omega.{arith}
use block_oracle.Prelude.Lists.{length, drop, get_elem?}

pub length-drop {ℓ} : {A : Type ℓ} (n : ℕ) (xs : List A) → length (drop n xs) ≡ length xs - n
length-drop zero xs = omega arith
length-drop (suc n) [] = omega arith
length-drop (suc n) (x ∷ xs) = omega (arith, length-drop n xs)

drop-nil {ℓ} : {A : Type ℓ} (n : ℕ) → drop {A = A} n [] ≡ []
drop-nil zero = refl
drop-nil (suc n) = refl

pub drop-drop {ℓ} : {A : Type ℓ} (m n : ℕ) (xs : List A) → drop (n + m) xs ≡ drop m (drop n xs)
drop-drop m zero xs = rw zero-add
drop-drop m (suc n) [] = simp drop-nil
drop-drop m (suc n) (x ∷ xs) = rw suc-add (drop-drop m n xs)

pub get_elem?-drop {ℓ} :
    {A : Type ℓ} (n : ℕ) (xs : List A) {b : A} {t : List A}
    → drop n xs ≡ b ∷ t
    → get_elem? xs n ≡ some b
get_elem?-drop zero [] h = cc
get_elem?-drop zero (x ∷ xs) h = cc
get_elem?-drop (suc n) [] h = cc
get_elem?-drop (suc n) (x ∷ xs) h = get_elem?-drop n xs h

-- What is in front of the reader is not past its end.
pub lt-length_of_drop {ℓ} :
    {A : Type ℓ} (n : ℕ) (xs : List A) {b : A} {t : List A} → drop n xs ≡ b ∷ t → n < length xs
lt-length_of_drop zero [] h = cc
lt-length_of_drop zero (x ∷ xs) h = omega arith
lt-length_of_drop (suc n) [] h = cc
lt-length_of_drop (suc n) (x ∷ xs) h = omega (arith, lt-length_of_drop n xs h)

pub drop-suc {ℓ} :
    {A : Type ℓ} (n : ℕ) (xs : List A) {b : A} {t : List A}
    → drop n xs ≡ b ∷ t
    → drop (n + 1) xs ≡ t
drop-suc n xs h = rw (drop-drop 1 n xs, h)
