-- ===== src/Prelude/Text.antt =====
-- Rust's `String`: its UTF-8 bytes. Strings are compared byte by byte, as `Ord for str` does.
use Prim.Native.Nat.{ℕ, compare, Ordering}
use Prim.Native.Nat.Ordering.{lt, eq, gt}
use Prim.Native.Char.{code}
use Prim.Native.String.{String}
use mathlib.Core.Path.{◌≡◌, refl}
use mathlib.Core.Logic.{◌↔◌}
use mathlib.Core.Bool.{Bool, true, false}
use mathlib.Core.List.{List, [], ◌∷◌}
use native.Mathlib.Omega.{arith}

abbrev pub Str : Type 0
Str = List ℕ

-- The bytes of an ASCII literal.
abbrev pub bytes_of : String → Str
bytes_of String.[] = []
bytes_of (String.◌∷◌ c s) = code c ∷ bytes_of s

unfoldable pub str_compare : Str → Str → Ordering
str_compare [] [] = eq
str_compare [] (y ∷ ys) = lt
str_compare (x ∷ xs) [] = gt
str_compare (x ∷ xs) (y ∷ ys) = elim (compare x y) [ lt ↦ lt | eq ↦ str_compare xs ys | gt ↦ gt ]

-- `a == b` on strings.
abbrev pub str_eq : Str → Str → Bool
str_eq s t = elim (str_compare s t) [ eq ↦ true | _ ↦ false ]

pub str_compare_refl : (s : Str) → str_compare s s ≡ eq
unfolding str_compare
str_compare_refl [] = refl
str_compare_refl (x ∷ xs) = ground (arith, str_compare_refl xs)

pub eq_of_str_compare : (s t : Str) → str_compare s t ≡ eq → s ≡ t
unfolding str_compare
eq_of_str_compare [] [] h = refl
eq_of_str_compare [] (y ∷ ys) h = cc
eq_of_str_compare (x ∷ xs) [] h = cc
eq_of_str_compare (x ∷ xs) (y ∷ ys) h = ground (arith, eq_of_str_compare xs ys)

pub str_eq_iff : (s t : Str) → (str_eq s t ≡ true) ↔ (s ≡ t)
str_eq_iff s t =
    (λ h. ground (arith, eq_of_str_compare s t), λ e. rw (← e) (ground (arith, str_compare_refl s)))

pub str_compare_trans :
    (s t u : Str) → str_compare s t ≡ lt → str_compare t u ≡ lt → str_compare s u ≡ lt
unfolding str_compare
str_compare_trans [] [] u h k = cc
str_compare_trans [] (y ∷ ys) [] h k = cc
str_compare_trans [] (y ∷ ys) (z ∷ zs) h k = refl
str_compare_trans (x ∷ xs) [] u h k = cc
str_compare_trans (x ∷ xs) (y ∷ ys) [] h k = cc
str_compare_trans (x ∷ xs) (y ∷ ys) (z ∷ zs) h k = ground (arith, str_compare_trans xs ys zs)

pub str_compare_flip : (s t : Str) → str_compare s t ≡ gt → str_compare t s ≡ lt
unfolding str_compare
str_compare_flip [] [] h = cc
str_compare_flip [] (y ∷ ys) h = cc
str_compare_flip (x ∷ xs) [] h = refl
str_compare_flip (x ∷ xs) (y ∷ ys) h = ground (arith, str_compare_flip xs ys)

pub str_compare_back : (s t : Str) → str_compare s t ≡ lt → str_compare t s ≡ gt
unfolding str_compare
str_compare_back [] [] h = cc
str_compare_back [] (y ∷ ys) h = refl
str_compare_back (x ∷ xs) [] h = cc
str_compare_back (x ∷ xs) (y ∷ ys) h = ground (arith, str_compare_back xs ys)
