-- ===== src/Prelude/TreeMap.antt =====
-- `BTreeMap<String, V>`: its entries in ascending order of the keys.
use Prim.Native.Nat.Ordering.{lt, eq, gt}
use mathlib.Core.Path.{◌≡◌, refl, ap, sym, ◌∙◌}
use mathlib.Core.Bool.{Bool, true, false}
use mathlib.Core.Option.{Option, none, some}
use mathlib.Core.List.{List, [], ◌∷◌, ◌++◌, append_assoc, append-nil}
use native.Mathlib.Omega.{arith}
use block_oracle.Prelude.Tests.{if◌then◌else◌}
use block_oracle.Prelude.Lists.{All, append-All}
use block_oracle.Prelude.Text.{
  Str, str_compare, str_eq, str_compare_refl, eq_of_str_compare, str_compare_trans,
  str_compare_flip, str_compare_back,
}

abbrev pub TreeMap {ℓ} : Type ℓ → Type ℓ
TreeMap V = List (Str × V)

module _ {ℓ} {V : Type ℓ} where
  unfoldable pub insert : Str → V → TreeMap V → TreeMap V
  insert k v [] = (k, v) ∷ []
  insert k v ((j, w) ∷ m) = elim (str_compare k j) [
    | lt ↦ (k, v) ∷ (j, w) ∷ m
    | eq ↦ (k, v) ∷ m
    | gt ↦ (j, w) ∷ insert k v m
  ]

  unfoldable pub lookup : Str → TreeMap V → Option V
  lookup k [] = none
  lookup k ((j, w) ∷ m) = if str_eq k j then some w else lookup k m

  abbrev pub contains_key : Str → TreeMap V → Bool
  contains_key k m = elim (lookup k m) [ none ↦ false | some _ ↦ true ]

  unfoldable pub remove : Str → TreeMap V → TreeMap V
  remove k [] = []
  remove k ((j, w) ∷ m) = if str_eq k j then m else (j, w) ∷ remove k m

  -- `collect()`: entries are inserted in turn, and a later one replaces an earlier.
  unfoldable pub extend : TreeMap V → List (Str × V) → TreeMap V
  unfolding insert
  extend m [] = m
  extend m ((k, v) ∷ es) = extend (insert k v m) es

  abbrev pub collect : List (Str × V) → TreeMap V
  collect = extend []

  -- `k` comes before every key of the map.
  abbrev pub IsBelow : Str → TreeMap V → Type 0
  IsBelow k = All (λ (e : Str × V). str_compare k e.0 ≡ lt)

  -- The keys ascend, so none is there twice.
  abbrev pub IsSorted : TreeMap V → Type 0
  IsSorted [] = Unit
  IsSorted ((k, v) ∷ m) = IsBelow k m × IsSorted m

  IsBelow-trans : (j k : Str) (m : TreeMap V) → str_compare j k ≡ lt → IsBelow k m → IsBelow j m
  IsBelow-trans j k [] h b = tt
  IsBelow-trans j k (e ∷ m) h b = (str_compare_trans j k e.0 h b.0, IsBelow-trans j k m h b.1)

  insert-IsBelow :
      (j k : Str) (v : V) (m : TreeMap V)
      → str_compare j k ≡ lt
      → IsBelow j m
      → IsBelow j (insert k v m)
  unfolding insert
  insert-IsBelow j k v [] h b = (h, tt)
  insert-IsBelow j k v (e ∷ m) h b = ground (arith, insert-IsBelow j k v m h b.1)

  pub insert-IsSorted : (k : Str) (v : V) (m : TreeMap V) → IsSorted m → IsSorted (insert k v m)
  unfolding insert
  insert-IsSorted k v [] s = (tt, tt)
  insert-IsSorted k v (e ∷ m) s = ground (
    arith,
    IsBelow-trans k e.0 m,
    eq_of_str_compare k e.0,
    str_compare_flip k e.0,
    insert-IsBelow e.0 k v m,
    insert-IsSorted k v m s.1,
  )

  pub lookup-insert :
      (j k : Str) (v : V) (m : TreeMap V)
      → lookup j (insert k v m) ≡ (if str_eq j k then some v else lookup j m)
  unfolding insert lookup
  lookup-insert j k v [] = refl
  lookup-insert j k v (e ∷ m) = ground (
    arith,
    eq_of_str_compare j k,
    eq_of_str_compare k e.0,
    eq_of_str_compare j e.0,
    str_compare_refl k,
    str_compare_refl j,
    lookup-insert j k v m,
  )

  pub lookup_below : (k : Str) (m : TreeMap V) → IsBelow k m → lookup k m ≡ none
  unfolding lookup
  lookup_below k [] b = refl
  lookup_below k (e ∷ m) b = ground (arith, lookup_below k m b.1)

module _ {ℓ} {V : Type ℓ} where
  -- A later entry goes to the end of a map whose keys all come before it.
  insert-last :
      (m : TreeMap V) (k : Str) (v : V)
      → All (λ (e : Str × V). str_compare e.0 k ≡ lt) m
      → insert k v m ≡ m ++ ((k, v) ∷ [])
  unfolding insert
  insert-last [] k v h = refl
  insert-last (e ∷ m) k v h =
      rw (insert, str_compare_back e.0 k h.0) (ap (λ t. e ∷ t) (insert-last m k v h.1))

  before_next :
      (m : TreeMap V) (e : Str × V) (es : List (Str × V))
      → IsSorted (m ++ (e ∷ es))
      → All (λ (d : Str × V). str_compare d.0 e.0 ≡ lt) m
  before_next [] e es s = tt
  before_next (d ∷ m) e es s = (
    (append-All (λ (c : Str × V). str_compare d.0 c.0 ≡ lt) m (e ∷ es) s.0).1.0,
    before_next m e es s.1,
  )

  extend-append : (m es : TreeMap V) → IsSorted (m ++ es) → extend m es ≡ m ++ es
  unfolding extend
  extend-append m [] s = sym (append-nil m)
  extend-append m (e ∷ es) s = rw (insert-last m e.0 e.1 (before_next m e es s)) (
      extend-append (m ++ (e ∷ [])) es (rw (append_assoc m (e ∷ []) es) s)
      ∙ append_assoc m (e ∷ []) es)

  -- Collecting the entries of a map gives the map.
  pub collect_sorted : (m : TreeMap V) → IsSorted m → collect m ≡ m
  collect_sorted m s = extend-append [] m s
