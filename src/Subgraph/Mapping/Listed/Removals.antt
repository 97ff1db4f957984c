-- ===== src/Subgraph/Mapping/Listed/Removals.antt =====
-- Removals from the list of networks, in packages/subgraph/src/mapping.ts.
use mathlib.Core.Path.{subst}
use block_oracle.Prelude.{
  ℕ, zero, suc, ◌≡◌, ◌≢◌, refl, ap, sym, List, [], ◌∷◌, Option, none, some, All, get_elem?, set,
  Option-cases, inl, inr,
}
use block_oracle.Prelude.Int.{ℤ, pos, negsuc}
use block_oracle.Prelude.Text.{Str}
use block_oracle.Subgraph.Chain.{IsOther, IsUnique}
use block_oracle.Subgraph.Mapping.Registry.{take_out, wrap, flat, rounds}

pub flat-wrap : (ids : List Str) → flat (wrap ids) ≡ ids
flat-wrap [] = refl
flat-wrap (id ∷ ids) = ap (λ t. id ∷ t) (flat-wrap ids)

-- A network that is taken out of its place, and those that are left.
All-flat-set :
    (P : Str → Type 0) (places : List (Option Str)) (k : ℕ) (id : Str)
    → get_elem? places k ≡ some (some id)
    → All P (flat places)
    → P id × All P (flat (set places k none))
All-flat-set P [] k id e h = let no : none ≡ some (some id) = e in cc
All-flat-set P (none ∷ places) zero id e h = let no : some none ≡ some (some id) = e in cc
All-flat-set P (some j ∷ places) zero id e h =
    let same : some j ≡ some id = (let e' : some (some j) ≡ some (some id) = e in cc) in
    let same' : j ≡ id = cc in (subst P same' h.0, h.1)
All-flat-set P (none ∷ places) (suc k) id e h = All-flat-set P places k id e h
All-flat-set P (some j ∷ places) (suc k) id e h =
    let (here, rest) = All-flat-set P places k id e h.1 in (here, (h.0, rest))

IsUnique-flat-set :
    (places : List (Option Str)) (k : ℕ) (id : Str)
    → get_elem? places k ≡ some (some id)
    → IsUnique (flat places)
    → IsUnique (flat (set places k none)) × IsOther id (flat (set places k none))
IsUnique-flat-set [] k id e u = let no : none ≡ some (some id) = e in cc
IsUnique-flat-set (none ∷ places) zero id e u = let no : some none ≡ some (some id) = e in cc
IsUnique-flat-set (some j ∷ places) zero id e u =
    let same : some j ≡ some id = (let e' : some (some j) ≡ some (some id) = e in cc) in
    let same' : j ≡ id = cc in (u.1, subst (λ i. IsOther i (flat places)) same' u.0)
IsUnique-flat-set (none ∷ places) (suc k) id e u = IsUnique-flat-set places k id e u
IsUnique-flat-set (some j ∷ places) (suc k) id e u =
    let (other, others) = All-flat-set (λ i. i ≢ j) places k id e u.0 in
    let (unique, apart) = IsUnique-flat-set places k id e u.1 in
    ((others, unique), ((λ same. other (sym same)), apart))

-- A removal that does not trap finds a network in its place.
take_out-cons :
    (k : ℤ) (ks : List ℤ) (places : List (Option Str)) (x : List Str × List (Option Str))
    → take_out (k ∷ ks) places ≡ some x
    → (id : Str) × (y : List Str × List (Option Str)) × (get_elem? places (rounds k)
        ≡ some (some id))
      × (take_out ks (set places (rounds k) none) ≡ some y)
      × ((id ∷ y.0, y.1) ≡ x)
unfolding take_out
take_out-cons (negsuc n) ks places x e = let no : none ≡ some x = e in cc
take_out-cons (pos n) ks places x e = go (get_elem? places n) refl
  where
    go :
        (o : Option (Option Str))
        → get_elem? places n ≡ o
        → (id : Str) × (y : List Str × List (Option Str)) × (get_elem? places n ≡ some (some id))
          × (take_out ks (set places n none) ≡ some y)
          × ((id ∷ y.0, y.1) ≡ x)
    go none at = let no : none ≡ some x = rw (take_out, at) at e in cc
    go (some none) at = let no : none ≡ some x = rw (take_out, at) at e in cc
    go (some (some id)) at = elim (Option-cases (take_out ks (set places n none))) [
      | inl trap ↦ let no : none ≡ some x = rw (take_out, at, trap) at e in cc
      | inr (y, rest) ↦
          let done : some (id ∷ y.0, y.1) ≡ some x = rw (take_out, at, rest) at e in
          (id, y, at, rest, cc)
    ]

-- What holds of every network holds of those removed and of those left.
pub All-take_out :
    (P : Str → Type 0) (ks : List ℤ) (places : List (Option Str)) (x : List Str × List (Option Str))
    → take_out ks places ≡ some x
    → All P (flat places)
    → All P x.0 × All P (flat x.1)
unfolding take_out
All-take_out P [] places x e h =
    let done : some ([], places) ≡ some x = e in
    let same : ([], places) ≡ x = cc in
    subst (λ (z : List Str × List (Option Str)). All P z.0 × All P (flat z.1)) same (tt, h)
All-take_out P (k ∷ ks) places x e h =
    let (id, y, at, rest, same) = take_out-cons k ks places x e in
    let (here, others) = All-flat-set P places (rounds k) id at h in
    let (removed, left) = All-take_out P ks (set places (rounds k) none) y rest others in
    subst (λ (z : List Str × List (Option Str)). All P z.0 × All P (flat z.1)) same
      ((here, removed), left)

-- Those left are unique, and none of them is removed.
pub IsUnique-take_out :
    (ks : List ℤ) (places : List (Option Str)) (x : List Str × List (Option Str))
    → take_out ks places ≡ some x
    → IsUnique (flat places)
    → IsUnique (flat x.1) × All (λ (r : Str). IsOther r (flat x.1)) x.0
unfolding take_out
IsUnique-take_out [] places x e u =
    let done : some ([], places) ≡ some x = e in
    let same : ([], places) ≡ x = cc in
    subst
      (λ (z : List Str × List (Option Str)).
        IsUnique (flat z.1) × All (λ (r : Str). IsOther r (flat z.1)) z.0)
      same (u, tt)
IsUnique-take_out (k ∷ ks) places x e u =
    let (id, y, at, rest, same) = take_out-cons k ks places x e in
    let (unique, apart) = IsUnique-flat-set places (rounds k) id at u in
    let (left, others) = IsUnique-take_out ks (set places (rounds k) none) y rest unique in
    subst
      (λ (z : List Str × List (Option Str)).
        IsUnique (flat z.1) × All (λ (r : Str). IsOther r (flat z.1)) z.0)
      same
      (left, ((All-take_out (λ j. j ≢ id) ks (set places (rounds k) none) y rest apart).1, others))
