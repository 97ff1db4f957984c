-- ===== src/Prelude/Bits.antt =====
-- `|`, `^` and `&` of the native numbers as arithmetic, where the operands are disjoint fields or
-- all ones.
use Prim.Native.Nat.{
  ℕ, zero, suc, ◌+◌, ◌-◌, ◌*◌, ◌/◌, ◌%◌, ◌^◌, ◌≤◌, ◌<◌, max, bit_and, bit_or, bit_xor, digits,
  bitwise, differ, bit_or-bitwise, bit_xor-bitwise,
}
use mathlib.Core.Path.{◌≡◌, refl, ap, ◌∙◌}
use mathlib.Core.Logic.{inl, inr}
use mathlib.Core.Bool.{Bool, true, ◌&&◌}
use native.Mathlib.Nat.{pow-suc, one-le-pow}
use native.Mathlib.Omega.{arith}
use block_oracle.Prelude.Tests.{◌==◌, le-or-lt}

-- The digits of an operation do not depend on how many of them are asked for, once that is enough.
module _ (ended : ℕ → ℕ) (op : ℕ → ℕ → ℕ) where
  one_digit_more :
      (count x y : ℕ) → x ≤ count → digits ended op (suc count) x y ≡ digits ended op count x y
  one_digit_more zero zero y enough = refl
  one_digit_more count zero y enough = elim count [ zero ↦ refl | suc c ↦ refl ]
  one_digit_more zero (suc x) y enough = absurd (omega arith)
  one_digit_more (suc count) (suc x) y enough =
      ap (λ (t : ℕ). t * 2 + op (suc x % 2) (y % 2))
        (one_digit_more count (suc x / 2) (y / 2) (omega arith))

  spare_digits :
      (many count x y : ℕ)
      → x ≤ count
      → count ≤ many
      → digits ended op many x y ≡ digits ended op count x y
  spare_digits zero count x y enough more = let e : count ≡ 0 = omega arith in rw e refl
  spare_digits (suc many) count x y enough more = elim (le-or-lt count many) [
    | inl below ↦ one_digit_more many x y (omega arith) ∙ spare_digits many count x y enough below
    | inr above ↦ let e : count ≡ suc many = omega arith in rw e refl
  ]

  halved :
      (x y : ℕ)
      → bitwise ended op (suc x) y
        ≡ bitwise ended op (suc x / 2) (y / 2) * 2 + op (suc x % 2) (y % 2)
  halved x y =
      ap (λ (t : ℕ). t * 2 + op (suc x % 2) (y % 2))
        (spare_digits x (suc x / 2) (suc x / 2) (y / 2) (omega arith) (omega arith))

differ_digit : (p q : ℕ) → p < 2 → q < 2 → differ p q ≡ (p + q) % 2
differ_digit zero q hp hq = omega arith
differ_digit (suc zero) zero hp hq = refl
differ_digit (suc zero) (suc zero) hp hq = refl
differ_digit (suc zero) (suc (suc q)) hp hq = absurd (omega arith)
differ_digit (suc (suc p)) q hp hq = absurd (omega arith)

-- An operation that is known by its lowest digit.
module _ (op digit : ℕ → ℕ → ℕ)
    (lowest : (x y : ℕ) → op x y ≡ op (x / 2) (y / 2) * 2 + digit (x % 2) (y % 2)) where
  keeps_left :
      op 0 0 ≡ 0 → ((d : ℕ) → d < 2 → digit d 0 ≡ d) → (bound x : ℕ) → x ≤ bound → op x 0 ≡ x
  keeps_left none digits_kept bound zero h = none
  keeps_left none digits_kept zero (suc x) h = absurd (omega arith)
  keeps_left none digits_kept (suc bound) (suc x) h = omega (
    arith,
    lowest (suc x) 0,
    keeps_left none digits_kept bound (suc x / 2) (omega arith),
    digits_kept (suc x % 2) (omega arith),
  )

or_lowest : (x y : ℕ) → bit_or x y ≡ bit_or (x / 2) (y / 2) * 2 + max (x % 2) (y % 2)
or_lowest (suc x) y = simp bit_or-bitwise (halved (λ t. t) max x y)
or_lowest zero y = simp bit_or-bitwise (omega arith)

xor_lowest : (x y : ℕ) → bit_xor x y ≡ bit_xor (x / 2) (y / 2) * 2 + (x % 2 + y % 2) % 2
xor_lowest (suc x) y = simp bit_xor-bitwise (
    omega (
      arith,
      differ_digit (suc x % 2) (y % 2) (omega arith) (omega arith),
      halved (λ t. t) differ x y,
    ))
xor_lowest zero y = simp bit_xor-bitwise (omega arith)

bit_or-zero : (x : ℕ) → bit_or x 0 ≡ x
bit_or-zero x = keeps_left bit_or max or_lowest refl (λ d h. omega arith) x x (omega arith)

pub bit_xor-zero : (x : ℕ) → bit_xor x 0 ≡ x
bit_xor-zero x =
    keeps_left bit_xor (λ c d. (c + d) % 2) xor_lowest refl (λ d h. omega arith) x x (omega arith)

pub zero-bit_or : (b : ℕ) → bit_or 0 b ≡ b
zero-bit_or b = simp bit_or-bitwise refl

-- A shift by one more place.
shifted : (high k : ℕ) → high * 2 ^ suc k ≡ high * 2 ^ k * 2
shifted high k = omega (arith, ap (λ (t : ℕ). high * t) (pow-suc 2 k))

-- `low | (high << k)` is a sum when `low` fits `k` bits.
pub bit_or_above : (k low high : ℕ) → low < 2 ^ k → bit_or low (high * 2 ^ k) ≡ low + high * 2 ^ k
bit_or_above zero low high h = ground (arith, zero-bit_or (high * 2 ^ 0))
bit_or_above (suc k) low high h =
    let small : low / 2 < 2 ^ k = omega (arith, pow-suc 2 k) in
    ground
      (arith, shifted high k, bit_or_above k (low / 2) high small, or_lowest low (high * 2 ^ suc k))

-- `(high << k) | low` likewise.
pub bit_or_below : (k high low : ℕ) → low < 2 ^ k → bit_or (high * 2 ^ k) low ≡ high * 2 ^ k + low
bit_or_below zero high low h = ground (arith, bit_or-zero high)
bit_or_below (suc k) high low h =
    let small : low / 2 < 2 ^ k = omega (arith, pow-suc 2 k) in
    ground
      (arith, shifted high k, bit_or_below k high (low / 2) small, or_lowest (high * 2 ^ suc k) low)

-- `a ^ 11…1` flips the `k` low bits.
pub bit_xor_ones : (k a : ℕ) → a < 2 ^ k → bit_xor a (2 ^ k - 1) + a + 1 ≡ 2 ^ k
bit_xor_ones zero a fits = ground (arith, bit_xor-zero a)
bit_xor_ones (suc k) a fits =
    let small : a / 2 < 2 ^ k = omega (arith, pow-suc 2 k) in
    ground (
      arith,
      bit_xor_ones k (a / 2) small,
      one-le-pow k 2,
      pow-suc 2 k,
      xor_lowest a (2 ^ suc k - 1),
    )

all_below : ℕ → (ℕ → ℕ) → (ℕ → ℕ) → Bool
all_below zero f g = true
all_below (suc n) f g = f n == g n && all_below n f g

all_below_sound : (n : ℕ) (f g : ℕ → ℕ) (x : ℕ) → all_below n f g ≡ true → x < n → f x ≡ g x
unfolding all_below
all_below_sound zero f g x h lt = absurd (omega arith)
all_below_sound (suc n) f g x h lt = ground (arith, all_below_sound n f g x)

-- The low half of a byte, checked over all bytes.
pub low_nibble : (b : ℕ) → b < 256 → bit_and b 15 ≡ b % 16
unfolding all_below
low_nibble b h = all_below_sound 256 (λ x. bit_and x 15) (λ x. x % 16) b refl h
