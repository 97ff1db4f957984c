-- ===== src/Oracle/Monitor/Bumps.antt =====
-- How crates/oracle/src/runner/transaction_monitor.rs raises the gas price between attempts.
use native.Mathlib.Nat.{
  mul-add, mul-le-mul_left, mul-le-mul_right, mul_assoc, pow-succ', one-le-pow,
}
use block_oracle.Prelude.{
  ℕ, suc, ◌+◌, ◌*◌, ◌/◌, ◌^◌, ◌≤◌, ◌<◌, ◌≡◌, ◌≢◌, refl, ap, ◌∙◌, sym, Option, none, some, arith,
  Bool-cases, ltb, lt→ltb, ◌⊎◌, inl, inr,
}
use block_oracle.Prelude.Outcome.{ok, err, panic}
use block_oracle.Oracle.Control.{TransactionMonitorError}
use block_oracle.Oracle.Monitor.{TransactionParameters, bump_gas, bump_price, bump_parameters}

-- Where the factor fits an `u32` and the product 256 bits, the bumped price is the price plus the
-- given percentage of it, rounded down.
pub bump_gas_lem :
    (gas_price percentual_increase : ℕ)
    → 100 + percentual_increase < 2 ^ 32
    → gas_price * (100 + percentual_increase) < 2 ^ 256
    → (bumped : ℕ) × (bump_gas gas_price percentual_increase ≡ ok (some bumped))
      × (bumped ≡ gas_price + gas_price * percentual_increase / 100)
unfolding bump_gas
bump_gas_lem g p hp hg = (g * (100 + p) / 100, ground arith, omega (arith, mul-add g 100 p))

abbrev pub amount : Option ℕ → ℕ
amount none = 0
amount (some g) = g

-- The price that a broadcast offers.
abbrev pub price : TransactionParameters → ℕ
price p = amount p.gas_price

-- The same transaction but for its price.
abbrev pub IsSameTransaction : TransactionParameters → TransactionParameters → Type 0
IsSameTransaction p q = record q { gas_price = p.gas_price } ≡ p

bump_price_cases :
    (o : Option ℕ) (percentual_increase : ℕ)
    → (bump_price o percentual_increase ≡ panic)
      ⊎ ((o' : Option ℕ) × (bump_price o percentual_increase ≡ ok o') × (amount o ≤ amount o'))
unfolding bump_price bump_gas
bump_price_cases none i = inr (none, refl, omega arith)
bump_price_cases (some g) i = elim (Bool-cases (ltb (100 + i) (2 ^ 32))) [
  | inr t ↦ inl (rw t refl)
  | inl t ↦ elim (Bool-cases (ltb (g * (100 + i)) (2 ^ 256))) [
    | inr t' ↦ inl (rw (t, t') refl)
    | inl t' ↦ inr (some (g * (100 + i) / 100), rw (t, t') refl, raised g i)
  ]
]
  where
    raised : (g i : ℕ) → g ≤ g * (100 + i) / 100
    raised g i = omega (arith, mul-add g 100 i)

-- A bump panics, or it changes the price and nothing else, and does not lower it.
pub bump_cases :
    (p : TransactionParameters) (percentual_increase : ℕ)
    → (bump_parameters p percentual_increase ≡ panic)
      ⊎ ((q : TransactionParameters) × (bump_parameters p percentual_increase ≡ ok q)
          × IsSameTransaction p q
          × (price p ≤ price q))
unfolding bump_parameters
bump_cases p i = elim (bump_price_cases p.gas_price i) [
  | inl stuck ↦ inl (rw (bump_parameters, stuck) refl)
  | inr (o, e, rise) ↦ inr (record p { gas_price = o }, rw (bump_parameters, e) refl, refl, rise)
]

pub bump-same :
    (p q : TransactionParameters) (percentual_increase : ℕ)
    → bump_parameters p percentual_increase ≡ ok q
    → IsSameTransaction p q × (price p ≤ price q)
bump-same p q i h = elim (bump_cases p i) [
  | inl stuck ↦ absurd (cc)
  | inr (q', e, same, rise) ↦ let whole : q' ≡ q = cc in (rw (← whole) same, rw (← whole) rise)
]

pub bump_not_err :
    (p : TransactionParameters) (percentual_increase : ℕ) (e : TransactionMonitorError)
    → bump_parameters p percentual_increase ≢ err e
bump_not_err p i e h = elim (bump_cases p i) [ inl stuck ↦ cc | inr (q, e', same, rise) ↦ cc ]

-- A price with room for eight more bits can be bumped, and at most doubles.
bump_price_ok :
    (o : Option ℕ) (percentual_increase : ℕ)
    → percentual_increase ≤ 100
    → amount o < 2 ^ 248
    → (o' : Option ℕ) × (bump_price o percentual_increase ≡ ok o') × (amount o' ≤ amount o * 2)
unfolding bump_price bump_gas
bump_price_ok none i h room = (none, refl, omega arith)
bump_price_ok (some g) i h room =
    let scaled : g * i ≤ g * 100 = mul-le-mul_left g h in
    (
      some (g * (100 + i) / 100),
      rw
          (
            lt→ltb (100 + i) (2 ^ 32) (omega arith),
            lt→ltb (g * (100 + i)) (2 ^ 256) (omega (arith, mul-add g 100 i)),
          )
          refl,
      omega (arith, mul-add g 100 i),
    )

pub bump_ok :
    (p : TransactionParameters) (percentual_increase : ℕ)
    → percentual_increase ≤ 100
    → price p < 2 ^ 248
    → (q : TransactionParameters) × (bump_parameters p percentual_increase ≡ ok q)
      × (price q ≤ price p * 2)
unfolding bump_parameters
bump_ok p i h room =
    let (o, e, low) = bump_price_ok p.gas_price i h room in
    (record p { gas_price = o }, rw (bump_parameters, e) refl, low)

-- The price after a bump leaves room for the bumps to come.
pub room_left :
    (retries : ℕ) (p q : TransactionParameters)
    → price q ≤ price p * 2
    → price p * 2 ^ suc retries < 2 ^ 248
    → price q * 2 ^ retries < 2 ^ 248
room_left retries p q double room =
    let next : price q * 2 ^ retries ≤ price p * 2 * 2 ^ retries =
      mul-le-mul_right (2 ^ retries) double in
    let regrouped : price p * 2 * 2 ^ retries ≡ price p * 2 ^ suc retries =
      mul_assoc (price p) 2 (2 ^ retries)
      ∙ ap (λ (t : ℕ). price p * t) (sym (pow-succ' 2 retries)) in
    omega (arith, next, regrouped, room)

pub price-lt :
    (retries : ℕ) (p : TransactionParameters)
    → price p * 2 ^ suc retries < 2 ^ 248
    → price p < 2 ^ 248
price-lt retries p room =
    let one_le : 1 ≤ 2 ^ suc retries = one-le-pow (suc retries) 2 (omega arith) in
    let kept : price p * 1 ≤ price p * 2 ^ suc retries = mul-le-mul_left (price p) one_le in
    omega (arith, kept, room)
