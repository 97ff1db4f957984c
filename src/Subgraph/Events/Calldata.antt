-- ===== src/Subgraph/Events/Calldata.antt =====
-- `parseCalldata` of packages/subgraph/src/helpers.ts against the ABI's layout of a call.
use native.Mathlib.Nat.{pow-suc}
use block_oracle.Prelude.{
  ℕ, zero, suc, ◌+◌, ◌-◌, ◌/◌, ◌%◌, ◌^◌, ◌<◌, ◌≡◌, refl, ap, List, [], ◌∷◌, ◌++◌, some, arith,
  length, take, drop, take-append, drop-append, length-append, append_assoc, lt→ltb,
}
use block_oracle.Subgraph.Tags.{from_unsigned_bytes}
use block_oracle.Subgraph.Events.{reverse, parse_calldata}

-- The `k` lowest bytes of a number, the highest first.
abbrev pub be_bytes : ℕ → ℕ → List ℕ
be_bytes zero n = []
be_bytes (suc k) n = be_bytes k (n / 256) ++ (n % 256 ∷ [])

length-be_bytes : (k n : ℕ) → length (be_bytes k n) ≡ k
length-be_bytes zero n = refl
length-be_bytes (suc k) n =
    omega (arith, length-append (be_bytes k (n / 256)) (n % 256 ∷ []), length-be_bytes k (n / 256))

reverse-snoc : (bytes : List ℕ) (b : ℕ) → reverse (bytes ++ (b ∷ [])) ≡ b ∷ reverse bytes
unfolding reverse
reverse-snoc [] b = refl
reverse-snoc (x ∷ bytes) b = ap (λ t. t ++ (x ∷ [])) (reverse-snoc bytes b)

from_unsigned_bytes-be_bytes :
    (k n : ℕ) → n < 256 ^ k → from_unsigned_bytes (reverse (be_bytes k n)) ≡ n
unfolding from_unsigned_bytes reverse
from_unsigned_bytes-be_bytes zero n h = omega arith
from_unsigned_bytes-be_bytes (suc k) n h =
    let small : n / 256 < 256 ^ k = omega (arith, pow-suc 256 k) in
    rw (reverse-snoc (be_bytes k (n / 256)) (n % 256))
      (rw (from_unsigned_bytes-be_bytes k (n / 256) small) (omega arith))

-- What stands behind `a`.
part :
    (a b c : List ℕ) (i m : ℕ) → length a ≡ i → length b ≡ m → take m (drop i (a ++ (b ++ c))) ≡ b
part a b c i m h k = rw (← h, ← k, drop-append a (b ++ c)) (take-append b c)

parse_calldata-parts :
    (front size payload padding : List ℕ)
    → length front ≡ 36
    → length size ≡ 32
    → from_unsigned_bytes (reverse size) ≡ length payload
    → length payload < 2 ^ 31
    → parse_calldata (front ++ (size ++ (payload ++ padding))) ≡ some payload
unfolding parse_calldata
parse_calldata-parts front size payload padding h sized value small =
    let behind : take (68 + length payload - 68) (drop 68 ((front ++ size) ++ (payload ++ padding)))
        ≡ payload =
      part (front ++ size) payload padding 68 (68 + length payload - 68)
        (omega (arith, length-append front size)) (omega arith) in
    rw
      (
        parse_calldata,
        part front size (payload ++ padding) 36 32 h sized,
        value,
        lt→ltb (length payload) (2 ^ 31) small,
      )
      (ap some (rw (append_assoc front size (payload ++ padding)) at behind))

-- The payload of a call is found again: behind the selector and the offset, 36 bytes, stand its length
-- in 32 bytes, the payload, and whatever fills the last word, where the length is below 2^31.
pub parse_calldata-call :
    (front payload padding : List ℕ)
    → length front ≡ 36
    → length payload < 2 ^ 31
    → parse_calldata (front ++ (be_bytes 32 (length payload) ++ (payload ++ padding)))
      ≡ some payload
parse_calldata-call front payload padding h small =
    parse_calldata-parts front (be_bytes 32 (length payload)) payload padding h
      (length-be_bytes 32 (length payload))
      (from_unsigned_bytes-be_bytes 32 (length payload) (omega arith)) small
