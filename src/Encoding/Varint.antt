-- ===== src/Encoding/Varint.antt =====
-- What `serialize_u64` writes, in plain arithmetic: for a number of `7 * n` bits, `n` bytes, the
-- first of which ends in a one and `n - 1` zeros.
use mathlib.Core.WellFounded.{Acc}
use native.Mathlib.Nat.{pow-suc, one-le-pow}
use block_oracle.Prelude.{
  ℕ, zero, suc, ◌+◌, ◌-◌, ◌*◌, ◌/◌, ◌%◌, ◌^◌, ◌≤◌, ◌<◌, ◌≡◌, refl, ◌∙◌, List, [], ◌∷◌, ◌++◌,
  append_assoc, append-nil, arith, ltb, if◌then◌else◌, ◌⊎◌, inl, inr,
}
use block_oracle.Prelude.Bits.{bit_or_below}
use block_oracle.Encoding.Messages.{IsU64}
use block_oracle.Encoding.Serialize.{bit_length, num_bytes, push_bytes, first_byte, serialize_u64}

-- The `k` low bytes of `w`, lowest first.
abbrev pub le_bytes : ℕ → ℕ → List ℕ
le_bytes zero w = []
le_bytes (suc k) w = w % 256 ∷ le_bytes k (w / 256)

-- The first byte of an encoding with `k` bytes behind it: the bits of `v` that have room, above a
-- one and `k` zeros.
abbrev pub marked : ℕ → ℕ → ℕ
marked k v = v % 2 ^ (7 - k) * 2 ^ (k + 1) + 2 ^ k % 256

abbrev pub encoding : ℕ → ℕ → List ℕ
encoding k v = marked k v ∷ le_bytes k (v / 2 ^ (7 - k))

-- How many bytes follow the first: each has room for seven more bits, the last for eight.
unfoldable pub extra_bytes : ℕ → ℕ
extra_bytes v =
    if ltb v (2 ^ 7)
    then 0
    else if ltb v (2 ^ 14)
    then 1
    else if ltb v (2 ^ 21)
    then 2
    else if ltb v (2 ^ 28)
    then 3
    else if ltb v (2 ^ 35)
    then 4
    else if ltb v (2 ^ 42)
    then 5
    else if ltb v (2 ^ 49)
    then 6
    else if ltb v (2 ^ 56)
    then 7
    else 8

bit_length-le : (f k v : ℕ) → v < 2 ^ k → bit_length f v ≤ k
unfolding bit_length
bit_length-le zero k v h = omega arith
bit_length-le (suc f) zero v h = ground arith
bit_length-le (suc f) (suc k) v h =
    ground (arith, pow-suc 2 k, bit_length-le f k (v / 2) (omega (arith, pow-suc 2 k)))

lt-bit_length : (f k v : ℕ) → 2 ^ k ≤ v → v < 2 ^ f → k < bit_length f v
unfolding bit_length
lt-bit_length zero k v h h' = absurd (omega (arith, one-le-pow k 2))
lt-bit_length (suc f) zero v h h' = ground arith
lt-bit_length (suc f) (suc k) v h h' = ground (
  arith,
  pow-suc 2 k,
  one-le-pow k 2,
  lt-bit_length f k (v / 2) (omega (arith, pow-suc 2 k)) (omega (arith, pow-suc 2 f)),
)

-- `w` has exactly `k` bytes.
abbrev Fills : ℕ → ℕ → Type 0
Fills zero w = w < 1
Fills (suc k) w = (256 ^ k ≤ w) × (w < 256 ^ suc k)

push_bytes-le_bytes :
    (k : ℕ) (bytes : List ℕ) (w : ℕ) (a : Acc ◌<◌ w)
    → Fills k w
    → push_bytes bytes w a ≡ bytes ++ le_bytes k w
unfolding push_bytes
push_bytes-le_bytes zero bytes w (Acc.intro _ smaller) h = ground (arith, append-nil bytes)
push_bytes-le_bytes (suc zero) bytes w (Acc.intro _ smaller) h = grind (
  arith,
  λ (a : Acc ◌<◌ (w / 256)).
      push_bytes-le_bytes zero (bytes ++ (w % 256 ∷ [])) (w / 256) a (omega arith),
  append_assoc bytes (w % 256 ∷ []) [],
  append-nil bytes,
)
push_bytes-le_bytes (suc (suc k)) bytes w (Acc.intro _ smaller) h = grind (
  arith,
  one-le-pow (suc k) 256,
  λ (a : Acc ◌<◌ (w / 256)).
      push_bytes-le_bytes (suc k) (bytes ++ (w % 256 ∷ [])) (w / 256) a
        (omega (arith, pow-suc 256 k, pow-suc 256 (suc k))),
  append_assoc bytes (w % 256 ∷ []) (le_bytes (suc k) (w / 256)),
)

first_byte_at :
    (n q r v : ℕ)
    → v * 2 ^ n % 2 ^ 64 % 256 ≡ q * 2 ^ n
    → 2 ^ (n - 1) % 256 ≡ r
    → r < 2 ^ n
    → first_byte v n ≡ q * 2 ^ n + r
unfolding first_byte
first_byte_at n q r v hq hr fits = rw (hq, hr) (bit_or_below n q r fits)

-- The two tests of the width of `v`.
num_bytes_at :
    (k v : ℕ)
    → k ≤ 7
    → v < 2 ^ (7 * suc k)
    → 2 ^ (7 * k) ≤ v ⊎ (k ≡ 0)
    → v < 2 ^ 64
    → num_bytes v ≡ suc k
unfolding num_bytes
num_bytes_at k v hk hi (inl lo) h =
    ground (arith, bit_length-le 64 (7 * suc k) v, lt-bit_length 64 (7 * k) v)
num_bytes_at k v hk hi (inr z) h = ground (arith, bit_length-le 64 (7 * suc k) v)

num_bytes_nine : (v : ℕ) → 2 ^ 56 ≤ v → v < 2 ^ 64 → num_bytes v ≡ 9
unfolding num_bytes
num_bytes_nine v lo h = ground (arith, bit_length-le 64 64 v, lt-bit_length 64 56 v)

-- The encoding, once the three parts of the computation are known.
assemble :
    (k v : ℕ) (bytes : List ℕ)
    → num_bytes v ≡ suc k
    → first_byte v (suc k) ≡ marked k v
    → Fills k (v / 2 ^ (8 - suc k))
    → 8 - suc k ≡ 7 - k
    → serialize_u64 v bytes ≡ bytes ++ encoding k v
unfolding serialize_u64
assemble k v bytes hn hf fills e =
    rw (hn, hf)
      (push_bytes-le_bytes k (bytes ++ (marked k v ∷ [])) (v / 2 ^ (8 - suc k)) _ fills
        ∙ rw (append_assoc, e))

-- `v` has more than `7 * k` bits, and fits `suc k` bytes.
abbrev pub Width : ℕ → ℕ → Type 0
Width k v = (2 ^ (7 * k) ≤ v ⊎ (k ≡ 0)) × (k ≤ 8) × (v < 2 ^ (7 * suc k) ⊎ (k ≡ 8)) × (v < 2 ^ 64)

pub Width-extra_bytes : (v : ℕ) → IsU64 v → Width (extra_bytes v) v
unfolding extra_bytes
Width-extra_bytes v h = ground arith

module _ (v : ℕ) (bytes : List ℕ) where
  at-Width : (k : ℕ) → Width k v → serialize_u64 v bytes ≡ bytes ++ encoding k v
  at-Width zero w =
      assemble 0 v bytes (num_bytes_at 0 v (omega arith) (omega arith) w.0 w.3)
        (first_byte_at 1 (v % 2 ^ 7) 1 v (omega arith) refl (omega arith)) (omega arith) refl
  at-Width (suc zero) w =
      assemble 1 v bytes (num_bytes_at 1 v (omega arith) (omega arith) w.0 w.3)
        (first_byte_at 2 (v % 2 ^ 6) 2 v (omega arith) refl (omega arith)) (omega arith) refl
  at-Width (suc (suc zero)) w =
      assemble 2 v bytes (num_bytes_at 2 v (omega arith) (omega arith) w.0 w.3)
        (first_byte_at 3 (v % 2 ^ 5) 4 v (omega arith) refl (omega arith)) (omega arith) refl
  at-Width (suc (suc (suc zero))) w =
      assemble 3 v bytes (num_bytes_at 3 v (omega arith) (omega arith) w.0 w.3)
        (first_byte_at 4 (v % 2 ^ 4) 8 v (omega arith) refl (omega arith)) (omega arith) refl
  at-Width (suc (suc (suc (suc zero)))) w =
      assemble 4 v bytes (num_bytes_at 4 v (omega arith) (omega arith) w.0 w.3)
        (first_byte_at 5 (v % 2 ^ 3) 16 v (omega arith) refl (omega arith)) (omega arith) refl
  at-Width (suc (suc (suc (suc (suc zero))))) w =
      assemble 5 v bytes (num_bytes_at 5 v (omega arith) (omega arith) w.0 w.3)
        (first_byte_at 6 (v % 2 ^ 2) 32 v (omega arith) refl (omega arith)) (omega arith) refl
  at-Width (suc (suc (suc (suc (suc (suc zero)))))) w =
      assemble 6 v bytes (num_bytes_at 6 v (omega arith) (omega arith) w.0 w.3)
        (first_byte_at 7 (v % 2 ^ 1) 64 v (omega arith) refl (omega arith)) (omega arith) refl
  at-Width (suc (suc (suc (suc (suc (suc (suc zero))))))) w =
      assemble 7 v bytes (num_bytes_at 7 v (omega arith) (omega arith) w.0 w.3)
        (first_byte_at 8 (v % 2 ^ 0) 128 v (omega arith) refl (omega arith)) (omega arith) refl
  at-Width (suc (suc (suc (suc (suc (suc (suc (suc zero)))))))) w =
      assemble 8 v bytes (num_bytes_nine v (omega arith) w.3)
        (first_byte_at 9 (v % 2 ^ 0) 0 v (omega arith) refl (omega arith)) (omega arith) refl
  at-Width (suc (suc (suc (suc (suc (suc (suc (suc (suc k))))))))) w = absurd (omega arith)

-- On every `u64` the buffer is kept, and what is appended is its encoding in plain arithmetic, of
-- `extra_bytes v + 1` bytes.
pub serialize_u64-encoding :
    (v : ℕ) (bytes : List ℕ) → IsU64 v → serialize_u64 v bytes ≡ bytes ++ encoding (extra_bytes v) v
serialize_u64-encoding v bytes h = at-Width v bytes (extra_bytes v) (Width-extra_bytes v h)

-- The buffer only grows: what is written does not depend on what is there.
pub serialize_u64-append :
    (v : ℕ) (bytes : List ℕ) → IsU64 v → serialize_u64 v bytes ≡ bytes ++ serialize_u64 v []
serialize_u64-append v bytes h =
    rw (serialize_u64-encoding v bytes h, serialize_u64-encoding v [] h)
