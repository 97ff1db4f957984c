-- ===== src/Subgraph/Decoding/RoundTrip.antt =====
-- The reader gives back each number that `serialize_u64` wrote.
use native.Mathlib.Nat.{
  pow-suc, pow-le-pow_right, mod-eq_of_lt, eq-or-lt_of_le, mod-add-div', mod-lt, one-le-pow,
  mul-add-div_right, div-eq_of_lt, add-zero,
}
use native.Mathlib.Numerals.{towards_suc}
use block_oracle.Prelude.{
  ℕ, zero, suc, ◌+◌, ◌-◌, ◌*◌, ◌/◌, ◌%◌, ◌^◌, ◌≤◌, ◌<◌, ◌≡◌, refl, ap, ◌∙◌, List, [], ◌++◌, arith,
  length, inl, inr, Bool-cases, leb,
}
use block_oracle.Prelude.Drops.{drop-suc}
use block_oracle.Encoding.Messages.{IsU64}
use block_oracle.Encoding.Serialize.{serialize_u64}
use block_oracle.Encoding.Varint.{
  le_bytes, marked, encoding, extra_bytes, Width, Width-extra_bytes, serialize_u64-encoding,
}
use block_oracle.Subgraph.Decoding.{
  BytesReader, peek, trailing_zeros, tag_shift, peeks, decode_shift, decode_u64,
}
use block_oracle.Subgraph.Decoding.Peeks.{At, At-advance, peek_lem, advance_lem, peeks-le_bytes}

one_more : (q k : ℕ) → q * 2 ^ (suc k + 1) + 2 ^ suc k ≡ 2 * (q * 2 ^ (k + 1) + 2 ^ k)
one_more q k =
    simp towards_suc (omega (arith, pow-suc 2 k, ap (λ (t : ℕ). q * t) (pow-suc 2 (suc k))))

-- The marker of the first byte is found.
trailing_zeros_marker : (f k q : ℕ) → k < f → trailing_zeros f (q * 2 ^ (k + 1) + 2 ^ k) ≡ k
unfolding trailing_zeros
trailing_zeros_marker zero k q h = absurd (omega arith)
trailing_zeros_marker (suc f) zero q h = ground arith
trailing_zeros_marker (suc f) (suc k) q h =
    ground (arith, pow-suc 2 k, one_more q k, trailing_zeros_marker f k q)

pow-lt : (k : ℕ) → k ≤ 7 → 2 ^ k < 256
pow-lt k h = let small : 2 ^ k ≤ 2 ^ 7 = pow-le-pow_right (omega arith) h in omega arith

tag_shift_marker : (k q : ℕ) → k < 8 → tag_shift (q * 2 ^ (k + 1) + 2 ^ k) ≡ k
unfolding tag_shift
tag_shift_marker k q h = rw (trailing_zeros_marker 64 k q (omega arith)) (ground arith)

marked_eight : (v : ℕ) → marked 8 v ≡ 0
marked_eight v = omega arith

tag_shift-zero : tag_shift 0 ≡ 8
unfolding tag_shift
tag_shift-zero = refl

tag_shift-marked : (k v : ℕ) → k ≤ 8 → tag_shift (marked k v) ≡ k
tag_shift-marked k v h = elim (eq-or-lt_of_le h) [
  | inl e ↦ rw e (rw marked_eight tag_shift-zero)
  | inr lt ↦ rw (mod-eq_of_lt (pow-lt k (omega arith))) (tag_shift_marker k (v % 2 ^ (7 - k)) lt)
]

pub length-le_bytes : (k w : ℕ) → length (le_bytes k w) ≡ k
length-le_bytes zero w = refl
length-le_bytes (suc k) w = ap suc (length-le_bytes k (w / 256))

-- The value of the first byte's bits and of the bytes behind it.
join_parts : (k v : ℕ) → v % 2 ^ k + v / 2 ^ k * 2 ^ k ≡ v
join_parts k v = mod-add-div' v (2 ^ k)

tail_fits : (k v : ℕ) → Width k v → v / 2 ^ (7 - k) < 256 ^ k
tail_fits zero v w = omega arith
tail_fits (suc zero) v w = omega arith
tail_fits (suc (suc zero)) v w = omega arith
tail_fits (suc (suc (suc zero))) v w = omega arith
tail_fits (suc (suc (suc (suc zero)))) v w = omega arith
tail_fits (suc (suc (suc (suc (suc zero))))) v w = omega arith
tail_fits (suc (suc (suc (suc (suc (suc zero)))))) v w = omega arith
tail_fits (suc (suc (suc (suc (suc (suc (suc zero))))))) v w = omega arith
tail_fits (suc (suc (suc (suc (suc (suc (suc (suc zero)))))))) v w = omega arith
tail_fits (suc (suc (suc (suc (suc (suc (suc (suc (suc k))))))))) v w = absurd (omega arith)

first_bits : (k v : ℕ) → k ≤ 7 → marked k v / 2 ^ (k + 1) ≡ v % 2 ^ (7 - k)
first_bits k v h = rw (mod-eq_of_lt (pow-lt k h)) (
    mul-add-div_right (one-le-pow (k + 1) 2 (omega arith)) (v % 2 ^ (7 - k)) (2 ^ k)
    ∙ rw (div-eq_of_lt (below k)) (omega arith))
  where
    below : (k : ℕ) → 2 ^ k < 2 ^ (k + 1)
    below k = simp towards_suc (omega (arith, pow-suc 2 k, one-le-pow k 2))

decode_shift-encoding :
    (k v : ℕ) (r : BytesReader) (rest : List ℕ)
    → Width k v
    → At r (encoding k v ++ rest)
    → decode_shift k (marked k v) r ≡ (v, r)
unfolding decode_shift
decode_shift-encoding k v r rest w h = elim (Bool-cases (leb k 6)) [
  | inl small ↦
      rw (small, first_bits k v (ground arith))
        (peeks-le_bytes k 1 (7 - k) (v % 2 ^ (7 - k)) (v / 2 ^ (7 - k)) r rest
            (drop-suc r.offset r.bytes h) (mod-lt v (one-le-pow (7 - k) 2 (omega arith)))
            (tail_fits k v w) (rw join_parts w.3)
          ∙ ap (λ n. (n, r)) (join_parts (7 - k) v))
  | inr big ↦ rw big (wide (ground arith))
]
  where
    wide : 7 - k ≡ 0 → peeks k 1 0 0 r ≡ (v, r)
    wide e =
        peeks-le_bytes k 1 0 0 v r rest
          (drop-suc r.offset r.bytes h ∙ rw e (ap (λ n. le_bytes k n ++ rest) (omega arith)))
          (omega arith)
          (let f : v / 2 ^ (7 - k) < 256 ^ k = tail_fits k v w in omega (arith, rw e at f))
          (omega (arith, w.3))
        ∙ ap (λ n. (n, r)) (omega arith)

decode_u64-encoding :
    (k v : ℕ) (r : BytesReader) (rest : List ℕ)
    → Width k v
    → At r (encoding k v ++ rest)
    → decode_u64 r ≡ (v, record r { offset = r.offset + (k + 1) })
unfolding decode_u64
decode_u64-encoding k v r rest w h =
    let first : peek 0 r ≡ (marked k v, r) =
      peek_lem 0 r {t = le_bytes k (v / 2 ^ (7 - k)) ++ rest} (rw add-zero h) in
    rw (
      first,
      tag_shift-marked k v w.1,
      decode_shift-encoding k v r rest w h,
      advance_lem (k + 1) r (encoding k v) rest h
          (omega (arith, length-le_bytes k (v / 2 ^ (7 - k)))),
    )

-- A reader that stands before what `serialize_u64` wrote for a `u64` reads that number, keeps its
-- error flag, and then stands before whatever follows.
pub decode_u64-serialize_u64 :
    (v : ℕ) (r : BytesReader) (rest : List ℕ)
    → IsU64 v
    → At r (serialize_u64 v [] ++ rest)
    → ((decode_u64 r).0 ≡ v) × At (decode_u64 r).1 rest × ((decode_u64 r).1.ok ≡ r.ok)
decode_u64-serialize_u64 v r rest h at =
    let k : ℕ = extra_bytes v in
    let at' : At r (encoding k v ++ rest) = rw (serialize_u64-encoding v [] h) at at in
    rw (decode_u64-encoding k v r rest (Width-extra_bytes v h) at') (
      refl,
      At-advance (k + 1) r (encoding k v) rest at'
          (omega (arith, length-le_bytes k (v / 2 ^ (7 - k)))),
      refl,
    )
