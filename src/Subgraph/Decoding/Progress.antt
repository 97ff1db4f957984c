-- ===== src/Subgraph/Decoding/Progress.antt =====
-- A reader never goes back, keeps its bytes, and stays failed once it has failed.
use native.Mathlib.Nat.{le_trans}
use block_oracle.Prelude.{
  ℕ, zero, suc, ◌+◌, ◌≤◌, ◌<◌, ◌≡◌, refl, ◌∙◌, true, false, arith, ltb, lt→ltb, leb, Bool-cases,
  inl, inr,
}
use block_oracle.Subgraph.Decoding.{
  BytesReader, remaining, advance, peek, peeks, decode_shift, decode_u64, decode_i64, decode_string,
}

pub record Moves (r r' : BytesReader) : Type 0 where
  pub bytes : r'.bytes ≡ r.bytes
  pub offset : r.offset ≤ r'.offset
  pub ok : r'.ok ≡ true → r.ok ≡ true

pub Moves-refl : (r : BytesReader) → Moves r r
Moves-refl r = record { bytes = refl; offset = omega arith; ok = λ h. h }

pub Moves-trans : {r s t : BytesReader} → Moves r s → Moves s t → Moves r t
Moves-trans m n = record {
  bytes = n.bytes ∙ m.bytes;
  offset = le_trans m.offset n.offset;
  ok = λ h. m.ok (n.ok h);
}

pub Moves-failed : (r : BytesReader) → Moves r (record r { ok = false })
Moves-failed r = record { bytes = refl; offset = omega arith; ok = λ h. cc }

pub Moves-not_ok : {r r' : BytesReader} → Moves r r' → r.ok ≡ false → r'.ok ≡ false
Moves-not_ok {r = r} {r' = r'} m failed = elim (Bool-cases r'.ok) [
  | inl fine ↦ let fine' : r.ok ≡ true = m.ok fine in cc
  | inr failed' ↦ failed'
]

pub advance_short : (n : ℕ) (r : BytesReader) → remaining r < n → (advance n r).1.ok ≡ false
unfolding advance
advance_short n r h = rw (lt→ltb (remaining r) n h)

-- What is left does not grow.
pub Moves-remaining : {r r' : BytesReader} → Moves r r' → remaining r' ≤ remaining r
unfolding remaining
Moves-remaining {r = r} {r' = r'} m = rw (m.bytes) (omega (arith, m.offset))

pub advance-Moves : (n : ℕ) (r : BytesReader) → Moves r (advance n r).1
unfolding advance
advance-Moves n r = elim (Bool-cases (ltb (remaining r) n)) [
  | inl short ↦ rw short (Moves-failed r)
  | inr long ↦ rw long (record { bytes = refl; offset = omega arith; ok = λ h. h })
]

peek-Moves : (i : ℕ) (r : BytesReader) → Moves r (peek i r).1
unfolding peek
peek-Moves i r = elim (Bool-cases (leb (remaining r) i)) [
  | inl short ↦ rw short (Moves-failed r)
  | inr long ↦ rw long (Moves-refl r)
]

peeks-Moves : (count i shift acc : ℕ) (r : BytesReader) → Moves r (peeks count i shift acc r).1
unfolding peeks
peeks-Moves zero i shift acc r = Moves-refl r
peeks-Moves (suc count) i shift acc r =
    Moves-trans (peek-Moves i r) (peeks-Moves count (i + 1) (shift + 8) _ (peek i r).1)

decode_shift-Moves : (shift first : ℕ) (r : BytesReader) → Moves r (decode_shift shift first r).1
unfolding decode_shift
decode_shift-Moves shift first r = elim (Bool-cases (leb shift 6)) [
  | inl small ↦ rw small (peeks-Moves shift 1 _ _ r)
  | inr big ↦ rw big (peeks-Moves shift 1 0 0 r)
]

pub decode_u64-Moves : (r : BytesReader) → Moves r (decode_u64 r).1
unfolding decode_u64
decode_u64-Moves r =
    Moves-trans (peek-Moves 0 r)
      (Moves-trans (decode_shift-Moves _ _ (peek 0 r).1) (advance-Moves _ _))

pub decode_i64-Moves : (r : BytesReader) → Moves r (decode_i64 r).1
unfolding decode_i64
decode_i64-Moves r = decode_u64-Moves r

pub decode_string-Moves : (r : BytesReader) → Moves r (decode_string r).1
unfolding decode_string
decode_string-Moves r = elim (Bool-cases (decode_u64 r).1.ok) [
  | inl fine ↦ rw fine (Moves-trans (decode_u64-Moves r) (advance-Moves _ _))
  | inr failed ↦ rw failed (decode_u64-Moves r)
]
