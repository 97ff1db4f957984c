-- ===== src/Subgraph/Decoding/Peeks.antt =====
-- What `peek`, a run of peeks and `advance` give at a known place of the input.
use native.Mathlib.Nat.{pow-suc, mul-le-mul_right, add_assoc, div-add-mod}
use native.Mathlib.Numerals.{towards_suc}
use block_oracle.Prelude.{
  ℕ, zero, suc, ◌+◌, ◌*◌, ◌/◌, ◌%◌, ◌^◌, ◌≤◌, ◌<◌, ◌≡◌, ap, ◌∙◌, List, ◌∷◌, ◌++◌, arith, length,
  length-append, drop, take-append, drop-append,
}
use block_oracle.Prelude.Bits.{bit_or_above}
use block_oracle.Prelude.Drops.{length-drop, drop-drop, get_elem?-drop, lt-length_of_drop, drop-suc}
use block_oracle.Encoding.Varint.{le_bytes}
use block_oracle.Subgraph.Decoding.{BytesReader, remaining, advance, peek, peeks}

-- What the reader has in front of it.
abbrev pub At : BytesReader → List ℕ → Type 0
At r xs = drop r.offset r.bytes ≡ xs

pub peek_lem :
    (i : ℕ) (r : BytesReader) {b : ℕ} {t : List ℕ}
    → drop (r.offset + i) r.bytes ≡ b ∷ t
    → peek i r ≡ (b, r)
unfolding peek
peek_lem i r h =
    ground
      (arith, get_elem?-drop (r.offset + i) r.bytes h, lt-length_of_drop (r.offset + i) r.bytes h)

pub advance_lem :
    (n : ℕ) (r : BytesReader) (xs rest : List ℕ)
    → At r (xs ++ rest)
    → length xs ≡ n
    → advance n r ≡ (xs, record r { offset = r.offset + n })
unfolding advance remaining
advance_lem n r xs rest h e =
    rw (h, ← e, take-append)
      (ground (arith, length-drop r.offset r.bytes, ap length h, length-append xs rest))

-- Moving over what was read leaves the rest in front.
pub At-advance :
    (n : ℕ) (r : BytesReader) (xs rest : List ℕ)
    → At r (xs ++ rest)
    → length xs ≡ n
    → At (record r { offset = r.offset + n }) rest
At-advance n r xs rest h e =
    drop-drop n r.offset r.bytes ∙ ap (drop n) h ∙ rw (← e) (drop-append xs rest)

shift_eight : (s : ℕ) → 2 ^ (s + 8) ≡ 256 * 2 ^ s
shift_eight s = simp towards_suc (omega arith)

-- `w` is split at its lowest byte, both parts shifted by `s`.
split_byte : (w s : ℕ) → w * 2 ^ s ≡ w % 256 * 2 ^ s + w / 256 * 2 ^ (s + 8)
split_byte w s = omega (
  arith,
  ap (λ (t : ℕ). t * 2 ^ s) (div-add-mod w 256),
  ap (λ (t : ℕ). w / 256 * t) (shift_eight s),
)

add-byte-lt : (acc b s : ℕ) → acc < 2 ^ s → b < 256 → acc + b * 2 ^ s < 2 ^ (s + 8)
add-byte-lt acc b s lo hb =
    let top : b ≤ 255 = omega arith in omega (arith, shift_eight s, mul-le-mul_right (2 ^ s) top)

pub peeks-le_bytes :
    (k i s acc w : ℕ) (r : BytesReader) (rest : List ℕ)
    → drop (r.offset + i) r.bytes ≡ le_bytes k w ++ rest
    → acc < 2 ^ s
    → w < 256 ^ k
    → acc + w * 2 ^ s < 2 ^ 64
    → peeks k i s acc r ≡ (acc + w * 2 ^ s, r)
unfolding peeks
peeks-le_bytes zero i s acc w r rest h lo fits whole = ground arith
peeks-le_bytes (suc k) i s acc w r rest h lo fits whole = rw (peek_lem i r h) (
    rw (low_part, bit_or_above s acc (w % 256) lo)
      (peeks-le_bytes k (i + 1) (s + 8) (acc + w % 256 * 2 ^ s) (w / 256) r rest
          (rw (← add_assoc r.offset i 1) (drop-suc (r.offset + i) r.bytes h))
          (add-byte-lt acc (w % 256) s lo (omega arith)) (omega (arith, pow-suc 256 k))
          (omega (arith, split_byte w s))
        ∙ ap (λ n. (n, r)) (omega (arith, split_byte w s))))
  where
    low_part : w % 256 * 2 ^ s % 2 ^ 64 ≡ w % 256 * 2 ^ s
    low_part = omega (arith, split_byte w s)
