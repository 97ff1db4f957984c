-- ===== src/Subgraph/Tags.antt =====
-- The preamble as packages/subgraph/src/decoding.ts and the tags as helpers.ts read them, against
-- `serialize_preamble`.
use block_oracle.Prelude.{
  ℕ, zero, suc, ◌+◌, ◌*◌, ◌/◌, ◌%◌, ◌^◌, ◌<◌, bit_and, ◌≡◌, refl, ap, Bool, false, List, [], ◌∷◌,
  ◌++◌, append_assoc, arith, length, drop-append, ltb, if◌then◌else◌,
}
use block_oracle.Prelude.Bits.{bit_or_above, zero-bit_or, low_nibble}
use block_oracle.Prelude.Outcome.{ok}
use block_oracle.Encoding.Messages.{CompressedMessage}
use block_oracle.Encoding.Serialize.{serialize_preamble, fold_tags, message_tag}
use block_oracle.Subgraph.Decoding.{BytesReader, advance}
use block_oracle.Subgraph.Decoding.Peeks.{At, At-advance, advance_lem}

-- `tags.length > tag`
unfoldable pub is_valid : ℕ → Bool
is_valid tag = ltb tag 7

-- `BigInt.fromUnsignedBytes`: the lowest byte comes first.
unfoldable pub from_unsigned_bytes : List ℕ → ℕ
from_unsigned_bytes [] = 0
from_unsigned_bytes (b ∷ bs) = b + 256 * from_unsigned_bytes bs

unfoldable pub get_tag : List ℕ → ℕ → ℕ
unfolding from_unsigned_bytes
get_tag bytes i = bit_and (from_unsigned_bytes bytes / 2 ^ (4 * i)) 15

-- The loop over the tags of the preamble, `count` of them from `i` on.
unfoldable pub collect_tags : ℕ → ℕ → List ℕ → BytesReader → List ℕ × BytesReader
unfolding is_valid get_tag
collect_tags zero i bytes r = ([], r)
collect_tags (suc count) i bytes r =
    let tag = get_tag bytes i in
    let r' : BytesReader = if is_valid tag then r else record r { ok = false } in
    let (tags, r'') = collect_tags count (i + 1) bytes r' in
    (if is_valid tag then tag ∷ tags else tags, r'')

unfoldable pub decode_tags : BytesReader → List ℕ × BytesReader
unfolding collect_tags
decode_tags r = let (bytes, r') = advance 1 r in collect_tags 2 0 bytes r'

message_tag-lt : (m : CompressedMessage) → message_tag m < 7
unfolding message_tag
message_tag-lt (CompressedMessage.set_block_numbers_for_next_epoch n) = omega arith
message_tag-lt (CompressedMessage.correct_epochs d) = omega arith
message_tag-lt (CompressedMessage.register_networks r a) = omega arith
message_tag-lt (CompressedMessage.update_version v) = omega arith
message_tag-lt CompressedMessage.reset = omega arith
message_tag-lt (CompressedMessage.register_networks_and_aliases r a) = omega arith
message_tag-lt (CompressedMessage.change_permissions a v p) = omega arith

-- Two tags in a byte.
collect_two :
    (s t : ℕ) (r : BytesReader)
    → s < 7
    → t < 7
    → collect_tags 2 0 ((s + t * 16) ∷ []) r ≡ (s ∷ t ∷ [], r)
unfolding collect_tags
collect_two s t r hs ht =
    ground
      (arith, low_nibble (s + t * 16) (omega arith), low_nibble ((s + t * 16) / 16) (omega arith))

fold_tags_two :
    (m n : CompressedMessage) → fold_tags (m ∷ n ∷ []) 0 0 ≡ message_tag m + message_tag n * 16
unfolding fold_tags
fold_tags_two m n = rw (zero-bit_or (message_tag m * 2 ^ (4 * 0) % 256)) (
    rw (low m, high n)
      (bit_or_above 4 (message_tag m) (message_tag n) (omega (arith, message_tag-lt m))))
  where
    low : (m : CompressedMessage) → message_tag m * 2 ^ (4 * 0) % 256 ≡ message_tag m
    low m = omega (arith, message_tag-lt m)

    high : (n : CompressedMessage) → message_tag n * 2 ^ (4 * (0 + 1)) % 256 ≡ message_tag n * 2 ^ 4
    high n = omega (arith, message_tag-lt n)

fold_tags_one : (m : CompressedMessage) → fold_tags (m ∷ []) 0 0 ≡ message_tag m + 0 * 16
unfolding fold_tags
fold_tags_one m =
    rw (zero-bit_or (message_tag m * 2 ^ (4 * 0) % 256)) (omega (arith, message_tag-lt m))

pub decode_tags_byte :
    (s t : ℕ) (r : BytesReader) (rest : List ℕ)
    → s < 7
    → t < 7
    → At r ((s + t * 16) ∷ rest)
    → decode_tags r ≡ (s ∷ t ∷ [], record r { offset = r.offset + 1 })
unfolding decode_tags
decode_tags_byte s t r rest hs ht h =
    rw (advance_lem 1 r ((s + t * 16) ∷ []) rest h refl) (collect_two s t _ hs ht)

-- The preamble of two messages is always written, and a reader that stands before it gets the tags
-- of the two in order, keeps its error flag, and then stands before what follows.
pub decode_tags-serialize_preamble :
    {E : Type 0} (m n : CompressedMessage) (before rest : List ℕ)
    → (bytes : List ℕ) × (serialize_preamble {E = E} (m ∷ n ∷ []) before ≡ ok bytes)
      × ((r : BytesReader)
          → r.bytes ≡ bytes ++ rest
          → r.offset ≡ length before
          → ((decode_tags r).0 ≡ message_tag m ∷ message_tag n ∷ [])
            × At (decode_tags r).1 rest
            × ((decode_tags r).1.ok ≡ r.ok))
unfolding serialize_preamble
decode_tags-serialize_preamble m n before rest = (
  before ++ (tags ∷ []),
  rw (fold_tags_two m n),
  λ r e o. (
    ap (λ p. p.0) (read r (front r e o)),
    rw (read r (front r e o)) (At-advance 1 r (tags ∷ []) rest (front r e o) refl),
    ap (λ p. p.1.ok) (read r (front r e o)),
  ),
)
  where
    tags : ℕ
    tags = message_tag m + message_tag n * 16

    front :
        (r : BytesReader)
        → r.bytes ≡ (before ++ (tags ∷ [])) ++ rest
        → r.offset ≡ length before
        → At r (tags ∷ rest)
    front r e o = rw (e, o, append_assoc before (tags ∷ []) rest) (drop-append before (tags ∷ rest))

    read :
        (r : BytesReader)
        → At r (tags ∷ rest)
        → decode_tags r ≡ (message_tag m ∷ message_tag n ∷ [], record r { offset = r.offset + 1 })
    read r h =
        decode_tags_byte (message_tag m) (message_tag n) r rest (message_tag-lt m)
          (message_tag-lt n) h
