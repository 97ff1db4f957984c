-- ===== src/Encoding/Serialize.antt =====
-- crates/encoding/src/serialize.rs. `bytes` is the buffer that each function appends to.
-- `serialize_u64` writes a number in 1 to 9 bytes: the count of low zero bits of the first byte
-- says how many bytes follow it.
pub mod Totality
use block_oracle.Prelude.{
  ℕ, zero, suc, ◌+◌, ◌-◌, ◌*◌, ◌/◌, ◌%◌, ◌^◌, ◌≤◌, ◌<◌, bit_or, bit_xor, ◌≡◌, Bool, true, false,
  List, [], ◌∷◌, ◌++◌, arith, length, take, drop, ltb, leb, ◌==◌, if◌then◌else◌,
}
use block_oracle.Prelude.Int.{ℤ, pos, negsuc}
use block_oracle.Prelude.Outcome.{Outcome, ok, panic, ◌>>=◌, ◌>>◌, assert}
use block_oracle.Prelude.Order.{lt_wf}
use block_oracle.Prelude.Text.{Str}
use block_oracle.Encoding.Messages.{
  CompressedMessage, CompressedSetBlockNumbers, empty, non_empty, NetworkIndex,
}
use mathlib.Core.Logic.{dite}
use mathlib.Core.WellFounded.{Acc}
use native.Mathlib.Decide.{dec_lt}

abbrev pub preamble_bit_length : ℕ
preamble_bit_length = 8

abbrev pub tag_bit_length : ℕ
tag_bit_length = 4

abbrev pub preamble_capacity : ℕ
preamble_capacity = preamble_bit_length / tag_bit_length

-- The number of binary digits of `v`, for `v` below `2 ^ fuel`.
unfoldable pub bit_length : ℕ → ℕ → ℕ
bit_length zero v = 0
bit_length (suc fuel) v = let rest = bit_length fuel (v / 2) in if v == 0 then 0 else suc rest

-- `u64::leading_zeros`.
abbrev pub leading_zeros : ℕ → ℕ
leading_zeros v = 64 - bit_length 64 v

abbrev pub clamp : ℕ → ℕ → ℕ → ℕ
clamp x lo hi = if ltb x lo then lo else if ltb hi x then hi else x

unfoldable pub num_bytes : ℕ → ℕ
num_bytes value = (clamp (64 - leading_zeros value) 1 63 - 1) / 7 + 1

shift_shrinks : (v : ℕ) → 0 < v → v / 256 < v
shift_shrinks v h = omega arith

-- `while value > 0 { bytes.push(value as u8); value >>= 8; }`
unfoldable pub push_bytes : List ℕ → (value : ℕ) → Acc ◌<◌ value → List ℕ
unfolding shift_shrinks
push_bytes bytes value (Acc.intro _ smaller) =
    dite (dec_lt 0 value)
      (λ more.
        push_bytes (bytes ++ (value % 256 ∷ [])) (value / 256)
          (smaller _ (shift_shrinks value more)))
      (λ _. bytes)

-- `(value << num_bytes) as u8 | (1 << (num_bytes - 1)) as u8`
unfoldable pub first_byte : ℕ → ℕ → ℕ
first_byte value n = bit_or (value * 2 ^ n % 2 ^ 64 % 256) (2 ^ (n - 1) % 256)

unfoldable pub serialize_u64 : ℕ → List ℕ → List ℕ
unfolding lt_wf
serialize_u64 value bytes =
    let n = num_bytes value in
    let rest = value / 2 ^ (8 - n) in
    push_bytes (bytes ++ (first_byte value n ∷ [])) rest (lt_wf.apply rest)

-- The bit pattern of an `i64`, read as a `u64`.
abbrev pub to_bits : ℤ → ℕ
to_bits (pos n) = n
to_bits (negsuc n) = 2 ^ 64 - 1 - n

-- `value >> 63` of an `i64` copies the sign into every bit.
abbrev pub sign_bits : ℤ → ℕ
sign_bits (pos n) = 0
sign_bits (negsuc n) = 2 ^ 64 - 1

-- `(value << 1) ^ (value >> 63)`
unfoldable pub zigzag : ℤ → ℕ
zigzag value = bit_xor (to_bits value * 2 % 2 ^ 64) (sign_bits value)

unfoldable pub serialize_i64 : ℤ → List ℕ → List ℕ
serialize_i64 value bytes = serialize_u64 (zigzag value) bytes

unfoldable pub serialize_str : Str → List ℕ → List ℕ
serialize_str value bytes = serialize_u64 (length value) bytes ++ value

unfoldable pub serialize_u64s : List ℕ → List ℕ → List ℕ
serialize_u64s [] bytes = bytes
serialize_u64s (x ∷ xs) bytes = serialize_u64s xs (serialize_u64 x bytes)

unfoldable pub serialize_i64s : List ℤ → List ℕ → List ℕ
serialize_i64s [] bytes = bytes
serialize_i64s (x ∷ xs) bytes = serialize_i64s xs (serialize_i64 x bytes)

unfoldable pub serialize_strs : List Str → List ℕ → List ℕ
serialize_strs [] bytes = bytes
serialize_strs (s ∷ ss) bytes = serialize_strs ss (serialize_str s bytes)

unfoldable pub serialize_str_pairs : List (Str × Str) → List ℕ → List ℕ
serialize_str_pairs [] bytes = bytes
serialize_str_pairs ((s, t) ∷ ss) bytes =
    serialize_str_pairs ss (serialize_str t (serialize_str s bytes))

unfoldable pub serialize_set_block_numbers : CompressedSetBlockNumbers → List ℕ → List ℕ
serialize_set_block_numbers (empty count) bytes = serialize_u64 count bytes
serialize_set_block_numbers (non_empty accelerations root) bytes =
    serialize_i64s accelerations (bytes ++ root)

unfoldable pub serialize_register_networks : List Str → List NetworkIndex → List ℕ → List ℕ
serialize_register_networks add remove bytes =
    let bytes = serialize_u64s remove (serialize_u64 (length remove) bytes) in
    serialize_strs add (serialize_u64 (length add) bytes)

unfoldable pub serialize_register_networks_and_aliases :
    List (Str × Str) → List NetworkIndex → List ℕ → List ℕ
serialize_register_networks_and_aliases add remove bytes =
    let bytes = serialize_u64s remove (serialize_u64 (length remove) bytes) in
    serialize_str_pairs add (serialize_u64 (length add) bytes)

unfoldable pub serialize_change_permissions : List ℕ → ℕ → List ℕ → List ℕ → List ℕ
serialize_change_permissions address valid_through permissions bytes =
    let bytes = serialize_u64 valid_through (bytes ++ address) in
    serialize_u64s permissions (serialize_u64 (length permissions) bytes)

unfoldable pub serialize_message : {E : Type 0} → CompressedMessage → List ℕ → Outcome E (List ℕ)
serialize_message (CompressedMessage.set_block_numbers_for_next_epoch numbers) bytes =
    ok (serialize_set_block_numbers numbers bytes)
serialize_message (CompressedMessage.register_networks remove add) bytes =
    ok (serialize_register_networks add remove bytes)
serialize_message (CompressedMessage.update_version version) bytes =
    ok (serialize_u64 version bytes)
serialize_message CompressedMessage.reset bytes = ok (serialize_u64 0 bytes)
serialize_message (CompressedMessage.correct_epochs data_by_network_id) bytes = panic
serialize_message (CompressedMessage.register_networks_and_aliases remove add) bytes =
    ok (serialize_register_networks_and_aliases add remove bytes)
serialize_message (CompressedMessage.change_permissions address valid_through permissions) bytes =
    ok (serialize_change_permissions address valid_through permissions bytes)

unfoldable pub message_tag : CompressedMessage → ℕ
message_tag (CompressedMessage.set_block_numbers_for_next_epoch _) = 0
message_tag (CompressedMessage.correct_epochs _) = 1
message_tag (CompressedMessage.update_version _) = 2
message_tag (CompressedMessage.register_networks _ _) = 3
message_tag (CompressedMessage.change_permissions _ _ _) = 4
message_tag CompressedMessage.reset = 5
message_tag (CompressedMessage.register_networks_and_aliases _ _) = 6

-- `preamble |= message_tag(msg) << (TAG_BIT_LENGTH * i)`, for the messages from index `i` on.
unfoldable pub fold_tags : List CompressedMessage → ℕ → ℕ → ℕ
fold_tags [] i preamble = preamble
fold_tags (m ∷ ms) i preamble =
    fold_tags ms (i + 1) (bit_or preamble (message_tag m * 2 ^ (tag_bit_length * i) % 256))

unfoldable pub serialize_preamble :
    {E : Type 0} → List CompressedMessage → List ℕ → Outcome E (List ℕ)
unfolding fold_tags
serialize_preamble messages bytes = do
  assert (leb (length messages) preamble_capacity)
  ok (bytes ++ (fold_tags messages 0 0 ∷ []))

unfoldable pub serialize_chunk_messages :
    {E : Type 0} → List CompressedMessage → List ℕ → Outcome E (List ℕ)
serialize_chunk_messages [] bytes = ok bytes
serialize_chunk_messages (m ∷ ms) bytes = do
  bytes' ← serialize_message m bytes
  serialize_chunk_messages ms bytes'

unfoldable pub serialize_chunk : {E : Type 0} → List CompressedMessage → List ℕ → Outcome E (List ℕ)
serialize_chunk chunk bytes = do
  bytes' ← serialize_preamble chunk bytes
  serialize_chunk_messages chunk bytes'

-- `messages.chunks(PREAMBLE_CAPACITY)`: two messages at a time, and one at the end if it is left.
unfoldable pub serialize_messages :
    {E : Type 0} → List CompressedMessage → List ℕ → Outcome E (List ℕ)
serialize_messages [] bytes = ok bytes
serialize_messages (m ∷ []) bytes = serialize_chunk (m ∷ []) bytes
serialize_messages (m ∷ n ∷ ms) bytes = do
  bytes' ← serialize_chunk (m ∷ n ∷ []) bytes
  serialize_messages ms bytes'
