-- ===== src/Subgraph/Mapping/Epochs/EmptySet.antt =====
-- Sets of block numbers without a block: what the encoder writes for them, the subgraph does not accept.
use block_oracle.Prelude.{
  ℕ, ◌+◌, ◌-◌, ◌/◌, ◌^◌, ◌<◌, ◌≡◌, ◌≢◌, refl, ◌∙◌, sym, false, List, [], ◌∷◌, Option, arith, length,
  ◌==◌, Bool-cases, inl, inr,
}
use block_oracle.Prelude.Outcome.{Outcome, ok}
use block_oracle.Prelude.Text.{Str}
use block_oracle.Encoding.Messages.{IsU64, CompressedMessage, empty}
use block_oracle.Encoding.Serialize.{
  serialize_messages, serialize_message, serialize_chunk, serialize_chunk_messages,
  serialize_preamble, serialize_set_block_numbers, serialize_u64, fold_tags, message_tag,
}
use block_oracle.Encoding.Varint.{
  extra_bytes, Width-extra_bytes, serialize_u64-encoding, serialize_u64-append,
}
use block_oracle.Subgraph.Decoding.{BytesReader, new_reader, remaining, advance}
use block_oracle.Subgraph.Decoding.RoundTrip.{length-le_bytes}
use block_oracle.Subgraph.Decoding.Progress.{Moves-remaining, Moves-not_ok, advance_short}
use block_oracle.Subgraph.Tags.{decode_tags_byte}
use block_oracle.Subgraph.Store.{StoreCache}
use block_oracle.Subgraph.Active.{Run, done, trapped, endless, get_active_networks, next_epoch_id}
use block_oracle.Subgraph.Mapping.Epochs.{
  enter_epoch, set_block_numbers, execute_set_block_numbers_for_epoch,
}
use block_oracle.Subgraph.Mapping.Progress.Epochs.{update_block_numbers-Moves, next_epoch_id-Moves}
use block_oracle.Subgraph.Mapping.Refused.{Fails, payload-Fails}
use block_oracle.Subgraph.Mapping.{Context, committed, process_payload}

-- Fewer than the 32 bytes of a root are not enough.
short-Fails :
    (response : Option ℕ) (c : StoreCache) (r : BytesReader)
    → remaining r < 32
    → Fails (execute_set_block_numbers_for_epoch response c r)
unfolding execute_set_block_numbers_for_epoch set_block_numbers
short-Fails response c r short = elim (Bool-cases (c.state.active_network_count == 0)) [
  | inl nothing ↦ rw (execute_set_block_numbers_for_epoch, nothing) refl
  | inr active ↦ rw (execute_set_block_numbers_for_epoch, active) (walked (get_active_networks c))
]
  where
    stopped : (l : List Str × StoreCache) → (set_block_numbers response l.0 l.1 r).1.ok ≡ false
    stopped l =
        let (e, r₁) = next_epoch_id response l.1.state.latest_valid_epoch r in
        Moves-not_ok (update_block_numbers-Moves e l.0 (enter_epoch e l.1) (advance 32 r₁).1) (
          advance_short 32 r₁ (
            omega (
              arith,
              Moves-remaining (next_epoch_id-Moves response l.1.state.latest_valid_epoch r),
            )))

    walked :
        (o : Run (List Str × StoreCache))
        → Fails (elim o [
          | trapped ↦ trapped
          | endless ↦ endless
          | done l ↦ done (set_block_numbers response l.0 l.1 r)
        ])
    walked trapped = tt
    walked endless = tt
    walked (done l) = stopped l

abbrev empty_set : ℕ → CompressedMessage
empty_set count = CompressedMessage.set_block_numbers_for_next_epoch (empty count)

empty_set_bytes :
    {E : Type 0} (count : ℕ) (bytes : List ℕ)
    → IsU64 count
    → serialize_messages {E = E} (empty_set count ∷ []) [] ≡ ok bytes
    → bytes ≡ 0 ∷ serialize_u64 count []
unfolding serialize_messages serialize_chunk serialize_chunk_messages serialize_preamble
    serialize_message serialize_set_block_numbers fold_tags message_tag
empty_set_bytes {E} count bytes h e =
    let out : ◌≡◌ {A = Outcome E (List ℕ)} (ok (serialize_u64 count (0 ∷ []))) (ok bytes) = e in
    let same : serialize_u64 count (0 ∷ []) ≡ bytes = cc in
    sym same ∙ serialize_u64-append count (0 ∷ []) h

length-serialize_u64 : (v : ℕ) → IsU64 v → length (serialize_u64 v []) ≡ extra_bytes v + 1
length-serialize_u64 v h =
    rw (serialize_u64-encoding v [] h)
      (omega (arith, length-le_bytes (extra_bytes v) (v / 2 ^ (7 - extra_bytes v))))

-- What the encoder writes for a batch of empty sets is never committed as a payload of its own: where
-- there are networks the subgraph expects a root, and where there are none it refuses the message.
pub empty_set_not_committed :
    {E : Type 0} (count : ℕ) (x : Context) (c c' : StoreCache) (bytes : List ℕ)
    → IsU64 count
    → serialize_messages {E = E} (empty_set count ∷ []) [] ≡ ok bytes
    → process_payload x bytes c ≢ committed c'
unfolding remaining
empty_set_not_committed count x c c' bytes h out =
    let start : BytesReader = new_reader (0 ∷ serialize_u64 count []) in
    let len = length-serialize_u64 count h in
    rw (empty_set_bytes count bytes h out) (
      payload-Fails x (0 ∷ serialize_u64 count []) (0 ∷ []) c c' (record start { offset = 1 })
        (omega arith)
        (decode_tags_byte 0 0 start (serialize_u64 count []) (omega arith) (omega arith) refl) refl
        (omega (arith, len))
        (short-Fails x.current_epoch c (record start { offset = 1 })
          (omega (arith, len, (Width-extra_bytes count h).1))))
