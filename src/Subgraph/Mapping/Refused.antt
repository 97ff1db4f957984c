-- ===== src/Subgraph/Mapping/Refused.antt =====
-- Payloads that packages/subgraph/src/mapping.ts does not commit: those whose first message sets block
-- numbers and fails.
use block_oracle.Prelude.{
  ℕ, zero, suc, ◌+◌, ◌<◌, ◌≡◌, ◌≢◌, refl, Bool, true, false, ◌&&◌, List, [], ◌∷◌, arith, length,
  ltb, lt→ltb, Bool-cases, inl, inr, if◌then◌else◌,
}
use block_oracle.Subgraph.Decoding.{BytesReader, new_reader, remaining}
use block_oracle.Subgraph.Decoding.Progress.{Moves-not_ok}
use block_oracle.Subgraph.Tags.{decode_tags}
use block_oracle.Subgraph.Store.{StoreCache}
use block_oracle.Subgraph.Active.{Run, done, trapped, endless, fail}
use block_oracle.Subgraph.Mapping.Epochs.{execute_set_block_numbers_for_epoch}
use block_oracle.Subgraph.Mapping.Permissions.{
  is_submitter_allowed, does_submitter_have_permission, tag_name,
}
use block_oracle.Subgraph.Mapping.Progress.{MovesTo}
use block_oracle.Subgraph.Mapping.Progress.Epochs.{set_block_numbers-MovesTo}
use block_oracle.Subgraph.Mapping.{
  Context, committed, permit, process_message, process_messages, process_message_block,
  process_message_blocks, process_payload,
}

-- The reader is left failed, where the handler ends and does not trap.
abbrev pub Fails : Run (StoreCache × BytesReader) → Type 0
Fails trapped = Unit
Fails endless = Unit
Fails (done after) = after.1.ok ≡ false

failed-Fails :
    (r : BytesReader) (o : Run (StoreCache × BytesReader)) → r.ok ≡ false → MovesTo r o → Fails o
failed-Fails r trapped failed m = tt
failed-Fails r endless failed m = tt
failed-Fails r (done after) failed m = Moves-not_ok m failed

-- With or without the permission.
permit-Fails :
    (x : Context) (c : StoreCache) (r : BytesReader)
    → Fails (execute_set_block_numbers_for_epoch x.current_epoch c r)
    → Fails (execute_set_block_numbers_for_epoch x.current_epoch c (permit x 0 c r))
unfolding permit
permit-Fails x c r h =
    elim (Bool-cases (does_submitter_have_permission c x.submitter (tag_name 0))) [
      | inl may ↦ rw (permit, may) h
      | inr not_may ↦
          rw (permit, not_may)
            (failed-Fails (fail r) (execute_set_block_numbers_for_epoch x.current_epoch c (fail r))
              refl (set_block_numbers-MovesTo x.current_epoch c (fail r)))
    ]

failed_stops :
    (x : Context) (block i : ℕ) (tags : List ℕ) (after : StoreCache × BytesReader)
    → after.1.ok ≡ false
    → Fails (process_messages x block i tags after.0 after.1)
unfolding process_messages
failed_stops x block i [] after failed = failed
failed_stops x block i (tag ∷ tags) after failed = rw (process_messages, failed) failed

messages-Fails :
    (x : Context) (block i : ℕ) (tags : List ℕ) (c : StoreCache) (r : BytesReader)
    → (r.ok && ltb 0 (remaining r)) ≡ true
    → Fails (execute_set_block_numbers_for_epoch x.current_epoch c r)
    → Fails (process_messages x block i (0 ∷ tags) c r)
unfolding process_messages process_message
messages-Fails x block i tags c r more h =
    go (execute_set_block_numbers_for_epoch x.current_epoch c (permit x 0 c r)) refl
      (permit-Fails x c r h)
  where
    go :
        (o : Run (StoreCache × BytesReader))
        → execute_set_block_numbers_for_epoch x.current_epoch c (permit x 0 c r) ≡ o
        → Fails o
        → Fails (process_messages x block i (0 ∷ tags) c r)
    go trapped e f = rw (process_messages, more, e) tt
    go endless e f = rw (process_messages, more, e) tt
    go (done after) e f = rw (process_messages, more, e) (failed_stops x block (i + 1) tags after f)

blocks-Fails :
    (fuel : ℕ) (x : Context) (i : ℕ) (c c' : StoreCache) (r : BytesReader)
    → 0 < remaining r
    → Fails (process_message_block x i c r)
    → process_message_blocks fuel x i c r ≢ committed c'
unfolding process_message_blocks
blocks-Fails zero x i c c' r more h =
    rw (process_message_blocks, lt→ltb 0 (remaining r) more) (λ p. cc)
blocks-Fails (suc fuel) x i c c' r more h = go (process_message_block x i c r) refl h
  where
    go :
        (o : Run (StoreCache × BytesReader))
        → process_message_block x i c r ≡ o
        → Fails o
        → process_message_blocks (suc fuel) x i c r ≢ committed c'
    go trapped e f = rw (process_message_blocks, lt→ltb 0 (remaining r) more, e) (λ p. cc)
    go endless e f = rw (process_message_blocks, lt→ltb 0 (remaining r) more, e) (λ p. cc)
    go (done after) e f = rw (process_message_blocks, lt→ltb 0 (remaining r) more, e, f) (λ p. cc)

when_true :
    (test : Bool) (p q : Run (StoreCache × BytesReader))
    → test ≡ true
    → Fails p
    → Fails (if test then p else q)
when_true true p q h f = f
when_true false p q h f = cc

both : (b : Bool) (n : ℕ) → b ≡ true → 0 < n → (b && ltb 0 n) ≡ true
both b n fine more = rw (fine, lt→ltb 0 n more)

-- A payload of a block whose first message sets block numbers and fails is not committed.
pub payload-Fails :
    (x : Context) (payload_bytes tags : List ℕ) (c c' : StoreCache) (r : BytesReader)
    → 0 < length payload_bytes
    → decode_tags (new_reader payload_bytes) ≡ (0 ∷ tags, r)
    → r.ok ≡ true
    → 0 < remaining r
    → Fails (execute_set_block_numbers_for_epoch x.current_epoch c r)
    → process_payload x payload_bytes c ≢ committed c'
unfolding process_payload process_message_block remaining
payload-Fails x payload_bytes tags c c' r nonempty e fine more h =
    elim (Bool-cases (is_submitter_allowed c x.submitter x.block_number)) [
      | inl allowed ↦
          rw (process_payload, allowed)
            (blocks-Fails (length payload_bytes) x 0 c c' (new_reader payload_bytes) (omega arith) (
              rw (process_message_block, e)
                (when_true r.ok (process_messages x 0 0 (0 ∷ tags) c r) (done (c, r)) fine
                  (messages-Fails x 0 0 tags c r (both r.ok (remaining r) fine more) h))))
      | inr refused ↦ rw (process_payload, refused) (λ p. cc)
    ]
