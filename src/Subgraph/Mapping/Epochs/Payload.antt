-- ===== src/Subgraph/Mapping/Epochs/Payload.antt =====
-- A payload of one set of block numbers, as `processPayload` of packages/subgraph/src/mapping.ts
-- processes it.
use block_oracle.Prelude.{
  ℕ, zero, suc, ◌+◌, ◌<◌, ◌≡◌, ◌≢◌, refl, ap, ◌∙◌, sym, Bool, true, false, ◌&&◌, List, [], ◌∷◌,
  some, arith, All, length, length-append, ltb, lt→ltb, append-nil,
}
use block_oracle.Prelude.Drops.{length-drop}
use block_oracle.Prelude.Int.{ℤ, IsI64}
use block_oracle.Prelude.Outcome.{Outcome, ok}
use block_oracle.Prelude.Text.{Str}
use block_oracle.Encoding.Messages.{BlockPtr, CompressedMessage}
use block_oracle.Encoding.Serialize.{
  serialize_messages, serialize_message, serialize_chunk, serialize_chunk_messages,
  serialize_preamble, serialize_set_block_numbers, serialize_i64s, fold_tags, message_tag,
}
use block_oracle.Encoding.Encoder.{Network, Networks}
use block_oracle.Encoding.Encoder.Alignment.{IsDistinct}
use block_oracle.Encoding.Encoder.Blocks.{moved_networks, accelerations_of}
use block_oracle.Subgraph.Decoding.{BytesReader, new_reader, remaining}
use block_oracle.Subgraph.Decoding.Peeks.{At}
use block_oracle.Subgraph.Decoding.Sequences.{serialize_i64s-append}
use block_oracle.Subgraph.Tags.{decode_tags_byte}
use block_oracle.Subgraph.Store.{StoreCache}
use block_oracle.Subgraph.Active.{done}
use block_oracle.Subgraph.Linked.{Represents}
use block_oracle.Subgraph.Mapping.Epochs.{execute_set_block_numbers_for_epoch}
use block_oracle.Subgraph.Mapping.Epochs.Agreement.{Readable, AllFit, AllFit-IsI64, Readable-AllFit}
use block_oracle.Subgraph.Mapping.Epochs.Accepted.{written, execute_set_block_numbers-IsAccepted}
use block_oracle.Subgraph.Mapping.Permissions.{
  is_submitter_allowed, does_submitter_have_permission, tag_name,
}
use block_oracle.Subgraph.Mapping.{
  Context, committed, permit, process_message, process_messages, process_message_block,
  process_message_blocks, process_payload,
}

pub At-end : (r : BytesReader) → At r [] → remaining r ≡ 0
unfolding remaining
At-end r h = omega (arith, length-drop r.offset r.bytes, ap length h)

pub both : (b : Bool) (n : ℕ) → b ≡ true → 0 < n → (b && ltb 0 n) ≡ true
both b n fine more = rw (fine, lt→ltb 0 n more)

no_more : (b : Bool) (n : ℕ) → n ≡ 0 → (b && ltb 0 n) ≡ false
no_more true n end = rw end
no_more false n end = refl

permitted :
    (x : Context) (tag : ℕ) (c : StoreCache) (r : BytesReader)
    → does_submitter_have_permission c x.submitter (tag_name tag) ≡ true
    → permit x tag c r ≡ r
unfolding permit
permitted x tag c r may = rw (permit, may)

-- The message of the set is the last one of its block: nothing is left for the second tag.
last_message :
    (x : Context) (block i : ℕ) (c : StoreCache) (r : BytesReader)
    (after : StoreCache × BytesReader)
    → r.ok ≡ true
    → 0 < remaining r
    → does_submitter_have_permission c x.submitter (tag_name 0) ≡ true
    → execute_set_block_numbers_for_epoch x.current_epoch c r ≡ done after
    → remaining after.1 ≡ 0
    → process_messages x block i (0 ∷ 0 ∷ []) c r ≡ done after
unfolding process_messages process_message
last_message x block i c r after fine more may e end = rw (
  process_messages,
  both r.ok (remaining r) fine more,
  permitted x 0 c r may,
  e,
  no_more after.1.ok (remaining after.1) end,
)

one_block :
    (fuel : ℕ) (x : Context) (i : ℕ) (c : StoreCache) (r : BytesReader)
    (after : StoreCache × BytesReader)
    → 0 < remaining r
    → process_message_block x i c r ≡ done after
    → after.1.ok ≡ true
    → remaining after.1 ≡ 0
    → process_message_blocks (suc fuel) x i c r ≡ committed after.0
unfolding process_message_blocks
one_block fuel x i c r after more e fine end =
    rw (process_message_blocks, lt→ltb 0 (remaining r) more, e, fine)
      (nothing_left fuel x (i + 1) after.0 after.1 end)
  where
    nothing_left :
        (fuel : ℕ) (x : Context) (i : ℕ) (c : StoreCache) (r : BytesReader)
        → remaining r ≡ 0
        → process_message_blocks fuel x i c r ≡ committed c
    nothing_left zero x i c r h = rw (process_message_blocks, h)
    nothing_left (suc fuel) x i c r h = rw (process_message_blocks, h)

module _ (ptr : Str × Network → BlockPtr) (ns : Networks) (root : List ℕ) where
  abbrev pub message : CompressedMessage
  message = CompressedMessage.set_block_numbers_for_next_epoch (written ptr ns root)

  -- What is written for the set alone: the preamble and the message.
  abbrev pub body : List ℕ
  body = serialize_set_block_numbers (written ptr ns root) []

  pub payload_bytes :
      {E : Type 0} (bytes : List ℕ)
      → AllFit ptr ns
      → serialize_messages {E = E} (message ∷ []) [] ≡ ok bytes
      → bytes ≡ 0 ∷ body
  unfolding serialize_messages serialize_chunk serialize_chunk_messages serialize_preamble
      serialize_message serialize_set_block_numbers fold_tags message_tag
  payload_bytes {E} bytes h e =
      let accs : List ℤ = accelerations_of ptr ns in
      let fits : All IsI64 accs = AllFit-IsI64 ptr ns h in
      let out : ◌≡◌ {A = Outcome E (List ℕ)} (ok (serialize_i64s accs (0 ∷ root))) (ok bytes) = e in
      let same : serialize_i64s accs (0 ∷ root) ≡ bytes = cc in
      sym same
      ∙ serialize_i64s-append accs (0 ∷ root) fits
      ∙ ap (λ t. 0 ∷ t) (sym (serialize_i64s-append accs root fits))

  pub body_left :
      AllFit ptr ns
      → length root ≡ 32
      → 0 < remaining (record (new_reader (0 ∷ body)) { offset = 1 })
  unfolding remaining serialize_set_block_numbers
  body_left h len = omega (
    arith,
    ap length (serialize_i64s-append (accelerations_of ptr ns) root (AllFit-IsI64 ptr ns h)),
    length-append root (serialize_i64s (accelerations_of ptr ns) []),
  )

  -- A payload with the set alone is committed: for a submitter that is allowed and may set block
  -- numbers, under the conditions on the message, the networks of the subgraph are then those of the
  -- encoder after the set.
  pub process_payload-IsAccepted :
      {E : Type 0} (e : ℕ) (x : Context) (c : StoreCache) (bytes : List ℕ)
      → 0 < length ns
      → IsDistinct ns
      → Represents c ns
      → x.current_epoch ≡ some e
      → c.state.latest_valid_epoch ≢ some e
      → Readable ptr ns
      → length root ≡ 32
      → is_submitter_allowed c x.submitter x.block_number ≡ true
      → does_submitter_have_permission c x.submitter (tag_name 0) ≡ true
      → serialize_messages {E = E} (message ∷ []) [] ≡ ok bytes
      → (c' : StoreCache) × (process_payload x bytes c ≡ committed c')
        × Represents c' (moved_networks ptr ns)
        × (c'.state ≡ record c.state { latest_valid_epoch = some e })
  unfolding process_payload process_message_block remaining
  process_payload-IsAccepted e x c bytes some_ns d rep now fresh h len allowed may out =
      let start : BytesReader = new_reader (0 ∷ body) in
      let r : BytesReader = record start { offset = 1 } in
      let (after, ran, accepted) =
        execute_set_block_numbers-IsAccepted ptr ns root e c r [] some_ns d rep fresh h len refl
          (rw append-nil) in
      let end : remaining after.1 ≡ 0 = At-end after.1 accepted.at in
      let block : process_message_block x 0 c start ≡ done after =
        rw (process_message_block, decode_tags_byte 0 0 start body (omega arith) (omega arith) refl)
          (last_message x 0 0 c r after refl (body_left (Readable-AllFit ptr ns h) len) may
            (rw now ran) end) in
      (
        after.0,
        rw (payload_bytes bytes (Readable-AllFit ptr ns h) out, process_payload, allowed)
            (one_block (length body) x 0 c start after (omega arith) block accepted.fine end),
        accepted.networks,
        accepted.state,
      )
