-- ===== src/Subgraph/Mapping/Listed/Payloads.antt =====
-- `processPayload` of packages/subgraph/src/mapping.ts keeps the list of networks
-- well-formed, and ends.
use mathlib.Core.Path.{subst}
use block_oracle.Prelude.{
  ℕ, zero, suc, ◌+◌, ◌≡◌, ◌≢◌, refl, ◌∙◌, sym, Bool, true, false, ◌&&◌, List, [], ◌∷◌, arith,
  length, ltb, ltb→lt, ◌≤◌, Bool-cases, inl, inr,
}
use block_oracle.Subgraph.Decoding.{BytesReader, new_reader, remaining, advance, decode_u64}
use block_oracle.Subgraph.Tags.{decode_tags}
use block_oracle.Subgraph.Store.{MessageId, StoreCache, put_permission_list_entry}
use block_oracle.Subgraph.Chain.{IsWellFormed}
use block_oracle.Subgraph.Mapping.Epochs.{execute_update_versions}
use block_oracle.Subgraph.Mapping.Registry.{as_i32, rounds}
use block_oracle.Subgraph.Mapping.Permissions.{
  is_submitter_allowed, decode_permissions, to_hex_string, grant, execute_change_permissions,
}
use block_oracle.Subgraph.Mapping.Progress.{MovesTo}
use block_oracle.Subgraph.Decoding.Progress.{Moves, Moves-remaining}
use block_oracle.Subgraph.Active.{Run, done, trapped, endless}
use block_oracle.Subgraph.Mapping.{
  Context, committed, not_allowed, out_of_fuel, aborted, invalid, PayloadEnd, permit,
  process_message, process_messages, process_message_block, process_message_blocks, process_payload,
}
use block_oracle.Subgraph.Mapping.Payloads.{
  turn_cases, decode_tags-remaining, process_message_block-MovesTo,
}
use block_oracle.Subgraph.Mapping.Listed.{IsKept, either_case, either_trap}
use block_oracle.Subgraph.Mapping.Listed.Epochs.{
  KeepsList-refl, KeepsList-IsWellFormed, set_block_numbers-IsKept,
}
use block_oracle.Subgraph.Mapping.Listed.Registry.{
  register_networks-IsKept, register_networks_and_aliases-IsKept, reset_state-IsKept,
}

change_permissions-IsKept :
    (c : StoreCache) (r : BytesReader) → IsWellFormed c → IsKept (execute_change_permissions c r)
unfolding execute_change_permissions put_permission_list_entry
change_permissions-IsKept c r h =
    let (address, r₁) = advance 20 r in
    let (valid_through, r₂) = decode_u64 r₁ in
    let (count, r₃) = decode_u64 r₂ in
    either_case IsKept r₂.ok _ (done (c, r₂))
      (λ fine.
        either_case IsKept r₃.ok _ (done (c, r₃))
          (λ fine'.
            either_trap (decode_permissions (rounds (as_i32 count)) r₃)
              (λ x. done (grant (to_hex_string address) valid_through (as_i32 count) x.0 c, x.1))
              (λ x e ok.
                KeepsList-IsWellFormed c
                  (grant (to_hex_string address) valid_through (as_i32 count) x.0 c)
                  (KeepsList-refl c) h))
          (λ failed ok. h))
      (λ failed ok. h)

process_message-IsKept :
    (x : Context) (id : MessageId) (tag : ℕ) (c : StoreCache) (r : BytesReader)
    → IsWellFormed c
    → IsKept (process_message x id tag c r)
unfolding process_message execute_update_versions
process_message-IsKept x id zero c r h = set_block_numbers-IsKept x.current_epoch c r h
process_message-IsKept x id (suc zero) c r h = λ fine. h
process_message-IsKept x id (suc (suc zero)) c r h =
    λ fine. KeepsList-IsWellFormed c (execute_update_versions c r).0 (KeepsList-refl c) h
process_message-IsKept x id (suc (suc (suc zero))) c r h =
    register_networks-IsKept x.aliases id c r h
process_message-IsKept x id (suc (suc (suc (suc zero)))) c r h = change_permissions-IsKept c r h
process_message-IsKept x id (suc (suc (suc (suc (suc zero))))) c r h =
    reset_state-IsKept x.initial_permissions id c r h
process_message-IsKept x id (suc (suc (suc (suc (suc (suc zero)))))) c r h =
    register_networks_and_aliases-IsKept id c r h
process_message-IsKept x id (suc (suc (suc (suc (suc (suc (suc tag))))))) c r h = λ fine. h

failed-IsKept :
    (x : Context) (block i : ℕ) (tags : List ℕ) (after : StoreCache × BytesReader)
    → after.1.ok ≡ false
    → IsKept (process_messages x block i tags after.0 after.1)
unfolding process_messages
failed-IsKept x block i [] after failed = λ fine. let no : true ≡ false = sym fine ∙ failed in cc
failed-IsKept x block i (tag ∷ tags) after failed = rw (process_messages, failed) (λ fine. cc)

-- After one message the next ones are processed, or the reader has failed for good.
IsKept-further :
    (x : Context) (block i : ℕ) (tags : List ℕ) (after : StoreCache × BytesReader)
    → IsKept (done after)
    → (IsWellFormed after.0 → IsKept (process_messages x block i tags after.0 after.1))
    → IsKept (process_messages x block i tags after.0 after.1)
IsKept-further x block i tags after kept later = elim (Bool-cases after.1.ok) [
  | inl fine ↦ later (kept fine)
  | inr failed ↦ failed-IsKept x block i tags after failed
]

process_messages-IsKept :
    (x : Context) (block i : ℕ) (tags : List ℕ) (c : StoreCache) (r : BytesReader)
    → IsWellFormed c
    → IsKept (process_messages x block i tags c r)
unfolding process_messages
process_messages-IsKept x block i [] c r h = λ fine. h
process_messages-IsKept x block i (tag ∷ tags) c r h =
    go (r.ok && ltb 0 (remaining r))
      (process_message x (x.payload_id, block, i) tag c (permit x tag c r)) refl refl
      (λ after. process_messages-IsKept x block (i + 1) tags after.0 after.1)
  where
    go :
        (more : Bool) (o : Run (StoreCache × BytesReader))
        → (r.ok && ltb 0 (remaining r)) ≡ more
        → process_message x (x.payload_id, block, i) tag c (permit x tag c r) ≡ o
        → ((after : StoreCache × BytesReader)
            → IsWellFormed after.0
            → IsKept (process_messages x block (i + 1) tags after.0 after.1))
        → IsKept (process_messages x block i (tag ∷ tags) c r)
    go false o no_more e later = rw (process_messages, no_more) (λ fine. h)
    go true trapped more e later = rw (process_messages, more, e) tt
    go true endless more e later = absurd (
        subst IsKept e
          (process_message-IsKept x (x.payload_id, block, i) tag c (permit x tag c r) h))
    go true (done after) more e later =
        rw (process_messages, more, e)
          (IsKept-further x block (i + 1) tags after
            (subst IsKept e
              (process_message-IsKept x (x.payload_id, block, i) tag c (permit x tag c r) h))
            (later after))

block-IsKept :
    (x : Context) (block : ℕ) (c : StoreCache) (r : BytesReader)
    → IsWellFormed c
    → IsKept (process_message_block x block c r)
unfolding process_message_block
block-IsKept x block c r h =
    let (tags, r') = decode_tags r in
    either_case IsKept r'.ok (process_messages x block 0 tags c r') (done (c, r'))
      (λ fine. process_messages-IsKept x block 0 tags c r' h) (λ failed ok. h)

-- A payload ends, and what it commits is well-formed.
abbrev KeptEnd : PayloadEnd → Type 0
KeptEnd not_allowed = Unit
KeptEnd invalid = Unit
KeptEnd (committed c) = IsWellFormed c
KeptEnd aborted = Unit
KeptEnd out_of_fuel = ⊥

blocks-KeptEnd :
    (fuel : ℕ) (x : Context) (i : ℕ) (c : StoreCache) (r : BytesReader)
    → remaining r ≤ fuel
    → IsWellFormed c
    → KeptEnd (process_message_blocks fuel x i c r)
unfolding process_message_blocks
blocks-KeptEnd zero x i c r enough h = elim (Bool-cases (ltb 0 (remaining r))) [
  | inl more ↦ absurd (omega (arith, ltb→lt 0 (remaining r) more))
  | inr no_more ↦ rw (process_message_blocks, no_more) h
]
blocks-KeptEnd (suc fuel) x i c r enough h =
    turn_cases KeptEnd fuel x i c r h tt tt
      (λ run_out. subst IsKept run_out (block-IsKept x i c r h))
      λ after more e fine.
        let m : Moves (decode_tags r).1 after.1 =
          subst (MovesTo (decode_tags r).1) e (process_message_block-MovesTo x i c r) in
        blocks-KeptEnd fuel x (i + 1) after.0 after.1
          (omega (arith, decode_tags-remaining r more, Moves-remaining m))
          (subst IsKept e (block-IsKept x i c r h) fine)

process_payload-KeptEnd :
    (x : Context) (payload_bytes : List ℕ) (c : StoreCache)
    → IsWellFormed c
    → KeptEnd (process_payload x payload_bytes c)
unfolding process_payload remaining
process_payload-KeptEnd x payload_bytes c h =
    either_case KeptEnd (is_submitter_allowed c x.submitter x.block_number)
      (process_message_blocks (length payload_bytes) x 0 c (new_reader payload_bytes)) not_allowed
      (λ allowed.
        blocks-KeptEnd (length payload_bytes) x 0 c (new_reader payload_bytes) (omega arith) h)
      (λ refused. tt)

-- Where the list of networks is well-formed, it is so again in whatever a payload commits.
pub process_payload-IsWellFormed :
    (x : Context) (payload_bytes : List ℕ) (c c' : StoreCache)
    → IsWellFormed c
    → process_payload x payload_bytes c ≡ committed c'
    → IsWellFormed c'
process_payload-IsWellFormed x payload_bytes c c' h e =
    subst KeptEnd e (process_payload-KeptEnd x payload_bytes c h)

-- There both the loop over the blocks and the walks along the list end.
pub process_payload_terminates :
    (x : Context) (payload_bytes : List ℕ) (c : StoreCache)
    → IsWellFormed c
    → process_payload x payload_bytes c ≢ out_of_fuel
process_payload_terminates x payload_bytes c h e =
    subst KeptEnd e (process_payload-KeptEnd x payload_bytes c h)
