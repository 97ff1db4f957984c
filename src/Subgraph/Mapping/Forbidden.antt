-- ===== src/Subgraph/Mapping/Forbidden.antt =====
-- `processPayload` of packages/subgraph/src/mapping.ts does nothing for a submitter that is not
-- permitted to.
use mathlib.Core.Path.{subst}
use block_oracle.Prelude.{
  ℕ, zero, suc, ◌+◌, ◌≡◌, refl, ◌∙◌, Bool, true, false, ◌&&◌, List, [], ◌∷◌, arith, length, ltb,
  Bool-cases, inl, inr,
}
use block_oracle.Subgraph.Decoding.{BytesReader, new_reader, remaining}
use block_oracle.Subgraph.Tags.{decode_tags}
use block_oracle.Subgraph.Store.{StoreCache}
use block_oracle.Subgraph.Active.{Run, done, trapped, endless}
use block_oracle.Subgraph.Mapping.Permissions.{
  is_submitter_allowed, does_submitter_have_permission, tag_name,
}
use block_oracle.Subgraph.Mapping.Progress.{MovesTo}
use block_oracle.Subgraph.Mapping.Progress.Messages.{
  process_message-MovesTo, process_messages-MovesTo,
}
use block_oracle.Subgraph.Mapping.{
  Context, committed, not_allowed, permit, process_message, process_messages, process_message_block,
  process_message_blocks, process_payload,
}
use block_oracle.Subgraph.Mapping.Payloads.{turn_cases}

-- No message is permitted to the submitter.
abbrev pub HasNoPermission : Context → StoreCache → Type 0
HasNoPermission x c =
    (tag : ℕ) → does_submitter_have_permission c x.submitter (tag_name tag) ≡ false

-- The cache is as before, unless the reader failed.
abbrev KeepsCache : StoreCache → Run (StoreCache × BytesReader) → Type 0
KeepsCache c trapped = Unit
KeepsCache c endless = Unit
KeepsCache c (done after) = after.1.ok ≡ true → after.0 ≡ c

failed-KeepsCache :
    (c : StoreCache) (r : BytesReader) (o : Run (StoreCache × BytesReader))
    → (r.ok ≡ true → ⊥)
    → MovesTo r o
    → KeepsCache c o
failed-KeepsCache c r trapped failed m = tt
failed-KeepsCache c r endless failed m = tt
failed-KeepsCache c r (done after) failed m = λ fine. absurd (failed (m.ok fine))

permit_failed :
    (x : Context) (tag : ℕ) (c : StoreCache) (r : BytesReader)
    → HasNoPermission x c
    → (permit x tag c r).ok ≡ true
    → ⊥
unfolding permit
permit_failed x tag c r h e = let failed : false ≡ true = rw (permit, h tag) at e in cc

forbidden-KeepsCache :
    (x : Context) (block i : ℕ) (tags : List ℕ) (c : StoreCache) (r : BytesReader)
    → HasNoPermission x c
    → KeepsCache c (process_messages x block i tags c r)
unfolding process_messages
forbidden-KeepsCache x block i [] c r h = λ fine. refl
forbidden-KeepsCache x block i (tag ∷ tags) c r h =
    go (r.ok && ltb 0 (remaining r))
      (process_message x (x.payload_id, block, i) tag c (permit x tag c r)) refl refl
  where
    go :
        (more : Bool) (o : Run (StoreCache × BytesReader))
        → (r.ok && ltb 0 (remaining r)) ≡ more
        → process_message x (x.payload_id, block, i) tag c (permit x tag c r) ≡ o
        → KeepsCache c (process_messages x block i (tag ∷ tags) c r)
    go false o no_more e = rw (process_messages, no_more) (λ fine. refl)
    go true trapped more e = rw (process_messages, more, e) tt
    go true endless more e = rw (process_messages, more, e) tt
    go true (done after) more e =
        rw (process_messages, more, e)
          (failed-KeepsCache c after.1 (process_messages x block (i + 1) tags after.0 after.1)
            (λ fine. permit_failed x tag c r h (
              (subst (MovesTo (permit x tag c r)) e
                  (process_message-MovesTo x (x.payload_id, block, i) tag c (permit x tag c r))).ok
                fine))
            (process_messages-MovesTo x block (i + 1) tags after.0 after.1))

block-KeepsCache :
    (x : Context) (block : ℕ) (c : StoreCache) (r : BytesReader)
    → HasNoPermission x c
    → KeepsCache c (process_message_block x block c r)
unfolding process_message_block
block-KeepsCache x block c r h = elim (Bool-cases (decode_tags r).1.ok) [
  | inl fine ↦
      rw (process_message_block, fine)
        (forbidden-KeepsCache x block 0 (decode_tags r).0 c (decode_tags r).1 h)
  | inr failed ↦ rw (process_message_block, failed) (λ fine. refl)
]

blocks-KeepsCache :
    (fuel : ℕ) (x : Context) (i : ℕ) (c : StoreCache) (r : BytesReader) (c' : StoreCache)
    → HasNoPermission x c
    → process_message_blocks fuel x i c r ≡ committed c'
    → c' ≡ c
unfolding process_message_blocks
blocks-KeepsCache zero x i c r c' h = λ e. ground arith
blocks-KeepsCache (suc fuel) x i c r c' h =
    turn_cases (λ end. end ≡ committed c' → c' ≡ c) fuel x i c r (λ e. cc) (λ e. cc) (λ e. cc)
      (λ run_out e. cc)
      λ after more e fine finish.
        let same : after.0 ≡ c = subst (KeepsCache c) e (block-KeepsCache x i c r h) fine in
        blocks-KeepsCache fuel x (i + 1) after.0 after.1 c' (rw same h) finish ∙ same

-- A submitter to whom no message is permitted changes nothing: what its payload commits is what was
-- there before.
pub process_payload_forbidden :
    (x : Context) (payload_bytes : List ℕ) (c c' : StoreCache)
    → HasNoPermission x c
    → process_payload x payload_bytes c ≡ committed c'
    → c' ≡ c
unfolding process_payload
process_payload_forbidden x payload_bytes c c' h e =
    elim (Bool-cases (is_submitter_allowed c x.submitter x.block_number)) [
      | inl allowed ↦
          blocks-KeepsCache (length payload_bytes) x 0 c (new_reader payload_bytes) c' h
            (rw (process_payload, allowed) at e)
      | inr refused ↦ let no : not_allowed ≡ committed c' = rw (process_payload, refused) at e in cc
    ]
