-- ===== src/Subgraph/Mapping/Progress/Messages.antt =====
-- The reader in permissions and over all messages of a block of packages/subgraph/src/mapping.ts.
use mathlib.Core.Path.{subst}
use block_oracle.Prelude.{
  ℕ, zero, suc, ◌+◌, List, [], ◌∷◌, Option, none, some, refl, ◌≡◌, Bool, ◌&&◌, ltb, if◌then◌else◌,
}
use block_oracle.Prelude.Int.{ℤ}
use block_oracle.Subgraph.Decoding.{BytesReader, remaining, advance, decode_u64}
use block_oracle.Subgraph.Decoding.Progress.{
  Moves, Moves-refl, Moves-trans, Moves-failed, advance-Moves, decode_u64-Moves,
}
use block_oracle.Subgraph.Store.{StoreCache, MessageId}
use block_oracle.Subgraph.Active.{done, fail}
use block_oracle.Subgraph.Mapping.Epochs.{execute_update_versions}
use block_oracle.Subgraph.Mapping.Registry.{as_i32, rounds}
use block_oracle.Subgraph.Mapping.Permissions.{
  does_submitter_have_permission, index_is_valid, cons_if, tag_name, decode_permissions,
  execute_change_permissions,
}
use block_oracle.Subgraph.Mapping.{Context, permit, process_message, process_messages}
use block_oracle.Subgraph.Mapping.Progress.{
  MovesTo, choose, choose_to, whenever, follow, follow_option, MovesTo-from,
}
use block_oracle.Subgraph.Mapping.Progress.Epochs.{set_block_numbers-MovesTo}
use block_oracle.Subgraph.Mapping.Progress.Registry.{
  register_networks-MovesTo, register_networks_and_aliases-MovesTo, reset_state-MovesTo,
}

-- The same of a call that may trap.
abbrev ReadsTo : {A : Type 0} → BytesReader → Option (A × BytesReader) → Type 0
ReadsTo r none = Unit
ReadsTo r (some (a, r')) = Moves r r'

follow_read :
    {A X : Type 0} (r : BytesReader) (o : Option X) (f : X → Option (A × BytesReader))
    → ((x : X) → o ≡ some x → ReadsTo r (f x))
    → ReadsTo r (elim o [ none ↦ none | some x ↦ f x ])
follow_read r none f h = tt
follow_read r (some x) f h = h x refl

decode_permissions-ReadsTo : (count : ℕ) (r : BytesReader) → ReadsTo r (decode_permissions count r)
unfolding decode_permissions
decode_permissions-ReadsTo zero r = Moves-refl r
decode_permissions-ReadsTo (suc count) r =
    let value : ℤ = as_i32 (decode_u64 r).0 in
    let r' : BytesReader = (decode_u64 r).1 in
    let checked : Bool → BytesReader = λ valid. if valid then r' else fail r' in
    let read : (valid : Bool) → Moves r (checked valid) = λ valid.
      choose (λ s. s) valid r' (fail r') (decode_u64-Moves r)
        (Moves-trans (decode_u64-Moves r) (Moves-failed r')) in
    follow_read r (index_is_valid value)
      (λ valid. elim (decode_permissions count (checked valid)) [
        | none ↦ none
        | some x ↦ some (cons_if valid (tag_name (rounds value)) x.0, x.1)
      ])
      λ valid e.
        follow_read r (decode_permissions count (checked valid))
          (λ x. some (cons_if valid (tag_name (rounds value)) x.0, x.1))
          λ x e'.
            Moves-trans (read valid) (
              subst (ReadsTo (checked valid)) e' (decode_permissions-ReadsTo count (checked valid)))

change_permissions-MovesTo :
    (c : StoreCache) (r : BytesReader) → MovesTo r (execute_change_permissions c r)
unfolding execute_change_permissions
change_permissions-MovesTo c r =
    let r₁ : BytesReader = (advance 20 r).1 in
    let r₂ : BytesReader = (decode_u64 r₁).1 in
    let r₃ : BytesReader = (decode_u64 r₂).1 in
    let m₂ : Moves r r₂ = Moves-trans (advance-Moves 20 r) (decode_u64-Moves r₁) in
    let m₃ : Moves r r₃ = Moves-trans m₂ (decode_u64-Moves r₂) in
    let count : ℕ = rounds (as_i32 (decode_u64 r₂).0) in
    choose_to r r₂.ok _ (done (c, r₂))
      (choose_to r r₃.ok _ (done (c, r₃))
        (follow_option r (decode_permissions count r₃) _
          (λ x e. Moves-trans m₃ (subst (ReadsTo r₃) e (decode_permissions-ReadsTo count r₃))))
        m₃)
      m₂

-- Every message.
pub process_message-MovesTo :
    (x : Context) (id : MessageId) (tag : ℕ) (c : StoreCache) (r : BytesReader)
    → MovesTo r (process_message x id tag c r)
unfolding process_message execute_update_versions
process_message-MovesTo x id zero c r = set_block_numbers-MovesTo x.current_epoch c r
process_message-MovesTo x id (suc zero) c r = Moves-refl r
process_message-MovesTo x id (suc (suc zero)) c r = decode_u64-Moves r
process_message-MovesTo x id (suc (suc (suc zero))) c r = register_networks-MovesTo x.aliases id c r
process_message-MovesTo x id (suc (suc (suc (suc zero)))) c r = change_permissions-MovesTo c r
process_message-MovesTo x id (suc (suc (suc (suc (suc zero))))) c r =
    reset_state-MovesTo x.initial_permissions id c r
process_message-MovesTo x id (suc (suc (suc (suc (suc (suc zero)))))) c r =
    register_networks_and_aliases-MovesTo id c r
process_message-MovesTo x id (suc (suc (suc (suc (suc (suc (suc tag))))))) c r = Moves-failed r

permit-Moves :
    (x : Context) (tag : ℕ) (c : StoreCache) (r : BytesReader) → Moves r (permit x tag c r)
unfolding permit
permit-Moves x tag c r =
    choose (λ s. s) (does_submitter_have_permission c x.submitter (tag_name tag)) r (fail r)
      (Moves-refl r) (Moves-failed r)

pub process_messages-MovesTo :
    (x : Context) (block i : ℕ) (tags : List ℕ) (c : StoreCache) (r : BytesReader)
    → MovesTo r (process_messages x block i tags c r)
unfolding process_messages
process_messages-MovesTo x block i [] c r = Moves-refl r
process_messages-MovesTo x block i (tag ∷ tags) c r =
    let r' : BytesReader = permit x tag c r in
    whenever r (r.ok && ltb 0 (remaining r)) (done (c, r)) _ (Moves-refl r) λ more.
      follow r (process_message x (x.payload_id, block, i) tag c r')
        (λ after. process_messages x block (i + 1) tags after.0 after.1)
        λ after e.
          MovesTo-from
            (Moves-trans (permit-Moves x tag c r)
              (subst (MovesTo r') e (process_message-MovesTo x (x.payload_id, block, i) tag c r')))
            (process_messages x block (i + 1) tags after.0 after.1)
            (process_messages-MovesTo x block (i + 1) tags after.0 after.1)
