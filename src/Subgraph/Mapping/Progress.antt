-- ===== src/Subgraph/Mapping/Progress.antt =====
-- The handlers of packages/subgraph/src/mapping.ts on the reader: none of them goes back, and none
-- makes a failed reader work again.
pub mod Epochs
pub mod Registry
pub mod Messages
use mathlib.Core.Path.{subst}
use block_oracle.Prelude.{
  ℕ, zero, suc, ◌+◌, ◌≤◌, ◌≡◌, refl, true, false, List, [], ◌∷◌, Option, none, some, arith, length,
  Bool-cases, Option-cases, inl, inr, ◌==◌, Bool, ◌&&◌, ltb, if◌then◌else◌,
}
use block_oracle.Prelude.Int.{ℤ, pos, negsuc}
use block_oracle.Prelude.Text.{Str}
use block_oracle.Subgraph.Decoding.{
  BytesReader, remaining, advance, decode_u64, decode_i64, decode_string,
}
use block_oracle.Subgraph.Decoding.Progress.{
  Moves, Moves-refl, Moves-trans, Moves-failed, advance-Moves, decode_u64-Moves, decode_i64-Moves,
  decode_string-Moves,
}
use block_oracle.Subgraph.Store.{
  StoreCache, MessageId, PermissionSet, is_network_already_registered,
}
use block_oracle.Subgraph.Active.{
  Run, done, trapped, endless, next_epoch_id, fail, get_active_networks,
  create_or_update_block_number,
}
use block_oracle.Subgraph.Mapping.Epochs.{
  is_negative, update_block_numbers, set_block_numbers, enter_epoch, keep_message,
  execute_set_block_numbers_for_epoch, execute_update_versions,
}
use block_oracle.Subgraph.Mapping.Registry.{
  Insertions, Aliases, decode_removals, as_i32, rounds, take_out, wrap, flat, insert_networks,
  insert_networks_and_aliases, insert_and_commit, insert_network, is_below, change_networks,
  execute_register_networks, execute_register_networks_and_aliases, execute_reset_state,
}
use block_oracle.Subgraph.Mapping.Permissions.{
  does_submitter_have_permission, index_is_valid, cons_if, tag_name, decode_permissions,
  execute_change_permissions,
}
use block_oracle.Subgraph.Mapping.{
  Context, permit, process_message, process_messages, process_message_block,
}

-- What a handler does to its reader, where it ends and does not trap.
abbrev pub MovesTo : {A : Type 0} → BytesReader → Run (A × BytesReader) → Type 0
MovesTo r (done (a, r')) = Moves r r'
MovesTo r trapped = Unit
MovesTo r endless = Unit

-- A choice between two results with a reader.
pub choose :
    {X : Type 0} (reader : X → BytesReader) (test : Bool) (p q : X) {r : BytesReader}
    → Moves r (reader p)
    → Moves r (reader q)
    → Moves r (reader (if test then p else q))
choose reader true p q h k = h
choose reader false p q h k = k

module _ {A : Type 0} (r : BytesReader) where
  pub choose_to :
      (test : Bool) (p q : Run (A × BytesReader))
      → MovesTo r p
      → MovesTo r q
      → MovesTo r (if test then p else q)
  choose_to true p q h k = h
  choose_to false p q h k = k

  pub whenever :
      (test : Bool) (p q : Run (A × BytesReader))
      → MovesTo r p
      → (test ≡ true → MovesTo r q)
      → MovesTo r (elim test [ false ↦ p | true ↦ q ])
  whenever true p q h k = k refl
  whenever false p q h k = h

  -- What follows a call that may not end, or trap.
  pub follow :
      {X : Type 0} (o : Run X) (f : X → Run (A × BytesReader))
      → ((x : X) → o ≡ done x → MovesTo r (f x))
      → MovesTo r (elim o [ trapped ↦ trapped | endless ↦ endless | done x ↦ f x ])
  follow trapped f h = tt
  follow endless f h = tt
  follow (done x) f h = h x refl

  pub follow_option :
      {X : Type 0} (o : Option X) (f : X → Run (A × BytesReader))
      → ((x : X) → o ≡ some x → MovesTo r (f x))
      → MovesTo r (elim o [ none ↦ trapped | some x ↦ f x ])
  follow_option none f h = tt
  follow_option (some x) f h = h x refl

pub MovesTo-from :
    {A : Type 0} {r s : BytesReader}
    → Moves r s
    → (o : Run (A × BytesReader)) → MovesTo s o
    → MovesTo r o
MovesTo-from m trapped h = tt
MovesTo-from m endless h = tt
MovesTo-from m (done x) h = Moves-trans m h
