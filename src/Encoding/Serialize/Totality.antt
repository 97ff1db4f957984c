-- ===== src/Encoding/Serialize/Totality.antt =====
-- When a batch can be serialised, and the preamble that tells the messages apart.
use block_oracle.Prelude.{ℕ, ◌≡◌, refl, List, [], ◌∷◌, ◌++◌, All, ◌⊎◌, inl, inr}
use block_oracle.Prelude.Outcome.{ok, panic, ◌>>=◌}
use block_oracle.Encoding.Messages.{CompressedMessage}
use block_oracle.Encoding.Serialize.{
  serialize_message, serialize_chunk, serialize_chunk_messages, serialize_preamble,
  serialize_messages, fold_tags,
}

-- The one kind of message that the serialiser does not handle.
abbrev pub IsCorrectEpochs : CompressedMessage → Type 0
IsCorrectEpochs (CompressedMessage.correct_epochs d) = Unit
IsCorrectEpochs m = ⊥

-- Some element satisfies the predicate.
abbrev pub Any {ℓ} : {A : Type ℓ} → (A → Type 0) → List A → Type 0
Any P [] = ⊥
Any P (x ∷ xs) = P x ⊎ Any P xs

module _ {E : Type 0} where
  serialize_message_total :
      (m : CompressedMessage) (bytes : List ℕ)
      → ¬ IsCorrectEpochs m
      → (out : List ℕ) × (serialize_message {E = E} m bytes ≡ ok out)
  unfolding serialize_message
  serialize_message_total (CompressedMessage.set_block_numbers_for_next_epoch n) bytes h = (_, refl)
  serialize_message_total (CompressedMessage.correct_epochs d) bytes h = absurd (h tt)
  serialize_message_total (CompressedMessage.register_networks r a) bytes h = (_, refl)
  serialize_message_total (CompressedMessage.update_version v) bytes h = (_, refl)
  serialize_message_total CompressedMessage.reset bytes h = (_, refl)
  serialize_message_total (CompressedMessage.register_networks_and_aliases r a) bytes h = (_, refl)
  serialize_message_total (CompressedMessage.change_permissions a v p) bytes h = (_, refl)

  -- Every batch without a `CorrectEpochs` message is serialised.
  pub serialize_messages_total :
      (ms : List CompressedMessage) (bytes : List ℕ)
      → All (λ m. ¬ IsCorrectEpochs m) ms
      → (out : List ℕ) × (serialize_messages {E = E} ms bytes ≡ ok out)
  unfolding serialize_messages serialize_chunk serialize_chunk_messages serialize_preamble
  serialize_messages_total [] bytes h = (bytes, refl)
  serialize_messages_total (m ∷ []) bytes h =
      let (out, e) = serialize_message_total m (bytes ++ (fold_tags (m ∷ []) 0 0 ∷ [])) h.0 in
      (out, rw e)
  serialize_messages_total (m ∷ n ∷ ms) bytes h =
      let (out, e) = serialize_message_total m (bytes ++ (fold_tags (m ∷ n ∷ []) 0 0 ∷ [])) h.0 in
      let (out', e') = serialize_message_total n out h.1.0 in
      let (rest, e'') = serialize_messages_total ms out' h.1.1 in (rest, rw e (rw e' e''))

  serialize_message_panics :
      (m : CompressedMessage) (bytes : List ℕ)
      → IsCorrectEpochs m
      → serialize_message {E = E} m bytes ≡ panic
  unfolding serialize_message
  serialize_message_panics (CompressedMessage.correct_epochs d) bytes h = refl
  serialize_message_panics (CompressedMessage.set_block_numbers_for_next_epoch n) bytes h =
      elim h [ ]
  serialize_message_panics (CompressedMessage.register_networks r a) bytes h = elim h [ ]
  serialize_message_panics (CompressedMessage.update_version v) bytes h = elim h [ ]
  serialize_message_panics CompressedMessage.reset bytes h = elim h [ ]
  serialize_message_panics (CompressedMessage.register_networks_and_aliases r a) bytes h =
      elim h [ ]
  serialize_message_panics (CompressedMessage.change_permissions a v p) bytes h = elim h [ ]

  -- Serialising never reports an error: it gives bytes, or it panics.
  panics_or_ok :
      (m : CompressedMessage) (bytes : List ℕ)
      → (serialize_message {E = E} m bytes ≡ panic)
        ⊎ ((out : List ℕ) × (serialize_message {E = E} m bytes ≡ ok out))
  unfolding serialize_message
  panics_or_ok (CompressedMessage.correct_epochs d) bytes = inl refl
  panics_or_ok (CompressedMessage.set_block_numbers_for_next_epoch n) bytes = inr (_, refl)
  panics_or_ok (CompressedMessage.register_networks r a) bytes = inr (_, refl)
  panics_or_ok (CompressedMessage.update_version v) bytes = inr (_, refl)
  panics_or_ok CompressedMessage.reset bytes = inr (_, refl)
  panics_or_ok (CompressedMessage.register_networks_and_aliases r a) bytes = inr (_, refl)
  panics_or_ok (CompressedMessage.change_permissions a v p) bytes = inr (_, refl)

  second_panics :
      (n : CompressedMessage) (ms : List CompressedMessage) (out : List ℕ)
      → IsCorrectEpochs n ⊎ Any IsCorrectEpochs ms
      → ((bytes : List ℕ) → Any IsCorrectEpochs ms → serialize_messages {E = E} ms bytes ≡ panic)
      → ◌>>=◌ {E = E} (serialize_message n out >>= λ b. ok b) (λ b. serialize_messages ms b) ≡ panic
  second_panics n ms out (inl h) rest = rw (serialize_message_panics n out h)
  second_panics n ms out (inr h) rest = elim (panics_or_ok n out) [
    | inl p ↦ rw p
    | inr (b, e) ↦ rw e (rest b h)
  ]

  -- A batch with a `CorrectEpochs` message anywhere makes the serialiser panic.
  pub serialize_messages_panics :
      (ms : List CompressedMessage) (bytes : List ℕ)
      → Any IsCorrectEpochs ms
      → serialize_messages {E = E} ms bytes ≡ panic
  unfolding serialize_messages serialize_chunk serialize_chunk_messages serialize_preamble
  serialize_messages_panics [] bytes h = elim h [ ]
  serialize_messages_panics (m ∷ []) bytes (inl h) = rw (serialize_message_panics m _ h)
  serialize_messages_panics (m ∷ []) bytes (inr h) = elim h [ ]
  serialize_messages_panics (m ∷ n ∷ ms) bytes (inl h) = rw (serialize_message_panics m _ h)
  serialize_messages_panics (m ∷ n ∷ ms) bytes (inr h) =
      elim (panics_or_ok m (bytes ++ (fold_tags (m ∷ n ∷ []) 0 0 ∷ []))) [
        | inl p ↦ rw p
        | inr (out, e) ↦ rw e (second_panics n ms out h (serialize_messages_panics ms))
      ]
