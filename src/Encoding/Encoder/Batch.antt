-- ===== src/Encoding/Encoder/Batch.antt =====
-- `compress` over a batch: empty sets, version updates, and what is left of a batch.
use native.Mathlib.Nat.{add-zero}
use mathlib.Core.Path.{subst}
use block_oracle.Prelude.{
  ℕ, zero, suc, ◌+◌, ◌≡◌, ◌≢◌, refl, ap, ◌∙◌, sym, true, List, [], ◌∷◌, ◌++◌, some, arith, ◌==◌,
  inl, inr, ◌⊎◌, Bool-cases,
}
use block_oracle.Prelude.Outcome.{Outcome, ok, err, panic}
use block_oracle.Encoding.Messages.{
  Message, CompressedMessage, CompressedSetBlockNumbers, empty, non_empty, str_to_u64,
}
use block_oracle.Encoding.Encoder.{
  Action, Encoder, Error, message_after_encoding_version_change, unsupported_encoding_version,
  current_encoding_version, last_message, extend_empty, is_update_version, dispatch,
  compress_message, compress_all, compress, ◌>>=◌, proceed, take_batch,
}

abbrev pub replicate {ℓ} : {A : Type ℓ} → ℕ → A → List A
replicate zero a = []
replicate (suc n) a = a ∷ replicate n a

abbrev pub empty_set : Message
empty_set = Message.set_block_numbers_for_next_epoch []

abbrev pub empties : ℕ → CompressedMessage
empties n = CompressedMessage.set_block_numbers_for_next_epoch (empty n)

pub last_message-append :
    (ms : List CompressedMessage) (m : CompressedMessage) → last_message (ms ++ (m ∷ [])) ≡ some m
unfolding last_message
last_message-append [] m = refl
last_message-append (x ∷ []) m = refl
last_message-append (x ∷ y ∷ ms) m = last_message-append (y ∷ ms) m

extend_empty-append :
    (ms : List CompressedMessage) (n : ℕ)
    → extend_empty (ms ++ (empties n ∷ [])) ≡ ms ++ (empties (n + 1) ∷ [])
unfolding extend_empty
extend_empty-append [] n = refl
extend_empty-append (x ∷ []) n = refl
extend_empty-append (x ∷ y ∷ ms) n = ap (λ t. x ∷ t) (extend_empty-append (y ∷ ms) n)

-- A call followed by another is a success only if both are.
proceed_not_ok :
    {A B : Type 0} (t : Outcome Error A × Encoder) (f : A → Action B) (b : B)
    → ((a : A) (e : Encoder) → t ≡ (ok a, e) → (f a e).0 ≢ ok b)
    → (proceed f t).0 ≢ ok b
proceed_not_ok (ok a, e) f b h = h a e refl
proceed_not_ok (err x, e) f b h = λ p. cc
proceed_not_ok (panic, e) f b h = λ p. cc

module _ (digest : List ℕ → block_oracle.Encoding.Messages.Bytes32) where
  compress_message_empty :
      (e : Encoder) (ms : List CompressedMessage) (n : ℕ)
      → e.compressed ≡ ms ++ (empties n ∷ [])
      → compress_message digest empty_set e
        ≡ (ok tt, record e { compressed = ms ++ (empties (n + 1) ∷ []) })
  unfolding compress_message dispatch
  compress_message_empty e ms n h =
      rw (h, last_message-append ms (empties n), extend_empty-append ms n)

  compress_all-empties :
      (k n : ℕ) (e : Encoder) (ms : List CompressedMessage)
      → e.compressed ≡ ms ++ (empties n ∷ [])
      → compress_all digest (replicate k empty_set) e
        ≡ (ok tt, record e { compressed = ms ++ (empties (n + k) ∷ []) })
  unfolding compress_all
  compress_all-empties zero n e ms h =
      ap (λ t. (ok tt, record e { compressed = t }))
        (h ∙ ap (λ c. ms ++ (empties c ∷ [])) (sym (add-zero n)))
  compress_all-empties (suc k) n e ms h =
      ap (proceed (λ _. compress_all digest (replicate k empty_set)))
        (compress_message_empty e ms n h)
      ∙ compress_all-empties k (n + 1) (record e { compressed = ms ++ (empties (n + 1) ∷ []) }) ms
          refl
      ∙ ap (λ c. (ok tt, record e { compressed = ms ++ (empties c ∷ []) })) (omega arith)

  first_empty :
      (e : Encoder)
      → e.compressed ≡ []
      → compress_message digest empty_set e ≡ (ok tt, record e { compressed = empties 1 ∷ [] })
  unfolding compress_message dispatch last_message extend_empty
  first_empty e h = rw h

  -- A batch of one or more empty sets, given to an encoder with nothing pending, comes out as one
  -- message that counts them; the networks stay as they are.
  pub compress-empties :
      (k : ℕ) (e : Encoder)
      → e.compressed ≡ []
      → compress digest (replicate (suc k) empty_set) e ≡ (ok (empties (suc k) ∷ []), e)
  unfolding compress compress_all
  compress-empties k e h =
      let one : List CompressedMessage = empties 1 ∷ [] in
      let first : compress_message digest empty_set e ≡ (ok tt, record e { compressed = one }) =
        first_empty e h in
      let all : compress_all digest (replicate (suc k) empty_set) e
          ≡ (ok tt, record e { compressed = empties (suc k) ∷ [] }) =
        ap (proceed (λ _. compress_all digest (replicate k empty_set))) first
        ∙ compress_all-empties k 1 (record e { compressed = one }) [] refl
        ∙ ap (λ c. (ok tt, record e { compressed = empties c ∷ [] })) (omega arith) in
      ap (proceed (λ _. take_batch)) all
      ∙ ap (λ c. (ok (empties (suc k) ∷ []), record e { compressed = c })) (sym h)

  -- How a batch runs that begins with another batch.
  compress_all-append :
      (ms ns : List Message) (e : Encoder)
      → compress_all digest (ms ++ ns) e
        ≡ (compress_all digest ms >>= λ _. compress_all digest ns) e
  unfolding compress_all
  compress_all-append [] ns e = refl
  compress_all-append (m ∷ ms) ns e =
      after (compress_message digest m e) (compress_all-append ms ns)
    where
      after :
          (t : Outcome Error (Unit {0}) × Encoder)
          → ((e' : Encoder)
              → compress_all digest (ms ++ ns) e'
                ≡ (compress_all digest ms >>= λ _. compress_all digest ns) e')
          → proceed (λ _. compress_all digest (ms ++ ns)) t
            ≡ proceed (λ _. compress_all digest ns) (proceed (λ _. compress_all digest ms) t)
      after (ok a, e') ih = ih e'
      after (err x, e') ih = refl
      after (panic, e') ih = refl

  -- No message gets through once the last pending message is a version update.
  compress_message_locked :
      (m : Message) (e : Encoder)
      → is_update_version (last_message e.compressed) ≡ true
      → compress_message digest m e ≡ (err message_after_encoding_version_change, e)
  unfolding compress_message
  compress_message_locked m e h = rw h

  -- A version update that goes through locks the batch.
  update_version_locks :
      (v : ℕ) (e : Encoder)
      → let (r, e') = compress_message digest (Message.update_version v) e in
        ((x : Error) × (r ≡ err x))
        ⊎ ((r ≡ ok tt) × (is_update_version (last_message e'.compressed) ≡ true))
  unfolding compress_message dispatch
  update_version_locks v e = elim (Bool-cases (is_update_version (last_message e.compressed))) [
    | inl locked ↦ rw locked (inl (message_after_encoding_version_change, refl))
    | inr free ↦ rw free (elim (Bool-cases (v == current_encoding_version)) [
      | inl same ↦
          rw same
            (inr (refl, rw (last_message-append e.compressed (CompressedMessage.update_version v))))
      | inr other ↦ rw other (inl (unsupported_encoding_version v, refl))
    ])
  ]

  locked_batch :
      (v : ℕ) (m : Message) (after : List Message) (e : Encoder)
      → (compress_all digest (Message.update_version v ∷ m ∷ after) e).0 ≢ ok tt
  unfolding compress_all
  locked_batch v m after e h = elim (update_version_locks v e) [
    | inl (x, fails) ↦
        proceed_not_ok (compress_message digest (Message.update_version v) e) _ tt
          (λ a e' p. cc (fails, ap (λ t. t.0) p)) h
    | inr (fine, locked) ↦
        proceed_not_ok (compress_message digest (Message.update_version v) e) _ tt
          (λ a e' p q. cc (q, next e' (ap (λ t. t.1) p) locked)) h
  ]
    where
      next :
          (e' : Encoder)
          → (compress_message digest (Message.update_version v) e).1 ≡ e'
          → is_update_version
              (last_message (compress_message digest (Message.update_version v) e).1.compressed)
            ≡ true
          → (proceed (λ _. compress_all digest after) (compress_message digest m e')).0
            ≡ err message_after_encoding_version_change
      next e' p locked = rw (
          compress_message_locked m e'
            (subst (λ t. is_update_version (last_message t.compressed) ≡ true) p locked))

  -- No batch in which a message follows a version update is accepted.
  pub compress_after_update_version :
      (before after : List Message) (v : ℕ) (m : Message) (e : Encoder)
      (out : List CompressedMessage)
      → (compress digest (before ++ (Message.update_version v ∷ m ∷ after)) e).0 ≢ ok out
  unfolding compress
  compress_after_update_version before after v m e out =
      proceed_not_ok (compress_all digest (before ++ (Message.update_version v ∷ m ∷ after)) e) _
        out
        (λ a e' p. absurd (
          proceed_not_ok (compress_all digest before e) _ tt (λ b e'' q. locked_batch v m after e'')
            (sym (
                ap (λ t. t.0) (compress_all-append before (Message.update_version v ∷ m ∷ after) e))
              ∙ ap (λ t. t.0) p)))
