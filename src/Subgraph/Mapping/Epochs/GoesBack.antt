-- ===== src/Subgraph/Mapping/Epochs/GoesBack.antt =====
-- Sets of block numbers that move a network back: the subgraph does not accept them.
use block_oracle.Prelude.{
  ℕ, ◌+◌, ◌<◌, ◌≡◌, ◌≢◌, refl, ap, ◌∙◌, sym, true, false, List, [], ◌∷◌, ◌++◌, append-nil, Option,
  some, arith, length, Bool-cases, ◌⊎◌, inl, inr,
}
use block_oracle.Prelude.Int.{ℤ}
use block_oracle.Prelude.Outcome.{ok}
use block_oracle.Prelude.Text.{Str}
use block_oracle.Encoding.Messages.{BlockPtr}
use block_oracle.Encoding.Serialize.{
  serialize_messages, serialize_set_block_numbers, serialize_i64s,
}
use block_oracle.Encoding.Encoder.{Network, Networks}
use block_oracle.Encoding.Encoder.Alignment.{IsDistinct}
use block_oracle.Encoding.Encoder.Blocks.{delta, acceleration, accelerations_of}
use block_oracle.Subgraph.Decoding.{BytesReader, new_reader, decode_i64}
use block_oracle.Subgraph.Decoding.Peeks.{At}
use block_oracle.Subgraph.Decoding.Fields.{decode_i64-serialize_i64}
use block_oracle.Subgraph.Decoding.Sequences.{serialize_i64s-cons}
use block_oracle.Subgraph.Tags.{decode_tags_byte}
use block_oracle.Subgraph.Store.{StoreCache}
use block_oracle.Subgraph.Store as Store
use block_oracle.Subgraph.Networks.{next_block_number}
use block_oracle.Subgraph.Active.{previous_block_number}
use block_oracle.Subgraph.Linked.{
  Linked, Linked-SameFor, Represents, ids_of, get_active_networks-Represents,
}
use block_oracle.Subgraph.Mapping.Epochs.{
  is_negative, enter_epoch, update_block_numbers, set_block_numbers,
  execute_set_block_numbers_for_epoch,
}
use block_oracle.Subgraph.Mapping.Epochs.Agreement.{
  All-stored, All-different, step_taken, AllFit, AllFit-IsI64,
}
use block_oracle.Subgraph.Mapping.Epochs.Stored.{stored, create_or_update_stored, next-LatestAgrees}
use block_oracle.Subgraph.Mapping.Refused.{Fails, payload-Fails}
use block_oracle.Subgraph.Mapping.{Context, committed, process_payload}
use block_oracle.Subgraph.Mapping.Epochs.Accepted.{
  written, enter_epoch_lem, next_epoch_id_lem, not_zero, All-SameFor, read_root,
}
use block_oracle.Subgraph.Mapping.Epochs.Payload.{message, body, payload_bytes, body_left}

step_refused :
    (id : Str) (ids : List Str) (e : ℕ) (a : ℤ) (c : StoreCache) (r : BytesReader)
    (s : Store.Network)
    → c.networks id ≡ some s
    → (decode_i64 r).0 ≡ a
    → (decode_i64 r).1.ok ≡ true
    → is_negative (next_block_number (previous_block_number s c) a).delta ≡ true
    → (update_block_numbers e (id ∷ ids) c r).2.ok ≡ false
unfolding update_block_numbers
step_refused id ids e a c r s found value fine back =
    rw (value, fine, create_or_update_stored id e a c s found, back)

module _ (ptr : Str × Network → BlockPtr) where
  -- Some network has a block before its last one.
  abbrev pub GoesBack : Networks → Type 0
  GoesBack [] = ⊥
  GoesBack (n ∷ ns) = (is_negative (delta n.1 (ptr n)) ≡ true) ⊎ GoesBack ns

  later-GoesBack :
      (n : Str × Network) (ns : Networks)
      → is_negative (delta n.1 (ptr n)) ≡ false
      → GoesBack (n ∷ ns)
      → GoesBack ns
  later-GoesBack n ns rises (inl back) = absurd (true-ne-false (sym back ∙ rises))
    where
      true-ne-false : true ≡ false → ⊥
      true-ne-false h = cc
  later-GoesBack n ns rises (inr back) = back

  update_block_numbers-GoesBack :
      (e : ℕ) (ns : Networks) (head : Option Str) (c : StoreCache) (r : BytesReader) (rest : List ℕ)
      → IsDistinct ns
      → Linked c head ns
      → r.ok ≡ true
      → AllFit ptr ns
      → GoesBack ns
      → At r (serialize_i64s (accelerations_of ptr ns) [] ++ rest)
      → (update_block_numbers e (ids_of ns) c r).2.ok ≡ false
  unfolding update_block_numbers serialize_i64s
  update_block_numbers-GoesBack e [] head c r rest d link fine fits back at = absurd back
  update_block_numbers-GoesBack e (n ∷ ns) head c r rest d
        (s, here, found, active, own, agrees, link) fine fits back at =
      let a : ℤ = acceleration n.1 (ptr n) in
      let (value, next, fine') =
        decode_i64-serialize_i64 a r (serialize_i64s (accelerations_of ptr ns) [] ++ rest) fits.0.1
          (rw (serialize_i64s-cons a (accelerations_of ptr ns) rest (AllFit-IsI64 ptr ns fits.1)) at
            at) in
      let step =
        ap is_negative (next-LatestAgrees (previous_block_number s c) n.1 (ptr n) agrees).1 in
      elim (Bool-cases (is_negative (delta n.1 (ptr n)))) [
        | inl negative ↦
            step_refused n.0 (ids_of ns) e a c r s found value (fine' ∙ fine) (step ∙ negative)
        | inr rises ↦
            let lasting = All-stored n.0 s e a c ns (All-different n.0 ns d.0) in
            rw (step_taken n.0 (ids_of ns) e a c r s found value (fine' ∙ fine) (step ∙ rises)) (
              update_block_numbers-GoesBack e ns s.next_array_element (stored n.0 s e a c)
                (decode_i64 r).1 rest d.1
                (Linked-SameFor c (stored n.0 s e a c) s.next_array_element ns lasting link)
                (fine' ∙ fine) fits.1 (later-GoesBack n ns rises back) next)
      ]

  module _ (ns : Networks) (root : List ℕ) where
    GoesBack-Fails :
        (e : ℕ) (c : StoreCache) (r : BytesReader)
        → 0 < length ns
        → IsDistinct ns
        → Represents c ns
        → c.state.latest_valid_epoch ≢ some e
        → AllFit ptr ns
        → GoesBack ns
        → length root ≡ 32
        → r.ok ≡ true
        → At r (serialize_set_block_numbers (written ptr ns root) [])
        → Fails (execute_set_block_numbers_for_epoch (some e) c r)
    unfolding execute_set_block_numbers_for_epoch set_block_numbers
    GoesBack-Fails e c r some_ns d rep fresh fits back len fine at =
        let (root_read, at') = read_root ptr ns root r [] fits len (rw append-nil at) in
        let (same, state, messages) = enter_epoch_lem e c in
        let entered : StoreCache = enter_epoch e c in
        let link =
          Linked-SameFor c entered c.state.network_array_head ns (All-SameFor c entered ns same)
            rep.0 in
        rw
          (
            execute_set_block_numbers_for_epoch,
            not_zero c.state.active_network_count (omega (arith, rep.1)),
            get_active_networks-Represents c ns rep,
            next_epoch_id_lem e c.state.latest_valid_epoch r fresh,
            root_read,
          )
          (update_block_numbers-GoesBack e ns c.state.network_array_head entered
            (record r { offset = r.offset + 32 }) [] d link fine fits back at')

    -- A set that moves some network to a block before its last one is not committed, even where all
    -- else is in order: the networks are distinct and represented, the epoch is new, the differences
    -- fit their types and the root has 32 bytes.
    pub GoesBack-not_committed :
        {E : Type 0} (e : ℕ) (x : Context) (c c' : StoreCache) (bytes : List ℕ)
        → 0 < length ns
        → IsDistinct ns
        → Represents c ns
        → x.current_epoch ≡ some e
        → c.state.latest_valid_epoch ≢ some e
        → AllFit ptr ns
        → GoesBack ns
        → length root ≡ 32
        → serialize_messages {E = E} (message ptr ns root ∷ []) [] ≡ ok bytes
        → process_payload x bytes c ≢ committed c'
    GoesBack-not_committed e x c c' bytes some_ns d rep now fresh fits back len out =
        let start : BytesReader = new_reader (0 ∷ body ptr ns root) in
        rw (payload_bytes ptr ns root bytes fits out) (
          payload-Fails x (0 ∷ body ptr ns root) (0 ∷ []) c c' (record start { offset = 1 })
            (omega arith)
            (decode_tags_byte 0 0 start (body ptr ns root) (omega arith) (omega arith) refl) refl
            (body_left ptr ns root fits len)
            (rw now (
              GoesBack-Fails e c (record start { offset = 1 }) some_ns d rep fresh fits back len
                refl refl)))
