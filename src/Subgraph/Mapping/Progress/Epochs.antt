-- ===== src/Subgraph/Mapping/Progress/Epochs.antt =====
-- The reader in the handler of new epochs of packages/subgraph/src/mapping.ts.
use block_oracle.Prelude.{ℕ, List, [], ◌∷◌, Option, none, some, Bool-cases, inl, inr, ◌==◌}
use block_oracle.Prelude.Text.{Str}
use block_oracle.Subgraph.Decoding.{BytesReader, decode_i64}
use block_oracle.Subgraph.Decoding.Progress.{
  Moves, Moves-refl, Moves-trans, Moves-failed, advance-Moves, decode_i64-Moves,
}
use block_oracle.Subgraph.Store.{StoreCache}
use block_oracle.Subgraph.Active.{
  done, next_epoch_id, get_active_networks, create_or_update_block_number,
}
use block_oracle.Subgraph.Mapping.Epochs.{
  is_negative, update_block_numbers, set_block_numbers, execute_set_block_numbers_for_epoch,
}
use block_oracle.Subgraph.Mapping.Progress.{MovesTo, follow}

pub next_epoch_id-Moves :
    (response latest : Option ℕ) (r : BytesReader) → Moves r (next_epoch_id response latest r).1
unfolding next_epoch_id
next_epoch_id-Moves none latest r = Moves-failed r
next_epoch_id-Moves (some e) none r = Moves-refl r
next_epoch_id-Moves (some e) (some l) r = elim (Bool-cases (e == l)) [
  | inl same ↦ rw same (Moves-failed r)
  | inr new ↦ rw new (Moves-refl r)
]

pub update_block_numbers-Moves :
    (e : ℕ) (ids : List Str) (c : StoreCache) (r : BytesReader)
    → Moves r (update_block_numbers e ids c r).2
unfolding update_block_numbers
update_block_numbers-Moves e [] c r = Moves-refl r
update_block_numbers-Moves e (id ∷ ids) c r =
    let updated = create_or_update_block_number id e (decode_i64 r).0 c in
    elim (Bool-cases (decode_i64 r).1.ok) [
      | inr failed ↦ rw failed (decode_i64-Moves r)
      | inl fine ↦ elim (Bool-cases (is_negative updated.0.delta)) [
        | inl back ↦ rw (fine, back) (Moves-trans (decode_i64-Moves r) (Moves-failed _))
        | inr rises ↦
            rw (fine, rises)
              (Moves-trans (decode_i64-Moves r)
                (update_block_numbers-Moves e ids updated.1 (decode_i64 r).1))
      ]
    ]

pub set_block_numbers-MovesTo :
    (response : Option ℕ) (c : StoreCache) (r : BytesReader)
    → MovesTo r (execute_set_block_numbers_for_epoch response c r)
unfolding execute_set_block_numbers_for_epoch set_block_numbers
set_block_numbers-MovesTo response c r = elim (Bool-cases (c.state.active_network_count == 0)) [
  | inl nothing ↦ rw nothing (Moves-failed r)
  | inr active ↦ rw active (
      follow r (get_active_networks c)
        (λ (l : List Str × StoreCache). done (set_block_numbers response l.0 l.1 r))
        λ l listed.
          Moves-trans (next_epoch_id-Moves response l.1.state.latest_valid_epoch r)
            (Moves-trans (advance-Moves 32 _) (update_block_numbers-Moves _ l.0 _ _)))
]
