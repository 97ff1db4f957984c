-- ===== src/Subgraph/Mapping/Progress/Registry.antt =====
-- The reader in the handlers that change the list of networks, in packages/subgraph/src/mapping.ts.
use block_oracle.Prelude.{ℕ, zero, suc, List, [], ◌∷◌, length, if◌then◌else◌}
use block_oracle.Prelude.Int.{ℤ}
use block_oracle.Prelude.Text.{Str}
use block_oracle.Subgraph.Decoding.{BytesReader, decode_u64, decode_string}
use block_oracle.Subgraph.Decoding.Progress.{
  Moves, Moves-refl, Moves-trans, Moves-failed, advance-Moves, decode_u64-Moves,
  decode_string-Moves,
}
use block_oracle.Subgraph.Store.{
  StoreCache, MessageId, PermissionSet, is_network_already_registered,
}
use block_oracle.Subgraph.Active.{done, fail, get_active_networks}
use block_oracle.Subgraph.Mapping.Registry.{
  Insertions, Aliases, decode_removals, as_i32, rounds, take_out, wrap, flat, insert_networks,
  insert_networks_and_aliases, insert_and_commit, insert_network, is_below, change_networks,
  execute_register_networks, execute_register_networks_and_aliases, execute_reset_state,
}
use block_oracle.Subgraph.Mapping.Progress.{MovesTo, choose, choose_to, follow, follow_option}

decode_removals-Moves : (count n : ℕ) (r : BytesReader) → Moves r (decode_removals count n r).1
unfolding decode_removals
decode_removals-Moves zero n r = Moves-refl r
decode_removals-Moves (suc count) n r =
    let value : ℤ = as_i32 (decode_u64 r).0 in
    let r' : BytesReader = (decode_u64 r).1 in
    let r'' : BytesReader = if is_below value n then r' else fail r' in
    let checked : Moves r r'' =
      choose (λ s. s) (is_below value n) r' (fail r') (decode_u64-Moves r)
        (Moves-trans (decode_u64-Moves r) (Moves-failed r')) in
    let rest : List ℤ × BytesReader = decode_removals count n r'' in
    choose (λ (p : List ℤ × BytesReader). p.1) r''.ok (value ∷ rest.0, rest.1) ([], r'')
      (Moves-trans checked (decode_removals-Moves count n r'')) checked

insert_networks-Moves :
    (aliases : Aliases) (message : MessageId) (count : ℕ) (i : Insertions)
    → Moves i.reader (insert_networks aliases message count i).reader
unfolding insert_networks
insert_networks-Moves aliases message zero i = Moves-refl i.reader
insert_networks-Moves aliases message (suc count) i =
    let r : BytesReader = (decode_string i.reader).1 in
    let id : Str = (decode_string i.reader).0 in
    let next : Insertions = insert_network message id (λ n. record n { alias = aliases id }) r i in
    let rest : Insertions = insert_networks aliases message count next in
    let read : Moves i.reader r = decode_string-Moves i.reader in
    choose (λ (j : Insertions). j.reader) r.ok
      (if is_network_already_registered id i.cache then record i { reader = fail r } else rest)
      (record i { reader = r })
      (choose (λ (j : Insertions). j.reader) (is_network_already_registered id i.cache)
        (record i { reader = fail r }) rest (Moves-trans read (Moves-failed r))
        (Moves-trans read (insert_networks-Moves aliases message count next)))
      read

insert_networks_and_aliases-Moves :
    (message : MessageId) (count : ℕ) (i : Insertions)
    → Moves i.reader (insert_networks_and_aliases message count i).reader
unfolding insert_networks_and_aliases
insert_networks_and_aliases-Moves message zero i = Moves-refl i.reader
insert_networks_and_aliases-Moves message (suc count) i =
    let r : BytesReader = (decode_string i.reader).1 in
    let id : Str = (decode_string i.reader).0 in
    let r' : BytesReader = (decode_string r).1 in
    let alias : Str = (decode_string r).0 in
    let next : Insertions = insert_network message id (λ n. record n { alias = alias }) r' i in
    let rest : Insertions = insert_networks_and_aliases message count next in
    let read : Moves i.reader r = decode_string-Moves i.reader in
    let read' : Moves i.reader r' = Moves-trans read (decode_string-Moves r) in
    let reader : Insertions → BytesReader = λ j. j.reader in
    choose reader r.ok
      (if is_network_already_registered id i.cache
        then record i { reader = fail r }
        else if r'.ok
        then rest
        else record i { reader = r' })
      (record i { reader = r })
      (choose reader (is_network_already_registered id i.cache) (record i { reader = fail r })
        (if r'.ok then rest else record i { reader = r' }) (Moves-trans read (Moves-failed r))
        (choose reader r'.ok rest (record i { reader = r' })
          (Moves-trans read' (insert_networks_and_aliases-Moves message count next)) read'))
      read

module _ (insert : ℕ → Insertions → Insertions)
    (moves : (count : ℕ) (i : Insertions) → Moves i.reader (insert count i).reader) where
  insert_and_commit-Moves :
      (removed left : List Str) (message : MessageId) (c : StoreCache) (r : BytesReader)
      → Moves r (insert_and_commit insert removed left message c r).1
  insert_and_commit-Moves removed left message c r =
      let r' : BytesReader = (decode_u64 r).1 in
      let i : Insertions =
        insert (rounds (as_i32 (decode_u64 r).0))
          (record { cache = c; reader = r'; added = []; reinsertions = 0 }) in
      let read : Moves r i.reader = Moves-trans (decode_u64-Moves r) (moves _ _) in
      choose (λ (p : StoreCache × BytesReader). p.1) r'.ok _ (c, r')
        (choose (λ (p : StoreCache × BytesReader). p.1) i.reader.ok _ (i.cache, i.reader) read read)
        (decode_u64-Moves r)

  change_networks-MovesTo :
      (networks : List Str) (message : MessageId) (c : StoreCache) (r : BytesReader)
      → MovesTo r (change_networks insert networks message c r)
  unfolding change_networks
  change_networks-MovesTo networks message c r =
      let value : ℤ = as_i32 (decode_u64 r).0 in
      let r₁ : BytesReader = (decode_u64 r).1 in
      let removals : List ℤ × BytesReader = decode_removals (rounds value) (length networks) r₁ in
      let m₁ : Moves r r₁ = decode_u64-Moves r in
      let m₂ : Moves r removals.1 =
        Moves-trans m₁ (decode_removals-Moves (rounds value) (length networks) r₁) in
      choose_to r r₁.ok _ (done (c, r₁))
        (choose_to r removals.1.ok _ (done (c, removals.1))
          (follow_option r (take_out removals.0 (wrap networks))
            (λ x. done (insert_and_commit insert x.0 (flat x.1) message c removals.1))
            (λ x e. Moves-trans m₂ (insert_and_commit-Moves x.0 (flat x.1) message c removals.1)))
          m₂)
        m₁

pub register_networks-MovesTo :
    (aliases : Aliases) (message : MessageId) (c : StoreCache) (r : BytesReader)
    → MovesTo r (execute_register_networks aliases message c r)
unfolding execute_register_networks
register_networks-MovesTo aliases message c r = follow r (get_active_networks c) _ (λ x e.
    change_networks-MovesTo (insert_networks aliases message)
      (insert_networks-Moves aliases message) x.0 message x.1 r)

pub register_networks_and_aliases-MovesTo :
    (message : MessageId) (c : StoreCache) (r : BytesReader)
    → MovesTo r (execute_register_networks_and_aliases message c r)
unfolding execute_register_networks_and_aliases
register_networks_and_aliases-MovesTo message c r = follow r (get_active_networks c) _ (λ x e.
    change_networks-MovesTo (insert_networks_and_aliases message)
      (insert_networks_and_aliases-Moves message) x.0 message x.1 r)

pub reset_state-MovesTo :
    (initial : PermissionSet) (message : MessageId) (c : StoreCache) (r : BytesReader)
    → MovesTo r (execute_reset_state initial message c r)
unfolding execute_reset_state
reset_state-MovesTo initial message c r =
    follow r (get_active_networks c) _ (λ x e. advance-Moves 1 r)
