-- ===== src/Subgraph/Mapping/Epochs/Accepted.antt =====
-- The handler of new epochs on what the encoder writes for a set of block numbers.
use mathlib.Core.Path.{ap₂, subst}
use block_oracle.Prelude.{
  ℕ, zero, suc, ◌+◌, ◌-◌, ◌<◌, ◌≡◌, ◌≢◌, refl, ap, ◌∙◌, sym, true, false, List, [], ◌∷◌, ◌++◌,
  append_assoc, Option, none, some, arith, All, length, length-map, ◌==◌,
}
use block_oracle.Prelude.Int.{ℤ}
use block_oracle.Prelude.Text.{Str}
use block_oracle.Encoding.Messages.{BlockPtr, CompressedSetBlockNumbers, non_empty}
use block_oracle.Encoding.Serialize.{serialize_set_block_numbers, serialize_i64s}
use block_oracle.Encoding.Encoder.{Networks}
use block_oracle.Encoding.Encoder as E
use block_oracle.Encoding.Encoder.Alignment.{IsDistinct}
use block_oracle.Encoding.Encoder.Blocks.{moved_networks, accelerations_of}
use block_oracle.Subgraph.Decoding.{BytesReader, advance}
use block_oracle.Subgraph.Decoding.Peeks.{At, At-advance, advance_lem}
use block_oracle.Subgraph.Decoding.Sequences.{serialize_i64s-append}
use block_oracle.Subgraph.Store.{StoreCache, GlobalState, SetBlockNumbersForEpochMessage, get_epoch}
use block_oracle.Subgraph.Active.{done, next_epoch_id}
use block_oracle.Subgraph.Linked.{
  Linked, SameFor, Linked-SameFor, Represents, ids_of, get_active_networks-Represents,
}
use block_oracle.Subgraph.Mapping.Epochs.{
  previous_epoch_number, backfill, enter_epoch, keep_message, set_block_numbers,
  execute_set_block_numbers_for_epoch,
}
use block_oracle.Subgraph.Mapping.Epochs.Agreement.{
  Applied, Readable, AllFit, AllFit-IsI64, Readable-AllFit, update_block_numbers-Applied,
}

-- Making epochs leaves networks, block numbers and messages alone.
abbrev OnlyEpochs : StoreCache → StoreCache → Type 0
OnlyEpochs c c' =
    ((id : Str) → SameFor c c' id)
    × (c'.state ≡ c.state)
    × (c'.set_block_numbers_messages ≡ c.set_block_numbers_messages)

get_epoch-OnlyEpochs : (e : ℕ) (c : StoreCache) → OnlyEpochs c (get_epoch e c)
unfolding get_epoch
get_epoch-OnlyEpochs e c = (λ id. (refl, λ i. refl), refl, refl)

OnlyEpochs-trans : (c d e : StoreCache) → OnlyEpochs c d → OnlyEpochs d e → OnlyEpochs c e
OnlyEpochs-trans c d e h k =
    (λ id. ((k.0 id).0 ∙ (h.0 id).0, λ i. (k.0 id).1 i ∙ (h.0 id).1 i), k.1 ∙ h.1, k.2 ∙ h.2)

backfill-OnlyEpochs : (count i : ℕ) (c : StoreCache) → OnlyEpochs c (backfill count i c)
unfolding backfill
backfill-OnlyEpochs zero i c = (λ id. (refl, λ j. refl), refl, refl)
backfill-OnlyEpochs (suc count) i c =
    OnlyEpochs-trans c (get_epoch i c) (backfill count (i + 1) (get_epoch i c))
      (get_epoch-OnlyEpochs i c) (backfill-OnlyEpochs count (i + 1) (get_epoch i c))

pub All-SameFor :
    (c c' : StoreCache) (ns : Networks)
    → ((id : Str) → SameFor c c' id)
    → All (λ (n : Str × E.Network). SameFor c c' n.0) ns
All-SameFor c c' [] h = tt
All-SameFor c c' (n ∷ ns) h = (h n.0, All-SameFor c c' ns h)

pub enter_epoch_lem :
    (e : ℕ) (c : StoreCache)
    → ((id : Str) → SameFor c (enter_epoch e c) id)
      × ((enter_epoch e c).state ≡ record c.state { latest_valid_epoch = some e })
      × ((enter_epoch e c).set_block_numbers_messages ≡ c.set_block_numbers_messages)
unfolding enter_epoch
enter_epoch_lem e c =
    let first : ℕ = previous_epoch_number c.state.latest_valid_epoch + 1 in
    let c' : StoreCache = backfill (e - first) first c in
    let only =
      OnlyEpochs-trans c c' (get_epoch e c') (backfill-OnlyEpochs (e - first) first c)
        (get_epoch-OnlyEpochs e c') in
    (only.0, ap (λ (s : GlobalState). record s { latest_valid_epoch = some e }) only.1, only.2)

pub not_zero : (n : ℕ) → 0 < n → (n == 0) ≡ false
not_zero n h = ground arith

pub next_epoch_id_lem :
    (e : ℕ) (latest : Option ℕ) (r : BytesReader)
    → latest ≢ some e
    → next_epoch_id (some e) latest r ≡ (e, r)
unfolding next_epoch_id
next_epoch_id_lem e none r h = refl
next_epoch_id_lem e (some l) r h = ground arith

module _ (ptr : Str × E.Network → BlockPtr) (ns : Networks) (root : List ℕ) where
  abbrev pub written : CompressedSetBlockNumbers
  written = non_empty (accelerations_of ptr ns) root

  -- The new epoch stands in the cache, and the reader is behind the message.
  pub record IsAccepted (e : ℕ) (rest : List ℕ) (c : StoreCache) (after : StoreCache × BytesReader)
      : Type 0 where
    pub fine : after.1.ok ≡ true
    pub at : At after.1 rest
    pub networks : Represents after.0 (moved_networks ptr ns)
    pub state : after.0.state ≡ record c.state { latest_valid_epoch = some e }
    pub messages :
        after.0.set_block_numbers_messages
        ≡ c.set_block_numbers_messages
          ++ (record { merkle_root = root; accelerations = accelerations_of ptr ns } ∷ [])

  pub read_root :
      (r : BytesReader) (rest : List ℕ)
      → AllFit ptr ns
      → length root ≡ 32
      → At r (serialize_set_block_numbers written [] ++ rest)
      → (advance 32 r ≡ (root, record r { offset = r.offset + 32 }))
        × At
            (record r { offset = r.offset + 32 })
            (serialize_i64s (accelerations_of ptr ns) [] ++ rest)
  unfolding serialize_set_block_numbers
  read_root r rest h len at =
      let front : At r (root ++ (serialize_i64s (accelerations_of ptr ns) [] ++ rest)) =
        rw
          (
            serialize_i64s-append (accelerations_of ptr ns) root (AllFit-IsI64 ptr ns h),
            append_assoc root (serialize_i64s (accelerations_of ptr ns) []) rest,
          )
          at at in
      (advance_lem 32 r root _ front len, At-advance 32 r root _ front len)

  keep-IsAccepted :
      (e : ℕ) (rest : List ℕ) (c entered : StoreCache) (run : List ℤ × StoreCache × BytesReader)
      → entered.state ≡ record c.state { latest_valid_epoch = some e }
      → entered.set_block_numbers_messages ≡ c.set_block_numbers_messages
      → c.state.active_network_count ≡ length ns
      → Applied ns
          (moved_networks ptr ns)
          c.state.network_array_head
          (accelerations_of ptr ns)
          rest
          entered
          run
      → IsAccepted e rest c (keep_message root run)
  keep-IsAccepted e rest c entered run state messages count h = rw h.fine (record {
    fine = refl;
    at = h.at;
    networks = (
      subst (λ head. Linked kept head (moved_networks ptr ns))
          (sym (ap (λ (s : GlobalState). s.network_array_head) whole))
          (Linked-SameFor run.1 kept c.state.network_array_head (moved_networks ptr ns)
            (All-SameFor run.1 kept (moved_networks ptr ns) (λ id. (refl, λ i. refl))) h.linked),
      ap (λ (s : GlobalState). s.active_network_count) whole ∙ count ∙ sym (length-map _ ns),
    );
    state = whole;
    messages =
        ap₂
          (λ (ms : List SetBlockNumbersForEpochMessage) (accs : List ℤ).
            ms ++ (record { merkle_root = root; accelerations = accs } ∷ []))
          (h.messages ∙ messages) h.decoded;
  })
    where
      whole : run.1.state ≡ record c.state { latest_valid_epoch = some e }
      whole = h.state ∙ state

      kept : StoreCache
      kept = record run.1 {
        set_block_numbers_messages =
            run.1.set_block_numbers_messages
            ++ (record { merkle_root = root; accelerations = run.0 } ∷ []);
      }

  set_block_numbers-IsAccepted :
      (e : ℕ) (c : StoreCache) (r : BytesReader) (rest : List ℕ)
      → IsDistinct ns
      → Represents c ns
      → c.state.latest_valid_epoch ≢ some e
      → Readable ptr ns
      → length root ≡ 32
      → r.ok ≡ true
      → At r (serialize_set_block_numbers written [] ++ rest)
      → IsAccepted e rest c (set_block_numbers (some e) (ids_of ns) c r)
  unfolding set_block_numbers
  set_block_numbers-IsAccepted e c r rest d rep fresh h len fine at =
      let (root_read, at') = read_root r rest (Readable-AllFit ptr ns h) len at in
      let (same, state, messages) = enter_epoch_lem e c in
      let entered : StoreCache = enter_epoch e c in
      let link =
        Linked-SameFor c entered c.state.network_array_head ns (All-SameFor c entered ns same)
          rep.0 in
      let moved =
        update_block_numbers-Applied ptr e ns c.state.network_array_head entered
          (record r { offset = r.offset + 32 }) rest d link fine h at' in
      rw (next_epoch_id_lem e c.state.latest_valid_epoch r fresh, root_read)
        (keep-IsAccepted e rest c entered _ state messages rep.1 moved)

  -- The subgraph reads what the encoder wrote: with networks, all of them distinct and represented, with
  -- an Epoch Manager at an epoch other than the latest one, a root of 32 bytes, and differences that
  -- fit their types and of which none goes back, a reader without an error before the serialised set
  -- of block numbers ends without one, behind it; then the networks of the subgraph are those of the
  -- encoder after the set, the new epoch is the latest, and root and accelerations are on record.
  pub execute_set_block_numbers-IsAccepted :
      (e : ℕ) (c : StoreCache) (r : BytesReader) (rest : List ℕ)
      → 0 < length ns
      → IsDistinct ns
      → Represents c ns
      → c.state.latest_valid_epoch ≢ some e
      → Readable ptr ns
      → length root ≡ 32
      → r.ok ≡ true
      → At r (serialize_set_block_numbers written [] ++ rest)
      → (after : StoreCache × BytesReader) × (execute_set_block_numbers_for_epoch (some e) c r
          ≡ done after)
        × IsAccepted e rest c after
  unfolding execute_set_block_numbers_for_epoch
  execute_set_block_numbers-IsAccepted e c r rest some_ns d rep fresh h len fine at = (
    set_block_numbers (some e) (ids_of ns) c r,
    rw (
      execute_set_block_numbers_for_epoch,
      not_zero c.state.active_network_count (omega (arith, rep.1)),
      get_active_networks-Represents c ns rep,
    ),
    set_block_numbers-IsAccepted e c r rest d rep fresh h len fine at,
  )

-- An empty set, a count without root and accelerations, is never accepted where it ends the payload:
-- with active networks the subgraph looks for the root, without any it refuses.
