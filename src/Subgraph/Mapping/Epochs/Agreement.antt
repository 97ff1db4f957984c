-- ===== src/Subgraph/Mapping/Epochs/Agreement.antt =====
-- The loop of the handler of new epochs, against the networks of the encoder.
use block_oracle.Prelude.{
  ℕ, ◌≡◌, refl, ap, ◌∙◌, true, false, List, [], ◌∷◌, ◌++◌, map, Option, none, some, arith, All,
}
use block_oracle.Prelude.Int.{ℤ, IsI64}
use block_oracle.Prelude.Text.{Str, str_eq, str_eq_iff, eq_of_str_compare, str_compare_refl}
use block_oracle.Encoding.Messages.{BlockPtr}
use block_oracle.Encoding.Encoder.{Networks, network_index}
use block_oracle.Encoding.Encoder as E
use block_oracle.Encoding.Encoder.Blocks.{
  acceleration, delta, moved, moved_networks, accelerations_of, Fits,
}
use block_oracle.Encoding.Encoder.Alignment.{IsDistinct}
use block_oracle.Encoding.Serialize.{serialize_i64s}
use block_oracle.Subgraph.Decoding.{BytesReader, decode_i64}
use block_oracle.Subgraph.Decoding.Peeks.{At}
use block_oracle.Subgraph.Decoding.Fields.{decode_i64-serialize_i64}
use block_oracle.Subgraph.Decoding.Sequences.{serialize_i64s-cons}
use block_oracle.Subgraph.Networks.{next_block_number}
use block_oracle.Subgraph.Store.{Network, StoreCache, put_network, put_block_number}
use block_oracle.Subgraph.Active.{previous_block_number}
use block_oracle.Subgraph.Linked.{LatestAgrees, Linked, SameFor, previous-SameFor, Linked-SameFor}
use block_oracle.Subgraph.Mapping.Epochs.{update_block_numbers, is_negative}
use block_oracle.Subgraph.Mapping.Epochs.Stored.{
  create_or_update_stored, next-LatestAgrees, same_messages, same_state, stored, stored-Agrees,
  stored-SameFor,
}

-- What a run of the loop over `ns` leaves, from the cache `c`: everything decoded, the networks moved
-- and linked as before, and nothing else changed but block numbers.
pub record Applied (ns moved_ns : Networks) (head : Option Str) (accelerations : List ℤ)
    (rest : List ℕ) (c : StoreCache) (run : List ℤ × StoreCache × BytesReader) : Type 0 where
  pub decoded : run.0 ≡ accelerations
  pub fine : run.2.ok ≡ true
  pub at : At run.2 rest
  pub linked : Linked run.1 head moved_ns
  pub state : run.1.state ≡ c.state
  pub others : (id : Str) → network_index id ns ≡ none → SameFor c run.1 id
  pub messages : run.1.set_block_numbers_messages ≡ c.set_block_numbers_messages

pub step_taken :
    (id : Str) (ids : List Str) (e : ℕ) (a : ℤ) (c : StoreCache) (r : BytesReader) (s : Network)
    → c.networks id ≡ some s
    → (decode_i64 r).0 ≡ a
    → (decode_i64 r).1.ok ≡ true
    → is_negative (next_block_number (previous_block_number s c) a).delta ≡ false
    → let run = update_block_numbers e ids (stored id s e a c) (decode_i64 r).1 in
      update_block_numbers e (id ∷ ids) c r ≡ (a ∷ run.0, run.1, run.2)
unfolding update_block_numbers
step_taken id ids e a c r s found value fine rises =
    rw (value, fine, create_or_update_stored id e a c s found, rises)

not_first :
    (id : Str) (n : Str × E.Network) (ns : Networks)
    → network_index id (n ∷ ns) ≡ none
    → (str_eq id n.0 ≡ false) × (network_index id ns ≡ none)
unfolding network_index
not_first id n ns h = (ground (arith, eq_of_str_compare id n.0, str_compare_refl id), ground arith)

pub All-different :
    (id : Str) (ns : Networks)
    → network_index id ns ≡ none
    → All (λ (n : Str × E.Network). str_eq n.0 id ≡ false) ns
unfolding network_index
All-different id [] h = tt
All-different id (n ∷ ns) h = (ground (arith, h), All-different id ns (ground (arith, h)))

pub All-stored :
    (id : Str) (s : Network) (e : ℕ) (a : ℤ) (c : StoreCache) (ns : Networks)
    → All (λ (n : Str × E.Network). str_eq n.0 id ≡ false) ns
    → All (λ (n : Str × E.Network). SameFor c (stored id s e a c) n.0) ns
All-stored id s e a c [] h = tt
All-stored id s e a c (n ∷ ns) h = (stored-SameFor id s e a c n.0 h.0, All-stored id s e a c ns h.1)

module _ (n : Str × E.Network) (ptr : BlockPtr) (e : ℕ) (c : StoreCache) (s : Network) where
  abbrev kept : Network
  kept = record s { latest_valid_block_number = some (e, n.0) }

  abbrev first_stored : StoreCache
  first_stored = stored n.0 s e (acceleration n.1 ptr) c

  found_kept : first_stored.networks n.0 ≡ some kept
  unfolding put_network put_block_number
  found_kept = rw ((str_eq_iff n.0 n.0).1 refl)

  extend-Applied :
      (ns moved_ns : Networks) (accelerations : List ℤ) (rest : List ℕ)
      (run : List ℤ × StoreCache × BytesReader)
      → network_index n.0 ns ≡ none
      → c.networks n.0 ≡ some s
      → s.removed_at ≡ none
      → LatestAgrees (previous_block_number s c) n.1
      → Applied ns moved_ns s.next_array_element accelerations rest first_stored run
      → Applied
          (n ∷ ns)
          ((n.0, moved n.1 ptr) ∷ moved_ns)
          (some n.0)
          (acceleration n.1 ptr ∷ accelerations)
          rest
          c
          (acceleration n.1 ptr ∷ run.0, run.1, run.2)
  extend-Applied ns moved_ns accelerations rest run fresh found active agrees h = record {
    decoded = ap (λ t. acceleration n.1 ptr ∷ t) h.decoded;
    fine = h.fine;
    at = h.at;
    linked = (
      kept,
      refl,
      (h.others n.0 fresh).0 ∙ found_kept,
      active,
      refl,
      rw (previous-SameFor first_stored run.1 kept n.0 (h.others n.0 fresh) refl)
          (stored-Agrees n.0 s e n.1 ptr c agrees),
      h.linked,
    );
    state = h.state ∙ same_state n.0 s e (acceleration n.1 ptr) c;
    others = λ id unknown.
        let (other, later) = not_first id n ns unknown in
        let (same, same_numbers) = stored-SameFor n.0 s e (acceleration n.1 ptr) c id other in
        let (kept_network, kept_numbers) = h.others id later in
        (kept_network ∙ same, λ i. kept_numbers i ∙ same_numbers i);
    messages = h.messages ∙ same_messages n.0 s e (acceleration n.1 ptr) c;
  }

module _ (ptr : Str × E.Network → BlockPtr) where
  -- Every acceleration fits its type, and no network goes back.
  abbrev pub Readable : Networks → Type 0
  Readable =
      All (λ (n : Str × E.Network). Fits n.1 (ptr n) × (is_negative (delta n.1 (ptr n)) ≡ false))

  -- Every difference fits its type.
  abbrev pub AllFit : Networks → Type 0
  AllFit = All (λ (n : Str × E.Network). Fits n.1 (ptr n))

  pub Readable-AllFit : (ns : Networks) → Readable ns → AllFit ns
  Readable-AllFit [] h = tt
  Readable-AllFit (n ∷ ns) h = (h.0.0, Readable-AllFit ns h.1)

  pub AllFit-IsI64 : (ns : Networks) → AllFit ns → All IsI64 (accelerations_of ptr ns)
  AllFit-IsI64 [] h = tt
  AllFit-IsI64 (n ∷ ns) h = (h.0.1, AllFit-IsI64 ns h.1)

  pub update_block_numbers-Applied :
      (e : ℕ) (ns : Networks) (head : Option Str) (c : StoreCache) (r : BytesReader) (rest : List ℕ)
      → IsDistinct ns
      → Linked c head ns
      → r.ok ≡ true
      → Readable ns
      → At r (serialize_i64s (accelerations_of ptr ns) [] ++ rest)
      → Applied ns
          (moved_networks ptr ns)
          head
          (accelerations_of ptr ns)
          rest
          c
          (update_block_numbers e (map (λ n. n.0) ns) c r)
  unfolding update_block_numbers serialize_i64s
  update_block_numbers-Applied e [] head c r rest d link fine h at = record {
    decoded = refl;
    fine = fine;
    at = at;
    linked = link;
    state = refl;
    others = λ id u. (refl, λ i. refl);
    messages = refl;
  }
  update_block_numbers-Applied e (n ∷ ns) head c r rest d
        (s, here, found, active, own, agrees, link) fine h at =
      let a : ℤ = acceleration n.1 (ptr n) in
      let (value, next, fine') =
        decode_i64-serialize_i64 a r (serialize_i64s (accelerations_of ptr ns) [] ++ rest) h.0.0.1 (
          rw
            (serialize_i64s-cons a (accelerations_of ptr ns) rest
              (AllFit-IsI64 ns (Readable-AllFit ns h.1)))
            at at) in
      let lasting = All-stored n.0 s e a c ns (All-different n.0 ns d.0) in
      let later =
        update_block_numbers-Applied e ns s.next_array_element (stored n.0 s e a c) (decode_i64 r).1
          rest d.1 (Linked-SameFor c (stored n.0 s e a c) s.next_array_element ns lasting link)
          (fine' ∙ fine) h.1 next in
      let rises =
        ap is_negative (next-LatestAgrees (previous_block_number s c) n.1 (ptr n) agrees).1
        ∙ h.0.1 in
      rw (here, step_taken n.0 (map (λ n. n.0) ns) e a c r s found value (fine' ∙ fine) rises)
        (extend-Applied n (ptr n) e c s ns (moved_networks ptr ns) (accelerations_of ptr ns) rest _
          d.0 found active agrees later)
