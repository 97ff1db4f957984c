-- ===== src/Encoding/Encoder/Registry.antt =====
-- Registering and removing networks.
use block_oracle.Prelude.{
  ℕ, ◌≡◌, ◌≢◌, refl, ap, ◌∙◌, sym, false, List, [], ◌∷◌, ◌++◌, map, none, some, arith, All, ◌==◌,
  append_assoc, append-nil, inl, inr, Option-cases, Bool-cases,
}
use block_oracle.Prelude.Outcome.{Outcome, ok, err, panic}
use block_oracle.Prelude.Text.{Str}
use block_oracle.Encoding.Messages.{Bytes32, Message, CompressedMessage, NetworkIndex}
use block_oracle.Encoding.Encoder.{
  Network, Networks, Encoder, default_network, remove_network, add_networks, remove_networks,
  is_update_version, last_message, dispatch, compress_message, compress_all, compress, proceed,
  take_batch, push, pure, Error,
}
use block_oracle.Encoding.Encoder.Batch.{last_message-append}

-- What `add_network` appends for an identifier.
abbrev pub fresh : Str → Str × Network
fresh id = (id, default_network)

pub add_networks-append :
    (ids : List Str) (e : Encoder)
    → add_networks ids e ≡ (ok tt, record e { networks = e.networks ++ map fresh ids })
unfolding add_networks
add_networks-append [] e =
    ap (λ ns. (ok tt, record e { networks = ns })) (sym (append-nil e.networks))
add_networks-append (id ∷ ids) e =
    add_networks-append ids (record e { networks = e.networks ++ (fresh id ∷ []) })
    ∙ ap (λ ns. (ok tt, record e { networks = ns }))
        (append_assoc e.networks (fresh id ∷ []) (map fresh ids))

-- A removal takes out the first network whose `array_index` is the one asked for, and nothing else.
pub remove_network_lem :
    (k : NetworkIndex) (ns ms : Networks)
    → remove_network k ns ≡ some ms
    → (front : Networks) × (n : Str × Network) × (back : Networks) × (ns ≡ front ++ (n ∷ back))
      × (ms ≡ front ++ back)
      × (n.1.array_index ≡ k)
      × All (λ (m : Str × Network). m.1.array_index ≢ k) front
unfolding remove_network
remove_network_lem k [] ms h = cc
remove_network_lem k (n ∷ ns) ms h = elim (Bool-cases (n.1.array_index == k)) [
  | inl here ↦ ([], n, ns, refl, ground (arith, h, here), ground arith, tt)
  | inr not_here ↦ elim (Option-cases (remove_network k ns)) [
    | inl missing ↦ cc (rw (not_here, missing) at h)
    | inr (rest, e) ↦
        let (front, found, back, split, joined, index, others) = remove_network_lem k ns rest e in
        (
          n ∷ front,
          found,
          back,
          ap (λ t. n ∷ t) split,
          ground (arith, h, e, not_here, joined),
          index,
          (ground arith, others),
        )
  ]
]

remove_network-fresh :
    (k : NetworkIndex) (ids : List Str) → k ≢ 0 → remove_network k (map fresh ids) ≡ none
unfolding remove_network
remove_network-fresh k [] h = refl
remove_network-fresh k (id ∷ ids) h = ground (arith, remove_network-fresh k ids h)

remove_network-append_fresh :
    (k : NetworkIndex) (ns : Networks) (ids : List Str)
    → k ≢ 0
    → remove_network k ns ≡ none
    → remove_network k (ns ++ map fresh ids) ≡ none
unfolding remove_network
remove_network-append_fresh k [] ids h u = remove_network-fresh k ids h
remove_network-append_fresh k (n ∷ ns) ids h u =
    ground (arith, u, remove_network-append_fresh k ns ids h)

module _ (digest : List ℕ → Bytes32) where
  registered :
      (ids : List Str) (e : Encoder)
      → is_update_version (last_message e.compressed) ≡ false
      → compress_message digest (Message.register_networks [] ids) e ≡ (
        ok tt,
        record e {
          networks = e.networks ++ map fresh ids;
          compressed = e.compressed ++ (CompressedMessage.register_networks [] ids ∷ []);
        },
      )
  unfolding compress_message dispatch remove_networks
  registered ids e free = rw free (
      ap (proceed (λ _. push (CompressedMessage.register_networks [] ids)))
        (add_networks-append ids e))

  removal_panics :
      (add : List Str) (k : NetworkIndex) (e : Encoder)
      → is_update_version (last_message e.compressed) ≡ false
      → remove_network k e.networks ≡ none
      → (compress_message digest (Message.register_networks (k ∷ []) add) e).0 ≡ panic
  unfolding compress_message dispatch remove_networks
  removal_panics add k e free u = rw free (rw u)

  -- A network that a message registers cannot be removed by its position: with no version update
  -- pending, a registration followed by a removal by an index other than 0 that no earlier network
  -- has makes the encoder panic.
  pub compress_removal_panics :
      (ids add : List Str) (k : NetworkIndex) (e : Encoder)
      → is_update_version (last_message e.compressed) ≡ false
      → k ≢ 0
      → remove_network k e.networks ≡ none
      → (compress digest
          (Message.register_networks [] ids ∷ Message.register_networks (k ∷ []) add ∷ [])
          e).0
        ≡ panic
  unfolding compress compress_all
  compress_removal_panics ids add k e free h u =
      let m : CompressedMessage = CompressedMessage.register_networks [] ids in
      let e₁ : Encoder = record e {
        networks = e.networks ++ map fresh ids;
        compressed = e.compressed ++ (m ∷ []);
      } in
      let stops =
        removal_panics add k e₁ (ap is_update_version (last_message-append e.compressed m))
          (remove_network-append_fresh k e.networks ids h u) in
      rw (registered ids e free)
        (ends (compress_message digest (Message.register_networks (k ∷ []) add) e₁) stops)
    where
      ends :
          (t : Outcome Error (Unit {0}) × Encoder)
          → t.0 ≡ panic
          → (proceed (λ _. take_batch) (proceed (λ _. pure tt) t)).0 ≡ panic
      ends (ok a, e') p = cc
      ends (err x, e') p = cc
      ends (panic, e') p = refl
