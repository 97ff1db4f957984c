-- ===== src/Oracle/State/Conversion.antt =====
-- What the conversions of crates/oracle/src/subgraph.rs guarantee of the networks that they let through.
use block_oracle.Prelude.{
  ℕ, ◌+◌, ◌≡◌, refl, ap, ◌∙◌, sym, true, false, not, List, [], ◌∷◌, Option, none, some, arith,
}
use block_oracle.Prelude.Int.{ℤ, pos, negsuc}
use block_oracle.Prelude.Outcome.{
  Outcome, ok, ok_or, map_err, >>=-eq-ok, eq-ok_of_map_err, eq-some_of_ok_or, passed,
}
use block_oracle.Prelude.Text.{Str}
use block_oracle.Encoding.Encoder.{network_index}
use block_oracle.Encoding.Encoder.Alignment.{IsDistinct}
use block_oracle.Oracle.ChainId.{from_str}
use block_oracle.Oracle.State.{
  NetworkData, Network, GlobalStateData, GlobalState, BadData, available_networks, network_try_from,
  networks_try_from, has_id, all_unique, latest_update, as_u64, invalid_network_name,
  no_array_index, bad_index, duplicated_ids, epoch_try_from, global_state_try_from, is_index,
}

has_id-network_index :
    (id : Str) (ns : List Network)
    → has_id id ns ≡ false
    → network_index id (available_networks ns) ≡ none
unfolding has_id network_index
has_id-network_index id [] h = refl
has_id-network_index id (n ∷ ns) h = ground (arith, has_id-network_index id ns)

all_unique-IsDistinct :
    (ns : List Network) → all_unique ns ≡ true → IsDistinct (available_networks ns)
unfolding all_unique
all_unique-IsDistinct [] h = tt
all_unique-IsDistinct (n ∷ ns) h =
    (has_id-network_index n.id.chain_id ns (ground arith), all_unique-IsDistinct ns (ground arith))

-- A network that is let through: a valid identifier, the given position, the update of the data.
abbrev pub IsConverted : ℕ → NetworkData → Network → Type 0
IsConverted k value n =
    (from_str value.id ≡ ok n.id)
    × (n.array_index ≡ k)
    × (latest_update value.block_numbers ≡ ok n.latest_block_update)

index_of :
    (o : Option ℤ) (index : ℤ) (k : ℕ) → is_index o k ≡ true → o ≡ some index → as_u64 index ≡ k
index_of (some (pos n)) index k h e = ground arith
index_of (some (negsuc n)) index k h e = cc
index_of none index k h e = cc

network-IsConverted :
    (k : ℕ) (value : NetworkData) (n : Network)
    → is_index value.array_index k ≡ true
    → network_try_from value ≡ ok n
    → IsConverted k value n
unfolding network_try_from
network-IsConverted k value n i h =
    let (id, named, h₁) = >>=-eq-ok (map_err (λ e. invalid_network_name) (from_str value.id)) _ h in
    let (index, placed, h₂) = >>=-eq-ok (ok_or value.array_index no_array_index) _ h₁ in
    let (update, updated, h₃) = >>=-eq-ok (latest_update value.block_numbers) _ h₂ in
    let whole : record { id = id; array_index = as_u64 index; latest_block_update = update } ≡ n =
      cc in
    (
      eq-ok_of_map_err (λ e. invalid_network_name) (from_str value.id) named
          ∙ ap (λ m. ok m.id) whole,
      sym (ap (λ m. m.array_index) whole)
          ∙ index_of value.array_index index k i
              (eq-some_of_ok_or value.array_index no_array_index placed),
      updated ∙ ap (λ m. ok m.latest_block_update) whole,
    )

-- The data and what became of it, position by position from `i` on.
abbrev pub AllConverted : ℕ → List NetworkData → List Network → Type 0
AllConverted i [] [] = Unit
AllConverted i [] (n ∷ ns) = ⊥
AllConverted i (value ∷ values) [] = ⊥
AllConverted i (value ∷ values) (n ∷ ns) = IsConverted i value n × AllConverted (i + 1) values ns

networks_converted :
    (i : ℕ) (values : List NetworkData) (ns : List Network)
    → networks_try_from i values ≡ ok ns
    → AllConverted i values ns
unfolding networks_try_from
networks_converted i [] [] h = tt
networks_converted i [] (n ∷ ns) h = cc
networks_converted i (value ∷ values) [] h =
    let (placed, h₁) = passed (not (is_index value.array_index i)) bad_index _ h in
    let (n₀, converted, h₂) = >>=-eq-ok (network_try_from value) _ h₁ in
    let (ns₀, rest, h₃) = >>=-eq-ok (networks_try_from (i + 1) values) _ h₂ in cc
networks_converted i (value ∷ values) (n ∷ ns) h =
    let (placed, h₁) = passed (not (is_index value.array_index i)) bad_index _ h in
    let (n₀, converted, h₂) = >>=-eq-ok (network_try_from value) _ h₁ in
    let (ns₀, rest, h₃) = >>=-eq-ok (networks_try_from (i + 1) values) _ h₂ in
    let head : n₀ ≡ n = cc in
    let tail : ns₀ ≡ ns = cc in
    (
      network-IsConverted i value n (ground arith) (converted ∙ ap ok head),
      networks_converted (i + 1) values ns (rest ∙ ap ok tail),
    )

-- A global state that is let through has as many networks as the data, with distinct identifiers;
-- each has a valid identifier, its position as its index, and the only block number of the data, if
-- there is one.
pub global_state_try_from_lem :
    (value : GlobalStateData) (gs : GlobalState)
    → global_state_try_from value ≡ ok gs
    → IsDistinct (available_networks gs.networks) × AllConverted 0 value.networks gs.networks
unfolding global_state_try_from
global_state_try_from_lem value gs h =
    let (ns, converted, h₁) = >>=-eq-ok (networks_try_from 0 value.networks) _ h in
    let (unique, h₂) = passed (not (all_unique ns)) duplicated_ids _ h₁ in
    let (epoch, e, h₃) = >>=-eq-ok (epoch_try_from value.latest_valid_epoch) _ h₂ in
    let whole : ns ≡ gs.networks = networks_of h₃ in
    (
      all_unique-IsDistinct gs.networks (rw (← whole) (ground arith)),
      networks_converted 0 value.networks gs.networks (converted ∙ ap ok whole),
    )
  where
    networks_of :
        {r : GlobalState}
        → Path (Outcome BadData GlobalState) (ok r) (ok gs)
        → r.networks ≡ gs.networks
    networks_of p = cc
