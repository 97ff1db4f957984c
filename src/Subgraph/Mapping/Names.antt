-- ===== src/Subgraph/Mapping/Names.antt =====
-- The names of permissions: `Message::str_to_u64` of crates/encoding/src/messages.rs against
-- `MessageTag.toString` of packages/subgraph/src/helpers.ts.
use block_oracle.Prelude.{ℕ, zero, suc, ◌<◌, ◌≡◌, ◌↔◌, refl, ap, ◌∙◌, arith, ◌⊎◌, inl, inr}
use block_oracle.Prelude.Text.{Str, bytes_of, str_compare, eq_of_str_compare}
use block_oracle.Encoding.Messages.{str_to_u64}
use block_oracle.Subgraph.Mapping.Permissions.{tag_name}

-- The sets of block numbers and the updates of versions.
abbrev pub IsRenamed : ℕ → Type 0
IsRenamed tag = (tag ≡ 0) ⊎ (tag ≡ 2)

-- A kind of message that keeps its name, where no other text has its number.
keeps_name :
    (tag : ℕ) (name : Str)
    → (¬ IsRenamed tag)
    → str_to_u64 name ≡ tag
    → ((s : Str) → str_to_u64 s ≡ tag → s ≡ name)
    → (¬ IsRenamed tag) × ((s : Str) → (str_to_u64 s ≡ tag) ↔ (s ≡ name))
keeps_name tag name kept numbered only = (kept, λ s. (only s, λ e. ap str_to_u64 e ∙ numbered))

-- The encoder takes the subgraph's name of a kind of message, and no other text, for that kind, but
-- for two of the seven kinds: the subgraph's names for setting block numbers and for updating
-- versions are 7 to the encoder, as any text that it does not know.
pub str_to_u64-tag_name :
    (tag : ℕ)
    → tag < 7
    → (IsRenamed tag × (str_to_u64 (tag_name tag) ≡ 7))
      ⊎ ((¬ IsRenamed tag) × ((s : Str) → (str_to_u64 s ≡ tag) ↔ (s ≡ tag_name tag)))
unfolding str_to_u64 tag_name str_compare
str_to_u64-tag_name zero h = inl (inl refl, refl)
str_to_u64-tag_name (suc zero) h = inr (
    keeps_name 1 (bytes_of "CorrectEpochsMessage") (λ renamed. omega (arith, renamed)) refl
      λ s e. ground (arith, eq_of_str_compare s (bytes_of "CorrectEpochsMessage")))
str_to_u64-tag_name (suc (suc zero)) h = inl (inr refl, refl)
str_to_u64-tag_name (suc (suc (suc zero))) h = inr (
    keeps_name 3 (bytes_of "RegisterNetworksMessage") (λ renamed. omega (arith, renamed)) refl
      λ s e. ground (arith, eq_of_str_compare s (bytes_of "RegisterNetworksMessage")))
str_to_u64-tag_name (suc (suc (suc (suc zero)))) h = inr (
    keeps_name 4 (bytes_of "ChangePermissionsMessage") (λ renamed. omega (arith, renamed)) refl
      λ s e. ground (arith, eq_of_str_compare s (bytes_of "ChangePermissionsMessage")))
str_to_u64-tag_name (suc (suc (suc (suc (suc zero))))) h = inr (
    keeps_name 5 (bytes_of "ResetStateMessage") (λ renamed. omega (arith, renamed)) refl
      λ s e. ground (arith, eq_of_str_compare s (bytes_of "ResetStateMessage")))
str_to_u64-tag_name (suc (suc (suc (suc (suc (suc zero)))))) h = inr (
    keeps_name 6 (bytes_of "RegisterNetworksAndAliasesMessage") (λ renamed. omega (arith, renamed))
      refl
      λ s e. ground (arith, eq_of_str_compare s (bytes_of "RegisterNetworksAndAliasesMessage")))
str_to_u64-tag_name (suc (suc (suc (suc (suc (suc (suc tag))))))) h = omega arith
