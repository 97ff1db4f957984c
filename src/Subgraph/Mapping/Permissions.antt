-- ===== src/Subgraph/Mapping/Permissions.antt =====
-- packages/subgraph/src/mapping.ts and helpers.ts: who may submit what.
use block_oracle.Prelude.{
  ℕ, zero, suc, ◌+◌, ◌-◌, ◌/◌, ◌%◌, Bool, true, false, ◌||◌, List, [], ◌∷◌, ◌++◌, Option, none,
  some, ltb, ◌==◌, if◌then◌else◌,
}
use block_oracle.Prelude.Int.{ℤ, pos, negsuc}
use block_oracle.Prelude.Text.{Str, str_eq, bytes_of}
use block_oracle.Subgraph.Decoding.{BytesReader, advance, decode_u64}
use block_oracle.Subgraph.Store.{StoreCache, get_permission_list_entry, put_permission_list_entry}
use block_oracle.Subgraph.Active.{Run, done, trapped, fail}
use block_oracle.Subgraph.Mapping.Registry.{as_i32, rounds}

-- `MessageTag.toString`; the array has seven names.
unfoldable pub tag_name : ℕ → Str
tag_name zero = bytes_of "SetBlockNumbersForEpochMessage"
tag_name (suc zero) = bytes_of "CorrectEpochsMessage"
tag_name (suc (suc zero)) = bytes_of "UpdateVersionsMessage"
tag_name (suc (suc (suc zero))) = bytes_of "RegisterNetworksMessage"
tag_name (suc (suc (suc (suc zero)))) = bytes_of "ChangePermissionsMessage"
tag_name (suc (suc (suc (suc (suc zero))))) = bytes_of "ResetStateMessage"
tag_name (suc (suc (suc (suc (suc (suc tag)))))) = bytes_of "RegisterNetworksAndAliasesMessage"

unfoldable pub includes : List Str → Str → Bool
includes [] s = false
includes (t ∷ ts) s = str_eq t s || includes ts s

-- `list.splice(list.indexOf(s), 1)`, for a text that the list has.
unfoldable pub remove_first : List Str → Str → List Str
remove_first [] s = []
remove_first (t ∷ ts) s = if str_eq t s then ts else t ∷ remove_first ts s

-- An entry is valid for ever (0), or up to a block.
unfoldable pub valid_entries : StoreCache → ℕ → List Str → List Str
valid_entries c block_number [] = []
valid_entries c block_number (id ∷ ids) =
    let entry = get_permission_list_entry id c in
    if entry.valid_through == 0 || ltb block_number entry.valid_through
    then id ∷ valid_entries c block_number ids
    else valid_entries c block_number ids

unfoldable pub is_submitter_allowed : StoreCache → Str → ℕ → Bool
unfolding valid_entries includes
is_submitter_allowed c submitter block_number =
    includes (valid_entries c block_number c.state.permission_list) submitter

unfoldable pub does_submitter_have_permission : StoreCache → Str → Str → Bool
unfolding includes
does_submitter_have_permission c submitter permission_required =
    includes (get_permission_list_entry submitter c).permissions permission_required

abbrev hex_digit : ℕ → ℕ
hex_digit d = if ltb d 10 then b'0' + d else b'a' + (d - 10)

-- `toHexString`
unfoldable pub hex_digits : List ℕ → Str
hex_digits [] = []
hex_digits (b ∷ bs) = hex_digit (b / 16) ∷ hex_digit (b % 16) ∷ hex_digits bs

abbrev pub to_hex_string : List ℕ → Str
to_hex_string bytes = bytes_of "0x" ++ hex_digits bytes

-- `MessageTag.isValid`, where the name can be looked up afterwards.
abbrev pub index_is_valid : ℤ → Option Bool
index_is_valid (pos k) = some (ltb k 7)
index_is_valid (negsuc k) = none

abbrev pub cons_if : Bool → Str → List Str → List Str
cons_if true name names = name ∷ names
cons_if false name names = names

-- The loop over the permissions. It goes on after a failure; a negative index passes the test and
-- then traps.
unfoldable pub decode_permissions : ℕ → BytesReader → Option (List Str × BytesReader)
unfolding tag_name
decode_permissions zero r = some ([], r)
decode_permissions (suc count) r =
    let (value, r') = decode_u64 r in
    elim (index_is_valid (as_i32 value)) [
      | none ↦ none
      | some is_valid ↦ elim (decode_permissions count (if is_valid then r' else fail r')) [
        | none ↦ none
        | some (names, r'') ↦ some (cons_if is_valid (tag_name (rounds (as_i32 value))) names, r'')
      ]
    ]

-- An entry goes to the list with its first message, and leaves it with one that grants nothing.
abbrev updated_list : List Str → Str → ℤ → List Str
updated_list list id count =
    if includes list id
    then elim count [ pos n ↦ (if n == 0 then remove_first list id else list) | negsuc n ↦ list ]
    else list ++ (id ∷ [])

abbrev pub grant : Str → ℕ → ℤ → List Str → StoreCache → StoreCache
grant id valid_through count permissions c =
    record (put_permission_list_entry id
      (record { permissions = permissions; valid_through = valid_through }) c) {
        state = record c.state { permission_list = updated_list c.state.permission_list id count };
      }

unfoldable pub execute_change_permissions :
    StoreCache → BytesReader → Run (StoreCache × BytesReader)
unfolding decode_permissions includes remove_first hex_digits put_permission_list_entry
execute_change_permissions c r =
    let (address, r₁) = advance 20 r in
    let (valid_through, r₂) = decode_u64 r₁ in
    let (count, r₃) = decode_u64 r₂ in
    if r₂.ok
    then if r₃.ok
      then elim (decode_permissions (rounds (as_i32 count)) r₃) [
        | none ↦ trapped
        | some (permissions, r₄) ↦
            done (grant (to_hex_string address) valid_through (as_i32 count) permissions c, r₄)
      ]
      else done (c, r₃)
    else done (c, r₂)
