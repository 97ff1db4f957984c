-- ===== src/Oracle/ChainId.antt =====
-- crates/oracle/src/models.rs: CAIP-2 chain identifiers. Text is its UTF-8 bytes: a character is ASCII
-- alphanumeric exactly if it is one byte that is, and ':' is one byte.
use block_oracle.Prelude.{
  ℕ, ◌≤◌, ◌≡◌, refl, ap, ◌∙◌, Bool, true, false, ◌&&◌, ◌||◌, List, [], ◌∷◌, ◌++◌, Option, none,
  some, arith, length, All, leb, ◌==◌, if◌then◌else◌, Bool-cases, inl, inr,
}
use block_oracle.Prelude.Outcome.{Outcome, ok, err, ◌>>=◌, expect}
use block_oracle.Prelude.Text.{Str}

abbrev pub separator : ℕ
separator = b':'

pub record Caip2ChainId : Type 0 where
  pub chain_id : Str

-- `s.split(':')`: the parts, of which there is always one more than there are separators.
unfoldable pub split_parts : Str → Str × List Str
split_parts [] = ([], [])
split_parts (c ∷ s) =
    let (first, others) = split_parts s in
    if c == separator then ([], first ∷ others) else (c ∷ first, others)

abbrev pub split : Str → List Str
split s = let (first, others) = split_parts s in first ∷ others

unfoldable pub is_alphanumeric_or_hyphen : ℕ → Bool
is_alphanumeric_or_hyphen c =
    leb b'0' c && leb c b'9' || leb b'A' c && leb c b'Z' || leb b'a' c && leb c b'z' || c == b'-'

unfoldable pub all_alphanumeric_or_hyphen : Str → Bool
unfolding is_alphanumeric_or_hyphen
all_alphanumeric_or_hyphen [] = true
all_alphanumeric_or_hyphen (c ∷ s) = is_alphanumeric_or_hyphen c && all_alphanumeric_or_hyphen s

-- The tests on the two parts.
unfoldable pub has_valid_parts : List Str → Bool
unfolding all_alphanumeric_or_hyphen
has_valid_parts (namespace ∷ reference ∷ []) =
    leb 3 (length namespace)
    && leb (length namespace) 8
    && all_alphanumeric_or_hyphen namespace
    && leb 1 (length reference)
    && leb (length reference) 32
    && all_alphanumeric_or_hyphen reference
has_valid_parts parts = false

-- `FromStr::from_str`; the error is the text "Invalid chain id".
pub data ParseError : Type 0 where
  invalid_chain_id : ParseError

unfoldable pub from_str : Str → Outcome ParseError Caip2ChainId
unfolding has_valid_parts split_parts
from_str s =
    if has_valid_parts (split s) then ok (record { chain_id = s }) else err invalid_chain_id

-- `split_once(':')`
unfoldable pub split_once : Str → Option (Str × Str)
split_once [] = none
split_once (c ∷ s) =
    if c == separator
    then some ([], s)
    else elim (split_once s) [ none ↦ none | some p ↦ some (c ∷ p.0, p.1) ]

unfoldable pub namespace_part : Caip2ChainId → Outcome ParseError Str
unfolding split_once
namespace_part id = expect (split_once id.chain_id) >>= λ p. ok p.0

unfoldable pub reference_part : Caip2ChainId → Outcome ParseError Str
unfolding split_once
reference_part id = expect (split_once id.chain_id) >>= λ p. ok p.1

-- A part of an identifier: letters, digits and hyphens, of a length in the given range.
abbrev pub IsPart : ℕ → ℕ → Str → Type 0
IsPart lo hi s = (lo ≤ length s) × (length s ≤ hi) × All (λ c. is_alphanumeric_or_hyphen c ≡ true) s

All-alphanumeric :
    (s : Str)
    → all_alphanumeric_or_hyphen s ≡ true
    → All (λ c. is_alphanumeric_or_hyphen c ≡ true) s
unfolding all_alphanumeric_or_hyphen
All-alphanumeric [] h = tt
All-alphanumeric (c ∷ s) h = (ground arith, All-alphanumeric s (ground arith))

All-alphanumeric_back :
    (s : Str)
    → All (λ c. is_alphanumeric_or_hyphen c ≡ true) s
    → all_alphanumeric_or_hyphen s ≡ true
unfolding all_alphanumeric_or_hyphen
All-alphanumeric_back [] h = refl
All-alphanumeric_back (c ∷ s) h = rw (h.0) (All-alphanumeric_back s h.1)

no_separator : (s b : Str) → split_parts s ≡ (b, []) → s ≡ b
unfolding split_parts
no_separator [] b h = cc
no_separator (c ∷ s) b h = elim (Bool-cases (c == separator)) [
  | inl t ↦ ground arith
  | inr t ↦ ap (λ (x : Str). c ∷ x) (no_separator s (split_parts s).0 (ground arith)) ∙ ground arith
]

-- Two parts are what stands around the first separator.
split_once_of_parts :
    (s a b : Str)
    → split_parts s ≡ (a, b ∷ [])
    → (split_once s ≡ some (a, b)) × (s ≡ a ++ (separator ∷ b))
unfolding split_parts split_once
split_once_of_parts [] a b h = cc
split_once_of_parts (c ∷ s) a b h = elim (Bool-cases (c == separator)) [
  | inl t ↦
      let whole : s ≡ b = no_separator s b (ground arith) in (ground arith, ground (arith, whole))
  | inr t ↦
      let rest = split_once_of_parts s (split_parts s).0 b (ground arith) in
      let first : c ∷ (split_parts s).0 ≡ a = ground arith in
      (ground (arith, rest.0), rw (← first) (ap (λ (x : Str). c ∷ x) rest.1))
]

parts_of_valid :
    (s : Str)
    → has_valid_parts (split s) ≡ true
    → (a b : Str) × (split_parts s ≡ (a, b ∷ [])) × IsPart 3 8 a × IsPart 1 32 b
unfolding has_valid_parts
parts_of_valid s h = go (split_parts s) refl h
  where
    go :
        (p : Str × List Str)
        → split_parts s ≡ p
        → has_valid_parts (p.0 ∷ p.1) ≡ true
        → (a b : Str) × (split_parts s ≡ (a, b ∷ [])) × IsPart 3 8 a × IsPart 1 32 b
    go (a, []) e v = cc
    go (a, b ∷ []) e v = (
      a,
      b,
      e,
      (ground arith, ground arith, All-alphanumeric a (ground arith)),
      (ground arith, ground arith, All-alphanumeric b (ground arith)),
    )
    go (a, b ∷ c ∷ cs) e v = cc

-- A text that is accepted as a chain identifier is kept whole, and reading its two parts never
-- panics: they are what stands before and after its only separator, 3 to 8 and 1 to 32 letters,
-- digits and hyphens.
pub from_str_lem :
    (s : Str) (id : Caip2ChainId)
    → from_str s ≡ ok id
    → (ns reference : Str) × (namespace_part id ≡ ok ns)
      × (reference_part id ≡ ok reference)
      × (id.chain_id ≡ s)
      × (s ≡ ns ++ (separator ∷ reference))
      × IsPart 3 8 ns
      × IsPart 1 32 reference
unfolding from_str namespace_part reference_part
from_str_lem s id h =
    let valid : has_valid_parts (split s) ≡ true = ground arith in
    let whole : id.chain_id ≡ s = ground arith in
    let (a, b, e, ha, hb) = parts_of_valid s valid in
    let (once, around) = split_once_of_parts s a b e in
    (a, b, rw (whole, once) refl, rw (whole, once) refl, whole, around, ha, hb)

not_separator : (c : ℕ) → is_alphanumeric_or_hyphen c ≡ true → (c == separator) ≡ false
unfolding is_alphanumeric_or_hyphen
not_separator c h = ground arith

split_parts_one :
    (s : Str) → All (λ c. is_alphanumeric_or_hyphen c ≡ true) s → split_parts s ≡ (s, [])
unfolding split_parts
split_parts_one [] h = refl
split_parts_one (c ∷ s) h = rw (not_separator c h.0, split_parts_one s h.1) refl

split_parts_two :
    (ns reference : Str)
    → All (λ c. is_alphanumeric_or_hyphen c ≡ true) ns
    → All (λ c. is_alphanumeric_or_hyphen c ≡ true) reference
    → split_parts (ns ++ (separator ∷ reference)) ≡ (ns, reference ∷ [])
unfolding split_parts
split_parts_two [] reference hn hr = rw (split_parts_one reference hr) refl
split_parts_two (c ∷ cs) reference hn hr =
    rw (not_separator c hn.0, split_parts_two cs reference hn.1 hr) refl

-- Two parts of the right lengths, of letters, digits and hyphens, make a chain identifier.
pub from_str_of_parts :
    (ns reference : Str)
    → IsPart 3 8 ns
    → IsPart 1 32 reference
    → from_str (ns ++ (separator ∷ reference))
      ≡ ok (record { chain_id = ns ++ (separator ∷ reference) })
unfolding from_str has_valid_parts
from_str_of_parts ns reference hn hr =
    rw (split_parts_two ns reference hn.2 hr.2)
      (ground (arith, All-alphanumeric_back ns hn.2, All-alphanumeric_back reference hr.2))
