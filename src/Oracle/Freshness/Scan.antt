-- ===== src/Oracle/Freshness/Scan.antt =====
-- What a scan of blocks finds, and when the subgraph counts as fresh: `subgraph_is_fresh` of
-- crates/oracle/src/runner/oracle.rs.
use block_oracle.Prelude.{
  ℕ, zero, suc, ◌+◌, ◌-◌, ◌≤◌, ◌<◌, ◌≡◌, ◌↔◌, ◌⊎◌, inl, inr, refl, ap, ◌∙◌, sym, true, false, List,
  [], ◌∷◌, ◌++◌, Option, none, some, arith, All, All-append, append-All, is_empty, ◌==◌, Bool-cases,
  le-or-lt,
}
use block_oracle.Prelude.Outcome.{ok, ◌>>=◌, >>=-eq-ok}
use block_oracle.Oracle.Freshness.{
  Provider, Block, Transaction, numbers_from, range_inclusive, fetch_blocks, collect_txs, is_call,
  retain_calls, calls_in_block_range, subgraph_is_fresh,
}

-- The provider has the block, and no transaction in it is a call of the contract by the owner.
abbrev pub IsQuiet : Provider → ℕ → ℕ → ℕ → Type 0
IsQuiet block_with_txs owner contract n =
    (block : Block) × (block_with_txs n ≡ ok (some block))
    × All (λ tx. is_call owner contract tx ≡ false) block.transactions

module _ (owner contract : ℕ) where
  none_retained :
      (txs : List Transaction)
      → retain_calls owner contract txs ≡ []
      → All (λ tx. is_call owner contract tx ≡ false) txs
  unfolding retain_calls
  none_retained [] h = tt
  none_retained (tx ∷ txs) h = elim (Bool-cases (is_call owner contract tx)) [
    | inl t ↦ ground arith
    | inr t ↦ (t, none_retained txs (ground arith))
  ]

  retains_none :
      (txs : List Transaction)
      → All (λ tx. is_call owner contract tx ≡ false) txs
      → retain_calls owner contract txs ≡ []
  unfolding retain_calls
  retains_none [] h = refl
  retains_none (tx ∷ txs) h = rw (h.0) (retains_none txs h.1)

  module _ (block_with_txs : Provider) where
    quiet_scan :
        (ns : List ℕ)
        → All (IsQuiet block_with_txs owner contract) ns
        → (blocks : List (Option Block)) × (txs : List Transaction) × (fetch_blocks block_with_txs
              ns
            ≡ ok blocks)
          × (collect_txs ns blocks ≡ ok txs)
          × All (λ tx. is_call owner contract tx ≡ false) txs
    unfolding fetch_blocks collect_txs
    quiet_scan [] h = ([], [], refl, refl, tt)
    quiet_scan (n ∷ ns) h =
        let (block, found, quiet) = h.0 in
        let (blocks, txs, fetched, collected, all_quiet) = quiet_scan ns h.1 in
        (
          some block ∷ blocks,
          block.transactions ++ txs,
          rw (found, fetched) refl,
          rw collected refl,
          All-append (λ tx. is_call owner contract tx ≡ false) block.transactions txs quiet
              all_quiet,
        )

    scan-IsQuiet :
        (ns : List ℕ) (blocks : List (Option Block)) (txs : List Transaction)
        → fetch_blocks block_with_txs ns ≡ ok blocks
        → collect_txs ns blocks ≡ ok txs
        → All (λ tx. is_call owner contract tx ≡ false) txs
        → All (IsQuiet block_with_txs owner contract) ns
    unfolding fetch_blocks collect_txs
    scan-IsQuiet [] blocks txs f h q = tt
    scan-IsQuiet (n ∷ ns) [] txs f h q =
        let (bo, e, f') = >>=-eq-ok (block_with_txs n) _ f in
        let (bs, e', f'') = >>=-eq-ok (fetch_blocks block_with_txs ns) _ f' in cc
    scan-IsQuiet (n ∷ ns) (none ∷ blocks) txs f h q = cc
    scan-IsQuiet (n ∷ ns) (some block ∷ blocks) txs f h q =
        let (bo, e, f') = >>=-eq-ok (block_with_txs n) _ f in
        let (bs, e', f'') = >>=-eq-ok (fetch_blocks block_with_txs ns) _ f' in
        let (ts, c, h') = >>=-eq-ok (collect_txs ns blocks) _ h in
        let whole : block.transactions ++ ts ≡ txs = ground arith in
        let (here, later) =
          append-All (λ tx. is_call owner contract tx ≡ false) block.transactions ts (rw whole q) in
        ((block, (cc), here), scan-IsQuiet ns blocks ts (cc) c later)

module _ {κ} (P : ℕ → Type κ) where
  All-of_range : (n lo : ℕ) → ((k : ℕ) → lo ≤ k → k < lo + n → P k) → All P (numbers_from n lo)
  unfolding numbers_from
  All-of_range zero lo h = tt
  All-of_range (suc n) lo h = (
    h lo (omega arith) (omega arith),
    All-of_range n (lo + 1) (λ k a b. h k (omega arith) (omega arith)),
  )

  range_of_All : (n lo : ℕ) → All P (numbers_from n lo) → (k : ℕ) → lo ≤ k → k < lo + n → P k
  unfolding numbers_from
  range_of_All zero lo h k a b = absurd (omega arith)
  range_of_All (suc n) lo h k a b = elim (Bool-cases (k == lo)) [
    | inl t ↦ let e : k ≡ lo = ground arith in rw e (h.0)
    | inr t ↦ range_of_All n (lo + 1) h.1 k (ground arith) (omega arith)
  ]

is_empty_iff {ℓ} : {A : Type ℓ} (xs : List A) → (is_empty xs ≡ true) ↔ (xs ≡ [])
is_empty_iff [] = (λ e. refl, λ e. refl)
is_empty_iff (x ∷ xs) = (λ e. cc, λ e. cc)

module _ (block_with_txs : Provider) (owner contract lo hi : ℕ) where
  -- A scan that finds no call.
  no_calls :
      ((n : ℕ) → lo ≤ n → n ≤ hi → IsQuiet block_with_txs owner contract n)
      → calls_in_block_range block_with_txs lo hi owner contract ≡ ok []
  unfolding calls_in_block_range
  no_calls h =
      let quiet =
        All-of_range (IsQuiet block_with_txs owner contract) (suc hi - lo) lo
          (λ k a b. h k a (omega arith)) in
      let (blocks, txs, fetched, collected, none_calls) =
        quiet_scan owner contract block_with_txs (range_inclusive lo hi) quiet in
      rw (fetched, collected, retains_none owner contract txs none_calls) refl

  no_calls_back :
      calls_in_block_range block_with_txs lo hi owner contract ≡ ok []
      → (n : ℕ) → lo ≤ n
      → n ≤ hi
      → IsQuiet block_with_txs owner contract n
  unfolding calls_in_block_range
  no_calls_back h n a b =
      let (blocks, fetched, h') =
        >>=-eq-ok (fetch_blocks block_with_txs (range_inclusive lo hi)) _ h in
      let (txs, collected, h'') = >>=-eq-ok (collect_txs (range_inclusive lo hi) blocks) _ h' in
      let empty : retain_calls owner contract txs ≡ [] = ground arith in
      let quiet =
        scan-IsQuiet owner contract block_with_txs (range_inclusive lo hi) blocks txs fetched
          collected (none_retained owner contract txs empty) in
      range_of_All (IsQuiet block_with_txs owner contract) (suc hi - lo) lo quiet n a (omega arith)

module _ (latest current : ℕ) (block_with_txs : Provider) (owner contract threshold : ℕ) where
  -- Behind the chain, but within the threshold.
  fresh_of_scan :
      latest < current
      → current - latest ≤ threshold
      → subgraph_is_fresh latest current block_with_txs owner contract threshold ≡ (
          calls_in_block_range block_with_txs latest current owner contract >>= λ calls.
          ok (is_empty calls))
  unfolding subgraph_is_fresh
  fresh_of_scan h h' = ground arith

  fresh_near :
      latest < current
      → subgraph_is_fresh latest current block_with_txs owner contract threshold ≡ ok true
      → current - latest ≤ threshold
  unfolding subgraph_is_fresh
  fresh_near h e = ground arith

  fresh_ahead :
      current ≤ latest
      → subgraph_is_fresh latest current block_with_txs owner contract threshold ≡ ok true
  unfolding subgraph_is_fresh
  fresh_ahead h = ground arith

  scan_found_none :
      (calls_in_block_range block_with_txs latest current owner contract >>= λ calls.
      ok (is_empty calls))
        ≡ ok true
      → calls_in_block_range block_with_txs latest current owner contract ≡ ok []
  scan_found_none h =
      let (calls, e, h') =
        >>=-eq-ok (calls_in_block_range block_with_txs latest current owner contract) _ h in
      let none_found : calls ≡ [] = (is_empty_iff calls).0 (ground arith) in e ∙ ap ok none_found

-- The subgraph counts as fresh exactly if it is not behind the chain, or it is behind by at most the
-- threshold and every block from its latest one up to the chain's, both included, is there and has no
-- call of the contract by the owner.
pub subgraph_is_fresh_iff :
    (latest current : ℕ) (block_with_txs : Provider) (owner contract threshold : ℕ)
    → (subgraph_is_fresh latest current block_with_txs owner contract threshold ≡ ok true) ↔ (
        (current ≤ latest)
        ⊎ ((current - latest ≤ threshold)
            × ((n : ℕ) → latest ≤ n → n ≤ current → IsQuiet block_with_txs owner contract n)))
subgraph_is_fresh_iff latest current block_with_txs owner contract threshold = (
  λ h. elim (le-or-lt current latest) [
    | inl ahead ↦ inl ahead
    | inr behind ↦
        let near = fresh_near latest current block_with_txs owner contract threshold behind h in
        let scanned =
          fresh_of_scan latest current block_with_txs owner contract threshold behind near in
        inr (
          near,
          no_calls_back block_with_txs owner contract latest current (
              scan_found_none latest current block_with_txs owner contract threshold
                (sym scanned ∙ h)),
        )
  ],
  λ h. elim (le-or-lt current latest) [
    | inl ahead ↦ fresh_ahead latest current block_with_txs owner contract threshold ahead
    | inr behind ↦ elim h [
      | inl ahead ↦ absurd (omega arith)
      | inr (near, quiet) ↦
          fresh_of_scan latest current block_with_txs owner contract threshold behind near
          ∙ rw (no_calls block_with_txs owner contract latest current quiet) refl
    ]
  ],
)
