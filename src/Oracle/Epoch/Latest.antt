-- ===== src/Oracle/Epoch/Latest.antt =====
-- The assertion at the end of `get_latest_blockmeta_blocks` of
-- crates/oracle/src/blockmeta/blockmeta_client.rs.
use block_oracle.Prelude.{suc, ◌+◌, ◌≤◌, ◌<◌, ◌≡◌, List, [], ◌∷◌, arith, length}
use block_oracle.Prelude.Outcome.{panic}
use block_oracle.Prelude.Text.{Str}
use block_oracle.Prelude.TreeMap.{TreeMap, insert, extend}
use block_oracle.Oracle.Epoch.{
  BlockmetaAnswer, head, not_found, request_failed, answered, get_latest_blockmeta_blocks,
}

length-insert {ℓ} :
    {V : Type ℓ} (k : Str) (v : V) (m : TreeMap V) → length (insert k v m) ≤ suc (length m)
unfolding insert
length-insert k v [] = omega arith
length-insert k v (e ∷ m) = ground (arith, length-insert k v m)

length-extend {ℓ} : {V : Type ℓ} (es m : TreeMap V) → length (extend m es) ≤ length m + length es
unfolding extend
length-extend [] m = omega arith
length-extend (e ∷ es) m =
    omega (arith, length-extend es (insert e.0 e.1 m), length-insert e.0 e.1 m)

-- Some request has failed.
abbrev pub SomeFailed : List (Str × BlockmetaAnswer) → Type 0
SomeFailed [] = ⊥
SomeFailed ((id, head block) ∷ answers) = SomeFailed answers
SomeFailed ((id, not_found) ∷ answers) = SomeFailed answers
SomeFailed ((id, request_failed) ∷ answers) = Unit

answered-le : (answers : List (Str × BlockmetaAnswer)) → length (answered answers) ≤ length answers
unfolding answered
answered-le [] = omega arith
answered-le ((id, head block) ∷ answers) = omega (arith, answered-le answers)
answered-le ((id, not_found) ∷ answers) = omega (arith, answered-le answers)
answered-le ((id, request_failed) ∷ answers) = omega (arith, answered-le answers)

answered-lt :
    (answers : List (Str × BlockmetaAnswer))
    → SomeFailed answers
    → length (answered answers) < length answers
unfolding answered
answered-lt [] h = elim h [ ]
answered-lt ((id, head block) ∷ answers) h = omega (arith, answered-lt answers h)
answered-lt ((id, not_found) ∷ answers) h = omega (arith, answered-lt answers h)
answered-lt ((id, request_failed) ∷ answers) h = omega (arith, answered-le answers)

-- One failed request to a Blockmeta service makes the whole call panic, whatever the others answer.
pub failed_request_panics :
    (answers : List (Str × BlockmetaAnswer))
    → SomeFailed answers
    → get_latest_blockmeta_blocks answers ≡ panic
unfolding get_latest_blockmeta_blocks
failed_request_panics answers h =
    ground (arith, length-extend (answered answers) [], answered-lt answers h)
