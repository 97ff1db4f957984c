-- ===== src/Subgraph/Mapping/Payloads.antt =====
-- The loop over the blocks in `processPayload` of packages/subgraph/src/mapping.ts, turn by turn.
use block_oracle.Prelude.{
  ℕ, zero, suc, ◌+◌, ◌<◌, ◌≡◌, refl, Bool, true, false, List, arith, ltb, ltb→lt, lt→ltb,
  if◌then◌else◌,
}
use block_oracle.Subgraph.Decoding.{BytesReader, remaining, advance}
use block_oracle.Subgraph.Decoding.Progress.{
  Moves, Moves-refl, Moves-trans, Moves-failed, Moves-remaining, advance-Moves,
}
use block_oracle.Subgraph.Tags.{collect_tags, decode_tags, get_tag, is_valid}
use block_oracle.Subgraph.Store.{StoreCache}
use block_oracle.Subgraph.Active.{Run, done, trapped, endless}
use block_oracle.Subgraph.Mapping.Progress.{choose, choose_to, MovesTo}
use block_oracle.Subgraph.Mapping.Progress.Messages.{process_messages-MovesTo}
use block_oracle.Subgraph.Mapping.{
  Context, PayloadEnd, committed, aborted, invalid, out_of_fuel, process_messages,
  process_message_block, process_message_blocks,
}

collect_tags-Moves :
    (count i : ℕ) (bytes : List ℕ) (r : BytesReader) → Moves r (collect_tags count i bytes r).1
unfolding collect_tags
collect_tags-Moves zero i bytes r = Moves-refl r
collect_tags-Moves (suc count) i bytes r =
    let r' : BytesReader = if is_valid (get_tag bytes i) then r else record r { ok = false } in
    Moves-trans
      (choose (λ s. s) (is_valid (get_tag bytes i)) r (record r { ok = false }) (Moves-refl r)
        (Moves-failed r))
      (collect_tags-Moves count (i + 1) bytes r')

decode_tags-Moves : (r : BytesReader) → Moves r (decode_tags r).1
unfolding decode_tags
decode_tags-Moves r = Moves-trans (advance-Moves 1 r) (collect_tags-Moves 2 0 (advance 1 r).0 _)

one_byte : (r : BytesReader) → 0 < remaining r → remaining (advance 1 r).1 < remaining r
unfolding advance remaining
one_byte r h = ground arith

-- The preamble takes a byte.
pub decode_tags-remaining :
    (r : BytesReader) → 0 < remaining r → remaining (decode_tags r).1 < remaining r
unfolding decode_tags
decode_tags-remaining r h =
    omega (
      arith,
      one_byte r h,
      Moves-remaining (collect_tags-Moves 2 0 (advance 1 r).0 (advance 1 r).1),
    )

pub process_message_block-MovesTo :
    (x : Context) (block : ℕ) (c : StoreCache) (r : BytesReader)
    → MovesTo (decode_tags r).1 (process_message_block x block c r)
unfolding process_message_block
process_message_block-MovesTo x block c r =
    let (tags, r') = decode_tags r in
    choose_to r' r'.ok (process_messages x block 0 tags c r') (done (c, r'))
      (process_messages-MovesTo x block 0 tags c r') (Moves-refl r')

-- What holds of a loop over the blocks after one turn.
pub turn_cases :
    (P : PayloadEnd → Type 0) (fuel : ℕ) (x : Context) (i : ℕ) (c : StoreCache) (r : BytesReader)
    → P (committed c)
    → P aborted
    → P invalid
    → (process_message_block x i c r ≡ endless → P out_of_fuel)
    → ((after : StoreCache × BytesReader)
        → 0 < remaining r
        → process_message_block x i c r ≡ done after
        → after.1.ok ≡ true
        → P (process_message_blocks fuel x (i + 1) after.0 after.1))
    → P (process_message_blocks (suc fuel) x i c r)
unfolding process_message_blocks
turn_cases P fuel x i c r finish trap stop run_out next =
    go (ltb 0 (remaining r)) (process_message_block x i c r) refl refl
  where
    after_block :
        (after : StoreCache × BytesReader)
        → 0 < remaining r
        → process_message_block x i c r ≡ done after
        → (ok : Bool) → after.1.ok ≡ ok
        → P (process_message_blocks (suc fuel) x i c r)
    after_block after more e true fine =
        rw (process_message_blocks, lt→ltb 0 (remaining r) more, e, fine) (next after more e fine)
    after_block after more e false failed =
        rw (process_message_blocks, lt→ltb 0 (remaining r) more, e, failed) stop

    go :
        (more : Bool) (o : Run (StoreCache × BytesReader))
        → ltb 0 (remaining r) ≡ more
        → process_message_block x i c r ≡ o
        → P (process_message_blocks (suc fuel) x i c r)
    go false o no_more e = rw (process_message_blocks, no_more) finish
    go true trapped more e = rw (process_message_blocks, more, e) trap
    go true endless more e = rw (process_message_blocks, more, e) (run_out e)
    go true (done after) more e = after_block after (ltb→lt 0 (remaining r) more) e after.1.ok refl
