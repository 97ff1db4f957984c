-- ===== src/Subgraph/Events/Multisig.antt =====
-- `getEventFromReceipt` of packages/subgraph/src/helpers.ts: which log is taken for the multisig's.
use native.Mathlib.Nat.{eq-or-lt_of_le}
use mathlib.Core.Path.{subst}
use block_oracle.Prelude.{
  ℕ, zero, suc, ◌<◌, ◌≡◌, refl, sym, Bool, true, List, [], ◌∷◌, Option, none, some, arith,
  get_elem?, Bool-cases, inl, inr, ◌==◌, ==_iff, ◌⊎◌,
}
use block_oracle.Subgraph.Events.{
  Log, Search, desired, previous, trap, search_logs, get_event_from_receipt,
}

module _ {Topic : Type 0} where
  -- A log among others with an index and a first topic that passes a test.
  abbrev pub HasLog : (Topic → Bool) → ℕ → List (Log Topic) → Log Topic → Type 0
  HasLog test index logs l =
      (k : ℕ) × (topic : Topic) × (topics : List Topic) × (get_elem? logs k ≡ some l)
      × (l.log_index ≡ index)
      × (l.topics ≡ topic ∷ topics)
      × (test topic ≡ true)

  later :
      (test : Topic → Bool) (index : ℕ) (l : Log Topic) (logs : List (Log Topic)) (m : Log Topic)
      → HasLog test index logs m
      → HasLog test index (l ∷ logs) m
  later test index l logs m (k, topic, topics, at, same, first, passes) =
      (suc k, topic, topics, at, same, first, passes)

  module _ (is_safe is_log : Topic → Bool) where
    -- What a search with a log found before says.
    abbrev Says : ℕ → List (Log Topic) → Option (Log Topic) → Search Topic → Type 0
    Says index logs found (desired none) = Unit
    Says index logs found (desired (some m)) = (found ≡ some m) ⊎ HasLog is_safe index logs m
    Says index logs found previous = (m : Log Topic) × HasLog is_log index logs m
    Says index logs found trap = Unit

    Says-later :
        (index : ℕ) (l : Log Topic) (logs : List (Log Topic)) (found : Option (Log Topic))
        (s : Search Topic)
        → Says index logs found s
        → Says index (l ∷ logs) found s
    Says-later index l logs found (desired none) h = tt
    Says-later index l logs found (desired (some m)) (inl before) = inl before
    Says-later index l logs found (desired (some m)) (inr h) = inr (later is_safe index l logs m h)
    Says-later index l logs found previous (m, h) = (m, later is_log index l logs m h)
    Says-later index l logs found trap h = tt

    -- The log that was found last is among the logs.
    Says-found :
        (index : ℕ) (l : Log Topic) (logs : List (Log Topic)) (found : Option (Log Topic))
        (s : Search Topic)
        → HasLog is_safe index (l ∷ logs) l
        → Says index logs (some l) s
        → Says index (l ∷ logs) found s
    Says-found index l logs found (desired none) here h = tt
    Says-found index l logs found (desired (some m)) here (inl same) =
        let same' : l ≡ m = cc in inr (rw (← same') here)
    Says-found index l logs found (desired (some m)) here (inr h) =
        inr (later is_safe index l logs m h)
    Says-found index l logs found previous here (m, h) = (m, later is_log index l logs m h)
    Says-found index l logs found trap here h = tt

    search_logs_safe :
        (index : ℕ) (l : Log Topic) (logs : List (Log Topic)) (found : Option (Log Topic))
        (topic : Topic) (topics : List Topic)
        → (l.log_index == index) ≡ true
        → l.topics ≡ topic ∷ topics
        → is_safe topic ≡ true
        → search_logs is_safe is_log index (l ∷ logs) found
          ≡ search_logs is_safe is_log index logs (some l)
    unfolding search_logs
    search_logs_safe index l logs found topic topics same first safe =
        simp (search_logs, same, first, safe)

    search_logs-Says :
        (index : ℕ) (logs : List (Log Topic)) (found : Option (Log Topic))
        → Says index logs found (search_logs is_safe is_log index logs found)
    unfolding search_logs
    search_logs-Says index [] none = tt
    search_logs-Says index [] (some m) = inl refl
    search_logs-Says index (l ∷ logs) found = elim (Bool-cases (l.log_index == index)) [
      | inr other ↦
          rw (search_logs, other)
            (Says-later index l logs found _ (search_logs-Says index logs found))
      | inl same ↦
          topic_cases l.topics refl ((==_iff l.log_index index).0 same) same
            (search_logs-Says index logs found) (search_logs-Says index logs (some l))
    ]
      where
        topic_cases :
            (topics : List Topic)
            → l.topics ≡ topics
            → l.log_index ≡ index
            → (l.log_index == index) ≡ true
            → Says index logs found (search_logs is_safe is_log index logs found)
            → Says index logs (some l) (search_logs is_safe is_log index logs (some l))
            → Says index (l ∷ logs) found (search_logs is_safe is_log index (l ∷ logs) found)
        topic_cases [] e at same go_on go_on_with = rw (search_logs, same, e) tt
        topic_cases (topic ∷ topics) e at same go_on go_on_with =
            elim (Bool-cases (is_safe topic)) [
              | inl safe ↦
                  subst (Says index (l ∷ logs) found)
                    (sym (search_logs_safe index l logs found topic topics same e safe))
                    (Says-found index l logs found (search_logs is_safe is_log index logs (some l))
                      (0, topic, topics, refl, at, e, safe) go_on_with)
              | inr not_safe ↦ elim (Bool-cases (is_log topic)) [
                | inl log ↦
                    let back : search_logs is_safe is_log index (l ∷ logs) found ≡ previous =
                      rw (search_logs, same, e, not_safe, log) refl in
                    subst (Says index (l ∷ logs) found) (sym back)
                      (l, (0, topic, topics, refl, at, e, log))
                | inr not_log ↦
                    let further : search_logs is_safe is_log index (l ∷ logs) found
                        ≡ search_logs is_safe is_log index logs found =
                      rw (search_logs, same, e, not_safe, not_log) refl in
                    subst (Says index (l ∷ logs) found) (sym further) (
                      Says-later index l logs found (search_logs is_safe is_log index logs found)
                        go_on)
              ]
            ]

    -- The log that is taken for the multisig's is a log of the receipt below the bound with the
    -- multisig's topic, and every index between has a log of the oracle.
    pub get_event_from_receipt_lem :
        (logs : List (Log Topic)) (bound : ℕ) (m : Log Topic)
        → get_event_from_receipt is_safe is_log (some logs) bound ≡ some (some m)
        → (index : ℕ) × (index < bound)
          × HasLog is_safe index logs m
          × ((j : ℕ) → index < j → j < bound → (l : Log Topic) × HasLog is_log j logs l)
    unfolding get_event_from_receipt
    get_event_from_receipt_lem logs zero m e = let no : some none ≡ some (some m) = e in cc
    get_event_from_receipt_lem logs (suc bound) m e =
        go (search_logs is_safe is_log bound logs none) refl (search_logs-Says bound logs none)
          (get_event_from_receipt_lem logs bound m)
      where
        go :
            (s : Search Topic)
            → search_logs is_safe is_log bound logs none ≡ s
            → Says bound logs none s
            → (get_event_from_receipt is_safe is_log (some logs) bound ≡ some (some m)
                → (index : ℕ) × (index < bound)
                  × HasLog is_safe index logs m
                  × ((j : ℕ) → index < j → j < bound → (l : Log Topic) × HasLog is_log j logs l))
            → (index : ℕ) × (index < suc bound)
              × HasLog is_safe index logs m
              × ((j : ℕ) → index < j → j < suc bound → (l : Log Topic) × HasLog is_log j logs l)
        go (desired none) s says before =
            let no : some none ≡ some (some m) = rw (get_event_from_receipt, s) at e in cc
        go (desired (some l)) s (inl before_none) before =
            let no : none ≡ some l = before_none in cc
        go (desired (some l)) s (inr here) before =
            let out : some (some l) ≡ some (some m) = rw (get_event_from_receipt, s) at e in
            let out' : some l ≡ some m = cc in
            let same : l ≡ m = cc in
            (
              bound,
              omega arith,
              subst (HasLog is_safe bound logs) same here,
              λ j above below. absurd (omega arith),
            )
        go trap s says before =
            let no : none ≡ some (some m) = rw (get_event_from_receipt, s) at e in cc
        go previous s says before =
            let (index, below, here, between) = before (rw (get_event_from_receipt, s) at e) in
            (
              index,
              omega arith,
              here,
              λ j above under. elim (eq-or-lt_of_le (omega arith)) [
                | inl last ↦ subst (λ i. (l : Log Topic) × HasLog is_log i logs l) (sym last) says
                | inr under' ↦ between j above under'
              ],
            )
