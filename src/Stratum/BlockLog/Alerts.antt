-- ===== src/Stratum/BlockLog/Alerts.antt =====
-- How often trackConfirmations of internal/stratum/server.go calls its callbacks.
use pipool.Base.{ℕ, ◌+◌, ◌≡◌, refl, arith, Bool, not, ◌&&◌}
use pipool.Base.{List, [], ◌∷◌, ◌++◌, Option, length, by_test, if◌then◌else◌}
use pipool.Go.Ints.{ℤ, below}
use pipool.Go.Strings.{str_eq}
use pipool.Stratum.BlockLog.{
  BlockEntry, BlockEvent, block_mature, block_orphaned, Update, coin_maturity_threshold,
  orphan_entry, confirm_entry, update_entry, update_by_all, update_log, confirmations_round,
  collect_updates,
}

abbrev pub matures : List BlockEvent → ℕ
matures [] = 0
matures (block_mature coin hash height reward ∷ events) = 1 + matures events
matures (block_orphaned coin hash height ∷ events) = matures events

abbrev pub orphans : List BlockEvent → ℕ
orphans [] = 0
orphans (block_mature coin hash height reward ∷ events) = orphans events
orphans (block_orphaned coin hash height ∷ events) = 1 + orphans events

matures-append : (xs ys : List BlockEvent) → matures (xs ++ ys) ≡ matures xs + matures ys
matures-append [] ys = omega arith
matures-append (block_mature coin hash height reward ∷ xs) ys = omega (arith, matures-append xs ys)
matures-append (block_orphaned coin hash height ∷ xs) ys = matures-append xs ys

orphans-append : (xs ys : List BlockEvent) → orphans (xs ++ ys) ≡ orphans xs + orphans ys
orphans-append [] ys = omega arith
orphans-append (block_mature coin hash height reward ∷ xs) ys = orphans-append xs ys
orphans-append (block_orphaned coin hash height ∷ xs) ys = omega (arith, orphans-append xs ys)

abbrev mark : Bool → ℕ
mark b = if b then 1 else 0

module _ {F : Type 0} where
  -- The entries that were notified as mature, and those that are orphans.
  abbrev pub notified : List (BlockEntry F) → ℕ
  notified [] = 0
  notified (e ∷ log) = (if e.mature_notified then 1 else 0) + notified log

  abbrev pub orphaned_entries : List (BlockEntry F) → ℕ
  orphaned_entries [] = 0
  orphaned_entries (e ∷ log) = (if e.is_orphaned then 1 else 0) + orphaned_entries log

  -- What an update marks in an entry is what it calls.
  record Marks (e : BlockEntry F) (after : BlockEntry F × List BlockEvent) : Type 0 where
    mature : mark after.0.mature_notified ≡ mark e.mature_notified + matures after.1
    orphan : mark after.0.is_orphaned ≡ mark e.is_orphaned + orphans after.1

  quiet-Marks : (e : BlockEntry F) → Marks e (e, [])
  quiet-Marks e = record { mature = omega arith; orphan = omega arith }

  orphan_entry-Marks : (e : BlockEntry F) → Marks e (orphan_entry e)
  unfolding orphan_entry
  orphan_entry-Marks e =
      by_test (Marks e) e.is_orphaned (λ old. quiet-Marks e)
        (λ new. record { mature = omega arith; orphan = ground (arith, new) })

  confirm_entry-Marks : (n : ℤ) (e : BlockEntry F) → Marks e (confirm_entry n e)
  unfolding confirm_entry
  confirm_entry-Marks n e =
      by_test (Marks e) (not e.mature_notified && not (below (coin_maturity_threshold e.coin) n))
        (λ due. record { mature = ground (arith, due); orphan = omega arith })
        (λ quiet. record { mature = omega arith; orphan = omega arith })

  update_entry-Marks : (u : Update) (e : BlockEntry F) → Marks e (update_entry u e)
  unfolding update_entry
  update_entry-Marks u e =
      by_test (Marks e) (not (str_eq e.hash u.hash)) (λ other. quiet-Marks e)
        (λ same.
          by_test (Marks e) u.orphaned (λ lost. orphan_entry-Marks e)
            (λ kept. confirm_entry-Marks u.confirmations e))

  update_by_all-Marks :
      (updates : List Update) (e : BlockEntry F) → Marks e (update_by_all updates e)
  unfolding update_by_all
  update_by_all-Marks [] e = quiet-Marks e
  update_by_all-Marks (u ∷ updates) e =
      let (next, events) = update_entry u e in
      let (last, more) = update_by_all updates next in
      let first = update_entry-Marks u e in
      let rest = update_by_all-Marks updates next in
      record {
        mature = omega (arith, first.mature, rest.mature, matures-append events more);
        orphan = omega (arith, first.orphan, rest.orphan, orphans-append events more);
      }

  update_log-counts :
      (updates : List Update) (log : List (BlockEntry F))
      → (notified (update_log updates log).0 ≡ notified log + matures (update_log updates log).1)
        × (orphaned_entries (update_log updates log).0
            ≡ orphaned_entries log + orphans (update_log updates log).1)
        × (length (update_log updates log).0 ≡ length log)
  unfolding update_log
  update_log-counts updates [] = (omega arith, omega arith, refl)
  update_log-counts updates (e ∷ log) =
      let (next, events) = update_by_all updates e in
      let (rest, more) = update_log updates log in
      let marks = update_by_all-Marks updates e in
      let (m, o, l) = update_log-counts updates log in
      (
        omega (arith, marks.mature, m, matures-append events more),
        omega (arith, marks.orphan, o, orphans-append events more),
        omega (arith, l),
      )

  confirmations_round-counts :
      (get_block : List ℕ → Option ℤ) (log : List (BlockEntry F))
      → (notified (confirmations_round get_block log).0
          ≡ notified log + matures (confirmations_round get_block log).1)
        × (orphaned_entries (confirmations_round get_block log).0
            ≡ orphaned_entries log + orphans (confirmations_round get_block log).1)
        × (length (confirmations_round get_block log).0 ≡ length log)
  unfolding confirmations_round
  confirmations_round-counts get_block log = update_log-counts (collect_updates get_block log) log

  -- Rounds, with the answers of the node to each.
  abbrev pub rounds :
      List (List ℕ → Option ℤ) → List (BlockEntry F) → List (BlockEntry F) × List BlockEvent
  rounds [] log = (log, [])
  rounds (get_block ∷ answers) log =
      let (next, events) = confirmations_round get_block log in
      let (last, more) = rounds answers next in (last, events ++ more)

  -- Over any rounds of trackConfirmations, whatever the node answers, the calls of OnBlockMature are as
  -- many as the entries that the rounds mark as notified, those of OnBlockOrphaned as many as the entries
  -- that they mark as orphans, and no entry is added or lost.
  pub rounds-counts :
      (answers : List (List ℕ → Option ℤ)) (log : List (BlockEntry F))
      → (notified (rounds answers log).0 ≡ notified log + matures (rounds answers log).1)
        × (orphaned_entries (rounds answers log).0
            ≡ orphaned_entries log + orphans (rounds answers log).1)
        × (length (rounds answers log).0 ≡ length log)
  rounds-counts [] log = (omega arith, omega arith, refl)
  rounds-counts (get_block ∷ answers) log =
      let (next, events) = confirmations_round get_block log in
      let (last, more) = rounds answers next in
      let (m, o, l) = confirmations_round-counts get_block log in
      let (m', o', l') = rounds-counts answers next in
      (
        omega (arith, m, m', matures-append events more),
        omega (arith, o, o', orphans-append events more),
        omega (arith, l, l'),
      )
