-- ===== src/Stratum/BlockLog/Tests.antt =====
-- The block log at work: a block matures, and another is orphaned.
use pipool.Base.{ℕ, ◌+◌, ◌≡◌, refl, if◌then◌else◌, List, [], ◌∷◌, Option, some, length, last_n}
use pipool.Go.Ints.{ℤ, pos, negsuc, is_negative, below}
use pipool.Go.Strings.{codes, str_eq, to_upper}
use pipool.Toy.{whole}
use pipool.Stratum.BlockLog.{
  BlockEntry, block_mature, block_orphaned, append_block, record_own_block, coin_maturity_threshold,
  needs_check, collect_updates, orphan_entry, confirm_entry, update_entry, update_by_all,
  update_log, confirmations_round,
}
use pipool.Stratum.BlockLog.Alerts.{
  matures, orphans, notified, orphaned_entries, rounds, rounds-counts,
}

abbrev doge : List ℕ
doge = codes "DOGE"

abbrev block_log : List (BlockEntry ℕ)
block_log =
    record_own_block whole doge 2 (codes "b2") 8 5 [] 1
      (record_own_block whole doge 1 (codes "b1") 7 5 [] 1 [])

-- The node's answers: the first block has 60 confirmations, and the second is lost.
abbrev answer : List ℕ → Option ℤ
answer hash = if str_eq hash (codes "b1") then some (pos 60) else some (negsuc 0)

abbrev answers : List (List ℕ → Option ℤ)
answers = answer ∷ answer ∷ []

rounds-counts_example :
    (notified (rounds answers block_log).0
      ≡ notified block_log + matures (rounds answers block_log).1)
    × (orphaned_entries (rounds answers block_log).0
        ≡ orphaned_entries block_log + orphans (rounds answers block_log).1)
    × (length (rounds answers block_log).0 ≡ length block_log)
rounds-counts_example = rounds-counts answers block_log

-- In two rounds, each is told once.
rounds-test :
    (rounds answers block_log).1
    ≡ block_mature doge (codes "b1") 7 (5 ∷ b' ' ∷ doge) ∷ block_orphaned doge (codes "b2") 8 ∷ []
unfolding is_negative below str_eq to_upper last_n append_block record_own_block
    coin_maturity_threshold needs_check collect_updates orphan_entry confirm_entry update_entry
    update_by_all update_log confirmations_round
rounds-test = refl
