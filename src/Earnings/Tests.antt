-- ===== src/Earnings/Tests.antt =====
-- The earnings at work on small inputs.
use mathlib.Core.List.Permᴰ
use pipool.Base.{ℕ, ◌+◌, ◌≡◌, refl, true, false, List, [], ◌∷◌, Option, none, some, take}
use pipool.Go.Ints.{pos, negsuc, add_one, is_positive, is_zero}
use pipool.Go.Maps.{lookup, insert}
use pipool.Go.Strings.{codes, str_eq, to_upper}
use pipool.Toy.{whole}
use pipool.Earnings.State.{
  BlockLogEntry, EarningsTracker, build_state, load_persisted, add_luck, new_accum, or_new_accum,
  upper, confirm,
}
use pipool.Earnings.Blocklogs.{new_tracker, load_blocklogs, import_logs, contains, hashes}
use pipool.Earnings.Tracker.{
  record_block, update_confirmations, record_accum, update_block, confirm_accum, find_block,
  change_block,
}
use pipool.Earnings.Tracker.Counts.{total, found}
use pipool.Earnings.Tracker.Sound.{IsSound}
use pipool.Earnings.Tracker.Run.{Run, started, recorded, updated, persisted, Run-IsSound}
use pipool.Earnings.Tracker.Restart.{fresh, new_tracker-build_state, new_tracker-found}

abbrev ltc : List ℕ
ltc = codes "LTC"

abbrev block : List ℕ
block = codes "b1"

abbrev no_float : List ℕ → Option ℕ
no_float s = none

-- The log of the mining server, with the block and an older one.
abbrev entry : List ℕ → BlockLogEntry ℕ
entry hash = record {
  coin = ltc;
  height = 7;
  hash = hash;
  reward = [];
  worker = [];
  found_at = 5;
  confirmations = pos 1;
  is_orphaned = false;
  block_luck = 0;
}

abbrev mined : EarningsTracker ℕ
mined = record_block whole 9 ltc 8 block 3 1 (new_tracker whole no_float (λ bs. bs) none [])

mined-Run : Run whole no_float (λ bs. bs) mined []
mined-Run = recorded 9 ltc 8 block 3 1 _ [] (started [])

abbrev orphaned_block : EarningsTracker ℕ
orphaned_block = update_confirmations whole ltc block (negsuc 0) true mined

Run-IsSound_example : IsSound orphaned_block
Run-IsSound_example =
    Run-IsSound whole no_float (λ bs. bs) Permᴰ.refl orphaned_block (build_state 9 mined ∷ [])
      (updated ltc block (negsuc 0) true mined _ (persisted 9 mined [] mined-Run))

new_tracker-build_state_example :
    new_tracker whole no_float
      (λ bs. bs)
      (some (build_state 9 mined))
      (some (entry block ∷ []) ∷ [])
    ≡ record mined { recent = take 100 mined.recent }
unfolding contains str_eq hashes record_block new_tracker load_persisted load_blocklogs import_logs
new_tracker-build_state_example =
    new_tracker-build_state whole no_float (λ bs. bs) 9 mined (some (entry block ∷ []) ∷ [])
      ((refl, tt), tt)

-- A block of the log that is no longer among the recent ones is counted again.
new_tracker-found_example :
    total found
      (new_tracker whole no_float
        (λ bs. bs)
        (some (build_state 9 mined))
        (some (entry block ∷ entry (codes "b0") ∷ []) ∷ [])).coins
    ≡ total found mined.coins + fresh (hashes mined.recent) (block ∷ codes "b0" ∷ [])
new_tracker-found_example =
    new_tracker-found whole no_float (λ bs. bs) 9 mined
      (some (entry block ∷ entry (codes "b0") ∷ []) ∷ [])

fresh-test : fresh (hashes mined.recent) (block ∷ codes "b0" ∷ []) ≡ 1
unfolding contains str_eq hashes record_block new_tracker load_persisted load_blocklogs import_logs
fresh-test = refl

-- A block that has a confirmation, loses it and gets it again is counted as confirmed twice.
confirmed_twice-test :
    (or_new_accum whole (
      lookup
        (update_confirmations whole ltc block (pos 1) false (
          update_confirmations whole ltc block
            (pos 0)
            false
            (update_confirmations whole ltc block (pos 1) false mined))).coins
        ltc)).blocks_confirmed
    ≡ pos 2
unfolding lookup insert str_eq to_upper record_block new_tracker load_persisted load_blocklogs
    import_logs record_accum add_luck new_accum or_new_accum upper update_confirmations update_block
    confirm_accum confirm find_block change_block add_one is_positive is_zero
confirmed_twice-test = refl
