-- ===== src/Earnings/Tracker.antt =====
-- internal/earnings/tracker.go: RecordBlock and UpdateConfirmations. Each call reads the clock once, as
-- `now`.
pub mod Counts
pub mod Sound
pub mod Run
pub mod Restart
use pipool.Base.{ℕ, suc, Bool, true, false, not, ◌&&◌, List, [], ◌∷◌, ◌++◌, Option, none, some}
use pipool.Base.{◌==◌, take, if◌then◌else◌}
use pipool.Go.Float.{Float64}
use pipool.Go.Ints.{ℤ, pos, negsuc, sub_one, is_positive, is_zero}
use pipool.Go.Maps.{lookup, insert}
use pipool.Go.Strings.{str_eq}
use pipool.Earnings.State.{
  TrackedBlock, CoinAccum, EarningsTracker, max_recent_blocks, upper, or_new_accum, add_luck,
  confirm,
}

module _ {F : Type 0} where
  -- The first block of a hash, and the same list with that block changed.
  unfoldable pub find_block : List (TrackedBlock F) → List ℕ → Option (TrackedBlock F)
  find_block [] hash = none
  find_block (b ∷ recent) hash = if str_eq b.hash hash then some b else find_block recent hash

  unfoldable pub change_block :
      (TrackedBlock F → TrackedBlock F) → List (TrackedBlock F) → List ℕ → List (TrackedBlock F)
  change_block f [] hash = []
  change_block f (b ∷ recent) hash =
      if str_eq b.hash hash then f b ∷ recent else b ∷ change_block f recent hash

  unfoldable pub orphan_block : TrackedBlock F → TrackedBlock F
  orphan_block b = record b { is_orphaned = true; confirmations = negsuc 0 }

module _ {F : Type 0} (f64 : Float64 F) where
  unfoldable pub record_accum : ℕ → ℕ → F → CoinAccum F → CoinAccum F
  record_accum now height luck acc =
      record (add_luck f64 luck (record acc { blocks_found = suc acc.blocks_found })) {
        last_block_at = now;
        last_block_height = height;
      }

  unfoldable pub record_block :
      ℕ → List ℕ → ℕ → List ℕ → F → F → EarningsTracker F → EarningsTracker F
  record_block now coin height hash reward luck t =
      let sym = upper coin in
      record {
        coins =
            insert t.coins sym
              (record_accum now height luck (or_new_accum f64 (lookup t.coins sym)));
        first_block = if t.first_block == 0 then now else t.first_block;
        recent = take max_recent_blocks (
            record {
              coin = sym;
              height = height;
              hash = hash;
              reward = reward;
              reward_label = f64.format 4 reward ++ (b' ' ∷ sym);
              worker = [];
              found_at = now;
              confirmations = pos 0;
              is_orphaned = false;
              luck = luck;
            }
            ∷ t.recent);
      }

  -- A block that becomes an orphan; the reward of one that was confirmed is taken back.
  unfoldable pub orphan_accum : TrackedBlock F → CoinAccum F → CoinAccum F
  orphan_accum prev acc =
      if is_positive prev.confirmations
      then record acc {
        blocks_orphaned = suc acc.blocks_orphaned;
        blocks_confirmed = sub_one acc.blocks_confirmed;
        total_reward = f64.sub acc.total_reward prev.reward;
      }
      else record acc { blocks_orphaned = suc acc.blocks_orphaned }

  unfoldable pub confirm_accum : ℤ → Bool → TrackedBlock F → CoinAccum F → CoinAccum F
  confirm_accum confirmations orphaned prev acc =
      if not orphaned && (is_zero prev.confirmations && is_positive confirmations)
      then confirm f64 prev.reward acc
      else acc

  unfoldable pub update_block :
      List ℕ
      → List ℕ
      → ℤ
      → Bool
      → Option (CoinAccum F)
      → Option (TrackedBlock F)
      → EarningsTracker F
      → EarningsTracker F
  update_block sym hash confirmations orphaned none prev t = t
  update_block sym hash confirmations orphaned (some acc) none t = t
  update_block sym hash confirmations orphaned (some acc) (some prev) t =
      if orphaned && not prev.is_orphaned
      then record t {
        coins = insert t.coins sym (orphan_accum prev acc);
        recent = change_block orphan_block t.recent hash;
      }
      else record t {
        coins = insert t.coins sym (confirm_accum confirmations orphaned prev acc);
        recent = change_block (λ b. record b { confirmations = confirmations }) t.recent hash;
      }

  unfoldable pub update_confirmations :
      List ℕ → List ℕ → ℤ → Bool → EarningsTracker F → EarningsTracker F
  update_confirmations coin hash confirmations orphaned t =
      let sym = upper coin in
      update_block sym hash confirmations orphaned (lookup t.coins sym) (find_block t.recent hash) t
