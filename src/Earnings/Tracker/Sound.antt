-- ===== src/Earnings/Tracker/Sound.antt =====
-- RecordBlock and UpdateConfirmations of internal/earnings/tracker.go keep the numbers of found blocks
-- and of orphans sound.
use pipool.Base.{ℕ, ◌+◌, ◌≤◌, ◌≡◌, refl, sym, ◌∙◌, arith, Bool, false, not, ◌&&◌}
use pipool.Base.{List, Option, none, some}
use pipool.Base.{length, length-take, by_test}
use pipool.Go.Float.{Float64}
use pipool.Go.Ints.{ℤ}
use pipool.Go.Maps.{lookup, insert}
use pipool.Earnings.State.{
  TrackedBlock, CoinAccum, EarningsTracker, max_recent_blocks, upper, or_new_accum,
}
use pipool.Earnings.Tracker.{
  find_block, change_block, orphan_block, record_accum, record_block, orphan_accum, confirm_accum,
  update_block, update_confirmations,
}
use pipool.Earnings.Tracker.Counts.{
  total, unorphaned, found, orphaned, unorphaned-take, unorphaned-change_block, length-change_block,
  total-put, total-change, orphan_accum-counts, confirm_accum-counts, new_accum-found,
  new_accum-orphaned, record_accum-counts,
}

module _ {F : Type 0} where
  -- The blocks that are orphans, and those in the list that are not, are not more than were found.
  abbrev pub Sound : EarningsTracker F → Type 0
  Sound t = total orphaned t.coins + unorphaned t.recent ≤ total found t.coins

  -- And the list keeps its cap.
  pub record IsSound (t : EarningsTracker F) : Type 0 where
    pub sound : Sound t
    pub bounded : length t.recent ≤ max_recent_blocks

module _ {F : Type 0} (f64 : Float64 F) where
  module _ (t : EarningsTracker F) (valid : IsSound t) where
    pub record_block-IsSound :
        (now : ℕ) (coin : List ℕ) (height : ℕ) (hash : List ℕ) (reward luck : F)
        → IsSound (record_block f64 now coin height hash reward luck t)
    unfolding record_block
    record_block-IsSound now coin height hash reward luck =
        let old : CoinAccum F = or_new_accum f64 (lookup t.coins (upper coin)) in
        let acc : CoinAccum F = record_accum f64 now height luck old in
        let (more, same) = record_accum-counts f64 now height luck old in
        record {
          sound = omega (
            arith,
            valid.sound,
            total-put f64 found t.coins (upper coin) acc 1 (new_accum-found f64) more,
            total-put f64 orphaned t.coins (upper coin) acc 0 (new_accum-orphaned f64)
                (same ∙ omega arith),
            unorphaned-take 99 t.recent,
          );
          bounded = omega (arith, length-take 99 t.recent);
        }

    orphaned-Sound :
        (sym hash : List ℕ) (acc : CoinAccum F) (prev : TrackedBlock F)
        → lookup t.coins sym ≡ some acc
        → find_block t.recent hash ≡ some prev
        → prev.is_orphaned ≡ false
        → IsSound (record t {
          coins = insert t.coins sym (orphan_accum f64 prev acc);
          recent = change_block orphan_block t.recent hash;
        })
    unfolding orphan_block
    orphaned-Sound sym hash acc prev known e kept =
        let (f, o) = orphan_accum-counts f64 prev acc in
        let put_acc : CoinAccum F = orphan_accum f64 prev acc in
        let change = unorphaned-change_block orphan_block t.recent hash prev e in
        record {
          sound = omega (
            arith,
            valid.sound,
            total-change found t.coins sym acc put_acc 0 known f,
            total-change orphaned t.coins sym acc put_acc 1 known o,
            rw kept at change,
          );
          bounded = omega (arith, valid.bounded, length-change_block orphan_block t.recent hash);
        }

    kept-Sound :
        (sym hash : List ℕ) (acc : CoinAccum F) (prev : TrackedBlock F) (confirmations : ℤ)
        (orphan : Bool)
        → lookup t.coins sym ≡ some acc
        → find_block t.recent hash ≡ some prev
        → IsSound (record t {
          coins = insert t.coins sym (confirm_accum f64 confirmations orphan prev acc);
          recent = change_block (λ b. record b { confirmations = confirmations }) t.recent hash;
        })
    kept-Sound sym hash acc prev confirmations orphan known e =
        let (f, o) = confirm_accum-counts f64 confirmations orphan prev acc in
        let put_acc : CoinAccum F = confirm_accum f64 confirmations orphan prev acc in
        let put : TrackedBlock F → TrackedBlock F =
          λ b. record b { confirmations = confirmations } in
        let change = unorphaned-change_block put t.recent hash prev e in
        record {
          sound = omega (
            arith,
            valid.sound,
            total-change found t.coins sym acc put_acc 0 known f,
            total-change orphaned t.coins sym acc put_acc 0 known o,
            change,
          );
          bounded = omega (arith, valid.bounded, length-change_block put t.recent hash);
        }

    update_block-IsSound :
        (sym hash : List ℕ) (confirmations : ℤ) (orphan : Bool) (acc : Option (CoinAccum F))
        (prev : Option (TrackedBlock F))
        → lookup t.coins sym ≡ acc
        → find_block t.recent hash ≡ prev
        → IsSound (update_block f64 sym hash confirmations orphan acc prev t)
    unfolding update_block
    update_block-IsSound sym hash confirmations orphan none prev known e = valid
    update_block-IsSound sym hash confirmations orphan (some acc) none known e = valid
    update_block-IsSound sym hash confirmations orphan (some acc) (some prev) known e =
        by_test IsSound (orphan && not prev.is_orphaned)
          (λ turned. orphaned-Sound sym hash acc prev known e (ground arith))
          (λ same. kept-Sound sym hash acc prev confirmations orphan known e)

    pub update_confirmations-IsSound :
        (coin hash : List ℕ) (confirmations : ℤ) (orphan : Bool)
        → IsSound (update_confirmations f64 coin hash confirmations orphan t)
    unfolding update_confirmations
    update_confirmations-IsSound coin hash confirmations orphan =
        update_block-IsSound (upper coin) hash confirmations orphan _ _ refl refl
