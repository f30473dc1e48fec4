-- ===== src/Stratum/Account.antt =====
-- internal/stratum/server.go: recordStaleKick, updateSeenWorkerShares, recordShareSample, the record of
-- a block that the node accepts, and the end of a connection in handleWorker.
use pipool.Base.{ℕ, suc, ◌+◌, ◌%◌, Bool, false, not, ◌&&◌, ◌==◌, if◌then◌else◌}
use pipool.Base.{List, [], ◌∷◌, ◌++◌, Option, none, some, ltb, leb, length}
use pipool.Go.Float.{Float64}
use pipool.Go.Maps.{Map, lookup, insert, erase}
use pipool.Go.Strings.{str_eq}
use pipool.Stratum.BlockLog.{record_own_block}
use pipool.Stratum.Share.{Block}
use pipool.Stratum.Vardiff.{seconds, zero_diff, at_least}
use pipool.Stratum.Worker.{
  Worker, Seen, Config, Server, Event, stale_kick, block_recorded, append_last,
}

module _ {F : Type 0} (f64 : Float64 F) (cfg : Config F) (now : ℕ) where
  -- `kicks := s.workerKickTimes[workerName]`, less those of more than an hour ago
  unfoldable pub recent_kicks : List ℕ → List ℕ
  recent_kicks [] = []
  recent_kicks (t ∷ kicks) =
      if ltb now (t + seconds 3600) then t ∷ recent_kicks kicks else recent_kicks kicks

  unfoldable pub pruned_kicks : Option (List ℕ) → List ℕ
  pruned_kicks none = now ∷ []
  pruned_kicks (some kicks) = recent_kicks kicks ++ (now ∷ [])

  unfoldable pub record_stale_kick : List ℕ → Server F → Server F × List (Event F)
  record_stale_kick name s =
      let pruned = pruned_kicks (lookup s.worker_kick_times name) in
      (
        record s { worker_kick_times = insert s.worker_kick_times name pruned },
        if leb 3 (length pruned) && length pruned % 3 == 0
            then stale_kick name (length pruned) ∷ []
            else [],
      )

  unfoldable pub seen_shares : Worker F → Seen F → Seen F
  seen_shares w seen = record seen {
    shares_accepted = seen.shares_accepted_base + w.shares_accepted;
    shares_rejected = seen.shares_rejected_base + w.shares_rejected;
    shares_stale = seen.shares_stale_base + w.shares_stale;
    last_seen_at = now;
    best_share = at_least f64 w.best_share seen.best_share;
  }

  unfoldable pub put_seen :
      Map (Seen F) → List ℕ → (Seen F → Seen F) → Option (Seen F) → Map (Seen F)
  put_seen m name change none = m
  put_seen m name change (some seen) = insert m name (change seen)

  unfoldable pub update_seen_worker_shares : Worker F → Server F → Server F
  update_seen_worker_shares w s = if str_eq w.worker_name [] then s else record s {
    seen_workers =
        put_seen s.seen_workers w.worker_name (seen_shares w) (lookup s.seen_workers w.worker_name);
  }

  unfoldable pub record_share_sample : F → Bool → List ℕ → Server F → Server F
  record_share_sample diff ok name s = record s {
    share_samples =
        append_last 200 s.share_samples
          (record { difficulty = diff; time = now; accepted = ok; worker = name });
  }

  -- `result == ""` from submitblock: the block is recorded.
  unfoldable pub node_accepts : Block → ℕ → F → List ℕ → F → Server F → Server F × List (Event F)
  node_accepts b height reward worker luck s = (
    record s {
      blocks_found = suc s.blocks_found;
      block_log =
          record_own_block f64 cfg.symbol now b.block_hash height reward worker luck s.block_log;
    },
    block_recorded b.block_hash worker height reward luck ∷ [],
  )

  -- `0.3*w.difficulty + 0.7*seen.AvgDifficulty`, and the rest of what a session leaves behind
  unfoldable pub seen_off : Worker F → Seen F → Seen F
  seen_off w seen = record (seen_shares w seen) {
    online = false;
    last_difficulty = w.difficulty;
    avg_difficulty =
        if f64.le seen.avg_difficulty (zero_diff f64)
        then w.difficulty
        else f64.add (f64.mul (f64.lit 3 1) w.difficulty)
            (f64.mul (f64.lit 7 1) seen.avg_difficulty);
    diff_history = w.diff_history;
  }

  -- The deferred function of handleWorker, as far as the state above goes.
  unfoldable pub disconnect : Worker F → Server F → Server F
  disconnect w s =
      let kicks = erase s.worker_kick_times w.worker_name in
      if w.authorized && not (str_eq w.worker_name [])
      then record s {
        worker_kick_times = kicks;
        seen_workers =
            put_seen s.seen_workers w.worker_name (seen_off w)
              (lookup s.seen_workers w.worker_name);
      }
      else record s { worker_kick_times = kicks }
