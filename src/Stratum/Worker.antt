-- ===== src/Stratum/Worker.antt =====
-- internal/stratum/server.go: Worker, SeenWorker, ShareSample and the state of Server that a
-- submitted share reads and writes. Times are nanoseconds, the zero time is 0. The counters of 64 bits
-- count without a bound.
use pipool.Base.{ℕ, ◌-◌, Bool, List, [], ◌∷◌, ◌++◌, Option, ltb, length, drop, if◌then◌else◌}
use pipool.Go.Maps.{Map}
use pipool.Stratum.BlockLog.{BlockEntry}
use pipool.Stratum.Share.{Job, Block}

pub record DiffEvent (F : Type 0) : Type 0 where
  pub diff : F
  pub at : ℕ

-- Without the connection, what the miner said of itself, and the connection's start.
pub record Worker (F : Type 0) : Type 0 where
  pub worker_name : List ℕ
  pub authorized : Bool
  pub difficulty : F
  pub prev_difficulty : F
  pub last_share_at : ℕ
  pub last_accepted_at : ℕ
  pub last_retarget_at : ℕ
  pub shares_since_retarget : ℕ
  pub fixed_diff : F
  pub diff_history : List (DiffEvent F)
  pub shares_accepted : ℕ
  pub shares_rejected : ℕ
  pub shares_stale : ℕ
  pub best_share : F
  pub suggested_min_diff : F
  pub last_stale_job_id : List ℕ
  pub stale_job_streak : ℕ
  pub extranonce1 : List ℕ
  pub en2_size : ℕ

-- Without what the miner said of itself and the sessions' times.
pub record Seen (F : Type 0) : Type 0 where
  pub shares_accepted : ℕ
  pub shares_rejected : ℕ
  pub shares_stale : ℕ
  pub shares_accepted_base : ℕ
  pub shares_rejected_base : ℕ
  pub shares_stale_base : ℕ
  pub best_share : F
  pub last_difficulty : F
  pub avg_difficulty : F
  pub diff_history : List (DiffEvent F)
  pub last_seen_at : ℕ
  pub online : Bool

pub record ShareSample (F : Type 0) : Type 0 where
  pub difficulty : F
  pub time : ℕ
  pub accepted : Bool
  pub worker : List ℕ

-- A count that Go compares with `<= 0` or `> 0` is 0 here where it is negative.
pub record Config (F : Type 0) : Type 0 where
  pub symbol : List ℕ
  pub algorithm : List ℕ
  pub block_reward : F
  pub stale_kick_count : ℕ
  pub auto_kick_reject_pct : ℕ
  pub auto_kick_min_shares : ℕ
  pub min_diff : F
  pub max_diff : F
  pub target_ms : ℕ
  pub retarget_s : ℕ
  pub coin_fixed : Map F
  pub pool_fixed : Map F

pub record Server (F : Type 0) : Type 0 where
  pub current_job : Option Job
  pub recent_jobs : Map Job
  pub total_shares : ℕ
  pub valid_shares : ℕ
  pub blocks_found : ℕ
  pub best_share_ever : F
  pub valid_work_since_block : F
  pub last_network_diff : F
  pub seen_workers : Map (Seen F)
  pub share_samples : List (ShareSample F)
  pub worker_kick_times : Map (List ℕ)
  pub block_log : List (BlockEntry F)

pub data Refusal : Type 0 where
  malformed_params no_job stale_share invalid_extranonce2_length : Refusal
  low_difficulty_share upstream_rejected : Refusal

-- What the server does to the world: replies and messages to the miner, the end of its connection,
-- callbacks where they are set, and a block for the node with its height, reward, finder and luck.
pub data Event (F : Type 0) : Type 0 where
  accepted : Event F
  refused : Refusal → Event F
  set_difficulty : F → Event F
  closed : Event F
  stale_kick : List ℕ → ℕ → Event F
  share_accepted : List ℕ → List ℕ → F → Event F
  submit_block : Block → ℕ → F → List ℕ → F → Event F
  block_recorded : List ℕ → List ℕ → ℕ → F → F → Event F

-- `append`, cut to the last `n`
unfoldable pub append_last {ℓ} : {A : Type ℓ} → ℕ → List A → A → List A
append_last n xs x =
    let longer = xs ++ (x ∷ []) in
    if ltb n (length longer) then drop (length longer - n) longer else longer
