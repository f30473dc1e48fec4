-- ===== src/Stratum/Submit.antt =====
-- internal/stratum/server.go: handleSubmit. Each call reads the clock once, as `now`. The logging is left out, and so is
-- the AuxBlockInfo that goes with a block.
pub mod Answers
pub mod Replies
pub mod Counts
mod Tests
use pipool.Base.{ℕ, suc, ◌+◌, ◌*◌, Bool, true, false, not, ◌&&◌, ◌||◌, ◌==◌, if◌then◌else◌}
use pipool.Base.{List, [], ◌∷◌, ◌++◌, Option, none, some, ltb, leb, length, reverse}
use Prim.Native.Nat.{bit_or}
use pipool.Base.Bytes.{le_bytes}
use pipool.Go.Float.{Float64}
use pipool.Go.Hex.{hex_encode}
use pipool.Go.Maps.{lookup}
use pipool.Go.ParseUint.{parse_uint}
use pipool.Go.Strings.{codes, str_eq}
use pipool.Stratum.Account.{record_stale_kick, update_seen_worker_shares, record_share_sample}
use pipool.Stratum.Share.{Job, Work, Block, validate_share, assemble_block_hex}
use pipool.Stratum.Vardiff.{zero_diff, at_least, adjust_vardiff, decay_vardiff}
use pipool.Stratum.Worker.{
  Worker, Config, Server, Event, accepted, refused, closed, share_accepted, submit_block,
  malformed_params, no_job, stale_share, invalid_extranonce2_length, low_difficulty_share,
  upstream_rejected,
}

pub record Params : Type 0 where
  pub job_id : List ℕ
  pub extranonce2 : List ℕ
  pub ntime : List ℕ
  pub nonce : List ℕ
  pub version_bits : Option (List ℕ)

-- `len(params) < 5`, `len(params) >= 6`
unfoldable pub read_params : List (List ℕ) → Option Params
read_params (name ∷ job_id ∷ extranonce2 ∷ ntime ∷ nonce ∷ []) = some (record {
  job_id = job_id;
  extranonce2 = extranonce2;
  ntime = ntime;
  nonce = nonce;
  version_bits = none;
})
read_params (name ∷ job_id ∷ extranonce2 ∷ ntime ∷ nonce ∷ bits ∷ more) = some (record {
  job_id = job_id;
  extranonce2 = extranonce2;
  ntime = ntime;
  nonce = nonce;
  version_bits = some bits;
})
read_params _ = none

-- `fmt.Sprintf("%08x", n)` of 32 bits
unfoldable pub format_08x : ℕ → List ℕ
format_08x n = hex_encode (reverse (le_bytes 4 n))

unfoldable pub effective_version : Job → Option (List ℕ) → List ℕ
effective_version job none = job.version
effective_version job (some bits) =
    if not (str_eq bits []) && ((parse_uint job.version).1 && (parse_uint bits).1)
    then format_08x (bit_or (parse_uint job.version).0 (parse_uint bits).0)
    else job.version

abbrev pub Outcome : Type 0 → Type 0
Outcome F = Server F × Worker F × List (Event F)

module _ {F : Type 0} (f64 : Float64 F) (cfg : Config F) (now : ℕ) where
  unfoldable pub validation_diff : Worker F → F
  validation_diff w =
      if f64.lt (zero_diff f64) w.prev_difficulty && f64.lt w.prev_difficulty w.difficulty
      then w.prev_difficulty
      else w.difficulty

  unfoldable pub count_rejected : Worker F → Worker F
  count_rejected w = record w { shares_rejected = suc w.shares_rejected }

  unfoldable pub kick_at : ℕ
  kick_at = if cfg.stale_kick_count == 0 then 5 else cfg.stale_kick_count

  unfoldable pub stale_worker : List ℕ → Worker F → Worker F
  stale_worker job_id w = record w {
    shares_stale = suc w.shares_stale;
    last_stale_job_id = job_id;
    stale_job_streak = if str_eq job_id w.last_stale_job_id then suc w.stale_job_streak else 1;
  }

  -- The branch of a job that is not recent, with the worker after the count.
  unfoldable pub submit_stale : Server F → Worker F → Outcome F
  submit_stale s w =
      let seen = update_seen_worker_shares f64 cfg now w s in
      if leb kick_at w.stale_job_streak
      then (
        (record_stale_kick f64 cfg now w.worker_name seen).0,
        w,
        refused stale_share
            ∷ ((record_stale_kick f64 cfg now w.worker_name seen).1 ++ (closed ∷ [])),
      )
      else (seen, w, refused stale_share ∷ [])

  -- The counts reach the share of rejects that the pool kicks at.
  unfoldable pub auto_kick : Worker F → Bool
  auto_kick w =
      let total = w.shares_accepted + w.shares_rejected + w.shares_stale in
      let reject_pct =
        f64.mul (f64.div (f64.lit w.shares_rejected 0) (f64.lit total 0)) (f64.lit 100 0) in
      ltb 0 cfg.auto_kick_reject_pct
      && ltb 0 cfg.auto_kick_min_shares
      && leb cfg.auto_kick_min_shares total
      && f64.le (f64.lit cfg.auto_kick_reject_pct 0) reject_pct

  -- The branch of a share that is not valid, with the worker after the count and after its decay.
  -- A reply after the connection is closed fails and does not reach the miner.
  unfoldable pub submit_invalid : Server F → F → Worker F → Worker F × List (Event F) → Outcome F
  submit_invalid s diff counted (decayed, sent) = (
    record_share_sample f64 cfg now diff false counted.worker_name
        (update_seen_worker_shares f64 cfg now counted s),
    decayed,
    sent ++ (if auto_kick decayed then closed ∷ [] else refused low_difficulty_share ∷ []),
  )

  unfoldable pub count_accepted : F → Worker F → Worker F
  count_accepted diff w = record w {
    shares_accepted = suc w.shares_accepted;
    last_share_at = now;
    last_accepted_at = now;
    stale_job_streak = 0;
    best_share = at_least f64 diff w.best_share;
  }

  unfoldable pub count_valid : F → Worker F → Server F → Server F
  count_valid diff w s =
      let best = record s {
        valid_shares = suc s.valid_shares;
        best_share_ever = at_least f64 diff s.best_share_ever;
      } in
      let sampled =
        record_share_sample f64 cfg now diff true w.worker_name
          (update_seen_worker_shares f64 cfg now w best) in
      record sampled { valid_work_since_block = f64.add sampled.valid_work_since_block diff }

  -- `netDiff / validWork * 100`, or -1
  unfoldable pub luck : Server F → F
  luck s =
      if f64.lt (zero_diff f64) s.valid_work_since_block
        && f64.lt (zero_diff f64) s.last_network_diff
      then f64.mul (f64.div s.last_network_diff s.valid_work_since_block) (f64.lit 100 0)
      else f64.sub (zero_diff f64) (f64.lit 1 0)

  -- A block that is assembled goes to the node, and the count of work starts again.
  unfoldable pub send_block : Job → Worker F → Option Block → Server F → Server F × List (Event F)
  send_block job w none s = (s, [])
  send_block job w (some b) s = (
    record s { valid_work_since_block = zero_diff f64 },
    submit_block b job.height cfg.block_reward w.worker_name (luck s) ∷ [],
  )

  -- `upstream` is what the upstream pool answers where the proxy is active.
  unfoldable pub last_reply : Option Bool → Event F
  last_reply none = accepted
  last_reply (some true) = accepted
  last_reply (some false) = refused upstream_rejected

  module _ (sha256 : List ℕ → List ℕ) (scrypt : List ℕ → List ℕ → ℕ → ℕ → ℕ → ℕ → Option (List ℕ))
      (quotient : ℕ → F → Option ℕ) where
    -- The template's algorithm, where it names one, is the coin's.
    unfoldable pub algo_match : Job → Bool
    algo_match job =
        str_eq job.pow_algo []
        || ((str_eq cfg.algorithm (codes "sha256d") && str_eq job.pow_algo (codes "sha256d"))
            || (str_eq cfg.algorithm (codes "scrypt") && str_eq job.pow_algo (codes "scrypt")))

    -- The branch of a valid share: the share counted, the difficulty adjusted, the block sent.
    unfoldable pub submit_valid :
        Option Bool
        → Server F
        → Worker F
        → F
        → Worker F × List (Event F)
        → Job
        → Option Block
        → Outcome F
    submit_valid upstream s counted diff (adjusted, sent) job block =
        let (after, blocks) = send_block job adjusted block (count_valid diff counted s) in
        (
          after,
          adjusted,
          share_accepted cfg.symbol counted.worker_name counted.difficulty
              ∷ (sent ++ (blocks ++ (last_reply upstream ∷ []))),
        )

    -- What validateShare says decides; `none` where it has no answer.
    unfoldable pub judged :
        Option Bool
        → Server F
        → Worker F
        → Job
        → Work
        → F
        → Option (Bool × Bool × List ℕ)
        → Option (Outcome F)
    judged upstream s w job work diff none = none
    judged upstream s w job work diff (some (false, is_block, nonce)) =
        some
          (submit_invalid s diff (count_rejected w) (decay_vardiff f64 cfg now (count_rejected w)))
    judged upstream s w job work diff (some (true, is_block, nonce)) = some (
        submit_valid upstream s (count_accepted diff w) diff
          (adjust_vardiff f64 cfg now (count_accepted diff w)) job
          (if is_block && algo_match job then assemble_block_hex sha256 job work nonce else none))

    unfoldable pub share_work : Worker F → Params → Job → Work
    share_work w p job = record {
      extranonce1 = w.extranonce1;
      extranonce2 = p.extranonce2;
      ntime = p.ntime;
      version = effective_version job p.version_bits;
    }

    -- Where there is a job to work on, and the job that the share names is recent.
    unfoldable pub submit_job :
        Option Bool → Server F → Worker F → Params → Option Job → Option Job → Option (Outcome F)
    submit_job upstream s w p none job = some (s, count_rejected w, refused no_job ∷ [])
    submit_job upstream s w p (some current) none = some (submit_stale s (stale_worker p.job_id w))
    submit_job upstream s w p (some current) (some job) =
        let work = share_work w p job in
        let diff = validation_diff w in
        if length p.extranonce2 == w.en2_size * 2
        then judged upstream s w job work diff
            (validate_share sha256 scrypt cfg.algorithm quotient job work p.nonce diff)
        else some (
          record_share_sample f64 cfg now w.difficulty false w.worker_name s,
          count_rejected w,
          refused invalid_extranonce2_length ∷ [],
        )

    unfoldable pub submit_params :
        Option Bool → Server F → Worker F → Option Params → Option (Outcome F)
    submit_params upstream s w none = some (s, count_rejected w, refused malformed_params ∷ [])
    submit_params upstream s w (some p) =
        submit_job upstream s w p s.current_job (lookup s.recent_jobs p.job_id)

    unfoldable pub handle_submit :
        Option Bool → Server F → Worker F → List (List ℕ) → Option (Outcome F)
    handle_submit upstream s w params =
        submit_params upstream (record s { total_shares = suc s.total_shares }) w
          (read_params params)
