-- ===== src/Swap/Engine.antt =====
-- internal/swap/engine.go: Engine, tick, checkAndInitiate, cleanupJobs, UpdateRule, saveState and
-- loadState. tick runs only where there is an exchange.
pub mod Initiate
pub mod Cleanup
pub mod Invariant
pub mod Run
use pipool.Base.{
  ℕ, ◌-◌, Bool, true, false, not, ◌&&◌, ◌||◌, List, [], ◌∷◌, ◌++◌, Option, none, some,
}
use pipool.Base.{map, ltb, length, drop, if◌then◌else◌}
use pipool.Go.Strings.{codes, str_eq, to_upper}
use pipool.Go.Float.{Float64}
use pipool.Go.Maps.{Map, lookup, insert}
use pipool.Swap.Job.{
  Rule, Config, SwapJob, SwapState, sending, wait_deposit, complete, failed, no_error, send_failed,
  Answer, done, refused, Severity, info, Outside,
}
use pipool.Swap.Job
use pipool.Swap.Advance.{or_empty_text, advance_job}

pub record Engine (F : Type 0) : Type 0 where
  pub cfg : Config F
  pub jobs : List (SwapJob F)
  pub history : List (SwapJob F)

-- `State != StateComplete && State != StateFailed`
abbrev pub is_active : SwapState → Bool
is_active complete = false
is_active failed = false
is_active _ = true

module _ {F : Type 0} where
  -- New with loadState; `none` is a state file that is missing or cannot be parsed.
  unfoldable pub new_engine : Config F → Option (List (SwapJob F) × List (SwapJob F)) → Engine F
  new_engine cfg none = record { cfg = cfg; jobs = []; history = [] }
  new_engine cfg (some (jobs, history)) =
      if cfg.has_state_file
      then record { cfg = cfg; jobs = jobs; history = history }
      else record { cfg = cfg; jobs = []; history = [] }

  unfoldable pub has_active_job : List (SwapJob F) → List ℕ → Bool
  has_active_job [] coin = false
  has_active_job (j ∷ jobs) coin =
      (str_eq j.source_coin coin && is_active j.state) || has_active_job jobs coin

  -- `e.history = append(e.history, *j)`, cut to the last 50
  unfoldable pub add_history : List (SwapJob F) → SwapJob F → List (SwapJob F)
  add_history history j =
      let longer = history ++ (j ∷ []) in
      if ltb 50 (length longer) then drop (length longer - 50) longer else longer

  -- The loop of cleanupJobs: the jobs still to be read, the active ones so far, and the history.
  unfoldable pub cleanup_loop :
      List (SwapJob F) → List (SwapJob F) → List (SwapJob F) → List (SwapJob F) × List (SwapJob F)
  cleanup_loop [] active history = (active, history)
  cleanup_loop (j ∷ jobs) active history =
      cleanup_loop jobs (if is_active j.state then active ++ (j ∷ []) else active)
        (if is_active j.state then history else add_history history j)

  unfoldable pub cleanup_jobs : Engine F → Engine F
  cleanup_jobs e =
      let (active, history) = cleanup_loop e.jobs [] e.history in
      record e { jobs = active; history = history }

module _ {F W : Type 0} (out : Outside F W) where
  unfoldable pub save_state : Engine F → W → W
  save_state e w = if e.cfg.has_state_file then out.save_state e.jobs e.history w else w

  unfoldable pub update_rule : Engine F → List ℕ → Rule F → W → Engine F × W
  update_rule e coin rule w =
      let e' = record e { cfg = record (e.cfg) { rules = insert e.cfg.rules coin rule } } in
      (e', save_state e' w)

module _ {F W : Type 0} (f64 : Float64 F) (out : Outside F W) (now : ℕ) where
  unfoldable pub market_name : List ℕ → List ℕ → List ℕ
  market_name source dest =
      let src = map to_upper source in
      let dst = map to_upper dest in
      if str_eq src (codes "BTC") || str_eq dst (codes "BTC")
      then out.market_name (if str_eq src (codes "BTC") then dst else src) (codes "BTC")
      else out.market_name src (codes "BTC")

  unfoldable pub new_job : List ℕ → Rule F → F → SwapJob F
  new_job coin rule amount = record {
    id = (coin, now);
    source_coin = coin;
    dest_coin = rule.destination;
    amount = amount;
    state = sending;
    sell_order_uuid = [];
    buy_order_uuid = [];
    sell_price = [];
    buy_price = [];
    btc_proceeds = f64.lit 0 0;
    dest_received = f64.lit 0 0;
    tx_id = [];
    error = no_error;
    created_at = now;
    updated_at = now;
  }

  -- What is appended to the jobs after the wallet has answered.
  unfoldable pub sent_job : SwapJob F → Answer (List ℕ) → SwapJob F
  sent_job job (refused why) = record job { state = failed; error = send_failed why }
  sent_job job (done tx_id) = record job { tx_id = tx_id; state = wait_deposit; updated_at = now }

  unfoldable pub severity_of : Answer (List ℕ) → Severity
  severity_of (refused why) = Job.error
  severity_of (done tx_id) = info

  unfoldable pub send_coins : Engine F → SwapJob F → List ℕ → W → Engine F × W
  send_coins e job deposit_addr w =
      let (answer, w₁) = out.send_to_address job.source_coin deposit_addr job.amount w in
      let sent = sent_job job answer in
      (record e { jobs = e.jobs ++ (sent ∷ []) }, out.alert (severity_of answer) sent w₁)

  unfoldable pub check_and_initiate : Engine F → List ℕ → Rule F → W → Engine F × W
  check_and_initiate e coin rule w =
      if not (out.has_wallet coin)
      then (e, w)
      else let (answer, w₁) = out.wallet_balance coin w in
        elim answer [
          | refused why ↦ (e, w₁)
          | done confirmed ↦
              let amount = f64.sub confirmed rule.keep_balance in
              let addr = or_empty_text (lookup e.cfg.deposit_addrs coin) in
              if f64.lt amount rule.min_balance
              then (e, w₁)
              else if str_eq addr []
              then (e, w₁)
              else if str_eq (market_name coin rule.destination) []
              then (e, w₁)
              else send_coins e (new_job coin rule amount) addr w₁
        ]

  -- The loop over the jobs that are in flight.
  unfoldable pub advance_jobs : Map (List ℕ) → List (SwapJob F) → W → List (SwapJob F) × W
  advance_jobs addrs [] w = ([], w)
  advance_jobs addrs (j ∷ jobs) w =
      let (j', w₁) = if is_active j.state then advance_job f64 out addrs now j w else (j, w) in
      let (rest, w₂) = advance_jobs addrs jobs w₁ in (j' ∷ rest, w₂)

  unfoldable pub initiate_rule : Engine F → List ℕ → Rule F → W → Engine F × W
  initiate_rule e coin rule w =
      if rule.enabled && not (has_active_job e.jobs coin)
      then check_and_initiate e coin rule w
      else (e, w)

  -- The loop over the rules, in some order of the map.
  unfoldable pub initiate_all : Engine F → Map (Rule F) → W → Engine F × W
  initiate_all e [] w = (e, w)
  initiate_all e ((coin, rule) ∷ rules) w =
      let started = initiate_rule e coin rule w in initiate_all (started.0) rules (started.1)

  unfoldable pub tick : Engine F → W → Engine F × W
  tick e w =
      let (jobs, w₁) = advance_jobs e.cfg.withdraw_addrs e.jobs w in
      let cleaned = cleanup_jobs (record e { jobs = jobs }) in
      let (e', w₂) = initiate_all cleaned e.cfg.rules w₁ in (e', save_state out e' w₂)
