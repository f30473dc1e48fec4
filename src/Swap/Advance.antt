-- ===== src/Swap/Advance.antt =====
-- internal/swap/engine.go: advanceJob and the functions below it. Each takes the job and the world,
-- and gives both back. `now` is the time at which the job is advanced.
pub mod Diagram
pub mod Progress
use pipool.Base.{ℕ, ◌-◌, ◌*◌, Bool, List, [], Option, none, some}
use pipool.Base.{map, ltb, if◌then◌else◌}
use pipool.Go.Strings.{codes, str_eq, to_upper}
use pipool.Go.Float.{Float64}
use pipool.Go.Maps.{Map, lookup}
use pipool.Swap.Job.{
  SwapJob, SwapState, idle, sending, wait_deposit, selling, buying, withdrawing, complete, failed,
  JobError, deposit_not_credited, sell_not_filled, buy_not_filled, sell_failed, buy_failed, no_bids,
  no_asks, ticker_error, Answer, done, refused, Severity, info, warn, Outside,
}
use pipool.Swap.Job

-- `strings.ToUpper(coin) == "BTC"`
unfoldable pub is_btc : List ℕ → Bool
is_btc coin = str_eq (map to_upper coin) (codes "BTC")

abbrev pub hours : ℕ → ℕ
hours n = n * 3600000

-- `m[k]` of a map of texts
unfoldable pub or_empty_text : Option (List ℕ) → List ℕ
or_empty_text none = []
or_empty_text (some text) = text

module _ {F W : Type 0} (f64 : Float64 F) (out : Outside F W) (addrs : Map (List ℕ)) (now : ℕ) where
  -- `job.State = StateFailed`, with its text and time
  unfoldable pub fail : SwapJob F → JobError → SwapJob F
  fail job why = record job { state = failed; error = why; updated_at = now }

  unfoldable pub fail_with_alert : Severity → SwapJob F → JobError → W → SwapJob F × W
  fail_with_alert severity job why w =
      let failed_job = fail job why in (failed_job, out.alert severity failed_job w)

  unfoldable pub dest_amount : SwapJob F → F
  dest_amount job = if is_btc job.dest_coin then job.btc_proceeds else job.dest_received

  unfoldable pub finish : SwapJob F → W → SwapJob F × W
  finish job w =
      let done_job = record job { state = complete; updated_at = now } in
      (done_job, out.alert info done_job w)

  -- Both an accepted withdrawal and the manual one end the job.
  unfoldable pub initiate_withdraw : SwapJob F → W → SwapJob F × W
  initiate_withdraw job w =
      let addr = or_empty_text (lookup addrs job.dest_coin) in
      if str_eq addr []
      then finish job w
      else finish job (out.withdraw job.dest_coin (dest_amount job) addr w).1

  unfoldable pub place_buy_order : SwapJob F → W → SwapJob F × W
  place_buy_order job w =
      if is_btc job.dest_coin
      then initiate_withdraw (record job { state = withdrawing }) w
      else let market = out.market_name job.dest_coin (codes "BTC") in
        let (answer, w₁) = out.get_ticker market w in
        elim answer [
          | refused why ↦ fail_with_alert Job.error job (ticker_error market why) w₁
          | done (bid, ask) ↦
              if f64.le ask (f64.lit 0 0)
              then (fail job (no_asks market), w₁)
              else let buy_price = f64.mul ask (f64.lit 1005 3) in
                let qty = f64.mul (f64.div job.btc_proceeds buy_price) (f64.lit 998 3) in
                let (placed, w₂) =
                  out.submit_buy market (f64.format 8 buy_price) (f64.format 8 qty) w₁ in
                elim placed [
                  | refused why ↦ fail_with_alert Job.error job (buy_failed why) w₂
                  | done uuid ↦ (
                    record job {
                      buy_order_uuid = uuid;
                      buy_price = f64.format 8 buy_price;
                      state = buying;
                      updated_at = now;
                    },
                    w₂,
                  )
                ]
        ]

  unfoldable pub place_sell_order : SwapJob F → F → W → SwapJob F × W
  place_sell_order job available w =
      if is_btc job.source_coin
      then place_buy_order
          (record job { btc_proceeds = available; state = buying; updated_at = now }) w
      else let market = out.market_name job.source_coin (codes "BTC") in
        let (answer, w₁) = out.get_ticker market w in
        elim answer [
          | refused why ↦ fail_with_alert Job.error job (ticker_error market why) w₁
          | done (bid, ask) ↦
              if f64.le bid (f64.lit 0 0)
              then (fail job (no_bids market), w₁)
              else let sell_price = f64.mul bid (f64.lit 995 3) in
                let (placed, w₂) =
                  out.submit_sell market (f64.format 8 sell_price) (f64.format 8 available) w₁ in
                elim placed [
                  | refused why ↦ fail_with_alert Job.error job (sell_failed why) w₂
                  | done uuid ↦ (
                    record job {
                      sell_order_uuid = uuid;
                      sell_price = f64.format 8 sell_price;
                      state = selling;
                      updated_at = now;
                    },
                    w₂,
                  )
                ]
        ]

  unfoldable pub advance_wait_deposit : SwapJob F → W → SwapJob F × W
  advance_wait_deposit job w =
      let (answer, w₁) = out.get_balance job.source_coin w in
      elim answer [
        | refused why ↦ (job, w₁)
        | done available ↦
            if f64.lt available (f64.mul job.amount (f64.lit 95 2))
            then if ltb (hours 6) (now - job.created_at)
              then fail_with_alert Job.error job deposit_not_credited w₁
              else (job, w₁)
            else place_sell_order job available w₁
      ]

  unfoldable pub sold : SwapJob F → W → SwapJob F × W
  sold job w =
      let (answer, w₁) = out.get_balance (codes "BTC") w in
      elim answer [
        | refused why ↦ (job, w₁)
        | done btc_available ↦
            let paid = record job { btc_proceeds = btc_available; updated_at = now } in
            if is_btc job.dest_coin
            then initiate_withdraw (record paid { state = withdrawing }) w₁
            else place_buy_order (record paid { state = buying }) w₁
      ]

  -- An order that is not filled after two hours is cancelled.
  unfoldable pub order_pending : SwapJob F → List ℕ → JobError → W → SwapJob F × W
  order_pending job uuid why w =
      if ltb (hours 2) (now - job.updated_at)
      then fail_with_alert warn job why (out.cancel_order uuid w)
      else (job, w)

  unfoldable pub advance_selling : SwapJob F → W → SwapJob F × W
  advance_selling job w =
      let (answer, w₁) = out.get_order job.sell_order_uuid w in
      elim answer [
        | refused why ↦ (job, w₁)
        | done filled ↦
            if filled then sold job w₁ else order_pending job job.sell_order_uuid sell_not_filled w₁
      ]

  -- `if err == nil { job.DestReceived = destAvail }`
  unfoldable pub received : F → Answer F → F
  received before (refused why) = before
  received before (done avail) = avail

  unfoldable pub bought : SwapJob F → W → SwapJob F × W
  bought job w =
      let (answer, w₁) = out.get_balance job.dest_coin w in
      initiate_withdraw
        (record job {
          dest_received = received job.dest_received answer;
          state = withdrawing;
          updated_at = now;
        })
        w₁

  unfoldable pub advance_buying : SwapJob F → W → SwapJob F × W
  advance_buying job w =
      if str_eq job.buy_order_uuid []
      then place_buy_order job w
      else let (answer, w₁) = out.get_order job.buy_order_uuid w in
        elim answer [
          | refused why ↦ (job, w₁)
          | done filled ↦
              if filled
              then bought job w₁
              else order_pending job job.buy_order_uuid buy_not_filled w₁
        ]

  -- The `switch` of advanceJob, behind the test of tick for jobs that are over.
  unfoldable pub advance_in : SwapState → SwapJob F → W → SwapJob F × W
  advance_in idle job w = (job, w)
  advance_in sending job w = (job, w)
  advance_in wait_deposit job w = advance_wait_deposit job w
  advance_in selling job w = advance_selling job w
  advance_in buying job w = advance_buying job w
  advance_in withdrawing job w = initiate_withdraw job w
  advance_in complete job w = (job, w)
  advance_in failed job w = (job, w)

  unfoldable pub advance_job : SwapJob F → W → SwapJob F × W
  advance_job job w = advance_in job.state job w
