-- ===== src/Swap/Advance/Progress.antt =====
-- A swap of internal/swap/engine.go comes to an end when the exchange answers.
use pipool.Base.{ℕ, ◌-◌, ◌≤◌, ◌<◌, ◌≡◌, refl, arith, sym, length}
use pipool.Base.{List, [], ◌∷◌, Bool, false, if◌then◌else◌}
use pipool.Go.Strings.{codes, str_eq}
use pipool.Go.Float.{Float64}
use pipool.Go.Maps.{Map}
use pipool.Swap.Job.{
  SwapJob, SwapState, idle, sending, wait_deposit, selling, buying, withdrawing, complete, failed,
  Outside, done,
}
use pipool.Swap.Advance.{
  hours, fail, fail_with_alert, finish, initiate_withdraw, place_buy_order, place_sell_order,
  advance_wait_deposit, sold, order_pending, advance_selling, bought, advance_buying, advance_in,
  advance_job,
}
use pipool.Swap.Advance.Diagram.{IsStarted, advance_job-⟶, advance_job-IsStarted}

-- How many rounds a swap may still take.
abbrev pub left_in : SwapState → List ℕ → ℕ
left_in wait_deposit uuid = 5
left_in selling uuid = 4
left_in buying uuid = if str_eq uuid [] then 3 else 2
left_in withdrawing uuid = 1
left_in _ uuid = 0

abbrev pub left : {F : Type 0} → SwapJob F → ℕ
left job = left_in job.state job.buy_order_uuid

abbrev pub IsOver : SwapState → Type 0
IsOver complete = Unit
IsOver failed = Unit
IsOver _ = ⊥

-- The exchange answers each question about a balance or an order, and gives its buy orders names.
pub record Responds {F W : Type 0} (out : Outside F W) : Type 0 where
  pub balance : (coin : List ℕ) (w : W) → (x : F) × ((out.get_balance coin w).0 ≡ done x)
  pub order : (uuid : List ℕ) (w : W) → (x : Bool) × ((out.get_order uuid w).0 ≡ done x)
  pub named :
      (market price qty : List ℕ) (w : W) (uuid : List ℕ)
      → (out.submit_buy market price qty w).0 ≡ done uuid
      → str_eq uuid [] ≡ false

left_in-le : (s : SwapState) (uuid : List ℕ) → left_in s uuid ≤ 5
left_in-le s uuid = ground arith

over :
    (job_state : SwapState) (uuid : List ℕ)
    → IsStarted job_state
    → left_in job_state uuid ≡ 0
    → IsOver job_state
over idle uuid st h = absurd st
over sending uuid st h = absurd st
over wait_deposit uuid st h = absurd (omega arith)
over selling uuid st h = absurd (omega arith)
over buying uuid st h = ground arith
over withdrawing uuid st h = absurd (omega arith)
over complete uuid st h = tt
over failed uuid st h = tt

module _ {F W : Type 0} (f64 : Float64 F) (out : Outside F W) (addrs : Map (List ℕ))
    (responds : Responds out) where
  initiate_withdraw-left :
      (now : ℕ) (job : SwapJob F) (w : W) → left (initiate_withdraw f64 out addrs now job w).0 ≡ 0
  unfolding initiate_withdraw finish
  initiate_withdraw-left now job w = ground arith

  place_buy_order-left :
      (now : ℕ) (job : SwapJob F) (w : W) → left (place_buy_order f64 out addrs now job w).0 ≤ 2
  unfolding place_buy_order fail_with_alert fail
  place_buy_order-left now job w = grind (arith, initiate_withdraw-left, responds.named)

  place_sell_order-left :
      (now : ℕ) (job : SwapJob F) (available : F) (w : W)
      → left (place_sell_order f64 out addrs now job available w).0 ≤ 4
  unfolding place_sell_order fail_with_alert fail
  place_sell_order-left now job available w = grind (arith, place_buy_order-left)

  sold-left : (now : ℕ) (job : SwapJob F) (w : W) → left (sold f64 out addrs now job w).0 ≤ 2
  unfolding sold
  sold-left now job w =
      grind (arith, place_buy_order-left, initiate_withdraw-left, responds.balance (codes "BTC") w)

  bought-left : (now : ℕ) (job : SwapJob F) (w : W) → left (bought f64 out addrs now job w).0 ≡ 0
  unfolding bought
  bought-left now job w = initiate_withdraw-left now _ _

  advance_wait_deposit-left :
      (now : ℕ) (job : SwapJob F) (w : W)
      → hours 6 < now - job.created_at
      → left (advance_wait_deposit f64 out addrs now job w).0 ≤ 4
  unfolding advance_wait_deposit fail_with_alert fail
  advance_wait_deposit-left now job w late =
      grind (arith, responds.balance job.source_coin w, place_sell_order-left)

  advance_selling-left :
      (now : ℕ) (job : SwapJob F) (w : W)
      → hours 2 < now - job.updated_at
      → left (advance_selling f64 out addrs now job w).0 ≤ 2
  unfolding advance_selling order_pending fail_with_alert fail
  advance_selling-left now job w late =
      grind (arith, responds.order job.sell_order_uuid w, sold-left)

  advance_buying-left :
      (now : ℕ) (job : SwapJob F) (w : W)
      → hours 2 < now - job.updated_at
      → left (advance_buying f64 out addrs now job w).0 < left_in buying job.buy_order_uuid
  unfolding advance_buying order_pending fail_with_alert fail
  advance_buying-left now job w late =
      grind (arith, responds.order job.buy_order_uuid w, bought-left, place_buy_order-left)

  advance_in-left :
      (s : SwapState) (now : ℕ) (job : SwapJob F) (w : W)
      → hours 6 < now - job.created_at
      → hours 2 < now - job.updated_at
      → s ≡ job.state
      → left (advance_in f64 out addrs now s job w).0 ≤ left_in s job.buy_order_uuid - 1
  unfolding advance_in
  advance_in-left wait_deposit now job w l₁ l₂ e = advance_wait_deposit-left now job w l₁
  advance_in-left selling now job w l₁ l₂ e = omega (arith, advance_selling-left now job w l₂)
  advance_in-left buying now job w l₁ l₂ e = omega (arith, advance_buying-left now job w l₂)
  advance_in-left withdrawing now job w l₁ l₂ e = omega (arith, initiate_withdraw-left now job w)
  advance_in-left idle now job w l₁ l₂ e = rw (sym e) (omega arith)
  advance_in-left sending now job w l₁ l₂ e = rw (sym e) (omega arith)
  advance_in-left complete now job w l₁ l₂ e = rw (sym e) (omega arith)
  advance_in-left failed now job w l₁ l₂ e = rw (sym e) (omega arith)

  advance_job-left :
      (now : ℕ) (job : SwapJob F) (w : W)
      → hours 6 < now - job.created_at
      → hours 2 < now - job.updated_at
      → left (advance_job f64 out addrs now job w).0 ≤ left job - 1
  unfolding advance_job
  advance_job-left now job w l₁ l₂ = advance_in-left job.state now job w l₁ l₂ refl

  advance_job-updated :
      (now : ℕ) (job : SwapJob F) (w : W)
      → job.updated_at ≤ now
      → (advance_job f64 out addrs now job w).0.updated_at ≤ now
  advance_job-updated now job w h = ground (arith, advance_job-⟶ f64 out addrs now job w)

  -- A swap over several rounds: the time of each, and what happens to the world before it.
  unfoldable pub advances : List (ℕ × (W → W)) → SwapJob F → W → SwapJob F × W
  advances [] job w = (job, w)
  advances ((now, others) ∷ rounds) job w =
      let (job', w') = advance_job f64 out addrs now job (others w) in advances rounds job' w'

  -- Each round is more than two hours after the last, and more than six after the swap began.
  abbrev pub AreLate : ℕ → ℕ → List (ℕ × (W → W)) → Type 0
  AreLate created last [] = Unit
  AreLate created last ((now, others) ∷ rounds) =
      (hours 6 < now - created) × (hours 2 < now - last) × AreLate created now rounds

  advances_end :
      (rounds : List (ℕ × (W → W))) (last : ℕ) (job : SwapJob F) (w : W)
      → IsStarted job.state
      → job.updated_at ≤ last
      → AreLate job.created_at last rounds
      → left job ≤ length rounds
      → IsOver (advances rounds job w).0.state
  unfolding advances
  advances_end [] last job w st upd late few = over job.state job.buy_order_uuid st (omega arith)
  advances_end ((now, others) ∷ rounds) last job w st upd (l₁, l₂, late) few =
      let next : SwapJob F = (advance_job f64 out addrs now job (others w)).0 in
      let same = (advance_job-⟶ f64 out addrs now job (others w)).1 in
      advances_end rounds now next (advance_job f64 out addrs now job (others w)).1
        (advance_job-IsStarted f64 out addrs now job (others w) st)
        (advance_job-updated now job (others w) (omega arith)) (rw same.created late)
        (omega (arith, advance_job-left now job (others w)))

  -- An exchange answers each question about a balance or an order, and gives its buy orders names. A
  -- job in any state but `idle` and `sending` is then complete or has failed after five rounds of
  -- advanceJob, each more than two hours after the one before it (the first, after the job changed)
  -- and more than six after the job was created; whatever happens to the exchange and the wallets
  -- between the rounds.
  pub advances-IsOver :
      (rounds : List (ℕ × (W → W))) (job : SwapJob F) (w : W)
      → IsStarted job.state
      → AreLate job.created_at job.updated_at rounds
      → 5 ≤ length rounds
      → IsOver (advances rounds job w).0.state
  advances-IsOver rounds job w st late five =
      advances_end rounds job.updated_at job w st (omega arith) late
        (omega (arith, left_in-le job.state job.buy_order_uuid))
