-- ===== src/Swap/Advance/Diagram.antt =====
-- The state diagram of a swap, internal/swap/engine.go.
use pipool.Base.{ℕ, ◌≡◌, refl, ◌⊎◌, inl, inr, arith, List}
use pipool.Go.Float.{Float64}
use pipool.Go.Maps.{Map}
use pipool.Swap.Job.{
  SwapJob, SwapState, idle, sending, wait_deposit, selling, buying, withdrawing, complete, failed,
  Outside,
}
use pipool.Swap.Advance.{
  fail, fail_with_alert, finish, initiate_withdraw, place_buy_order, place_sell_order,
  advance_wait_deposit, sold, order_pending, advance_selling, bought, advance_buying, advance_in,
  advance_job,
}

infix 40 ◌⟶◌
pub data ◌⟶◌ : SwapState → SwapState → Type 0 where
  sell : wait_deposit ⟶ selling
  buy : wait_deposit ⟶ buying
  pass : wait_deposit ⟶ complete
  spend : selling ⟶ buying
  cash : selling ⟶ complete
  place : buying ⟶ buying
  deliver : buying ⟶ complete
  settle : withdrawing ⟶ complete
  lose_deposit : wait_deposit ⟶ failed
  lose_sale : selling ⟶ failed
  lose_purchase : buying ⟶ failed

ruleset edges =
    (sell, buy, pass, spend, cash, place, deliver, settle, lose_deposit, lose_sale, lose_purchase)

-- A job of the state file may stand in `idle` or `sending`, which no call leaves.
abbrev pub IsStarted : SwapState → Type 0
IsStarted idle = ⊥
IsStarted sending = ⊥
IsStarted _ = Unit

edge-IsStarted : {s t : SwapState} → s ⟶ t → IsStarted t
edge-IsStarted sell = tt
edge-IsStarted buy = tt
edge-IsStarted pass = tt
edge-IsStarted spend = tt
edge-IsStarted cash = tt
edge-IsStarted place = tt
edge-IsStarted deliver = tt
edge-IsStarted settle = tt
edge-IsStarted lose_deposit = tt
edge-IsStarted lose_sale = tt
edge-IsStarted lose_purchase = tt

-- What a swap is about stays, and a change is stamped with the time.
pub record SameSwap {F : Type 0} (now : ℕ) (a b : SwapJob F) : Type 0 where
  pub id : b.id ≡ a.id
  pub source : b.source_coin ≡ a.source_coin
  pub dest : b.dest_coin ≡ a.dest_coin
  pub amount : b.amount ≡ a.amount
  pub tx : b.tx_id ≡ a.tx_id
  pub created : b.created_at ≡ a.created_at
  pub touched : (b.updated_at ≡ a.updated_at) ⊎ (b.updated_at ≡ now)

module _ {F W : Type 0} (f64 : Float64 F) (out : Outside F W) (addrs : Map (List ℕ)) (now : ℕ) where
  initiate_withdraw-state :
      (job : SwapJob F) (w : W) → (initiate_withdraw f64 out addrs now job w).0.state ≡ complete
  unfolding initiate_withdraw finish
  initiate_withdraw-state job w = ground arith

  initiate_withdraw-SameSwap :
      (job : SwapJob F) (w : W) → SameSwap now job (initiate_withdraw f64 out addrs now job w).0
  unfolding initiate_withdraw finish
  initiate_withdraw-SameSwap job w = ground arith

  place_buy_order-SameSwap :
      (job : SwapJob F) (w : W) → SameSwap now job (place_buy_order f64 out addrs now job w).0
  unfolding place_buy_order fail_with_alert fail
  place_buy_order-SameSwap job w =
      ground (arith, initiate_withdraw-SameSwap (record job { state = withdrawing }) w)

  place_buy_order-⟶ :
      (s : SwapState) (job : SwapJob F) (w : W)
      → s ⟶ complete
      → s ⟶ buying
      → s ⟶ failed
      → s ⟶ (place_buy_order f64 out addrs now job w).0.state
  unfolding place_buy_order fail_with_alert fail
  place_buy_order-⟶ s job w c b f =
      ground (arith, initiate_withdraw-state (record job { state = withdrawing }) w)

  place_sell_order-SameSwap :
      (job : SwapJob F) (available : F) (w : W)
      → SameSwap now job (place_sell_order f64 out addrs now job available w).0
  unfolding place_sell_order fail_with_alert fail
  place_sell_order-SameSwap job available w = ground (
    arith,
    place_buy_order-SameSwap
        (record job { btc_proceeds = available; state = buying; updated_at = now }) w,
  )

  place_sell_order-⟶ :
      (job : SwapJob F) (available : F) (w : W)
      → wait_deposit ⟶ (place_sell_order f64 out addrs now job available w).0.state
  unfolding place_sell_order fail_with_alert fail
  place_sell_order-⟶ job available w = grind (arith, edges, place_buy_order-⟶)

  -- A job that is left as it was, or that took an edge of the diagram.
  abbrev pub Moves : SwapJob F → SwapJob F → Type 0
  Moves a b = (b ≡ a) ⊎ (a.state ⟶ b.state)

  advance_wait_deposit-SameSwap :
      (job : SwapJob F) (w : W) → SameSwap now job (advance_wait_deposit f64 out addrs now job w).0
  unfolding advance_wait_deposit fail_with_alert fail
  advance_wait_deposit-SameSwap job w = grind (arith, place_sell_order-SameSwap)

  advance_wait_deposit-⟶ :
      (job : SwapJob F) (w : W)
      → ((advance_wait_deposit f64 out addrs now job w).0 ≡ job)
        ⊎ (wait_deposit ⟶ (advance_wait_deposit f64 out addrs now job w).0.state)
  unfolding advance_wait_deposit fail_with_alert fail
  advance_wait_deposit-⟶ job w = grind (arith, edges, place_sell_order-⟶)

  sold-SameSwap : (job : SwapJob F) (w : W) → SameSwap now job (sold f64 out addrs now job w).0
  unfolding sold
  sold-SameSwap job w = grind (arith, place_buy_order-SameSwap, initiate_withdraw-SameSwap)

  sold-⟶ :
      (job : SwapJob F) (w : W)
      → ((sold f64 out addrs now job w).0 ≡ job)
        ⊎ (selling ⟶ (sold f64 out addrs now job w).0.state)
  unfolding sold
  sold-⟶ job w = grind (arith, edges, place_buy_order-⟶, initiate_withdraw-state)

  advance_selling-SameSwap :
      (job : SwapJob F) (w : W) → SameSwap now job (advance_selling f64 out addrs now job w).0
  unfolding advance_selling order_pending fail_with_alert fail
  advance_selling-SameSwap job w = grind (arith, sold-SameSwap)

  advance_selling-⟶ :
      (job : SwapJob F) (w : W)
      → ((advance_selling f64 out addrs now job w).0 ≡ job)
        ⊎ (selling ⟶ (advance_selling f64 out addrs now job w).0.state)
  unfolding advance_selling order_pending fail_with_alert fail
  advance_selling-⟶ job w = grind (arith, edges, sold-⟶)

  bought-SameSwap : (job : SwapJob F) (w : W) → SameSwap now job (bought f64 out addrs now job w).0
  unfolding bought
  bought-SameSwap job w = grind (arith, initiate_withdraw-SameSwap)

  bought-state : (job : SwapJob F) (w : W) → (bought f64 out addrs now job w).0.state ≡ complete
  unfolding bought
  bought-state job w = initiate_withdraw-state _ _

  advance_buying-SameSwap :
      (job : SwapJob F) (w : W) → SameSwap now job (advance_buying f64 out addrs now job w).0
  unfolding advance_buying order_pending fail_with_alert fail
  advance_buying-SameSwap job w = grind (arith, bought-SameSwap, place_buy_order-SameSwap)

  advance_buying-⟶ :
      (job : SwapJob F) (w : W)
      → ((advance_buying f64 out addrs now job w).0 ≡ job)
        ⊎ (buying ⟶ (advance_buying f64 out addrs now job w).0.state)
  unfolding advance_buying order_pending fail_with_alert fail
  advance_buying-⟶ job w = grind (arith, edges, bought-state, place_buy_order-⟶)

  advance_in-SameSwap :
      (s : SwapState) (job : SwapJob F) (w : W)
      → SameSwap now job (advance_in f64 out addrs now s job w).0
  unfolding advance_in
  advance_in-SameSwap wait_deposit job w = advance_wait_deposit-SameSwap job w
  advance_in-SameSwap selling job w = advance_selling-SameSwap job w
  advance_in-SameSwap buying job w = advance_buying-SameSwap job w
  advance_in-SameSwap withdrawing job w = initiate_withdraw-SameSwap job w
  advance_in-SameSwap _ job w = ground arith

  advance_in-⟶ :
      (s : SwapState) (job : SwapJob F) (w : W)
      → ((advance_in f64 out addrs now s job w).0 ≡ job)
        ⊎ (s ⟶ (advance_in f64 out addrs now s job w).0.state)
  unfolding advance_in
  advance_in-⟶ wait_deposit job w = advance_wait_deposit-⟶ job w
  advance_in-⟶ selling job w = advance_selling-⟶ job w
  advance_in-⟶ buying job w = advance_buying-⟶ job w
  advance_in-⟶ withdrawing job w = grind (arith, edges, initiate_withdraw-state)
  advance_in-⟶ _ job w = inl refl

  -- Whatever the exchange and the wallets answer, advancing a job leaves it as it was or moves it
  -- along an edge of the diagram, and keeps its id, coins, amount, transaction and time of creation;
  -- its time of change stays or is the time of the call.
  pub advance_job-⟶ :
      (job : SwapJob F) (w : W)
      → Moves job (advance_job f64 out addrs now job w).0
        × SameSwap now job (advance_job f64 out addrs now job w).0
  unfolding advance_job
  advance_job-⟶ job w = (advance_in-⟶ job.state job w, advance_in-SameSwap job.state job w)

  pub advance_job-IsStarted :
      (job : SwapJob F) (w : W)
      → IsStarted job.state
      → IsStarted (advance_job f64 out addrs now job w).0.state
  advance_job-IsStarted job w st = elim (advance_job-⟶ job w).0 [
    | inl same ↦ rw same st
    | inr edge ↦ edge-IsStarted edge
  ]
