-- ===== src/Swap/Job.antt =====
-- internal/swap/engine.go: Config, Rule, SwapJob, and what the engine asks of the outside.
use pipool.Base.{ℕ, Bool, List}
use pipool.Go.Maps.{Map}

pub record Rule (F : Type 0) : Type 0 where
  pub enabled : Bool
  pub destination : List ℕ
  pub min_balance : F
  pub keep_balance : F
  pub max_slippage : F

-- The fields that the engine reads after New. `has_state_file` is `StateFile != ""`.
pub record Config (F : Type 0) : Type 0 where
  pub has_state_file : Bool
  pub rules : Map (Rule F)
  pub deposit_addrs : Map (List ℕ)
  pub withdraw_addrs : Map (List ℕ)

pub data SwapState : Type 0 where
  idle sending wait_deposit selling buying withdrawing complete failed : SwapState

-- The `Error` text of a job: which of the texts it is, with the parts that are printed into it.
pub data JobError : Type 0 where
  no_error deposit_not_credited sell_not_filled buy_not_filled : JobError
  send_failed sell_failed buy_failed : List ℕ → JobError
  no_bids no_asks : List ℕ → JobError
  ticker_error : List ℕ → List ℕ → JobError

-- `id` is the coin and the time of which the text is made. Times are in milliseconds. RetryCount,
-- which nothing reads or writes, is left out.
pub record SwapJob (F : Type 0) : Type 0 where
  pub id : List ℕ × ℕ
  pub source_coin : List ℕ
  pub dest_coin : List ℕ
  pub amount : F
  pub state : SwapState
  pub sell_order_uuid : List ℕ
  pub buy_order_uuid : List ℕ
  pub sell_price : List ℕ
  pub buy_price : List ℕ
  pub btc_proceeds : F
  pub dest_received : F
  pub tx_id : List ℕ
  pub error : JobError
  pub created_at : ℕ
  pub updated_at : ℕ

-- What a call to the outside answers: a value, or the text of an error.
pub data Answer {ℓ} (A : Type ℓ) : Type ℓ where
  done : A → Answer A
  refused : List ℕ → Answer A

pub data Severity : Type 0 where
  info warn error : Severity

-- The exchange, the wallets, the alerter and the state file. Each call may change the world `W`.
-- The texts of an alert are made from the job that is given.
pub record Outside (F W : Type 0) : Type 0 where
  pub market_name : List ℕ → List ℕ → List ℕ
  pub get_balance : List ℕ → W → Answer F × W
  pub get_ticker : List ℕ → W → Answer (F × F) × W
  pub submit_sell : List ℕ → List ℕ → List ℕ → W → Answer (List ℕ) × W
  pub submit_buy : List ℕ → List ℕ → List ℕ → W → Answer (List ℕ) × W
  pub get_order : List ℕ → W → Answer Bool × W
  pub cancel_order : List ℕ → W → W
  pub withdraw : List ℕ → F → List ℕ → W → Answer (List ℕ) × W
  pub has_wallet : List ℕ → Bool
  pub wallet_balance : List ℕ → W → Answer F × W
  pub send_to_address : List ℕ → List ℕ → F → W → Answer (List ℕ) × W
  pub alert : Severity → SwapJob F → W → W
  pub save_state : List (SwapJob F) → List (SwapJob F) → W → W
