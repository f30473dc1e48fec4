-- ===== src/Swap/Tests.antt =====
-- Runs of the swap engine of internal/swap/engine.go on small inputs. Amounts are whole numbers, and
-- the world counts the calls that change it.
use pipool.Base.{ℕ, ◌+◌, ◌*◌, ◌≡◌, refl, arith, true, false, none, ◌⊎◌}
use pipool.Base.{List, [], ◌∷◌, ◌++◌, last_n}
use pipool.Go.Strings.{codes, str_eq}
use pipool.Toy.{whole}
use pipool.Swap.Job.{
  Rule, Config, SwapJob, wait_deposit, complete, no_error, done, refused, Outside,
}
use pipool.Swap.Advance.{advance_job}
use pipool.Swap.Advance.Diagram.{advance_job-⟶, Moves, SameSwap}
use pipool.Swap.Advance.Progress.{advances, advances-IsOver, IsOver, Responds}
use pipool.Swap.Engine.{Engine, new_engine, cleanup_jobs, market_name, check_and_initiate}
use pipool.Swap.Engine.Cleanup.{cleanup_jobs_lem, active_jobs, over_jobs}
use pipool.Swap.Engine.Initiate.{IsRefused, IsStart, check_and_initiate-IsRefused}
use pipool.Swap.Engine.Invariant.{IsValid}
use pipool.Swap.Engine.Run.{tick_at, set_rule, elsewhere, run, run-new_engine}

-- Every balance is 100 and no order is filled.
abbrev slow : Outside ℕ ℕ
slow = record {
  market_name = λ a b. a ++ (b'-' ∷ b);
  get_balance = λ coin w. (done 100, w);
  get_ticker = λ market w. (done (1, 1), w);
  submit_sell = λ market price qty w. (done (codes "s"), w + 1);
  submit_buy = λ market price qty w. (done (codes "b"), w + 1);
  get_order = λ uuid w. (done false, w);
  cancel_order = λ uuid w. w + 1;
  withdraw = λ coin amount addr w. (refused [], w);
  has_wallet = λ coin. true;
  wallet_balance = λ coin w. (done 100, w);
  send_to_address = λ coin addr amount w. (done (codes "tx"), w + 1);
  alert = λ severity job w. w;
  save_state = λ jobs history w. w;
}

abbrev job : SwapJob ℕ
job = record {
  id = (codes "DOGE", 5);
  source_coin = codes "DOGE";
  dest_coin = codes "LTC";
  amount = 1;
  state = wait_deposit;
  sell_order_uuid = [];
  buy_order_uuid = [];
  sell_price = [];
  buy_price = [];
  btc_proceeds = 0;
  dest_received = 0;
  tx_id = codes "tx";
  error = no_error;
  created_at = 5;
  updated_at = 5;
}

abbrev rule : Rule ℕ
rule = record {
  enabled = true;
  destination = codes "LTC";
  min_balance = 10;
  keep_balance = 5;
  max_slippage = 2;
}

abbrev config : Config ℕ
config = record {
  has_state_file = false;
  rules = (codes "DOGE", rule) ∷ [];
  deposit_addrs = (codes "DOGE", codes "D1") ∷ [];
  withdraw_addrs = [];
}

abbrev empty : Engine ℕ
empty = record { cfg = config; jobs = []; history = [] }

abbrev hour : ℕ → ℕ
hour n = 5 + n * 3600000

abbrev five_rounds : List (ℕ × (ℕ → ℕ))
five_rounds =
    (hour 7, λ w. w)
    ∷ (hour 10, λ w. w + 3)
    ∷ (hour 13, λ w. w)
    ∷ (hour 16, λ w. w)
    ∷ (hour 19, λ w. w)
    ∷ []

advance_job-⟶_example :
    Moves whole slow [] 9 job (advance_job whole slow [] 9 job 0).0
    × SameSwap 9 job (advance_job whole slow [] 9 job 0).0
advance_job-⟶_example = advance_job-⟶ whole slow [] 9 job 0

slow-Responds : Responds slow
slow-Responds = record {
  balance = λ coin w. (100, refl);
  order = λ uuid w. (false, refl);
  named =
      λ market price qty w uuid e. let eq : uuid ≡ codes "b" = cc in rw eq (unfold str_eq in refl);
}

advances-IsOver_example : IsOver (advances whole slow [] slow-Responds five_rounds job 0).0.state
advances-IsOver_example =
    advances-IsOver whole slow [] slow-Responds five_rounds job 0 tt (omega arith) (omega arith)

-- The exchange has no market for the coin.
abbrev no_markets : Outside ℕ ℕ
no_markets = record slow { market_name = λ a b. [] }

check_and_initiate-IsRefused_example :
    (IsRefused whole no_markets 9 empty (codes "DOGE") rule 0
      × ((check_and_initiate whole no_markets 9 empty (codes "DOGE") rule 0).0 ≡ empty))
    ⊎ IsStart whole no_markets 9 empty
        (check_and_initiate whole no_markets 9 empty (codes "DOGE") rule 0).0
        (codes "DOGE")
        rule
        0
check_and_initiate-IsRefused_example =
    check_and_initiate-IsRefused whole no_markets 9 empty (codes "DOGE") rule 0

abbrev one_over : Engine ℕ
one_over = record empty { jobs = job ∷ record job { state = complete } ∷ [] }

cleanup_jobs_lem_example :
    cleanup_jobs one_over
    ≡ record empty { jobs = job ∷ []; history = record job { state = complete } ∷ [] }
unfolding active_jobs over_jobs last_n
cleanup_jobs_lem_example = cleanup_jobs_lem one_over (omega arith)

run-new_engine_example :
    IsValid
      (run whole slow
        (tick_at (hour 0)
          ∷ set_rule (codes "BCH") rule
          ∷ elsewhere (λ w. w + 1)
          ∷ tick_at (hour 1)
          ∷ [])
        (new_engine config none)
        0).0
run-new_engine_example =
    run-new_engine whole slow config
      (tick_at (hour 0)
        ∷ set_rule (codes "BCH") rule
        ∷ elsewhere (λ w. w + 1)
        ∷ tick_at (hour 1)
        ∷ [])
      0
