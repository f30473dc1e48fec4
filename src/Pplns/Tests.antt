-- ===== src/Pplns/Tests.antt =====
-- Runs of the payout engine of internal/pplns/payout.go on small inputs. Amounts are whole numbers.
use pipool.Base.{ℕ, ◌≡◌, arith, true}
use pipool.Base.{List, [], ◌∷◌, none, some}
use pipool.Go.Strings.{codes, str_eq}
use pipool.Pplns.Ring.{new_ring_buffer, push_all, snapshot}
use pipool.Base.{last_n}
use pipool.Pplns.Ring.Window.{snapshot-push_all}
use pipool.Base.{refl, Option, length, ◌≤◌, ◌++◌, take}
use pipool.Base.Bytes.{All}
use pipool.Go.Maps.{lookup}
use pipool.Pplns.Payouts.{
  process_payouts, pay_coins, pay_workers, pay_worker, settle, min_payout_of,
}
use pipool.Pplns.Payouts.{or_zero, or_empty, round_to, block_found}
use pipool.Pplns.Payouts.Log.{IsDue, process_payouts-log}
use pipool.Pplns.Payouts.Credits.{
  difficulties, balance_of, has_shares, paid_shares, sum_of, credited, balance_of-block_found,
}
use pipool.Pplns.Engine.{Engine, PayoutRecord, of_coin}
use pipool.Toy.{whole, hundredths}
use pipool.Pplns.Engine.{Share, Config, defaults, new_engine, build_persist_state}
use pipool.Pplns.Engine.Windows.{window_shares}
use pipool.Pplns.Engine.Shares.{counts, record_all, taken, window_shares-record_all}
use pipool.Pplns.Engine.Restart.{window_shares-restart}

abbrev config : ℕ → Config ℕ
config size = record {
  enabled = true;
  window_size = size;
  pool_fee_rate = 1;
  min_payout = [];
  payout_interval = 0;
}

abbrev share : List ℕ → List ℕ → ℕ → Share ℕ
share coin addr time = record { worker_addr = addr; coin = coin; difficulty = 8; timestamp = time }

abbrev five_shares : List (Share ℕ)
five_shares =
    share (codes "LTC") (codes "a") 1
    ∷ share (codes "BCH") (codes "b") 2
    ∷ share (codes "LTC") (codes "b") 3
    ∷ share (codes "LTC") [] 4
    ∷ share (codes "LTC") (codes "c") 5
    ∷ []

snapshot-push_all_example :
    snapshot {A = ℕ} (push_all (new_ring_buffer 0 3) (1 ∷ 2 ∷ 3 ∷ 4 ∷ 5 ∷ [])) ≡ 3 ∷ 4 ∷ 5 ∷ []
unfolding last_n
snapshot-push_all_example = snapshot-push_all {A = ℕ} 0 3 (1 ∷ 2 ∷ 3 ∷ 4 ∷ 5 ∷ []) (omega arith)

window_shares-record_all_example :
    window_shares whole 2
      (record_all whole (new_engine whole (config 2) none) five_shares).windows
      (codes "LTC")
    ≡ share (codes "LTC") (codes "b") 3 ∷ share (codes "LTC") (codes "c") 5 ∷ []
unfolding last_n taken defaults counts str_eq
window_shares-record_all_example =
    window_shares-record_all whole (config 2) five_shares (codes "LTC")

window_shares-restart_example :
    window_shares whole 1
      (new_engine whole (config 1) (
        some (
          build_persist_state whole
            (record_all whole (new_engine whole (config 2) none) five_shares)))).windows
      (codes "LTC")
    ≡ last_n 1 (
        window_shares whole 2
          (record_all whole (new_engine whole (config 2) none) five_shares).windows
          (codes "LTC"))
unfolding defaults
window_shares-restart_example =
    window_shares-restart whole (config 2) (config 1) five_shares (codes "LTC")

-- Two workers wait for their payout, one of them below the threshold.
abbrev waiting : Engine ℕ
waiting = record {
  cfg = record (config 2) { min_payout = (codes "LTC", 10) ∷ [] };
  windows = [];
  balances = (codes "LTC", (codes "a", 50) ∷ (codes "b", 3) ∷ []) ∷ [];
  paid = [];
  payouts = [];
}

abbrev daemons : List ℕ → Option (List ℕ → ℕ → Option (List ℕ))
daemons coin = some (λ addr amount. some (codes "tx"))

pays_one :
    (process_payouts whole daemons 7 waiting).payouts
    ≡ record {
      coin = codes "LTC";
      worker_addr = codes "a";
      amount = 50;
      tx_id = codes "tx";
      paid_at = 7;
    }
      ∷ []
unfolding process_payouts pay_coins pay_workers pay_worker settle min_payout_of or_zero lookup
    str_eq round_to
pays_one = refl

process_payouts-log_example :
    (length (process_payouts whole daemons 7 waiting).payouts ≤ 200)
    × ((recent : List (PayoutRecord ℕ)) × ((process_payouts whole daemons 7 waiting).payouts
          ≡ take 200 (recent ++ []))
        × All (IsDue whole daemons waiting.cfg waiting.balances) recent)
process_payouts-log_example = process_payouts-log whole daemons waiting 7 (omega arith)

-- A block of 1000.00 with a fee of 10 percent, two workers with difficulties 1 + 2 and 1, and a
-- balance of 0.50.
abbrev filled : Engine ℕ
filled = record waiting {
  cfg = record (config 4) { pool_fee_rate = 1000 };
  windows =
      (
        codes "LTC",
        record {
          buf =
              record (share (codes "LTC") (codes "a") 1) { difficulty = 100 }
              ∷ record (share (codes "LTC") (codes "b") 2) { difficulty = 100 }
              ∷ record (share (codes "LTC") (codes "a") 3) { difficulty = 200 }
              ∷ [];
          cap = 3;
          head = 0;
          count = 3;
        },
      )
      ∷ [];
}

-- Three quarters of 900.00, on top of 0.50.
balance_of-block_found_example :
    balance_of hundredths
      (block_found hundredths filled (codes "LTC") 100000)
      (codes "LTC")
      (codes "a")
    ≡ some 67550
unfolding has_shares paid_shares difficulties balance_of sum_of credited or_empty lookup str_eq
    of_coin snapshot
balance_of-block_found_example =
    balance_of-block_found hundredths filled (codes "LTC") 100000 (codes "LTC") (codes "a")
