-- ===== src/Pplns/Payouts.antt =====
-- internal/pplns/payout.go: BlockFound, which shares a block's reward out, and ProcessPayouts.
pub mod Credits
pub mod Log
use pipool.Base.{ℕ, ◌^◌, not, List, [], ◌∷◌, Option, none, some}
use pipool.Base.{take, ◌==◌, if◌then◌else◌}
use pipool.Go.Maps.{Map, lookup, insert, erase}
use pipool.Pplns.Ring.{snapshot}
use pipool.Go.Float.{Float64}
use pipool.Pplns.Engine.{Config, Share, Engine, of_coin, max_payout_log}

module _ {F : Type 0} (f64 : Float64 F) where
  unfoldable pub round_to : F → ℕ → F
  round_to v n = let pow = f64.lit (10 ^ n) 0 in f64.div (f64.round (f64.mul v pow)) pow

  -- `m[k]`, which is zero where there is no entry
  unfoldable pub or_zero : Option F → F
  or_zero none = f64.lit 0 0
  or_zero (some x) = x

  -- `m[k] += x`
  unfoldable pub add_to : Map F → List ℕ → F → Map F
  add_to m k x = insert m k (f64.add (or_zero (lookup m k)) x)

  -- `e.balances[coin]`, made where there is none
  unfoldable pub or_empty : Option (Map F) → Map F
  or_empty none = []
  or_empty (some m) = m

  -- `workerDiff[s.WorkerAddr] += s.Difficulty`
  unfoldable pub worker_diff : Map F → List (Share F) → Map F
  worker_diff m [] = m
  worker_diff m (s ∷ ss) = worker_diff (add_to m s.worker_addr s.difficulty) ss

  -- `totalDiff += s.Difficulty`
  unfoldable pub total_diff : F → List (Share F) → F
  total_diff sum [] = sum
  total_diff sum (s ∷ ss) = total_diff (f64.add sum s.difficulty) ss

  unfoldable pub credit_of : F → F → F → F
  credit_of distributable total diff = round_to (f64.mul distributable (f64.div diff total)) 8

  -- The loop over `workerDiff`, in some order of its entries.
  unfoldable pub credit_workers : F → F → Map F → Map F → Map F
  credit_workers distributable total balance [] = balance
  credit_workers distributable total balance ((addr, diff) ∷ rest) =
      credit_workers distributable total (add_to balance addr (credit_of distributable total diff))
        rest

  unfoldable pub distributable_of : Engine F → F → F
  distributable_of e reward =
      f64.mul reward (f64.sub (f64.lit 1 0) (f64.div e.cfg.pool_fee_rate (f64.lit 100 0)))

  unfoldable pub distribute : Engine F → List ℕ → F → List (Share F) → Engine F
  distribute e coin reward shares =
      let total = total_diff (f64.lit 0 0) shares in
      if f64.eq total (f64.lit 0 0) then e else record e {
        balances = insert e.balances coin (
            credit_workers (distributable_of e reward) total (or_empty (lookup e.balances coin))
              (worker_diff [] shares));
      }

  unfoldable pub block_found : Engine F → List ℕ → F → Engine F
  block_found e coin reward =
      if not e.cfg.enabled
      then e
      else if f64.le reward (f64.lit 0 0)
      then e
      else elim (lookup e.windows coin) [
        | none ↦ e
        | some rb ↦
            if rb.count == 0 then e else distribute e coin reward (of_coin f64 coin (snapshot rb))
      ]

  -- What is kept of a payment that the daemon made. `now` is time.Now().
  unfoldable pub settle : Engine F → List ℕ → List ℕ → F → List ℕ → ℕ → Engine F
  settle e coin addr amount tx_id now =
      let pending = or_empty (lookup e.balances coin) in
      let left = f64.sub (or_zero (lookup pending addr)) amount in
      record e {
        balances =
            insert e.balances coin
              (if f64.lt left (f64.lit 1 8) then erase pending addr else insert pending addr left);
        paid = insert e.paid coin (add_to (or_empty (lookup e.paid coin)) addr amount);
        payouts = take max_payout_log (
            record {
              coin = coin;
              worker_addr = addr;
              amount = amount;
              tx_id = tx_id;
              paid_at = now;
            }
            ∷ e.payouts);
      }

  -- `send` is the daemon's SendToAddress: a transaction, or `none` for an error.
  unfoldable pub pay_worker :
      (List ℕ → F → Option (List ℕ)) → F → ℕ → Engine F → List ℕ → List ℕ → F → Engine F
  pay_worker send min_payout now e coin addr balance =
      if f64.lt balance min_payout then e else elim (send addr (round_to balance 8)) [
        | none ↦ e
        | some tx_id ↦ settle e coin addr (round_to balance 8) tx_id now
      ]

  -- The loop over the balances of one coin. Each round writes to its own entry alone, so the entries
  -- that are read later are those of the start.
  unfoldable pub pay_workers :
      (List ℕ → F → Option (List ℕ)) → F → ℕ → Engine F → List ℕ → Map F → Engine F
  pay_workers send min_payout now e coin [] = e
  pay_workers send min_payout now e coin ((addr, balance) ∷ rest) =
      pay_workers send min_payout now (pay_worker send min_payout now e coin addr balance) coin rest

  -- 0.001 where the configuration has no threshold above zero
  unfoldable pub min_payout_of : Config F → List ℕ → F
  min_payout_of cfg coin =
      let configured = or_zero (lookup cfg.min_payout coin) in
      if f64.le configured (f64.lit 0 0) then f64.lit 1 3 else configured

  unfoldable pub pay_coins :
      (List ℕ → Option (List ℕ → F → Option (List ℕ))) → ℕ → Engine F → Map (Map F) → Engine F
  pay_coins rpcs now e [] = e
  pay_coins rpcs now e ((coin, balances) ∷ rest) =
      pay_coins rpcs now
        (elim (rpcs coin) [
          | none ↦ e
          | some send ↦ pay_workers send (min_payout_of e.cfg coin) now e coin balances
        ])
        rest

  unfoldable pub process_payouts :
      (List ℕ → Option (List ℕ → F → Option (List ℕ))) → ℕ → Engine F → Engine F
  process_payouts rpcs now e = if not e.cfg.enabled then e else pay_coins rpcs now e e.balances
