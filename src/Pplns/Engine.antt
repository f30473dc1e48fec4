-- ===== src/Pplns/Engine.antt =====
-- internal/pplns/payout.go: Config, Engine, RecordShare, BlockFound, ProcessPayouts, and the state
-- that buildPersistState writes and loadState reads.
pub mod Windows
pub mod Shares
pub mod Restart
use pipool.Base.{ℕ, Bool, false, not, ◌||◌, List, [], ◌∷◌, ◌++◌, Option, none, some}
use pipool.Base.{◌==◌, if◌then◌else◌}
use pipool.Go.Strings.{str_eq}
use pipool.Go.Float.{Float64}
use pipool.Go.Maps.{Map, lookup, insert}
use pipool.Pplns.Ring.{RingBuffer, new_ring_buffer, push, push_all, snapshot}

-- `time.Time` is a number.
pub record Share (F : Type 0) : Type 0 where
  pub worker_addr : List ℕ
  pub coin : List ℕ
  pub difficulty : F
  pub timestamp : ℕ

-- A size or interval below zero, which `defaults` replaces as it replaces zero, is a zero here.
pub record Config (F : Type 0) : Type 0 where
  pub enabled : Bool
  pub window_size : ℕ
  pub pool_fee_rate : F
  pub min_payout : Map F
  pub payout_interval : ℕ

pub record PayoutRecord (F : Type 0) : Type 0 where
  pub coin : List ℕ
  pub worker_addr : List ℕ
  pub amount : F
  pub tx_id : List ℕ
  pub paid_at : ℕ

pub record Engine (F : Type 0) : Type 0 where
  pub cfg : Config F
  pub windows : Map (RingBuffer (Share F))
  pub balances : Map (Map F)
  pub paid : Map (Map F)
  pub payouts : List (PayoutRecord F)

-- `Version` and `Saved`, which loadState does not read, are left out.
pub record PersistedState (F : Type 0) : Type 0 where
  pub shares : List (Share F)
  pub balances : Map (Map F)
  pub paid : Map (Map F)
  pub payouts : List (PayoutRecord F)

abbrev pub max_payout_log : ℕ
max_payout_log = 200

module _ {F : Type 0} (f64 : Float64 F) where
  unfoldable pub defaults : Config F → Config F
  defaults c = record {
    enabled = c.enabled;
    window_size = if c.window_size == 0 then 100000 else c.window_size;
    pool_fee_rate =
        let low = if f64.lt c.pool_fee_rate (f64.lit 0 0) then f64.lit 0 0 else c.pool_fee_rate in
        if f64.lt (f64.lit 100 0) low then f64.lit 100 0 else low;
    min_payout = c.min_payout;
    payout_interval = if c.payout_interval == 0 then 60 else c.payout_interval;
  }

  unfoldable pub blank_share : Share F
  blank_share = record { worker_addr = []; coin = []; difficulty = f64.lit 0 0; timestamp = 0 }

  -- `rb, ok := e.windows[coin]`, with a new buffer where there is none
  unfoldable pub or_new : ℕ → Option (RingBuffer (Share F)) → RingBuffer (Share F)
  or_new size none = new_ring_buffer blank_share size
  or_new size (some rb) = rb

  unfoldable pub window_of : ℕ → Map (RingBuffer (Share F)) → List ℕ → RingBuffer (Share F)
  window_of size windows coin = or_new size (lookup windows coin)

  -- Which shares RecordShare takes.
  unfoldable pub takes_share : Bool → List ℕ → List ℕ → F → Bool
  takes_share enabled coin worker_addr difficulty =
      if not enabled
      then false
      else not (str_eq coin [] || (str_eq worker_addr [] || f64.le difficulty (f64.lit 0 0)))

  -- `rb.push(s)` on the window of the coin
  unfoldable pub put_share : Engine F → List ℕ → Share F → Engine F
  put_share e coin s = record e {
    windows = insert e.windows coin (push (window_of e.cfg.window_size e.windows coin) s);
  }

  -- `now` is time.Now().
  unfoldable pub record_share : Engine F → List ℕ → List ℕ → F → ℕ → Engine F
  record_share e coin worker_addr difficulty now =
      if takes_share e.cfg.enabled coin worker_addr difficulty
      then put_share e coin (record {
        worker_addr = worker_addr;
        coin = coin;
        difficulty = difficulty;
        timestamp = now;
      })
      else e

  -- `s.Coin == coin`
  unfoldable pub of_coin : List ℕ → List (Share F) → List (Share F)
  of_coin coin [] = []
  of_coin coin (s ∷ ss) =
      let rest = of_coin coin ss in if str_eq s.coin coin then s ∷ rest else rest

  -- buildPersistState: the shares of every window, one window after the other
  unfoldable pub persisted_shares : Map (RingBuffer (Share F)) → List (Share F)
  persisted_shares [] = []
  persisted_shares ((coin, rb) ∷ windows) = of_coin coin (snapshot rb) ++ persisted_shares windows

  unfoldable pub build_persist_state : Engine F → PersistedState F
  build_persist_state e = record {
    shares = persisted_shares e.windows;
    balances = e.balances;
    paid = e.paid;
    payouts = e.payouts;
  }

  -- `coinShares[s.Coin] = append(coinShares[s.Coin], s)`
  unfoldable pub or_nil : Option (List (Share F)) → List (Share F)
  or_nil none = []
  or_nil (some ss) = ss

  unfoldable pub shares_of : Map (List (Share F)) → List ℕ → List (Share F)
  shares_of groups coin = or_nil (lookup groups coin)

  unfoldable pub group_shares : Map (List (Share F)) → List (Share F) → Map (List (Share F))
  group_shares groups [] = groups
  group_shares groups (s ∷ ss) =
      group_shares (insert groups s.coin (shares_of groups s.coin ++ (s ∷ []))) ss

  -- Every group is replayed into a new buffer.
  unfoldable pub replay : ℕ → Map (List (Share F)) → Map (RingBuffer (Share F))
  replay size [] = []
  replay size ((coin, ss) ∷ groups) =
      (coin, push_all (new_ring_buffer blank_share size) ss) ∷ replay size groups

  -- `none` is a file that is missing or cannot be parsed.
  unfoldable pub load_state : Config F → Option (PersistedState F) → Engine F
  load_state cfg none = record { cfg = cfg; windows = []; balances = []; paid = []; payouts = [] }
  load_state cfg (some ps) = record {
    cfg = cfg;
    windows = replay cfg.window_size (group_shares [] ps.shares);
    balances = ps.balances;
    paid = ps.paid;
    payouts = ps.payouts;
  }

  unfoldable pub new_engine : Config F → Option (PersistedState F) → Engine F
  new_engine cfg file = load_state (defaults cfg) file
