-- ===== src/Earnings/Snapshot.antt =====
-- internal/earnings/tracker.go: Snapshot, the view for the dashboard.
use pipool.Base.{ℕ, ◌+◌, ◌^◌, Bool, List, [], ◌∷◌, map, ltb, ◌==◌, if◌then◌else◌}
use pipool.Go.Float.{Float64}
use pipool.Go.Ints.{ℤ}
use pipool.Go.Maps.{Map, lookup}
use pipool.Go.Strings.{sort_strings}
use pipool.Earnings.State.{TrackedBlock, CoinAccum, EarningsTracker, or_new_accum}

pub record CoinStats (F : Type 0) : Type 0 where
  pub symbol : List ℕ
  pub blocks_found : ℕ
  pub blocks_confirmed : ℤ
  pub blocks_orphaned : ℕ
  pub total_reward : F
  pub total_usd : F
  pub avg_luck : F
  pub best_luck : F
  pub worst_luck : F
  pub last_block_at : List ℕ
  pub last_block_height : ℕ

pub record AllTimeStats (F : Type 0) : Type 0 where
  pub total_blocks_found : ℕ
  pub total_usd : F
  pub first_block_at : List ℕ

pub record RecentBlock (F : Type 0) : Type 0 where
  pub coin : List ℕ
  pub height : ℕ
  pub hash : List ℕ
  pub reward : F
  pub reward_label : List ℕ
  pub worker : List ℕ
  pub found_at : List ℕ
  pub confirmations : ℤ
  pub is_orphaned : Bool
  pub luck : F

pub record EarningsSnapshot (F : Type 0) : Type 0 where
  pub per_coin : List (CoinStats F)
  pub all_time : AllTimeStats F
  pub recent_blocks : List (RecentBlock F)

-- totalFound and totalUSD.
pub record Totals (F : Type 0) : Type 0 where
  pub total_found : ℕ
  pub total_usd : F

unfoldable pub symbols {ℓ} : {A : Type ℓ} → Map A → List (List ℕ)
symbols [] = []
symbols ((sym, acc) ∷ m) = sym ∷ symbols m

-- `rfc3339` stands for `t.UTC().Format(time.RFC3339)`; the zero time leaves the field empty.
module _ {F : Type 0} (f64 : Float64 F) (rfc3339 : ℕ → List ℕ) (price_fn : List ℕ → F) where
  unfoldable pub round_to : F → ℕ → F
  round_to v n = let pow = f64.lit (10 ^ n) 0 in f64.div (f64.round (f64.mul v pow)) pow

  unfoldable pub coin_usd : List ℕ → CoinAccum F → F
  coin_usd sym acc = f64.mul acc.total_reward (price_fn sym)

  unfoldable pub avg_luck : CoinAccum F → F
  avg_luck acc =
      if ltb 0 acc.luck_count then f64.div acc.luck_sum (f64.lit acc.luck_count 0) else f64.lit 0 0

  unfoldable pub time_text : ℕ → List ℕ
  time_text t = if t == 0 then [] else rfc3339 t

  unfoldable pub coin_stats : List ℕ → CoinAccum F → CoinStats F
  coin_stats sym acc = record {
    symbol = sym;
    blocks_found = acc.blocks_found;
    blocks_confirmed = acc.blocks_confirmed;
    blocks_orphaned = acc.blocks_orphaned;
    total_reward = round_to acc.total_reward 8;
    total_usd = round_to (coin_usd sym acc) 2;
    avg_luck = round_to (avg_luck acc) 1;
    best_luck = round_to acc.best_luck 1;
    worst_luck = round_to acc.worst_luck 1;
    last_block_at = time_text acc.last_block_at;
    last_block_height = if acc.last_block_at == 0 then 0 else acc.last_block_height;
  }

  -- The loop over the symbols in their order; every one of them is a key of the map.
  unfoldable pub add_totals : Map (CoinAccum F) → Totals F → List (List ℕ) → Totals F
  add_totals coins sums [] = sums
  add_totals coins sums (sym ∷ syms) =
      let acc = or_new_accum f64 (lookup coins sym) in
      add_totals coins
        (record {
          total_found = sums.total_found + acc.blocks_found;
          total_usd = f64.add sums.total_usd (coin_usd sym acc);
        })
        syms

  unfoldable pub recent_block : TrackedBlock F → RecentBlock F
  recent_block b = record {
    coin = b.coin;
    height = b.height;
    hash = b.hash;
    reward = round_to b.reward 8;
    reward_label = b.reward_label;
    worker = b.worker;
    found_at = rfc3339 b.found_at;
    confirmations = b.confirmations;
    is_orphaned = b.is_orphaned;
    luck = round_to b.luck 1;
  }

  unfoldable pub snapshot : EarningsTracker F → EarningsSnapshot F
  snapshot t =
      let syms = sort_strings (symbols t.coins) in
      let sums = add_totals t.coins (record { total_found = 0; total_usd = f64.lit 0 0 }) syms in
      record {
        per_coin = map (λ sym. coin_stats sym (or_new_accum f64 (lookup t.coins sym))) syms;
        all_time = record {
          total_blocks_found = sums.total_found;
          total_usd = round_to sums.total_usd 2;
          first_block_at = time_text t.first_block;
        };
        recent_blocks = map recent_block t.recent;
      }
