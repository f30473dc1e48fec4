-- ===== src/Earnings/State.antt =====
-- internal/earnings/tracker.go: the tracker's state, what is persisted of it, and the counters of a coin.
-- The zero time is 0.
use pipool.Base.{ℕ, ◌≡◌, ◌∷◌, ap, refl, suc, Bool, ◌||◌, List, [], Option, none, some, map}
use pipool.Base.{if◌then◌else◌}
use pipool.Go.Float.{Float64}
use pipool.Go.Ints.{ℤ, pos, add_one}
use pipool.Go.Maps.{Map}
use pipool.Go.Strings.{to_upper}

-- Without the fields that the tracker does not read.
pub record BlockLogEntry (F : Type 0) : Type 0 where
  pub coin : List ℕ
  pub height : ℕ
  pub hash : List ℕ
  pub reward : List ℕ
  pub worker : List ℕ
  pub found_at : ℕ
  pub confirmations : ℤ
  pub is_orphaned : Bool
  pub block_luck : F

pub record TrackedBlock (F : Type 0) : Type 0 where
  pub coin : List ℕ
  pub height : ℕ
  pub hash : List ℕ
  pub reward : F
  pub reward_label : List ℕ
  pub worker : List ℕ
  pub found_at : ℕ
  pub confirmations : ℤ
  pub is_orphaned : Bool
  pub luck : F

pub record CoinAccum (F : Type 0) : Type 0 where
  pub blocks_found : ℕ
  pub blocks_confirmed : ℤ
  pub blocks_orphaned : ℕ
  pub total_reward : F
  pub luck_sum : F
  pub luck_count : ℕ
  pub best_luck : F
  pub worst_luck : F
  pub last_block_at : ℕ
  pub last_block_height : ℕ

-- As they are written to the file.
pub record PersistedCoin (F : Type 0) : Type 0 where
  pub blocks_found : ℕ
  pub blocks_confirmed : ℤ
  pub blocks_orphaned : ℕ
  pub total_reward : F
  pub luck_sum : F
  pub luck_count : ℕ
  pub best_luck : F
  pub worst_luck : F
  pub last_block_at : ℕ
  pub last_block_height : ℕ

pub record PersistedBlock (F : Type 0) : Type 0 where
  pub coin : List ℕ
  pub height : ℕ
  pub hash : List ℕ
  pub reward : F
  pub reward_label : List ℕ
  pub worker : List ℕ
  pub found_at : ℕ
  pub confirmations : ℤ
  pub is_orphaned : Bool
  pub luck : F

pub record PersistedState (F : Type 0) : Type 0 where
  pub version : ℕ
  pub saved : ℕ
  pub coin_stats : Map (PersistedCoin F)
  pub first_block : ℕ
  pub blocks : List (PersistedBlock F)

-- Without the paths of the files, and the price function, which Snapshot takes as an argument.
pub record EarningsTracker (F : Type 0) : Type 0 where
  pub coins : Map (CoinAccum F)
  pub recent : List (TrackedBlock F)
  pub first_block : ℕ

abbrev pub persist_version : ℕ
persist_version = 1

abbrev pub max_recent_blocks : ℕ
max_recent_blocks = 100

-- `strings.ToUpper` on ASCII text
unfoldable pub upper : List ℕ → List ℕ
upper s = map to_upper s

module _ {F : Type 0} where
  unfoldable pub persist_coin : CoinAccum F → PersistedCoin F
  persist_coin acc = record {
    blocks_found = acc.blocks_found;
    blocks_confirmed = acc.blocks_confirmed;
    blocks_orphaned = acc.blocks_orphaned;
    total_reward = acc.total_reward;
    luck_sum = acc.luck_sum;
    luck_count = acc.luck_count;
    best_luck = acc.best_luck;
    worst_luck = acc.worst_luck;
    last_block_at = acc.last_block_at;
    last_block_height = acc.last_block_height;
  }

  unfoldable pub restore_coin : PersistedCoin F → CoinAccum F
  restore_coin pc = record {
    blocks_found = pc.blocks_found;
    blocks_confirmed = pc.blocks_confirmed;
    blocks_orphaned = pc.blocks_orphaned;
    total_reward = pc.total_reward;
    luck_sum = pc.luck_sum;
    luck_count = pc.luck_count;
    best_luck = pc.best_luck;
    worst_luck = pc.worst_luck;
    last_block_at = pc.last_block_at;
    last_block_height = pc.last_block_height;
  }

  unfoldable pub persist_block : TrackedBlock F → PersistedBlock F
  persist_block b = record {
    coin = b.coin;
    height = b.height;
    hash = b.hash;
    reward = b.reward;
    reward_label = b.reward_label;
    worker = b.worker;
    found_at = b.found_at;
    confirmations = b.confirmations;
    is_orphaned = b.is_orphaned;
    luck = b.luck;
  }

  unfoldable pub restore_block : PersistedBlock F → TrackedBlock F
  restore_block pb = record {
    coin = pb.coin;
    height = pb.height;
    hash = pb.hash;
    reward = pb.reward;
    reward_label = pb.reward_label;
    worker = pb.worker;
    found_at = pb.found_at;
    confirmations = pb.confirmations;
    is_orphaned = pb.is_orphaned;
    luck = pb.luck;
  }

  -- The loops over the coins, in some order of the map.
  unfoldable pub persist_coins : Map (CoinAccum F) → Map (PersistedCoin F)
  persist_coins [] = []
  persist_coins ((sym, acc) ∷ coins) = (sym, persist_coin acc) ∷ persist_coins coins

  unfoldable pub restore_coins : Map (PersistedCoin F) → Map (CoinAccum F)
  restore_coins [] = []
  restore_coins ((sym, pc) ∷ coins) = (sym, restore_coin pc) ∷ restore_coins coins

  unfoldable pub build_state : ℕ → EarningsTracker F → PersistedState F
  build_state now t = record {
    version = persist_version;
    saved = now;
    coin_stats = persist_coins t.coins;
    first_block = t.first_block;
    blocks = map persist_block t.recent;
  }

  -- A file that is missing or cannot be parsed is `none`.
  unfoldable pub load_persisted : Option (PersistedState F) → EarningsTracker F
  load_persisted none = record { coins = []; recent = []; first_block = 0 }
  load_persisted (some state) = record {
    coins = restore_coins state.coin_stats;
    recent = map restore_block state.blocks;
    first_block = state.first_block;
  }

  restore_coins-persist_coins :
      (coins : Map (CoinAccum F)) → restore_coins (persist_coins coins) ≡ coins
  unfolding restore_coins persist_coins restore_coin persist_coin
  restore_coins-persist_coins [] = refl
  restore_coins-persist_coins ((sym, acc) ∷ coins) =
      ap (λ rest. (sym, acc) ∷ rest) (restore_coins-persist_coins coins)

  restore_blocks :
      (blocks : List (TrackedBlock F)) → map restore_block (map persist_block blocks) ≡ blocks
  unfolding restore_block persist_block
  restore_blocks [] = refl
  restore_blocks (b ∷ blocks) = ap (λ rest. b ∷ rest) (restore_blocks blocks)

  -- A state that was persisted of a tracker is read as that tracker.
  pub load_persisted-build_state :
      (now : ℕ) (t : EarningsTracker F) → load_persisted (some (build_state now t)) ≡ t
  unfolding load_persisted build_state
  load_persisted-build_state now t =
      rw (restore_coins-persist_coins t.coins, restore_blocks t.recent) refl

module _ {F : Type 0} (f64 : Float64 F) where
  unfoldable pub new_accum : CoinAccum F
  new_accum = record {
    blocks_found = 0;
    blocks_confirmed = pos 0;
    blocks_orphaned = 0;
    total_reward = f64.lit 0 0;
    luck_sum = f64.lit 0 0;
    luck_count = 0;
    best_luck = f64.lit 0 0;
    worst_luck = f64.lit 0 0;
    last_block_at = 0;
    last_block_height = 0;
  }

  -- getOrCreateCoinLocked
  unfoldable pub or_new_accum : Option (CoinAccum F) → CoinAccum F
  or_new_accum none = new_accum
  or_new_accum (some acc) = acc

  unfoldable pub add_luck : F → CoinAccum F → CoinAccum F
  add_luck luck acc =
      if f64.lt (f64.lit 0 0) luck
      then record acc {
        luck_sum = f64.add acc.luck_sum luck;
        luck_count = suc acc.luck_count;
        best_luck =
            if f64.eq acc.best_luck (f64.lit 0 0) || f64.lt acc.best_luck luck
            then luck
            else acc.best_luck;
        worst_luck =
            if f64.eq acc.worst_luck (f64.lit 0 0) || f64.lt luck acc.worst_luck
            then luck
            else acc.worst_luck;
      }
      else acc

  unfoldable pub confirm : F → CoinAccum F → CoinAccum F
  confirm reward acc = record acc {
    blocks_confirmed = add_one acc.blocks_confirmed;
    total_reward = f64.add acc.total_reward reward;
  }
