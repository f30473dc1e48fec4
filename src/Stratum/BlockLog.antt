-- ===== src/Stratum/BlockLog.antt =====
-- internal/stratum/server.go: the log of the blocks that were found, its file, and one round of
-- trackConfirmations.
pub mod Alerts
mod Tests
use pipool.Base.{
  ℕ, Bool, true, false, not, ◌&&◌, ◌||◌, List, [], ◌∷◌, ◌++◌, Option, none, some, map,
}
use pipool.Base.{length, last_n, ◌==◌, if◌then◌else◌}
use pipool.Go.Float.{Float64}
use pipool.Go.Ints.{ℤ, pos, is_negative, below}
use pipool.Go.Strings.{codes, str_eq, to_upper}

pub record BlockEntry (F : Type 0) : Type 0 where
  pub coin : List ℕ
  pub height : ℕ
  pub hash : List ℕ
  pub reward : List ℕ
  pub worker : List ℕ
  pub found_at : ℕ
  pub confirmations : ℤ
  pub is_orphaned : Bool
  pub is_aux : Bool
  pub aux_parent_coin : List ℕ
  pub block_luck : F
  pub mature_notified : Bool

-- What one round calls: OnBlockMature and OnBlockOrphaned.
pub data BlockEvent : Type 0 where
  block_mature : (coin hash : List ℕ) (height : ℕ) (reward : List ℕ) → BlockEvent
  block_orphaned : (coin hash : List ℕ) (height : ℕ) → BlockEvent

pub record Update : Type 0 where
  pub hash : List ℕ
  pub confirmations : ℤ
  pub orphaned : Bool

unfoldable pub coin_maturity_threshold : List ℕ → ℕ
coin_maturity_threshold symbol = if str_eq (map to_upper symbol) (codes "DOGE") then 60 else 100

module _ {F : Type 0} where
  -- The append of recordBlock and RecordBlock, and the cap.
  unfoldable pub append_block : List (BlockEntry F) → BlockEntry F → List (BlockEntry F)
  append_block log entry = last_n 50 (log ++ (entry ∷ []))

  unfoldable pub needs_check : BlockEntry F → Bool
  needs_check e =
      not e.is_orphaned
      && (below 120 e.confirmations
          && (not (str_eq e.hash []) && not (str_eq e.hash (codes "(pending)"))))

  -- The updates of a round; `get_block` stands for the node, which gives confirmations, or an error.
  unfoldable pub collect_updates : (List ℕ → Option ℤ) → List (BlockEntry F) → List Update
  collect_updates get_block [] = []
  collect_updates get_block (e ∷ log) =
      let rest = collect_updates get_block log in
      if needs_check e
      then elim (get_block e.hash) [
        | none ↦ rest
        | some n ↦ record { hash = e.hash; confirmations = n; orphaned = is_negative n } ∷ rest
      ]
      else rest

  -- An update of an entry, and what is called.
  unfoldable pub orphan_entry : BlockEntry F → BlockEntry F × List BlockEvent
  orphan_entry e =
      if e.is_orphaned
      then (e, [])
      else (record e { is_orphaned = true }, block_orphaned e.coin e.hash e.height ∷ [])

  unfoldable pub confirm_entry : ℤ → BlockEntry F → BlockEntry F × List BlockEvent
  confirm_entry n e =
      if not e.mature_notified && not (below (coin_maturity_threshold e.coin) n)
      then (
        record e { confirmations = n; mature_notified = true },
        block_mature e.coin e.hash e.height e.reward ∷ [],
      )
      else (record e { confirmations = n }, [])

  unfoldable pub update_entry : Update → BlockEntry F → BlockEntry F × List BlockEvent
  update_entry u e =
      if not (str_eq e.hash u.hash)
      then (e, [])
      else if u.orphaned
      then orphan_entry e
      else confirm_entry u.confirmations e

  -- The inner loop, over the updates, and the outer one, over the log.
  unfoldable pub update_by_all : List Update → BlockEntry F → BlockEntry F × List BlockEvent
  update_by_all [] e = (e, [])
  update_by_all (u ∷ updates) e =
      let (next, events) = update_entry u e in
      let (last, more) = update_by_all updates next in (last, events ++ more)

  unfoldable pub update_log :
      List Update → List (BlockEntry F) → List (BlockEntry F) × List BlockEvent
  update_log updates [] = ([], [])
  update_log updates (e ∷ log) =
      let (next, events) = update_by_all updates e in
      let (rest, more) = update_log updates log in (next ∷ rest, events ++ more)

  -- One tick of trackConfirmations.
  unfoldable pub confirmations_round :
      (List ℕ → Option ℤ) → List (BlockEntry F) → List (BlockEntry F) × List BlockEvent
  confirmations_round get_block log = update_log (collect_updates get_block log) log

  unfoldable pub known_hash : List (BlockEntry F) → List ℕ → Bool
  known_hash [] hash = false
  known_hash (e ∷ log) hash = (not (str_eq e.hash []) && str_eq e.hash hash) || known_hash log hash

  unfoldable pub historical : List (BlockEntry F) → List (BlockEntry F) → List (BlockEntry F)
  historical log [] = []
  historical log (e ∷ entries) =
      let rest = historical log entries in if known_hash log e.hash then rest else e ∷ rest

  -- loadBlockLog; a file that is missing or cannot be parsed is `none`. An entry of the file has the
  -- fields of an entry of the log.
  unfoldable pub load_block_log :
      Option (List (BlockEntry F)) → List (BlockEntry F) → List (BlockEntry F)
  load_block_log none log = log
  load_block_log (some entries) log =
      let old = historical log entries in if length old == 0 then log else last_n 50 (old ++ log)

module _ {F : Type 0} (f64 : Float64 F) where
  unfoldable pub record_own_block :
      List ℕ → ℕ → List ℕ → ℕ → F → List ℕ → F → List (BlockEntry F) → List (BlockEntry F)
  record_own_block symbol now hash height reward worker luck log = append_block log (record {
    coin = symbol;
    height = height;
    hash = hash;
    reward = f64.format 4 reward ++ (b' ' ∷ symbol);
    worker = worker;
    found_at = now;
    confirmations = pos 0;
    is_orphaned = false;
    is_aux = false;
    aux_parent_coin = [];
    block_luck = luck;
    mature_notified = false;
  })

  unfoldable pub record_aux_block :
      ℕ → List ℕ → List ℕ → ℕ → F → List ℕ → List ℕ → List (BlockEntry F) → List (BlockEntry F)
  record_aux_block now symbol hash height reward worker aux_parent log = append_block log (record {
    coin = symbol;
    height = height;
    hash = hash;
    reward = f64.format 4 reward ++ (b' ' ∷ symbol);
    worker = worker;
    found_at = now;
    confirmations = pos 0;
    is_orphaned = false;
    is_aux = not (str_eq aux_parent []);
    aux_parent_coin = aux_parent;
    block_luck = f64.sub (f64.lit 0 0) (f64.lit 1 0);
    mature_notified = false;
  })
