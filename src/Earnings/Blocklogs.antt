-- ===== src/Earnings/Blocklogs.antt =====
-- internal/earnings/tracker.go: the start from the persisted state and the block logs.
use pipool.Base.{ℕ, suc, Bool, false, ◌||◌, List, [], ◌∷◌, ◌++◌, Option, none, some}
use pipool.Base.{ltb, ◌==◌, length, take, if◌then◌else◌}
use pipool.Go.Float.{Float64}
use pipool.Go.Ints.{is_positive}
use pipool.Go.Maps.{lookup, insert}
use pipool.Go.Strings.{str_eq, is_space, trim_space}
use pipool.Earnings.State.{
  BlockLogEntry, TrackedBlock, CoinAccum, PersistedState, EarningsTracker, max_recent_blocks, upper,
  load_persisted, or_new_accum, add_luck, confirm,
}

-- `known[hash]`, with the set as the list of its members
unfoldable pub contains : List (List ℕ) → List ℕ → Bool
contains [] hash = false
contains (h ∷ known) hash = str_eq h hash || contains known hash

module _ {F : Type 0} where
  unfoldable pub hashes : List (TrackedBlock F) → List (List ℕ)
  hashes [] = []
  hashes (b ∷ recent) = b.hash ∷ hashes recent

module _ {F : Type 0} (f64 : Float64 F) where
  -- `parts[0]` of `strings.Fields(s)`
  unfoldable pub first_field : List ℕ → List ℕ
  first_field [] = []
  first_field (c ∷ s) = let rest = first_field s in if is_space c then [] else c ∷ rest

  unfoldable pub or_zero_float : Option F → F
  or_zero_float none = f64.lit 0 0
  or_zero_float (some v) = v

  -- `parse_float` stands for strconv.ParseFloat.
  unfoldable pub parse_reward : (List ℕ → Option F) → List ℕ → F
  parse_reward parse_float s =
      let text = trim_space s in
      if length text == 0 then f64.lit 0 0 else or_zero_float (parse_float (first_field text))

  -- An entry that is an orphan, or is confirmed.
  unfoldable pub judge_accum : F → BlockLogEntry F → CoinAccum F → CoinAccum F
  judge_accum reward e acc =
      if e.is_orphaned
      then record acc { blocks_orphaned = suc acc.blocks_orphaned }
      else if is_positive e.confirmations
      then confirm f64 reward acc
      else acc

  unfoldable pub date_accum : BlockLogEntry F → CoinAccum F → CoinAccum F
  date_accum e acc =
      if ltb acc.last_block_at e.found_at
      then record acc { last_block_at = e.found_at; last_block_height = e.height }
      else acc

  -- What an entry of a block log adds to its coin.
  unfoldable pub import_accum : F → BlockLogEntry F → CoinAccum F → CoinAccum F
  import_accum reward e acc = date_accum e (
      add_luck f64 e.block_luck
        (judge_accum reward e (record acc { blocks_found = suc acc.blocks_found })))

  unfoldable pub imported_block : F → BlockLogEntry F → TrackedBlock F
  imported_block reward e = record {
    coin = upper e.coin;
    height = e.height;
    hash = e.hash;
    reward = reward;
    reward_label = e.reward;
    worker = e.worker;
    found_at = e.found_at;
    confirmations = e.confirmations;
    is_orphaned = e.is_orphaned;
    luck = e.block_luck;
  }

  unfoldable pub import_entry :
      (List ℕ → Option F) → EarningsTracker F → BlockLogEntry F → EarningsTracker F
  import_entry parse_float t e =
      let reward = parse_reward parse_float e.reward in
      let sym = upper e.coin in
      record {
        coins = insert t.coins sym (import_accum reward e (or_new_accum f64 (lookup t.coins sym)));
        first_block =
            if t.first_block == 0 || ltb e.found_at t.first_block
            then e.found_at
            else t.first_block;
        recent = t.recent ++ (imported_block reward e ∷ []);
      }

  -- The loop over the entries of one log, with the hashes that are known.
  unfoldable pub import_entries :
      (List ℕ → Option F)
      → List (List ℕ)
      → EarningsTracker F
      → List (BlockLogEntry F)
      → EarningsTracker F × List (List ℕ)
  import_entries parse_float known t [] = (t, known)
  import_entries parse_float known t (e ∷ entries) =
      let old = contains known e.hash in
      import_entries parse_float (if old then known else e.hash ∷ known)
        (if old then t else import_entry parse_float t e) entries

  -- The loop over the files; one that cannot be read or parsed is `none`.
  unfoldable pub import_logs :
      (List ℕ → Option F)
      → List (List ℕ)
      → EarningsTracker F
      → List (Option (List (BlockLogEntry F)))
      → EarningsTracker F
  import_logs parse_float known t [] = t
  import_logs parse_float known t (none ∷ logs) = import_logs parse_float known t logs
  import_logs parse_float known t (some entries ∷ logs) =
      let (after, seen) = import_entries parse_float known t entries in
      import_logs parse_float seen after logs

  -- `sort_blocks` stands for sort.Slice with the order newest first.
  unfoldable pub load_blocklogs :
      (List ℕ → Option F)
      → (List (TrackedBlock F) → List (TrackedBlock F))
      → List (Option (List (BlockLogEntry F)))
      → EarningsTracker F
      → EarningsTracker F
  load_blocklogs parse_float sort_blocks logs t =
      let after = import_logs parse_float (hashes t.recent) t logs in
      record after { recent = take max_recent_blocks (sort_blocks after.recent) }

  unfoldable pub new_tracker :
      (List ℕ → Option F)
      → (List (TrackedBlock F) → List (TrackedBlock F))
      → Option (PersistedState F)
      → List (Option (List (BlockLogEntry F)))
      → EarningsTracker F
  new_tracker parse_float sort_blocks file logs =
      load_blocklogs parse_float sort_blocks logs (load_persisted file)
