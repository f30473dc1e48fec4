-- ===== src/Earnings/Tracker/Counts.antt =====
-- What internal/earnings/tracker.go counts, over any calls, and over restarts from any state that was
-- persisted.
use pipool.Base.{ℕ, zero, suc, ◌+◌, ◌≤◌, ◌≡◌, refl, sym, arith, Bool, not, ◌&&◌, inl, inr}
use pipool.Base.{List, [], ◌∷◌, ◌++◌, Option, none, some}
use pipool.Base.{ltb, length, take, Bool-cases, Option-cases, either_way, if◌then◌else◌}
use pipool.Base.Options.{by_some}
use pipool.Go.Float.{Float64}
use pipool.Go.Ints.{ℤ, is_positive, is_zero}
use pipool.Go.Maps.{Map, lookup, insert}
use pipool.Go.Strings.{str_eq}
use pipool.Earnings.State.{
  BlockLogEntry, TrackedBlock, CoinAccum, new_accum, or_new_accum, add_luck, confirm,
}
use pipool.Earnings.Tracker.{find_block, change_block, record_accum, orphan_accum, confirm_accum}
use pipool.Earnings.Blocklogs.{judge_accum, date_accum, import_accum}

module _ {F : Type 0} where
  abbrev pub total : (CoinAccum F → ℕ) → Map (CoinAccum F) → ℕ
  total g [] = 0
  total g ((sym, acc) ∷ m) = g acc + total g m

  abbrev pub unorphaned : List (TrackedBlock F) → ℕ
  unorphaned [] = 0
  unorphaned (b ∷ blocks) = (if b.is_orphaned then 0 else 1) + unorphaned blocks

  abbrev pub found : CoinAccum F → ℕ
  found acc = acc.blocks_found

  abbrev pub orphaned : CoinAccum F → ℕ
  orphaned acc = acc.blocks_orphaned

  -- What the map counts for a coin.
  abbrev count_of : (CoinAccum F → ℕ) → Option (CoinAccum F) → ℕ
  count_of g none = 0
  count_of g (some acc) = g acc

  total-insert :
      (g : CoinAccum F → ℕ) (m : Map (CoinAccum F)) (k : List ℕ) (v : CoinAccum F)
      → total g (insert m k v) + count_of g (lookup m k) ≡ total g m + g v
  unfolding insert lookup
  total-insert g [] k v = omega arith
  total-insert g ((j, w) ∷ m) k v = elim (Bool-cases (str_eq j k)) [
    | inl same ↦ rw same (omega arith)
    | inr other ↦ rw other (omega (arith, total-insert g m k v))
  ]

  pub total-change :
      (g : CoinAccum F → ℕ) (m : Map (CoinAccum F)) (k : List ℕ) (acc v : CoinAccum F) (n : ℕ)
      → lookup m k ≡ some acc
      → g v ≡ g acc + n
      → total g (insert m k v) ≡ total g m + n
  total-change g m k acc v n known e =
      let step : total g (insert m k v) + count_of g (lookup m k) ≡ total g m + g v =
        total-insert g m k v in
      omega (arith, rw known at step, e)

  pub unorphaned-take :
      (n : ℕ) (bs : List (TrackedBlock F)) → unorphaned (take n bs) ≤ unorphaned bs
  unorphaned-take zero bs = omega arith
  unorphaned-take (suc n) [] = omega arith
  unorphaned-take (suc n) (b ∷ bs) = omega (arith, unorphaned-take n bs)

  pub unorphaned-append :
      (bs cs : List (TrackedBlock F)) → unorphaned (bs ++ cs) ≡ unorphaned bs + unorphaned cs
  unorphaned-append [] cs = omega arith
  unorphaned-append (b ∷ bs) cs = omega (arith, unorphaned-append bs cs)

  pub length-change_block :
      (f : TrackedBlock F → TrackedBlock F) (bs : List (TrackedBlock F)) (hash : List ℕ)
      → length (change_block f bs hash) ≡ length bs
  unfolding change_block
  length-change_block f [] hash = refl
  length-change_block f (b ∷ bs) hash = ground (arith, length-change_block f bs hash)

  pub unorphaned-change_block :
      (f : TrackedBlock F → TrackedBlock F) (bs : List (TrackedBlock F)) (hash : List ℕ)
      (prev : TrackedBlock F)
      → find_block bs hash ≡ some prev
      → unorphaned (change_block f bs hash) + (if prev.is_orphaned then 0 else 1)
        ≡ unorphaned bs + (if (f prev).is_orphaned then 0 else 1)
  unfolding change_block find_block
  unorphaned-change_block f [] hash prev e = cc
  unorphaned-change_block f (b ∷ bs) hash prev e = elim (Bool-cases (str_eq b.hash hash)) [
    | inl same ↦ rw same (
        by_some
          (λ (p : TrackedBlock F).
            unorphaned (f b ∷ bs) + (if p.is_orphaned then 0 else 1)
            ≡ unorphaned (b ∷ bs) + (if (f p).is_orphaned then 0 else 1))
          (rw same at e) (omega arith))
    | inr other ↦ rw other (omega (arith, unorphaned-change_block f bs hash prev (rw other at e)))
  ]

module _ {F : Type 0} (f64 : Float64 F) where
  -- What a count gains when the counters of a coin change.
  pub total-put :
      (g : CoinAccum F → ℕ) (m : Map (CoinAccum F)) (k : List ℕ) (v : CoinAccum F) (n : ℕ)
      → g (new_accum f64) ≡ 0
      → g v ≡ g (or_new_accum f64 (lookup m k)) + n
      → total g (insert m k v) ≡ total g m + n
  unfolding or_new_accum
  total-put g m k v n new e =
      let step : total g (insert m k v) + count_of g (lookup m k) ≡ total g m + g v =
        total-insert g m k v in
      elim (Option-cases (lookup m k)) [
        | inl missing ↦ omega (arith, rw missing at step, rw missing at e, new)
        | inr (acc, h) ↦ omega (arith, rw h at step, rw h at e)
      ]

  add_luck-counts :
      (luck : F) (acc : CoinAccum F)
      → (found (add_luck f64 luck acc) ≡ found acc)
        × (orphaned (add_luck f64 luck acc) ≡ orphaned acc)
  unfolding add_luck
  add_luck-counts luck acc =
      either_way (λ (a : CoinAccum F). (found a ≡ found acc) × (orphaned a ≡ orphaned acc))
        (f64.lt (f64.lit 0 0) luck) (refl, refl) (refl, refl)

  pub new_accum-found : found (new_accum f64) ≡ 0
  unfolding new_accum
  new_accum-found = refl

  pub new_accum-orphaned : orphaned (new_accum f64) ≡ 0
  unfolding new_accum
  new_accum-orphaned = refl

  pub record_accum-counts :
      (now height : ℕ) (luck : F) (acc : CoinAccum F)
      → (found (record_accum f64 now height luck acc) ≡ found acc + 1)
        × (orphaned (record_accum f64 now height luck acc) ≡ orphaned acc)
  unfolding record_accum
  record_accum-counts now height luck acc =
      let (more, same) =
        add_luck-counts luck (record acc { blocks_found = suc acc.blocks_found }) in
      (omega (arith, more), same)

  judge_accum-counts :
      (reward : F) (e : BlockLogEntry F) (acc : CoinAccum F)
      → (found (judge_accum f64 reward e acc) ≡ found acc)
        × (orphaned (judge_accum f64 reward e acc)
            ≡ orphaned acc + (if e.is_orphaned then 1 else 0))
  unfolding judge_accum confirm
  judge_accum-counts reward e acc = elim (Bool-cases e.is_orphaned) [
    | inl orphan ↦ rw orphan (refl, omega arith)
    | inr kept ↦ rw kept (
        either_way (λ (a : CoinAccum F). (found a ≡ found acc) × (orphaned a ≡ orphaned acc + 0))
          (is_positive e.confirmations) (refl, omega arith) (refl, omega arith))
  ]

  date_accum-counts :
      (e : BlockLogEntry F) (acc : CoinAccum F)
      → (found (date_accum f64 e acc) ≡ found acc)
        × (orphaned (date_accum f64 e acc) ≡ orphaned acc)
  unfolding date_accum
  date_accum-counts e acc =
      either_way (λ (a : CoinAccum F). (found a ≡ found acc) × (orphaned a ≡ orphaned acc))
        (ltb acc.last_block_at e.found_at) (refl, refl) (refl, refl)

  -- What an entry of a log counts as.
  pub import_accum-counts :
      (reward : F) (e : BlockLogEntry F) (acc : CoinAccum F)
      → (found (import_accum f64 reward e acc) ≡ found acc + 1)
        × (orphaned (import_accum f64 reward e acc)
            ≡ orphaned acc + (if e.is_orphaned then 1 else 0))
  unfolding import_accum
  import_accum-counts reward e acc =
      let start : CoinAccum F = record acc { blocks_found = suc acc.blocks_found } in
      let judged : CoinAccum F = judge_accum f64 reward e start in
      let (f0, o0) = judge_accum-counts reward e start in
      let (f1, o1) = add_luck-counts e.block_luck judged in
      let (f2, o2) = date_accum-counts e (add_luck f64 e.block_luck judged) in
      (omega (arith, f0, f1, f2), omega (arith, o0, o1, o2))

  pub orphan_accum-counts :
      (prev : TrackedBlock F) (acc : CoinAccum F)
      → (found (orphan_accum f64 prev acc) ≡ found acc + 0)
        × (orphaned (orphan_accum f64 prev acc) ≡ orphaned acc + 1)
  unfolding orphan_accum
  orphan_accum-counts prev acc =
      either_way (λ (a : CoinAccum F). (found a ≡ found acc + 0) × (orphaned a ≡ orphaned acc + 1))
        (is_positive prev.confirmations) (omega arith, omega arith) (omega arith, omega arith)

  pub confirm_accum-counts :
      (confirmations : ℤ) (orphan : Bool) (prev : TrackedBlock F) (acc : CoinAccum F)
      → (found (confirm_accum f64 confirmations orphan prev acc) ≡ found acc + 0)
        × (orphaned (confirm_accum f64 confirmations orphan prev acc) ≡ orphaned acc + 0)
  unfolding confirm_accum confirm
  confirm_accum-counts confirmations orphan prev acc =
      either_way (λ (a : CoinAccum F). (found a ≡ found acc + 0) × (orphaned a ≡ orphaned acc + 0))
        (not orphan && (is_zero prev.confirmations && is_positive confirmations))
        (omega arith, omega arith) (omega arith, omega arith)
