-- ===== src/Pplns/Engine/Restart.antt =====
-- internal/pplns/payout.go: the state that one run writes and the next one reads.
use pipool.Base.{ℕ, ◌≡◌, refl, sym, ap, ◌∙◌, arith, Bool, true, zero, suc, ◌<◌}
use pipool.Base.{List, [], ◌∷◌, ◌++◌, none, some, drop, if◌then◌else◌}
use pipool.Base.{Bool-cases, inl, inr, append-nil, append_assoc}
use pipool.Go.Strings.{str_eq, str_eq_iff}
use pipool.Go.Maps.{Map, lookup, insert, lookup-insert, IsMap, insert-IsMap}
use pipool.Pplns.Ring.{RingBuffer, snapshot}
use pipool.Base.{last_n, few}
use pipool.Pplns.Ring.Window.{snapshot-push_all}
use pipool.Pplns.Engine.Windows.{window_shares, window_shares-empty, defaults-pos}
use pipool.Pplns.Engine.Shares.{counts, record_all, taken, window_shares-record_all}
use pipool.Pplns.Engine.{takes_share}
use pipool.Go.Float.{Float64}
use pipool.Pplns.Engine.{Share, Config, Engine, window_of, or_new, or_nil, record_share}
use pipool.Pplns.Engine.{put_share, of_coin, new_engine, load_state, defaults, blank_share, replay}
use pipool.Pplns.Engine.{group_shares, shares_of, persisted_shares, build_persist_state}

module _ {F : Type 0} (f64 : Float64 F) where
  of_coin-append :
      (c : List ℕ) (xs ys : List (Share F))
      → of_coin f64 c (xs ++ ys) ≡ of_coin f64 c xs ++ of_coin f64 c ys
  unfolding of_coin
  of_coin-append c [] ys = refl
  of_coin-append c (x ∷ xs) ys = ground (arith, of_coin-append c xs ys)

  of_coin-of_coin :
      (c k : List ℕ) (xs : List (Share F))
      → of_coin f64 c (of_coin f64 k xs) ≡ (if str_eq k c then of_coin f64 c xs else [])
  unfolding of_coin
  of_coin-of_coin c k [] = ground arith
  of_coin-of_coin c k (x ∷ xs) =
      ground
        (arith, of_coin-of_coin c k xs, str_eq_iff k c, str_eq_iff x.coin c, str_eq_iff x.coin k)

  shares_of-insert :
      (g : Map (List (Share F))) (k : List ℕ) (ss : List (Share F)) (c : List ℕ)
      → shares_of f64 (insert g k ss) c ≡ (if str_eq k c then ss else shares_of f64 g c)
  unfolding shares_of or_nil
  shares_of-insert g k ss c =
      rw (lookup-insert g k ss c)
        (elim (Bool-cases (str_eq k c)) [ inl same ↦ rw same refl | inr other ↦ rw other refl ])

  -- Grouping keeps the order of each coin's shares.
  shares_of-group_shares :
      (g : Map (List (Share F))) (ss : List (Share F)) (c : List ℕ)
      → shares_of f64 (group_shares f64 g ss) c ≡ shares_of f64 g c ++ of_coin f64 c ss
  unfolding group_shares of_coin
  shares_of-group_shares g [] c = sym (append-nil (shares_of f64 g c))
  shares_of-group_shares g (s ∷ ss) c =
      rw
        (
          shares_of-group_shares (insert g s.coin (shares_of f64 g s.coin ++ (s ∷ []))) ss c,
          shares_of-insert,
        )
        (elim (Bool-cases (str_eq s.coin c)) [
          | inl same ↦
              let e : s.coin ≡ c = (str_eq_iff s.coin c).0 same in
              rw same (
                append_assoc (shares_of f64 g s.coin) (s ∷ []) (of_coin f64 c ss)
                ∙ ap (λ k. shares_of f64 g k ++ (s ∷ of_coin f64 c ss)) e)
          | inr other ↦ rw other refl
        ])

  window_shares-replay :
      (n : ℕ) (g : Map (List (Share F))) (c : List ℕ)
      → 0 < n
      → window_shares f64 n (replay f64 n g) c ≡ last_n n (shares_of f64 g c)
  unfolding window_shares window_of or_new replay shares_of or_nil lookup
  window_shares-replay n [] c h = window_shares-empty f64 n c ∙ sym (few n [] (omega arith))
  window_shares-replay n ((k, ss) ∷ g) c h = elim (Bool-cases (str_eq k c)) [
    | inl same ↦ rw same (snapshot-push_all (blank_share f64) n ss h)
    | inr other ↦ rw other (window_shares-replay n g c h)
  ]

  persisted_none :
      (w : Map (RingBuffer (Share F))) (c : List ℕ)
      → lookup w c ≡ none
      → of_coin f64 c (persisted_shares f64 w) ≡ []
  unfolding persisted_shares lookup
  persisted_none [] c h = unfold of_coin in refl
  persisted_none ((k, rb) ∷ w) c h =
      rw (of_coin-append, of_coin-of_coin)
        (elim (Bool-cases (str_eq k c)) [
          | inl same ↦ cc (rw same at h)
          | inr other ↦ rw other (persisted_none w c (rw other at h))
        ])

  -- Of a coin's shares, the file has what the coin's window has.
  of_coin-persisted_shares :
      (n : ℕ) (w : Map (RingBuffer (Share F))) (c : List ℕ)
      → IsMap w
      → of_coin f64 c (persisted_shares f64 w) ≡ of_coin f64 c (window_shares f64 n w c)
  unfolding persisted_shares window_shares window_of lookup or_new
  of_coin-persisted_shares n [] c h = ap (of_coin f64 c) (sym (window_shares-empty f64 n c))
  of_coin-persisted_shares n ((k, rb) ∷ w) c (new, h) =
      rw (of_coin-append, of_coin-of_coin)
        (elim (Bool-cases (str_eq k c)) [
          | inl same ↦
              let e : k ≡ c = (str_eq_iff k c).0 same in
              rw (same, persisted_none w c (rw e at new)) (append-nil (of_coin f64 c (snapshot rb)))
          | inr other ↦ rw other (of_coin-persisted_shares n w c h)
        ])

  -- All shares are of one coin.
  abbrev AllOf : List ℕ → List (Share F) → Type 0
  AllOf c [] = Unit
  AllOf c (s ∷ ss) = (str_eq s.coin c ≡ true) × AllOf c ss

  of_coin-AllOf : (c : List ℕ) (ss : List (Share F)) → AllOf c ss → of_coin f64 c ss ≡ ss
  unfolding of_coin
  of_coin-AllOf c [] h = refl
  of_coin-AllOf c (s ∷ ss) (mine, h) = rw (mine, of_coin-AllOf c ss h) refl

  drop-AllOf : (c : List ℕ) (k : ℕ) (ss : List (Share F)) → AllOf c ss → AllOf c (drop k ss)
  drop-AllOf c zero ss h = h
  drop-AllOf c (suc k) [] h = tt
  drop-AllOf c (suc k) (s ∷ ss) h = drop-AllOf c k ss h.1

  taken-AllOf :
      (enabled : Bool) (c : List ℕ) (ss : List (Share F)) → AllOf c (taken f64 enabled c ss)
  unfolding taken
  taken-AllOf enabled c [] = tt
  taken-AllOf enabled c (s ∷ ss) = elim (Bool-cases (str_eq s.coin c)) [
    | inl mine ↦ elim (Bool-cases (counts f64 enabled s)) [
      | inl takes ↦ rw (mine, takes) (mine, taken-AllOf enabled c ss)
      | inr refuses ↦ rw refuses (taken-AllOf enabled c ss)
    ]
    | inr other ↦ elim (Bool-cases (counts f64 enabled s)) [
      | inl takes ↦ rw (other, takes) (taken-AllOf enabled c ss)
      | inr refuses ↦ rw refuses (taken-AllOf enabled c ss)
    ]
  ]

  record_share-IsMap :
      (e : Engine F) (coin addr : List ℕ) (d : F) (now : ℕ)
      → IsMap e.windows
      → IsMap (record_share f64 e coin addr d now).windows
  unfolding record_share put_share
  record_share-IsMap e coin addr d now h =
      elim (Bool-cases (takes_share f64 e.cfg.enabled coin addr d)) [
        | inl takes ↦ rw takes (insert-IsMap e.windows coin _ h)
        | inr refuses ↦ rw refuses h
      ]

  record_all-IsMap :
      (ss : List (Share F)) (e : Engine F) → IsMap e.windows → IsMap (record_all f64 e ss).windows
  unfolding record_all
  record_all-IsMap [] e h = h
  record_all-IsMap (s ∷ ss) e h =
      record_all-IsMap ss (record_share f64 e s.coin s.worker_addr s.difficulty s.timestamp)
        (record_share-IsMap e s.coin s.worker_addr s.difficulty s.timestamp h)

  -- Whatever the file has of a coin, its new window has the last shares of that.
  window_shares-load_state :
      (cfg : Config F) (e : Engine F) (n : ℕ) (c : List ℕ)
      → IsMap e.windows
      → 0 < cfg.window_size
      → window_shares f64 cfg.window_size
          (load_state f64 cfg (some (build_persist_state f64 e))).windows
          c
        ≡ last_n cfg.window_size (of_coin f64 c (window_shares f64 n e.windows c))
  unfolding load_state build_persist_state
  window_shares-load_state cfg e n c h pos =
      rw
        (
          window_shares-replay cfg.window_size
              (group_shares f64 [] (persisted_shares f64 e.windows)) c pos,
          shares_of-group_shares,
          of_coin-persisted_shares n e.windows c h,
        )
        (unfold shares_of or_nil lookup in refl)

  -- An engine starts without a state file, records any shares, and writes its state; the next engine
  -- reads that state, under a configuration that may be another one. The window of every coin then
  -- holds what it held before, oldest first, cut to the newest shares that the new size has room for.
  pub window_shares-restart :
      (old new : Config F) (ss : List (Share F)) (c : List ℕ)
      → window_shares f64
          (defaults f64 new).window_size
          (new_engine f64 new
            (some (build_persist_state f64 (record_all f64 (new_engine f64 old none) ss)))).windows
          c
        ≡ last_n (defaults f64 new).window_size (
            window_shares f64
              (defaults f64 old).window_size
              (record_all f64 (new_engine f64 old none) ss).windows
              c)
  unfolding new_engine
  window_shares-restart old new ss c =
      let e = record_all f64 (new_engine f64 old none) ss in
      let n = (defaults f64 old).window_size in
      window_shares-load_state (defaults f64 new) e n c
        (record_all-IsMap ss (new_engine f64 old none) (unfold load_state in tt))
        (defaults-pos f64 new)
      ∙ ap (last_n (defaults f64 new).window_size) (
          of_coin-AllOf c (window_shares f64 n e.windows c) (
            rw (window_shares-record_all f64 old ss c) (
              unfold last_n in
              drop-AllOf c _ (taken f64 old.enabled c ss) (taken-AllOf old.enabled c ss))))
