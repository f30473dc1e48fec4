-- ===== src/Pplns/Engine/Shares.antt =====
-- What is in the share windows of internal/pplns/payout.go after calls of RecordShare.
use pipool.Base.{ℕ, ◌<◌, ◌≡◌, refl, sym, ap, ◌∙◌, arith, Bool, ◌&&◌, not}
use pipool.Base.{List, [], ◌∷◌, ◌++◌, none, if◌then◌else◌}
use pipool.Base.{Bool-cases, inl, inr, append-nil, append_assoc}
use pipool.Go.Strings.{str_eq}
use pipool.Base.{last_n, few}
use pipool.Pplns.Ring.Window.{enqueue-last_n}
use pipool.Pplns.Engine.Windows.{empty-AreValid, window_shares-empty, defaults-pos}
use pipool.Pplns.Engine.Windows.{window_shares, AreValid, push-AreValid, window_shares-push}
use pipool.Go.Float.{Float64}
use pipool.Pplns.Engine.{Share, Config, Engine, takes_share, record_share, put_share}
use pipool.Pplns.Engine.{new_engine, load_state, defaults}

module _ {F : Type 0} (f64 : Float64 F) where
  -- Calls of RecordShare.
  unfoldable pub record_all : Engine F → List (Share F) → Engine F
  record_all e [] = e
  record_all e (s ∷ ss) =
      record_all (record_share f64 e s.coin s.worker_addr s.difficulty s.timestamp) ss

  -- An enabled engine, a coin and an address that are not empty, and a difficulty above zero.
  unfoldable pub counts : Bool → Share F → Bool
  counts enabled s =
      enabled
      && (not (str_eq s.coin [])
          && (not (str_eq s.worker_addr []) && not (f64.le s.difficulty (f64.lit 0 0))))

  takes_share-counts :
      (enabled : Bool) (s : Share F)
      → takes_share f64 enabled s.coin s.worker_addr s.difficulty ≡ counts enabled s
  unfolding takes_share counts
  takes_share-counts enabled s = ground arith

  -- The shares of a coin that count.
  unfoldable pub taken : Bool → List ℕ → List (Share F) → List (Share F)
  taken enabled coin [] = []
  taken enabled coin (s ∷ ss) =
      let rest = taken enabled coin ss in
      if counts enabled s && str_eq s.coin coin then s ∷ rest else rest

  -- The shares that have arrived for each coin, and how the windows stand to them.
  pub record Holds (n : ℕ) (enabled : Bool) (seen : List ℕ → List (Share F)) (e : Engine F)
      : Type 0 where
    pub size_pos : 0 < n
    pub size : e.cfg.window_size ≡ n
    pub same : e.cfg.enabled ≡ enabled
    pub valid : AreValid f64 n e.windows
    pub last : (coin : List ℕ) → window_shares f64 n e.windows coin ≡ last_n n (seen coin)

  abbrev after : Bool → (List ℕ → List (Share F)) → List (Share F) → List ℕ → List (Share F)
  after enabled seen ss coin = seen coin ++ taken enabled coin ss

  record_share-Holds :
      {n : ℕ} {enabled : Bool} {seen : List ℕ → List (Share F)} {e : Engine F} (s : Share F)
      → Holds n enabled seen e
      → Holds n enabled
          (after enabled seen (s ∷ []))
          (record_share f64 e s.coin s.worker_addr s.difficulty s.timestamp)
  unfolding record_share put_share taken
  record_share-Holds {n} {enabled} {seen} {e} s h = elim (Bool-cases (counts enabled s)) [
    | inl takes ↦
        rw (h.same, takes_share-counts enabled s, takes, h.size)
          (record {
            size_pos = h.size_pos;
            size = refl;
            same = refl;
            valid = push-AreValid f64 s.coin s h.valid;
            last = λ coin.
                window_shares-push f64 s.coin s coin h.valid
                ∙ rw takes (elim (Bool-cases (str_eq s.coin coin)) [
                  | inl mine ↦ rw (mine, h.last coin) (enqueue-last_n n (seen coin) s h.size_pos)
                  | inr other ↦ rw (other, append-nil (seen coin)) (h.last coin)
                ]);
          })
    | inr refuses ↦
        rw (h.same, takes_share-counts enabled s, refuses)
          (record {
            size_pos = h.size_pos;
            size = h.size;
            same = refl;
            valid = h.valid;
            last = λ coin. rw refuses (h.last coin ∙ ap (last_n n) (sym (append-nil (seen coin))));
          })
  ]

  after_cons :
      (enabled : Bool) (seen : List ℕ → List (Share F)) (s : Share F) (ss : List (Share F))
      (coin : List ℕ)
      → after enabled (after enabled seen (s ∷ [])) ss coin ≡ after enabled seen (s ∷ ss) coin
  unfolding taken
  after_cons enabled seen s ss coin = elim (Bool-cases (counts enabled s && str_eq s.coin coin)) [
    | inl mine ↦ rw mine (append_assoc (seen coin) (s ∷ []) (taken enabled coin ss))
    | inr other ↦ rw (other, append-nil (seen coin)) refl
  ]

  record_all-Holds :
      {n : ℕ} {enabled : Bool} (ss : List (Share F)) (seen : List ℕ → List (Share F)) (e : Engine F)
      → Holds n enabled seen e
      → Holds n enabled (after enabled seen ss) (record_all e ss)
  unfolding record_all taken
  record_all-Holds {n} [] seen e h = record {
    size_pos = h.size_pos;
    size = h.size;
    same = h.same;
    valid = h.valid;
    last = λ coin. h.last coin ∙ ap (last_n n) (sym (append-nil (seen coin)));
  }
  record_all-Holds {n} {enabled} (s ∷ ss) seen e h =
      let done =
        record_all-Holds {n = n} {enabled = enabled} ss (after enabled seen (s ∷ []))
          (record_share f64 e s.coin s.worker_addr s.difficulty s.timestamp)
          (record_share-Holds s h) in
      record {
        size_pos = h.size_pos;
        size = done.size;
        same = done.same;
        valid = done.valid;
        last = λ coin. done.last coin ∙ ap (last_n n) (after_cons enabled seen s ss coin);
      }

  -- An engine that starts without a state file.
  new_engine-Holds :
      (cfg : Config F)
      → Holds (defaults f64 cfg).window_size cfg.enabled (λ coin. []) (new_engine f64 cfg none)
  unfolding new_engine load_state
  new_engine-Holds cfg = record {
    size_pos = defaults-pos f64 cfg;
    size = refl;
    same = unfold defaults in refl;
    valid = empty-AreValid f64 (defaults f64 cfg).window_size (defaults-pos f64 cfg);
    last = λ coin.
        window_shares-empty f64 (defaults f64 cfg).window_size coin
        ∙ sym (few (defaults f64 cfg).window_size [] (omega arith));
  }

  -- After any calls of RecordShare on an engine that starts without a state file, the window of a
  -- coin holds the last of its shares that were taken, oldest first: as many as the size of the
  -- window in the configuration, or 100000 where that is zero. A share is taken if the engine is
  -- enabled, its coin and address are not empty, and its difficulty is above zero.
  pub window_shares-record_all :
      (cfg : Config F) (ss : List (Share F)) (coin : List ℕ)
      → window_shares f64
          (defaults f64 cfg).window_size
          (record_all (new_engine f64 cfg none) ss).windows
          coin
        ≡ last_n (defaults f64 cfg).window_size (taken cfg.enabled coin ss)
  window_shares-record_all cfg ss coin =
      (record_all-Holds ss (λ coin. []) (new_engine f64 cfg none) (new_engine-Holds cfg)).last coin
