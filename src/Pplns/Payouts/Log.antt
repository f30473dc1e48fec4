-- ===== src/Pplns/Payouts/Log.antt =====
-- The payout log of internal/pplns/payout.go after ProcessPayouts.
use pipool.Base.{ℕ, zero, suc, ◌≤◌, ◌≡◌, refl, sym, ap, ◌∙◌, arith, Bool, true, false, not}
use pipool.Base.{List, [], ◌∷◌, ◌++◌, Option, some, if◌then◌else◌, Bool-cases, Option-cases}
use pipool.Base.{inl, inr, take, length, length-take, append_assoc, ◌⊎◌}
use pipool.Base.Bytes.{All, All-append}
use pipool.Go.Maps.{Map}
use pipool.Go.Float.{Float64}
use pipool.Pplns.Engine.{PayoutRecord, Engine, Config, max_payout_log}
use pipool.Pplns.Payouts.{round_to, settle, pay_worker, pay_workers, min_payout_of, pay_coins}
use pipool.Pplns.Payouts.{process_payouts}

module _ {ℓ} {A : Type ℓ} where
  take-take : (m n : ℕ) (ys : List A) → m ≤ n → take m (take n ys) ≡ take m ys
  take-take zero n ys h = refl
  take-take (suc m) zero ys h = elim h [ ]
  take-take (suc m) (suc n) [] h = refl
  take-take (suc m) (suc n) (y ∷ ys) h = ap (λ t. y ∷ t) (take-take m n ys (omega arith))

  take_short : (n : ℕ) (xs : List A) → length xs ≤ n → take n xs ≡ xs
  take_short zero [] h = refl
  take_short zero (x ∷ xs) h = elim h [ ]
  take_short (suc n) [] h = refl
  take_short (suc n) (x ∷ xs) h = ap (λ t. x ∷ t) (take_short n xs (omega arith))

  take-append-take :
      (m n : ℕ) (xs ys : List A) → m ≤ n → take m (xs ++ take n ys) ≡ take m (xs ++ ys)
  take-append-take m n [] ys h = take-take m n ys h
  take-append-take zero n (x ∷ xs) ys h = refl
  take-append-take (suc m) n (x ∷ xs) ys h =
      ap (λ t. x ∷ t) (take-append-take m n xs ys (omega arith))

-- An entry of a map.
abbrev pub In : {A : Type 0} → List ℕ → A → Map A → Type 0
In k v [] = ⊥
In k v ((j, w) ∷ m) = ((j ≡ k) × (w ≡ v)) ⊎ In k v m

module _ {F : Type 0} (f64 : Float64 F)
    (rpcs : List ℕ → Option (List ℕ → F → Option (List ℕ))) where
  -- A payout that is due: from a balance that reaches the threshold, of its rounded amount, and made
  -- by the coin's daemon.
  pub record IsDue (cfg : Config F) (balances : Map (Map F)) (r : PayoutRecord F) : Type 0 where
    pub pending : Map F
    pub balance : F
    pub send : List ℕ → F → Option (List ℕ)
    pub at_coin : In r.coin pending balances
    pub at_worker : In r.worker_addr balance pending
    pub enough : f64.lt balance (min_payout_of f64 cfg r.coin) ≡ false
    pub rounded : r.amount ≡ round_to f64 balance 8
    pub has_rpc : rpcs r.coin ≡ some send
    pub sent : send r.worker_addr r.amount ≡ some r.tx_id

  -- A log that grew by payouts that were due.
  pub record Extends (balances : Map (Map F)) (e later : Engine F) : Type 0 where
    pub same : later.cfg ≡ e.cfg
    pub recent : List (PayoutRecord F)
    pub log : take max_payout_log later.payouts ≡ take max_payout_log (recent ++ e.payouts)
    pub due : All (IsDue e.cfg balances) recent
    pub bound : length e.payouts ≤ max_payout_log → length later.payouts ≤ max_payout_log

  Extends-refl : (balances : Map (Map F)) (e : Engine F) → Extends balances e e
  Extends-refl balances e = record {
    same = refl;
    recent = [];
    log = refl;
    due = tt;
    bound = λ h. h;
  }

  Extends-trans :
      {balances : Map (Map F)} {e₁ e₂ e₃ : Engine F}
      → Extends balances e₁ e₂
      → Extends balances e₂ e₃
      → Extends balances e₁ e₃
  Extends-trans {balances} {e₁} {e₂} {e₃} a b = record {
    same = b.same ∙ a.same;
    recent = b.recent ++ a.recent;
    log =
        b.log
        ∙ sym (take-append-take max_payout_log max_payout_log b.recent e₂.payouts (omega arith))
        ∙ ap (λ t. take max_payout_log (b.recent ++ t)) a.log
        ∙ take-append-take max_payout_log max_payout_log b.recent (a.recent ++ e₁.payouts)
            (omega arith)
        ∙ ap (take max_payout_log) (sym (append_assoc b.recent a.recent e₁.payouts));
    due = All-append (IsDue e₁.cfg balances) b.recent a.recent (rw a.same at b.due) a.due;
    bound = λ h. b.bound (a.bound h);
  }

  pay_worker-Extends :
      {balances : Map (Map F)} (e : Engine F) (coin : List ℕ) (pending : Map F)
      (send : List ℕ → F → Option (List ℕ)) (now : ℕ) (addr : List ℕ) (b : F)
      → rpcs coin ≡ some send
      → In coin pending balances
      → In addr b pending
      → Extends balances e (pay_worker f64 send (min_payout_of f64 e.cfg coin) now e coin addr b)
  unfolding pay_worker settle
  pay_worker-Extends {balances} e coin pending send now addr b rpc at_coin at_worker =
      elim (Bool-cases (f64.lt b (min_payout_of f64 e.cfg coin))) [
        | inl low ↦ rw low (Extends-refl balances e)
        | inr enough ↦ elim (Option-cases (send addr (round_to f64 b 8))) [
          | inl failed ↦ rw (enough, failed) (Extends-refl balances e)
          | inr (tx_id, sent) ↦
              rw (enough, sent)
                (record {
                  same = refl;
                  recent = paid_now tx_id ∷ [];
                  log = ap (λ t. paid_now tx_id ∷ t) (take-take 199 199 e.payouts (omega arith));
                  due = (
                    record {
                      pending = pending;
                      balance = b;
                      send = send;
                      at_coin = at_coin;
                      at_worker = at_worker;
                      enough = enough;
                      rounded = refl;
                      has_rpc = rpc;
                      sent = sent;
                    },
                    tt,
                  );
                  bound = λ h. omega (arith, length-take 199 e.payouts);
                })
        ]
      ]
    where
      paid_now : List ℕ → PayoutRecord F
      paid_now tx_id = record {
        coin = coin;
        worker_addr = addr;
        amount = round_to f64 b 8;
        tx_id = tx_id;
        paid_at = now;
      }

  pay_workers-Extends :
      {balances : Map (Map F)} (rest : Map F) (e : Engine F) (coin : List ℕ) (pending : Map F)
      (send : List ℕ → F → Option (List ℕ)) (now : ℕ)
      → rpcs coin ≡ some send
      → In coin pending balances
      → ((addr : List ℕ) (b : F) → In addr b rest → In addr b pending)
      → (min_payout : F) → min_payout ≡ min_payout_of f64 e.cfg coin
      → Extends balances e (pay_workers f64 send min_payout now e coin rest)
  unfolding pay_workers
  pay_workers-Extends {balances} [] e coin pending send now rpc at inside mp eq =
      Extends-refl balances e
  pay_workers-Extends {balances} ((addr, b) ∷ rest) e coin pending send now rpc at inside mp eq =
      let one = rw (sym eq) at (
        pay_worker-Extends e coin pending send now addr b rpc at
          (inside addr b (inl (refl, refl)))) in
      Extends-trans one (
        pay_workers-Extends rest (pay_worker f64 send mp now e coin addr b) coin pending send now
          rpc at (λ a c i. inside a c (inr i)) mp
          (eq ∙ ap (λ cfg. min_payout_of f64 cfg coin) (sym one.same)))

  pay_coins-Extends :
      {balances : Map (Map F)} (rest : Map (Map F)) (e : Engine F) (now : ℕ)
      → ((coin : List ℕ) (m : Map F) → In coin m rest → In coin m balances)
      → Extends balances e (pay_coins f64 rpcs now e rest)
  unfolding pay_coins
  pay_coins-Extends {balances} [] e now inside = Extends-refl balances e
  pay_coins-Extends {balances} ((coin, m) ∷ rest) e now inside = elim (Option-cases (rpcs coin)) [
    | inl n ↦ rw n (pay_coins-Extends rest e now (λ c w i. inside c w (inr i)))
    | inr (send, n) ↦ rw n (
        Extends-trans
          (pay_workers-Extends m e coin m send now n (inside coin m (inl (refl, refl))) (λ a b i. i)
            _ refl)
          (pay_coins-Extends rest _ now (λ c w i. inside c w (inr i))))
  ]

  if_enabled :
      {balances : Map (Map F)} (on : Bool) {e paid : Engine F}
      → Extends balances e paid
      → Extends balances e (if not on then e else paid)
  if_enabled true h = h
  if_enabled {balances} false {e} h = Extends-refl balances e

  process_payouts-Extends :
      (e : Engine F) (now : ℕ) → Extends e.balances e (process_payouts f64 rpcs now e)
  unfolding process_payouts
  process_payouts-Extends e now =
      if_enabled e.cfg.enabled (pay_coins-Extends e.balances e now (λ c m i. i))

  -- Where the payout log has at most 200 records, it has at most 200 after ProcessPayouts, which are
  -- the newest of some new records before the old ones. Every new record stands for a payout that
  -- was due: the coin's daemon answered with its transaction to a payment of its amount, which is a
  -- balance of that worker for that coin, rounded to eight places, and that balance is not below the
  -- coin's threshold.
  pub process_payouts-log :
      (e : Engine F) (now : ℕ)
      → length e.payouts ≤ max_payout_log
      → (length (process_payouts f64 rpcs now e).payouts ≤ max_payout_log)
        × ((recent : List (PayoutRecord F)) × ((process_payouts f64 rpcs now e).payouts
              ≡ take max_payout_log (recent ++ e.payouts))
            × All (IsDue e.cfg e.balances) recent)
  process_payouts-log e now h =
      let grown = process_payouts-Extends e now in
      let short = grown.bound h in
      (short, (grown.recent, sym (take_short _ _ short) ∙ grown.log, grown.due))
