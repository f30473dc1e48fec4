-- ===== src/Swap/Engine/Initiate.antt =====
-- When checkAndInitiate of internal/swap/engine.go starts a swap.
use pipool.Base.{ℕ, ◌≡◌, refl, ◌⊎◌, inl, inr, arith, true, false}
use pipool.Base.{Bool-cases, List, [], ◌∷◌, ◌++◌}
use pipool.Go.Strings.{str_eq}
use pipool.Go.Float.{Float64}
use pipool.Go.Maps.{lookup}
use pipool.Swap.Job.{
  Rule, SwapJob, wait_deposit, failed, send_failed, Answer, done, refused, Outside,
}
use pipool.Swap.Advance.{or_empty_text}
use pipool.Swap.Engine.{Engine, new_job, sent_job, send_coins, check_and_initiate, market_name}

module _ {F W : Type 0} (f64 : Float64 F) (out : Outside F W) (now : ℕ) where
  -- What a swap of `coin` needs: a wallet that tells its balance, enough of it above what is kept,
  -- a deposit address, and a market.
  pub record MayStart (e : Engine F) (coin : List ℕ) (rule : Rule F) (before : W) : Type 0 where
    pub confirmed : F
    pub has_wallet : out.has_wallet coin ≡ true
    pub balance : (out.wallet_balance coin before).0 ≡ done confirmed
    pub enough : f64.lt (f64.sub confirmed rule.keep_balance) rule.min_balance ≡ false
    pub has_deposit : str_eq (or_empty_text (lookup e.cfg.deposit_addrs coin)) [] ≡ false
    pub has_market : str_eq (market_name f64 out now coin rule.destination) [] ≡ false

  -- One of these is missing.
  pub data IsRefused (e : Engine F) (coin : List ℕ) (rule : Rule F) (before : W) : Type 0 where
    no_wallet : out.has_wallet coin ≡ false → IsRefused e coin rule before
    no_balance :
        (why : List ℕ)
        → (out.wallet_balance coin before).0 ≡ refused why
        → IsRefused e coin rule before
    too_little :
        (confirmed : F)
        → (out.wallet_balance coin before).0 ≡ done confirmed
        → f64.lt (f64.sub confirmed rule.keep_balance) rule.min_balance ≡ true
        → IsRefused e coin rule before
    no_deposit :
        str_eq (or_empty_text (lookup e.cfg.deposit_addrs coin)) [] ≡ true
        → IsRefused e coin rule before
    no_market :
        str_eq (market_name f64 out now coin rule.destination) [] ≡ true
        → IsRefused e coin rule before

  -- A swap of `coin` under its rule, with `before` the world in which it was asked for.
  pub record IsStart (e e' : Engine F) (coin : List ℕ) (rule : Rule F) (before : W) : Type 0 where
    pub confirmed : F
    pub addr : List ℕ
    pub job : SwapJob F
    pub has_wallet : out.has_wallet coin ≡ true
    pub balance : (out.wallet_balance coin before).0 ≡ done confirmed
    pub enough : f64.lt (f64.sub confirmed rule.keep_balance) rule.min_balance ≡ false
    pub deposit : or_empty_text (lookup e.cfg.deposit_addrs coin) ≡ addr
    pub has_deposit : str_eq addr [] ≡ false
    pub has_market : str_eq (market_name f64 out now coin rule.destination) [] ≡ false
    pub appended : e' ≡ record e { jobs = e.jobs ++ (job ∷ []) }
    pub source : job.source_coin ≡ coin
    pub dest : job.dest_coin ≡ rule.destination
    pub amount : job.amount ≡ f64.sub confirmed rule.keep_balance
    pub sent :
        ((job.state ≡ wait_deposit)
          × ((out.send_to_address coin addr job.amount (out.wallet_balance coin before).1).0
              ≡ done job.tx_id))
        ⊎ ((job.state ≡ failed)
            × ((why : List ℕ) × ((out.send_to_address coin addr job.amount
                    (out.wallet_balance coin before).1).0
                  ≡ refused why)
                × (job.error ≡ send_failed why)))

  Answer-cases :
      {A : Type 0} (a : Answer A) → ((x : A) × (a ≡ done x)) ⊎ ((why : List ℕ) × (a ≡ refused why))
  Answer-cases (done x) = inl (x, refl)
  Answer-cases (refused why) = inr (why, refl)

  start :
      (e : Engine F) (coin : List ℕ) (rule : Rule F) (w : W) (confirmed : F)
      → out.has_wallet coin ≡ true
      → (out.wallet_balance coin w).0 ≡ done confirmed
      → f64.lt (f64.sub confirmed rule.keep_balance) rule.min_balance ≡ false
      → str_eq (or_empty_text (lookup e.cfg.deposit_addrs coin)) [] ≡ false
      → str_eq (market_name f64 out now coin rule.destination) [] ≡ false
      → IsStart e
          (send_coins f64 out now e
            (new_job f64 out now coin rule (f64.sub confirmed rule.keep_balance))
            (or_empty_text (lookup e.cfg.deposit_addrs coin))
            (out.wallet_balance coin w).1).0
          coin
          rule
          w
  unfolding send_coins new_job sent_job
  start e coin rule w confirmed wallet balance enough deposit market =
      elim (Answer-cases
        (out.send_to_address coin (or_empty_text (lookup e.cfg.deposit_addrs coin))
          (f64.sub confirmed rule.keep_balance) (out.wallet_balance coin w).1).0) [
            | inl (tx, h) ↦ rw h (record {
              confirmed = confirmed;
              addr = or_empty_text (lookup e.cfg.deposit_addrs coin);
              job =
                  sent_job f64 out now
                    (new_job f64 out now coin rule (f64.sub confirmed rule.keep_balance)) (done tx);
              has_wallet = wallet;
              balance = balance;
              enough = enough;
              deposit = refl;
              has_deposit = deposit;
              has_market = market;
              appended = refl;
              source = refl;
              dest = refl;
              amount = refl;
              sent = inl (refl, h);
            })
            | inr (why, h) ↦ rw h (record {
              confirmed = confirmed;
              addr = or_empty_text (lookup e.cfg.deposit_addrs coin);
              job =
                  sent_job f64 out now
                    (new_job f64 out now coin rule (f64.sub confirmed rule.keep_balance))
                    (refused why);
              has_wallet = wallet;
              balance = balance;
              enough = enough;
              deposit = refl;
              has_deposit = deposit;
              has_market = market;
              appended = refl;
              source = refl;
              dest = refl;
              amount = refl;
              sent = inr (refl, (why, h, refl));
            })
          ]

  started :
      (e : Engine F) (coin : List ℕ) (rule : Rule F) (w : W)
      → MayStart e coin rule w
      → IsStart e (check_and_initiate f64 out now e coin rule w).0 coin rule w
  unfolding check_and_initiate
  started e coin rule w m =
      rw (m.has_wallet, m.balance, m.enough, m.has_deposit, m.has_market)
        (start e coin rule w m.confirmed m.has_wallet m.balance m.enough m.has_deposit m.has_market)

  unchanged :
      (e : Engine F) (coin : List ℕ) (rule : Rule F) (w : W)
      → IsRefused e coin rule w
      → (check_and_initiate f64 out now e coin rule w).0 ≡ e
  unfolding check_and_initiate
  unchanged e coin rule w (no_wallet h) = rw h refl
  unchanged e coin rule w (no_balance why h) = ground arith
  unchanged e coin rule w (too_little confirmed h l) = ground arith
  unchanged e coin rule w (no_deposit h) = ground arith
  unchanged e coin rule w (no_market h) = ground arith

  may_start :
      (e : Engine F) (coin : List ℕ) (rule : Rule F) (w : W)
      → MayStart e coin rule w ⊎ IsRefused e coin rule w
  may_start e coin rule w = elim (Bool-cases (out.has_wallet coin)) [
    | inr h ↦ inr (no_wallet h)
    | inl wallet ↦ elim (Answer-cases (out.wallet_balance coin w).0) [
      | inr (why, h) ↦ inr (no_balance why h)
      | inl (confirmed, h) ↦
          elim (Bool-cases (f64.lt (f64.sub confirmed rule.keep_balance) rule.min_balance)) [
            | inl little ↦ inr (too_little confirmed h little)
            | inr enough ↦
                elim (Bool-cases (str_eq (or_empty_text (lookup e.cfg.deposit_addrs coin)) [])) [
                  | inl none_set ↦ inr (no_deposit none_set)
                  | inr deposit ↦
                      elim (Bool-cases
                        (str_eq (market_name f64 out now coin rule.destination) [])) [
                          | inl none_known ↦ inr (no_market none_known)
                          | inr market ↦ inl (record {
                            confirmed = confirmed;
                            has_wallet = wallet;
                            balance = h;
                            enough = enough;
                            has_deposit = deposit;
                            has_market = market;
                          })
                        ]
                ]
          ]
    ]
  ]

  -- A coin either has no wallet, or its wallet does not tell its balance, or the balance less what
  -- is kept is below the minimum, or there is no deposit address, or no market, and then the engine
  -- is left as it was; or none of these is the case and one job is appended, for the balance less
  -- what is kept, which waits for its deposit with the id of the payment where the wallet sent the
  -- coins, and has failed where the wallet refused to.
  pub check_and_initiate-IsRefused :
      (e : Engine F) (coin : List ℕ) (rule : Rule F) (w : W)
      → (IsRefused e coin rule w × ((check_and_initiate f64 out now e coin rule w).0 ≡ e))
        ⊎ IsStart e (check_and_initiate f64 out now e coin rule w).0 coin rule w
  check_and_initiate-IsRefused e coin rule w = elim (may_start e coin rule w) [
    | inl m ↦ inr (started e coin rule w m)
    | inr r ↦ inl (r, unchanged e coin rule w r)
  ]
