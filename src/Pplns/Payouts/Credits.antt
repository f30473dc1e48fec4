-- ===== src/Pplns/Payouts/Credits.antt =====
-- What BlockFound of internal/pplns/payout.go credits to each worker.
use pipool.Base.{ℕ, ◌≡◌, refl, ap, ◌∙◌, Bool, true, false, not, ◌&&◌, ◌==◌}
use pipool.Base.{
  List, [], ◌∷◌, Option, none, some, if◌then◌else◌, Bool-cases, Option-cases, inl, inr,
}
use pipool.Go.Strings.{str_eq, str_eq_iff}
use pipool.Go.Maps.{Map, lookup, insert, lookup-insert, IsMap, insert-IsMap}
use pipool.Pplns.Ring.{RingBuffer, snapshot}
use pipool.Go.Float.{Float64}
use pipool.Pplns.Engine.{Share, Engine, of_coin}
use pipool.Pplns.Payouts.{round_to, or_zero, add_to, or_empty, worker_diff, total_diff, credit_of}
use pipool.Pplns.Payouts.{credit_workers, distributable_of, distribute, block_found}

module _ {F : Type 0} (f64 : Float64 F) where
  -- A balance, which is zero where there is no entry.
  abbrev entry : Option F → F
  entry none = f64.lit 0 0
  entry (some x) = x

  -- The difficulties of the shares, added up in their order.
  unfoldable pub difficulties : F → List (Share F) → F
  difficulties sum [] = sum
  difficulties sum (s ∷ ss) = difficulties (f64.add sum s.difficulty) ss

  -- What is left of a reward after a fee in percent.
  abbrev after_fee : F → F → F
  after_fee fee reward = f64.mul reward (f64.sub (f64.lit 1 0) (f64.div fee (f64.lit 100 0)))

  -- The part of an amount that goes to a difficulty out of a total, rounded to eight places.
  abbrev part : F → F → F → F
  part amount total diff =
      f64.div (f64.round (f64.mul (f64.mul amount (f64.div diff total)) (f64.lit 100000000 0)))
        (f64.lit 100000000 0)

  -- The difficulties of one worker's shares, added up on top of an entry; `none` with no share.
  unfoldable pub sum_of : List ℕ → Option F → List (Share F) → Option F
  sum_of addr sum [] = sum
  sum_of addr sum (s ∷ ss) =
      sum_of addr
        (if str_eq s.worker_addr addr then some (f64.add (entry sum) s.difficulty) else sum) ss

  -- A balance after one credit, or as it was.
  unfoldable pub credited : F → F → Option F → Option F → Option F
  credited distributable total before none = before
  credited distributable total before (some diff) =
      some (f64.add (entry before) (part distributable total diff))

  or_zero-entry : (o : Option F) → or_zero f64 o ≡ entry o
  unfolding or_zero
  or_zero-entry none = refl
  or_zero-entry (some x) = refl

  credit_of-part : (d t diff : F) → credit_of f64 d t diff ≡ part d t diff
  unfolding credit_of round_to
  credit_of-part d t diff = refl

  total_diff-difficulties :
      (sum : F) (ss : List (Share F)) → total_diff f64 sum ss ≡ difficulties sum ss
  unfolding total_diff difficulties
  total_diff-difficulties sum [] = refl
  total_diff-difficulties sum (s ∷ ss) = total_diff-difficulties (f64.add sum s.difficulty) ss

  distributable_of-after_fee :
      (e : Engine F) (reward : F)
      → distributable_of f64 e reward ≡ after_fee e.cfg.pool_fee_rate reward
  unfolding distributable_of
  distributable_of-after_fee e reward = refl

  lookup-add_to :
      (m : Map F) (k : List ℕ) (x : F) (a : List ℕ)
      → lookup (add_to f64 m k x) a
        ≡ (if str_eq k a then some (f64.add (entry (lookup m a)) x) else lookup m a)
  unfolding add_to
  lookup-add_to m k x a = rw (lookup-insert) (elim (Bool-cases (str_eq k a)) [
    | inl same ↦
        let e : k ≡ a = (str_eq_iff k a).0 same in rw (same, e, or_zero-entry (lookup m a)) refl
    | inr other ↦ rw other refl
  ])

  lookup-worker_diff :
      (m : Map F) (ss : List (Share F)) (a : List ℕ)
      → lookup (worker_diff f64 m ss) a ≡ sum_of a (lookup m a) ss
  unfolding worker_diff sum_of
  lookup-worker_diff m [] a = refl
  lookup-worker_diff m (s ∷ ss) a =
      lookup-worker_diff (add_to f64 m s.worker_addr s.difficulty) ss a
      ∙ ap (λ o. sum_of a o ss) (lookup-add_to m s.worker_addr s.difficulty a)

  worker_diff-IsMap : (m : Map F) (ss : List (Share F)) → IsMap m → IsMap (worker_diff f64 m ss)
  unfolding worker_diff add_to
  worker_diff-IsMap m [] h = h
  worker_diff-IsMap m (s ∷ ss) h =
      worker_diff-IsMap (insert m s.worker_addr _) ss (insert-IsMap m s.worker_addr _ h)

  lookup-credit_workers :
      (d t : F) (m : Map F) (balance : Map F) (a : List ℕ)
      → IsMap m
      → lookup (credit_workers f64 d t balance m) a ≡ credited d t (lookup balance a) (lookup m a)
  unfolding credit_workers credited lookup
  lookup-credit_workers d t [] balance a h = refl
  lookup-credit_workers d t ((k, diff) ∷ m) balance a (new, h) =
      lookup-credit_workers d t m (add_to f64 balance k (credit_of f64 d t diff)) a h
      ∙ ap (λ o. credited d t o (lookup m a)) (lookup-add_to balance k (credit_of f64 d t diff) a)
      ∙ rw (credit_of-part d t diff) elim (Bool-cases (str_eq k a)) [
        | inl same ↦
            let e : k ≡ a = (str_eq_iff k a).0 same in
            let none_left : lookup m a ≡ none = rw e at new in rw (same, none_left) refl
        | inr other ↦ rw other refl
      ]

  -- The entry of a worker in the balances of a coin.
  unfoldable pub balance_of : Engine F → List ℕ → List ℕ → Option F
  balance_of e coin addr = lookup (or_empty f64 (lookup e.balances coin)) addr

  lookup-diff :
      (ss : List (Share F)) (a : List ℕ) → lookup (worker_diff f64 [] ss) a ≡ sum_of a none ss
  unfolding lookup
  lookup-diff ss a = lookup-worker_diff [] ss a

  IsMap-diff : (ss : List (Share F)) → IsMap (worker_diff f64 [] ss)
  IsMap-diff ss = worker_diff-IsMap [] ss tt

  balance_of-distribute :
      (e : Engine F) (k : List ℕ) (reward : F) (ss : List (Share F)) (c a : List ℕ)
      → balance_of (distribute f64 e k reward ss) c a ≡ (
          if not (f64.eq (difficulties (f64.lit 0 0) ss) (f64.lit 0 0)) && str_eq k c
          then credited
              (after_fee e.cfg.pool_fee_rate reward)
              (difficulties (f64.lit 0 0) ss)
              (balance_of e c a)
              (sum_of a none ss)
          else balance_of e c a)
  unfolding distribute balance_of or_empty
  balance_of-distribute e k reward ss c a =
      let total = total_diff-difficulties (f64.lit 0 0) ss in
      let left = distributable_of-after_fee e reward in
      rw (total, left)
        elim (Bool-cases (f64.eq (difficulties (f64.lit 0 0) ss) (f64.lit 0 0))) [
          | inl zero_sum ↦ rw zero_sum refl
          | inr some_sum ↦
              rw (some_sum, lookup-insert)
                (elim (Bool-cases (str_eq k c)) [
                  | inl same ↦
                      let eq : k ≡ c = (str_eq_iff k c).0 same in
                      rw (same, eq)
                        (lookup-credit_workers (after_fee e.cfg.pool_fee_rate reward)
                            (difficulties (f64.lit 0 0) ss) (worker_diff f64 [] ss)
                            (or_empty f64 (lookup e.balances c)) a (IsMap-diff ss)
                          ∙ ap (credited _ _ _) (lookup-diff ss a))
                  | inr other ↦ rw other refl
                ])
        ]

  abbrev shares_in : List ℕ → Option (RingBuffer (Share F)) → List (Share F)
  shares_in coin none = []
  shares_in coin (some rb) = of_coin f64 coin (snapshot rb)

  abbrev is_filled : Option (RingBuffer (Share F)) → Bool
  is_filled none = false
  is_filled (some rb) = not (rb.count == 0)

  -- The shares that a block of a coin pays for.
  unfoldable pub paid_shares : Engine F → List ℕ → List (Share F)
  paid_shares e coin = shares_in coin (lookup e.windows coin)

  -- The window of the coin has shares.
  unfoldable pub has_shares : Engine F → List ℕ → Bool
  has_shares e coin = is_filled (lookup e.windows coin)

  -- The early returns of BlockFound.
  guarded :
      (on low empty rest : Bool) (e paid : Engine F) (c a : List ℕ) (new : Option F)
      → balance_of paid c a ≡ (if rest then new else balance_of e c a)
      → balance_of (if not on then e else if low then e else if empty then e else paid) c a
        ≡ (if on && (not low && (not empty && rest)) then new else balance_of e c a)
  guarded true true empty rest e paid c a new h = refl
  guarded true false true rest e paid c a new h = refl
  guarded true false false rest e paid c a new h = h
  guarded false low empty rest e paid c a new h = refl

  -- A block of `k` with its reward changes the balance of a worker for a coin only if the engine is
  -- enabled, the reward is above zero, the window of `k` has shares whose difficulties do not add up
  -- to zero, the coin is `k`, and the worker has a share of `k` in the window. Then the balance, or
  -- zero where there was none, grows by what is left of the reward after the fee, times the worker's
  -- part of the total difficulty, rounded to eight places. Any arithmetic of float64 is allowed.
  pub balance_of-block_found :
      (e : Engine F) (k : List ℕ) (reward : F) (c a : List ℕ)
      → balance_of (block_found f64 e k reward) c a ≡ (
          if e.cfg.enabled
            && (not (f64.le reward (f64.lit 0 0))
                && (has_shares e k
                    && (not (f64.eq (difficulties (f64.lit 0 0) (paid_shares e k)) (f64.lit 0 0))
                        && str_eq k c)))
          then credited
              (after_fee e.cfg.pool_fee_rate reward)
              (difficulties (f64.lit 0 0) (paid_shares e k))
              (balance_of e c a)
              (sum_of a none (paid_shares e k))
          else balance_of e c a)
  unfolding block_found has_shares paid_shares
  balance_of-block_found e k reward c a = elim (Option-cases (lookup e.windows k)) [
    | inl n ↦ rw n (guarded e.cfg.enabled _ true false e e c a _ refl)
    | inr (rb, n) ↦ rw n (
        guarded e.cfg.enabled _ (rb.count == 0) _ e _ c a _
          (balance_of-distribute e k reward (of_coin f64 k (snapshot rb)) c a))
  ]
