-- ===== src/Pplns/Engine/Windows.antt =====
-- The map of the share windows: a push on one window leaves the others alone.
use pipool.Base.{ℕ, ◌<◌, ◌≡◌, refl, ap, ◌∙◌, arith}
use pipool.Base.{List, [], if◌then◌else◌}
use pipool.Base.{Bool-cases, inl, inr}
use pipool.Go.Strings.{str_eq, str_eq_iff}
use pipool.Go.Maps.{Map, lookup, insert, lookup-insert}
use pipool.Pplns.Ring.{RingBuffer, new_ring_buffer, push, snapshot}
use pipool.Pplns.Ring.Window.{IsValid, enqueue, snapshot-push, push-IsValid}
use pipool.Pplns.Ring.Window.{new_ring_buffer-IsValid}
use pipool.Go.Float.{Float64}
use pipool.Pplns.Engine.{Share, Config, window_of, or_new}
use pipool.Pplns.Engine.{defaults, blank_share}

module _ {F : Type 0} (f64 : Float64 F) where
  -- The shares in the window of a coin, oldest first.
  unfoldable pub window_shares : ℕ → Map (RingBuffer (Share F)) → List ℕ → List (Share F)
  window_shares n windows coin = snapshot (window_of f64 n windows coin)

  -- Every window is a valid buffer of size `n`.
  pub record AreValid (n : ℕ) (windows : Map (RingBuffer (Share F))) : Type 0 where
    pub each : (coin : List ℕ) → IsValid (window_of f64 n windows coin)
    pub size : (coin : List ℕ) → (window_of f64 n windows coin).cap ≡ n

  pub window_of-insert :
      (n : ℕ) (windows : Map (RingBuffer (Share F))) (k : List ℕ) (rb : RingBuffer (Share F))
      (s : List ℕ)
      → window_of f64 n (insert windows k rb) s
        ≡ (if str_eq k s then rb else window_of f64 n windows s)
  unfolding window_of or_new
  window_of-insert n windows k rb s =
      rw (lookup-insert windows k rb s)
        (elim (Bool-cases (str_eq k s)) [ inl same ↦ rw same refl | inr other ↦ rw other refl ])

  push-cap : (r : RingBuffer (Share F)) (x : Share F) → (push r x).cap ≡ r.cap
  unfolding push
  push-cap r x = refl

  window_of-push :
      (n : ℕ) (windows : Map (RingBuffer (Share F))) (k : List ℕ) (x : Share F) (s : List ℕ)
      → window_of f64 n (insert windows k (push (window_of f64 n windows k) x)) s
        ≡ (if str_eq k s then push (window_of f64 n windows s) x else window_of f64 n windows s)
  window_of-push n windows k x s =
      rw (window_of-insert n windows k (push (window_of f64 n windows k) x) s)
        (elim (Bool-cases (str_eq k s)) [
          | inl same ↦ let eq : k ≡ s = (str_eq_iff k s).0 same in rw (same, eq) refl
          | inr other ↦ rw other refl
        ])

  pub push-AreValid :
      {n : ℕ} {windows : Map (RingBuffer (Share F))} (k : List ℕ) (x : Share F)
      → AreValid n windows
      → AreValid n (insert windows k (push (window_of f64 n windows k) x))
  push-AreValid {n} {windows} k x v = record {
    each = λ s. rw (window_of-push n windows k x s) (elim (Bool-cases (str_eq k s)) [
      | inl same ↦ rw same (push-IsValid x (v.each s))
      | inr other ↦ rw other (v.each s)
    ]);
    size = λ s. rw (window_of-push n windows k x s) (elim (Bool-cases (str_eq k s)) [
      | inl same ↦ rw same (push-cap (window_of f64 n windows s) x ∙ v.size s)
      | inr other ↦ rw other (v.size s)
    ]);
  }

  pub window_shares-push :
      {n : ℕ} {windows : Map (RingBuffer (Share F))} (k : List ℕ) (x : Share F) (s : List ℕ)
      → AreValid n windows
      → window_shares n (insert windows k (push (window_of f64 n windows k) x)) s ≡ (
          if str_eq k s then enqueue n (window_shares n windows s) x else window_shares n windows s)
  unfolding window_shares
  window_shares-push {n} {windows} k x s v =
      rw (window_of-push n windows k x s) (elim (Bool-cases (str_eq k s)) [
        | inl same ↦ rw same (
            snapshot-push x (v.each s)
            ∙ ap (λ m. enqueue m (snapshot (window_of f64 n windows s)) x) (v.size s))
        | inr other ↦ rw other refl
      ])

  pub empty-AreValid : (n : ℕ) → 0 < n → AreValid n []
  unfolding window_of or_new lookup
  empty-AreValid n h = record {
    each = λ coin. new_ring_buffer-IsValid (blank_share f64) n h;
    size = λ coin. unfold new_ring_buffer in refl;
  }

  pub window_shares-empty : (n : ℕ) (coin : List ℕ) → window_shares n [] coin ≡ []
  unfolding window_shares window_of or_new lookup new_ring_buffer snapshot
  window_shares-empty n coin = refl

  pub defaults-pos : (cfg : Config F) → 0 < (defaults f64 cfg).window_size
  unfolding defaults
  defaults-pos cfg = ground arith
