-- ===== src/Pplns/Ring.antt =====
-- internal/pplns/payout.go: ringBuffer. `cap` is the length of `buf`, and the code makes no buffer of
-- capacity zero, at which `push` would panic.
pub mod Window
use pipool.Base.{ℕ, ◌+◌, ◌%◌, List, [], ◌∷◌, ◌++◌, take, drop, set, replicate, ltb, ◌==◌}
use pipool.Base.{if◌then◌else◌}

pub record RingBuffer {ℓ} (A : Type ℓ) : Type ℓ where
  pub buf : List A
  pub cap : ℕ
  pub head : ℕ
  pub count : ℕ

module _ {ℓ} {A : Type ℓ} where
  -- `blank` is the zero value of the entries.
  unfoldable pub new_ring_buffer : A → ℕ → RingBuffer A
  new_ring_buffer blank capacity = record {
    buf = replicate capacity blank;
    cap = capacity;
    head = 0;
    count = 0;
  }

  unfoldable pub push : RingBuffer A → A → RingBuffer A
  push r s = record {
    buf = set r.buf r.head s;
    cap = r.cap;
    head = (r.head + 1) % r.cap;
    count = if ltb r.count r.cap then r.count + 1 else r.count;
  }

  unfoldable pub snapshot : RingBuffer A → List A
  snapshot r =
      if r.count == 0
      then []
      else if ltb r.count r.cap
      then take r.count r.buf
      else drop r.head r.buf ++ take r.head r.buf

  unfoldable pub push_all : RingBuffer A → List A → RingBuffer A
  push_all r [] = r
  push_all r (s ∷ ss) = push_all (push r s) ss
