-- ===== src/Pplns/Ring/Window.antt =====
-- The ring buffer of internal/pplns/payout.go implements a queue of the last shares.
use pipool.Base.{last_n, few}
use pipool.Base.{ℕ, suc, ◌+◌, ◌-◌, ◌%◌, ◌≤◌, ◌<◌, ◌≡◌, ◌⊎◌, refl, sym, ap, ◌∙◌, arith, inl, inr}
use pipool.Base.{List, [], ◌∷◌, ◌++◌, length, take, drop, set, ltb, if◌then◌else◌}
use pipool.Base.{length-set, length-drop, length-append, length-replicate, length-take}
use pipool.Base.{take-set, drop-set, take_all, drop_all, drop-append, drop-drop, drop-snoc}
use pipool.Base.{append-nil, append_assoc, dec_lt}
use native.Mathlib.Nat.{mod-eq_of_lt, mod_self}
use pipool.Pplns.Ring.{RingBuffer, new_ring_buffer, push, snapshot, push_all}

next_head :
    (h c : ℕ) → h < c → ((suc h < c) × ((h + 1) % c ≡ suc h)) ⊎ ((suc h ≡ c) × ((h + 1) % c ≡ 0))
next_head h c lt = elim (dec_lt (suc h) c) [
  | yes l ↦ inl (l, mod-eq_of_lt (omega arith) ∙ omega arith)
  | no n ↦
      let e : suc h ≡ c = omega arith in
      inr (e, rw (sym e) (ap (λ k. k % suc h) (omega arith) ∙ mod_self (suc h)))
]

module _ {ℓ} {A : Type ℓ} where
  -- The window as it is specified: a queue that loses its oldest entry when it is full.
  unfoldable pub enqueue : ℕ → List A → A → List A
  enqueue cap q s = if ltb (length q) cap then q ++ (s ∷ []) else drop 1 q ++ (s ∷ [])

  enqueue_room : {cap : ℕ} (q : List A) (s : A) → length q < cap → enqueue cap q s ≡ q ++ (s ∷ [])
  unfolding enqueue
  enqueue_room q s h = ground arith

  enqueue_full :
      {cap : ℕ} (q : List A) (s : A) → cap ≤ length q → enqueue cap q s ≡ drop 1 q ++ (s ∷ [])
  unfolding enqueue
  enqueue_full q s h = ground arith

  pub record IsValid (r : RingBuffer A) : Type ℓ where
    pub cap_pos : 0 < r.cap
    pub buf_full : length r.buf ≡ r.cap
    pub head_lt : r.head < r.cap
    pub count_le : r.count ≤ r.cap
    pub head_count : r.count < r.cap → r.head ≡ r.count

  pub new_ring_buffer-IsValid :
      (blank : A) (capacity : ℕ) → 0 < capacity → IsValid (new_ring_buffer blank capacity)
  unfolding new_ring_buffer
  new_ring_buffer-IsValid blank capacity h = record {
    cap_pos = h;
    buf_full = length-replicate capacity blank;
    head_lt = h;
    count_le = omega arith;
    head_count = λ lt. refl;
  }

  pub push-IsValid : {r : RingBuffer A} (s : A) → IsValid r → IsValid (push r s)
  unfolding push
  push-IsValid {r} s v = record {
    cap_pos = v.cap_pos;
    buf_full = length-set r.buf r.head s ∙ v.buf_full;
    head_lt = ground (arith, next_head r.head r.cap v.head_lt);
    count_le = ground arith;
    head_count = ground (arith, next_head r.head r.cap v.head_lt, v.head_count);
  }

  snapshot_partial : (r : RingBuffer A) → r.count < r.cap → snapshot r ≡ take r.count r.buf
  unfolding snapshot
  snapshot_partial r h = elim (dec_lt 0 r.count) [
    | yes pos ↦ ground arith
    | no n ↦ let e : r.count ≡ 0 = omega arith in rw e refl
  ]

  snapshot_full :
      (r : RingBuffer A)
      → 0 < r.cap
      → r.count ≡ r.cap
      → snapshot r ≡ drop r.head r.buf ++ take r.head r.buf
  unfolding snapshot
  snapshot_full r h e = ground arith

  -- Where the next write goes, the buffer is cut after the new entry.
  rotate_next :
      (b : List A) (h : ℕ) (s : A)
      → h < length b
      → drop ((h + 1) % length b) (set b h s) ++ take ((h + 1) % length b) (set b h s)
        ≡ drop (suc h) b ++ (take h b ++ (s ∷ []))
  rotate_next b h s lt = elim (next_head h (length b) lt) [
    | inl (l, e) ↦ rw (e, drop-set, take-set b h s lt) refl
    | inr (l, e) ↦
        rw (e, sym (take-set b h s lt), l, drop_all b)
          (append-nil (set b h s)
            ∙ sym (ap (λ n. take n (set b h s)) (sym (length-set b h s)) ∙ take_all (set b h s)))
  ]

  pub length-snapshot : {r : RingBuffer A} → IsValid r → length (snapshot r) ≡ r.count
  length-snapshot {r} v = elim (dec_lt r.count r.cap) [
    | yes l ↦ rw (snapshot_partial r l, length-take) (omega arith)
    | no n ↦
        rw (snapshot_full r v.cap_pos (omega arith), length-append, length-drop, length-take)
          (omega arith)
  ]

  push_partial :
      {r : RingBuffer A} (s : A)
      → IsValid r
      → suc r.count < r.cap
      → snapshot (push r s) ≡ take r.count r.buf ++ (s ∷ [])
  unfolding push
  push_partial {r} s v h =
      let same : r.head ≡ r.count = v.head_count (omega arith) in
      let more : (push r s).count ≡ suc r.count = ground arith in
      snapshot_partial (push r s) (ground arith)
      ∙ rw (more, same) (take-set r.buf r.count s (omega arith))

  push_full :
      {r : RingBuffer A} (s : A)
      → IsValid r
      → r.cap ≤ suc r.count
      → snapshot (push r s) ≡ drop (suc r.head) r.buf ++ (take r.head r.buf ++ (s ∷ []))
  unfolding push
  push_full {r} s v h =
      snapshot_full (push r s) v.cap_pos (ground arith)
      ∙ rw (sym v.buf_full) (rotate_next r.buf r.head s (omega arith))

  push_room :
      {r : RingBuffer A} (s : A)
      → IsValid r
      → r.count < r.cap
      → snapshot (push r s) ≡ take r.count r.buf ++ (s ∷ [])
  push_room {r} s v h = elim (dec_lt (suc r.count) r.cap) [
    | yes l ↦ push_partial s v l
    | no n ↦
        let same : r.head ≡ r.count = v.head_count h in
        let e : suc r.count ≡ length r.buf = omega (arith, v.buf_full) in
        push_full s v (omega arith) ∙ rw (same, e, drop_all r.buf) refl
  ]

  -- What is read after a push is the queue that was read before, with the new entry.
  pub snapshot-push :
      {r : RingBuffer A} (s : A) → IsValid r → snapshot (push r s) ≡ enqueue r.cap (snapshot r) s
  snapshot-push {r} s v = elim (dec_lt r.count r.cap) [
    | yes room ↦
        rw
          (
            enqueue_room {cap = r.cap} (snapshot r) s (omega (arith, length-snapshot v)),
            snapshot_partial r room,
          )
          (push_room s v room)
    | no full ↦
        rw
          (
            enqueue_full {cap = r.cap} (snapshot r) s (omega (arith, length-snapshot v)),
            snapshot_full r v.cap_pos (omega arith),
            drop-append (drop r.head r.buf) (take r.head r.buf)
                (omega (arith, length-drop r.head r.buf)),
            drop-drop,
            append_assoc,
          )
          (push_full s v (omega arith))
  ]

  pub enqueue-last_n :
      (n : ℕ) (xs : List A) (s : A) → 0 < n → enqueue n (last_n n xs) s ≡ last_n n (xs ++ (s ∷ []))
  unfolding last_n
  enqueue-last_n n xs s pos = elim (dec_lt (length xs) n) [
    | yes l ↦
        let whole : last_n n xs ≡ xs = few n xs (omega arith) in
        rw (whole, enqueue_room {cap = n} xs s l)
          (sym (few n (xs ++ (s ∷ [])) (omega (arith, length-append xs (s ∷ [])))))
    | no full ↦
        let k : suc (length xs - n) ≡ length (xs ++ (s ∷ [])) - n =
          omega (arith, length-append xs (s ∷ [])) in
        rw
          (
            enqueue_full {cap = n} (drop (length xs - n) xs) s
                (omega (arith, length-drop (length xs - n) xs)),
            drop-drop,
            sym k,
          )
          (sym (drop-snoc (suc (length xs - n)) xs s (omega arith)))
  ]

  push_cap : (r : RingBuffer A) (s : A) → (push r s).cap ≡ r.cap
  unfolding push
  push_cap r s = refl

  push_all_last :
      (cap : ℕ) (r : RingBuffer A) (seen ss : List A)
      → IsValid r
      → r.cap ≡ cap
      → snapshot r ≡ last_n cap seen
      → snapshot (push_all r ss) ≡ last_n cap (seen ++ ss)
  unfolding push_all
  push_all_last cap r seen [] v c e = e ∙ ap (last_n cap) (sym (append-nil seen))
  push_all_last cap r seen (s ∷ ss) v c e =
      push_all_last cap (push r s) (seen ++ (s ∷ [])) ss (push-IsValid s v) (push_cap r s ∙ c)
        (snapshot-push s v ∙ rw (e, c) (enqueue-last_n cap seen s (omega arith)))
      ∙ ap (last_n cap) (append_assoc seen (s ∷ []) ss)

  -- After any number of pushes to a new buffer of some capacity other than zero, the snapshot is the
  -- list of the last entries that were pushed, oldest first, as many as the capacity allows.
  pub snapshot-push_all :
      (blank : A) (cap : ℕ) (ss : List A)
      → 0 < cap
      → snapshot (push_all (new_ring_buffer blank cap) ss) ≡ last_n cap ss
  snapshot-push_all blank cap ss pos =
      push_all_last cap (new_ring_buffer blank cap) [] ss (new_ring_buffer-IsValid blank cap pos)
        (unfold new_ring_buffer in refl)
        (unfold new_ring_buffer snapshot in sym (few cap [] (omega arith)))
