-- ===== src/Go/Search.antt =====
-- sort.Search: binary search for the first index at which a test holds.
use pipool.Base.{ℕ, zero, suc, ◌+◌, ◌-◌, ◌/◌, ◌≤◌, ◌<◌, ◌≡◌, arith, Bool, true, false, inl, inr}
use pipool.Base.{ltb, Bool-cases, if◌then◌else◌}

-- The loop of sort.Search between i and j. Each round halves what is between them.
unfoldable pub search_loop : ℕ → (ℕ → Bool) → ℕ → ℕ → ℕ
search_loop zero f i j = i
search_loop (suc fuel) f i j =
    let h = (i + j) / 2 in
    let rest = search_loop fuel f (if f h then i else suc h) (if f h then h else j) in
    if ltb i j then rest else i

-- sort.Search(n, f)
unfoldable pub search : ℕ → (ℕ → Bool) → ℕ
search n f = search_loop n f 0 n

-- The test turns from false to true at k.
pub record TurnsAt (n : ℕ) (f : ℕ → Bool) (k : ℕ) : Type 0 where
  pub bound : k ≤ n
  pub before : (i : ℕ) → i < k → f i ≡ false
  pub after : (i : ℕ) → k ≤ i → i < n → f i ≡ true

module _ (n : ℕ) (f : ℕ → Bool) (k : ℕ) (turns : TurnsAt n f k) where
  search_loop-TurnsAt :
      (fuel i j : ℕ) → i ≤ k → k ≤ j → j ≤ n → j - i ≤ fuel → search_loop fuel f i j ≡ k
  unfolding search_loop
  search_loop-TurnsAt zero i j le ge top enough = omega arith
  search_loop-TurnsAt (suc fuel) i j le ge top enough =
      let h : ℕ = (i + j) / 2 in
      elim (Bool-cases (ltb i j)) [
        | inl more ↦ elim (Bool-cases (f h)) [
          | inl up ↦
              rw (more, up)
                (search_loop-TurnsAt fuel i h le (ground (arith, turns.before h)) (ground arith)
                  (ground arith))
          | inr down ↦
              rw (more, down)
                (search_loop-TurnsAt fuel (suc h) j (ground (arith, turns.after h)) ge top
                  (ground arith))
        ]
        | inr done ↦ rw done (ground arith)
      ]

  pub search-TurnsAt : search n f ≡ k
  unfolding search
  search-TurnsAt = search_loop-TurnsAt n 0 n (omega arith) turns.bound (omega arith) (omega arith)
