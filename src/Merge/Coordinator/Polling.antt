-- ===== src/Merge/Coordinator/Polling.antt =====
-- What the polling loops keep in the coordinator.
use pipool.Base.{ℕ, ◌≡◌, refl, arith, true, some, none, Option, ◌&&◌, not}
use pipool.Base.{List, [], ◌∷◌, if◌then◌else◌, Bool-cases, inl, inr}
use pipool.Go.Strings.{str_eq, str_eq_iff}
use pipool.Merge.Commitment.{Symbol, AuxWork, AuxBlockResult, Works, build_aux_work, display_hash}
use pipool.Merge.Coordinator.{CoinConfig, has_symbol, get_aux_work, put_aux_work, Coordinator}
use pipool.Merge.Coordinator.{new_coordinator, Tick, tick, store_work, poll_tick, poll}

get_aux_work-put_aux_work :
    (works : Works) (k s : Symbol) (w : AuxWork)
    → get_aux_work (put_aux_work works k w) s
      ≡ (if str_eq k s then some w else get_aux_work works s)
unfolding get_aux_work put_aux_work
get_aux_work-put_aux_work [] k s w = refl
get_aux_work-put_aux_work ((j, v) ∷ works) k s w =
    ground
      (arith, str_eq_iff k s, str_eq_iff j s, str_eq_iff j k, get_aux_work-put_aux_work works k s w)

-- After one answer the work of a symbol `s` is the work built from that answer, if the answer is for
-- `s`, `s` has a client, and the hash differs from the one seen last; in any other case the work of
-- `s` is what it was.
pub get_aux_work-poll_tick :
    (c : Coordinator) (k s : Symbol) (ab : AuxBlockResult) (now : ℕ)
    → get_aux_work (poll_tick c (tick k (some ab) now)).aux_work s ≡ (
        if has_symbol c.clients k && not (str_eq ab.hash (c.last_hash k)) && str_eq k s
        then some (build_aux_work k ab now)
        else get_aux_work c.aux_work s)
unfolding poll_tick store_work
get_aux_work-poll_tick c k s ab now =
    ground (arith, get_aux_work-put_aux_work c.aux_work k s (build_aux_work k ab now))

-- What holds of the work that is stored for a symbol, given the hash text seen last.
abbrev pub WorkOf : List Symbol → Symbol → List ℕ → Option AuxWork → Type 0
WorkOf clients s last none = last ≡ []
WorkOf clients s last (some w) =
    (w.hash_hex ≡ last)
    × (w.symbol ≡ s)
    × (w.hash ≡ display_hash w.hash_hex)
    × (has_symbol clients s ≡ true)

abbrev pub IsValid : Coordinator → Type 0
IsValid c = (s : Symbol) → WorkOf c.clients s (c.last_hash s) (get_aux_work c.aux_work s)

store_work-IsValid :
    (c : Coordinator) (k : Symbol) (ab : AuxBlockResult) (now : ℕ)
    → has_symbol c.clients k ≡ true
    → IsValid c
    → IsValid (store_work c k ab now)
unfolding store_work build_aux_work
store_work-IsValid c k ab now client v s = elim (Bool-cases (str_eq ab.hash (c.last_hash k))) [
  | inl same ↦ rw same (v s)
  | inr new ↦
      rw (new, get_aux_work-put_aux_work)
        (elim (Bool-cases (str_eq k s)) [
          | inl mine ↦
              let eq : k ≡ s = (str_eq_iff k s).0 mine in rw mine (refl, eq, refl, rw eq at client)
          | inr other ↦ rw other (v s)
        ])
]

poll_tick-IsValid : (c : Coordinator) (t : Tick) → IsValid c → IsValid (poll_tick c t)
unfolding poll_tick
poll_tick-IsValid c (tick k none now) v = v
poll_tick-IsValid c (tick k (some ab) now) v = elim (Bool-cases (has_symbol c.clients k)) [
  | inl client ↦ rw client (store_work-IsValid c k ab now client v)
  | inr missing ↦ rw missing v
]

poll-IsValid : (ts : List Tick) (c : Coordinator) → IsValid c → IsValid (poll c ts)
unfolding poll
poll-IsValid [] c v = v
poll-IsValid (t ∷ ts) c v = poll-IsValid ts (poll_tick c t) (poll_tick-IsValid c t v)

-- From a new coordinator, after any sequence of answers and errors in any order of the symbols: the
-- work of a symbol carries its symbol, the hash text that was seen last, and that hash's bytes in
-- internal order, and the symbol has a client; with no work, no hash has been seen.
pub poll_lem :
    (cfgs : List (Symbol × CoinConfig)) (ts : List Tick) → IsValid (poll (new_coordinator cfgs) ts)
poll_lem cfgs ts =
    poll-IsValid ts (new_coordinator cfgs) (λ s. unfold new_coordinator get_aux_work in refl)
