-- ===== src/Merge/Coordinator.antt =====
-- internal/merge/auxpow.go: Coordinator, its polling loops and SubmitAuxBlock; and the callback
-- OnAuxBlockFound of cmd/pipool/main.go, which turns a solved block into submissions.
pub mod Polling
pub mod Submission
use pipool.Base.{ℕ, zero, suc, Bool, true, false, Option, none, some, ◌&&◌, not}
use pipool.Base.{List, [], ◌∷◌, ◌++◌, if◌then◌else◌}
use pipool.Base.Bytes.{fixed}
use pipool.Go.Strings.{str_eq}
use pipool.Merge.Merkle.{Hash}
use pipool.Merge.Commitment.{Symbol, AuxWork, AuxBlockResult, Works, build_aux_work}
use pipool.Merge.AuxPow.{build_aux_pow_hex}
use mathlib.Core.Option

-- The fields of config.CoinConfig that matter here.
pub record CoinConfig : Type 0 where
  pub enabled : Bool
  pub merge_parent : List ℕ

-- `_, ok := c.clients[symbol]`, over the symbols that have a client.
unfoldable pub has_symbol : List Symbol → Symbol → Bool
has_symbol [] symbol = false
has_symbol (s ∷ syms) symbol = if str_eq s symbol then true else has_symbol syms symbol

-- The symbols for which NewCoordinator makes a client, over `map[string]config.CoinConfig`.
unfoldable pub new_clients : List (Symbol × CoinConfig) → List Symbol
new_clients [] = []
new_clients ((sym, cfg) ∷ cfgs) =
    let rest = new_clients cfgs in
    if cfg.enabled && not (str_eq cfg.merge_parent []) then sym ∷ rest else rest

-- `c.auxWork[symbol]`
unfoldable pub get_aux_work : Works → Symbol → Option AuxWork
get_aux_work [] symbol = none
get_aux_work ((s, work) ∷ works) symbol =
    if str_eq s symbol then some work else get_aux_work works symbol

-- `c.auxWork[symbol] = auxWork`
unfoldable pub put_aux_work : Works → Symbol → AuxWork → Works
put_aux_work [] symbol work = (symbol, work) ∷ []
put_aux_work ((s, w) ∷ works) symbol work =
    if str_eq s symbol then (symbol, work) ∷ works else (s, w) ∷ put_aux_work works symbol work

-- `aux_work` is shared under the mutex; `last_hash` is the local variable of each chain's goroutine.
pub record Coordinator : Type 0 where
  pub clients : List Symbol
  pub aux_work : Works
  pub last_hash : Symbol → List ℕ

unfoldable pub new_coordinator : List (Symbol × CoinConfig) → Coordinator
new_coordinator cfgs = record { clients = new_clients cfgs; aux_work = []; last_hash = λ s. [] }

-- One tick of `symbol`'s ticker at time `now`: the daemon's answer, or `none` for an error.
pub data Tick : Type 0 where
  tick : Symbol → Option AuxBlockResult → ℕ → Tick

unfoldable pub store_work : Coordinator → Symbol → AuxBlockResult → ℕ → Coordinator
store_work c symbol ab now = if str_eq ab.hash (c.last_hash symbol) then c else record c {
  aux_work = put_aux_work c.aux_work symbol (build_aux_work symbol ab now);
  last_hash = λ s. if str_eq symbol s then ab.hash else c.last_hash s;
}

-- Only a symbol that has a client has a goroutine.
unfoldable pub poll_tick : Coordinator → Tick → Coordinator
poll_tick c (tick symbol none now) = c
poll_tick c (tick symbol (some ab) now) =
    if has_symbol c.clients symbol then store_work c symbol ab now else c

unfoldable pub poll : Coordinator → List Tick → Coordinator
poll c [] = c
poll c (t ∷ ts) = poll (poll_tick c t) ts

-- SubmitAuxBlock. The daemon answers with an error, or with a text that is empty on success.
pub data SubmitError : Type 0 where
  no_client rpc_failed : SubmitError
  rejected : List ℕ → SubmitError

unfoldable pub submit_aux_block : Coordinator → Symbol → Option (List ℕ) → Option SubmitError
submit_aux_block c symbol answer =
    if has_symbol c.clients symbol
    then elim answer [
      | none ↦ some rpc_failed
      | some text ↦ if str_eq text [] then none else some (rejected text)
    ]
    else some no_client

-- stratum.AuxBlockInfo, as handleSubmit fills it for OnAuxBlockFound.
pub record AuxBlockInfo : Type 0 where
  pub coinbase_tx : List ℕ
  pub merkle_branch : List Hash
  pub header_bytes : List ℕ
  pub aux_work_snap : Works
  pub aux_sorted_syms : List Symbol

-- `allHashes` of the callback; a symbol with no work keeps its zeros.
unfoldable pub all_hashes : Works → List Symbol → List Hash
all_hashes snap [] = []
all_hashes snap (s ∷ syms) =
    fixed 32 (elim (get_aux_work snap s) [ none ↦ [] | some aw ↦ aw.hash ]) ∷ all_hashes snap syms

-- `chainIdx`: the first place of the child's symbol.
unfoldable pub index_of : List Symbol → Symbol → Option ℕ
index_of [] symbol = none
index_of (s ∷ syms) symbol =
    if str_eq s symbol then some 0 else Option.map suc (index_of syms symbol)

-- What the callback hands to SubmitAuxBlock for one child: the hash text and the proof, or nothing.
pub child_submission : (List ℕ → List ℕ) → AuxBlockInfo → Symbol → Option (List ℕ × Option (List ℕ))
child_submission sha256 info child = elim (get_aux_work info.aux_work_snap child) [
  | none ↦ none
  | some aux_work ↦
      Option.map
        (λ chain_idx. (
          aux_work.hash_hex,
          build_aux_pow_hex sha256 info.coinbase_tx info.merkle_branch info.header_bytes
              (all_hashes info.aux_work_snap info.aux_sorted_syms) chain_idx,
        ))
        (index_of info.aux_sorted_syms child)
]
