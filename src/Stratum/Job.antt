-- ===== src/Stratum/Job.antt =====
-- internal/stratum/server.go: buildJob, from a block template of internal/rpc/client.go.
pub mod Header
mod Tests
use pipool.Base.{ℕ, ◌==◌, if◌then◌else◌, Bool, List, [], ◌∷◌, map, Option, none, some}
use pipool.Base.Options.{◌>>=◌}
use pipool.Go.Hex.{hex_encode}
use pipool.Merge.Commitment.{AuxWork, Works, Symbol, build_coinbase_commitment}
use pipool.Merge.Coordinator.{get_aux_work, put_aux_work}
use pipool.Rpc.Coinbase.{create_coinbase_tx}
use pipool.Rpc.Result.{Result, ok, err, panicked}
use pipool.Stratum.Merkle.{build_merkle_branch}
use pipool.Stratum.Share.{Job, decode_exactly, nbits_to_target, diff1_target}
use pipool.Stratum.Worker.{Server}
use pipool.Go.Float.{Float64}
use pipool.Stratum.Submit.{format_08x}
use pipool.Stratum.Text.{reverse_byte_order, hex_reverse_bytes}

-- A transaction's identifier and its `Data`, in hex.
pub record TxData : Type 0 where
  pub tx_id : List ℕ
  pub raw : List ℕ

-- The fields that buildJob reads. The version and the time are numbers of 32 bits.
pub record BlockTemplate : Type 0 where
  pub version : ℕ
  pub previous_block_hash : List ℕ
  pub transactions : List TxData
  pub coinbase_value : ℕ
  pub target : List ℕ
  pub cur_time : ℕ
  pub bits : List ℕ
  pub height : ℕ
  pub default_witness_commitment : List ℕ
  pub pow_algo : List ℕ

unfoldable pub add_aux_work : Symbol → Option AuxWork → Works → Works
add_aux_work symbol none works = works
add_aux_work symbol (some w) works = put_aux_work works symbol w

-- The loop over the children: the work that the coordinator has for them.
unfoldable pub gather_aux_works : Works → List Symbol → Works
gather_aux_works known [] = []
gather_aux_works known (child ∷ children) =
    add_aux_work child (get_aux_work known child) (gather_aux_works known children)

-- `none` is a panic of CreateCoinbaseTx.
unfoldable pub coinbase_of : Result (List ℕ × List ℕ) → Option (List ℕ × List ℕ)
coinbase_of (ok parts) = some parts
coinbase_of (err why) = none
coinbase_of panicked = none

module _ {F : Type 0} (f64 : Float64 F) (ratio : ℕ → ℕ → F) (algo : List ℕ) where
  -- diffFromBits; `ratio` is the quotient of two targets in math/big, as a float64.
  unfoldable pub diff_of_target : Option ℕ → F
  diff_of_target none = f64.lit 0 0
  diff_of_target (some target) =
      if target == 0 then f64.lit 0 0 else ratio (diff1_target algo) target

  unfoldable pub diff_from_bits : List ℕ → F
  diff_from_bits nbits_hex =
      diff_of_target (do bytes ← decode_exactly 4 nbits_hex; nbits_to_target bytes)

  -- The network's difficulty, kept where it is above zero.
  unfoldable pub note_network_diff : List ℕ → Server F → Server F
  note_network_diff bits s =
      let nd = diff_from_bits bits in
      if f64.lt (f64.lit 0 0) nd then record s { last_network_diff = nd } else s

-- The job for a template, the random identifier, the coordinator's work and the children of the coin.
-- `extranonce1Size + defaultEN2Size` is 12. The server after it has the difficulty of the network.
unfoldable pub build_job :
    {F : Type 0}
    → Float64 F
    → (ℕ → ℕ → F)
    → List ℕ
    → (List ℕ → List ℕ)
    → List ℕ
    → List ℕ
    → List ℕ
    → Works
    → List Symbol
    → Bool
    → BlockTemplate
    → Server F
    → Option (Job × Server F)
build_job f64 ratio algo sha256 id wallet coinbase_tag known children clean_jobs bt s = do
  (commitment, symbols) ← build_coinbase_commitment sha256 (gather_aux_works known children)
  branches ←
      build_merkle_branch sha256 (map (λ (tx : TxData). hex_reverse_bytes tx.tx_id) bt.transactions)
  (part1, part2) ← coinbase_of (
      create_coinbase_tx sha256 wallet bt.coinbase_value bt.height 12 coinbase_tag
        bt.default_witness_commitment commitment)
  some (
    record {
      id = id;
      prev_hash = reverse_byte_order (hex_reverse_bytes bt.previous_block_hash);
      coinbase_part1 = hex_encode part1;
      coinbase_part2 = hex_encode part2;
      merkle_branches = branches;
      version = format_08x bt.version;
      nbits = bt.bits;
      ntime = format_08x bt.cur_time;
      clean_jobs = clean_jobs;
      height = bt.height;
      target = bt.target;
      raw_tx_hexes = map (λ (tx : TxData). tx.raw) bt.transactions;
      pow_algo = bt.pow_algo;
    },
    note_network_diff f64 ratio algo bt.bits s,
  )
