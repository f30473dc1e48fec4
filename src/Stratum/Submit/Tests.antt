-- ===== src/Stratum/Submit/Tests.antt =====
-- Shares submitted to a small server, and what vardiff makes of a worker. Difficulties are whole numbers.
use pipool.Base.{ℕ, ◌==◌, if◌then◌else◌, ◌/◌, ◌≡◌, refl, arith, true, false, Bool-cases, inl, inr}
use pipool.Base.{List, [], ◌∷◌, Option, none, some, length, replicate}
use mathlib.Core.Path.{subst}
use pipool.Base.Bytes.{le_bytes}
use pipool.Go.Hex.{hex_decode, from_hex_char}
use pipool.Go.Maps.{lookup}
use pipool.Go.Strings.{codes, str_eq}
use pipool.Toy.{whole}
use pipool.Stratum.Share.{Job, nbits_to_target}
use pipool.Stratum.Vardiff.{adjust_vardiff, decay_vardiff, coin_fixed_diff, fixed_in}
use pipool.Stratum.Vardiff.Range.{start, adjusted, decayed, Within, Retargets-Within}
use pipool.Stratum.Vardiff.Quiet.{shares}
use pipool.Stratum.Worker.{Worker, Config, Server}
use pipool.Stratum.Submit.{Outcome, handle_submit, validation_diff}
use pipool.Stratum.Submit.Answers.{HasTarget}
use pipool.Stratum.Submit.Counts.{Answered, handle_submit-counts}

abbrev tiny_sha256 : List ℕ → List ℕ
tiny_sha256 bs = le_bytes 32 (length bs)

abbrev no_scrypt : List ℕ → List ℕ → ℕ → ℕ → ℕ → ℕ → Option (List ℕ)
no_scrypt password salt n r p len = none

-- None at a difficulty of 0.
abbrev whole_quotient : ℕ → ℕ → Option ℕ
whole_quotient target diff = if diff == 0 then none else some (target / diff)

abbrev config : Config ℕ
config = record {
  symbol = codes "BTC";
  algorithm = codes "sha256d";
  block_reward = 3;
  stale_kick_count = 1;
  auto_kick_reject_pct = 0;
  auto_kick_min_shares = 0;
  min_diff = 2;
  max_diff = 1000;
  target_ms = 10000;
  retarget_s = 60;
  coin_fixed = [];
  pool_fixed = [];
}

abbrev miner : Worker ℕ
miner = record {
  worker_name = codes "rig";
  authorized = true;
  difficulty = 8;
  prev_difficulty = 0;
  last_share_at = 0;
  last_accepted_at = 0;
  last_retarget_at = 0;
  shares_since_retarget = 0;
  fixed_diff = 0;
  diff_history = [];
  shares_accepted = 0;
  shares_rejected = 0;
  shares_stale = 0;
  best_share = 0;
  suggested_min_diff = 0;
  last_stale_job_id = [];
  stale_job_streak = 0;
  extranonce1 = codes "aabbccdd";
  en2_size = 4;
}

abbrev template : Job
template = record {
  id = codes "7";
  prev_hash = replicate 64 b'0';
  coinbase_part1 = codes "0100";
  coinbase_part2 = codes "00";
  merkle_branches = [];
  version = codes "20000000";
  nbits = codes "1d00ffff";
  ntime = codes "5f5e1000";
  clean_jobs = false;
  height = 100;
  target = [];
  raw_tx_hexes = [];
  pow_algo = [];
}

abbrev server : Server ℕ
server = record {
  current_job = some template;
  recent_jobs = (codes "7", template) ∷ [];
  total_shares = 0;
  valid_shares = 0;
  blocks_found = 0;
  best_share_ever = 0;
  valid_work_since_block = 0;
  last_network_diff = 0;
  seen_workers = [];
  share_samples = [];
  worker_kick_times = [];
  block_log = [];
}

abbrev submission : List (List ℕ)
submission = codes "rig" ∷ codes "7" ∷ codes "00000000" ∷ codes "5f5e1001" ∷ codes "01020304" ∷ []

has_target : HasTarget template
unfolding nbits_to_target hex_decode from_hex_char
has_target = (_, refl)

only_template : (id : List ℕ) (job : Job) → lookup server.recent_jobs id ≡ some job → HasTarget job
unfolding lookup
only_template id job e = elim (Bool-cases (str_eq (codes "7") id)) [
  | inl same ↦ let eq : template ≡ job = cc (rw same at e) in subst HasTarget eq has_target
  | inr other ↦ cc (rw other at e)
]

handle_submit-counts_example :
    (r : Outcome ℕ) × handle_submit whole config 5 tiny_sha256 no_scrypt whole_quotient none server
        miner submission
      ≡ some r
    × r.0.total_shares ≡ 1
    × shares r.1 ≡ 1
    × Answered whole config 5 r
unfolding validation_diff
handle_submit-counts_example =
    handle_submit-counts whole config 5 tiny_sha256 no_scrypt whole_quotient none server miner
      submission only_template (_, refl)

Retargets-Within_example :
    Within whole config
      (decay_vardiff whole config 200000000000
        (adjust_vardiff whole config 100000000000 miner).0).0.difficulty
unfolding coin_fixed_diff fixed_in lookup
Retargets-Within_example =
    Retargets-Within whole config (λ x. ground arith) (λ x y z p q. ground arith) refl
      (λ x h. ground arith) {v = miner} (refl, refl) (refl, refl)
      (decayed 200000000000 (adjusted 100000000000 start))
