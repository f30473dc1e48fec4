-- ===== src/Merge/Tests.antt =====
-- Runs of the merge-mining functions, and the theorems at concrete inputs.
use pipool.Base.{sym, ℕ, ◌%◌, ◌^◌, ◌≡◌, refl, arith, some, none, true, List, [], ◌∷◌}
use pipool.Base.{length, get_elem?, take, drop, replicate}
use pipool.Base.Bytes.{le_value, fixed}
use pipool.Toy.{toy_sha256, length-toy_sha256, toy_sha256-bytes}
use pipool.Go.Strings.{codes, str_eq, str_le, insert_sorted, sort_strings}
use pipool.Merge.VarInt.{var_int}
use pipool.Merge.Merkle.{Hash, compute_aux_merkle_root, compute_aux_merkle_branch}
use pipool.Merge.Merkle.Branch.{fold_branch, fold_branch-root}
use pipool.Merge.Commitment.{Symbol, AuxWork, AuxBlockResult, Works, keys, work_hash, aux_hashes}
use pipool.Merge.Commitment.{magic_bytes, build_coinbase_commitment}
use pipool.Merge.Commitment.Layout.{build_coinbase_commitment-branch}
use pipool.Merge.Commitment.Order.{build_coinbase_commitment-perm}
use pipool.Merge.Coordinator.{CoinConfig, Coordinator, new_coordinator, Tick, tick, poll}
use pipool.Merge.Coordinator.{get_aux_work, AuxBlockInfo, child_submission}
use pipool.Merge.Coordinator.Polling.{IsValid, poll_lem}
use pipool.Merge.Coordinator.Submission.{Fits, child_submission-Fits}
use mathlib.Core.List.{Permᴰ}

abbrev ones : Hash
ones = replicate 32 1

abbrev twos : Hash
twos = replicate 32 2

abbrev threes : Hash
threes = replicate 32 3

abbrev three_hashes : List Hash
three_hashes = ones ∷ twos ∷ threes ∷ []

var_int_70000 : var_int 70000 ≡ 0xfe ∷ 0x70 ∷ 0x11 ∷ 0x01 ∷ 0x00 ∷ []
unfolding var_int
var_int_70000 = refl

fold_branch-root_example :
    (branch : List Hash) × (index : ℕ) × (compute_aux_merkle_branch toy_sha256 three_hashes 2
      ≡ some (branch, index))
    × (compute_aux_merkle_root toy_sha256 three_hashes
        ≡ some (fold_branch toy_sha256 threes index branch))
fold_branch-root_example = fold_branch-root toy_sha256 three_hashes 2 refl

abbrev doge : Symbol
doge = codes "DOGE"

abbrev pep : Symbol
pep = codes "PEP"

abbrev work_of : Symbol → Hash → AuxWork
work_of symbol hash = record {
  symbol = symbol;
  chain_id = 1;
  hash = hash;
  hash_hex = codes "ab";
  target = [];
  height = 5;
  fetched_at = 0;
}

abbrev two_works : Works
two_works = (pep, work_of pep ones) ∷ (doge, work_of doge twos) ∷ []

abbrev swapped : Works
swapped = (doge, work_of doge twos) ∷ (pep, work_of pep ones) ∷ []

build_coinbase_commitment-perm_example :
    build_coinbase_commitment toy_sha256 two_works ≡ build_coinbase_commitment toy_sha256 swapped
unfolding str_eq
build_coinbase_commitment-perm_example =
    build_coinbase_commitment-perm toy_sha256 two_works swapped (refl, (refl, tt))
      (Permᴰ.swap refl refl)

sorted_two : sort_strings (keys two_works) ≡ doge ∷ pep ∷ []
unfolding sort_strings insert_sorted str_le
sorted_two = refl

second_is_pep : get_elem? (sort_strings (keys two_works)) 1 ≡ some pep
unfolding sort_strings insert_sorted str_le
second_is_pep = refl

build_coinbase_commitment-branch_example :
    (c : List ℕ) × (branch : List Hash) × (index : ℕ) × (build_coinbase_commitment toy_sha256
        two_works
      ≡ some (c, sort_strings (keys two_works)))
    × (compute_aux_merkle_branch toy_sha256 (aux_hashes two_works (sort_strings (keys two_works))) 1
        ≡ some (branch, index))
    × (compute_aux_merkle_root toy_sha256 (aux_hashes two_works (sort_strings (keys two_works)))
        ≡ some (take 32 (drop 4 c)))
    × (fold_branch toy_sha256 (fixed 32 (work_hash two_works pep)) index branch
        ≡ take 32 (drop 4 c))
    × (length c ≡ 44)
    × (take 4 c ≡ magic_bytes)
    × (le_value (take 4 (drop 36 c)) ≡ 2 % 2 ^ 32)
build_coinbase_commitment-branch_example =
    build_coinbase_commitment-branch toy_sha256 two_works 1 length-toy_sha256 (λ e. cc)
      second_is_pep

abbrev solved : AuxBlockInfo
solved = record {
  coinbase_tx = 7 ∷ 8 ∷ [];
  merkle_branch = ones ∷ [];
  header_bytes = replicate 80 9;
  aux_work_snap = two_works;
  aux_sorted_syms = doge ∷ pep ∷ [];
}

child_submission-Fits_example :
    (c : List ℕ) × (f : Fits toy_sha256 solved (work_of pep ones) c) × (build_coinbase_commitment
        toy_sha256 two_works
      ≡ some (c, doge ∷ pep ∷ []))
    × (child_submission toy_sha256 solved pep ≡ some (codes "ab", some f.hex))
unfolding get_aux_work str_eq aux_hashes work_hash fixed
child_submission-Fits_example =
    child_submission-Fits toy_sha256 solved pep (work_of pep ones) toy_sha256-bytes
      (record {
        ordered = sym sorted_two;
        tx_bytes = omega arith;
        header_bytes = omega arith;
        branch_hashes = omega arith;
        branch_length = omega arith;
        aux_bytes = omega arith;
        chains = omega arith;
      })
      refl

abbrev doge_config : CoinConfig
doge_config = record { enabled = true; merge_parent = codes "LTC" }

abbrev answer : AuxBlockResult
answer = record { hash = codes "00ff"; chain_id = 98; target = codes "0f"; height = 7 }

abbrev ticks : List Tick
ticks = tick doge none 1 ∷ tick doge (some answer) 2 ∷ tick doge (some answer) 3 ∷ []

poll_lem_example : IsValid (poll (new_coordinator ((doge, doge_config) ∷ [])) ticks)
poll_lem_example = poll_lem ((doge, doge_config) ∷ []) ticks

abbrev one_coin : Coordinator
one_coin = record { clients = doge ∷ []; aux_work = []; last_hash = λ s. [] }
