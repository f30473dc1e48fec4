-- ===== src/Stratum/Job/Tests.antt =====
-- A job for a small template, and the header of a share for it.
use pipool.Base.{ℕ, ◌≡◌, refl, arith, true}
use pipool.Base.{List, [], ◌∷◌, length, reverse, some, none, ◌/◌}
use pipool.Base.Bytes.{le_bytes, le_bytes-IsByte}
use pipool.Go.Hex.{hex_encode, hex_decode, hex_digit, from_hex_char}
use pipool.Go.ParseUint.{parse_uint, parse_digits}
use pipool.Go.Strings.{codes, str_eq, index_byte, trim_space, has_prefix}
use pipool.Merge.Commitment.{build_coinbase_commitment}
use pipool.Rpc.Base58.{
  build_p2pkh_script, b58_check_decode, b58_decode, b58_loop, b58_check, leading, be_bytes,
}
use pipool.Rpc.CashAddr.{build_output_script, has_colon, is_segwit}
use pipool.Rpc.Coinbase.{
  create_coinbase_tx, reward_script, coinbase_part1, coinbase_part2, witness_comm_bytes,
  coinbase_script_len, encode_height, sign_byte, last_byte, height_bytes, coinbase_tag_bytes,
  trim_tag,
}
use pipool.Stratum.Job.{
  BlockTemplate, build_job, note_network_diff, diff_from_bits, diff_of_target, gather_aux_works,
  coinbase_of,
}
use pipool.Stratum.Job.Header.{wire_ids, build_job-share_header}
use pipool.Stratum.Merkle.{build_merkle_branch, merkle_loop, dsha256}
use pipool.Stratum.Merkle.Root.{IsRoot}
use pipool.Stratum.Share.{
  Job, Work, share_header, header_of, decode, coinbase_hex, fold_branches, parsed, decode_exactly,
  nbits_to_target, diff1_target,
}
use pipool.Stratum.Submit.{format_08x}
use pipool.Stratum.Worker.{Server}
use pipool.Toy.{whole}
use pipool.Stratum.Text.{reverse_byte_order, reverse_chunks, hex_reverse_bytes}

abbrev len_sha256 : List ℕ → List ℕ
len_sha256 bs = le_bytes 32 (length bs)

abbrev block_template : BlockTemplate
block_template = record {
  version = 0x20000000;
  previous_block_hash = hex_encode (le_bytes 32 7);
  transactions = record { tx_id = codes "0102"; raw = codes "00" } ∷ [];
  coinbase_value = 5000;
  target = [];
  cur_time = 0x5f5e1000;
  bits = codes "1d00ffff";
  height = 300;
  default_witness_commitment = [];
  pow_algo = [];
}

abbrev pool_job : Job
pool_job = record {
  id = codes "1";
  prev_hash = reverse_byte_order (hex_reverse_bytes (hex_encode (le_bytes 32 7)));
  coinbase_part1 = hex_encode (coinbase_part1 300 12 [] []);
  coinbase_part2 = hex_encode (coinbase_part2 [] 5000 (0x6a ∷ []) (witness_comm_bytes []));
  merkle_branches = codes "0201" ∷ [];
  version = format_08x 0x20000000;
  nbits = codes "1d00ffff";
  ntime = format_08x 0x5f5e1000;
  clean_jobs = true;
  height = 300;
  target = [];
  raw_tx_hexes = codes "00" ∷ [];
  pow_algo = [];
}

-- Whole numbers: the difficulty of these nbits is 1.
abbrev pool_server : ℕ → Server ℕ
pool_server network_diff = record {
  current_job = none;
  recent_jobs = [];
  total_shares = 0;
  valid_shares = 0;
  blocks_found = 0;
  best_share_ever = 0;
  valid_work_since_block = 0;
  last_network_diff = network_diff;
  seen_workers = [];
  share_samples = [];
  worker_kick_times = [];
  block_log = [];
}

job_built :
    build_job whole
      (λ a b. a / b)
      (codes "sha256d")
      len_sha256
      (codes "1")
      []
      []
      []
      []
      true
      block_template
      (pool_server 0)
    ≡ some (pool_job, pool_server 1)
unfolding build_job build_coinbase_commitment gather_aux_works build_merkle_branch merkle_loop
    hex_reverse_bytes hex_decode from_hex_char hex_encode hex_digit coinbase_of create_coinbase_tx
    reward_script build_output_script has_colon index_byte trim_space is_segwit has_prefix
    build_p2pkh_script b58_check_decode b58_decode b58_loop b58_check leading be_bytes
    note_network_diff diff_from_bits diff_of_target decode_exactly nbits_to_target diff1_target
    str_eq
job_built = refl

abbrev pool_work : Work
pool_work = record {
  extranonce1 = codes "aabbccdd";
  extranonce2 = codes "0000000000000001";
  ntime = codes "5f5e1001";
  version = codes "20000000";
}

abbrev pool_header : List ℕ → List ℕ
pool_header =
    header_of (le_bytes 4 0x20000000) (reverse (le_bytes 32 7)) (le_bytes 32 32)
      (le_bytes 4 0x5f5e1001) (le_bytes 4 0x1d00ffff)

pool_header_ok : share_header len_sha256 pool_job pool_work ≡ some pool_header
unfolding share_header decode hex_decode coinbase_hex from_hex_char fold_branches parsed parse_uint
    parse_digits decode_exactly reverse_byte_order reverse_chunks dsha256 hex_reverse_bytes
    hex_encode hex_digit coinbase_part1 coinbase_part2 witness_comm_bytes coinbase_script_len
    encode_height sign_byte last_byte height_bytes coinbase_tag_bytes trim_tag
pool_header_ok = refl

build_job-share_header_example :
    (coinbase : List ℕ) × (root : List ℕ) × (version : ℕ) × (ntime : ℕ) × (nbits : ℕ) × decode
        (coinbase_hex pool_job pool_work)
      ≡ some coinbase
    × IsRoot len_sha256 (dsha256 len_sha256 coinbase ∷ wire_ids ((1 ∷ 2 ∷ []) ∷ [])) root
    × header_of
        (le_bytes 4 version)
        (reverse (le_bytes 32 7))
        root
        (le_bytes 4 ntime)
        (le_bytes 4 nbits)
      ≡ pool_header
unfolding hex_encode hex_digit
build_job-share_header_example =
    build_job-share_header len_sha256 (codes "1") [] [] [] [] true block_template whole
      (λ a b. a / b) (codes "sha256d") (pool_server 0) (λ bs. le_bytes-IsByte 32 (length bs))
      pool_work (le_bytes 32 7) ((1 ∷ 2 ∷ []) ∷ []) refl refl (le_bytes-IsByte 32 7) refl
      ((omega arith, (omega arith, tt)), tt) job_built pool_header_ok
