-- ===== src/Lib.antt =====
-- PiPool, a solo mining pool in Go: merge mining, coinbase transactions, shares, payouts and swaps.
--
-- The program. A stratum server asks its coin daemon for block templates and builds jobs from them.
-- The coinbase of a job pays the wallet of the configuration (internal/rpc) and commits to work of
-- auxiliary chains, which a coordinator polls (internal/merge). When a share solves a block, the
-- callback OnAuxBlockFound of cmd/pipool/main.go submits a proof to each auxiliary chain.
--
-- Base holds what all modules share: Boolean tests and lists over the native numbers, bits, and byte
-- slices. Go holds what the code uses of Go's standard library, on lists of bytes: encoding/hex,
-- strings with their order, strconv.ParseUint, maps, sort.Search and signed counts. Toy has stand-ins
-- for sha256 and float64 in examples.
--
-- Merge models internal/merge/auxpow.go.
--   Merge.Merkle: computeAuxMerkleRoot and computeAuxMerkleBranch; their loops have the number of
--     hashes as fuel, and each round halves the level.
--   Merge.VarInt: varInt, with a reader of such counts.
--   Merge.AuxPow: BuildAuxPoWHex, and the bytes of its proof.
--   Merge.Commitment: AuxWork, buildAuxWork, BuildCoinbaseCommitment. A Go map is the list of its
--     entries in the order of one iteration.
--   Merge.Coordinator: Coordinator, the polling loops as steps on answers of the daemons, in any order
--     of the chains; SubmitAuxBlock; and OnAuxBlockFound of cmd/pipool/main.go.
--
-- Rpc models the part of internal/rpc that computes.
--   Rpc.Base58: base58.go. Rpc.Bech32: bech32.go. Rpc.CashAddr: cashaddr.go, and BuildOutputScript of
--     bech32.go. Rpc.Coinbase: CreateCoinbaseTx and encodeHeight of client.go.
--   Rpc.Result is what such a function returns: a value, one of its errors, or a panic of Go.
--   Addresses are ASCII text. A Go int of bech32ConvertBits is its 64-bit pattern. big.Int.Bytes has
--     the length of the text as fuel, since 58 < 256; the bytes of a height have eight rounds, which
--     an int64 does not pass.
--
-- float64 is a record of operations (Go.Float), of which nothing is assumed.
--
-- Pplns models internal/pplns/payout.go, the payout engine.
--   Pplns.Ring: ringBuffer. Pplns.Ring.Window: the queue that it implements.
--   Pplns.Engine: Config with its defaults, RecordShare, buildPersistState and loadState. A window size is a
--     natural number: a size below zero is replaced as zero is. The state file is the persistedState that was written last,
--     or nothing; its JSON is not modelled.
--   Pplns.Payouts: BlockFound and ProcessPayouts. A daemon's SendToAddress is a parameter: a function
--     of the address and the amount, since one call asks for each address of a coin once.
--
-- Swap models internal/swap/engine.go, the engine that sells mined coins at an exchange.
--   Swap.Job: SwapJob and its states; and Outside, the exchange, wallets, alerts and state file, as
--     operations on a world that is a parameter: each call may answer with an error and may change the
--     world. Times are milliseconds, read once for each call of tick. The texts of alerts and errors
--     are kept as the parts that are printed into them.
--   Swap.Advance: advanceJob and the functions that it calls. Swap.Engine: tick, checkAndInitiate,
--     cleanupJobs, UpdateRule, and the saved state; Swap.Engine.Run: ticks and changes over time.
--
-- Stratum models internal/stratum/server.go, the mining server, as far as a submitted share goes.
--   Stratum.Merkle: buildMerkleBranch, on hashes in hex; its loop has the number of hashes as fuel.
--   Stratum.Text: reverseByteOrder and hexReverseBytes. Stratum.Share: Job, validateShare and
--     assembleBlockHex, with the texts as bytes. scrypt and the quotient of math/big, which makes the
--     target of a difficulty where there is one, are parameters. The targets have no answer for an nbits of fewer than
--     four bytes, where the answer of Go depends on the capacity of a slice.
--   Stratum.Worker: Worker, SeenWorker, and the part of Server that a share reads and writes; and the
--     events that stand for messages to the miner, callbacks and the block for the node.
--   Stratum.Vardiff: adjustVardiff, decayVardiff, and the pass of idleVardiffDecay on one worker.
--   Stratum.Account: the counts that a share leaves on the server, stale kicks, and the end of a
--     connection in handleWorker. Stratum.Submit: handleSubmit. A call reads the clock once, and the
--     counters of 64 bits do not wrap.
--   Stratum.Router: RouteWorker of internal/stratum/router.go, with its table of signatures.
--   Stratum.BlockLog: the block log with recordBlock, RecordBlock and loadBlockLog, and a round of
--     trackConfirmations, with the answers of the node as an argument.
--   Stratum.Job: buildJob, with the coordinator's work and the coin's children as arguments, and the
--     difficulty of the network that it keeps. The quotient of two targets is a parameter.
--
-- Uptime models internal/uptime/tracker.go, which logs when each worker is online.
--   Uptime.Tracker: WorkerOnline, WorkerOffline, trimEvents, and the state file as the map that was
--     written last; Uptime.Tracker.Run: calls and restarts in any order. Times are nanoseconds.
--   Uptime.Stats: computeUptime and Snapshot; Uptime.Stats.Pattern: detectPattern, formatDuration and
--     itoa, whose loop has the 20 bytes of its buffer as fuel.
--
-- Hashstore models internal/hashstore/store.go, the history of the hashrates. Times are milliseconds
-- from 1970 on.
--   Hashstore.Downsample: downsample. Hashstore.Store: Add, Query, QueryAll, compact, Save, load and a
--     tick of backgroundLoop. sort.Search is Go.Search, with the number of samples as fuel, since each
--     round halves what is left.
--
-- Earnings models internal/earnings/tracker.go, the lifetime statistics of the blocks.
--   Earnings.State: the counters of a coin, and the copies that are persisted, without their JSON. Earnings.Blocklogs: New,
--     loadPersisted and loadBlocklogs. Earnings.Tracker: RecordBlock and UpdateConfirmations. persist
--     runs in goroutines, so in Earnings.Tracker.Run a start may find any state that one of them has
--     read. Earnings.Snapshot: Snapshot. The counts that can go below zero are the integers of Go.Ints.
--
-- crypto/sha256 is a parameter; where a theorem needs it, 32 bytes of output are a hypothesis.
-- sort.Slice, strconv.ParseFloat, math.Sqrt and what package time prints are parameters.
-- Not modelled: network and file I/O, logging, the other messages of the mining server and its file of
-- worker states, and the other packages of internal.
pub mod Base
pub mod Go
pub mod Toy
pub mod Rpc
pub mod Merge
pub mod Pplns
pub mod Swap
pub mod Stratum
pub mod Uptime
pub mod Hashstore
pub mod Earnings
