-- ===== src/Lib.antt =====
-- A light client for BNB Smart Chain. It starts from a trusted checkpoint and follows the chain header by
-- header: it checks who sealed a header and when, follows the validator set across epochs, and follows
-- fast finality by the BLS votes that headers carry. Against the roots of a header that is safe it
-- checks what a server says about accounts, storage and lists of transactions and receipts.
--
-- Parts, and the files that model them:
--   Rlp        crates/helios-bsc-execution/src/rlp.rs (codec), and `encode_uint` of
--              crates/helios-bsc-consensus/src/rlp_util.rs, which has the same encoder for u128.
--   Types      crates/helios-bsc-types/src: hexutil.rs and error.rs (Hex), rpc_header.rs (Header),
--              trust.rs (Trust), `min_distinct_sealers` and checkpoints of lib.rs (Quorum, Checkpoint).
--              External is the record of functions of the crates hex, tiny-keccak, secp256k1 and blst
--              that the program calls: a parameter.
--   Config     crates/helios-bsc-config/src: the fork schedule and its arithmetic of lib.rs, and the
--              codec of Parlia extraData of extra.rs (Config/Extra).
--   Consensus  crates/helios-bsc-consensus/src: vote.rs (Vote: Reader is the strict RLP reader, Verify
--              the bit set of voters and the signature check), seal.rs (Seal: the errors; Timing: the
--              millisecond clock, the cascading rule and the out-of-turn backoff; Hash: `seal_hash` and
--              `header_hash`; Fields: `verify_unsealed_fields` and `verify_seal_coinbase`), snapshot.rs
--              (Snapshot: State, Rules, Attest, Apply, Header for `apply_header`, and Bootstrap for
--              the start from a checkpoint), finality.rs (Finality), and lib.rs (Engine: State is
--              `LightEngine`, Checkpoints what it reads and writes of checkpoints). The call
--              `apply_verified` of snapshot.rs is composed of `check_link`, `expire_recent`,
--              `check_content`, `commit` and `set_last_milli`, in the order of the code. The method
--              names that the engine shares with the snapshot have the prefix `engine_`.
--   Execution  crates/helios-bsc-execution/src: mpt.rs (Mpt: the walk along a proof; Mpt/Leaves: accounts
--              and storage words), proof.rs (Proof: `eth_getProof` responses; Proof/Retain: the
--              entries that are passed on), ordered_trie.rs (OrderedTrie), tx_list.rs and
--              receipt_list.rs (BlockLists), receipt_rlp.rs (Receipt) and `verify_balance_proof` of
--              lib.rs (Balance).
--   Prelude    lists, results and machine words that all parts share.
--   Tests      sample values, runs of the code on them, and one application of each theorem.
--
-- Conventions. A text and a byte array are lists of the numbers of their bytes. A u64 is a number below
-- 2 ^ 64; `+` wraps as in a release build, and the saturating and checked operations are written out. An
-- operation that changes a snapshot takes it and gives back a result beside the new snapshot, also for
-- an error, since the code changes `recents` before its last check. A HashMap is an association list with
-- one entry for each key; the code reads it in any order and the model in the order of the list. A
-- `binary_search` on the sorted list of validators is the search for an equal element.
--
-- Fuel. The two RLP decoders recurse on slices of their input. In the model they take fuel, three
-- steps for each byte and one more in Rlp and in Vote/Reader, which Rlp/Total and Vote/Ends treat.
--
-- The walk along a Merkle-Patricia proof takes one step of fuel for each byte of the
-- proof, and its RLP decoders and steps go into parts of these bytes, which Mpt/Ends treats.
-- `encode_node` of the ordered trie takes one for each nibble of the longest key and one more, which
-- OrderedTrie/Ends treats; an index out of range is `panic` there.
--
-- The clock that `unix_now` reads is an argument `now`; `apply_headers` takes each header with the time of
-- its call.
--
-- Not modelled: the JSON of proof responses, raw transactions and the EVM of
-- crates/helios-bsc-execution, and the command line, the servers and the mock upstream, which are input
-- and output around these parts. The texts inside error values are left out where they only serve
-- display. Keccak, ECDSA recovery, the hex texts and BLS are fields of External, with no assumption on
-- them but what a theorem names (HexBytes: hex decodes to bytes); where a theorem would need that Keccak
-- does not collide, it gives the collision instead.
pub mod Prelude
pub mod Rlp
pub mod Types
pub mod Config
pub mod Consensus
pub mod Execution
pub mod Tests
