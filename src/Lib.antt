-- ===== src/Lib.antt =====
-- Demars-DMC: a verification library for the core of the node.
--
-- The program is a Byzantine fault tolerant replicated ledger. Package types holds the data of the
-- consensus protocol (votes, validator sets, vote sets, block parts), consensus drives the rounds
-- over them, privval signs for a validator, crypto/merkle proves that parts belong to a block, and
-- abci/app/dmccoin is the application that holds the accounts. The consensus code gives each vote to
-- a vote set, which asks the validator set for the voter's key and power; the private validator signs
-- the votes and proposals that it is handed.
--
-- The files, and the code that they model:
--   Prelude            integers, Go's int64 with wrap-around, byte slices, lists
--   Crypto/Merkle      crypto/merkle/simple_tree.go, simple_proof.go, crypto/tmhash/hash.go
--   Types/BlockId      BlockID and PartSetHeader (types/block.go, types/part_set.go)
--   Types/Vote         Vote, Proposal, Heartbeat (types/vote.go, proposal.go, heartbeat.go)
--   Types/Canonical    types/canonical_json.go and the SignBytes methods
--   Types/SafeArith    safeMul, safeAdd, safeSub and their clipped forms (types/validator_set.go)
--   Types/Commit       Commit (types/block.go)
--   Types/Block        Block, Data, TxBuckets (types/block.go)
--   Types/Params       ConsensusParams (types/params.go)
--   Types/ValidatorSet types/validator.go, types/validator_set.go
--   Types/VoteSet      types/vote_set.go; Operations has the methods, the file itself their parts,
--                      Invariant what holds of a set, Run its states from NewVoteSet on
--   Types/PartSet      types/part_set.go
--   Types/Tx           types/tx.go
--   Consensus/HeightVoteSet  consensus/types/height_vote_set.go
--   Consensus/State    consensus/state.go, consensus/types/round_state.go: the steps from prevote to
--                      the staging of a commit (enterPrevote, enterPrecommit, their waits, what
--                      addVote does with a polka, defaultSetProposal) and the locks; Run has the
--                      states that the steps reach, where a new round may bring any proposal
--   Common/BitArray    libs/common/bit_array.go
--   PrivVal            privval/priv_validator.go
--   Dmccoin/Kvs        abci/app/dmccoin/kvs.go; Dmccoin/Kvs/Sync compares a cache with its store
--   Dmccoin/Accounts   abci/app/dmccoin/account.go, state.go
--   Dmccoin/Tx         abci/app/dmccoin/tx.go
--   Dmccoin/Execution  abci/app/dmccoin/execution.go
--   Mempool            mempool/mempool.go; Mempool/Cache has mapTxCache. CheckTx has the answer of a
--                      client that gives it inside the call, or none
--   Tests              concrete inputs and the theorems at them
--
-- How the state is modelled: a struct is a record, and a method takes and returns it. A nil pointer
-- or interface is `none` where the code tells it from a value. The integers of Go are integers that
-- wrap around at 64 bits. A panic is a constructor of the result, or `none`.
--
-- What other packages do (sha256, ed25519, amino's encoding, the formatting of times) is a record of
-- functions that the definitions take; where a theorem needs a law of them it is a hypothesis, and
-- Tests/Stand has functions that meet the laws.
--
-- Fuel: the recursions of the Merkle trees halve their list, and take its length for fuel, which
-- Crypto/Merkle/Fuel proves to be enough. The binary search of Types/ValidatorSet takes the length of
-- its range, which it halves; Types/ValidatorSet/Search proves what it finds. Txs.Hash takes the number
-- of transactions, and Types/Tx/Proof shows it equal to the root of Crypto/Merkle.
--
-- Not modelled: the network (p2p, rpc, tcp), the databases, the command line and the configuration,
-- which are input and output; generated code (types.pb.go); printing and JSON for people; and of the
-- core enterNewRound, enterPropose, finalizeCommit and updateToState of consensus/state.go, MakeBlock
-- and the hash of a header (types/block.go), Flush of the mempool, state, blockchain, lite and the entry
-- points of abci/app/dmccoin/dmccoin.go. The mutexes are left out: a method is one step. The file of the private validator is taken to give back the object that amino
-- wrote to it as JSON.
pub mod Prelude
pub mod Common
pub mod Crypto
pub mod Types
pub mod PrivVal
pub mod Consensus
mod Tests
pub mod Dmccoin
pub mod Mempool
