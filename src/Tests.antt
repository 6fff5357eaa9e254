-- ===== src/Tests.antt =====
-- Concrete inputs: stand-ins for the code of other packages, and the theorems at inputs that meet
-- their hypotheses.
pub mod Stand
mod Merkle
mod PrivVal
mod Types
mod PartSet
mod Quorum
mod HeightVoteSet
mod VoteSet
mod Dmccoin
mod Tx
mod Mempool
mod Block
mod Params
mod Consensus
