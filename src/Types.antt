-- ===== src/Types.antt =====
-- types/: the data of the consensus protocol and the containers that collect it.
pub mod BlockId
pub mod Vote
pub mod Tx
pub mod Block
pub mod Params
pub mod Canonical
pub mod SafeArith
pub mod Commit
pub mod ValidatorSet
pub mod VoteSet
pub mod PartSet
