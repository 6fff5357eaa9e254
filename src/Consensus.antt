-- ===== src/Consensus.antt =====
-- consensus/: the rounds of one height.
pub mod HeightVoteSet
pub mod State
