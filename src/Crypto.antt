-- ===== src/Crypto.antt =====
-- crypto/: the Merkle trees of crypto/merkle over the hash of crypto/tmhash.
pub mod Merkle
