-- ===== src/Crypto.antt =====
-- The hashes of the program: src/sha256.rs and the trees of src/v2.rs.
pub mod Sha256
pub mod Merkle
