-- ===== src/Dht.antt =====
-- src/dht: the distributed hash table (BEP 5).
pub mod Routing
pub mod Token
pub mod Store
pub mod Krpc
