-- ===== src/Peer.antt =====
-- src/peer: the wire messages, the handshake and the state of one peer.
pub mod Message
pub mod State
pub mod Handshake
