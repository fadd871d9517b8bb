-- ===== src/Utp.antt =====
-- src/utp: the micro transport protocol (BEP 29).
pub mod Packet
pub mod Conn
