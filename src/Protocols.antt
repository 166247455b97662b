-- ===== src/Protocols.antt =====
-- minarx/protocols: the policies of the four protocols, which check a trace against its profile.
pub mod Tls
pub mod Ssh
pub mod Quic
