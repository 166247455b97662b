-- ===== src/Quic.antt =====
-- decryptor/quic/derive_quic.py: QUIC packets, frames and the CRYPTO stream.
pub mod Varint
pub mod Packets
pub mod Frames
pub mod Keys
pub mod Protection
pub mod Search
pub mod Flight
