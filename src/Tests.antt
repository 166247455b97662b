-- ===== src/Tests.antt =====
-- Runs of the models at concrete inputs, and the theorems applied there.
mod ArchiveRuns
mod BinaryRuns
mod RecordRuns
mod TlsRuns
mod ChunkRuns
mod PcapRuns
mod ContainerRuns
mod ProfileRuns
mod HelloRuns
mod QuicRuns
mod PolicyRuns
mod ProtocolRuns
