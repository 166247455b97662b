-- ===== src/Pcap.antt =====
-- minarx/pcap.py: transport payloads with their directions.
pub mod Fields
pub mod Extract
pub mod Checksum
pub mod Frames
pub mod Write
use hndl_dev.Prelude.{ℕ, ◌<◌, List, [], ◌∷◌, ◌++◌, ◌==◌, if◌then◌else◌, All, length, ◌+◌}
use hndl_dev.Prelude.Endian.{IsByte}
use hndl_dev.Binary.{Bytes}

-- `direction` is 0 from client to server and 1 from server to client; `Chunk.data` is `contents`.
pub record Chunk : Type 0 where
  pub direction : ℕ
  pub contents : Bytes

pub record IsChunk (c : Chunk) : Type 0 where
  pub direction_bound : c.direction < 2
  pub bytes : All IsByte c.contents

-- What one side sent, in order.
unfoldable pub stream : ℕ → List Chunk → Bytes
stream d [] = []
stream d (c ∷ cs) = if c.direction == d then c.contents ++ stream d cs else stream d cs

-- `sum(len(chunk.data) for chunk in chunks)`
unfoldable pub chunk_bytes : List Chunk → ℕ
chunk_bytes [] = 0
chunk_bytes (c ∷ cs) = length c.contents + chunk_bytes cs
