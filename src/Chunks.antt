-- ===== src/Chunks.antt =====
-- minarx/protocols/common.py: `compact_chunk_pcaps` and `materialize_chunk_pcaps`, the archive of
-- whole chunks (QUIC datagrams, SSH streams). Files come in as their chunks and sizes, and go out
-- as the chunks that `write_pcap` is given.
pub mod Expand
pub mod RoundTrip
use mathlib.Core.List.{foldl}
use hndl_dev.Prelude.{
  ℕ, zero, suc, ◌+◌, ◌-◌, Bool, true, false, not, List, [], ◌∷◌, ◌++◌, ◌==◌, ltb, if◌then◌else◌,
  length,
}
use hndl_dev.Result.{
  decode_error, DecodeFault, wrong_capture_count, invalid_direction, no_packets_retained,
  value_error, Result, ok, err, ◌>>=◌,
}
use hndl_dev.Binary.{Bytes, encode_uvarint, encode_blob}
use hndl_dev.Pcap.{Chunk, chunk_bytes}

-- A file as the compactor reads it: what `extract_tcp_chunks` or `extract_udp_datagrams` returned
-- for it, and `pcap.stat().st_size`.
pub record CaptureFile : Type 0 where
  pub chunks : List Chunk
  pub file_size : ℕ

-- One entry of `measurements`; `source_name` is the file's name and stays with the caller.
pub record Measurement : Type 0 where
  pub raw_capture_bytes : ℕ
  pub transport_payload_bytes : ℕ
  pub opaque_bytes : ℕ
  pub clear_protocol_bytes : ℕ
  pub unit_count : ℕ
  pub discarded_non_protocol_units : ℕ

unfoldable pub filter_chunks : (Chunk → Bool) → List Chunk → List Chunk
filter_chunks p [] = []
filter_chunks p (c ∷ cs) = if p c then c ∷ filter_chunks p cs else filter_chunks p cs

-- `chunk_filter=None` keeps every chunk, and then no chunk at all is accepted too.
pub data ChunkFilter : Type 0 where
  keep_all : ChunkFilter
  keep : (Chunk → Bool) → ChunkFilter

abbrev pub non_empty : List Chunk → Result (List Chunk)
non_empty [] = err (value_error no_packets_retained)
non_empty (c ∷ cs) = ok (c ∷ cs)

unfoldable pub retained : ChunkFilter → List Chunk → Result (List Chunk)
retained keep_all chunks = ok chunks
retained (keep p) chunks = non_empty (filter_chunks p chunks)

-- The loop that writes the direction and the length of each chunk.
unfoldable pub describe_chunks : List Chunk → Bytes
describe_chunks [] = []
describe_chunks (c ∷ cs) = c.direction ∷ (encode_uvarint (length c.contents) ++ describe_chunks cs)

-- The bytes that it moves to the opaque region.
unfoldable pub chunk_contents : List Chunk → Bytes
chunk_contents [] = []
chunk_contents (c ∷ cs) = c.contents ++ chunk_contents cs

-- The variables of the loop over the files.
pub record Compacted : Type 0 where
  pub out : Bytes
  pub opaque : Bytes
  pub measurements : List Measurement

abbrev pub encoded_chunks : List Chunk → Bytes
encoded_chunks cs = encode_uvarint (length cs) ++ describe_chunks cs

abbrev pub measure : CaptureFile → List Chunk → Measurement
measure file cs = record {
  raw_capture_bytes = file.file_size;
  transport_payload_bytes = chunk_bytes cs;
  opaque_bytes = chunk_bytes cs;
  clear_protocol_bytes = 0;
  unit_count = length cs;
  discarded_non_protocol_units = length file.chunks - length cs;
}

unfoldable pub compact_files : ChunkFilter → List CaptureFile → Compacted → Result Compacted
compact_files p [] s = ok s
compact_files p (file ∷ files) s = do
  cs ← retained p file.chunks
  compact_files p files (record {
    out = s.out ++ encode_blob (encoded_chunks cs);
    opaque = s.opaque ++ chunk_contents cs;
    measurements = s.measurements ++ (measure file cs ∷ []);
  })

unfoldable pub compact_chunk_pcaps : ChunkFilter → List CaptureFile → Result Compacted
compact_chunk_pcaps p files =
    compact_files p files
      (record { out = encode_uvarint (length files); opaque = []; measurements = [] })
