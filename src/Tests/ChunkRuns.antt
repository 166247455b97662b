-- ===== src/Tests/ChunkRuns.antt =====
-- The archive of whole chunks, at one file with a readiness probe that is filtered out.
use hndl_dev.Prelude.{◌≡◌, refl, Bool, not, List, [], ◌∷◌, arith, All, bytes_eq}
use hndl_dev.Result.{ok, err, value_error, no_packets_retained}
use hndl_dev.Binary.{encode_uvarint, encode_blob}
use hndl_dev.Pcap.{Chunk, chunk_bytes}
use hndl_dev.Chunks.{
  CaptureFile, keep, filter_chunks, retained, describe_chunks, chunk_contents, Compacted,
  compact_files, compact_chunk_pcaps,
}
use hndl_dev.Chunks.Expand.{materialize_chunk_pcaps}
use hndl_dev.Chunks.RoundTrip.{retained_files, FitsFile, materialize-compact_chunk_pcaps}

abbrev not_probe : Chunk → Bool
not_probe c = not (bytes_eq c.contents (0 ∷ []))

abbrev datagram : Chunk
datagram = record { direction = 1; contents = 7 ∷ 8 ∷ [] }

abbrev probe : Chunk
probe = record { direction = 0; contents = 0 ∷ [] }

abbrev files : List CaptureFile
files = (record { chunks = probe ∷ datagram ∷ []; file_size = 140 }) ∷ []

abbrev archive : Compacted
archive = record {
  out = 1 ∷ 3 ∷ 1 ∷ 1 ∷ 2 ∷ [];
  opaque = 7 ∷ 8 ∷ [];
  measurements =
      (record {
        raw_capture_bytes = 140;
        transport_payload_bytes = 2;
        opaque_bytes = 2;
        clear_protocol_bytes = 0;
        unit_count = 1;
        discarded_non_protocol_units = 1;
      })
      ∷ [];
}

compact_run : compact_chunk_pcaps (keep not_probe) files ≡ ok archive
unfolding compact_chunk_pcaps compact_files retained filter_chunks bytes_eq describe_chunks
    chunk_contents chunk_bytes encode_uvarint encode_blob
compact_run = refl

only_probes :
    compact_chunk_pcaps (keep not_probe) ((record { chunks = probe ∷ []; file_size = 9 }) ∷ [])
    ≡ err (value_error no_packets_retained)
unfolding compact_chunk_pcaps compact_files retained filter_chunks bytes_eq
only_probes = refl

retained_run : retained_files (keep not_probe) files ≡ ok ((datagram ∷ []) ∷ [])
unfolding retained_files retained filter_chunks bytes_eq
retained_run = refl

fits_run : All FitsFile ((datagram ∷ []) ∷ [])
unfolding describe_chunks encode_uvarint
fits_run = omega arith

materialize-compact_chunk_pcaps_example :
    materialize_chunk_pcaps archive.out archive.opaque 1 ≡ ok ((datagram ∷ []) ∷ [])
materialize-compact_chunk_pcaps_example =
    materialize-compact_chunk_pcaps (keep not_probe) files archive ((datagram ∷ []) ∷ [])
      compact_run retained_run (omega arith) fits_run
