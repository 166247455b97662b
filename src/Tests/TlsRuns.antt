-- ===== src/Tests/TlsRuns.antt =====
-- The archive of TLS captures, at one file.
use hndl_dev.Prelude.{◌≡◌, refl, List, [], ◌∷◌, All, arith}
use hndl_dev.Prelude.Endian.{from_bytes_big}
use hndl_dev.Prelude.{bytes_eq}
use hndl_dev.Result.{ok}
use hndl_dev.Binary.{encode_uvarint, encode_blob}
use hndl_dev.Pcap.{Chunk, IsChunk, chunk_bytes}
use hndl_dev.Records.{TlsRecord, drain, split_chunks, split_tls_records}
use hndl_dev.Records.Encode.{
  RecordStats, content_code, version_code, tag_byte, record_head, encode_record, encode_records,
  encode_tls_records,
}
use hndl_dev.Chunks.{CaptureFile}
use hndl_dev.Tls.{materialize_tls_pcaps}
use hndl_dev.Tls.Compact.{TraceValidator, TlsCompacted, compact_tls_files, compact_tls_pcaps}
use hndl_dev.Tls.RoundTrip.{WithinLimits, SameStreams, records_of, materialize-compact_tls_pcaps}

abbrev capture : List Chunk
capture =
    record { direction = 0; contents = 22 ∷ 3 ∷ 1 ∷ 0 ∷ 1 ∷ 9 ∷ 23 ∷ 3 ∷ 3 ∷ 0 ∷ 1 ∷ 7 ∷ [] } ∷ []

abbrev files : List CaptureFile
files = record { chunks = capture; file_size = 100 } ∷ []

abbrev no_validator : TraceValidator
no_validator chunks index = ok tt

abbrev records : List TlsRecord
records =
    record { direction = 0; content_type = 22; version = 3 ∷ 1 ∷ []; fragment = 9 ∷ [] }
    ∷ record { direction = 0; content_type = 23; version = 3 ∷ 3 ∷ []; fragment = 7 ∷ [] }
    ∷ []

abbrev stats : RecordStats
stats = record {
  record_count = 2;
  record_header_bytes_removed = 10;
  protected_record_payload_bytes = 1;
  opaque_bytes = 1;
  clear_protocol_bytes = 1;
  clear_handshake_payload_bytes = 1;
  transport_payload_bytes = 12;
}

abbrev compacted : TlsCompacted
compacted = record {
  out = 1 ∷ 6 ∷ 2 ∷ 10 ∷ 1 ∷ 9 ∷ 67 ∷ 1 ∷ [];
  opaque = 7 ∷ [];
  measurements = (stats, 100) ∷ [];
}

compact_run : compact_tls_pcaps no_validator files ≡ ok compacted
unfolding encode_tls_records split_tls_records split_chunks drain from_bytes_big encode_records
    encode_record record_head tag_byte content_code version_code bytes_eq encode_uvarint encode_blob
    chunk_bytes compact_tls_files compact_tls_pcaps
compact_run = refl

records_run : records_of files ≡ ok (records ∷ [])
unfolding records_of split_tls_records split_chunks drain from_bytes_big
records_run = refl

capture-IsChunk : All IsChunk capture
capture-IsChunk = (record { direction_bound = omega arith; bytes = omega arith }, tt)

records-WithinLimits : WithinLimits records
unfolding encode_tls_records split_tls_records split_chunks drain from_bytes_big encode_records
    encode_record record_head tag_byte content_code version_code bytes_eq encode_uvarint encode_blob
    chunk_bytes
records-WithinLimits = record { few = omega arith; layout_size = omega arith }

materialize-compact_tls_pcaps_example :
    (css : List (List Chunk)) × (materialize_tls_pcaps compacted.out compacted.opaque 1 ≡ ok css)
    × SameStreams files css
materialize-compact_tls_pcaps_example =
    materialize-compact_tls_pcaps no_validator files compacted (records ∷ []) (capture-IsChunk, tt)
      compact_run records_run (omega arith) (records-WithinLimits, tt)
