-- ===== src/Tests/ArchiveRuns.antt =====
-- minarx/archive.py on one small TLS 1.3 trace, with the toy library of the container tests.
use text.Mathlib.Text.{◌==◌ as str_eq}
use hndl_dev.Prelude.{
  ℕ, ◌≤◌, ◌≡◌, refl, ap, String, Option, none, some, List, [], ◌∷◌, All, arith, length, bytes_eq,
  if◌then◌else◌,
}
use hndl_dev.Prelude.Endian.{from_bytes_big, to_bytes_big}
use hndl_dev.Prelude.Signed.{sub_ℕ}
use hndl_dev.Result.{Result, ok, err}
use hndl_dev.Binary.{Bytes, encode_uvarint, encode_blob}
use hndl_dev.Struct.{pack, unpack}
use hndl_dev.Pcap.{Chunk, IsChunk, chunk_bytes}
use hndl_dev.Records.{TlsRecord, drain, split_chunks, split_tls_records}
use hndl_dev.Records.Encode.{
  content_code, version_code, tag_byte, record_head, encode_record, encode_records,
  encode_tls_records,
}
use hndl_dev.Chunks.{CaptureFile}
use hndl_dev.Hello.{drain_messages, handshake_records, clear_handshake_messages}
use hndl_dev.Hello.Cursor.{byte_at}
use hndl_dev.Hello.Extensions.{
  after_session_id, after_compression, extension_loop, extension_block, extensions_from,
  hello_extensions,
}
use hndl_dev.Hello.Parameters.{
  first_hellos, server_parameters, optional_server, present, tls_hello_parameters,
}
use hndl_dev.Profiles.{
  unspecified, default_profile, profile_names, index_from, find_profile, profile_by_id,
  resolve_profile,
}
use hndl_dev.Profiles.Registry.{tls13_full_aes128gcm, profiles}
use hndl_dev.Container.{compress, write_container, max_archive_payload}
use hndl_dev.Container.Read.{
  header_of, check_header, decompress, compression_name, read_sections, read_container,
}
use hndl_dev.Tls.Compact.{TlsCompacted, compact_tls_files, compact_tls_pcaps}
use hndl_dev.Tls.RoundTrip.{WithinLimits, SameStreams, records_of}
use hndl_dev.Protocols.Tls.{check_tls13, validate_tls13, compact_tls13}
use hndl_dev.Archive.{
  Codec, CaptureReport, ArchiveReport, totals, select, store, compact_capture, inspect_archive,
  materialize_archive,
}
use hndl_dev.Archive.Counts.{capture_accounting}
use hndl_dev.Archive.Codecs.{tls13_codec, tls_encoded}
use hndl_dev.Archive.Reports.{inspect_archive-compact_capture}
use hndl_dev.Archive.TlsTraces.{materialize_archive-tls13}
use hndl_dev.Tests.ContainerRuns.{toy, toy-IsLibrary}
use hndl_dev.Tests.ProtocolRuns.{trace13, tls13_named}

abbrev codecs : String → Option Codec
codecs protocol = if str_eq protocol "tls13" then some tls13_codec else none

abbrev files : List CaptureFile
files = record { chunks = trace13; file_size = 400 } ∷ []

abbrev compacted_or_empty : Result TlsCompacted → TlsCompacted
compacted_or_empty (ok t) = t
compacted_or_empty (err e) = record { out = []; opaque = []; measurements = [] }

abbrev compacted : TlsCompacted
compacted = compacted_or_empty (compact_tls13 "1rtt" tls13_full_aes128gcm files)

compact_run : compact_tls13 "1rtt" tls13_full_aes128gcm files ≡ ok compacted
unfolding validate_tls13 check_tls13 tls_hello_parameters first_hellos server_parameters
    optional_server present hello_extensions extensions_from extension_block extension_loop
    after_compression after_session_id byte_at clear_handshake_messages handshake_records
    drain_messages split_tls_records split_chunks drain from_bytes_big bytes_eq compact_tls13
    encode_tls_records encode_records encode_record record_head tag_byte content_code version_code
    encode_uvarint encode_blob chunk_bytes compact_tls_files compact_tls_pcaps
compact_run = refl

abbrev no_profile : CaptureReport
no_profile = record {
  protocol = "";
  mode = "";
  profile = tls13_full_aes128gcm;
  accounting = capture_accounting 0 0 0 0 0 0;
  bytes_saved_vs_raw = sub_ℕ 0 0;
}

abbrev archived_or_empty : Result (Bytes × CaptureReport) → Bytes × CaptureReport
archived_or_empty (ok archived) = archived
archived_or_empty (err e) = ([], no_profile)

abbrev archived : Bytes × CaptureReport
archived = archived_or_empty (compact_capture toy codecs files "tls13" none none unspecified "none")

resolve_run : resolve_profile "tls13" "1rtt" unspecified ≡ ok tls13_full_aes128gcm
unfolding resolve_profile default_profile profiles find_profile
resolve_run = refl

select_run :
    select tls13_codec "tls13" "1rtt" unspecified files
    ≡ ok (tls13_full_aes128gcm, tls_encoded compacted)
unfolding select
select_run = rw (resolve_run, compact_run) refl

archive_run : compact_capture toy codecs files "tls13" none none unspecified "none" ≡ ok archived
unfolding compact_capture select store totals resolve_profile default_profile write_container
    index_from profile_names compress pack to_bytes_big read_container read_sections unpack
    header_of check_header decompress profile_by_id find_profile profiles compression_name
    validate_tls13 check_tls13 tls_hello_parameters first_hellos server_parameters optional_server
    present hello_extensions extensions_from extension_block extension_loop after_compression
    after_session_id byte_at clear_handshake_messages handshake_records drain_messages
    split_tls_records split_chunks drain from_bytes_big bytes_eq compact_tls13 encode_tls_records
    encode_records encode_record record_head tag_byte content_code version_code encode_uvarint
    encode_blob chunk_bytes compact_tls_files compact_tls_pcaps
archive_run = refl

small_layout :
    (d : ℕ × Bytes) → compress toy compacted.out "none" ≡ ok d → length d.1 ≤ max_archive_payload
unfolding compress validate_tls13 check_tls13 tls_hello_parameters first_hellos server_parameters
    optional_server present hello_extensions extensions_from extension_block extension_loop
    after_compression after_session_id byte_at clear_handshake_messages handshake_records
    drain_messages split_tls_records split_chunks drain from_bytes_big bytes_eq compact_tls13
    encode_tls_records encode_records encode_record record_head tag_byte content_code version_code
    encode_uvarint encode_blob chunk_bytes compact_tls_files compact_tls_pcaps
small_layout (i, x) h = let e : compacted.out ≡ x = cc in omega (arith, ap length e)

abbrev records_or_empty : Result (List (List TlsRecord)) → List (List TlsRecord)
records_or_empty (ok rss) = rss
records_or_empty (err e) = []

abbrev records : List (List TlsRecord)
records = records_or_empty (records_of files)

records_run : records_of files ≡ ok records
unfolding records_of split_tls_records split_chunks drain from_bytes_big
records_run = refl

trace13-IsChunk : All IsChunk trace13
trace13-IsChunk = (
  record { direction_bound = omega arith; bytes = omega arith },
  (record { direction_bound = omega arith; bytes = omega arith }, tt),
)

records-WithinLimits : All WithinLimits records
unfolding records_of validate_tls13 check_tls13 tls_hello_parameters first_hellos server_parameters
    optional_server present hello_extensions extensions_from extension_block extension_loop
    after_compression after_session_id byte_at clear_handshake_messages handshake_records
    drain_messages split_tls_records split_chunks drain from_bytes_big bytes_eq compact_tls13
    encode_tls_records encode_records encode_record record_head tag_byte content_code version_code
    encode_uvarint encode_blob chunk_bytes compact_tls_files compact_tls_pcaps
records-WithinLimits = (record { few = omega arith; layout_size = omega arith }, tt)

inspect_archive-compact_capture_example :
    (r : ArchiveReport) × (inspect_archive toy archived.0 ≡ ok r)
    × (r.accounting ≡ archived.1.accounting)
    × (r.profile ≡ archived.1.profile)
    × (r.server_port ≡ 44443)
inspect_archive-compact_capture_example =
    inspect_archive-compact_capture toy codecs tls13_codec files "tls13" none none unspecified
      "none" tls13_full_aes128gcm (tls_encoded compacted) archived.0 archived.1 toy-IsLibrary refl
      select_run tls13_named small_layout archive_run

materialize_archive-tls13_example :
    (css : List (List Chunk)) × (r : ArchiveReport) × (materialize_archive toy codecs archived.0
      ≡ ok (css, r))
    × SameStreams files css
materialize_archive-tls13_example =
    materialize_archive-tls13 toy codecs files none none unspecified "none" tls13_full_aes128gcm
      compacted records archived.0 archived.1 toy-IsLibrary refl (trace13-IsChunk, tt) refl
      resolve_run compact_run records_run (omega arith) records-WithinLimits tls13_named
      small_layout archive_run
