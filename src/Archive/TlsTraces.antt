-- ===== src/Archive/TlsTraces.antt =====
-- minarx/archive.py on TLS 1.3: from the capture files through the archive to the files again.
use hndl_dev.Prelude.{ℕ, ◌≤◌, ◌≡◌, refl, String, not, Option, some, List, length, All}
use hndl_dev.Result.{ok, value_error, unsupported_mode, refuse-then}
use hndl_dev.Binary.{Bytes}
use hndl_dev.Pcap.{Chunk, IsChunk}
use hndl_dev.Records.{TlsRecord}
use hndl_dev.Chunks.{CaptureFile}
use hndl_dev.Profiles.{Selector, profile_named, resolve_profile}
use hndl_dev.Profiles.Registry.{ProtocolProfile}
use hndl_dev.Container.{Library, IsLibrary, compress, max_archive_payload}
use hndl_dev.Tls.Compact.{TlsCompacted, compact_tls_pcaps}
use hndl_dev.Tls.RoundTrip.{WithinLimits, SameStreams, records_of, materialize-compact_tls_pcaps}
use hndl_dev.Protocols.Tls.{compact_tls13, validate_tls13, is_tls13_mode}
use hndl_dev.Archive.{
  Codec, CaptureReport, ArchiveReport, compact_capture, materialize_archive, mode_or,
}
use hndl_dev.Archive.Codecs.{tls13_codec, tls13_names, tls_encoded}
use hndl_dev.Archive.Reports.{materialize_archive-compact_capture}

compact_tls13-pcaps :
    (mode : String) (profile : ProtocolProfile) (files : List CaptureFile) (t : TlsCompacted)
    → compact_tls13 mode profile files ≡ ok t
    → compact_tls_pcaps (validate_tls13 profile mode) files ≡ ok t
unfolding compact_tls13
compact_tls13-pcaps mode profile files t h =
    (refuse-then (not (is_tls13_mode mode)) (value_error unsupported_mode) _ h).1

-- A TLS 1.3 archive that `compact_capture` made of as many files as the mode names is materialized
-- into one list of chunks for each file, in which each side sends the same bytes as in the file.
-- The profile is the registered one, the chunks are those of an extraction, and the layouts are
-- within the limits of the readers.
pub materialize_archive-tls13 :
    (lib : Library) (codecs : String → Option Codec) (files : List CaptureFile)
    (mode : Option String) (port : Option ℕ) (profile : Selector) (compression : String)
    (selected : ProtocolProfile) (t : TlsCompacted) (rss : List (List TlsRecord)) (encoded : Bytes)
    (report : CaptureReport)
    → IsLibrary lib
    → codecs "tls13" ≡ some tls13_codec
    → All (λ f. All IsChunk f.chunks) files
    → tls13_names (mode_or mode "1rtt") ≡ some (length files)
    → resolve_profile "tls13" (mode_or mode "1rtt") profile ≡ ok selected
    → compact_tls13 (mode_or mode "1rtt") selected files ≡ ok t
    → records_of files ≡ ok rss
    → length files ≤ 32
    → All WithinLimits rss
    → profile_named selected.name ≡ some selected
    → ((d : ℕ × Bytes) → compress lib t.out compression ≡ ok d → length d.1 ≤ max_archive_payload)
    → compact_capture lib codecs files "tls13" mode port profile compression ≡ ok (encoded, report)
    → (css : List (List Chunk)) × (r : ArchiveReport) × (materialize_archive lib codecs encoded
        ≡ ok (css, r))
      × SameStreams files css
materialize_archive-tls13 lib codecs files mode port profile compression selected t rss encoded
      report law entry chunks names resolved compacts split few within registered fits run =
    let (css, expands, same) =
      materialize-compact_tls_pcaps (validate_tls13 selected (mode_or mode "1rtt")) files t rss
        chunks (compact_tls13-pcaps (mode_or mode "1rtt") selected files t compacts) split few
        within in
    let (r, materialized, inspected) =
      materialize_archive-compact_capture lib codecs tls13_codec files "tls13" mode port profile
        compression selected (tls_encoded t) encoded report css law entry resolved
        (rw compacts refl) registered fits run (rw names expands) in
    (css, r, materialized, same)
