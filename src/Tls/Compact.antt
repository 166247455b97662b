-- ===== src/Tls/Compact.antt =====
-- minarx/protocols/common.py: `compact_tls_pcaps`.
use hndl_dev.Prelude.{ℕ, suc, List, [], ◌∷◌, ◌++◌, length}
use hndl_dev.Result.{Result, ok, ◌>>=◌, ◌>>◌}
use hndl_dev.Binary.{Bytes, encode_uvarint, encode_blob}
use hndl_dev.Pcap.{Chunk}
use hndl_dev.Chunks.{CaptureFile}
use hndl_dev.Records.Encode.{RecordStats, encode_tls_records}

-- The variables of the loop over the files. An entry of `measurements` is the statistics of the
-- encoder with `raw_capture_bytes`; `source_name` stays with the caller.
pub record TlsCompacted : Type 0 where
  pub out : Bytes
  pub opaque : Bytes
  pub measurements : List (RecordStats × ℕ)

-- `trace_validator`, which may refuse the chunks of a file; `λ chunks index. ok tt` is `None`.
abbrev pub TraceValidator : Type 0
TraceValidator = List Chunk → ℕ → Result (Unit {0})

abbrev pub add_file : TlsCompacted → CaptureFile → Bytes × Bytes × RecordStats → TlsCompacted
add_file s file (layout, opaque, stats) = record {
  out = s.out ++ encode_blob layout;
  opaque = s.opaque ++ opaque;
  measurements = s.measurements ++ ((stats, file.file_size) ∷ []);
}

unfoldable pub compact_tls_files :
    TraceValidator → ℕ → List CaptureFile → TlsCompacted → Result TlsCompacted
compact_tls_files validate index [] s = ok s
compact_tls_files validate index (file ∷ files) s = do
  validate file.chunks index
  encoded ← encode_tls_records file.chunks
  compact_tls_files validate (suc index) files (add_file s file encoded)

unfoldable pub compact_tls_pcaps : TraceValidator → List CaptureFile → Result TlsCompacted
compact_tls_pcaps validate files =
    compact_tls_files validate 0 files
      (record { out = encode_uvarint (length files); opaque = []; measurements = [] })
