-- ===== src/Tls.antt =====
-- minarx/protocols/common.py: `compact_tls_pcaps` and `materialize_tls_pcaps`.
pub mod Compact
pub mod Layouts
pub mod RoundTrip
use hndl_dev.Prelude.{ℕ, zero, suc, List, [], ◌∷◌, ◌++◌, ◌==◌, length}
use hndl_dev.Result.{Result, ok, err, decode_error, wrong_capture_count}
use hndl_dev.Exec.{Exec, pure, guard, ◌>>=◌, ◌>>◌}
use hndl_dev.Binary.{
  Bytes, Reader, open_reader, max_field_size, encode_uvarint, encode_blob, uvarint, blob, finish,
}
use hndl_dev.Pcap.{Chunk}
use hndl_dev.Readers.{Readers, on_layout, on_opaque}
use hndl_dev.Records.Decode.{decode_tls_records}

unfoldable pub expand_tls_file : Exec Readers (List Chunk)
expand_tls_file = do layout ← on_layout (blob max_field_size); on_opaque (decode_tls_records layout)

unfoldable pub expand_tls_files : ℕ → List (List Chunk) → Exec Readers (List (List Chunk))
expand_tls_files zero files = pure files
expand_tls_files (suc count) files = do
  chunks ← expand_tls_file
  expand_tls_files count (files ++ (chunks ∷ []))

-- `names` is the number of files that the mode requires.
abbrev pub expand_tls_all : ℕ → Exec Readers (List (List Chunk))
expand_tls_all names = do
  count ← on_layout (uvarint 32)
  guard (count == names) (decode_error wrong_capture_count)
  files ← expand_tls_files names []
  on_layout finish
  on_opaque finish
  pure files

abbrev pub tls_result_of : Result (List (List Chunk) × Readers) → Result (List (List Chunk))
tls_result_of (ok (files, s)) = ok files
tls_result_of (err e) = err e

-- The chunks that `write_pcap` is given for each name, in order.
unfoldable pub materialize_tls_pcaps : Bytes → Bytes → ℕ → Result (List (List Chunk))
materialize_tls_pcaps layout opaque names =
    tls_result_of
      (expand_tls_all names (record { layout = open_reader layout; opaque = open_reader opaque }))
