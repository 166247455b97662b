-- ===== src/Chunks/Expand.antt =====
-- minarx/protocols/common.py: `materialize_chunk_pcaps`.
use hndl_dev.Prelude.{ℕ, zero, suc, List, [], ◌∷◌, ◌++◌, ◌==◌, ◌||◌}
use hndl_dev.Result.{decode_error, wrong_capture_count, invalid_direction, Result, ok, err}
use hndl_dev.Exec.{Exec, pure, guard, ◌>>=◌, ◌>>◌}
use hndl_dev.Binary.{
  Bytes, Reader, open_reader, max_field_size, byte, uvarint, take_bytes, blob, finish,
}
use hndl_dev.Pcap.{Chunk}
use hndl_dev.Readers.{Readers, on_layout, on_opaque}

-- The body of the loop over the chunks of a file: `Readers.layout` is `capture_reader`.
unfoldable pub read_chunk : Exec Readers Chunk
read_chunk = do
  direction ← on_layout byte
  guard (direction == 0 || direction == 1) (decode_error invalid_direction)
  size ← on_layout (uvarint max_field_size)
  contents ← on_opaque (take_bytes size)
  pure (record { direction = direction; contents = contents })

unfoldable pub read_chunks : ℕ → List Chunk → Exec Readers (List Chunk)
read_chunks zero chunks = pure chunks
read_chunks (suc count) chunks = do chunk ← read_chunk; read_chunks count (chunks ++ (chunk ∷ []))

abbrev pub max_chunks : ℕ
max_chunks = 10_000_000

abbrev pub read_capture : Exec Readers (List Chunk)
read_capture = do
  chunk_count ← on_layout (uvarint max_chunks)
  chunks ← read_chunks chunk_count []
  on_layout finish
  pure chunks

-- One file: its blob is read from the layout, and `read_capture` runs on a reader of the blob.
abbrev pub back_to : Reader → Result (List Chunk × Readers) → Result (List Chunk × Readers)
back_to layout (ok (chunks, s)) = ok (chunks, record { layout = layout; opaque = s.opaque })
back_to layout (err e) = err e

abbrev pub in_blob : Bytes → Exec Readers (List Chunk)
in_blob bytes s =
    back_to s.layout (read_capture (record { layout = open_reader bytes; opaque = s.opaque }))

unfoldable pub expand_file : Exec Readers (List Chunk)
expand_file = do bytes ← on_layout (blob max_field_size); in_blob bytes

unfoldable pub expand_files : ℕ → List (List Chunk) → Exec Readers (List (List Chunk))
expand_files zero files = pure files
expand_files (suc count) files = do
  chunks ← expand_file
  expand_files count (files ++ (chunks ∷ []))

-- `names` is the number of files that the mode requires.
abbrev pub expand_all : ℕ → Exec Readers (List (List Chunk))
expand_all names = do
  count ← on_layout (uvarint 32)
  guard (count == names) (decode_error wrong_capture_count)
  files ← expand_files names []
  on_layout finish
  on_opaque finish
  pure files

abbrev pub result_of : Result (List (List Chunk) × Readers) → Result (List (List Chunk))
result_of (ok (files, s)) = ok files
result_of (err e) = err e

-- The chunks that `write_pcap` is given for each name, in order.
unfoldable pub materialize_chunk_pcaps : Bytes → Bytes → ℕ → Result (List (List Chunk))
materialize_chunk_pcaps layout opaque names =
    result_of
      (expand_all names (record { layout = open_reader layout; opaque = open_reader opaque }))
