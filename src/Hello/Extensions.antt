-- ===== src/Hello/Extensions.antt =====
-- minarx/protocols/common.py: `_hello_extensions`.
pub mod RoundTrip
use hndl_dev.Prelude.{ℕ, zero, suc, ◌+◌, Bool, not, List, [], ltb, leb, ◌==◌, if◌then◌else◌, length}
use hndl_dev.Result.{
  Result, ok, err, refuse_if, value_error, truncated_hello, truncated_cipher_suites,
  truncated_compression, truncated_extensions, extensions_exceed_message, truncated_extension,
  malformed_extensions, ◌>>=◌, ◌>>◌,
}
use hndl_dev.Binary.{Bytes}
use hndl_dev.Maps.{insert}
use hndl_dev.Hello.Cursor.{byte_at, word_at, slice_at}

-- Past the session identifier: the four bytes of the header, the version and the random come first.
unfoldable pub after_session_id : Bytes → Result ℕ
after_session_id message = do
  refuse_if (leb (length message) 38) (value_error truncated_hello)
  size ← byte_at message 38
  ok (38 + (1 + size))

-- Past the cipher suites and the compression methods of a ClientHello.
unfoldable pub after_compression : Bytes → ℕ → Result ℕ
after_compression message position =
    let behind = position + (2 + word_at message position) in
    do
      refuse_if (ltb (length message) (position + 2)) (value_error truncated_cipher_suites)
      refuse_if (leb (length message) behind) (value_error truncated_compression)
      size ← byte_at message behind
      ok (behind + (1 + size))

-- `while position + 4 <= end`. A round takes four bytes at least, so as many rounds as the message
-- has bytes are enough.
unfoldable pub extension_loop : ℕ → Bytes → ℕ → ℕ → List (ℕ × Bytes) → Result (List (ℕ × Bytes) × ℕ)
extension_loop zero message end position extensions = ok (extensions, position)
extension_loop (suc fuel) message end position extensions =
    let size = word_at message (position + 2) in
    let rest =
      extension_loop fuel message end (position + 4 + size)
        (insert (word_at message position) (slice_at message (position + 4) size) extensions) in
    if ltb end (position + 4)
    then ok (extensions, position)
    else if ltb end (position + 4 + size)
    then err (value_error truncated_extension)
    else rest

-- The block of extensions, whose size stands at the position.
unfoldable pub extension_block : Bytes → ℕ → Result (List (ℕ × Bytes))
extension_block message position =
    let end = position + 2 + word_at message position in
    do
      refuse_if (ltb (length message) (position + 2)) (value_error truncated_extensions)
      refuse_if (ltb (length message) end) (value_error extensions_exceed_message)
      (extensions, stop) ← extension_loop (length message) message end (position + 2) []
      refuse_if (not (stop == end)) (value_error malformed_extensions)
      ok extensions

unfoldable pub extensions_from : Bytes → ℕ → Result (List (ℕ × Bytes))
extensions_from message position =
    if position == length message then ok [] else extension_block message position

-- The dictionary of the extensions. A ServerHello has three bytes for the suite and the
-- compression method.
unfoldable pub hello_extensions : Bytes → Bool → Result (List (ℕ × Bytes))
hello_extensions message server = do
  position ← after_session_id message
  start ← (if server then ok (position + 3) else after_compression message position)
  extensions_from message start
