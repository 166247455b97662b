-- ===== src/Records/Decode.antt =====
-- minarx/protocols/common.py: `_decode_tls_records`.
use hndl_dev.Prelude.{
  ℕ, zero, suc, Bool, Option, none, some, List, [], ◌∷◌, ◌++◌, ◌==◌, if◌then◌else◌, length,
}
use hndl_dev.Prelude.Bits.{shr, low_bits, has_bit}
use hndl_dev.Prelude.Endian.{to_bytes_big}
use hndl_dev.Result.{Result, ok, err, decode_error, invalid_record_code}
use hndl_dev.Exec.{Exec, pure, raise, ◌>>=◌, ◌>>◌}
use hndl_dev.Binary.{Bytes, Reader, open_reader, byte, uvarint, take_bytes, blob, finish}
use hndl_dev.Readers.{Readers, on_layout, on_opaque}
use hndl_dev.Pcap.{Chunk}

-- `CODE_CONTENTS.get(code)`
unfoldable pub code_content : ℕ → Option ℕ
code_content c =
    if c == 0
    then some 20
    else if c == 1
    then some 21
    else if c == 2
    then some 22
    else if c == 3
    then some 23
    else if c == 4
    then some 24
    else none

-- `CODE_VERSIONS.get(code)`
unfoldable pub code_version : ℕ → Option Bytes
code_version c =
    if c == 0
    then some (3 ∷ 3 ∷ [])
    else if c == 1
    then some (3 ∷ 1 ∷ [])
    else if c == 2
    then some (3 ∷ 2 ∷ [])
    else if c == 3
    then some (3 ∷ 4 ∷ [])
    else none

-- `content_type is None or version is None`
abbrev pub checked : Option ℕ → Option Bytes → Exec Readers (ℕ × Bytes)
checked none version = raise (decode_error invalid_record_code)
checked (some t) none = raise (decode_error invalid_record_code)
checked (some t) (some v) = pure (t, v)

-- Each `if` is on a code read before: a field follows only where no code stands for it.
abbrev pub read_type : ℕ → Exec Readers (Option ℕ)
read_type code =
    if code == 7 then (do t ← on_layout byte; pure (some t)) else pure (code_content code)

abbrev pub read_version : ℕ → Exec Readers (Option Bytes)
read_version code =
    if code == 7 then (do v ← on_layout (take_bytes 2); pure (some v)) else pure (code_version code)

abbrev pub read_fragment : Bool → Exec Readers Bytes
read_fragment hidden =
    if hidden
    then (do size ← on_layout (uvarint 18432); on_opaque (take_bytes size))
    else on_layout (blob 18432)

-- The rest of a record behind its tag. `len(fragment)` is at most 18432, so its two bytes hold it.
unfoldable pub decode_fields : ℕ → ℕ → Bool → ℕ → Exec Readers Chunk
decode_fields content_code version_code hidden direction = do
  content_type ← read_type content_code
  version ← read_version version_code
  (t, v) ← checked content_type version
  fragment ← read_fragment hidden
  pure (record {
    direction = direction;
    contents = t ∷ (v ++ (to_bytes_big 2 (length fragment) ++ fragment));
  })

-- The body of the loop.
unfoldable pub decode_record : Exec Readers Chunk
decode_record = do
  tag ← on_layout byte
  decode_fields (low_bits tag 3) (low_bits (shr tag 3) 3) (has_bit tag 6) (shr tag 7)

unfoldable pub decode_loop : ℕ → List Chunk → Exec Readers (List Chunk)
decode_loop zero records = pure records
decode_loop (suc count) records = do
  chunk ← decode_record
  decode_loop count (records ++ (chunk ∷ []))

abbrev pub max_records : ℕ
max_records = 10_000_000

abbrev pub decode_all : Exec Readers (List Chunk)
decode_all = do
  count ← on_layout (uvarint max_records)
  records ← decode_loop count []
  on_layout finish
  pure records

abbrev pub keep_opaque : Result (List Chunk × Readers) → Result (List Chunk × Reader)
keep_opaque (ok (chunks, s)) = ok (chunks, s.opaque)
keep_opaque (err e) = err e

-- `_decode_tls_records` on its layout and on the reader of the opaque bytes, which it moves on.
unfoldable pub decode_tls_records : Bytes → Exec Reader (List Chunk)
decode_tls_records layout opaque_reader =
    keep_opaque (decode_all (record { layout = open_reader layout; opaque = opaque_reader }))
