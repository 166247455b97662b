-- ===== src/Container.antt =====
-- minarx/format.py: the MinARX v1 container. SHA-256, zlib and lzma are not code of the repository:
-- they are the `Library` that every function takes.
pub mod Read
pub mod Written
pub mod RoundTrip
pub mod Accepted
use text.Mathlib.Text.{◌==◌ as str_eq}
use hndl_dev.Prelude.{
  ℕ, ◌+◌, ◌-◌, ◌*◌, ◌<◌, ◌≡◌, String, Bool, true, false, not, ◌&&◌, ◌||◌, Option, none, some, List,
  [], ◌∷◌, ◌++◌, ltb, leb, ◌==◌, if◌then◌else◌, length, take, drop,
}
use hndl_dev.Result.{
  Result, ok, err, value_error, no_profile_id, port_out_of_range, counters_inconsistent,
  layout_too_large, unknown_compression_name, require, refuse_if, ◌>>=◌, ◌>>◌,
}
use hndl_dev.Struct.{pack}
use hndl_dev.Binary.{Bytes}
use hndl_dev.Profiles.{profile_id}
use hndl_dev.Profiles.Registry.{ProtocolProfile}

-- What a decompressor object holds after one call of `decompress`.
pub record Inflated : Type 0 where
  pub output : Bytes
  pub eof : Bool
  pub unused_data : Bytes
  pub unconsumed_tail : Bytes

-- `none` is `zlib.error` or `lzma.LZMAError`. The number is the limit on the output.
pub record Library : Type 0 where
  pub sha256 : Bytes → Bytes
  pub deflate : Bytes → Bytes
  pub inflate : Bytes → ℕ → Option Inflated
  pub lzma_compress : Bytes → Bytes
  pub lzma_decompress : Bytes → ℕ → Option Inflated

abbrev pub complete : Bytes → Option Inflated
complete layout =
    some (record { output = layout; eof = true; unused_data = []; unconsumed_tail = [] })

-- The documented behaviour that the format relies on: a digest has 32 bytes, and a decompressor
-- whose limit is above the size of the original returns the original and is at its end.
pub record IsLibrary (lib : Library) : Type 0 where
  pub digest_size : (body : Bytes) → length (lib.sha256 body) ≡ 32
  pub inflate-deflate :
      (layout : Bytes) (limit : ℕ)
      → length layout < limit
      → lib.inflate (lib.deflate layout) limit ≡ complete layout
  pub decompress-compress :
      (layout : Bytes) (limit : ℕ)
      → length layout < limit
      → lib.lzma_decompress (lib.lzma_compress layout) limit ≡ complete layout

-- b"MINARX\r\n"
abbrev pub magic : Bytes
magic = 77 ∷ 73 ∷ 78 ∷ 65 ∷ 82 ∷ 88 ∷ 13 ∷ 10 ∷ []

abbrev pub version : ℕ
version = 1

abbrev pub header_size : ℕ
header_size = 34

abbrev pub digest_size : ℕ
digest_size = 32

abbrev pub max_archive_payload : ℕ
max_archive_payload = 2 * 1024 * 1024 * 1024

-- `min(candidates, key=...)`: the first of the shortest.
abbrev pub shorter : ℕ × Bytes → ℕ × Bytes → ℕ × Bytes
shorter (i, x) (j, y) = if ltb (length y) (length x) then (j, y) else (i, x)

module _ (lib : Library) where
  -- `_compress`
  unfoldable pub compress : Bytes → String → Result (ℕ × Bytes)
  compress layout requested =
      if str_eq requested "none"
      then ok (0, layout)
      else if str_eq requested "deflate"
      then ok (1, lib.deflate layout)
      else if str_eq requested "lzma"
      then ok (2, lib.lzma_compress layout)
      else if str_eq requested "auto"
      then ok (shorter (shorter (0, layout) (1, lib.deflate layout)) (2, lib.lzma_compress layout))
      else err (value_error unknown_compression_name)

  abbrev pub identifier_of : ProtocolProfile → Result ℕ
  identifier_of profile = elim (profile_id profile.name) [
    | none ↦ err (value_error no_profile_id)
    | some i ↦ ok i
  ]

  -- The widths and values of the header behind the magic.
  abbrev pub header_fields : ℕ → ℕ → ℕ → ℕ → ℕ → ℕ → ℕ → ℕ → List (ℕ × ℕ)
  header_fields profile compression port raw transport stored plain opaque =
      (1, version)
      ∷ (1, profile)
      ∷ (1, compression)
      ∷ (1, 0)
      ∷ (2, port)
      ∷ (4, raw)
      ∷ (4, transport)
      ∷ (4, stored)
      ∷ (4, plain)
      ∷ (4, opaque)
      ∷ []

  abbrev pub with_digest : Bytes → Bytes
  with_digest body = body ++ lib.sha256 body

  -- The bytes that `write_container` writes to its path; it returns their number.
  unfoldable pub write_container :
      ProtocolProfile → ℕ → ℕ → ℕ → Bytes → Bytes → String → Result Bytes
  write_container profile port raw transport layout opaque compression = do
    identifier ← identifier_of profile
    require (ltb 0 port && leb port 65535) (value_error port_out_of_range)
    require (leb (length opaque) transport && leb transport raw && leb raw max_archive_payload)
        (value_error counters_inconsistent)
    refuse_if (ltb max_archive_payload (length layout)) (value_error layout_too_large)
    (compression_id, stored_layout) ← compress layout compression
    header ← pack (
        header_fields identifier compression_id port raw transport (length stored_layout)
          (length layout) (length opaque))
    ok (with_digest ((magic ++ header) ++ (stored_layout ++ opaque)))
