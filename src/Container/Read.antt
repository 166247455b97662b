-- ===== src/Container/Read.antt =====
-- minarx/format.py: `read_container`.
use hndl_dev.Prelude.{
  ℕ, ◌+◌, ◌-◌, String, Bool, true, false, not, ◌&&◌, ◌||◌, Option, none, some, List, [], ◌∷◌, ltb,
  leb, ◌==◌, if◌then◌else◌, length, take, drop, bytes_eq,
}
use hndl_dev.Result.{
  FormatFault, too_short, digest_mismatch, bad_magic, unsupported_version, unknown_profile,
  unknown_compression, unsupported_flags, invalid_port, inconsistent_counters, section_too_large,
  length_mismatch, invalid_deflate, invalid_lzma, invalid_payload, layout_length_mismatch,
  opaque_length_mismatch, Result, ok, err, format_error, struct_error, refuse_if, ◌>>=◌, ◌>>◌,
}
use hndl_dev.Struct.{unpack}
use hndl_dev.Binary.{Bytes}
use hndl_dev.Profiles.{profile_by_id}
use hndl_dev.Profiles.Registry.{ProtocolProfile}
use hndl_dev.Container.{Library, Inflated, magic, version, header_size, digest_size}

pub record Container : Type 0 where
  pub profile : ProtocolProfile
  pub server_port : ℕ
  pub raw_capture_bytes : ℕ
  pub transport_payload_bytes : ℕ
  pub layout : Bytes
  pub opaque : Bytes
  pub compression : String
  pub archive_bytes : ℕ
  pub stored_layout_bytes : ℕ

-- The unpacked header behind the magic.
pub record Header : Type 0 where
  pub version : ℕ
  pub profile_id : ℕ
  pub compression_id : ℕ
  pub flags : ℕ
  pub server_port : ℕ
  pub raw_capture_bytes : ℕ
  pub transport_payload_bytes : ℕ
  pub layout_stored_len : ℕ
  pub layout_plain_len : ℕ
  pub opaque_len : ℕ

abbrev pub header_widths : List ℕ
header_widths = 1 ∷ 1 ∷ 1 ∷ 1 ∷ 2 ∷ 4 ∷ 4 ∷ 4 ∷ 4 ∷ 4 ∷ []

-- `HEADER.unpack` has exactly these fields, so the last clause is never reached.
unfoldable pub header_of : List ℕ → Result Header
header_of (v ∷ i ∷ c ∷ f ∷ port ∷ raw ∷ sent ∷ stored ∷ plain ∷ opaque ∷ []) = ok (record {
  version = v;
  profile_id = i;
  compression_id = c;
  flags = f;
  server_port = port;
  raw_capture_bytes = raw;
  transport_payload_bytes = sent;
  layout_stored_len = stored;
  layout_plain_len = plain;
  opaque_len = opaque;
})
header_of fields = err struct_error

abbrev pub fault : FormatFault → Bool → Result (Unit {0})
fault f refused = refuse_if refused (format_error f)

-- The tests on the header, in the source's order.
unfoldable pub check_header : ℕ → ℕ → Bytes → Header → Result ProtocolProfile
check_header max_payload body_size magic' h = do
  fault bad_magic (not (bytes_eq magic' magic))
  fault unsupported_version (not (h.version == version))
  profile ← elim (profile_by_id h.profile_id) [
    | none ↦ err (format_error unknown_profile)
    | some p ↦ ok p
  ]
  fault unknown_compression (ltb 2 h.compression_id)
  fault unsupported_flags (not (h.flags == 0))
  fault invalid_port (not (ltb 0 h.server_port && leb h.server_port 65535))
  fault inconsistent_counters (
      not (
        leb h.opaque_len h.transport_payload_bytes
        && leb h.transport_payload_bytes h.raw_capture_bytes))
  fault section_too_large (
      ltb max_payload h.raw_capture_bytes
      || ltb max_payload h.transport_payload_bytes
      || ltb max_payload h.layout_stored_len
      || ltb max_payload h.layout_plain_len
      || ltb max_payload h.opaque_len)
  fault length_mismatch (not (header_size + h.layout_stored_len + h.opaque_len == body_size))
  ok profile

abbrev pub is_empty : Bytes → Bool
is_empty [] = true
is_empty (b ∷ bs) = false

-- `if not decoder.eof or decoder.unused_data or decoder.unconsumed_tail`
abbrev pub deflate_result : Option Inflated → Result Bytes
deflate_result none = err (format_error invalid_payload)
deflate_result (some d) =
    if not d.eof || not (is_empty d.unused_data) || not (is_empty d.unconsumed_tail)
    then err (format_error invalid_deflate)
    else ok d.output

-- `if not decoder.eof or decoder.unused_data`
abbrev pub lzma_result : Option Inflated → Result Bytes
lzma_result none = err (format_error invalid_payload)
lzma_result (some d) =
    if not d.eof || not (is_empty d.unused_data)
    then err (format_error invalid_lzma)
    else ok d.output

-- `COMPRESSION_NAMES[compression_id]` of a checked identifier.
unfoldable pub compression_name : ℕ → String
compression_name i = if i == 0 then "none" else if i == 1 then "deflate" else "lzma"

module _ (lib : Library) where
  unfoldable pub decompress : ℕ → Bytes → ℕ → Result Bytes
  decompress compression_id stored plain_len =
      if compression_id == 0
      then ok stored
      else if compression_id == 1
      then deflate_result (lib.inflate stored (plain_len + 1))
      else lzma_result (lib.lzma_decompress stored (plain_len + 1))

  -- What follows once the header has been unpacked.
  unfoldable pub read_sections : ℕ → ℕ → Bytes → Header → Result Container
  read_sections max_payload archive_size body h = do
    profile ← check_header max_payload (length body) (take 8 body) h
    let stored = take h.layout_stored_len (drop header_size body)
    let opaque = drop (header_size + h.layout_stored_len) body
    layout ← decompress h.compression_id stored h.layout_plain_len
    fault layout_length_mismatch (not (length layout == h.layout_plain_len))
    fault opaque_length_mismatch (not (length opaque == h.opaque_len))
    ok (record {
      profile = profile;
      server_port = h.server_port;
      raw_capture_bytes = h.raw_capture_bytes;
      transport_payload_bytes = h.transport_payload_bytes;
      layout = layout;
      opaque = opaque;
      compression = compression_name h.compression_id;
      archive_bytes = archive_size;
      stored_layout_bytes = length stored;
    })

  abbrev pub body_of : Bytes → Bytes
  body_of encoded = take (length encoded - digest_size) encoded

  abbrev pub digest_of : Bytes → Bytes
  digest_of encoded = drop (length encoded - digest_size) encoded

  -- `encoded` is what `path.read_bytes()` returns.
  unfoldable pub read_container : Bytes → ℕ → Result Container
  read_container encoded max_payload = do
    fault too_short (ltb (length encoded) (header_size + digest_size))
    let body = body_of encoded
    fault digest_mismatch (not (bytes_eq (lib.sha256 body) (digest_of encoded)))
    h ← header_of (unpack header_widths (drop 8 (take header_size body)))
    read_sections max_payload (length encoded) body h
