-- ===== src/Archive.antt =====
-- minarx/archive.py: a capture becomes an archive, an archive is inspected, and its captures are
-- materialized. The table `CODECS` is a parameter; Archive/Codecs.antt has its TLS entries.
pub mod Counts
pub mod Codecs
pub mod Reports
pub mod TlsTraces
use text.Mathlib.Text.{◌==◌ as str_eq}
use hndl_dev.Prelude.{
  ℕ, ◌+◌, String, Bool, true, false, not, Option, none, some, List, [], ◌∷◌, ◌==◌, if◌then◌else◌,
  length,
}
use hndl_dev.Prelude.Signed.{ℤ, pos, sub_ℕ, ◌+ℤ◌, ◌-ℤ◌}
use hndl_dev.Result.{
  Result, ok, err, Error, decode_error, format_error, pcap_error, value_error, key_error,
  archive_error, archive_fault, unsupported_protocol, accounting_mismatch, refuse_if, ◌>>=◌, ◌>>◌,
}
use hndl_dev.Binary.{Bytes}
use hndl_dev.Pcap.{Chunk}
use hndl_dev.Chunks.{CaptureFile}
use hndl_dev.Profiles.{Selector, resolve_profile}
use hndl_dev.Profiles.Registry.{ProtocolProfile}
use Counts.{Accounting, capture_accounting, archive_accounting}
use hndl_dev.Container.{Library, write_container, max_archive_payload}
use hndl_dev.Container.Read.{Container, read_container}

-- The keys of an entry of `captures` that the archive sums up.
pub record CaptureCounters : Type 0 where
  pub raw_capture_bytes : ℕ
  pub transport_payload_bytes : ℕ
  pub opaque_bytes : ℕ

pub record CodecOutput : Type 0 where
  pub layout : Bytes
  pub opaque : Bytes
  pub captures : List CaptureCounters

-- A module of minarx/protocols: `compact` on the files of the capture directory, and `materialize`
-- with the mode of the metadata, up to the chunks that are written for each file.
pub record Codec : Type 0 where
  pub compact : String → ProtocolProfile → List CaptureFile → Result CodecOutput
  pub materialize : Bytes → Bytes → String → Result (List (List Chunk))

-- The sums over the captures.
unfoldable pub totals : List CaptureCounters → CaptureCounters
totals [] = record { raw_capture_bytes = 0; transport_payload_bytes = 0; opaque_bytes = 0 }
totals (c ∷ cs) = record {
  raw_capture_bytes = c.raw_capture_bytes + (totals cs).raw_capture_bytes;
  transport_payload_bytes = c.transport_payload_bytes + (totals cs).transport_payload_bytes;
  opaque_bytes = c.opaque_bytes + (totals cs).opaque_bytes;
}

-- `except (FileNotFoundError, ValueError, PcapError)`, and with `KeyError` for `materialize_archive`.
abbrev pub is_refusal : Error → Bool
is_refusal (decode_error f) = true
is_refusal (format_error f) = true
is_refusal (pcap_error f) = true
is_refusal (value_error f) = true
is_refusal e = false

abbrev pub is_refusal_or_key : Error → Bool
is_refusal_or_key key_error = true
is_refusal_or_key e = is_refusal e

abbrev pub is_format_error : Error → Bool
is_format_error (format_error f) = true
is_format_error e = false

abbrev pub reraise : {A : Type 0} → (Error → Bool) → Result A → Result A
reraise caught (ok a) = ok a
reraise caught (err e) = if caught e then err (archive_error e) else err e

-- `DEFAULT_MODES` and `DEFAULT_PORTS` of a known protocol.
abbrev pub default_mode : String → String
default_mode protocol =
    if str_eq protocol "tls12" then "rsa" else if str_eq protocol "tls13" then "1rtt" else "default"

abbrev pub default_port : String → ℕ
default_port protocol = if str_eq protocol "ssh" then 22222 else 44443

-- `mode or DEFAULT_MODES[protocol]`, which also replaces an empty mode, and the port likewise.
abbrev pub mode_or : Option String → String → String
mode_or none default = default
mode_or (some mode) default = if str_eq mode "" then default else mode

abbrev pub port_or : Option ℕ → ℕ → ℕ
port_or none default = default
port_or (some port) default = if port == 0 then default else port

pub record CaptureReport : Type 0 where
  pub protocol : String
  pub mode : String
  pub profile : ProtocolProfile
  pub accounting : Accounting
  pub bytes_saved_vs_raw : ℤ

pub record ArchiveReport : Type 0 where
  pub server_port : ℕ
  pub profile : ProtocolProfile
  pub accounting : Accounting
  pub compression : String

abbrev pub known : Option Codec → Error → Result Codec
known none e = err e
known (some codec) e = ok codec

unfoldable pub select :
    Codec → String → String → Selector → List CaptureFile → Result (ProtocolProfile × CodecOutput)
select codec protocol mode profile files = do
  selected ← resolve_profile protocol mode profile
  c ← codec.compact mode selected files
  ok (selected, c)

module _ (lib : Library) where
  unfoldable pub inspect_archive : Bytes → Result ArchiveReport
  inspect_archive encoded = do
    c ← reraise is_format_error (read_container lib encoded max_archive_payload)
    ok (record {
      server_port = c.server_port;
      profile = c.profile;
      accounting = archive_accounting c;
      compression = c.compression;
    })

  -- The archive's bytes stand for the file at `output`.
  unfoldable pub store :
      String → String → ProtocolProfile → ℕ → CodecOutput → String → Result (Bytes × CaptureReport)
  store protocol mode selected port c compression =
      let t = totals c.captures in
      do
        refuse_if (not (t.opaque_bytes == length c.opaque)) (archive_fault accounting_mismatch)
        encoded ←
            write_container lib selected port t.raw_capture_bytes t.transport_payload_bytes c.layout
              c.opaque compression
        container ← read_container lib encoded max_archive_payload
        ok (
          encoded,
          record {
            protocol = protocol;
            mode = mode;
            profile = selected;
            accounting =
                capture_accounting t.raw_capture_bytes t.transport_payload_bytes t.opaque_bytes
                  (length encoded) (length c.layout) container.stored_layout_bytes;
            bytes_saved_vs_raw = sub_ℕ t.raw_capture_bytes (length encoded);
          },
        )

module _ (lib : Library) (codecs : String → Option Codec) where
  unfoldable pub compact_capture :
      List CaptureFile
      → String
      → Option String
      → Option ℕ
      → Selector
      → String
      → Result (Bytes × CaptureReport)
  compact_capture files protocol mode port profile compression = do
    codec ← known (codecs protocol) (archive_fault unsupported_protocol)
    (selected, c) ←
        reraise is_refusal
          (select codec protocol (mode_or mode (default_mode protocol)) profile files)
    store lib protocol (mode_or mode (default_mode protocol)) selected
        (port_or port (default_port protocol)) c compression

  unfoldable pub expand : Bytes → Result (List (List Chunk))
  expand encoded = do
    c ← read_container lib encoded max_archive_payload
    codec ← known (codecs c.profile.protocol) key_error
    codec.materialize c.layout c.opaque c.profile.mode

  -- The files' chunks, and the manifest that is written beside them.
  unfoldable pub materialize_archive : Bytes → Result (List (List Chunk) × ArchiveReport)
  materialize_archive encoded = do
    files ← reraise is_refusal_or_key (expand encoded)
    manifest ← inspect_archive lib encoded
    ok (files, manifest)
