-- ===== src/Protocols/Quic.antt =====
-- minarx/protocols/quic.py: `compact`. The ciphersuites that `extract_quic_cipher_suites` found are an
-- argument.
use text.Mathlib.Text.{◌==◌ as str_eq}
use hndl_dev.Prelude.{
  ℕ, Bool, false, not, ◌&&◌, ◌||◌, Option, none, some, List, [], ◌∷◌, leb, ◌==◌, if◌then◌else◌,
  length, get_or, bytes_eq, String,
}
use hndl_dev.Prelude.Endian.{from_bytes_big}
use hndl_dev.Result.{
  Result, value_error, unsupported_mode, no_quic_version, quic_suite_mismatch, refuse_if, ◌>>◌,
}
use hndl_dev.Pcap.{Chunk}
use hndl_dev.Chunks.{CaptureFile, Compacted, keep, compact_chunk_pcaps}
use hndl_dev.Hello.Cursor.{slice_at}
use hndl_dev.Quic.Packets.{is_long}
use hndl_dev.Profiles.Registry.{ProtocolProfile}

-- The version of a datagram with a long header.
abbrev pub versions : List Chunk → List ℕ
versions [] = []
versions (c ∷ chunks) =
    let rest = versions chunks in
    if leb 5 (length c.contents) && is_long (get_or c.contents 0 0)
    then from_bytes_big (slice_at c.contents 1 4) ∷ rest
    else rest

-- `value in numbers`, where the value may be `None`.
abbrev pub holds : Option ℕ → List ℕ → Bool
holds none numbers = false
holds (some n) [] = false
holds (some n) (m ∷ numbers) = m == n || holds (some n) numbers

-- The local readiness probe is one zero byte.
abbrev pub no_probe : Chunk → Bool
no_probe c = not (bytes_eq c.contents (0 ∷ []))

-- `file` is the one capture of the protocol.
unfoldable pub compact_quic : String → ProtocolProfile → CaptureFile → List ℕ → Result Compacted
compact_quic mode profile file cipher_suites = do
  refuse_if (not (str_eq mode "default")) (value_error unsupported_mode)
  refuse_if (not (holds profile.quic_version (versions file.chunks))) (value_error no_quic_version)
  refuse_if (not (holds profile.cipher_suite_id cipher_suites)) (value_error quic_suite_mismatch)
  compact_chunk_pcaps (keep no_probe) (file ∷ [])
