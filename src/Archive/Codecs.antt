-- ===== src/Archive/Codecs.antt =====
-- minarx/protocols: the entries of `CODECS` for TLS.
use text.Mathlib.Text.{◌==◌ as str_eq}
use hndl_dev.Prelude.{ℕ, String, Option, none, some, List, map, if◌then◌else◌}
use hndl_dev.Result.{Result, ok, err, key_error, ◌>>=◌}
use hndl_dev.Binary.{Bytes}
use hndl_dev.Pcap.{Chunk}
use hndl_dev.Records.Encode.{RecordStats}
use hndl_dev.Tls.{materialize_tls_pcaps}
use hndl_dev.Tls.Compact.{TlsCompacted}
use hndl_dev.Protocols.Tls.{compact_tls12, compact_tls13}
use hndl_dev.Archive.{CaptureCounters, CodecOutput, Codec}

abbrev pub tls_counters : RecordStats × ℕ → CaptureCounters
tls_counters (stats, size) = record {
  raw_capture_bytes = size;
  transport_payload_bytes = stats.transport_payload_bytes;
  opaque_bytes = stats.opaque_bytes;
}

abbrev pub tls_encoded : TlsCompacted → CodecOutput
tls_encoded t = record {
  layout = t.out;
  opaque = t.opaque;
  captures = map tls_counters t.measurements;
}

-- The number of files in `PCAP_NAMES` of TLS 1.2, and in `NAMES[mode]` of TLS 1.3.
abbrev pub tls13_names : String → Option ℕ
tls13_names mode =
    if str_eq mode "1rtt"
    then some 1
    else if str_eq mode "0rtt"
    then some 2
    else if str_eq mode "external-psk"
    then some 1
    else none

abbrev pub materialize_tls13 : Bytes → Bytes → Option ℕ → Result (List (List Chunk))
materialize_tls13 layout opaque none = err key_error
materialize_tls13 layout opaque (some names) = materialize_tls_pcaps layout opaque names

abbrev pub tls12_codec : Codec
tls12_codec = record {
  compact = λ mode profile files. compact_tls12 mode profile files >>= λ t. ok (tls_encoded t);
  materialize = λ layout opaque mode. materialize_tls_pcaps layout opaque 1;
}

abbrev pub tls13_codec : Codec
tls13_codec = record {
  compact = λ mode profile files. compact_tls13 mode profile files >>= λ t. ok (tls_encoded t);
  materialize = λ layout opaque mode. materialize_tls13 layout opaque (tls13_names mode);
}
