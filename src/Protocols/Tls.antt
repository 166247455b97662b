-- ===== src/Protocols/Tls.antt =====
-- minarx/protocols/tls12.py and tls13.py: `compact` and its `validate`. The metadata that describe the
-- policy are constants, and stay out.
pub mod Unique
use text.Mathlib.Text.{◌==◌ as str_eq}
use hndl_dev.Prelude.{
  ℕ, Bool, true, false, not, ◌&&◌, ◌||◌, Option, none, some, List, [], ◌∷◌, ◌==◌, if◌then◌else◌,
  String,
}
use hndl_dev.Result.{
  Result, ok, err, value_error, unsupported_mode, cipher_suite_mismatch, ems_mismatch,
  resumption_mismatch, early_data_mismatch, no_x25519_share, unexpected_key_share, refuse_if, ◌>>=◌,
  ◌>>◌,
}
use hndl_dev.Pcap.{Chunk}
use hndl_dev.Chunks.{CaptureFile}
use hndl_dev.Profiles.Registry.{ProtocolProfile}
use hndl_dev.Hello.Parameters.{HelloParameters, ServerParameters, tls_hello_parameters}
use hndl_dev.Tls.Compact.{TlsCompacted, compact_tls_pcaps}

-- `==` of values that may be `None`.
abbrev pub same_number : Option ℕ → Option ℕ → Bool
same_number none none = true
same_number none (some b) = false
same_number (some a) none = false
same_number (some a) (some b) = a == b

abbrev pub same_flag : Bool → Bool → Bool
same_flag true b = b
same_flag false true = false
same_flag false false = true

abbrev pub is_flag : Bool → Option Bool → Bool
is_flag a none = false
is_flag a (some b) = same_flag a b

-- `parameters.get(...)` with the default of each key.
abbrev pub suite_of : Option ServerParameters → Option ℕ
suite_of none = none
suite_of (some server) = some server.cipher_suite_id

abbrev pub ems_of : Option ServerParameters → Bool
ems_of none = false
ems_of (some server) = server.extended_master_secret

abbrev pub resumption_of : Option ServerParameters → Bool
resumption_of none = false
resumption_of (some server) = server.resumption_selected

abbrev pub share_of : Option ServerParameters → Option ℕ
share_of none = none
share_of (some server) = server.server_key_share_group

unfoldable pub check_tls12 : ProtocolProfile → HelloParameters → Result (Unit {0})
check_tls12 profile parameters = do
  refuse_if (not (same_number (suite_of parameters.server) profile.cipher_suite_id))
      (value_error cipher_suite_mismatch)
  refuse_if (not (is_flag (ems_of parameters.server) profile.extended_master_secret))
      (value_error ems_mismatch)

unfoldable pub validate_tls12 : ProtocolProfile → List Chunk → ℕ → Result (Unit {0})
validate_tls12 profile chunks index = do
  parameters ← tls_hello_parameters chunks
  check_tls12 profile parameters

unfoldable pub compact_tls12 : String → ProtocolProfile → List CaptureFile → Result TlsCompacted
compact_tls12 mode profile files = do
  refuse_if (not (str_eq mode "rsa")) (value_error unsupported_mode)
  compact_tls_pcaps (validate_tls12 profile) files

-- What TLS 1.3 expects of the file with this index.
abbrev pub expected_resumption : ProtocolProfile → String → ℕ → Bool
expected_resumption profile mode index =
    not (str_eq profile.resumption "none") && (not (str_eq mode "0rtt") || index == 1)

abbrev pub expected_early_data : ProtocolProfile → String → ℕ → Bool
expected_early_data profile mode index = profile.early_data && (str_eq mode "0rtt" && index == 1)

abbrev pub expected_keyshare : ProtocolProfile → String → ℕ → Bool
expected_keyshare profile mode index =
    str_eq mode "1rtt"
    || (str_eq mode "0rtt" && (index == 0 || str_eq profile.resumption "ticket-psk-dhe"))

abbrev pub no_number : Option ℕ → Bool
no_number none = true
no_number (some n) = false

unfoldable pub check_tls13 : ProtocolProfile → String → ℕ → HelloParameters → Result (Unit {0})
check_tls13 profile mode index parameters = do
  refuse_if (not (same_number (suite_of parameters.server) profile.cipher_suite_id))
      (value_error cipher_suite_mismatch)
  refuse_if
      (not (same_flag (resumption_of parameters.server) (expected_resumption profile mode index)))
      (value_error resumption_mismatch)
  refuse_if (not (same_flag parameters.early_data_offered (expected_early_data profile mode index)))
      (value_error early_data_mismatch)
  refuse_if
      (expected_keyshare profile mode index
        && not (same_number (share_of parameters.server) (some 0x001d)))
      (value_error no_x25519_share)
  refuse_if
      (not (expected_keyshare profile mode index) && not (no_number (share_of parameters.server)))
      (value_error unexpected_key_share)

unfoldable pub validate_tls13 : ProtocolProfile → String → List Chunk → ℕ → Result (Unit {0})
validate_tls13 profile mode chunks index = do
  parameters ← tls_hello_parameters chunks
  check_tls13 profile mode index parameters

-- `mode not in NAMES`
abbrev pub is_tls13_mode : String → Bool
is_tls13_mode mode = str_eq mode "1rtt" || (str_eq mode "0rtt" || str_eq mode "external-psk")

unfoldable pub compact_tls13 : String → ProtocolProfile → List CaptureFile → Result TlsCompacted
compact_tls13 mode profile files = do
  refuse_if (not (is_tls13_mode mode)) (value_error unsupported_mode)
  compact_tls_pcaps (validate_tls13 profile mode) files
