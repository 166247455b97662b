-- ===== src/Result.antt =====
-- The exceptions of the archive code, and the result of a function that may raise one. A
-- constructor of a fault type is one `raise` statement of the source.
use hndl_dev.Prelude.{Bool, true, false, ◌≡◌, refl}

-- minarx/binary.py and minarx/protocols/common.py
pub data DecodeFault : Type 0 where
  truncated_byte integer_exceeds_limit overlong_uvarint truncated_field : DecodeFault
  trailing_payload_bytes invalid_record_code wrong_capture_count invalid_direction : DecodeFault

-- minarx/format.py
pub data FormatFault : Type 0 where
  too_short digest_mismatch bad_magic unsupported_version unknown_profile : FormatFault
  unknown_compression unsupported_flags invalid_port inconsistent_counters : FormatFault
  section_too_large length_mismatch invalid_deflate invalid_lzma invalid_payload : FormatFault
  layout_length_mismatch opaque_length_mismatch : FormatFault

-- minarx/pcap.py
pub data PcapFault : Type 0 where
  invalid_fields several_flows tcp_gap no_payload datagram_too_large : PcapFault

-- the plain `ValueError`s
pub data ValueFault : Type 0 where
  invalid_record_length truncated_stream no_packets_retained : ValueFault
  no_profile_id port_out_of_range counters_inconsistent layout_too_large : ValueFault
  unknown_compression_name unknown_transport no_default_profile : ValueFault
  profile_unknown profile_for_other_mode : ValueFault
  invalid_handshake_length hello_retry_request no_client_hello : ValueFault
  truncated_server_hello truncated_cipher_suite truncated_hello : ValueFault
  truncated_cipher_suites truncated_compression truncated_extensions : ValueFault
  truncated_varint unsupported_mode cipher_suite_mismatch ems_mismatch : ValueFault
  resumption_mismatch early_data_mismatch no_x25519_share unexpected_key_share : ValueFault
  no_quic_version quic_suite_mismatch : ValueFault
  no_identification invalid_ssh_length invalid_ssh_padding non_ascii_names : ValueFault
  truncated_kexinit no_kexinit no_common_name key_exchange_mismatch ssh_cipher_mismatch : ValueFault
  extensions_exceed_message truncated_extension malformed_extensions : ValueFault

-- archive_policy.py: `ManifestError` and `RuntimeError`
pub data ManifestFault : Type 0 where
  unsupported_wire_archive truncated_wire_header invalid_wire_event : ManifestFault
  trailing_wire_data : ManifestFault

pub data RuntimeFault : Type 0 where
  no_payload_stream tcp_gap_or_reordered no_tcp_payload no_udp_payload : RuntimeFault
  non_tls_data tls_record_too_long ended_inside_record no_tls_records : RuntimeFault
  no_quic_packets incomplete_ssh_exchange : RuntimeFault

-- minarx/archive.py: the `ArchiveError`s without a cause
pub data ArchiveFault : Type 0 where
  unsupported_protocol accounting_mismatch : ArchiveFault

-- `archive_error e` is `raise ArchiveError(str(exc)) from exc`, and `key_error` what `table[key]`
-- raises without the key. `struct_error` is what `struct.pack` raises on a value that does not fit
-- its field, and `index_error` what `data[i]` raises behind the end.
pub data Error : Type 0 where
  decode_error : DecodeFault → Error
  format_error : FormatFault → Error
  pcap_error : PcapFault → Error
  value_error : ValueFault → Error
  manifest_error : ManifestFault → Error
  runtime_error : RuntimeFault → Error
  archive_fault : ArchiveFault → Error
  archive_error : Error → Error
  struct_error index_error key_error : Error

pub data Result {ℓ} (A : Type ℓ) : Type ℓ where
  ok : A → Result A
  err : Error → Result A

module _ {ℓ κ} {A : Type ℓ} {B : Type κ} where
  infixl 5 ◌>>=◌
  abbrev pub ◌>>=◌ : Result A → (A → Result B) → Result B
  err raised >>= next = err raised
  ok value >>= next = next value

  -- A bind that succeeds has the results of both of its parts.
  pub >>=-eq-ok :
      (r : Result A) (next : A → Result B) {y : B}
      → (r >>= next) ≡ ok y
      → (x : A) × (r ≡ ok x) × (next x ≡ ok y)
  >>=-eq-ok (err raised) next h = cc
  >>=-eq-ok (ok value) next h = (value, refl, h)

-- A check before the rest.
infixl 5 ◌>>◌
abbrev pub ◌>>◌ {ℓ} : {B : Type ℓ} → Result (Unit {0}) → Result B → Result B
check >> rest = check >>= λ _. rest

-- `if refused: raise e`
abbrev pub refuse_if : Bool → Error → Result (Unit {0})
refuse_if true e = err e
refuse_if false e = ok tt

-- `if not accepted: raise e`
abbrev pub require : Bool → Error → Result (Unit {0})
require true e = ok tt
require false e = err e

pub require-then {ℓ} :
    {B : Type ℓ} (b : Bool) (e : Error) (rest : Result B) {x : B}
    → (require b e >> rest) ≡ ok x
    → (b ≡ true) × (rest ≡ ok x)
require-then true e rest h = (refl, h)
require-then false e rest h = cc

pub refuse-then {ℓ} :
    {B : Type ℓ} (b : Bool) (e : Error) (rest : Result B) {x : B}
    → (refuse_if b e >> rest) ≡ ok x
    → (b ≡ false) × (rest ≡ ok x)
refuse-then true e rest h = cc
refuse-then false e rest h = (refl, h)

pub err≢ok {ℓ} : {A : Type ℓ} {e : Error} {a : A} → err e ≡ ok a → ⊥
err≢ok h = cc
