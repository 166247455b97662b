-- ===== src/Profiles/Registry.antt =====
-- minarx/profiles.py: the entries of `PROFILES`.
use hndl_dev.Prelude.{ℕ, String, Bool, true, false, Option, none, some, List, [], ◌∷◌}

pub record ProtocolProfile : Type 0 where
  pub name : String
  pub category : String
  pub protocol : String
  pub mode : String
  pub cipher_suite : String
  pub cipher_suite_id : Option ℕ
  pub key_exchange : String
  pub hash_name : String
  pub resumption : String
  pub early_data : Bool
  pub extended_master_secret : Option Bool
  pub quic_version : Option ℕ
  pub notes : String

abbrev pub tls12_rsa_aes128_sha_noems : ProtocolProfile
tls12_rsa_aes128_sha_noems = record {
  name = "tls12-rsa-aes128-sha-noems";
  category = "TLS 1.2 RSA / no EMS";
  protocol = "tls12";
  mode = "rsa";
  cipher_suite = "TLS_RSA_WITH_AES_128_CBC_SHA";
  cipher_suite_id = some 0x002f;
  key_exchange = "rsa-key-transport";
  hash_name = "sha256";
  resumption = "none";
  early_data = false;
  extended_master_secret = some false;
  quic_version = none;
  notes = "";
}

abbrev pub tls12_rsa_aes128_sha_ems : ProtocolProfile
tls12_rsa_aes128_sha_ems = record {
  name = "tls12-rsa-aes128-sha-ems";
  category = "TLS 1.2 RSA / EMS";
  protocol = "tls12";
  mode = "rsa";
  cipher_suite = "TLS_RSA_WITH_AES_128_CBC_SHA";
  cipher_suite_id = some 0x002f;
  key_exchange = "rsa-key-transport";
  hash_name = "sha256";
  resumption = "none";
  early_data = false;
  extended_master_secret = some true;
  quic_version = none;
  notes = "";
}

abbrev pub tls12_rsa_aes128gcm_ems : ProtocolProfile
tls12_rsa_aes128gcm_ems = record {
  name = "tls12-rsa-aes128gcm-ems";
  category = "TLS 1.2 RSA / EMS";
  protocol = "tls12";
  mode = "rsa";
  cipher_suite = "TLS_RSA_WITH_AES_128_GCM_SHA256";
  cipher_suite_id = some 0x009c;
  key_exchange = "rsa-key-transport";
  hash_name = "sha256";
  resumption = "none";
  early_data = false;
  extended_master_secret = some true;
  quic_version = none;
  notes = "";
}

abbrev pub tls13_full_aes128gcm : ProtocolProfile
tls13_full_aes128gcm = record {
  name = "tls13-full-aes128gcm";
  category = "TLS 1.3 full handshake";
  protocol = "tls13";
  mode = "1rtt";
  cipher_suite = "TLS_AES_128_GCM_SHA256";
  cipher_suite_id = some 0x1301;
  key_exchange = "x25519";
  hash_name = "sha256";
  resumption = "none";
  early_data = false;
  extended_master_secret = none;
  quic_version = none;
  notes = "";
}

abbrev pub tls13_full_aes256gcm : ProtocolProfile
tls13_full_aes256gcm = record {
  name = "tls13-full-aes256gcm";
  category = "TLS 1.3 full handshake";
  protocol = "tls13";
  mode = "1rtt";
  cipher_suite = "TLS_AES_256_GCM_SHA384";
  cipher_suite_id = some 0x1302;
  key_exchange = "x25519";
  hash_name = "sha384";
  resumption = "none";
  early_data = false;
  extended_master_secret = none;
  quic_version = none;
  notes = "";
}

abbrev pub tls13_full_chacha20 : ProtocolProfile
tls13_full_chacha20 = record {
  name = "tls13-full-chacha20";
  category = "TLS 1.3 full handshake";
  protocol = "tls13";
  mode = "1rtt";
  cipher_suite = "TLS_CHACHA20_POLY1305_SHA256";
  cipher_suite_id = some 0x1303;
  key_exchange = "x25519";
  hash_name = "sha256";
  resumption = "none";
  early_data = false;
  extended_master_secret = none;
  quic_version = none;
  notes = "";
}

abbrev pub tls13_ticket_zero_rtt_aes128gcm : ProtocolProfile
tls13_ticket_zero_rtt_aes128gcm = record {
  name = "tls13-ticket-0rtt-aes128gcm";
  category = "TLS 1.3 resumption / 0-RTT";
  protocol = "tls13";
  mode = "0rtt";
  cipher_suite = "TLS_AES_128_GCM_SHA256";
  cipher_suite_id = some 0x1301;
  key_exchange = "resumption-psk+x25519";
  hash_name = "sha256";
  resumption = "ticket-psk-dhe";
  early_data = true;
  extended_master_secret = none;
  quic_version = none;
  notes = "";
}

abbrev pub quic_v1_aes128gcm : ProtocolProfile
quic_v1_aes128gcm = record {
  name = "quic-v1-aes128gcm";
  category = "QUIC v1";
  protocol = "quic";
  mode = "default";
  cipher_suite = "TLS_AES_128_GCM_SHA256";
  cipher_suite_id = some 0x1301;
  key_exchange = "x25519";
  hash_name = "sha256";
  resumption = "none";
  early_data = false;
  extended_master_secret = none;
  quic_version = some 1;
  notes = "";
}

abbrev pub quic_v1_aes256gcm : ProtocolProfile
quic_v1_aes256gcm = record {
  name = "quic-v1-aes256gcm";
  category = "QUIC v1";
  protocol = "quic";
  mode = "default";
  cipher_suite = "TLS_AES_256_GCM_SHA384";
  cipher_suite_id = some 0x1302;
  key_exchange = "x25519";
  hash_name = "sha384";
  resumption = "none";
  early_data = false;
  extended_master_secret = none;
  quic_version = some 1;
  notes = "";
}

abbrev pub quic_v1_chacha20 : ProtocolProfile
quic_v1_chacha20 = record {
  name = "quic-v1-chacha20";
  category = "QUIC v1";
  protocol = "quic";
  mode = "default";
  cipher_suite = "TLS_CHACHA20_POLY1305_SHA256";
  cipher_suite_id = some 0x1303;
  key_exchange = "x25519";
  hash_name = "sha256";
  resumption = "none";
  early_data = false;
  extended_master_secret = none;
  quic_version = some 1;
  notes = "";
}

abbrev pub ssh_curve25519_chacha20 : ProtocolProfile
ssh_curve25519_chacha20 = record {
  name = "ssh-curve25519-chacha20";
  category = "SSH initial/rekey stream";
  protocol = "ssh";
  mode = "default";
  cipher_suite = "chacha20-poly1305@openssh.com";
  cipher_suite_id = none;
  key_exchange = "curve25519-sha256";
  hash_name = "sha256";
  resumption = "none";
  early_data = false;
  extended_master_secret = none;
  quic_version = none;
  notes = "";
}

abbrev pub ssh_curve25519_aes128gcm : ProtocolProfile
ssh_curve25519_aes128gcm = record {
  name = "ssh-curve25519-aes128gcm";
  category = "SSH initial/rekey stream";
  protocol = "ssh";
  mode = "default";
  cipher_suite = "aes128-gcm@openssh.com";
  cipher_suite_id = none;
  key_exchange = "curve25519-sha256";
  hash_name = "sha256";
  resumption = "none";
  early_data = false;
  extended_master_secret = none;
  quic_version = none;
  notes = "";
}

abbrev pub tls13_ticket_zero_rtt_aes256gcm : ProtocolProfile
tls13_ticket_zero_rtt_aes256gcm = record {
  name = "tls13-ticket-0rtt-aes256gcm";
  category = "TLS 1.3 ticket resumption / 0-RTT (PSK-DHE)";
  protocol = "tls13";
  mode = "0rtt";
  cipher_suite = "TLS_AES_256_GCM_SHA384";
  cipher_suite_id = some 0x1302;
  key_exchange = "resumption-psk+x25519";
  hash_name = "sha384";
  resumption = "ticket-psk-dhe";
  early_data = true;
  extended_master_secret = none;
  quic_version = none;
  notes = "";
}

abbrev pub tls13_ticket_zero_rtt_psk_only_aes256gcm : ProtocolProfile
tls13_ticket_zero_rtt_psk_only_aes256gcm = record {
  name = "tls13-ticket-0rtt-psk-only-aes256gcm";
  category = "TLS 1.3 ticket resumption / 0-RTT (PSK-only)";
  protocol = "tls13";
  mode = "0rtt";
  cipher_suite = "TLS_AES_256_GCM_SHA384";
  cipher_suite_id = some 0x1302;
  key_exchange = "bootstrap-x25519;resumption-psk-only";
  hash_name = "sha384";
  resumption = "ticket-psk-only";
  early_data = true;
  extended_master_secret = none;
  quic_version = none;
  notes = "";
}

abbrev pub tls13_external_psk_aes256gcm : ProtocolProfile
tls13_external_psk_aes256gcm = record {
  name = "tls13-external-psk-aes256gcm";
  category = "TLS 1.3 external PSK (no DHE)";
  protocol = "tls13";
  mode = "external-psk";
  cipher_suite = "TLS_AES_256_GCM_SHA384";
  cipher_suite_id = some 0x1302;
  key_exchange = "external-psk-only";
  hash_name = "sha384";
  resumption = "external-psk";
  early_data = false;
  extended_master_secret = none;
  quic_version = none;
  notes = "";
}

abbrev pub tls13_external_psk_chacha20 : ProtocolProfile
tls13_external_psk_chacha20 = record {
  name = "tls13-external-psk-chacha20";
  category = "TLS 1.3 external PSK (no DHE)";
  protocol = "tls13";
  mode = "external-psk";
  cipher_suite = "TLS_CHACHA20_POLY1305_SHA256";
  cipher_suite_id = some 0x1303;
  key_exchange = "external-psk-only";
  hash_name = "sha256";
  resumption = "external-psk";
  early_data = false;
  extended_master_secret = none;
  quic_version = none;
  notes = "";
}

-- `PROFILES.values()`, in order; the keys are the names.
unfoldable pub profiles : List ProtocolProfile
profiles =
    tls12_rsa_aes128_sha_noems ∷ tls12_rsa_aes128_sha_ems ∷ tls12_rsa_aes128gcm_ems
    ∷ tls13_full_aes128gcm ∷ tls13_full_aes256gcm ∷ tls13_full_chacha20
    ∷ tls13_ticket_zero_rtt_aes128gcm ∷ quic_v1_aes128gcm ∷ quic_v1_aes256gcm ∷ quic_v1_chacha20
    ∷ ssh_curve25519_chacha20 ∷ ssh_curve25519_aes128gcm ∷ tls13_ticket_zero_rtt_aes256gcm
    ∷ tls13_ticket_zero_rtt_psk_only_aes256gcm ∷ tls13_external_psk_aes256gcm
    ∷ tls13_external_psk_chacha20 ∷ []
