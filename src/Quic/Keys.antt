-- ===== src/Quic/Keys.antt =====
-- decryptor/quic/derive_quic.py: the keys of a QUIC packet. What the `cryptography` package and
-- `hmac` compute is a parameter. Every caller passes a constant label and a length below 2 ^ 16, so
-- that neither `to_bytes` nor `bytes` raises.
use hndl_dev.Prelude.{ℕ, Bool, Option, [], ◌∷◌, ◌++◌, ◌==◌, if◌then◌else◌, length}
use hndl_dev.Prelude.Endian.{to_bytes_big}
use hndl_dev.Binary.{Bytes}

pub data Hash : Type 0 where
  sha256 sha384 : Hash

-- `aes_gcm_decrypt key nonce ciphertext associated`; `none` is any exception.
pub record Crypto : Type 0 where
  pub hmac_sha256 : (key message : Bytes) → Bytes
  pub hkdf_expand : Hash → (secret info : Bytes) → ℕ → Bytes
  pub aes_ecb : (key block : Bytes) → Bytes
  pub aes_gcm_decrypt : (key nonce ciphertext associated : Bytes) → Option Bytes

-- `_QUIC_V1_INITIAL_SALT`
abbrev pub initial_salt : Bytes
initial_salt =
    56 ∷ 118 ∷ 44 ∷ 247 ∷ 245 ∷ 89 ∷ 52 ∷ 179 ∷ 77 ∷ 23 ∷ 154 ∷ 230 ∷ 164 ∷ 200 ∷ 12 ∷ 173 ∷ 204
    ∷ 187 ∷ 127 ∷ 10 ∷ []

-- b"tls13 ", b"server in", b"client in", b"quic key", b"quic iv", b"quic hp"
abbrev pub tls13_prefix : Bytes
tls13_prefix = 116 ∷ 108 ∷ 115 ∷ 49 ∷ 51 ∷ 32 ∷ []

abbrev pub server_in : Bytes
server_in = 115 ∷ 101 ∷ 114 ∷ 118 ∷ 101 ∷ 114 ∷ 32 ∷ 105 ∷ 110 ∷ []

abbrev pub client_in : Bytes
client_in = 99 ∷ 108 ∷ 105 ∷ 101 ∷ 110 ∷ 116 ∷ 32 ∷ 105 ∷ 110 ∷ []

abbrev pub quic_key : Bytes
quic_key = 113 ∷ 117 ∷ 105 ∷ 99 ∷ 32 ∷ 107 ∷ 101 ∷ 121 ∷ []

abbrev pub quic_iv : Bytes
quic_iv = 113 ∷ 117 ∷ 105 ∷ 99 ∷ 32 ∷ 105 ∷ 118 ∷ []

abbrev pub quic_hp : Bytes
quic_hp = 113 ∷ 117 ∷ 105 ∷ 99 ∷ 32 ∷ 104 ∷ 112 ∷ []

unfoldable pub hkdf_expand_label : Crypto → (secret label context : Bytes) → ℕ → Bytes
hkdf_expand_label c secret label context size =
    let full_label = tls13_prefix ++ label in
    c.hkdf_expand sha256 secret
      (to_bytes_big 2 size ++ (length full_label ∷ (full_label ++ (length context ∷ context)))) size

-- `(key, iv, hp)`
pub record PacketKeys : Type 0 where
  pub key : Bytes
  pub iv : Bytes
  pub hp : Bytes

unfoldable pub quic_initial_keys : Crypto → Bytes → Bool → PacketKeys
quic_initial_keys c dcid is_server =
    let initial_secret = c.hmac_sha256 initial_salt dcid in
    let secret =
      hkdf_expand_label c initial_secret (if is_server then server_in else client_in) [] 32 in
    record {
      key = hkdf_expand_label c secret quic_key [] 16;
      iv = hkdf_expand_label c secret quic_iv [] 12;
      hp = hkdf_expand_label c secret quic_hp [] 16;
    }

-- The size of a suite's keys, and its hash.
abbrev pub suite_sizes : ℕ → ℕ × Hash
suite_sizes cipher_suite =
    if cipher_suite == 0x1302
    then (32, sha384)
    else if cipher_suite == 0x1303
    then (32, sha256)
    else (16, sha256)

-- `_expand`
unfoldable pub expand : Crypto → Hash → (secret label : Bytes) → ℕ → Bytes
expand c hash secret label size =
    let full_label = tls13_prefix ++ label in
    c.hkdf_expand hash secret
      (to_bytes_big 2 size ++ (length full_label ∷ (full_label ++ (0 ∷ [])))) size

unfoldable pub quic_traffic_keys : Crypto → Bytes → ℕ → PacketKeys
quic_traffic_keys c traffic_secret cipher_suite =
    let sizes = suite_sizes cipher_suite in
    record {
      key = expand c sizes.1 traffic_secret quic_key sizes.0;
      iv = expand c sizes.1 traffic_secret quic_iv 12;
      hp = expand c sizes.1 traffic_secret quic_hp sizes.0;
    }
