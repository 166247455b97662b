-- ===== src/Quic/Protection.antt =====
-- decryptor/quic/derive_quic.py: `_decrypt_quic_initial` and `_decrypt_quic_handshake_pkt`. `ok none`
-- is a packet that they pass over, and AES-ECB gives the sixteen bytes of a mask.
use hndl_dev.Prelude.{
  ℕ, zero, suc, ◌+◌, ◌-◌, ◌≤◌, ◌≡◌, refl, Bool, true, false, not, Option, none, some, [], ◌∷◌, ◌++◌,
  arith, ltb, leb, ◌&&◌, ◌==◌, if◌then◌else◌, length, take, drop, get_or, Bool-cases, inl, inr,
}
use native.Mathlib.Decide.{dec_lt}
use Prim.Native.Nat.{bit_xor}
use hndl_dev.Prelude.Bits.{low_bits}
use hndl_dev.Prelude.Endian.{from_bytes_big}
use hndl_dev.Result.{Result, ok, err, Error, index_error, ◌>>=◌}
use hndl_dev.Binary.{Bytes}
use hndl_dev.Hello.Cursor.{byte_at, slice_at}
use hndl_dev.Quic.Packets.{is_long, packet_type, varint_at}
use hndl_dev.Quic.Keys.{Crypto, PacketKeys, quic_initial_keys}

-- `xs[i] ^= ys[i]` for each `i`.
unfoldable pub xor_bytes : Bytes → Bytes → Bytes
xor_bytes [] ys = []
xor_bytes (x ∷ xs) [] = x ∷ xs
xor_bytes (x ∷ xs) (y ∷ ys) = bit_xor x y ∷ xor_bytes xs ys

-- `nonce[-(1 + i)] ^= pn_bytes[-(1 + i)]`: the packet number stands at the right end.
unfoldable pub nonce_of : Bytes → Bytes → Bytes
nonce_of iv pn_bytes =
    let front = length iv - length pn_bytes in take front iv ++ xor_bytes (drop front iv) pn_bytes

-- From the mask on: the first byte and the packet number without their protection, and the payload.
unfoldable pub open_masked : Crypto → PacketKeys → Bytes → ℕ → ℕ → Bytes → Option Bytes
open_masked c keys raw pn_offset payload_len mask =
    let first = bit_xor (get_or raw 0 0) (low_bits (get_or mask 0 0) 4) in
    let pn_length = low_bits first 2 + 1 in
    let pn_bytes = xor_bytes (slice_at raw pn_offset pn_length) (drop 1 mask) in
    c.aes_gcm_decrypt keys.key (nonce_of keys.iv pn_bytes)
      (slice_at raw (pn_offset + pn_length) (payload_len - pn_length))
      (first ∷ (slice_at raw 1 (pn_offset - 1) ++ pn_bytes))

-- From the packet number on.
unfoldable pub open_packet : Crypto → PacketKeys → Bytes → ℕ → ℕ → Option Bytes
open_packet c keys raw pn_offset payload_len =
    if ltb (length raw) (pn_offset + 4 + 16)
    then none
    else open_masked c keys raw pn_offset payload_len
        (c.aes_ecb keys.hp (slice_at raw (pn_offset + 4) 16))

-- From the size of the payload on.
abbrev pub open_sized : Crypto → PacketKeys → Bytes → Option (ℕ × ℕ) → Option Bytes
open_sized c keys raw none = none
open_sized c keys raw (some (payload_len, pn_offset)) = open_packet c keys raw pn_offset payload_len

abbrev pub open_after_token : Crypto → PacketKeys → Bytes → Option (ℕ × ℕ) → Option Bytes
open_after_token c keys raw none = none
open_after_token c keys raw (some (token_len, behind)) =
    open_sized c keys raw (varint_at raw (behind + token_len))

-- A long header of version 1 and the given type.
abbrev pub is_packet : ℕ → Bytes → Bool
is_packet kind raw =
    if ltb (length raw) 7
    then false
    else if not (is_long (get_or raw 0 0))
    then false
    else if packet_type (get_or raw 0 0) == kind
    then from_bytes_big (slice_at raw 1 4) == 1
    else false

-- Past both connection identifiers.
unfoldable pub past_identifiers : Bytes → Result ℕ
past_identifiers raw = do
  dcid_len ← byte_at raw 5
  scid_len ← byte_at raw (6 + dcid_len)
  ok (6 + dcid_len + 1 + scid_len)

unfoldable pub decrypt_quic_initial : Crypto → Bytes → Bytes → Bool → Result (Option Bytes)
decrypt_quic_initial c raw dcid_for_keys is_server =
    let opened = (do
      pos ← past_identifiers raw
      ok (
          open_after_token c (quic_initial_keys c dcid_for_keys is_server) raw
            (varint_at raw pos))) in
    if is_packet 0 raw then opened else ok none

unfoldable pub decrypt_quic_handshake_pkt : Crypto → Bytes → PacketKeys → Result (Option Bytes)
decrypt_quic_handshake_pkt c raw keys =
    let opened = (do pos ← past_identifiers raw; ok (open_sized c keys raw (varint_at raw pos))) in
    if is_packet 2 raw then opened else ok none

byte_at-behind :
    (raw : Bytes) (position : ℕ) → length raw ≤ position → byte_at raw position ≡ err index_error
unfolding byte_at
byte_at-behind [] position h = refl
byte_at-behind (b ∷ raw) zero h = absurd (omega arith)
byte_at-behind (b ∷ raw) (suc position) h = byte_at-behind raw position (omega arith)

byte_at-get_or :
    (raw : Bytes) (position : ℕ)
    → suc position ≤ length raw
    → byte_at raw position ≡ ok (get_or raw position 0)
unfolding byte_at
byte_at-get_or [] position h = absurd (omega arith)
byte_at-get_or (b ∷ raw) zero h = refl
byte_at-get_or (b ∷ raw) (suc position) h = byte_at-get_or raw position (omega arith)

-- What a call raises.
abbrev pub raised : {A : Type 0} → Result A → Option Error
raised (ok a) = none
raised (err e) = some e

-- The first connection identifier ends at the packet's end or behind it.
abbrev pub cuts_identifier : Bytes → Bool
cuts_identifier raw = leb (length raw) (6 + get_or raw 5 0)

past_identifiers-raised :
    {A : Type 0} (raw : Bytes) (opened : ℕ → A)
    → 7 ≤ length raw
    → raised (past_identifiers raw >>= λ pos. ok (opened pos))
      ≡ (if cuts_identifier raw then some index_error else none)
unfolding past_identifiers
past_identifiers-raised raw opened size = elim (dec_lt (6 + get_or raw 5 0) (length raw)) [
  | yes inside ↦
      rw (byte_at-get_or raw 5 (omega arith), byte_at-get_or raw (6 + get_or raw 5 0) inside)
        (ground arith)
  | no over ↦
      rw (byte_at-get_or raw 5 (omega arith), byte_at-behind raw (6 + get_or raw 5 0) (omega arith))
        (ground arith)
]

is_packet-size : (kind : ℕ) (raw : Bytes) → is_packet kind raw ≡ true → 7 ≤ length raw
is_packet-size kind raw h = ground arith

pub decrypt_quic_raised :
    (c : Crypto) (raw dcid : Bytes) (is_server : Bool) (keys : PacketKeys)
    → (raised (decrypt_quic_initial c raw dcid is_server)
        ≡ (if is_packet 0 raw && cuts_identifier raw then some index_error else none))
      × (raised (decrypt_quic_handshake_pkt c raw keys)
          ≡ (if is_packet 2 raw && cuts_identifier raw then some index_error else none))
unfolding decrypt_quic_initial decrypt_quic_handshake_pkt
decrypt_quic_raised c raw dcid is_server keys = (
  elim (Bool-cases (is_packet 0 raw)) [
    | inl initial ↦ rw initial (past_identifiers-raised raw _ (is_packet-size 0 raw initial))
    | inr other ↦ rw other refl
  ],
  elim (Bool-cases (is_packet 2 raw)) [
    | inl handshake ↦ rw handshake (past_identifiers-raised raw _ (is_packet-size 2 raw handshake))
    | inr other ↦ rw other refl
  ],
)
