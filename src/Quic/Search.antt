-- ===== src/Quic/Search.antt =====
-- decryptor/quic/derive_quic.py: `_extract_quic_crypto_data`, on the lines that tshark printed. A
-- line with fewer than four fields is passed over by the code, and is no row.
pub mod Hellos
use hndl_dev.Prelude.{
  ℕ, ◌+◌, Bool, true, false, not, Option, none, some, List, [], ◌∷◌, ltb, ◌==◌, if◌then◌else◌,
  length, get_or, bytes_eq,
}
use hndl_dev.Prelude.Endian.{from_bytes_big}
use hndl_dev.Result.{Result, ok, err, ◌>>=◌}
use hndl_dev.Binary.{Bytes}
use hndl_dev.Pcap.Fields.{Text, without_colons, unhexlify}
use hndl_dev.Hello.Cursor.{byte_at, slice_at}
use hndl_dev.Quic.Packets.{is_long, packet_type, iter_coalesced_packets}
use hndl_dev.Quic.Frames.{
  Segment, parse_crypto_frames, set_defaults, reassemble_crypto_prefix, parse_handshake_from_crypto,
}
use hndl_dev.Quic.Keys.{Crypto}
use hndl_dev.Quic.Protection.{decrypt_quic_initial}

pub record QuicRow : Type 0 where
  pub payload : Text
  pub source : Text
  pub destination : Text

-- The variables of the loop.
pub record Search : Type 0 where
  pub client_hello : Option Bytes
  pub server_hello : Option Bytes
  pub client_crypto : List Segment
  pub server_crypto : List Segment
  pub initial_dcid : Option Bytes
  pub retry_scid : Option Bytes

abbrev pub nothing_found : Search
nothing_found = record {
  client_hello = none;
  server_hello = none;
  client_crypto = [];
  server_crypto = [];
  initial_dcid = none;
  retry_scid = none;
}

-- `initial_dcid if initial_dcid else dcid`; an empty identifier counts as none.
abbrev pub keys_dcid : Option Bytes → Bytes → Bytes
keys_dcid none dcid = dcid
keys_dcid (some []) dcid = dcid
keys_dcid (some (b ∷ bs)) dcid = b ∷ bs

-- The message at the front of a side's stream, if it is of the given type.
abbrev pub of_type : ℕ → Option Bytes → Option Bytes
of_type kind none = none
of_type kind (some message) = if get_or message 0 0 == kind then some message else none

unfoldable pub front_message : ℕ → List Segment → Option Bytes
front_message kind segments =
    of_type kind (parse_handshake_from_crypto (reassemble_crypto_prefix segments))

-- `if ch is None: ...`
abbrev pub or_found : Option Bytes → Option Bytes → Option Bytes
or_found none found = found
or_found (some message) found = some message

abbrev pub note_messages : Search → Search
note_messages s = record s {
  client_hello = or_found s.client_hello (front_message 1 s.client_crypto);
  server_hello = or_found s.server_hello (front_message 2 s.server_crypto);
}

-- The frames of a payload; a `ValueError` passes over the packet.
abbrev pub with_frames : Bool → Search → Result (List Segment) → Search
with_frames to_server s (err e) = s
with_frames to_server s (ok frames) =
    if to_server
    then note_messages (record s { client_crypto = set_defaults frames s.client_crypto })
    else note_messages (record s { server_crypto = set_defaults frames s.server_crypto })

abbrev pub with_payload : Bool → Search → Option Bytes → Search
with_payload to_server s none = s
with_payload to_server s (some plaintext) = with_frames to_server s (parse_crypto_frames plaintext)

unfoldable pub take_initial : Crypto → Bool → Bytes → Search → Result Search
take_initial c to_server packet s = do
  dcid_len ← byte_at packet 5
  let dcid = slice_at packet 6 dcid_len
  let noted : Search = if to_server then record s { initial_dcid = some dcid } else s
  plaintext ← decrypt_quic_initial c packet (keys_dcid noted.initial_dcid dcid) (not to_server)
  ok (with_payload to_server noted plaintext)

unfoldable pub take_retry : Bytes → Search → Result Search
take_retry packet s = do
  dcid_len ← byte_at packet 5
  scid_len ← byte_at packet (6 + dcid_len)
  ok (record s { retry_scid = some (slice_at packet (6 + dcid_len + 1) scid_len) })

unfoldable pub take_packet : Crypto → Bool → Bytes → Search → Result Search
take_packet c to_server packet s =
    if ltb (length packet) 6
    then ok s
    else if not (is_long (get_or packet 0 0))
    then ok s
    else if not (from_bytes_big (slice_at packet 1 4) == 1)
    then ok s
    else if packet_type (get_or packet 0 0) == 3
    then take_retry packet s
    else if packet_type (get_or packet 0 0) == 0
    then take_initial c to_server packet s
    else ok s

-- `if ch and sh: return ch, sh`; a message is not empty.
abbrev pub both_found : Search → Bool
both_found s = elim s.client_hello [
  | none ↦ false
  | some ch ↦ elim s.server_hello [ none ↦ false | some sh ↦ true ]
]

unfoldable pub take_packets : Crypto → Bool → List Bytes → Search → Result Search
take_packets c to_server [] s = ok s
take_packets c to_server (packet ∷ packets) s = do
  s' ← take_packet c to_server packet s
  let rest = take_packets c to_server packets s'
  if both_found s' then ok s' else rest

-- `port` is `str(port)`.
unfoldable pub take_row : Crypto → Text → QuicRow → Search → Result Search
take_row c port row s = elim (unhexlify (without_colons row.payload)) [
  | none ↦ ok s
  | some datagram ↦
      take_packets c (bytes_eq row.destination port) (iter_coalesced_packets datagram) s
]

unfoldable pub take_rows : Crypto → Text → List QuicRow → Search → Result Search
take_rows c port [] s = ok s
take_rows c port (row ∷ rows) s = do
  s' ← take_row c port row s
  let rest = take_rows c port rows s'
  if both_found s' then ok s' else rest

-- The two Hellos, or `None` in place of one that was not found.
unfoldable pub extract_quic_crypto_data :
    Crypto → Text → List QuicRow → Result (Option Bytes × Option Bytes)
extract_quic_crypto_data c port rows = do
  s ← take_rows c port rows nothing_found
  ok (s.client_hello, s.server_hello)
