-- ===== src/Quic/Flight.antt =====
-- decryptor/quic/derive_quic.py: `_extract_quic_decrypted_handshake`, the server's encrypted flight.
pub mod Joined
use hndl_dev.Prelude.{
  ℕ, zero, suc, ◌+◌, ◌-◌, Bool, true, false, not, Option, none, some, List, [], ◌∷◌, ◌++◌, ltb, leb,
  ◌==◌, if◌then◌else◌, length, take, drop, get_or, bytes_eq,
}
use hndl_dev.Result.{Result, ok, err, ◌>>=◌}
use hndl_dev.Binary.{Bytes}
use hndl_dev.Maps.{insert}
use hndl_dev.Pcap.Fields.{Text, without_colons, unhexlify}
use hndl_dev.Quic.Packets.{is_long, packet_type, iter_coalesced_packets}
use hndl_dev.Quic.Frames.{Segment, parse_crypto_frames, sorted, handshake_length}
use hndl_dev.Quic.Keys.{Crypto, PacketKeys, quic_traffic_keys}
use hndl_dev.Quic.Protection.{decrypt_quic_handshake_pkt}
use hndl_dev.Quic.Search.{QuicRow}

-- `crypto_segments[offset] = contents` for each frame.
unfoldable pub insert_all : List Segment → List Segment → List Segment
insert_all [] segments = segments
insert_all ((offset, contents) ∷ frames) segments =
    insert_all frames (insert offset contents segments)

-- A `ValueError` of the frames passes over the packet.
abbrev pub with_flight : List Segment → Option (Result (List Segment)) → List Segment
with_flight segments none = segments
with_flight segments (some (err e)) = segments
with_flight segments (some (ok frames)) = insert_all frames segments

abbrev pub frames_of : Option Bytes → Option (Result (List Segment))
frames_of none = none
frames_of (some plaintext) = some (parse_crypto_frames plaintext)

unfoldable pub flight_packet : Crypto → PacketKeys → Bytes → List Segment → Result (List Segment)
flight_packet c keys packet segments =
    let opened = (do
      plaintext ← decrypt_quic_handshake_pkt c packet keys
      ok (with_flight segments (frames_of plaintext))) in
    if ltb (length packet) 6
    then ok segments
    else if not (is_long (get_or packet 0 0))
    then ok segments
    else if packet_type (get_or packet 0 0) == 2
    then opened
    else ok segments

unfoldable pub flight_packets :
    Crypto → PacketKeys → List Bytes → List Segment → Result (List Segment)
flight_packets c keys [] segments = ok segments
flight_packets c keys (packet ∷ packets) segments = do
  segments' ← flight_packet c keys packet segments
  flight_packets c keys packets segments'

-- Only what comes from the server's port.
unfoldable pub flight_rows :
    Crypto → PacketKeys → Text → List QuicRow → List Segment → Result (List Segment)
flight_rows c keys port [] segments = ok segments
flight_rows c keys port (row ∷ rows) segments =
    let skipped = flight_rows c keys port rows segments in
    let taken = elim (unhexlify (without_colons row.payload)) as (λ o. Result (List Segment)) [
      | none ↦ skipped
      | some datagram ↦ (do
        segments' ← flight_packets c keys (iter_coalesced_packets datagram) segments
        flight_rows c keys port rows segments')
    ] in
    if bytes_eq row.source port then taken else skipped

unfoldable pub zeros : ℕ → Bytes
zeros zero = []
zeros (suc n) = 0 ∷ zeros n

-- The loop over the sorted segments: a gap is filled with zeros.
abbrev pub extended : Bytes → ℕ → Bytes → Bytes
extended out offset contents =
    if leb offset (length out)
    then (if ltb (length out) (offset + length contents)
        then out ++ drop (length out - offset) contents
        else out)
    else (out ++ zeros (offset - length out)) ++ contents

unfoldable pub fill_stream : Bytes → List Segment → Bytes
fill_stream out [] = out
fill_stream out ((offset, contents) ∷ segments) =
    fill_stream (extended out offset contents) segments

-- A round takes four bytes at least, so as many rounds as there are bytes are enough.
unfoldable pub split_messages : ℕ → Bytes → List Bytes
split_messages zero bytes = []
split_messages (suc fuel) bytes =
    let rest = split_messages fuel (drop (4 + handshake_length bytes) bytes) in
    if ltb (length bytes) 4
    then []
    else if ltb (length bytes) (4 + handshake_length bytes)
    then []
    else take (4 + handshake_length bytes) bytes ∷ rest

-- The messages that are complete; `[]` where there is no segment.
unfoldable pub flight_messages : List Segment → List Bytes
flight_messages segments =
    let stream = fill_stream [] (sorted segments) in split_messages (length stream) stream

unfoldable pub extract_quic_decrypted_handshake :
    Crypto → Text → Bytes → ℕ → List QuicRow → Result (List Bytes)
extract_quic_decrypted_handshake c port server_hs_secret cipher_suite rows = do
  segments ← flight_rows c (quic_traffic_keys c server_hs_secret cipher_suite) port rows []
  ok (flight_messages segments)
