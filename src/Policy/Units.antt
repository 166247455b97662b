-- ===== src/Policy/Units.antt =====
-- archive_policy.py: `_quic_packet_events` and `_ssh_stream_events`.
pub mod Streams
use hndl_dev.Prelude.{
  ℕ, Bool, true, false, not, ◌&&◌, ◌||◌, List, [], ◌∷◌, ◌++◌, ltb, ◌==◌, if◌then◌else◌, length,
  take, get_or, bytes_eq,
}
use hndl_dev.Prelude.Endian.{from_bytes_big}
use hndl_dev.Result.{Result, ok, err, runtime_error, no_quic_packets, incomplete_ssh_exchange}
use hndl_dev.Binary.{Bytes}
use hndl_dev.Hello.Cursor.{slice_at}
use hndl_dev.Quic.Packets.{is_long, packet_type, iter_coalesced_packets}
use hndl_dev.Policy.{WireEvent, side_bytes}

-- A packet that the archive keeps: of version 1 where its header is long, no client Handshake, and
-- no server packet with a short header.
unfoldable pub kept_packet : Bool → Bytes → Bool
kept_packet to_server packet =
    if ltb (length packet) 5
    then false
    else if is_long (get_or packet 0 0) && not (from_bytes_big (slice_at packet 1 4) == 1)
    then false
    else if is_long (get_or packet 0 0)
    then not (packet_type (get_or packet 0 0) == 2 && to_server)
    else to_server

unfoldable pub packet_events : Bool → List Bytes → List WireEvent
packet_events to_server [] = []
packet_events to_server (packet ∷ packets) =
    let rest = packet_events to_server packets in
    if kept_packet to_server packet
    then record { to_server = to_server; payload = packet } ∷ rest
    else rest

unfoldable pub datagram_events : List WireEvent → List WireEvent
datagram_events [] = []
datagram_events (e ∷ events) =
    packet_events e.to_server (iter_coalesced_packets e.payload) ++ datagram_events events

abbrev pub some_packets : List WireEvent → Result (List WireEvent)
some_packets [] = err (runtime_error no_quic_packets)
some_packets (e ∷ events) = ok (e ∷ events)

unfoldable pub quic_packet_events : List WireEvent → Result (List WireEvent)
quic_packet_events events = some_packets (datagram_events events)

-- b"SSH-"
abbrev pub ssh_prefix : Bytes
ssh_prefix = 83 ∷ 83 ∷ 72 ∷ 45 ∷ []

abbrev pub starts_ssh : Bytes → Bool
starts_ssh stream = bytes_eq (take 4 stream) ssh_prefix

unfoldable pub ssh_stream_events : List WireEvent → Result (List WireEvent)
ssh_stream_events events =
    let client = side_bytes true events in
    let server = side_bytes false events in
    if not (starts_ssh client) || not (starts_ssh server)
    then err (runtime_error incomplete_ssh_exchange)
    else ok (
        record { to_server = true; payload = client }
        ∷ record { to_server = false; payload = server }
        ∷ [])
