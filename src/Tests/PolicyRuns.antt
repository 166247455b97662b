-- ===== src/Tests/PolicyRuns.antt =====
-- archive_policy.py on small captures.
use hndl_dev.Prelude.{
  ℕ, ◌≡◌, ◌++◌, refl, Bool, true, false, some, List, [], ◌∷◌, All, length, take, drop, bytes_eq,
}
use mathlib.Core.Path.{subst}
use hndl_dev.Prelude.Endian.{from_bytes_big, to_bytes_big}
use hndl_dev.Result.{ok, err, runtime_error, incomplete_ssh_exchange}
use hndl_dev.Binary.{Bytes}
use hndl_dev.Struct.{pack}
use hndl_dev.Pcap.Checksum.{checksum, words_sum, fold_carries}
use hndl_dev.Pcap.Fields.{Text, without_colons, parse_int, digits_value, unhexlify, hex_digit}
use hndl_dev.Pcap.Frames.{with_word}
use hndl_dev.Quic.Varint.{decode_varint, shift_bytes}
use hndl_dev.Quic.Packets.{
  past_token, past_payload, past_identifier, long_packet_length, packet_length, coalesced_loop,
  iter_coalesced_packets,
}
use hndl_dev.Policy.{WireEvent, side_bytes}
use hndl_dev.Policy.Wire.{encode_events, encode_wire_events, decode_wire_events}
use hndl_dev.Policy.Wire.RoundTrip.{decode_wire_events-encode_wire_events}
use hndl_dev.Policy.Records.{drain_units, gather, all_units}
use hndl_dev.Policy.Records.Preserves.{IsUnit, all_units_preserves}
use hndl_dev.Policy.Units.{
  kept_packet, packet_events, datagram_events, quic_packet_events, ssh_stream_events,
}
use hndl_dev.Prelude.{◌⊎◌}
use hndl_dev.Policy.Units.Streams.{
  Interleaving, silence, from_client, from_server, IsSsh, ssh_stream_events-Interleaving,
}
use hndl_dev.Quic.Packets.Cover.{joined}
use hndl_dev.Policy.Events.{
  PolicyRow, Arrival, without_commas, side_of, row_arrival, assemble_rows, tcp_events,
}
use hndl_dev.Policy.Events.Slices.{CarriesSent, tcp_events_contiguous}
use hndl_dev.Policy.Frames.{ipv4_header, policy_udp_packet}
use hndl_dev.Policy.Frames.Checksums.{policy_udp_packet_verifies}

abbrev event : Bool → Bytes → WireEvent
event to_server payload = record { to_server = to_server; payload = payload }

abbrev two_events : List WireEvent
two_events = event true (1 ∷ 2 ∷ []) ∷ event false [] ∷ []

abbrev two_events_file : Bytes
two_events_file =
    72 ∷ 78 ∷ 68 ∷ 76 ∷ 87 ∷ 65 ∷ 48 ∷ 49 ∷ 0 ∷ 0 ∷ 0 ∷ 2 ∷ 0 ∷ 0 ∷ 0 ∷ 0 ∷ 2 ∷ 1 ∷ 2 ∷ 1 ∷ 0 ∷ 0
    ∷ 0 ∷ 0 ∷ []

two_events_run : encode_wire_events two_events ≡ ok two_events_file
unfolding encode_wire_events encode_events pack to_bytes_big
two_events_run = refl

decode_wire_events-encode_wire_events_example : decode_wire_events two_events_file ≡ ok two_events
decode_wire_events-encode_wire_events_example =
    decode_wire_events-encode_wire_events two_events two_events_file two_events_run

-- An alert record of the server in two chunks.
abbrev alert_events : List WireEvent
alert_events = event false (21 ∷ 3 ∷ 3 ∷ 0 ∷ []) ∷ event false (2 ∷ 1 ∷ 0 ∷ []) ∷ []

abbrev alert_record : List WireEvent
alert_record = event false (21 ∷ 3 ∷ 3 ∷ 0 ∷ 2 ∷ 1 ∷ 0 ∷ []) ∷ []

alert_run : all_units alert_events ≡ ok alert_record
unfolding all_units gather drain_units from_bytes_big
alert_run = refl

all_units_preserves_example :
    (side_bytes false alert_record ≡ side_bytes false alert_events) × All IsUnit alert_record
all_units_preserves_example = all_units_preserves alert_events alert_record false alert_run

abbrev ssh_events : List WireEvent
ssh_events =
    event true (83 ∷ 83 ∷ 72 ∷ [])
    ∷ event false (83 ∷ 83 ∷ 72 ∷ 45 ∷ 50 ∷ [])
    ∷ event true (45 ∷ 49 ∷ [])
    ∷ []

ssh_interleaved :
    Interleaving
      ((83 ∷ 83 ∷ 72 ∷ []) ∷ (45 ∷ 49 ∷ []) ∷ [])
      ((83 ∷ 83 ∷ 72 ∷ 45 ∷ 50 ∷ []) ∷ [])
      ssh_events
ssh_interleaved = from_client _ _ _ _ (from_server _ _ _ _ (from_client _ _ _ _ silence))

ssh_stream_events-Interleaving_example :
    (IsSsh (joined ((83 ∷ 83 ∷ 72 ∷ []) ∷ (45 ∷ 49 ∷ []) ∷ []))
      × IsSsh (joined ((83 ∷ 83 ∷ 72 ∷ 45 ∷ 50 ∷ []) ∷ []))
      × (ssh_stream_events ssh_events
          ≡ ok (
              event true (joined ((83 ∷ 83 ∷ 72 ∷ []) ∷ (45 ∷ 49 ∷ []) ∷ []))
              ∷ event false (joined ((83 ∷ 83 ∷ 72 ∷ 45 ∷ 50 ∷ []) ∷ []))
              ∷ [])))
    ⊎ ((¬ (
          IsSsh (joined ((83 ∷ 83 ∷ 72 ∷ []) ∷ (45 ∷ 49 ∷ []) ∷ []))
          × IsSsh (joined ((83 ∷ 83 ∷ 72 ∷ 45 ∷ 50 ∷ []) ∷ []))))
        × (ssh_stream_events ssh_events ≡ err (runtime_error incomplete_ssh_exchange)))
ssh_stream_events-Interleaving_example =
    ssh_stream_events-Interleaving ((83 ∷ 83 ∷ 72 ∷ []) ∷ (45 ∷ 49 ∷ []) ∷ [])
      ((83 ∷ 83 ∷ 72 ∷ 45 ∷ 50 ∷ []) ∷ []) ssh_events ssh_interleaved

-- A client datagram with an Initial packet, a Handshake packet and a packet with a short header.
abbrev quic_events : List WireEvent
quic_events =
    event true (
      192 ∷ 0 ∷ 0 ∷ 0 ∷ 1 ∷ 0 ∷ 0 ∷ 0 ∷ 1 ∷ 5 ∷ 224 ∷ 0 ∷ 0 ∷ 0 ∷ 1 ∷ 0 ∷ 0 ∷ 1 ∷ 6 ∷ 64 ∷ 1 ∷ 2 ∷ 3
      ∷ 4 ∷ [])
    ∷ []

abbrev quic_units : List WireEvent
quic_units =
    event true (192 ∷ 0 ∷ 0 ∷ 0 ∷ 1 ∷ 0 ∷ 0 ∷ 0 ∷ 1 ∷ 5 ∷ [])
    ∷ event true (64 ∷ 1 ∷ 2 ∷ 3 ∷ 4 ∷ [])
    ∷ []

quic_run : quic_packet_events quic_events ≡ ok quic_units
unfolding quic_packet_events datagram_events packet_events kept_packet iter_coalesced_packets
    coalesced_loop packet_length long_packet_length past_identifier past_token past_payload
    decode_varint shift_bytes from_bytes_big
quic_run = refl

-- A segment and its retransmission with two more bytes.
abbrev first_row : PolicyRow
first_row = record {
  sequence = 49 ∷ [];
  source = 53 ∷ [];
  destination = 52 ∷ 52 ∷ 51 ∷ [];
  encoded = 48 ∷ 97 ∷ 48 ∷ 98 ∷ [];
}

abbrev second_row : PolicyRow
second_row = record {
  sequence = 49 ∷ [];
  source = 53 ∷ [];
  destination = 52 ∷ 52 ∷ 51 ∷ [];
  encoded = 48 ∷ 97 ∷ 48 ∷ 98 ∷ 48 ∷ 99 ∷ 48 ∷ 100 ∷ [];
}

abbrev sent : Bool → Bytes
sent side = 0 ∷ 10 ∷ 11 ∷ 12 ∷ 13 ∷ []

abbrev port : Text
port = 52 ∷ 52 ∷ 51 ∷ []

abbrev first_arrival : Arrival
first_arrival = record { to_server = true; sequence = 1; payload = 10 ∷ 11 ∷ [] }

abbrev second_arrival : Arrival
second_arrival = record { to_server = true; sequence = 1; payload = 10 ∷ 11 ∷ 12 ∷ 13 ∷ [] }

first_row_run : row_arrival port first_row ≡ some first_arrival
unfolding row_arrival side_of without_commas without_colons unhexlify hex_digit parse_int
    digits_value bytes_eq
first_row_run = refl

second_row_run : row_arrival port second_row ≡ some second_arrival
unfolding row_arrival side_of without_commas without_colons unhexlify hex_digit parse_int
    digits_value bytes_eq
second_row_run = refl

-- What one arrival carries, told of the row that it comes from.
one_arrival :
    (row : PolicyRow) (b : Arrival)
    → row_arrival port row ≡ some b
    → b.payload ≡ take (length b.payload) (drop b.sequence (sent b.to_server))
    → CarriesSent sent port row
one_arrival row b h p = record {
  carried = λ a e.
      let some_b : some b ≡ some a = cc in
      let same : b ≡ a = cc in
      subst (λ a. a.payload ≡ take (length a.payload) (drop a.sequence (sent a.to_server))) same p;
}

abbrev tcp_parts : List WireEvent
tcp_parts = event true (10 ∷ 11 ∷ []) ∷ event true (12 ∷ 13 ∷ []) ∷ []

tcp_run : tcp_events port (first_row ∷ second_row ∷ []) ≡ ok tcp_parts
unfolding tcp_events assemble_rows row_arrival side_of without_commas without_colons unhexlify
    hex_digit parse_int digits_value bytes_eq
tcp_run = refl

tcp_events_contiguous_example :
    (first : ℕ) × (side_bytes true tcp_parts
      ≡ take (length (side_bytes true tcp_parts)) (drop first (sent true)))
tcp_events_contiguous_example =
    tcp_events_contiguous sent port (first_row ∷ second_row ∷ []) tcp_parts true
      (
        one_arrival first_row first_arrival first_row_run refl,
        (one_arrival second_row second_arrival second_row_run refl, tt),
      )
      tcp_run

abbrev udp_frame : Bytes
udp_frame =
    2 ∷ 0 ∷ 0 ∷ 0 ∷ 0 ∷ 2 ∷ 2 ∷ 0 ∷ 0 ∷ 0 ∷ 0 ∷ 1 ∷ 8 ∷ 0 ∷ 69 ∷ 0 ∷ 0 ∷ 29 ∷ 0 ∷ 1 ∷ 64 ∷ 0 ∷ 64
    ∷ 17 ∷ 60 ∷ 204 ∷ 127 ∷ 0 ∷ 0 ∷ 1 ∷ 127 ∷ 0 ∷ 0 ∷ 2 ∷ 214 ∷ 216 ∷ 1 ∷ 187 ∷ 0 ∷ 9 ∷ 0 ∷ 0 ∷ 9
    ∷ []

udp_run : policy_udp_packet (9 ∷ []) true 443 55000 1 ≡ ok udp_frame
unfolding policy_udp_packet ipv4_header pack with_word checksum words_sum fold_carries to_bytes_big
udp_run = refl

policy_udp_packet_verifies_example :
    (header : Bytes) × (pack ((2, 55000) ∷ (2, 443) ∷ (2, 9) ∷ (2, 0) ∷ []) ≡ ok header)
    × (checksum (take 20 (drop 14 udp_frame)) ≡ 0)
    × (drop 34 udp_frame ≡ header ++ (9 ∷ []))
policy_udp_packet_verifies_example =
    policy_udp_packet_verifies (9 ∷ []) udp_frame true 443 55000 1 udp_run
