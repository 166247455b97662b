-- ===== src/Tests/QuicRuns.antt =====
-- decryptor/quic/derive_quic.py on small packets.
use hndl_dev.Prelude.{
  ◌≡◌, ◌≤◌, ◌<◌, ◌++◌, ◌+◌, ◌⊎◌, refl, none, some, List, [], ◌∷◌, All, arith, length, take, get_or,
  false, bytes_eq,
}
use hndl_dev.Prelude.Endian.{from_bytes_big}
use hndl_dev.Result.{ok, index_error}
use hndl_dev.Binary.{Bytes}
use hndl_dev.Pcap.Fields.{Text, without_colons, unhexlify, hex_digit}
use hndl_dev.Hello.Cursor.{byte_at}
use hndl_dev.Quic.Varint.{decode_varint, shift_bytes, encode_varint, decode_varint-encode_varint}
use hndl_dev.Quic.Packets.{
  past_token, past_payload, past_identifier, long_packet_length, packet_length, coalesced_loop,
  iter_coalesced_packets,
}
use hndl_dev.Quic.Packets.Cover.{joined, iter_coalesced_packets-joined}
use hndl_dev.Quic.Frames.{
  Segment, parse_crypto_frames, frames_loop, crypto_frame, set_default, set_defaults, place, sorted,
  extend_prefix, reassemble_crypto_prefix, parse_handshake_from_crypto, handshake_length,
}
use hndl_dev.Quic.Frames.Prefix.{Covered, reassemble_crypto_prefix_prefix}
use hndl_dev.Quic.Frames.RoundTrip.{
  Frame, padding, ack, crypto, close, IsFrame, is_padding, is_ack, is_crypto, is_close,
  payload_bytes, crypto_segments, parse_crypto_frames-payload_bytes,
}
use hndl_dev.Quic.Keys.{Crypto, quic_initial_keys, hkdf_expand_label}
use hndl_dev.Quic.Keys.{PacketKeys}
use hndl_dev.Prelude.{◌&&◌, if◌then◌else◌}
use hndl_dev.Quic.Protection.{
  is_packet, xor_bytes, nonce_of, open_masked, open_packet, past_identifiers, decrypt_quic_initial,
  decrypt_quic_handshake_pkt, decrypt_quic_raised, raised, cuts_identifier,
}
use hndl_dev.Quic.Search.{
  QuicRow, front_message, take_initial, take_packet, take_packets, take_row, take_rows,
  extract_quic_crypto_data,
}
use hndl_dev.Quic.Search.Hellos.{extract_quic_crypto_data_types}
use hndl_dev.Quic.Flight.{fill_stream, flight_messages}
use hndl_dev.Quic.Flight.Joined.{
  NoGap, fill_stream-reassemble_crypto_prefix, flight_messages-joined,
}

decode_varint-encode_varint_example :
    decode_varint (encode_varint 494878333 ++ (7 ∷ []))
    ≡ ok (494878333, length (encode_varint 494878333))
decode_varint-encode_varint_example = decode_varint-encode_varint 494878333 (7 ∷ []) (omega arith)

-- An Initial packet and a packet with a short header.
abbrev two_packets : Bytes
two_packets = 192 ∷ 0 ∷ 0 ∷ 0 ∷ 1 ∷ 1 ∷ 9 ∷ 0 ∷ 0 ∷ 2 ∷ 5 ∷ 6 ∷ 64 ∷ 1 ∷ []

two_packets_run :
    iter_coalesced_packets two_packets
    ≡ (192 ∷ 0 ∷ 0 ∷ 0 ∷ 1 ∷ 1 ∷ 9 ∷ 0 ∷ 0 ∷ 2 ∷ 5 ∷ 6 ∷ []) ∷ (64 ∷ 1 ∷ []) ∷ []
unfolding iter_coalesced_packets coalesced_loop packet_length long_packet_length past_identifier
    past_token past_payload decode_varint shift_bytes
two_packets_run = refl

iter_coalesced_packets-joined_example :
    (joined (iter_coalesced_packets two_packets) ≡ two_packets)
    × All (λ p. 1 ≤ length p) (iter_coalesced_packets two_packets)
iter_coalesced_packets-joined_example = iter_coalesced_packets-joined two_packets

-- Out of order, with an overlap and a gap.
abbrev segments : List Segment
segments = (2, 3 ∷ 4 ∷ []) ∷ (6, 7 ∷ 8 ∷ []) ∷ (0, 1 ∷ 2 ∷ 3 ∷ []) ∷ []

reassemble_crypto_prefix_prefix_example :
    (reassemble_crypto_prefix segments
      ≡ take (length (reassemble_crypto_prefix segments)) (1 ∷ 2 ∷ 3 ∷ 4 ∷ 5 ∷ 6 ∷ 7 ∷ 8 ∷ []))
    × (¬ Covered (length (reassemble_crypto_prefix segments)) segments)
reassemble_crypto_prefix_prefix_example =
    reassemble_crypto_prefix_prefix (1 ∷ 2 ∷ 3 ∷ 4 ∷ 5 ∷ 6 ∷ 7 ∷ 8 ∷ []) segments
      (refl, (refl, (refl, tt)))

abbrev frames : List Frame
frames =
    padding
    ∷ crypto 0 (1 ∷ 2 ∷ [])
    ∷ ack 3 4 5 ((1, 1) ∷ [])
    ∷ crypto 2 (3 ∷ [])
    ∷ close 1 6 []
    ∷ []

frames-IsFrame : All IsFrame frames
frames-IsFrame = (
  is_padding,
  (
    is_crypto (omega arith) (omega arith),
    (
      is_ack (omega arith) (omega arith) (omega arith) (omega arith) (omega arith),
      (
        is_crypto (omega arith) (omega arith),
        (is_close (omega arith) (omega arith) (omega arith), tt),
      ),
    ),
  ),
)

parse_crypto_frames-payload_bytes_example :
    parse_crypto_frames (payload_bytes frames) ≡ ok (crypto_segments frames)
parse_crypto_frames-payload_bytes_example = parse_crypto_frames-payload_bytes frames frames-IsFrame

-- A cipher that opens every packet to one CRYPTO frame.
abbrev toy : Crypto
toy = record {
  hmac_sha256 = λ key message. [];
  hkdf_expand = λ hash secret info size. [];
  aes_ecb = λ key block. [];
  aes_gcm_decrypt = λ key nonce ciphertext associated. some (6 ∷ 0 ∷ 4 ∷ 1 ∷ 0 ∷ 0 ∷ 0 ∷ []);
}

abbrev cut_initial : Bytes
cut_initial = 192 ∷ 0 ∷ 0 ∷ 0 ∷ 1 ∷ 20 ∷ 9 ∷ []

abbrev toy_keys : PacketKeys
toy_keys = record { key = []; iv = []; hp = [] }

decrypt_quic_raised_example :
    (raised (decrypt_quic_initial toy cut_initial [] false)
      ≡ (if is_packet 0 cut_initial && cuts_identifier cut_initial then some index_error else none))
    × (raised (decrypt_quic_handshake_pkt toy cut_initial toy_keys) ≡ (
        if is_packet 2 cut_initial && cuts_identifier cut_initial then some index_error else none))
decrypt_quic_raised_example = decrypt_quic_raised toy cut_initial [] false toy_keys

abbrev initial_text : Text
initial_text =
    99 ∷ 48 ∷ 48 ∷ 48 ∷ 48 ∷ 48 ∷ 48 ∷ 48 ∷ 48 ∷ 49 ∷ 48 ∷ 48 ∷ 48 ∷ 48 ∷ 48 ∷ 48 ∷ 49 ∷ 52 ∷ 48
    ∷ 48 ∷ 48 ∷ 48 ∷ 48 ∷ 48 ∷ 48 ∷ 48 ∷ 48 ∷ 48 ∷ 48 ∷ 48 ∷ 48 ∷ 48 ∷ 48 ∷ 48 ∷ 48 ∷ 48 ∷ 48 ∷ 48
    ∷ 48 ∷ 48 ∷ 48 ∷ 48 ∷ 48 ∷ 48 ∷ 48 ∷ 48 ∷ 48 ∷ 48 ∷ 48 ∷ 48 ∷ 48 ∷ 48 ∷ 48 ∷ 48 ∷ 48 ∷ 48 ∷ 48
    ∷ 48 ∷ []

abbrev rows : List QuicRow
rows = record { payload = initial_text; source = 57 ∷ []; destination = 52 ∷ 52 ∷ 51 ∷ [] } ∷ []

search_run :
    extract_quic_crypto_data toy (52 ∷ 52 ∷ 51 ∷ []) rows ≡ ok (some (1 ∷ 0 ∷ 0 ∷ 0 ∷ []), none)
unfolding extract_quic_crypto_data take_rows take_row take_packets take_packet take_initial
    decrypt_quic_initial past_identifiers open_packet open_masked nonce_of xor_bytes
    quic_initial_keys hkdf_expand_label front_message parse_crypto_frames frames_loop crypto_frame
    set_defaults set_default sorted place extend_prefix reassemble_crypto_prefix
    parse_handshake_from_crypto iter_coalesced_packets coalesced_loop packet_length
    long_packet_length past_identifier past_token past_payload decode_varint shift_bytes byte_at
    bytes_eq unhexlify hex_digit without_colons from_bytes_big
search_run = refl

extract_quic_crypto_data_types_example :
    ((m : Bytes) → some (1 ∷ 0 ∷ 0 ∷ 0 ∷ []) ≡ some m → (get_or m 0 0 ≡ 1) × (4 ≤ length m))
    × ((m : Bytes) → none ≡ some m → (get_or m 0 0 ≡ 2) × (4 ≤ length m))
extract_quic_crypto_data_types_example =
    extract_quic_crypto_data_types toy (52 ∷ 52 ∷ 51 ∷ []) rows (some (1 ∷ 0 ∷ 0 ∷ 0 ∷ [])) none
      search_run

abbrev flight : List Segment
flight = (3, 1 ∷ 9 ∷ 20 ∷ []) ∷ (0, 8 ∷ 0 ∷ 0 ∷ 1 ∷ []) ∷ []

flight-NoGap : NoGap 0 (sorted flight)
unfolding NoGap sorted place
flight-NoGap = (omega arith, (omega arith, tt))

fill_stream-reassemble_crypto_prefix_example :
    fill_stream [] (sorted flight) ≡ reassemble_crypto_prefix flight
fill_stream-reassemble_crypto_prefix_example =
    fill_stream-reassemble_crypto_prefix flight flight-NoGap

flight_messages-joined_example :
    (rest : Bytes) × (joined (flight_messages flight) ++ rest ≡ fill_stream [] (sorted flight))
    × ((length rest < 4) ⊎ (length rest < 4 + handshake_length rest))
    × All (λ m. length m ≡ 4 + handshake_length m) (flight_messages flight)
flight_messages-joined_example = flight_messages-joined flight
