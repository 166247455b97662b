-- ===== src/Tests/PcapRuns.antt =====
-- minarx/pcap.py on small captures.
use hndl_dev.Prelude.{
  ℕ, zero, suc, ◌≡◌, ◌≤◌, ◌++◌, refl, List, [], ◌∷◌, All, arith, length, take, drop,
}
use mathlib.Core.Path.{subst}
use hndl_dev.Result.{ok, err, pcap_error, tcp_gap}
use hndl_dev.Binary.{Bytes}
use hndl_dev.Struct.{pack}
use hndl_dev.Prelude.Endian.{to_bytes_big}
use hndl_dev.Pcap.{Chunk, IsChunk, stream}
use hndl_dev.Pcap.Fields.{
  Text, first_part, without_colons, digits_value, parse_int, hex_digit, unhexlify, direction_of,
}
use hndl_dev.Pcap.Extract.{
  TcpRow, Segment, Extraction, lookup, is_member, add_stream, add_chunk, deliver, accept, take_rows,
  nothing_seen, tcp_fields, read_fields, extract_tcp_chunks,
}
use hndl_dev.Pcap.Extract.Tracking.{Carries}
use hndl_dev.Pcap.Extract.Contiguous.{Honest, extract_tcp_chunks-contiguous}
use hndl_dev.Pcap.Extract.Trace.{IsTrace, extract_tcp_chunks-IsTrace}
use hndl_dev.Pcap.Checksum.{words_sum, fold_carries, checksum}
use hndl_dev.Pcap.Frames.{
  pseudo_header, tcp_packet, udp_packet, udp_datagram, tcp_segment, with_word, ethernet_ipv4,
}
use hndl_dev.Pcap.Write.{
  tcp, pack_words, pieces_of, frame_of, write_piece, write_pieces, write_chunks, write_pcap,
  file_header,
}
use hndl_dev.Pcap.Write.Sequences.{take_segments, packets}
use hndl_dev.Pcap.Write.Reassembled.{write_pcap-reassembled}
use hndl_dev.Pcap.Frames.Receiver.{IpReceived, TcpReceived, UdpReceived}
use hndl_dev.Pcap.Frames.{source_ip, destination_ip}
use hndl_dev.Pcap.Frames.Segments.{tcp_segment-verifies}
use hndl_dev.Pcap.Frames.Datagrams.{udp_datagram-verifies}

-- From port 49152 to port 443, in flow 0.
abbrev client_row : Text → Text → TcpRow
client_row sequence payload = record {
  stream = 48 ∷ [];
  source = 52 ∷ 57 ∷ 49 ∷ 53 ∷ 50 ∷ [];
  destination = 52 ∷ 52 ∷ 51 ∷ [];
  sequence = sequence;
  payload = payload;
}

-- "010203" at 1 and, overlapping, "020304" at 2.
abbrev first_row : TcpRow
first_row = client_row (49 ∷ []) (48 ∷ 49 ∷ 48 ∷ 50 ∷ 48 ∷ 51 ∷ [])

abbrev overlapping_row : TcpRow
overlapping_row = client_row (50 ∷ []) (48 ∷ 50 ∷ 48 ∷ 51 ∷ 48 ∷ 52 ∷ [])

abbrev distant_row : TcpRow
distant_row = client_row (57 ∷ []) (48 ∷ 50 ∷ [])

abbrev two_rows : List TcpRow
two_rows = first_row ∷ overlapping_row ∷ []

abbrev merged : List Chunk
merged = record { direction = 0; contents = 1 ∷ 2 ∷ 3 ∷ 4 ∷ [] } ∷ []

overlap_run : extract_tcp_chunks 443 two_rows ≡ ok merged
unfolding extract_tcp_chunks take_rows tcp_fields read_fields parse_int digits_value first_part
    without_colons unhexlify hex_digit direction_of accept deliver add_stream is_member add_chunk
    lookup
overlap_run = refl

gap_run : extract_tcp_chunks 443 (first_row ∷ distant_row ∷ []) ≡ err (pcap_error tcp_gap)
unfolding extract_tcp_chunks take_rows tcp_fields read_fields parse_int digits_value first_part
    without_colons unhexlify hex_digit direction_of accept deliver add_stream is_member add_chunk
    lookup
gap_run = refl

-- What each side sent, by sequence number.
sent : ℕ → Bytes
sent zero = 0 ∷ 1 ∷ 2 ∷ 3 ∷ 4 ∷ 5 ∷ []
sent (suc d) = []

first_row-Honest : Honest sent 443 first_row
unfolding sent tcp_fields read_fields parse_int digits_value first_part without_colons unhexlify
    hex_digit direction_of
first_row-Honest = record {
  honest = λ s h.
      let same : ◌≡◌ {A = Segment}
          (record { flow = 0; direction = 0; sequence = 1; contents = 1 ∷ 2 ∷ 3 ∷ [] }) s =
        cc in
      subst (Carries sent) same (record { carried = record { slice = refl } });
}

overlapping_row-Honest : Honest sent 443 overlapping_row
unfolding sent tcp_fields read_fields parse_int digits_value first_part without_colons unhexlify
    hex_digit direction_of
overlapping_row-Honest = record {
  honest = λ s h.
      let same : ◌≡◌ {A = Segment}
          (record { flow = 0; direction = 0; sequence = 2; contents = 2 ∷ 3 ∷ 4 ∷ [] }) s =
        cc in
      subst (Carries sent) same (record { carried = record { slice = refl } });
}

abbrev small_frame : Bytes
small_frame =
    2 ∷ 0 ∷ 0 ∷ 0 ∷ 0 ∷ 2 ∷ 2 ∷ 0 ∷ 0 ∷ 0 ∷ 0 ∷ 1 ∷ 8 ∷ 0 ∷ 69 ∷ 0 ∷ 0 ∷ 42 ∷ 0 ∷ 1 ∷ 64 ∷ 0 ∷ 64
    ∷ 6 ∷ 182 ∷ 201 ∷ 192 ∷ 0 ∷ 2 ∷ 1 ∷ 192 ∷ 0 ∷ 2 ∷ 2 ∷ 192 ∷ 0 ∷ 1 ∷ 187 ∷ 0 ∷ 0 ∷ 0 ∷ 1 ∷ 0 ∷ 0
    ∷ 0 ∷ 1 ∷ 80 ∷ 24 ∷ 255 ∷ 255 ∷ 105 ∷ 7 ∷ 0 ∷ 0 ∷ 1 ∷ 2 ∷ []

frame_run : tcp_segment (1 ∷ 2 ∷ []) 0 443 1 1 ≡ ok small_frame
unfolding tcp_segment tcp_packet pseudo_header with_word ethernet_ipv4 pack to_bytes_big checksum
    words_sum fold_carries
frame_run = refl

abbrev small_file : Bytes
small_file =
    212 ∷ 195 ∷ 178 ∷ 161 ∷ 2 ∷ 0 ∷ 4 ∷ 0 ∷ 0 ∷ 0 ∷ 0 ∷ 0 ∷ 0 ∷ 0 ∷ 0 ∷ 0 ∷ 0 ∷ 0 ∷ 4 ∷ 0 ∷ 1 ∷ 0
    ∷ 0 ∷ 0 ∷ 1 ∷ 0 ∷ 0 ∷ 0 ∷ 0 ∷ 0 ∷ 0 ∷ 0 ∷ 58 ∷ 0 ∷ 0 ∷ 0 ∷ 58 ∷ 0 ∷ 0 ∷ 0 ∷ 2 ∷ 0 ∷ 0 ∷ 0 ∷ 0
    ∷ 2 ∷ 2 ∷ 0 ∷ 0 ∷ 0 ∷ 0 ∷ 1 ∷ 8 ∷ 0 ∷ 69 ∷ 0 ∷ 0 ∷ 44 ∷ 0 ∷ 1 ∷ 64 ∷ 0 ∷ 64 ∷ 6 ∷ 182 ∷ 199
    ∷ 192 ∷ 0 ∷ 2 ∷ 1 ∷ 192 ∷ 0 ∷ 2 ∷ 2 ∷ 192 ∷ 0 ∷ 1 ∷ 187 ∷ 0 ∷ 0 ∷ 0 ∷ 1 ∷ 0 ∷ 0 ∷ 0 ∷ 1 ∷ 80
    ∷ 24 ∷ 255 ∷ 255 ∷ 102 ∷ 1 ∷ 0 ∷ 0 ∷ 1 ∷ 2 ∷ 3 ∷ 4 ∷ []

file_run : write_pcap merged tcp 443 ≡ ok small_file
unfolding tcp_segment tcp_packet pseudo_header with_word ethernet_ipv4 pack to_bytes_big checksum
    words_sum fold_carries write_pcap write_chunks write_pieces write_piece frame_of pieces_of
    pack_words
file_run = refl

extract_tcp_chunks-contiguous_example :
    (first : ℕ) × (stream 0 merged ≡ take (length (stream 0 merged)) (drop first (sent 0)))
extract_tcp_chunks-contiguous_example =
    extract_tcp_chunks-contiguous sent 443 two_rows merged 0
      (first_row-Honest, (overlapping_row-Honest, tt)) overlap_run

extract_tcp_chunks-IsTrace_example : IsTrace merged × (1 ≤ length merged)
extract_tcp_chunks-IsTrace_example = extract_tcp_chunks-IsTrace 443 two_rows merged overlap_run

tcp_segment-verifies_example :
    IpReceived (drop 34 small_frame) (source_ip 0) (destination_ip 0) 6 1 small_frame
    × TcpReceived (1 ∷ 2 ∷ []) small_frame 49152 443 1
tcp_segment-verifies_example =
    tcp_segment-verifies (1 ∷ 2 ∷ []) small_frame 0 443 1 1 (omega arith) frame_run

merged-IsChunk : All IsChunk merged
merged-IsChunk = (record { direction_bound = omega arith; bytes = omega arith }, tt)

write_pcap-reassembled_example :
    (segments : List Segment) × (after : Extraction) × (body : Bytes) × (small_file
      ≡ file_header ++ body)
    × (packets 443 1 1 segments ≡ ok body)
    × (take_segments segments nothing_seen ≡ ok after)
    × ((d : ℕ) → stream d after.chunks ≡ stream d merged)
write_pcap-reassembled_example =
    write_pcap-reassembled merged 443 small_file merged-IsChunk file_run

abbrev datagram_frame : Bytes
datagram_frame =
    2 ∷ 0 ∷ 0 ∷ 0 ∷ 0 ∷ 2 ∷ 2 ∷ 0 ∷ 0 ∷ 0 ∷ 0 ∷ 1 ∷ 8 ∷ 0 ∷ 69 ∷ 0 ∷ 0 ∷ 31 ∷ 0 ∷ 7 ∷ 64 ∷ 0 ∷ 64
    ∷ 17 ∷ 182 ∷ 195 ∷ 192 ∷ 0 ∷ 2 ∷ 2 ∷ 192 ∷ 0 ∷ 2 ∷ 1 ∷ 1 ∷ 187 ∷ 192 ∷ 0 ∷ 0 ∷ 11 ∷ 182 ∷ 22 ∷ 1
    ∷ 2 ∷ 3 ∷ []

datagram_run : udp_datagram (1 ∷ 2 ∷ 3 ∷ []) 1 443 7 ≡ ok datagram_frame
unfolding udp_datagram udp_packet pseudo_header with_word ethernet_ipv4 pack to_bytes_big checksum
    words_sum fold_carries
datagram_run = refl

udp_datagram-verifies_example :
    IpReceived (drop 34 datagram_frame) (source_ip 1) (destination_ip 1) 17 7 datagram_frame
    × UdpReceived (1 ∷ 2 ∷ 3 ∷ []) datagram_frame 443 49152
udp_datagram-verifies_example =
    udp_datagram-verifies (1 ∷ 2 ∷ 3 ∷ []) datagram_frame 1 443 7 (omega arith) datagram_run
