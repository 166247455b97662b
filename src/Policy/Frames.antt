-- ===== src/Policy/Frames.antt =====
-- archive_policy.py: the packets and the capture files that a policy archive is expanded to.
pub mod Checksums
use hndl_dev.Prelude.{
  ℕ, zero, suc, ◌+◌, ◌%◌, ◌/◌, ◌^◌, Bool, true, false, List, [], ◌∷◌, ◌++◌, ◌==◌, if◌then◌else◌,
  length, take, drop,
}
use hndl_dev.Result.{Result, ok, err, ◌>>=◌}
use hndl_dev.Binary.{Bytes}
use hndl_dev.Struct.{pack}
use hndl_dev.Pcap.Checksum.{checksum}
use hndl_dev.Pcap.Frames.{ethernet, with_word}
use hndl_dev.Pcap.Write.{pack_words}
use hndl_dev.Policy.{WireEvent}

abbrev pub ipv4_header_fields : ℕ → ℕ → ℕ → List (ℕ × ℕ)
ipv4_header_fields payload_length protocol identity =
    (1, 69)
    ∷ (1, 0)
    ∷ (2, 20 + payload_length)
    ∷ (2, identity % 2 ^ 16)
    ∷ (2, 16384)
    ∷ (1, 64)
    ∷ (1, protocol)
    ∷ (2, 0)
    ∷ []

-- The two addresses are the last fields of the format.
unfoldable pub ipv4_header : Bytes → Bytes → ℕ → ℕ → ℕ → Result Bytes
ipv4_header source destination payload_length protocol identity = do
  fields ← pack (ipv4_header_fields payload_length protocol identity)
  let header = fields ++ (source ++ destination)
  with_word 10 (checksum header) header

abbrev pub ethernet_frame : Bytes → Bytes
ethernet_frame payload = ethernet ++ payload

-- 127.0.0.1 and 127.0.0.2
abbrev pub client_address : Bytes
client_address = 127 ∷ 0 ∷ 0 ∷ 1 ∷ []

abbrev pub server_address : Bytes
server_address = 127 ∷ 0 ∷ 0 ∷ 2 ∷ []

abbrev pub from_address : Bool → Bytes
from_address to_server = if to_server then client_address else server_address

abbrev pub to_address : Bool → Bytes
to_address to_server = if to_server then server_address else client_address

abbrev pub from_port : Bool → ℕ → ℕ → ℕ
from_port to_server service_port client_port = if to_server then client_port else service_port

abbrev pub to_port : Bool → ℕ → ℕ → ℕ
to_port to_server service_port client_port = if to_server then service_port else client_port

abbrev pub tcp_header_fields : ℕ → ℕ → ℕ → ℕ → ℕ → List (ℕ × ℕ)
tcp_header_fields from to sequence acknowledgement flags =
    (2, from)
    ∷ (2, to)
    ∷ (4, sequence)
    ∷ (4, acknowledgement)
    ∷ (1, 80)
    ∷ (1, flags)
    ∷ (2, 65535)
    ∷ (2, 0)
    ∷ (2, 0)
    ∷ []

-- The header with its checksum; the checksum covers the payload.
unfoldable pub tcp_header : Bytes → Bytes → Bytes → Bytes → Result Bytes
tcp_header source destination header payload = do
  tail ← pack ((1, 0) ∷ (1, 6) ∷ (2, length header + length payload) ∷ [])
  with_word 16 (checksum (source ++ (destination ++ (tail ++ (header ++ payload))))) header

unfoldable pub policy_tcp_packet : Bytes → Bool → ℕ → ℕ → ℕ → ℕ → ℕ → ℕ → Result Bytes
policy_tcp_packet payload to_server service_port client_port sequence acknowledgement flags
      identity =
    do
      packed ← pack (
          tcp_header_fields (from_port to_server service_port client_port)
            (to_port to_server service_port client_port) sequence acknowledgement flags)
      header ← tcp_header (from_address to_server) (to_address to_server) packed payload
      ip ←
          ipv4_header (from_address to_server) (to_address to_server)
            (length header + length payload) 6 identity
      ok (ethernet_frame (ip ++ (header ++ payload)))

-- The checksum of a UDP packet stays zero.
unfoldable pub policy_udp_packet : Bytes → Bool → ℕ → ℕ → ℕ → Result Bytes
policy_udp_packet payload to_server service_port client_port identity = do
  udp ← pack (
      (2, from_port to_server service_port client_port)
      ∷ (2, to_port to_server service_port client_port)
      ∷ (2, 8 + length payload)
      ∷ (2, 0)
      ∷ [])
  ip ←
      ipv4_header (from_address to_server) (to_address to_server) (length udp + length payload) 17
        identity
  ok (ethernet_frame (ip ++ (udp ++ payload)))

-- `_PcapWriter`: `_counter`, and the file's bytes so far.
pub record PcapWriter : Type 0 where
  pub counter : ℕ
  pub written : Bytes

-- `struct.pack("<IHHIIII", 0xA1B2C3D4, 2, 4, 0, 0, 65535, 1)`
abbrev pub new_pcap_writer : PcapWriter
new_pcap_writer = record {
  counter = 0;
  written =
      212 ∷ 195 ∷ 178 ∷ 161 ∷ 2 ∷ 0 ∷ 4 ∷ 0 ∷ 0 ∷ 0 ∷ 0 ∷ 0 ∷ 0 ∷ 0 ∷ 0 ∷ 0 ∷ 255 ∷ 255 ∷ 0 ∷ 0 ∷ 1
      ∷ 0 ∷ 0 ∷ 0 ∷ [];
}

unfoldable pub write_packet : Bytes → PcapWriter → Result PcapWriter
write_packet packet w =
    let counter = w.counter + 1 in
    do
      header ←
          pack_words
            ((1 + counter / 1000000) ∷ (counter % 1000000) ∷ length packet ∷ length packet ∷ [])
      ok (record { counter = counter; written = w.written ++ (header ++ packet) })

abbrev pub ephemeral_port : ℕ → ℕ
ephemeral_port port = if port == 55000 then 55001 else 55000

-- The variables of `_write_tcp_pcap`.
pub record TcpState : Type 0 where
  pub writer : PcapWriter
  pub client_sequence : ℕ
  pub server_sequence : ℕ
  pub identity : ℕ

-- A packet of one side, whose sequence number grows by so much.
unfoldable pub send : ℕ → Bool → ℕ → ℕ → Bytes → ℕ → TcpState → Result TcpState
send port to_server acknowledgement flags payload growth s = do
  packet ←
      policy_tcp_packet payload to_server port (ephemeral_port port)
        (if to_server then s.client_sequence else s.server_sequence) acknowledgement flags
        s.identity
  writer ← write_packet packet s.writer
  ok (record {
    writer = writer;
    client_sequence = if to_server then s.client_sequence + growth else s.client_sequence;
    server_sequence = if to_server then s.server_sequence else s.server_sequence + growth;
    identity = s.identity + 1;
  })

-- The three packets of the handshake.
unfoldable pub send_handshake : ℕ → TcpState → Result TcpState
send_handshake port s = do
  a ← send port true 0 2 [] 1 s
  b ← send port false a.client_sequence 18 [] 1 a
  send port true b.server_sequence 16 [] 0 b

-- The pieces of a payload; as many rounds as there are bytes are enough.
unfoldable pub send_pieces : ℕ → ℕ → Bool → Bytes → TcpState → Result TcpState
send_pieces zero port to_server bytes s = ok s
send_pieces (suc fuel) port to_server [] s = ok s
send_pieces (suc fuel) port to_server (b ∷ bs) s = do
  s' ←
      send port to_server (if to_server then s.server_sequence else s.client_sequence) 24
        (take 1200 (b ∷ bs)) (length (take 1200 (b ∷ bs))) s
  send_pieces fuel port to_server (drop 1200 (b ∷ bs)) s'

unfoldable pub send_events : ℕ → List WireEvent → TcpState → Result TcpState
send_events port [] s = ok s
send_events port (e ∷ events) s = do
  s' ← send_pieces (length e.payload) port e.to_server e.payload s
  send_events port events s'

-- The bytes of the file.
unfoldable pub write_tcp_pcap : List WireEvent → ℕ → Result Bytes
write_tcp_pcap events port = do
  opened ← send_handshake port (record {
    writer = new_pcap_writer;
    client_sequence = 1000;
    server_sequence = 5000;
    identity = 1;
  })
  s ← send_events port events opened
  ok s.writer.written

unfoldable pub write_datagrams : ℕ → ℕ → List WireEvent → PcapWriter → Result PcapWriter
write_datagrams port identity [] w = ok w
write_datagrams port identity (e ∷ events) w = do
  packet ← policy_udp_packet e.payload e.to_server port (ephemeral_port port) identity
  w' ← write_packet packet w
  write_datagrams port (identity + 1) events w'

unfoldable pub write_udp_pcap : List WireEvent → ℕ → Result Bytes
write_udp_pcap events port = do w ← write_datagrams port 1 events new_pcap_writer; ok w.written
