-- ===== src/Pcap/Frames.antt =====
-- minarx/pcap.py: `_ethernet_ipv4`, `_tcp_segment` and `_udp_datagram`.
pub mod Receiver
pub mod Words
pub mod Pseudo
pub mod Verifies
pub mod Segments
pub mod Datagrams
use hndl_dev.Prelude.{
  ℕ, ◌+◌, ◌%◌, ◌^◌, Bool, true, false, List, [], ◌∷◌, ◌++◌, ◌==◌, if◌then◌else◌, length, take, drop,
}
use hndl_dev.Result.{Result, ok, err, ◌>>=◌}
use hndl_dev.Binary.{Bytes}
use hndl_dev.Struct.{pack}
use hndl_dev.Pcap.Checksum.{checksum, or_ones}

abbrev pub ethernet : Bytes
ethernet = 2 ∷ 0 ∷ 0 ∷ 0 ∷ 0 ∷ 2 ∷ 2 ∷ 0 ∷ 0 ∷ 0 ∷ 0 ∷ 1 ∷ 8 ∷ 0 ∷ []

abbrev pub ipv4_fields : ℕ → ℕ → ℕ → List (ℕ × ℕ)
ipv4_fields payload_size protocol ident =
    (1, 69)
    ∷ (1, 0)
    ∷ (2, 20 + payload_size)
    ∷ (2, ident % 2 ^ 16)
    ∷ (2, 16384)
    ∷ (1, 64)
    ∷ (1, protocol)
    ∷ (2, 0)
    ∷ []

-- `packet[:k] + struct.pack(">H", value) + packet[k + 2:]`
unfoldable pub with_word : ℕ → ℕ → Bytes → Result Bytes
with_word k value packet = do
  word ← pack ((2, value) ∷ [])
  ok (take k packet ++ (word ++ drop (k + 2) packet))

unfoldable pub ethernet_ipv4 : Bytes → ℕ → Bytes → Bytes → ℕ → Result Bytes
ethernet_ipv4 payload protocol source destination ident = do
  fields ← pack (ipv4_fields (length payload) protocol ident)
  header ←
      with_word 10 (checksum (fields ++ (source ++ destination)))
        (fields ++ (source ++ destination))
  ok (ethernet ++ (header ++ payload))

-- `socket.inet_aton` of 192.0.2.1 and 192.0.2.2
abbrev pub client_ip : Bytes
client_ip = 192 ∷ 0 ∷ 2 ∷ 1 ∷ []

abbrev pub server_ip : Bytes
server_ip = 192 ∷ 0 ∷ 2 ∷ 2 ∷ []

abbrev pub client_port : ℕ
client_port = 49152

abbrev pub source_ip : ℕ → Bytes
source_ip direction = if direction == 0 then client_ip else server_ip

abbrev pub destination_ip : ℕ → Bytes
destination_ip direction = if direction == 0 then server_ip else client_ip

abbrev pub source_port : ℕ → ℕ → ℕ
source_port direction server_port = if direction == 0 then client_port else server_port

abbrev pub destination_port : ℕ → ℕ → ℕ
destination_port direction server_port = if direction == 0 then server_port else client_port

abbrev pub tcp_fields_of : ℕ → ℕ → ℕ → List (ℕ × ℕ)
tcp_fields_of direction server_port sequence =
    (2, source_port direction server_port)
    ∷ (2, destination_port direction server_port)
    ∷ (4, sequence)
    ∷ (4, 1)
    ∷ (1, 80)
    ∷ (1, 24)
    ∷ (2, 65535)
    ∷ (2, 0)
    ∷ (2, 0)
    ∷ []

-- The pseudo header of a packet with this size.
unfoldable pub pseudo_header : ℕ → ℕ → ℕ → Result Bytes
pseudo_header direction protocol size = do
  tail ← pack ((1, 0) ∷ (1, protocol) ∷ (2, size) ∷ [])
  ok (source_ip direction ++ (destination_ip direction ++ tail))

unfoldable pub tcp_packet : Bytes → ℕ → ℕ → ℕ → Result Bytes
tcp_packet contents direction server_port sequence = do
  header ← pack (tcp_fields_of direction server_port sequence)
  pseudo ← pseudo_header direction 6 (length (header ++ contents))
  with_word 16 (checksum (pseudo ++ (header ++ contents))) (header ++ contents)

unfoldable pub tcp_segment : Bytes → ℕ → ℕ → ℕ → ℕ → Result Bytes
tcp_segment contents direction server_port sequence ident = do
  tcp ← tcp_packet contents direction server_port sequence
  ethernet_ipv4 tcp 6 (source_ip direction) (destination_ip direction) ident

unfoldable pub udp_packet : Bytes → ℕ → ℕ → Result Bytes
udp_packet contents direction server_port = do
  header ← pack (
      (2, source_port direction server_port)
      ∷ (2, destination_port direction server_port)
      ∷ (2, 8 + length contents)
      ∷ (2, 0)
      ∷ [])
  pseudo ← pseudo_header direction 17 (length (header ++ contents))
  with_word 6 (or_ones (checksum (pseudo ++ (header ++ contents)))) (header ++ contents)

unfoldable pub udp_datagram : Bytes → ℕ → ℕ → ℕ → Result Bytes
udp_datagram contents direction server_port ident = do
  udp ← udp_packet contents direction server_port
  ethernet_ipv4 udp 17 (source_ip direction) (destination_ip direction) ident
