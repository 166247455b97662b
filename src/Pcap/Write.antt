-- ===== src/Pcap/Write.antt =====
-- minarx/pcap.py: `write_pcap`.
pub mod Sequences
pub mod Reassembled
use hndl_dev.Prelude.{
  ℕ, zero, suc, ◌+◌, ◌%◌, ◌/◌, ◌^◌, Bool, true, false, List, [], ◌∷◌, ◌++◌, ◌==◌, ltb,
  if◌then◌else◌, length, take, drop,
}
use hndl_dev.Result.{
  Result, ok, err, pcap_error, value_error, datagram_too_large, unknown_transport, require,
  refuse_if, struct_error, ◌>>=◌, ◌>>◌,
}
use hndl_dev.Binary.{Bytes}
use hndl_dev.Pcap.{Chunk}
use hndl_dev.Pcap.Frames.{tcp_segment, udp_datagram}

-- `[data[i : i + 1400] for i in range(0, len(data), 1400)]`. A round takes a byte at least, so as
-- many rounds as there are bytes are enough.
unfoldable pub pieces_of : ℕ → Bytes → List Bytes
pieces_of zero bytes = []
pieces_of (suc fuel) [] = []
pieces_of (suc fuel) (b ∷ bs) = take 1400 (b ∷ bs) ∷ pieces_of fuel (drop 1400 (b ∷ bs))

pub data Transport : Type 0 where
  tcp udp other : Transport

abbrev pub pieces : Transport → Bytes → List Bytes
pieces tcp bytes = pieces_of (length bytes) bytes
pieces udp bytes = bytes ∷ []
pieces other bytes = bytes ∷ []

-- The loop's variables: `tcp_sequences`, `timestamp` and `ident`, which start at the same number
-- and grow together, and `encoded`.
pub record Writer : Type 0 where
  pub client_sequence : ℕ
  pub server_sequence : ℕ
  pub timestamp : ℕ
  pub ident : ℕ
  pub encoded : Bytes

abbrev pub sequence_of : Writer → ℕ → ℕ
sequence_of w direction = if direction == 0 then w.client_sequence else w.server_sequence

abbrev pub move_sequence : Transport → ℕ → ℕ → Writer → Writer
move_sequence tcp direction size w =
    if direction == 0
    then record w { client_sequence = w.client_sequence + size }
    else record w { server_sequence = w.server_sequence + size }
move_sequence udp direction size w = w
move_sequence other direction size w = w

-- `struct.pack` of four-byte fields in little-endian order.
unfoldable pub pack_words : List ℕ → Result Bytes
pack_words [] = ok []
pack_words (value ∷ values) = do
  require (ltb value (2 ^ 32)) struct_error
  rest ← pack_words values
  ok (value % 256 ∷ value / 256 % 256 ∷ value / 65536 % 256 ∷ value / 16777216 ∷ rest)

unfoldable pub frame_of : Transport → ℕ → ℕ → Writer → Bytes → Result Bytes
frame_of tcp direction server_port w piece =
    tcp_segment piece direction server_port (sequence_of w direction) w.ident
frame_of udp direction server_port w piece = do
  refuse_if (ltb 65507 (length piece)) (pcap_error datagram_too_large)
  udp_datagram piece direction server_port w.ident
frame_of other direction server_port w piece = err (value_error unknown_transport)

unfoldable pub write_piece : Transport → ℕ → ℕ → Writer → Bytes → Result Writer
write_piece transport direction server_port w piece = do
  frame ← frame_of transport direction server_port w piece
  packet_header ← pack_words (w.timestamp ∷ 0 ∷ length frame ∷ length frame ∷ [])
  let moved = move_sequence transport direction (length piece) w
  ok (record moved {
    encoded = w.encoded ++ (packet_header ++ frame);
    timestamp = w.timestamp + 1;
    ident = w.ident + 1;
  })

unfoldable pub write_pieces : Transport → ℕ → ℕ → Writer → List Bytes → Result Writer
write_pieces transport direction server_port w [] = ok w
write_pieces transport direction server_port w (piece ∷ rest) = do
  w' ← write_piece transport direction server_port w piece
  write_pieces transport direction server_port w' rest

unfoldable pub write_chunks : Transport → ℕ → Writer → List Chunk → Result Writer
write_chunks transport server_port w [] = ok w
write_chunks transport server_port w (chunk ∷ chunks) = do
  w' ← write_pieces transport chunk.direction server_port w (pieces transport chunk.contents)
  write_chunks transport server_port w' chunks

-- `struct.pack("<IHHIIII", 0xA1B2C3D4, 2, 4, 0, 0, 0x00040000, 1)`
abbrev pub file_header : Bytes
file_header =
    212 ∷ 195 ∷ 178 ∷ 161 ∷ 2 ∷ 0 ∷ 4 ∷ 0 ∷ 0 ∷ 0 ∷ 0 ∷ 0 ∷ 0 ∷ 0 ∷ 0 ∷ 0 ∷ 0 ∷ 0 ∷ 4 ∷ 0 ∷ 1 ∷ 0
    ∷ 0 ∷ 0 ∷ []

abbrev pub new_writer : Writer
new_writer = record {
  client_sequence = 1;
  server_sequence = 1;
  timestamp = 1;
  ident = 1;
  encoded = file_header;
}

-- The bytes that are written to the path.
unfoldable pub write_pcap : List Chunk → Transport → ℕ → Result Bytes
write_pcap chunks transport server_port = do
  w ← write_chunks transport server_port new_writer chunks
  ok w.encoded
