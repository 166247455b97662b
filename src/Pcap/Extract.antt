-- ===== src/Pcap/Extract.antt =====
-- minarx/pcap.py: `extract_tcp_chunks` and `extract_udp_datagrams`, on the rows that tshark printed.
pub mod Slices
pub mod Tracking
pub mod Contiguous
pub mod Segments
pub mod Trace
use hndl_dev.Prelude.{
  ℕ, zero, suc, ◌+◌, ◌-◌, ◌≡◌, Bool, true, false, not, ◌&&◌, ◌||◌, Option, none, some, List, [],
  ◌∷◌, ◌++◌, ltb, leb, ◌==◌, if◌then◌else◌, length, drop,
}
use hndl_dev.Result.{
  Error, Result, ok, err, pcap_error, invalid_fields, several_flows, tcp_gap, no_payload, refuse_if,
  ◌>>=◌, ◌>>◌,
}
use hndl_dev.Binary.{Bytes}
use hndl_dev.Pcap.{Chunk}
use hndl_dev.Pcap.Fields.{Text, first_part, without_colons, parse_int, unhexlify, direction_of}

pub record TcpRow : Type 0 where
  pub stream : Text
  pub source : Text
  pub destination : Text
  pub sequence : Text
  pub payload : Text

-- The values of a row that has a payload and concerns the server.
pub record Segment : Type 0 where
  pub flow : ℕ
  pub direction : ℕ
  pub sequence : ℕ
  pub contents : Bytes

abbrev pub blank : Text → Bool
blank [] = true
blank (c ∷ cs) = false

abbrev pub segment : Option ℕ → ℕ → ℕ → Bytes → Option Segment
segment none flow sequence contents = none
segment (some d) flow sequence contents =
    some (record { flow = flow; direction = d; sequence = sequence; contents = contents })

abbrev pub invalid {ℓ} : {A : Type ℓ} → Result A
invalid = err (pcap_error invalid_fields)

abbrev pub number : Text → Result ℕ
number text = elim (parse_int (first_part text)) [ none ↦ invalid | some n ↦ ok n ]

abbrev pub payload_bytes : Text → Result Bytes
payload_bytes text = elim (unhexlify (first_part (without_colons text))) [
  | none ↦ invalid
  | some b ↦ ok b
]

unfoldable pub read_fields : ℕ → TcpRow → Result (Option Segment)
read_fields server_port row = do
  flow ← number row.stream
  src ← number row.source
  dst ← number row.destination
  seq ← number row.sequence
  contents ← payload_bytes row.payload
  ok (segment (direction_of server_port src dst) flow seq contents)

-- `ok none` is a row that the loop passes over.
unfoldable pub tcp_fields : ℕ → TcpRow → Result (Option Segment)
tcp_fields server_port row =
    if blank row.payload || blank row.stream || blank row.sequence
    then ok none
    else read_fields server_port row

-- An entry of `next_seq`; the first entry of a key counts.
pub record Expected : Type 0 where
  pub flow : ℕ
  pub direction : ℕ
  pub next : ℕ

unfoldable pub lookup : ℕ → ℕ → List Expected → Option ℕ
lookup flow direction [] = none
lookup flow direction (e ∷ es) =
    if e.flow == flow && e.direction == direction then some e.next else lookup flow direction es

pub record Extraction : Type 0 where
  pub next_seq : List Expected
  pub payload_streams : List ℕ
  pub chunks : List Chunk

unfoldable pub is_member : ℕ → List ℕ → Bool
is_member x [] = false
is_member x (y ∷ ys) = y == x || is_member x ys

-- `payload_streams.add`
unfoldable pub add_stream : ℕ → List ℕ → List ℕ
add_stream x xs = if is_member x xs then xs else x ∷ xs

-- The last chunk grows if it has the same direction.
unfoldable pub add_chunk : List Chunk → ℕ → Bytes → List Chunk
add_chunk [] direction novel = record { direction = direction; contents = novel } ∷ []
add_chunk (c ∷ []) direction novel =
    if c.direction == direction
    then record { direction = direction; contents = c.contents ++ novel } ∷ []
    else c ∷ record { direction = direction; contents = novel } ∷ []
add_chunk (c ∷ d ∷ cs) direction novel = c ∷ add_chunk (d ∷ cs) direction novel

abbrev pub or_else : ℕ → Option ℕ → ℕ
or_else n none = n
or_else n (some m) = m

-- The bytes of a segment that were not seen before go to the chunks.
unfoldable pub deliver : Extraction → List ℕ → Segment → ℕ → Extraction
deliver e flows s expected =
    if leb (length s.contents) (expected - s.sequence)
    then record e { payload_streams = flows }
    else record {
      next_seq =
          record {
            flow = s.flow;
            direction = s.direction;
            next = expected + length (drop (expected - s.sequence) s.contents);
          }
          ∷ e.next_seq;
      payload_streams = flows;
      chunks = add_chunk e.chunks s.direction (drop (expected - s.sequence) s.contents);
    }

unfoldable pub accept : Extraction → Segment → Result Extraction
accept e s =
    let flows = add_stream s.flow e.payload_streams in
    let expected = or_else s.sequence (lookup s.flow s.direction e.next_seq) in
    do
      refuse_if (ltb 1 (length flows)) (pcap_error several_flows)
      refuse_if (ltb expected s.sequence) (pcap_error tcp_gap)
      ok (deliver e flows s expected)

abbrev pub take_row : Extraction → Option Segment → Result Extraction
take_row e none = ok e
take_row e (some s) = accept e s

unfoldable pub take_rows : ℕ → List TcpRow → Extraction → Result Extraction
take_rows server_port [] e = ok e
take_rows server_port (row ∷ rows) e = do
  s ← tcp_fields server_port row
  e' ← take_row e s
  take_rows server_port rows e'

abbrev pub nothing_seen : Extraction
nothing_seen = record { next_seq = []; payload_streams = []; chunks = [] }

abbrev pub some_payload : List Chunk → Result (List Chunk)
some_payload [] = err (pcap_error no_payload)
some_payload (c ∷ cs) = ok (c ∷ cs)

unfoldable pub extract_tcp_chunks : ℕ → List TcpRow → Result (List Chunk)
extract_tcp_chunks server_port rows = do
  e ← take_rows server_port rows nothing_seen
  some_payload e.chunks

pub record UdpRow : Type 0 where
  pub source : Text
  pub destination : Text
  pub payload : Text

abbrev pub whole_number : Text → Result ℕ
whole_number text = elim (parse_int text) [ none ↦ invalid | some n ↦ ok n ]

abbrev pub with_datagram : Option ℕ → Bytes → List Chunk → List Chunk
with_datagram none contents chunks = chunks
with_datagram (some d) contents chunks = record { direction = d; contents = contents } ∷ chunks

unfoldable pub udp_rows : ℕ → List UdpRow → Result (List Chunk)
udp_rows server_port [] = ok []
udp_rows server_port (row ∷ rows) = if blank row.payload then udp_rows server_port rows else do
  src ← whole_number row.source
  dst ← whole_number row.destination
  contents ← payload_bytes row.payload
  rest ← udp_rows server_port rows
  ok (with_datagram (direction_of server_port src dst) contents rest)

unfoldable pub extract_udp_datagrams : ℕ → List UdpRow → Result (List Chunk)
extract_udp_datagrams server_port rows = do
  datagrams ← udp_rows server_port rows
  some_payload datagrams
