-- ===== src/Policy/Events.antt =====
-- archive_policy.py: `_tcp_events` and `_udp_events`, on the lines that tshark printed; a line with too
-- few fields is passed over by the code, and is no row. `port` is `str(port)`.
pub mod Slices
use hndl_dev.Prelude.{
  ℕ, zero, suc, ◌+◌, ◌-◌, Bool, true, false, not, ◌&&◌, Option, none, some, List, [], ◌∷◌, ◌++◌,
  leb, ltb, ◌==◌, if◌then◌else◌, length, drop, bytes_eq,
}
use hndl_dev.Result.{
  Result, ok, err, runtime_error, tcp_gap_or_reordered, no_tcp_payload, no_udp_payload, ◌>>=◌,
}
use hndl_dev.Binary.{Bytes}
use hndl_dev.Pcap.Fields.{Text, comma, without_colons, parse_int, unhexlify}
use hndl_dev.Policy.{WireEvent}

-- `text.replace(",", "")`
unfoldable pub without_commas : Text → Text
without_commas [] = []
without_commas (c ∷ cs) = if c == comma then without_commas cs else c ∷ without_commas cs

pub record PolicyRow : Type 0 where
  pub sequence : Text
  pub source : Text
  pub destination : Text
  pub encoded : Text

-- The direction of a row that concerns the port.
unfoldable pub side_of : Text → PolicyRow → Option Bool
side_of port row =
    if bytes_eq row.destination port
    then some true
    else if bytes_eq row.source port
    then some false
    else none

-- A row that the loop does not pass over.
pub record Arrival : Type 0 where
  pub to_server : Bool
  pub sequence : ℕ
  pub payload : Bytes

abbrev pub arrival : Option Bytes → Option Bool → Option ℕ → Option Arrival
arrival (some payload) (some side) (some sequence) =
    some (record { to_server = side; sequence = sequence; payload = payload })
arrival (some payload) (some side) none = none
arrival (some payload) none sequence = none
arrival none side sequence = none

abbrev pub hex_payload : Text → Option Bytes
hex_payload [] = none
hex_payload (c ∷ cs) = unhexlify (c ∷ cs)

unfoldable pub row_arrival : Text → PolicyRow → Option Arrival
row_arrival port row =
    arrival (hex_payload (without_commas (without_colons row.encoded))) (side_of port row)
      (parse_int row.sequence)

-- `next_sequence` and `events`, with the newest event last.
pub record Assembly : Type 0 where
  pub next_client : Option ℕ
  pub next_server : Option ℕ
  pub events : List WireEvent

abbrev pub next_of : Assembly → Bool → Option ℕ
next_of s side = if side then s.next_client else s.next_server

abbrev pub with_next : Assembly → Bool → ℕ → Assembly
with_next s side n =
    if side then record s { next_client = some n } else record s { next_server = some n }

-- The payload goes to the events, and the next sequence number is the one behind it.
abbrev pub append_event : Assembly → Bool → ℕ → Bytes → Assembly
append_event s side sequence payload = record (with_next s side (sequence + length payload)) {
  events = s.events ++ (record { to_server = side; payload = payload } ∷ []);
}

abbrev pub assemble : Assembly → Arrival → Option ℕ → Result Assembly
assemble s a none = ok (append_event s a.to_server a.sequence a.payload)
assemble s a (some expected) =
    let overlap = expected - a.sequence in
    if ltb expected a.sequence
    then err (runtime_error tcp_gap_or_reordered)
    else if leb (length a.payload) overlap
    then ok s
    else ok (append_event s a.to_server (a.sequence + overlap) (drop overlap a.payload))

abbrev pub assemble_row : Assembly → Option Arrival → Result Assembly
assemble_row s none = ok s
assemble_row s (some a) = assemble s a (next_of s a.to_server)

unfoldable pub assemble_rows : Text → List PolicyRow → Assembly → Result Assembly
assemble_rows port [] s = ok s
assemble_rows port (row ∷ rows) s = do
  s' ← assemble_row s (row_arrival port row)
  assemble_rows port rows s'

abbrev pub nothing_assembled : Assembly
nothing_assembled = record { next_client = none; next_server = none; events = [] }

abbrev pub some_tcp : List WireEvent → Result (List WireEvent)
some_tcp [] = err (runtime_error no_tcp_payload)
some_tcp (e ∷ events) = ok (e ∷ events)

-- `stream` has been chosen by the rows' filter.
unfoldable pub tcp_events : Text → List PolicyRow → Result (List WireEvent)
tcp_events port rows = do s ← assemble_rows port rows nothing_assembled; some_tcp s.events

-- A datagram with a payload.
abbrev pub udp_event : Option Bytes → Option Bool → List WireEvent → List WireEvent
udp_event (some (b ∷ bs)) (some side) events =
    record { to_server = side; payload = b ∷ bs } ∷ events
udp_event (some (b ∷ bs)) none events = events
udp_event (some []) side events = events
udp_event none side events = events

unfoldable pub udp_events_of : Text → List PolicyRow → List WireEvent
udp_events_of port [] = []
udp_events_of port (row ∷ rows) =
    udp_event (unhexlify (without_commas (without_colons row.encoded))) (side_of port row)
      (udp_events_of port rows)

abbrev pub some_udp : List WireEvent → Result (List WireEvent)
some_udp [] = err (runtime_error no_udp_payload)
some_udp (e ∷ events) = ok (e ∷ events)

unfoldable pub udp_events : Text → List PolicyRow → Result (List WireEvent)
udp_events port rows = some_udp (udp_events_of port rows)
