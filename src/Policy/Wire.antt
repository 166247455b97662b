-- ===== src/Policy/Wire.antt =====
-- archive_policy.py: `_encode_wire_events` and `_decode_wire_events`. What is left of the file stands
-- in place of the offset.
pub mod RoundTrip
use hndl_dev.Prelude.{
  ℕ, zero, suc, ◌+◌, Bool, true, false, not, ◌||◌, List, [], ◌∷◌, ◌++◌, ltb, ◌==◌, if◌then◌else◌,
  length, take, drop, get_or, bytes_eq,
}
use hndl_dev.Prelude.Endian.{from_bytes_big}
use hndl_dev.Result.{
  Result, ok, err, manifest_error, unsupported_wire_archive, truncated_wire_header,
  invalid_wire_event, trailing_wire_data, refuse_if, ◌>>=◌, ◌>>◌,
}
use hndl_dev.Binary.{Bytes}
use hndl_dev.Struct.{pack}
use hndl_dev.Policy.{WireEvent}

-- b"HNDLWA01"
abbrev pub archive_magic : Bytes
archive_magic = 72 ∷ 78 ∷ 68 ∷ 76 ∷ 87 ∷ 65 ∷ 48 ∷ 49 ∷ []

abbrev pub event_fields : WireEvent → List (ℕ × ℕ)
event_fields e = (1, if e.to_server then 0 else 1) ∷ (4, length e.payload) ∷ []

unfoldable pub encode_events : List WireEvent → Result Bytes
encode_events [] = ok []
encode_events (e ∷ events) = do
  header ← pack (event_fields e)
  rest ← encode_events events
  ok (header ++ (e.payload ++ rest))

unfoldable pub encode_wire_events : List WireEvent → Result Bytes
encode_wire_events events = do
  count ← pack ((4, length events) ∷ [])
  encoded ← encode_events events
  ok (archive_magic ++ (count ++ encoded))

-- The event at the front, with the size that its header says.
abbrev pub event_size : Bytes → ℕ
event_size bytes = from_bytes_big (take 4 (drop 1 bytes))

abbrev pub first_event : Bytes → WireEvent
first_event bytes = record {
  to_server = get_or bytes 0 0 == 0;
  payload = take (event_size bytes) (drop 5 bytes);
}

-- The events and what is left behind them.
unfoldable pub decode_events : ℕ → Bytes → Result (List WireEvent × Bytes)
decode_events zero bytes = ok ([], bytes)
decode_events (suc count) bytes = do
  refuse_if (ltb (length bytes) 5) (manifest_error truncated_wire_header)
  refuse_if (ltb 1 (get_or bytes 0 0) || ltb (length bytes) (5 + event_size bytes))
      (manifest_error invalid_wire_event)
  (events, rest) ← decode_events count (drop (5 + event_size bytes) bytes)
  ok (first_event bytes ∷ events, rest)

unfoldable pub decode_wire_events : Bytes → Result (List WireEvent)
decode_wire_events bytes = do
  refuse_if (ltb (length bytes) 12 || not (bytes_eq (take 8 bytes) archive_magic))
      (manifest_error unsupported_wire_archive)
  (events, rest) ← decode_events (from_bytes_big (take 4 (drop 8 bytes))) (drop 12 bytes)
  refuse_if (not (length rest == 0)) (manifest_error trailing_wire_data)
  ok events
