-- ===== src/Policy/Records.antt =====
-- archive_policy.py: `_tls_record_events`.
pub mod Preserves
use hndl_dev.Prelude.{
  ℕ, zero, suc, ◌+◌, Bool, true, false, not, ◌&&◌, ◌||◌, Option, none, some, List, [], ◌∷◌, ◌++◌,
  leb, ltb, ◌==◌, if◌then◌else◌, length, take, drop, get_or,
}
use hndl_dev.Result.{
  Result, ok, err, runtime_error, non_tls_data, tls_record_too_long, ended_inside_record,
  no_tls_records, refuse_if, ◌>>=◌, ◌>>◌,
}
use hndl_dev.Binary.{Bytes}
use hndl_dev.Records.{record_length}
use hndl_dev.Policy.{WireEvent}

-- `content_type not in range(20, 25) or pending[1] != 3`
abbrev pub not_tls : Bytes → Bool
not_tls pending =
    not (leb 20 (get_or pending 0 0) && ltb (get_or pending 0 0) 25)
    || not (get_or pending 1 0 == 3)

abbrev pub first_unit : Bool → Bytes → WireEvent
first_unit side pending = record {
  to_server = side;
  payload = take (5 + record_length pending) pending;
}

-- `while len(pending) >= 5`. A round takes five bytes at least, so as many rounds as there are bytes
-- are enough.
unfoldable pub drain_units : ℕ → Bool → Bytes → List WireEvent → Result (Bytes × List WireEvent)
drain_units zero side pending records = ok (pending, records)
drain_units (suc fuel) side pending records =
    let rest =
      drain_units fuel side (drop (5 + record_length pending) pending)
        (records ++ (first_unit side pending ∷ [])) in
    if ltb (length pending) 5
    then ok (pending, records)
    else if not_tls pending
    then err (runtime_error non_tls_data)
    else if ltb 18432 (record_length pending)
    then err (runtime_error tls_record_too_long)
    else if ltb (length pending) (5 + record_length pending)
    then ok (pending, records)
    else rest

-- The two buffers.
pub record Buffers : Type 0 where
  pub client : Bytes
  pub server : Bytes

abbrev pub buffer_of : Buffers → Bool → Bytes
buffer_of b side = if side then b.client else b.server

abbrev pub put_buffer : Buffers → Bool → Bytes → Buffers
put_buffer b side bytes = if side then record b { client = bytes } else record b { server = bytes }

unfoldable pub gather :
    List WireEvent → Buffers → List WireEvent → Result (Buffers × List WireEvent)
gather [] buffers records = ok (buffers, records)
gather (e ∷ events) buffers records =
    let pending = buffer_of buffers e.to_server ++ e.payload in
    do
      (pending', records') ← drain_units (length pending) e.to_server pending records
      gather events (put_buffer buffers e.to_server pending') records'

abbrev pub complete_units : List WireEvent → Result (List WireEvent)
complete_units [] = err (runtime_error no_tls_records)
complete_units (e ∷ events) = ok (e ∷ events)

unfoldable pub all_units : List WireEvent → Result (List WireEvent)
all_units events = do
  (buffers, records) ← gather events (record { client = []; server = [] }) []
  refuse_if (not (length buffers.client == 0) || not (length buffers.server == 0))
      (runtime_error ended_inside_record)
  complete_units records

unfoldable pub keep_units : (WireEvent → Bool) → List WireEvent → List WireEvent
keep_units p [] = []
keep_units p (e ∷ events) = if p e then e ∷ keep_units p events else keep_units p events

-- What the two objectives do not need: server alerts and application data under TLS 1.2, and the
-- server's side of the second capture under 0-RTT.
pub data PolicyProtocol : Type 0 where
  tls12 tls13 quic ssh : PolicyProtocol

abbrev pub kept_tls12 : WireEvent → Bool
kept_tls12 e = e.to_server || not (get_or e.payload 0 0 == 21 || get_or e.payload 0 0 == 23)

-- `is_zero_rtt` is `mode == "0rtt"`.
abbrev pub prune_units : PolicyProtocol → Bool → ℕ → List WireEvent → List WireEvent
prune_units tls12 is_zero_rtt archive_index records = keep_units kept_tls12 records
prune_units tls13 is_zero_rtt archive_index records =
    if is_zero_rtt && archive_index == 1 then keep_units (λ e. e.to_server) records else records
prune_units quic is_zero_rtt archive_index records = records
prune_units ssh is_zero_rtt archive_index records = records

unfoldable pub tls_record_events :
    List WireEvent → PolicyProtocol → Bool → ℕ → Result (List WireEvent)
tls_record_events events protocol is_zero_rtt archive_index = do
  records ← all_units events
  ok (prune_units protocol is_zero_rtt archive_index records)
