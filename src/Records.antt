-- ===== src/Records.antt =====
-- minarx/protocols/common.py: TLS records, split from the chunks of a capture.
pub mod Split
pub mod Encode
pub mod Decode
mod Codes
pub mod RoundTrip
pub mod Preserves
pub mod Resplit
pub mod Accounting
use hndl_dev.Prelude.{
  ℕ, zero, suc, ◌+◌, ◌<◌, ◌≤◌, ◌≡◌, Bool, true, false, Option, none, some, List, [], ◌∷◌, ◌++◌, ltb,
  ◌==◌, if◌then◌else◌, length, take, drop, get_or, All, bytes_eq,
}
use hndl_dev.Prelude.Endian.{from_bytes_big, to_bytes_big, IsByte}
use hndl_dev.Result.{Result, ok, err, value_error, invalid_record_length, truncated_stream, ◌>>=◌}
use hndl_dev.Binary.{Bytes}
use hndl_dev.Pcap.{Chunk}

-- The tuples `(direction, content_type, version, fragment)`.
pub record TlsRecord : Type 0 where
  pub direction : ℕ
  pub content_type : ℕ
  pub version : Bytes
  pub fragment : Bytes

-- `pending`, one buffer for each direction.
pub record Pending : Type 0 where
  pub client : Bytes
  pub server : Bytes

abbrev pub buffer : Pending → ℕ → Bytes
buffer p direction = if direction == 0 then p.client else p.server

abbrev pub with_buffer : Pending → ℕ → Bytes → Pending
with_buffer p direction buf =
    if direction == 0 then record p { client = buf } else record p { server = buf }

abbrev pub record_length : Bytes → ℕ
record_length buf = from_bytes_big (take 2 (drop 3 buf))

abbrev pub first_record : ℕ → Bytes → TlsRecord
first_record direction buf = record {
  direction = direction;
  content_type = get_or buf 0 0;
  version = take 2 (drop 1 buf);
  fragment = take (record_length buf) (drop 5 buf);
}

-- The inner loop of `split_tls_records`: `while len(buf) >= 5`. A round takes five bytes at least,
-- so as many rounds as there are bytes are enough.
unfoldable pub drain : ℕ → ℕ → Bytes → List TlsRecord → Result (Bytes × List TlsRecord)
drain zero direction buf records = ok (buf, records)
drain (suc fuel) direction buf records =
    let rest =
      drain fuel direction (drop (5 + record_length buf) buf)
        (records ++ (first_record direction buf ∷ [])) in
    if ltb (length buf) 5
    then ok (buf, records)
    else if ltb 18432 (record_length buf)
    then err (value_error invalid_record_length)
    else if ltb (length buf) (5 + record_length buf)
    then ok (buf, records)
    else rest

unfoldable pub split_chunks :
    List Chunk → Pending → List TlsRecord → Result (Pending × List TlsRecord)
split_chunks [] pending records = ok (pending, records)
split_chunks (chunk ∷ chunks) pending records =
    let buf = buffer pending chunk.direction ++ chunk.contents in
    do
      (buf', records') ← drain (length buf) chunk.direction buf records
      split_chunks chunks (with_buffer pending chunk.direction buf') records'

abbrev pub no_pending : Pending
no_pending = record { client = []; server = [] }

is_empty : Bytes → Bool
is_empty [] = true
is_empty (b ∷ bs) = false

unfoldable pub split_tls_records : List Chunk → Result (List TlsRecord)
unfolding is_empty
split_tls_records chunks = do
  (pending, records) ← split_chunks chunks no_pending []
  if is_empty pending.client
      then if is_empty pending.server then ok records else err (value_error truncated_stream)
      else err (value_error truncated_stream)

-- The record as it stood on the wire.
unfoldable pub record_bytes : TlsRecord → Bytes
record_bytes r = r.content_type ∷ (r.version ++ (to_bytes_big 2 (length r.fragment) ++ r.fragment))

-- What one side sent, as records.
unfoldable pub wire : ℕ → List TlsRecord → Bytes
wire d [] = []
wire d (r ∷ rs) = if r.direction == d then record_bytes r ++ wire d rs else wire d rs

pub record IsRecord (r : TlsRecord) : Type 0 where
  pub direction_bound : r.direction < 2
  pub type_byte : r.content_type < 256
  pub version_size : length r.version ≡ 2
  pub version_bytes : All IsByte r.version
  pub fragment_size : length r.fragment ≤ 18432
  pub fragment_bytes : All IsByte r.fragment
