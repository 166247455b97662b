-- ===== src/Tests/RecordRuns.antt =====
-- TLS records of a small capture: a handshake record in two chunks, a reply with two records.
use hndl_dev.Prelude.{ℕ, ◌+◌, ◌≡◌, refl, List, [], ◌∷◌, ◌++◌, map, arith, length, All, bytes_eq}
use hndl_dev.Prelude.Endian.{from_bytes_big}
use hndl_dev.Result.{ok, err, value_error, truncated_stream}
use hndl_dev.Exec.{Yields}
use hndl_dev.Binary.{Bytes, open_reader, encode_uvarint, encode_blob}
use hndl_dev.Binary.View.{Unread, Unread-open_reader}
use hndl_dev.Pcap.{Chunk, IsChunk, stream, chunk_bytes}
use hndl_dev.Records.{TlsRecord, IsRecord, drain, split_chunks, split_tls_records, wire}
use hndl_dev.Records.Encode.{
  tag_byte, content_code, version_code, record_head, encode_record, encode_records,
  encode_tls_records, RecordStats,
}
use hndl_dev.Records.Decode.{decode_tls_records}
use hndl_dev.Records.Split.{wire-split_tls_records}
use hndl_dev.Records.RoundTrip.{record_chunk, decode_tls_records-encode_records}
use hndl_dev.Records.Preserves.{streams_preserved}
use hndl_dev.Records.Resplit.{split_tls_records-record_chunks}
use hndl_dev.Records.Accounting.{encode_tls_records_accounting}

abbrev chunk : ℕ → Bytes → Chunk
chunk d b = record { direction = d; contents = b }

abbrev capture : List Chunk
capture =
    chunk 0 (22 ∷ 3 ∷ 1 ∷ 0 ∷ [])
    ∷ chunk 0 (2 ∷ 1 ∷ 0 ∷ [])
    ∷ chunk 1 (20 ∷ 3 ∷ 3 ∷ 0 ∷ 1 ∷ 1 ∷ 23 ∷ 3 ∷ 3 ∷ 0 ∷ 1 ∷ 99 ∷ [])
    ∷ []

abbrev tls : ℕ → ℕ → Bytes → Bytes → TlsRecord
tls d t v f = record { direction = d; content_type = t; version = v; fragment = f }

abbrev records : List TlsRecord
records =
    tls 0 22 (3 ∷ 1 ∷ []) (1 ∷ 0 ∷ [])
    ∷ tls 1 20 (3 ∷ 3 ∷ []) (1 ∷ [])
    ∷ tls 1 23 (3 ∷ 3 ∷ []) (99 ∷ [])
    ∷ []

abbrev layout : Bytes
layout = 3 ∷ 10 ∷ 2 ∷ 1 ∷ 0 ∷ 128 ∷ 1 ∷ 1 ∷ 195 ∷ 1 ∷ []

abbrev stats : RecordStats
stats = record {
  record_count = 3;
  record_header_bytes_removed = 15;
  protected_record_payload_bytes = 1;
  opaque_bytes = 1;
  clear_protocol_bytes = 3;
  clear_handshake_payload_bytes = 2;
  transport_payload_bytes = 19;
}

split_run : split_tls_records capture ≡ ok records
unfolding split_tls_records split_chunks drain from_bytes_big
split_run = refl

cut_run :
    split_tls_records (chunk 0 (22 ∷ 3 ∷ 1 ∷ 0 ∷ []) ∷ []) ≡ err (value_error truncated_stream)
unfolding split_tls_records split_chunks drain from_bytes_big
cut_run = refl

encode_run : encode_tls_records capture ≡ ok (layout, 99 ∷ [], stats)
unfolding encode_tls_records split_tls_records split_chunks drain from_bytes_big encode_records
    encode_record record_head tag_byte content_code version_code bytes_eq encode_uvarint encode_blob
    chunk_bytes
encode_run = refl

capture-IsChunk : All IsChunk capture
capture-IsChunk = omega arith

records-IsRecord : All IsRecord records
records-IsRecord = omega arith

wire-split_tls_records_example :
    (wire 0 records ≡ stream 0 capture) × (wire 1 records ≡ stream 1 capture) × All IsRecord records
wire-split_tls_records_example = wire-split_tls_records capture records capture-IsChunk split_run

decode_tls_records-encode_records_example :
    Yields
      (decode_tls_records (encode_records records).out)
      (open_reader ((encode_records records).opaque ++ (5 ∷ [])))
      (map record_chunk records)
      (λ t. Unread t (5 ∷ []))
decode_tls_records-encode_records_example =
    decode_tls_records-encode_records records
      (open_reader ((encode_records records).opaque ++ (5 ∷ []))) (5 ∷ []) records-IsRecord
      (omega arith) (Unread-open_reader ((encode_records records).opaque ++ (5 ∷ [])))

streams_preserved_example :
    (chunks' : List Chunk) × Yields
      (decode_tls_records layout)
      (open_reader (99 ∷ []))
      chunks'
      (λ t. Unread t [])
    × (stream 0 chunks' ≡ stream 0 capture)
    × (stream 1 chunks' ≡ stream 1 capture)
streams_preserved_example =
    streams_preserved capture layout (99 ∷ []) stats capture-IsChunk encode_run (omega arith)

split_tls_records-record_chunks_example : split_tls_records (map record_chunk records) ≡ ok records
split_tls_records-record_chunks_example = split_tls_records-record_chunks records records-IsRecord

encode_tls_records_accounting_example :
    (stats.opaque_bytes ≡ length {A = ℕ} (99 ∷ []))
    × (stats.transport_payload_bytes
        ≡ stats.record_header_bytes_removed + stats.protected_record_payload_bytes
          + stats.clear_protocol_bytes)
encode_tls_records_accounting_example =
    encode_tls_records_accounting capture layout (99 ∷ []) stats capture-IsChunk encode_run
