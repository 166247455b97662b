-- ===== src/Records/Preserves.antt =====
-- Compaction and expansion of TLS records keep what each side sent, and the order of records.
use mathlib.Core.Path.{subst}
use hndl_dev.Prelude.{ℕ, ◌≤◌, ◌≡◌, refl, sym, ◌∙◌, List, [], ◌∷◌, map, append-nil, arith, All}
use hndl_dev.Result.{ok, >>=-eq-ok}
use hndl_dev.Exec.{Yields}
use hndl_dev.Binary.{Bytes, open_reader}
use hndl_dev.Binary.View.{Unread, Unread-open_reader}
use hndl_dev.Pcap.{Chunk, IsChunk, stream}
use hndl_dev.Records.{TlsRecord, split_tls_records, wire}
use hndl_dev.Records.Encode.{encode_records, encode_tls_records, record_stats, RecordStats}
use hndl_dev.Records.Decode.{decode_tls_records, max_records}
use hndl_dev.Records.Split.{wire-split_tls_records}
use hndl_dev.Records.RoundTrip.{record_chunk, decode_tls_records-encode_records}

pub stream-record_chunks :
    (d : ℕ) (rs : List TlsRecord) → stream d (map record_chunk rs) ≡ wire d rs
unfolding stream wire record_chunk
stream-record_chunks d [] = refl
stream-record_chunks d (r ∷ rs) = ground (arith, stream-record_chunks d rs)

-- If a capture's chunks compact, the layout and the opaque bytes expand to chunks in which each
-- side sends the same bytes as in the capture, and no opaque byte is left over. The capture has
-- at most `max_records` records.
pub streams_preserved :
    (chunks : List Chunk) (layout opaque : Bytes) (stats : RecordStats)
    → All IsChunk chunks
    → encode_tls_records chunks ≡ ok (layout, opaque, stats)
    → stats.record_count ≤ max_records
    → (chunks' : List Chunk) × Yields
        (decode_tls_records layout)
        (open_reader opaque)
        chunks'
        (λ t. Unread t [])
      × (stream 0 chunks' ≡ stream 0 chunks)
      × (stream 1 chunks' ≡ stream 1 chunks)
unfolding encode_tls_records
streams_preserved chunks layout opaque stats hc h few =
    let (rs, cut, done) = >>=-eq-ok (split_tls_records chunks) _ h in
    let (client, server, valid) = wire-split_tls_records chunks rs hc cut in
    let same_layout : (encode_records rs).out ≡ layout = cc in
    let same_opaque : (encode_records rs).opaque ≡ opaque = cc in
    let same_stats : record_stats chunks rs (encode_records rs) ≡ stats = cc in
    (
      map record_chunk rs,
      subst
          (λ l.
            Yields (decode_tls_records l) (open_reader opaque) (map record_chunk rs)
              (λ t. Unread t []))
          same_layout
          (decode_tls_records-encode_records rs (open_reader opaque) [] valid
            (subst (λ t. t.record_count ≤ max_records) (sym same_stats) few)
            (rw (append-nil, same_opaque) (Unread-open_reader opaque))),
      stream-record_chunks 0 rs ∙ client,
      stream-record_chunks 1 rs ∙ server,
    )
