-- ===== src/Records/Accounting.antt =====
-- The measurements of `_encode_tls_records`.
use mathlib.Core.Path.{subst}
use mathlib.Core.List.{foldl}
use native.Mathlib.Nat.{add-zero, add_assoc}
use hndl_dev.Prelude.{
  ℕ, ◌+◌, ◌*◌, ◌≡◌, refl, sym, ap, ◌∙◌, List, [], ◌∷◌, ◌++◌, arith, length, All, length-append,
}
use hndl_dev.Prelude.Endian.{to_bytes_big, length-to_bytes_big}
use hndl_dev.Result.{ok, >>=-eq-ok}
use hndl_dev.Binary.{Bytes}
use hndl_dev.Pcap.{Chunk, IsChunk, stream, chunk_bytes}
use hndl_dev.Records.{TlsRecord, split_tls_records, record_bytes, wire, IsRecord}
use hndl_dev.Records.Encode.{
  Encoded, encode_record, nothing_encoded, encode_records, encode_tls_records, record_stats,
  RecordStats,
}
use hndl_dev.Records.Split.{wire-split_tls_records}

fragment_total : List TlsRecord → ℕ
fragment_total [] = 0
fragment_total (r ∷ rs) = length r.fragment + fragment_total rs

length-record_bytes : (r : TlsRecord) → IsRecord r → length (record_bytes r) ≡ 5 + length r.fragment
unfolding record_bytes
length-record_bytes r valid = omega (
  arith,
  valid.version_size,
  length-append r.version (to_bytes_big 2 (length r.fragment) ++ r.fragment),
  length-append (to_bytes_big 2 (length r.fragment)) r.fragment,
  length-to_bytes_big 2 (length r.fragment),
)

length-wire :
    (rs : List TlsRecord)
    → All IsRecord rs
    → length (wire 0 rs) + length (wire 1 rs) ≡ 5 * length rs + fragment_total rs
unfolding wire fragment_total
length-wire [] h = omega arith
length-wire (r ∷ rs) (hr, hrs) = ground (
  arith,
  length-wire rs hrs,
  length-record_bytes r hr,
  length-append (record_bytes r) (wire 0 rs),
  length-append (record_bytes r) (wire 1 rs),
)

chunk_bytes-stream :
    (cs : List Chunk)
    → All IsChunk cs
    → chunk_bytes cs ≡ length (stream 0 cs) + length (stream 1 cs)
unfolding chunk_bytes stream
chunk_bytes-stream [] h = omega arith
chunk_bytes-stream (c ∷ cs) (hc, hcs) = ground (
  arith,
  chunk_bytes-stream cs hcs,
  length-append c.contents (stream 0 cs),
  length-append c.contents (stream 1 cs),
)

-- Each fragment is counted once, and the opaque ones are what was set aside.
record Balanced (e : Encoded) (total : ℕ) : Type 0 where
  opaque : length e.opaque ≡ e.protected
  fragments : e.protected + e.clear_protocol ≡ total

encode_record-Balanced :
    (e : Encoded) (r : TlsRecord) (n : ℕ)
    → Balanced e n
    → Balanced (encode_record e r) (n + length r.fragment)
unfolding encode_record
encode_record-Balanced e r n b = ground (arith, length-append e.opaque r.fragment)

foldl-Balanced :
    (rs : List TlsRecord) (e : Encoded) (n : ℕ)
    → Balanced e n
    → Balanced (foldl encode_record e rs) (n + fragment_total rs)
unfolding fragment_total
foldl-Balanced [] e n b = rw add-zero b
foldl-Balanced (r ∷ rs) e n b =
    rw (← add_assoc n (length r.fragment) (fragment_total rs)) (
      foldl-Balanced rs (encode_record e r) (n + length r.fragment)
        (encode_record-Balanced e r n b))

-- The statistics are exact: `opaque_bytes` is the size of the opaque section, and the payload of the
-- capture is the removed record headers, the protected and the clear fragments.
pub encode_tls_records_accounting :
    (chunks : List Chunk) (layout opaque : Bytes) (stats : RecordStats)
    → All IsChunk chunks
    → encode_tls_records chunks ≡ ok (layout, opaque, stats)
    → (stats.opaque_bytes ≡ length opaque)
      × (stats.transport_payload_bytes
          ≡ stats.record_header_bytes_removed + stats.protected_record_payload_bytes
            + stats.clear_protocol_bytes)
unfolding encode_tls_records
encode_tls_records_accounting chunks layout opaque stats hc h =
    let (rs, cut, done) = >>=-eq-ok (split_tls_records chunks) _ h in
    let (client, server, valid) = wire-split_tls_records chunks rs hc cut in
    let b : Balanced (encode_records rs) (0 + fragment_total rs) =
      (unfold encode_records in
        foldl-Balanced rs (nothing_encoded (length rs)) 0
          (record { opaque = refl; fragments = omega arith })) in
    let same_opaque : (encode_records rs).opaque ≡ opaque = cc in
    let same_stats : record_stats chunks rs (encode_records rs) ≡ stats = cc in
    subst
      (λ s.
        (s.opaque_bytes ≡ length opaque)
        × (s.transport_payload_bytes
            ≡ s.record_header_bytes_removed + s.protected_record_payload_bytes
              + s.clear_protocol_bytes))
      same_stats
      (
        sym b.opaque ∙ ap length same_opaque,
        omega (
          arith,
          chunk_bytes-stream chunks hc,
          length-wire rs valid,
          ap length client,
          ap length server,
          b.fragments,
        ),
      )
