-- ===== src/Tls/RoundTrip.antt =====
-- minarx/protocols/common.py: `materialize_tls_pcaps` after `compact_tls_pcaps`.
use hndl_dev.Prelude.{
  ℕ, suc, ◌≤◌, ◌≡◌, refl, sym, ap, ◌∙◌, List, [], ◌∷◌, ◌++◌, map, append_assoc, append-nil, arith,
  length, All,
}
use mathlib.Core.Path.{subst}
use hndl_dev.Result.{Result, ok, >>=-eq-ok, ◌>>=◌}
use hndl_dev.Binary.{open_reader, max_field_size, encode_uvarint, encode_blob}
use hndl_dev.Binary.View.{Unread, Unread-open_reader}
use hndl_dev.Pcap.{Chunk, IsChunk, stream}
use hndl_dev.Records.{TlsRecord, split_tls_records}
use hndl_dev.Records.Encode.{encode_records, encode_tls_records, record_stats, RecordStats}
use hndl_dev.Records.Decode.{max_records}
use hndl_dev.Records.Split.{wire-split_tls_records}
use hndl_dev.Records.RoundTrip.{record_chunk}
use hndl_dev.Records.Preserves.{stream-record_chunks}
use hndl_dev.Chunks.{CaptureFile}
use hndl_dev.Tls.{tls_result_of, materialize_tls_pcaps}
use hndl_dev.Tls.Compact.{
  TlsCompacted, TraceValidator, add_file, compact_tls_files, compact_tls_pcaps,
}
use hndl_dev.Tls.Layouts.{FitsRecords, layouts, opaques, expand_tls_all-Yields}

-- The records of every file.
unfoldable pub records_of : List CaptureFile → Result (List (List TlsRecord))
records_of [] = ok []
records_of (file ∷ files) = do
  rs ← split_tls_records file.chunks
  rss ← records_of files
  ok (rs ∷ rss)

records_of_cons :
    (file : CaptureFile) (files : List CaptureFile) (rs : List TlsRecord)
    (rss : List (List TlsRecord))
    → split_tls_records file.chunks ≡ ok rs
    → records_of files ≡ ok rss
    → records_of (file ∷ files) ≡ ok (rs ∷ rss)
unfolding records_of
records_of_cons file files rs rss cut more = rw cut (rw more refl)

records_unique :
    (files : List CaptureFile) (a b : List (List TlsRecord))
    → records_of files ≡ ok a
    → records_of files ≡ ok b
    → a ≡ b
records_unique files a b h k = cc

record Added (files : List CaptureFile) (s t : TlsCompacted) : Type 0 where
  records : List (List TlsRecord)
  split : records_of files ≡ ok records
  out : t.out ≡ s.out ++ layouts records
  opaque : t.opaque ≡ s.opaque ++ opaques records
  size : length records ≡ length files

Added-cons :
    (file : CaptureFile) (files : List CaptureFile) (s t : TlsCompacted) (rs : List TlsRecord)
    (stats : RecordStats)
    → split_tls_records file.chunks ≡ ok rs
    → Added files (add_file s file ((encode_records rs).out, (encode_records rs).opaque, stats)) t
    → Added (file ∷ files) s t
unfolding layouts opaques
Added-cons file files s t rs stats cut a = record {
  records = rs ∷ a.records;
  split = records_of_cons file files rs a.records cut a.split;
  out = a.out ∙ append_assoc s.out (encode_blob (encode_records rs).out) (layouts a.records);
  opaque = a.opaque ∙ append_assoc s.opaque (encode_records rs).opaque (opaques a.records);
  size = ap suc a.size;
}

compact_tls_files-Added :
    (validate : TraceValidator) (index : ℕ) (files : List CaptureFile) (s t : TlsCompacted)
    → compact_tls_files validate index files s ≡ ok t
    → Added files s t
unfolding compact_tls_files encode_tls_records records_of layouts opaques
compact_tls_files-Added validate index [] s t h =
    let same : s ≡ t = cc in
    record {
      records = [];
      split = refl;
      out = ap (λ c. c.out) (sym same) ∙ sym (append-nil s.out);
      opaque = ap (λ c. c.opaque) (sym same) ∙ sym (append-nil s.opaque);
      size = refl;
    }
compact_tls_files-Added validate index (file ∷ files) s t h =
    let (u, accepted, h1) = >>=-eq-ok (validate file.chunks index) _ h in
    let (encoded, encodes, h2) = >>=-eq-ok (encode_tls_records file.chunks) _ h1 in
    let (rs, cut, done) = >>=-eq-ok (split_tls_records file.chunks) _ encodes in
    let e = encode_records rs in
    let same : (e.out, e.opaque, record_stats file.chunks rs e) ≡ encoded = cc in
    Added-cons file files s t rs (record_stats file.chunks rs e) cut (
      compact_tls_files-Added validate (suc index) files
        (add_file s file (e.out, e.opaque, record_stats file.chunks rs e)) t
        (subst (λ x. compact_tls_files validate (suc index) files (add_file s file x) ≡ ok t)
          (sym same) h2))

-- The limits of the reader, for the records of one file.
pub record WithinLimits (rs : List TlsRecord) : Type 0 where
  pub few : length rs ≤ max_records
  pub layout_size : length (encode_records rs).out ≤ max_field_size

-- File by file, each side sends the same bytes.
pub data SameStreams : List CaptureFile → List (List Chunk) → Type 0 where
  no_files : SameStreams [] []
  same_file :
      (file : CaptureFile) (files : List CaptureFile) (cs : List Chunk) (css : List (List Chunk))
      → stream 0 cs ≡ stream 0 file.chunks
      → stream 1 cs ≡ stream 1 file.chunks
      → SameStreams files css
      → SameStreams (file ∷ files) (cs ∷ css)

record Cut (files : List CaptureFile) (rss : List (List TlsRecord)) : Type 0 where
  fits : All FitsRecords rss
  same : SameStreams files (map (map record_chunk) rss)

records_of-Cut :
    (files : List CaptureFile) (rss : List (List TlsRecord))
    → All (λ f. All IsChunk f.chunks) files
    → records_of files ≡ ok rss
    → All WithinLimits rss
    → Cut files rss
unfolding records_of
records_of-Cut [] rss hc h w =
    let e : [] ≡ rss = cc in subst (Cut []) e (record { fits = tt; same = no_files })
records_of-Cut (file ∷ files) rss (hc, hcs) h w =
    let (rs, cut, h1) = >>=-eq-ok (split_tls_records file.chunks) _ h in
    let (rest, more, h2) = >>=-eq-ok (records_of files) _ h1 in
    let e : rs ∷ rest ≡ rss = cc in
    let (wr, wrs) = subst (All WithinLimits) (sym e) w in
    let (client, server, valid) = wire-split_tls_records file.chunks rs hc cut in
    let c = records_of-Cut files rest hcs more wrs in
    subst (Cut (file ∷ files)) e (record {
      fits = (record { valid = valid; few = wr.few; layout_size = wr.layout_size }, c.fits);
      same =
          same_file file files (map record_chunk rs) (map (map record_chunk) rest)
            (stream-record_chunks 0 rs ∙ client) (stream-record_chunks 1 rs ∙ server) c.same;
    })

-- If the TLS captures compact, whatever the validator accepts, expanding the result for as many
-- names gives one list of chunks for each file, in which each side sends the same bytes as in the
-- file. At most 32 files of chunks, each with its records within the limits of the reader.
pub materialize-compact_tls_pcaps :
    (validate : TraceValidator) (files : List CaptureFile) (c : TlsCompacted)
    (rss : List (List TlsRecord))
    → All (λ f. All IsChunk f.chunks) files
    → compact_tls_pcaps validate files ≡ ok c
    → records_of files ≡ ok rss
    → length files ≤ 32
    → All WithinLimits rss
    → (css : List (List Chunk)) × (materialize_tls_pcaps c.out c.opaque (length files) ≡ ok css)
      × SameStreams files css
unfolding compact_tls_pcaps materialize_tls_pcaps
materialize-compact_tls_pcaps validate files c rss hc h split few within =
    let a = compact_tls_files-Added validate 0 files _ c h in
    let same : a.records ≡ rss = records_unique files a.records rss a.split split in
    let cut =
      records_of-Cut files a.records hc a.split (subst (All WithinLimits) (sym same) within) in
    let layout : c.out ≡ encode_uvarint (length a.records) ++ layouts a.records = rw a.size a.out in
    let y =
      expand_tls_all-Yields a.records
        (record { layout = open_reader c.out; opaque = open_reader c.opaque }) cut.fits
        (omega (arith, a.size))
        (record {
          layout = subst (Unread (open_reader c.out)) layout (Unread-open_reader c.out);
          opaque = subst (Unread (open_reader c.opaque)) a.opaque (Unread-open_reader c.opaque);
        }) in
    (
      map (map record_chunk) a.records,
      subst (λ n. materialize_tls_pcaps c.out c.opaque n ≡ ok (map (map record_chunk) a.records))
          a.size (unfold materialize_tls_pcaps in ap tls_result_of y.runs),
      cut.same,
    )
