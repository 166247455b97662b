-- ===== src/Tls/Layouts.antt =====
-- minarx/protocols/common.py: what `materialize_tls_pcaps` reads from encoded records.
use hndl_dev.Prelude.{
  ◌≤◌, List, [], ◌∷◌, ◌++◌, map, append_assoc, append-nil, arith, ◌==◌, length, All,
}
use hndl_dev.Result.{decode_error, wrong_capture_count}
use hndl_dev.Exec.{Yields, Yields-pure, Yields-bind}
use hndl_dev.Binary.{Bytes, max_field_size, encode_uvarint, encode_blob}
use hndl_dev.Binary.View.{finish-Yields}
use hndl_dev.Binary.RoundTrip.{uvarint-encode_uvarint, blob-encode_blob}
use hndl_dev.Readers.{Readers}
use hndl_dev.Readers.View.{Both, on_layout-Yields, on_opaque-Yields}
use hndl_dev.Pcap.{Chunk}
use hndl_dev.Records.{TlsRecord, IsRecord}
use hndl_dev.Records.Encode.{encode_records}
use hndl_dev.Records.Decode.{max_records}
use hndl_dev.Records.RoundTrip.{record_chunk, decode_tls_records-encode_records}
use hndl_dev.Chunks.RoundTrip.{guard-Yields}
use hndl_dev.Tls.{expand_tls_file, expand_tls_files, expand_tls_all}

-- The records of a file are within the bounds of the reader.
pub record FitsRecords (rs : List TlsRecord) : Type 0 where
  pub valid : All IsRecord rs
  pub few : length rs ≤ max_records
  pub layout_size : length (encode_records rs).out ≤ max_field_size

expand_tls_file-Yields :
    (rs : List TlsRecord) (s : Readers) (xs ys : Bytes)
    → FitsRecords rs
    → Both s (encode_blob (encode_records rs).out ++ xs) ((encode_records rs).opaque ++ ys)
    → Yields expand_tls_file s (map record_chunk rs) (λ t. Both t xs ys)
unfolding expand_tls_file
expand_tls_file-Yields rs s xs ys fits b =
    Yields-bind _
      (on_layout-Yields _ _ xs b (
        blob-encode_blob max_field_size (encode_records rs).out s.layout xs fits.layout_size
          (omega (arith, fits.layout_size)) b.layout))
      λ t h.
        on_opaque-Yields _ _ ys h
          (decode_tls_records-encode_records rs t.opaque ys fits.valid fits.few h.opaque)

unfoldable pub layouts : List (List TlsRecord) → Bytes
layouts [] = []
layouts (rs ∷ rss) = encode_blob (encode_records rs).out ++ layouts rss

unfoldable pub opaques : List (List TlsRecord) → Bytes
opaques [] = []
opaques (rs ∷ rss) = (encode_records rs).opaque ++ opaques rss

expand_tls_files-Yields :
    (rss : List (List TlsRecord)) (acc : List (List Chunk)) (s : Readers) (xs ys : Bytes)
    → All FitsRecords rss
    → Both s (layouts rss ++ xs) (opaques rss ++ ys)
    → Yields
        (expand_tls_files (length rss) acc)
        s
        (acc ++ map (map record_chunk) rss)
        (λ t. Both t xs ys)
unfolding expand_tls_files layouts opaques
expand_tls_files-Yields [] acc s xs ys h b = rw append-nil (Yields-pure acc b)
expand_tls_files-Yields (rs ∷ rss) acc s xs ys (hr, hrs) b =
    Yields-bind _
      (expand_tls_file-Yields rs s (layouts rss ++ xs) (opaques rss ++ ys) hr (
        rw
          (
            append_assoc (encode_blob (encode_records rs).out) _ _,
            append_assoc (encode_records rs).opaque _ _,
          )
          at b))
      λ t k.
        rw (← append_assoc acc (map record_chunk rs ∷ []) (map (map record_chunk) rss))
          (expand_tls_files-Yields rss (acc ++ (map record_chunk rs ∷ [])) t xs ys hrs k)

pub expand_tls_all-Yields :
    (rss : List (List TlsRecord)) (s : Readers)
    → All FitsRecords rss
    → length rss ≤ 32
    → Both s (encode_uvarint (length rss) ++ layouts rss) (opaques rss)
    → Yields (expand_tls_all (length rss)) s (map (map record_chunk) rss) (λ t. Both t [] [])
expand_tls_all-Yields rss s fits few b =
    let b' : Both s (encode_uvarint (length rss) ++ (layouts rss ++ [])) (opaques rss ++ []) =
      rw (append-nil (layouts rss), append-nil (opaques rss)) b in
    Yields-bind _
      (on_layout-Yields _ _ (layouts rss ++ []) b'
        (uvarint-encode_uvarint 32 (length rss) s.layout _ few (omega arith) b'.layout))
      λ t h.
        Yields-bind _
          (guard-Yields (length rss == length rss) (decode_error wrong_capture_count) (ground arith)
            h)
          λ u k. Yields-bind _ (expand_tls_files-Yields rss [] u [] [] fits k) λ q l.
            Yields-bind _ (on_layout-Yields [] [] [] l (finish-Yields q.layout l.layout)) λ v m.
              Yields-bind _ (on_opaque-Yields [] [] [] m (finish-Yields v.opaque m.opaque))
                λ w n. Yields-pure (map (map record_chunk) rss) n
