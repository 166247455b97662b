-- ===== src/Records/RoundTrip.antt =====
-- `_decode_tls_records` gives back the records that `_encode_tls_records` was given.
use mathlib.Core.List.{foldl}
use hndl_dev.Prelude.{
  ℕ, ◌≤◌, ◌≡◌, refl, sym, ap, ◌∙◌, Bool, true, false, some, List, [], ◌∷◌, ◌++◌, map, append-nil,
  append_assoc, arith, ◌==◌, if◌then◌else◌, length, All, Bool-cases, inl, inr,
}
use hndl_dev.Result.{ok}
use hndl_dev.Exec.{Exec, Yields, Yields-pure, Yields-bind}
use hndl_dev.Binary.{Bytes, Reader, open_reader, encode_uvarint, encode_blob}
use hndl_dev.Binary.View.{Unread, Unread-open_reader, byte-Yields, take_bytes-Yields, finish-Yields}
use hndl_dev.Binary.RoundTrip.{uvarint-encode_uvarint, blob-encode_blob}
use hndl_dev.Readers.{Readers}
use hndl_dev.Readers.View.{Both, on_layout-Yields, on_opaque-Yields}
use hndl_dev.Pcap.{Chunk}
use hndl_dev.Records.{TlsRecord, IsRecord, record_bytes}
use hndl_dev.Records.Encode.{
  Active, activate, is_opaque, content_code, version_code, record_head, Encoded, encode_record,
  nothing_encoded, encode_records,
}
use hndl_dev.Records.Decode.{
  read_type, read_version, read_fragment, decode_fields, decode_record, decode_loop, max_records,
  decode_all, keep_opaque, decode_tls_records,
}
use hndl_dev.Records.Codes.{
  tag_fields, content_code-lt, code_content-content_code, version_code-lt,
  code_version-version_code,
}

-- The fields that follow a tag, as the encoder writes and the decoder reads them.
type_field : ℕ → Bytes
type_field t = if content_code t == 7 then t ∷ [] else []

version_field : Bytes → Bytes
version_field v = if version_code v == 7 then v else []

payload : Bool → Bytes → Bytes
payload true fragment = encode_uvarint (length fragment)
payload false fragment = encode_blob fragment

hidden_part : Bool → Bytes → Bytes
hidden_part true fragment = fragment
hidden_part false fragment = []

module _ (s : Readers) (xs ys : Bytes) where
  read_type-Yields :
      (t : ℕ)
      → Both s (type_field t ++ xs) ys
      → Yields (read_type (content_code t)) s (some t) (λ q. Both q xs ys)
  unfolding type_field
  read_type-Yields t b = elim (Bool-cases (content_code t == 7)) [
    | inl raw ↦
        let b' : Both s (t ∷ xs) ys = rw raw at b in
        rw raw (
          Yields-bind _ (on_layout-Yields (t ∷ xs) ys xs b' (byte-Yields s.layout t xs b'.layout))
            (λ q h. Yields-pure (some t) h))
    | inr coded ↦
        rw (coded, code_content-content_code t (ground arith))
          (Yields-pure (some t) (rw coded at b))
  ]

  read_version-Yields :
      (v : Bytes)
      → length v ≡ 2
      → Both s (version_field v ++ xs) ys
      → Yields (read_version (version_code v)) s (some v) (λ q. Both q xs ys)
  unfolding version_field
  read_version-Yields v two b = elim (Bool-cases (version_code v == 7)) [
    | inl raw ↦
        let b' : Both s (v ++ xs) ys = rw raw at b in
        let taken = rw two at (take_bytes-Yields s.layout v xs b'.layout) in
        rw raw (
          Yields-bind _ (on_layout-Yields (v ++ xs) ys xs b' taken) (λ q h. Yields-pure (some v) h))
    | inr coded ↦
        rw (coded, code_version-version_code v (ground arith))
          (Yields-pure (some v) (rw coded at b))
  ]

  read_fragment-Yields :
      (hidden : Bool) (fragment : Bytes)
      → length fragment ≤ 18432
      → Both s (payload hidden fragment ++ xs) (hidden_part hidden fragment ++ ys)
      → Yields (read_fragment hidden) s fragment (λ q. Both q xs ys)
  unfolding payload hidden_part
  read_fragment-Yields true fragment fits b =
      Yields-bind _
        (on_layout-Yields _ _ xs b
          (uvarint-encode_uvarint 18432 (length fragment) s.layout xs fits (omega arith) b.layout))
        (λ q h.
          on_opaque-Yields xs (fragment ++ ys) ys h
            (take_bytes-Yields q.opaque fragment ys h.opaque))
  read_fragment-Yields false fragment fits b =
      on_layout-Yields _ _ xs b
        (blob-encode_blob 18432 fragment s.layout xs fits (omega arith) b.layout)

-- The chunk that stands for a record.
unfoldable pub record_chunk : TlsRecord → Chunk
record_chunk r = record { direction = r.direction; contents = record_bytes r }

decode_fields-Yields :
    (r : TlsRecord) (hidden : Bool) (s : Readers) (xs ys : Bytes)
    → IsRecord r
    → Both s
        (type_field r.content_type
          ++ (version_field r.version ++ (payload hidden r.fragment ++ xs)))
        (hidden_part hidden r.fragment ++ ys)
    → Yields
        (decode_fields (content_code r.content_type) (version_code r.version) hidden r.direction)
        s
        (record_chunk r)
        (λ t. Both t xs ys)
unfolding decode_fields record_chunk record_bytes
decode_fields-Yields r hidden s xs ys valid b =
    Yields-bind _ (read_type-Yields s _ _ r.content_type b) λ t h.
      Yields-bind _ (read_version-Yields t _ _ r.version valid.version_size h) λ q k.
        Yields-bind _ (read_fragment-Yields q xs ys hidden r.fragment valid.fragment_size k)
          λ z l. Yields-pure _ l

-- What the encoder adds to the layout and to the opaque bytes for one record.
entry : Active → TlsRecord → Bytes
entry a r = record_head a r ++ payload (is_opaque a r) r.fragment

kept_aside : Active → TlsRecord → Bytes
kept_aside a r = hidden_part (is_opaque a r) r.fragment

decode_record-Yields :
    (a : Active) (r : TlsRecord) (s : Readers) (xs ys : Bytes)
    → IsRecord r
    → Both s (entry a r ++ xs) (kept_aside a r ++ ys)
    → Yields decode_record s (record_chunk r) (λ t. Both t xs ys)
unfolding decode_record entry kept_aside record_head type_field version_field
decode_record-Yields a r s xs ys valid b =
    let b' = rw (append_assoc, append_assoc) at b in
    let (low, mid, flag, high) =
      tag_fields r.direction (version_code r.version) (content_code r.content_type) (is_opaque a r)
        valid.direction_bound (version_code-lt r.version) (content_code-lt r.content_type) in
    Yields-bind _ (on_layout-Yields _ _ _ b' (byte-Yields s.layout _ _ b'.layout))
      λ t h. rw (low, mid, flag, high) (decode_fields-Yields r (is_opaque a r) t xs ys valid h)

next_active : Active → TlsRecord → Active
next_active a r = if r.content_type == 20 then activate a r.direction else a

entries : Active → List TlsRecord → Bytes
entries a [] = []
entries a (r ∷ rs) = entry a r ++ entries (next_active a r) rs

set_aside : Active → List TlsRecord → Bytes
set_aside a [] = []
set_aside a (r ∷ rs) = kept_aside a r ++ set_aside (next_active a r) rs

decode_loop-Yields :
    (rs : List TlsRecord) (a : Active) (s : Readers) (acc : List Chunk) (xs ys : Bytes)
    → All IsRecord rs
    → Both s (entries a rs ++ xs) (set_aside a rs ++ ys)
    → Yields (decode_loop (length rs) acc) s (acc ++ map record_chunk rs) (λ t. Both t xs ys)
unfolding decode_loop entries set_aside
decode_loop-Yields [] a s acc xs ys h b = rw append-nil (Yields-pure acc b)
decode_loop-Yields (r ∷ rs) a s acc xs ys (hr, hrs) b =
    Yields-bind _
      (decode_record-Yields a r s (entries (next_active a r) rs ++ xs)
        (set_aside (next_active a r) rs ++ ys) hr
        (rw (append_assoc (entry a r) _ _, append_assoc (kept_aside a r) _ _) at b))
      λ t k.
        rw (← append_assoc acc (record_chunk r ∷ []) (map record_chunk rs))
          (decode_loop-Yields rs (next_active a r) t (acc ++ (record_chunk r ∷ [])) xs ys hrs k)

-- One step of the encoder in those terms.
module _ (e : Encoded) (r : TlsRecord) where
  out-encode_record : (encode_record e r).out ≡ e.out ++ entry e.active r
  unfolding encode_record entry payload
  out-encode_record = ground arith

  opaque-encode_record : (encode_record e r).opaque ≡ e.opaque ++ kept_aside e.active r
  unfolding encode_record kept_aside hidden_part
  opaque-encode_record = ground (arith, append-nil e.opaque)

  active-encode_record : (encode_record e r).active ≡ next_active e.active r
  unfolding encode_record next_active
  active-encode_record = refl

out-foldl :
    (rs : List TlsRecord) (e : Encoded)
    → (foldl encode_record e rs).out ≡ e.out ++ entries e.active rs
unfolding entries
out-foldl [] e = sym (append-nil e.out)
out-foldl (r ∷ rs) e =
    out-foldl rs (encode_record e r)
    ∙ rw (out-encode_record e r, active-encode_record e r) (append_assoc e.out _ _)

opaque-foldl :
    (rs : List TlsRecord) (e : Encoded)
    → (foldl encode_record e rs).opaque ≡ e.opaque ++ set_aside e.active rs
unfolding set_aside
opaque-foldl [] e = sym (append-nil e.opaque)
opaque-foldl (r ∷ rs) e =
    opaque-foldl rs (encode_record e r)
    ∙ rw (opaque-encode_record e r, active-encode_record e r) (append_assoc e.opaque _ _)

keep_opaque-Yields :
    (m : Exec Readers (List Chunk)) (s : Readers) (chunks : List Chunk) (ys : Bytes)
    → Yields m s chunks (λ t. Both t [] ys)
    → (t : Reader) × (keep_opaque (m s) ≡ ok (chunks, t)) × Unread t ys
keep_opaque-Yields m s chunks ys y = (y.after.opaque, ap keep_opaque y.runs, y.holds.opaque)

decode_all-Yields :
    (rs : List TlsRecord) (a : Active) (r : Reader) (ys : Bytes)
    → All IsRecord rs
    → length rs ≤ max_records
    → Unread r (set_aside a rs ++ ys)
    → Yields decode_all
        (record { layout = open_reader (encode_uvarint (length rs) ++ entries a rs); opaque = r })
        (map record_chunk rs)
        (λ t. Both t [] ys)
decode_all-Yields rs a r ys valid few u =
    Yields-bind _
      (on_layout-Yields _ _ (entries a rs ++ []) start
        (uvarint-encode_uvarint max_records (length rs) _ _ few (omega arith) start.layout))
      λ t h. Yields-bind _ (decode_loop-Yields rs a t [] [] ys valid h) λ q k.
        Yields-bind _ (on_layout-Yields [] ys [] k (finish-Yields q.layout k.layout))
          λ z l. Yields-pure (map record_chunk rs) l
  where
    whole : Bytes
    whole = encode_uvarint (length rs) ++ entries a rs

    start :
        Both
          (record { layout = open_reader whole; opaque = r })
          (encode_uvarint (length rs) ++ (entries a rs ++ []))
          (set_aside a rs ++ ys)
    start = record {
      layout = rw (append-nil (entries a rs)) (Unread-open_reader whole);
      opaque = u;
    }

-- Decoding an encoding: every record comes back as one chunk, in the order in which the records
-- were completed, and the opaque reader stands behind the bytes that were set aside.
pub decode_tls_records-encode_records :
    (rs : List TlsRecord) (r : Reader) (ys : Bytes)
    → All IsRecord rs
    → length rs ≤ max_records
    → Unread r ((encode_records rs).opaque ++ ys)
    → Yields (decode_tls_records (encode_records rs).out) r (map record_chunk rs) (λ t. Unread t ys)
unfolding decode_tls_records encode_records
decode_tls_records-encode_records rs r ys valid few u =
    let e = nothing_encoded (length rs) in
    let u' : Unread r (set_aside e.active rs ++ ys) = rw (opaque-foldl rs e) at u in
    let (t, runs, left) =
      keep_opaque-Yields decode_all _ (map record_chunk rs) ys
        (decode_all-Yields rs e.active r ys valid few u') in
    rw (out-foldl rs e) (record { after = t; runs = runs; holds = left })
