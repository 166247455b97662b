-- ===== src/Chunks/RoundTrip.antt =====
-- `materialize_chunk_pcaps` gives back the chunks that `compact_chunk_pcaps` retained.
use mathlib.Core.Path.{subst}
use hndl_dev.Prelude.{
  suc, ◌≤◌, ◌<◌, ◌≡◌, refl, sym, ap, ◌∙◌, Bool, true, false, List, [], ◌∷◌, ◌++◌, append-nil,
  append_assoc, arith, ◌==◌, ◌||◌, length, All,
}
use hndl_dev.Result.{
  Error, decode_error, invalid_direction, wrong_capture_count, Result, ok, >>=-eq-ok, ◌>>=◌,
}
use hndl_dev.Exec.{guard, Yields, Yields-pure, Yields-bind}
use hndl_dev.Binary.{Bytes, open_reader, max_field_size, encode_uvarint, encode_blob}
use hndl_dev.Binary.View.{Unread, Unread-open_reader, byte-Yields, take_bytes-Yields, finish-Yields}
use hndl_dev.Binary.RoundTrip.{uvarint-encode_uvarint, blob-encode_blob}
use hndl_dev.Readers.{Readers}
use hndl_dev.Readers.View.{Both, on_layout-Yields, on_opaque-Yields}
use hndl_dev.Pcap.{Chunk}
use hndl_dev.Chunks.{
  CaptureFile, ChunkFilter, retained, describe_chunks, chunk_contents, encoded_chunks, Compacted,
  compact_files, compact_chunk_pcaps,
}
use hndl_dev.Chunks.Expand.{
  read_chunk, read_chunks, max_chunks, read_capture, back_to, in_blob, expand_file, expand_files,
  expand_all, result_of, materialize_chunk_pcaps,
}

-- Chunks that the format can hold.
pub record Fits (c : Chunk) : Type 0 where
  pub direction_bound : c.direction < 2
  pub size : length c.contents ≤ max_field_size

pub guard-Yields :
    {s : Readers} {xs ys : Bytes} (b : Bool) (e : Error)
    → b ≡ true
    → Both s xs ys
    → Yields (guard b e) s tt (λ t. Both t xs ys)
guard-Yields true e h b = Yields-pure tt b
guard-Yields false e h b = cc

read_chunk-Yields :
    (c : Chunk) (s : Readers) (xs ys : Bytes)
    → Fits c
    → Both s (c.direction ∷ (encode_uvarint (length c.contents) ++ xs)) (c.contents ++ ys)
    → Yields read_chunk s c (λ t. Both t xs ys)
unfolding read_chunk
read_chunk-Yields c s xs ys fits b =
    Yields-bind _ (on_layout-Yields _ _ _ b (byte-Yields s.layout _ _ b.layout)) λ t h.
      Yields-bind _
        (guard-Yields (c.direction == 0 || c.direction == 1) (decode_error invalid_direction)
          (ground arith) h)
        λ u k.
          Yields-bind _
            (on_layout-Yields _ _ xs k (
              uvarint-encode_uvarint max_field_size (length c.contents) u.layout xs fits.size
                (omega arith) k.layout))
            λ v l.
              Yields-bind _
                (on_opaque-Yields xs (c.contents ++ ys) ys l
                  (take_bytes-Yields v.opaque c.contents ys l.opaque))
                λ w m. Yields-pure c m

read_chunks-Yields :
    (cs acc : List Chunk) (s : Readers) (xs ys : Bytes)
    → All Fits cs
    → Both s (describe_chunks cs ++ xs) (chunk_contents cs ++ ys)
    → Yields (read_chunks (length cs) acc) s (acc ++ cs) (λ t. Both t xs ys)
unfolding read_chunks describe_chunks chunk_contents
read_chunks-Yields [] acc s xs ys h b = rw append-nil (Yields-pure acc b)
read_chunks-Yields (c ∷ cs) acc s xs ys (hc, hcs) b =
    Yields-bind _
      (read_chunk-Yields c s (describe_chunks cs ++ xs) (chunk_contents cs ++ ys) hc (
        rw
          (
            append_assoc (encode_uvarint (length c.contents)) (describe_chunks cs) xs,
            append_assoc c.contents (chunk_contents cs) ys,
          )
          at b))
      λ t k.
        rw (← append_assoc acc (c ∷ []) cs) (read_chunks-Yields cs (acc ++ (c ∷ [])) t xs ys hcs k)

-- A file that was compacted fits the format's bounds.
pub record FitsFile (cs : List Chunk) : Type 0 where
  pub chunks : All Fits cs
  pub count : length cs ≤ max_chunks
  pub description : length (encoded_chunks cs) ≤ max_field_size

read_capture-Yields :
    (cs : List Chunk) (s : Readers) (ys : Bytes)
    → FitsFile cs
    → Both s (encoded_chunks cs) (chunk_contents cs ++ ys)
    → Yields read_capture s cs (λ t. Both t [] ys)
read_capture-Yields cs s ys fits b =
    let b' : Both s (encoded_chunks cs ++ []) (chunk_contents cs ++ ys) =
      rw (append-nil (encoded_chunks cs)) b in
    let b'' = rw (append_assoc (encode_uvarint (length cs)) (describe_chunks cs) []) at b' in
    Yields-bind _
      (on_layout-Yields _ _ (describe_chunks cs ++ []) b'' (
        uvarint-encode_uvarint max_chunks (length cs) s.layout _ fits.count
          (omega (arith, fits.count)) b''.layout))
      λ t h. Yields-bind _ (read_chunks-Yields cs [] t [] ys fits.chunks h) λ q k.
        Yields-bind _ (on_layout-Yields [] ys [] k (finish-Yields q.layout k.layout))
          λ z l. Yields-pure cs l

in_blob-Yields :
    (cs : List Chunk) (s : Readers) (xs ys : Bytes)
    → FitsFile cs
    → Both s xs (chunk_contents cs ++ ys)
    → Yields (in_blob (encoded_chunks cs)) s cs (λ t. Both t xs ys)
in_blob-Yields cs s xs ys fits b = record {
  after = record { layout = s.layout; opaque = inner.after.opaque };
  runs = ap (back_to s.layout) inner.runs;
  holds = record { layout = b.layout; opaque = inner.holds.opaque };
}
  where
    inner :
        Yields read_capture
          (record { layout = open_reader (encoded_chunks cs); opaque = s.opaque })
          cs
          (λ t. Both t [] ys)
    inner =
        read_capture-Yields cs _ ys fits
          (record { layout = Unread-open_reader (encoded_chunks cs); opaque = b.opaque })

expand_file-Yields :
    (cs : List Chunk) (s : Readers) (xs ys : Bytes)
    → FitsFile cs
    → Both s (encode_blob (encoded_chunks cs) ++ xs) (chunk_contents cs ++ ys)
    → Yields expand_file s cs (λ t. Both t xs ys)
unfolding expand_file
expand_file-Yields cs s xs ys fits b =
    Yields-bind _
      (on_layout-Yields _ _ xs b (
        blob-encode_blob max_field_size (encoded_chunks cs) s.layout xs fits.description
          (omega (arith, fits.description)) b.layout))
      λ t h. in_blob-Yields cs t xs ys fits h

file_blobs : List (List Chunk) → Bytes
file_blobs [] = []
file_blobs (cs ∷ fs) = encode_blob (encoded_chunks cs) ++ file_blobs fs

file_contents : List (List Chunk) → Bytes
file_contents [] = []
file_contents (cs ∷ fs) = chunk_contents cs ++ file_contents fs

expand_files-Yields :
    (fs acc : List (List Chunk)) (s : Readers) (xs ys : Bytes)
    → All FitsFile fs
    → Both s (file_blobs fs ++ xs) (file_contents fs ++ ys)
    → Yields (expand_files (length fs) acc) s (acc ++ fs) (λ t. Both t xs ys)
unfolding expand_files file_blobs file_contents
expand_files-Yields [] acc s xs ys h b = rw append-nil (Yields-pure acc b)
expand_files-Yields (cs ∷ fs) acc s xs ys (hc, hfs) b =
    Yields-bind _
      (expand_file-Yields cs s (file_blobs fs ++ xs) (file_contents fs ++ ys) hc (
        rw
          (append_assoc (encode_blob (encoded_chunks cs)) _ _, append_assoc (chunk_contents cs) _ _)
          at b))
      λ t k.
        rw (← append_assoc acc (cs ∷ []) fs)
          (expand_files-Yields fs (acc ++ (cs ∷ [])) t xs ys hfs k)

-- What `compact_files` adds to its variables: one blob a file, of the chunks that were retained.
unfoldable pub retained_files : ChunkFilter → List CaptureFile → Result (List (List Chunk))
retained_files p [] = ok []
retained_files p (file ∷ files) = do
  cs ← retained p file.chunks
  rest ← retained_files p files
  ok (cs ∷ rest)

compact_files-retained :
    (p : ChunkFilter) (files : List CaptureFile) (s t : Compacted)
    → compact_files p files s ≡ ok t
    → (fs : List (List Chunk)) × (retained_files p files ≡ ok fs)
      × (t.out ≡ s.out ++ file_blobs fs)
      × (t.opaque ≡ s.opaque ++ file_contents fs)
      × (length fs ≡ length files)
unfolding compact_files retained_files file_blobs file_contents
compact_files-retained p [] s t h = (
  [],
  refl,
  ap (λ u. u.out) same ∙ sym (append-nil s.out),
  ap (λ u. u.opaque) same ∙ sym (append-nil s.opaque),
  refl,
)
  where
    same : t ≡ s
    same = cc
compact_files-retained p (file ∷ files) s t h =
    let (cs, kept, later) = >>=-eq-ok (retained p file.chunks) _ h in
    let (fs, rest, out, opaque, size) = compact_files-retained p files _ t later in
    (
      cs ∷ fs,
      rw (kept, rest),
      out ∙ append_assoc s.out _ _,
      opaque ∙ append_assoc s.opaque _ _,
      ap suc size,
    )

expand_all-Yields :
    (fs : List (List Chunk)) (s : Readers)
    → All FitsFile fs
    → length fs ≤ 32
    → Both s (encode_uvarint (length fs) ++ file_blobs fs) (file_contents fs)
    → Yields (expand_all (length fs)) s fs (λ t. Both t [] [])
expand_all-Yields fs s fits few b =
    let b' : Both s (encode_uvarint (length fs) ++ (file_blobs fs ++ [])) (file_contents fs ++ []) =
      rw (append-nil (file_blobs fs), append-nil (file_contents fs)) b in
    Yields-bind _
      (on_layout-Yields _ _ (file_blobs fs ++ []) b'
        (uvarint-encode_uvarint 32 (length fs) s.layout _ few (omega arith) b'.layout))
      λ t h.
        Yields-bind _
          (guard-Yields (length fs == length fs) (decode_error wrong_capture_count) (ground arith)
            h)
          λ u k. Yields-bind _ (expand_files-Yields fs [] u [] [] fits k) λ q l.
            Yields-bind _ (on_layout-Yields [] [] [] l (finish-Yields q.layout l.layout)) λ v m.
              Yields-bind _ (on_opaque-Yields [] [] [] m (finish-Yields v.opaque m.opaque))
                λ w n. Yields-pure fs n

-- If the files compact, expanding the result for as many names gives back, file by file, exactly
-- the chunks that were retained: contents, directions, boundaries and order. At most 32 files, each within
-- the format's bounds.
pub materialize-compact_chunk_pcaps :
    (p : ChunkFilter) (files : List CaptureFile) (c : Compacted) (fs : List (List Chunk))
    → compact_chunk_pcaps p files ≡ ok c
    → retained_files p files ≡ ok fs
    → length files ≤ 32
    → All FitsFile fs
    → materialize_chunk_pcaps c.out c.opaque (length files) ≡ ok fs
unfolding compact_chunk_pcaps materialize_chunk_pcaps
materialize-compact_chunk_pcaps p files c fs h kept few fits =
    let (gs, kept', out, opaque, size) = compact_files-retained p files _ c h in
    let same : gs ≡ fs = cc in
    let count : length files ≡ length fs = omega (arith, size, ap length same) in
    let layout : c.out ≡ encode_uvarint (length fs) ++ file_blobs fs = rw (← same) (rw size out) in
    let bytes : c.opaque ≡ file_contents fs = rw (← same) opaque in
    let y =
      expand_all-Yields fs (record { layout = open_reader c.out; opaque = open_reader c.opaque })
        fits (omega (arith, count))
        (record {
          layout = subst (Unread (open_reader c.out)) layout (Unread-open_reader c.out);
          opaque = subst (Unread (open_reader c.opaque)) bytes (Unread-open_reader c.opaque);
        }) in
    rw count (ap result_of y.runs)
