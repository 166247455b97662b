-- ===== src/Records/Resplit.antt =====
-- Records that were expanded to chunks are split into the same records again.
use hndl_dev.Prelude.{
  ℕ, zero, suc, ◌+◌, ◌*◌, ◌/◌, ◌%◌, ◌≤◌, ◌≡◌, refl, ◌∙◌, List, [], ◌∷◌, ◌++◌, map, append-nil,
  append_assoc, arith, length, take, drop, All, take-all, drop-all,
}
use hndl_dev.Prelude.Endian.{to_bytes_big, from_bytes_two}
use hndl_dev.Result.{ok}
use hndl_dev.Binary.{Bytes}
use hndl_dev.Records.{
  TlsRecord, buffer, with_buffer, no_pending, record_length, first_record, drain, split_chunks,
  split_tls_records, record_bytes, IsRecord,
}
use hndl_dev.Records.RoundTrip.{record_chunk}

drain-nil : (fuel direction : ℕ) (old : List TlsRecord) → drain fuel direction [] old ≡ ok ([], old)
unfolding drain
drain-nil zero direction old = refl
drain-nil (suc fuel) direction old = refl

drain_step :
    (fuel direction : ℕ) (buf : Bytes) (old : List TlsRecord)
    → 5 ≤ length buf
    → record_length buf ≤ 18432
    → 5 + record_length buf ≤ length buf
    → drain (suc fuel) direction buf old
      ≡ drain fuel direction
          (drop (5 + record_length buf) buf)
          (old ++ (first_record direction buf ∷ []))
unfolding drain
drain_step fuel direction buf old long small whole = ground arith

-- A buffer with exactly one record: `h` and `l` are the bytes of its length.
module _ (direction t a b h l : ℕ) (f : Bytes) (size : h * 256 + l ≡ length f) where
  abbrev one_record : Bytes
  one_record = t ∷ a ∷ b ∷ h ∷ l ∷ f

  length_field : record_length one_record ≡ length f
  length_field = from_bytes_two h l ∙ size

  first_record_lem :
      first_record direction one_record
      ≡ record { direction = direction; content_type = t; version = a ∷ b ∷ []; fragment = f }
  first_record_lem = λ i. record {
    direction = direction;
    content_type = t;
    version = a ∷ b ∷ [];
    fragment = fragment i;
  }
    where
      fragment : take (record_length one_record) f ≡ f
      fragment = take-all _ f (omega (arith, length_field))

  nothing_left : drop (5 + record_length one_record) one_record ≡ []
  nothing_left = drop-all _ one_record (omega (arith, length_field))

  drain_one :
      (fuel : ℕ) (old : List TlsRecord)
      → length f ≤ 18432
      → drain (suc fuel) direction one_record old
        ≡ ok (
          [],
          old
              ++ (record {
                direction = direction;
                content_type = t;
                version = a ∷ b ∷ [];
                fragment = f;
              }
                  ∷ []),
        )
  drain_one fuel old small =
      drain_step fuel direction one_record old (omega arith) (omega (arith, length_field))
        (omega (arith, length_field))
      ∙ rw (nothing_left, first_record_lem) (drain-nil fuel direction _)

abbrev built : ℕ → ℕ → Bytes → Bytes → TlsRecord
built d t v f = record { direction = d; content_type = t; version = v; fragment = f }

drain-built :
    (d t : ℕ) (v f : Bytes) (old : List TlsRecord)
    → length v ≡ 2
    → length f ≤ 18432
    → drain (length (record_bytes (built d t v f))) d (record_bytes (built d t v f)) old
      ≡ ok ([], old ++ (built d t v f ∷ []))
unfolding record_bytes to_bytes_big
drain-built d t (a ∷ b ∷ []) f old two small =
    drain_one d t a b (length f / 256 % 256) (length f % 256) f (omega arith) _ old small
drain-built d t [] f old two small = absurd (omega arith)
drain-built d t (a ∷ []) f old two small = absurd (omega arith)
drain-built d t (a ∷ b ∷ c ∷ v) f old two small = absurd (omega arith)

drain-record_bytes :
    (r : TlsRecord) (old : List TlsRecord)
    → IsRecord r
    → drain (length (record_bytes r)) r.direction (record_bytes r) old ≡ ok ([], old ++ (r ∷ []))
drain-record_bytes r old valid =
    drain-built r.direction r.content_type r.version r.fragment old valid.version_size
      valid.fragment_size

buffer_none : (d : ℕ) → buffer no_pending d ≡ []
buffer_none d = ground arith

with_buffer_none : (d : ℕ) → with_buffer no_pending d [] ≡ no_pending
with_buffer_none d = ground arith

split_chunks-record_chunks :
    (rs old : List TlsRecord)
    → All IsRecord rs
    → split_chunks (map record_chunk rs) no_pending old ≡ ok (no_pending, old ++ rs)
unfolding split_chunks record_chunk
split_chunks-record_chunks [] old h = rw (append-nil old)
split_chunks-record_chunks (r ∷ rs) old (hr, hrs) = rw (buffer_none r.direction) (
    rw (drain-record_bytes r old hr) (
      rw (with_buffer_none r.direction) (
        rw (← append_assoc old (r ∷ []) rs) (split_chunks-record_chunks rs (old ++ (r ∷ [])) hrs))))

-- Expanding records to one chunk each and splitting the chunks gives the same records, in order.
pub split_tls_records-record_chunks :
    (rs : List TlsRecord) → All IsRecord rs → split_tls_records (map record_chunk rs) ≡ ok rs
unfolding split_tls_records
split_tls_records-record_chunks rs h = rw (split_chunks-record_chunks rs [] h)
