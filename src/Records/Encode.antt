-- ===== src/Records/Encode.antt =====
-- minarx/protocols/common.py: `_encode_tls_records`.
use mathlib.Core.List.{foldl}
use hndl_dev.Prelude.{
  ℕ, ◌+◌, ◌*◌, bit_or, Bool, true, false, ◌||◌, List, [], ◌∷◌, ◌++◌, ◌==◌, if◌then◌else◌, length,
  bytes_eq,
}
use hndl_dev.Prelude.Bits.{shl}
use hndl_dev.Result.{Result, ok, ◌>>=◌}
use hndl_dev.Binary.{Bytes, encode_uvarint, encode_blob}
use hndl_dev.Pcap.{Chunk, chunk_bytes}
use hndl_dev.Records.{TlsRecord, split_tls_records}

-- `CONTENT_CODES.get(content_type, 7)`
unfoldable pub content_code : ℕ → ℕ
content_code t =
    if t == 20
    then 0
    else if t == 21
    then 1
    else if t == 22
    then 2
    else if t == 23
    then 3
    else if t == 24
    then 4
    else 7

-- `VERSION_CODES.get(version, 7)`
unfoldable pub version_code : Bytes → ℕ
version_code v =
    if bytes_eq v (3 ∷ 3 ∷ [])
    then 0
    else if bytes_eq v (3 ∷ 1 ∷ [])
    then 1
    else if bytes_eq v (3 ∷ 2 ∷ [])
    then 2
    else if bytes_eq v (3 ∷ 4 ∷ [])
    then 3
    else 7

-- `encryption_active`
pub record Active : Type 0 where
  pub client : Bool
  pub server : Bool

abbrev pub is_active : Active → ℕ → Bool
is_active a direction = if direction == 0 then a.client else a.server

abbrev pub activate : Active → ℕ → Active
activate a direction =
    if direction == 0 then record a { client = true } else record a { server = true }

unfoldable pub tag_byte : ℕ → Bool → ℕ → ℕ → ℕ
tag_byte direction is_opaque version content =
    bit_or (bit_or (bit_or (shl direction 7) (if is_opaque then 0x40 else 0)) (shl version 3))
      content

-- The variables of the loop of `_encode_tls_records`.
pub record Encoded : Type 0 where
  pub out : Bytes
  pub opaque : Bytes
  pub protected : ℕ
  pub handshake : ℕ
  pub clear_protocol : ℕ
  pub active : Active

abbrev pub is_opaque : Active → TlsRecord → Bool
is_opaque a r = r.content_type == 23 || is_active a r.direction

-- The tag and the fields that no code stands for.
unfoldable pub record_head : Active → TlsRecord → Bytes
record_head a r =
    tag_byte r.direction (is_opaque a r) (version_code r.version) (content_code r.content_type)
    ∷ ((if content_code r.content_type == 7 then r.content_type ∷ [] else [])
        ++ (if version_code r.version == 7 then r.version else []))

-- The body of the loop.
unfoldable pub encode_record : Encoded → TlsRecord → Encoded
encode_record e r =
    let size = length r.fragment in
    let hidden = is_opaque e.active r in
    record {
      out =
          e.out
          ++ (record_head e.active r
              ++ (if hidden then encode_uvarint size else encode_blob r.fragment));
      opaque = if hidden then e.opaque ++ r.fragment else e.opaque;
      protected = if hidden then e.protected + size else e.protected;
      handshake = if r.content_type == 22 then e.handshake + size else e.handshake;
      clear_protocol = if hidden then e.clear_protocol else e.clear_protocol + size;
      active = if r.content_type == 20 then activate e.active r.direction else e.active;
    }

-- The dictionary of measurements.
pub record RecordStats : Type 0 where
  pub record_count : ℕ
  pub record_header_bytes_removed : ℕ
  pub protected_record_payload_bytes : ℕ
  pub opaque_bytes : ℕ
  pub clear_protocol_bytes : ℕ
  pub clear_handshake_payload_bytes : ℕ
  pub transport_payload_bytes : ℕ

abbrev pub nothing_encoded : ℕ → Encoded
nothing_encoded count = record {
  out = encode_uvarint count;
  opaque = [];
  protected = 0;
  handshake = 0;
  clear_protocol = 0;
  active = record { client = false; server = false };
}

unfoldable pub encode_records : List TlsRecord → Encoded
encode_records records = foldl encode_record (nothing_encoded (length records)) records

abbrev pub record_stats : List Chunk → List TlsRecord → Encoded → RecordStats
record_stats chunks records e = record {
  record_count = length records;
  record_header_bytes_removed = 5 * length records;
  protected_record_payload_bytes = e.protected;
  opaque_bytes = e.protected;
  clear_protocol_bytes = e.clear_protocol;
  clear_handshake_payload_bytes = e.handshake;
  transport_payload_bytes = chunk_bytes chunks;
}

unfoldable pub encode_tls_records : List Chunk → Result (Bytes × Bytes × RecordStats)
encode_tls_records chunks = do
  records ← split_tls_records chunks
  let e = encode_records records
  ok (e.out, e.opaque, record_stats chunks records e)
