-- ===== src/Tests/BinaryRuns.antt =====
-- minarx/binary.py at concrete bytes.
use hndl_dev.Prelude.{◌≤◌, ◌≡◌, refl, [], ◌∷◌, arith}
use hndl_dev.Result.{ok, err, decode_error, truncated_byte, truncated_field}
use hndl_dev.Exec.{Yields}
use hndl_dev.Binary.{
  open_reader, byte, uvarint_loop, uvarint, take_bytes, blob, encode_uvarint, encode_blob,
}
use hndl_dev.Binary.View.{Unread, Unread-open_reader}
use hndl_dev.Binary.RoundTrip.{uvarint-encode_uvarint, blob-encode_blob}
use hndl_dev.Binary.Limits.{uvarint-Advanced, Advanced}

encode_300 : encode_uvarint 300 ≡ 0xac ∷ 0x02 ∷ []
unfolding encode_uvarint
encode_300 = refl

uvarint_truncated : uvarint 1000 (open_reader (0xac ∷ [])) ≡ err (decode_error truncated_byte)
unfolding uvarint uvarint_loop byte
uvarint_truncated = refl

blob_truncated : blob 1000 (open_reader (3 ∷ 1 ∷ [])) ≡ err (decode_error truncated_field)
unfolding blob uvarint uvarint_loop byte take_bytes
blob_truncated = refl

padded_run :
    uvarint 9 (open_reader (0x85 ∷ 0x00 ∷ 7 ∷ []))
    ≡ ok (5, record { contents = 0x85 ∷ 0x00 ∷ 7 ∷ []; offset = 2 })
unfolding uvarint uvarint_loop byte
padded_run = refl

uvarint-encode_uvarint_example :
    Yields (uvarint 1000) (open_reader (0xac ∷ 0x02 ∷ 9 ∷ [])) 300 (λ t. Unread t (9 ∷ []))
unfolding encode_uvarint
uvarint-encode_uvarint_example =
    uvarint-encode_uvarint 1000 300 (open_reader (0xac ∷ 0x02 ∷ 9 ∷ [])) (9 ∷ []) (omega arith)
      (omega arith) (Unread-open_reader (0xac ∷ 0x02 ∷ 9 ∷ []))

blob-encode_blob_example :
    Yields (blob 4) (open_reader (2 ∷ 7 ∷ 8 ∷ 9 ∷ [])) (7 ∷ 8 ∷ []) (λ t. Unread t (9 ∷ []))
unfolding encode_blob encode_uvarint
blob-encode_blob_example =
    blob-encode_blob 4 (7 ∷ 8 ∷ []) (open_reader (2 ∷ 7 ∷ 8 ∷ 9 ∷ [])) (9 ∷ []) (omega arith)
      (omega arith) (Unread-open_reader (2 ∷ 7 ∷ 8 ∷ 9 ∷ []))

uvarint-Advanced_example :
    (5 ≤ 9)
    × Advanced 1 10
        (open_reader (0x85 ∷ 0x00 ∷ 7 ∷ []))
        (record { contents = 0x85 ∷ 0x00 ∷ 7 ∷ []; offset = 2 })
uvarint-Advanced_example =
    uvarint-Advanced 9 (open_reader (0x85 ∷ 0x00 ∷ 7 ∷ []))
      (record { contents = 0x85 ∷ 0x00 ∷ 7 ∷ []; offset = 2 }) 5 padded_run
