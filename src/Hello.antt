-- ===== src/Hello.antt =====
-- minarx/protocols/common.py: `clear_handshake_messages`, the messages of the records of
-- type 22 in a TLS capture.
pub mod Drained
pub mod Framing
pub mod Cursor
pub mod Extensions
pub mod Parameters
pub mod Safety
use hndl_dev.Prelude.{
  ℕ, zero, suc, ◌+◌, ◌^◌, List, [], ◌∷◌, ◌++◌, ltb, ◌==◌, if◌then◌else◌, length, take, drop,
}
use hndl_dev.Prelude.Endian.{from_bytes_big}
use hndl_dev.Result.{Result, ok, err, value_error, invalid_handshake_length, ◌>>=◌}
use hndl_dev.Binary.{Bytes}
use hndl_dev.Pcap.{Chunk}
use hndl_dev.Records.{TlsRecord, Pending, buffer, with_buffer, no_pending, split_tls_records}

-- The tuples `(direction, message)`.
pub record Message : Type 0 where
  pub direction : ℕ
  pub contents : Bytes

abbrev pub message_length : Bytes → ℕ
message_length buf = from_bytes_big (take 3 (drop 1 buf))

abbrev pub first_message : ℕ → Bytes → Message
first_message direction buf = record {
  direction = direction;
  contents = take (4 + message_length buf) buf;
}

-- `while len(buffer) >= 4`. A round takes four bytes at least, so as many rounds as there are bytes
-- are enough.
unfoldable pub drain_messages : ℕ → ℕ → Bytes → List Message → Result (Bytes × List Message)
drain_messages zero direction buf messages = ok (buf, messages)
drain_messages (suc fuel) direction buf messages =
    let rest =
      drain_messages fuel direction (drop (4 + message_length buf) buf)
        (messages ++ (first_message direction buf ∷ [])) in
    if ltb (length buf) 4
    then ok (buf, messages)
    else if ltb (2 ^ 24) (message_length buf)
    then err (value_error invalid_handshake_length)
    else if ltb (length buf) (4 + message_length buf)
    then ok (buf, messages)
    else rest

-- The loop over the records; a record of another type is passed over.
unfoldable pub handshake_records :
    List TlsRecord → Pending → List Message → Result (Pending × List Message)
handshake_records [] pending messages = ok (pending, messages)
handshake_records (r ∷ rs) pending messages =
    let buf = buffer pending r.direction ++ r.fragment in
    let skipped = handshake_records rs pending messages in
    let taken = (do
      (buf', messages') ← drain_messages (length buf) r.direction buf messages
      handshake_records rs (with_buffer pending r.direction buf') messages') in
    if r.content_type == 22 then taken else skipped

unfoldable pub clear_handshake_messages : List Chunk → Result (List Message)
clear_handshake_messages chunks = do
  records ← split_tls_records chunks
  (pending, messages) ← handshake_records records no_pending []
  ok messages
