-- ===== src/Quic/Frames.antt =====
-- decryptor/quic/derive_quic.py: the CRYPTO frames of a decrypted payload, the stream that they
-- carry, and the TLS message at its front. What is left of the payload, `plaintext[i:]`, stands in
-- place of the position `i`.
pub mod RoundTrip
pub mod Prefix
use hndl_dev.Prelude.{
  ℕ, zero, suc, ◌+◌, ◌-◌, ◌*◌, Bool, true, false, ◌||◌, Option, none, some, List, [], ◌∷◌, ◌++◌,
  leb, ltb, ◌==◌, if◌then◌else◌, length, take, drop, get_or, bit_or,
}
use hndl_dev.Prelude.Bits.{shl}
use hndl_dev.Result.{Result, ok, err, ◌>>=◌}
use hndl_dev.Binary.{Bytes}
use hndl_dev.Quic.Varint.{decode_varint}

-- A CRYPTO frame's offset and contents, or an entry of a side's dictionary.
abbrev pub Segment : Type 0
Segment = ℕ × Bytes

-- Reads a number and goes past it.
abbrev pub next_varint : Bytes → Result (ℕ × Bytes)
next_varint bytes = do (value, size) ← decode_varint bytes; ok (value, drop size bytes)

-- Goes past so many numbers.
unfoldable pub skip_varints : ℕ → Bytes → Result Bytes
skip_varints zero bytes = ok bytes
skip_varints (suc count) bytes = do (value, rest) ← next_varint bytes; skip_varints count rest

-- Past an ACK frame: its ranges have two numbers each.
unfoldable pub skip_ack : Bytes → Result Bytes
skip_ack bytes = do
  behind_delay ← skip_varints 2 bytes
  (range_count, behind_count) ← next_varint behind_delay
  behind_first ← skip_varints 1 behind_count
  skip_varints (range_count * 2) behind_first

-- Past a CONNECTION_CLOSE frame and its reason.
unfoldable pub skip_close : Bytes → Result Bytes
skip_close bytes = do
  behind_type ← skip_varints 2 bytes
  (reason_len, reason) ← next_varint behind_type
  ok (drop reason_len reason)

-- A CRYPTO frame and what follows it, `none` where the loop stops.
abbrev pub optional : Result (ℕ × Bytes) → Option (ℕ × Bytes)
optional (ok x) = some x
optional (err e) = none

abbrev pub crypto_contents : ℕ → Option (ℕ × Bytes) → Option (Segment × Bytes)
crypto_contents offset none = none
crypto_contents offset (some (size, rest)) =
    if ltb (length rest) size then none else some ((offset, take size rest), drop size rest)

unfoldable pub crypto_frame : Bytes → Option (Segment × Bytes)
crypto_frame bytes = elim (optional (next_varint bytes)) [
  | none ↦ none
  | some (offset, rest) ↦ crypto_contents offset (optional (next_varint rest))
]

-- A round takes a byte at least, so as many rounds as there are bytes are enough.
unfoldable pub frames_loop : ℕ → Bytes → List Segment → Result (List Segment)
frames_loop zero bytes crypto = ok crypto
frames_loop (suc fuel) [] crypto = ok crypto
frames_loop (suc fuel) (b ∷ bs) crypto = elim (next_varint (b ∷ bs)) [
  | err e ↦ ok crypto
  | ok (kind, rest) ↦
      let padding = frames_loop fuel rest crypto in
      let found : Result (List Segment) = elim (crypto_frame rest) [
        | none ↦ ok crypto
        | some (segment, behind) ↦ frames_loop fuel behind (crypto ++ (segment ∷ []))
      ] in
      let ack = (do behind ← skip_ack rest; frames_loop fuel behind crypto) in
      let close = (do behind ← skip_close rest; frames_loop fuel behind crypto) in
      if kind == 0
      then padding
      else if kind == 6
      then found
      else if kind == 2 || kind == 3
      then ack
      else if kind == 28
      then close
      else ok crypto
]

unfoldable pub parse_crypto_frames : Bytes → Result (List Segment)
parse_crypto_frames plaintext = frames_loop (length plaintext) plaintext []

-- `target.setdefault(offset, contents)` for each frame.
unfoldable pub set_default : Segment → List Segment → List Segment
set_default s [] = s ∷ []
set_default (k, c) ((j, d) ∷ segments) =
    if j == k then (j, d) ∷ segments else (j, d) ∷ set_default (k, c) segments

unfoldable pub set_defaults : List Segment → List Segment → List Segment
set_defaults [] target = target
set_defaults (s ∷ frames) target = set_defaults frames (set_default s target)

-- `sorted(segments)`; a dictionary has a key once.
unfoldable pub place : Segment → List Segment → List Segment
place s [] = s ∷ []
place (k, c) ((j, d) ∷ segments) =
    if leb k j then (k, c) ∷ ((j, d) ∷ segments) else (j, d) ∷ place (k, c) segments

unfoldable pub sorted : List Segment → List Segment
sorted [] = []
sorted (s ∷ segments) = place s (sorted segments)

-- The loop of `_reassemble_crypto_prefix`. A segment that is there already adds nothing, as the
-- tail behind its end does.
unfoldable pub extend_prefix : Bytes → List Segment → Bytes
extend_prefix out [] = out
extend_prefix out ((offset, contents) ∷ segments) =
    let rest = extend_prefix (out ++ drop (length out - offset) contents) segments in
    if ltb (length out) offset then out else rest

unfoldable pub reassemble_crypto_prefix : List Segment → Bytes
reassemble_crypto_prefix segments = extend_prefix [] (sorted segments)

-- `(data[1] << 16) | (data[2] << 8) | data[3]`, where the code has seen four bytes.
abbrev pub handshake_length : Bytes → ℕ
handshake_length bytes =
    bit_or (get_or bytes 3 0) (bit_or (shl (get_or bytes 2 0) 8) (shl (get_or bytes 1 0) 16))

unfoldable pub parse_handshake_from_crypto : Bytes → Option Bytes
parse_handshake_from_crypto bytes =
    if ltb (length bytes) 4
    then none
    else if ltb (length bytes) (4 + handshake_length bytes)
    then none
    else some (take (4 + handshake_length bytes) bytes)
