-- ===== src/Quic/Frames/RoundTrip.antt =====
-- decryptor/quic/derive_quic.py: `_parse_crypto_frames` on a payload that is laid out as RFC 9000,
-- section 19, says.
use hndl_dev.Prelude.{
  ℕ, zero, suc, ◌*◌, ◌^◌, ◌≤◌, ◌<◌, ◌≡◌, refl, sym, ap, ◌∙◌, List, [], ◌∷◌, ◌++◌, append_assoc,
  append-nil, arith, le→ltb, length, length-append, take-length-append, drop-length-append, All,
  some,
}
use hndl_dev.Result.{ok}
use hndl_dev.Binary.{Bytes}
use hndl_dev.Quic.Varint.{encode_varint, decode_varint-encode_varint, one_byte}
use hndl_dev.Quic.Frames.{
  Segment, next_varint, skip_varints, skip_ack, skip_close, crypto_contents, crypto_frame,
  frames_loop, parse_crypto_frames,
}

pub data Frame : Type 0 where
  padding : Frame
  ack : (largest delay first : ℕ) → List (ℕ × ℕ) → Frame
  crypto : (offset : ℕ) → Bytes → Frame
  close : (error_code kind : ℕ) → Bytes → Frame

unfoldable pub range_bytes : List (ℕ × ℕ) → Bytes
range_bytes [] = []
range_bytes ((gap, size) ∷ ranges) = encode_varint gap ++ (encode_varint size ++ range_bytes ranges)

-- A frame before the rest of the payload.
unfoldable pub frame_before : Frame → Bytes → Bytes
frame_before padding rest = 0 ∷ rest
frame_before (ack largest delay first ranges) rest =
    2
    ∷ (encode_varint largest
        ++ (encode_varint delay
            ++ (encode_varint (length ranges)
                ++ (encode_varint first ++ (range_bytes ranges ++ rest)))))
frame_before (crypto offset contents) rest =
    6 ∷ (encode_varint offset ++ (encode_varint (length contents) ++ (contents ++ rest)))
frame_before (close error_code kind reason) rest =
    28
    ∷ (encode_varint error_code
        ++ (encode_varint kind ++ (encode_varint (length reason) ++ (reason ++ rest))))

unfoldable pub payload_bytes : List Frame → Bytes
payload_bytes [] = []
payload_bytes (f ∷ fs) = frame_before f (payload_bytes fs)

abbrev Fits : ℕ → Type 0
Fits v = v < 2 ^ 62

abbrev RangesFit : List (ℕ × ℕ) → Type 0
RangesFit ranges = All (λ r. Fits r.0 × Fits r.1) ranges

-- Every number of the frame can be written.
pub data IsFrame : Frame → Type 0 where
  is_padding : IsFrame padding
  is_ack :
      {largest delay first : ℕ} {ranges : List (ℕ × ℕ)}
      → largest < 2 ^ 62
      → delay < 2 ^ 62
      → first < 2 ^ 62
      → length ranges < 2 ^ 62
      → All (λ r. (r.0 < 2 ^ 62) × (r.1 < 2 ^ 62)) ranges
      → IsFrame (ack largest delay first ranges)
  is_crypto :
      {offset : ℕ} {contents : Bytes}
      → offset < 2 ^ 62
      → length contents < 2 ^ 62
      → IsFrame (crypto offset contents)
  is_close :
      {error_code kind : ℕ} {reason : Bytes}
      → error_code < 2 ^ 62
      → kind < 2 ^ 62
      → length reason < 2 ^ 62
      → IsFrame (close error_code kind reason)

-- What the CRYPTO frames carry, in their order.
unfoldable pub crypto_segments : List Frame → List Segment
crypto_segments [] = []
crypto_segments (padding ∷ fs) = crypto_segments fs
crypto_segments (ack largest delay first ranges ∷ fs) = crypto_segments fs
crypto_segments (crypto offset contents ∷ fs) = (offset, contents) ∷ crypto_segments fs
crypto_segments (close error_code kind reason ∷ fs) = crypto_segments fs

next_varint-encode_varint :
    (v : ℕ) (rest : Bytes) → Fits v → next_varint (encode_varint v ++ rest) ≡ ok (v, rest)
next_varint-encode_varint v rest h =
    rw (decode_varint-encode_varint v rest h)
      (ap (λ z. ok (v, z)) (drop-length-append (encode_varint v) rest))

next_kind : (kind : ℕ) (rest : Bytes) → kind < 64 → next_varint (kind ∷ rest) ≡ ok (kind, rest)
next_kind kind rest h = rw (one_byte kind rest h) refl

skip_one :
    (count v : ℕ) (rest : Bytes)
    → Fits v
    → skip_varints (suc count) (encode_varint v ++ rest) ≡ skip_varints count rest
unfolding skip_varints
skip_one count v rest h = rw (next_varint-encode_varint v rest h) refl

skip_nothing : (rest : Bytes) → skip_varints 0 rest ≡ ok rest
unfolding skip_varints
skip_nothing rest = refl

skip_two :
    (v w : ℕ) (rest : Bytes)
    → Fits v
    → Fits w
    → skip_varints 2 (encode_varint v ++ (encode_varint w ++ rest)) ≡ ok rest
skip_two v w rest hv hw = skip_one 1 v _ hv ∙ skip_one 0 w rest hw ∙ skip_nothing rest

skip_ranges :
    (ranges : List (ℕ × ℕ)) (rest : Bytes)
    → RangesFit ranges
    → skip_varints (length ranges * 2) (range_bytes ranges ++ rest) ≡ ok rest
unfolding range_bytes
skip_ranges [] rest h = skip_nothing rest
skip_ranges ((gap, size) ∷ ranges) rest ((hg, hs), h) =
    ap (skip_varints (suc (length ranges) * 2)) (
      append_assoc (encode_varint gap) (encode_varint size ++ range_bytes ranges) rest
      ∙ ap (λ z. encode_varint gap ++ z)
          (append_assoc (encode_varint size) (range_bytes ranges) rest))
    ∙ ap
        (λ n.
          skip_varints n
            (encode_varint gap ++ (encode_varint size ++ (range_bytes ranges ++ rest))))
        {x = suc (length ranges) * 2} {y = suc (suc (length ranges * 2))} (omega arith)
    ∙ skip_one (suc (length ranges * 2)) gap _ hg
    ∙ skip_one (length ranges * 2) size _ hs
    ∙ skip_ranges ranges rest h

skip_ack_frame :
    (largest delay first : ℕ) (ranges : List (ℕ × ℕ)) (rest : Bytes)
    → Fits largest
    → Fits delay
    → Fits first
    → Fits (length ranges)
    → RangesFit ranges
    → skip_ack (
        encode_varint largest
        ++ (encode_varint delay
            ++ (encode_varint (length ranges)
                ++ (encode_varint first ++ (range_bytes ranges ++ rest)))))
      ≡ ok rest
unfolding skip_ack
skip_ack_frame largest delay first ranges rest hl hd hf hn hr =
    rw
      (skip_two largest delay
        (encode_varint (length ranges) ++ (encode_varint first ++ (range_bytes ranges ++ rest))) hl
        hd)
      (rw
        (next_varint-encode_varint (length ranges)
          (encode_varint first ++ (range_bytes ranges ++ rest)) hn)
        (rw
          (skip_one 0 first (range_bytes ranges ++ rest) hf
            ∙ skip_nothing (range_bytes ranges ++ rest))
          (skip_ranges ranges rest hr)))

skip_close_frame :
    (error_code kind : ℕ) (reason rest : Bytes)
    → Fits error_code
    → Fits kind
    → Fits (length reason)
    → skip_close (
        encode_varint error_code
        ++ (encode_varint kind ++ (encode_varint (length reason) ++ (reason ++ rest))))
      ≡ ok rest
unfolding skip_close
skip_close_frame error_code kind reason rest he hk hr =
    rw (skip_two error_code kind (encode_varint (length reason) ++ (reason ++ rest)) he hk) (
      rw (next_varint-encode_varint (length reason) (reason ++ rest) hr)
        (ap ok (drop-length-append reason rest)))

crypto_frame_lem :
    (offset : ℕ) (contents rest : Bytes)
    → Fits offset
    → Fits (length contents)
    → crypto_frame (encode_varint offset ++ (encode_varint (length contents) ++ (contents ++ rest)))
      ≡ some ((offset, contents), rest)
unfolding crypto_frame
crypto_frame_lem offset contents rest ho hc =
    rw
      (
        next_varint-encode_varint offset (encode_varint (length contents) ++ (contents ++ rest)) ho,
        crypto_frame,
      )
      (rw (next_varint-encode_varint (length contents) (contents ++ rest) hc, crypto_contents)
        (rw
          (le→ltb (length (contents ++ rest)) (length contents)
            (omega (arith, length-append contents rest)))
          (rw (take-length-append contents rest, drop-length-append contents rest) refl)))

-- The loop over one frame.
frame_round :
    (fuel : ℕ) (f : Frame) (rest : Bytes) (acc : List Segment)
    → IsFrame f
    → frames_loop (suc fuel) (frame_before f rest) acc
      ≡ frames_loop fuel rest (acc ++ crypto_segments (f ∷ []))
unfolding frames_loop frame_before crypto_segments
frame_round fuel padding rest acc is_padding =
    rw (next_kind 0 rest (omega arith), frames_loop) (rw (append-nil acc) refl)
frame_round fuel (ack largest delay first ranges) rest acc (is_ack hl hd hf hn hr) =
    rw (next_kind 2 _ (omega arith), frames_loop)
      (rw (skip_ack_frame largest delay first ranges rest hl hd hf hn hr)
        (rw (append-nil acc) refl))
frame_round fuel (crypto offset contents) rest acc (is_crypto ho hc) =
    rw (next_kind 6 _ (omega arith), frames_loop)
      (rw (crypto_frame_lem offset contents rest ho hc) refl)
frame_round fuel (close error_code kind reason) rest acc (is_close he hk hr) =
    rw (next_kind 28 _ (omega arith), frames_loop)
      (rw (skip_close_frame error_code kind reason rest he hk hr) (rw (append-nil acc) refl))

crypto_segments_cons :
    (f : Frame) (fs : List Frame)
    → crypto_segments (f ∷ fs) ≡ crypto_segments (f ∷ []) ++ crypto_segments fs
unfolding crypto_segments
crypto_segments_cons padding fs = refl
crypto_segments_cons (ack largest delay first ranges) fs = refl
crypto_segments_cons (crypto offset contents) fs = refl
crypto_segments_cons (close error_code kind reason) fs = refl

frame_before_size : (f : Frame) (rest : Bytes) → length rest < length (frame_before f rest)
unfolding frame_before
frame_before_size padding rest = omega arith
frame_before_size (ack largest delay first ranges) rest = omega (
  arith,
  length-append (encode_varint largest) (
      encode_varint delay
      ++ (encode_varint (length ranges) ++ (encode_varint first ++ (range_bytes ranges ++ rest)))),
  length-append (encode_varint delay)
      (encode_varint (length ranges) ++ (encode_varint first ++ (range_bytes ranges ++ rest))),
  length-append (encode_varint (length ranges))
      (encode_varint first ++ (range_bytes ranges ++ rest)),
  length-append (encode_varint first) (range_bytes ranges ++ rest),
  length-append (range_bytes ranges) rest,
)
frame_before_size (crypto offset contents) rest = omega (
  arith,
  length-append (encode_varint offset) (encode_varint (length contents) ++ (contents ++ rest)),
  length-append (encode_varint (length contents)) (contents ++ rest),
  length-append contents rest,
)
frame_before_size (close error_code kind reason) rest = omega (
  arith,
  length-append (encode_varint error_code)
      (encode_varint kind ++ (encode_varint (length reason) ++ (reason ++ rest))),
  length-append (encode_varint kind) (encode_varint (length reason) ++ (reason ++ rest)),
  length-append (encode_varint (length reason)) (reason ++ rest),
  length-append reason rest,
)

frames_loop_end : (fuel : ℕ) (acc : List Segment) → frames_loop fuel [] acc ≡ ok acc
unfolding frames_loop
frames_loop_end zero acc = refl
frames_loop_end (suc fuel) acc = refl

frames_loop-payload_bytes :
    (fs : List Frame) (fuel : ℕ) (acc : List Segment)
    → All IsFrame fs
    → length (payload_bytes fs) ≤ fuel
    → frames_loop fuel (payload_bytes fs) acc ≡ ok (acc ++ crypto_segments fs)
unfolding payload_bytes
frames_loop-payload_bytes [] fuel acc h room =
    frames_loop_end fuel acc
    ∙ ap ok (sym (append-nil acc) ∙ ap (λ z. acc ++ z) (unfold crypto_segments in refl))
frames_loop-payload_bytes (f ∷ fs) zero acc (h, hs) room =
    absurd (omega (arith, frame_before_size f (payload_bytes fs)))
frames_loop-payload_bytes (f ∷ fs) (suc fuel) acc (h, hs) room =
    frame_round fuel f (payload_bytes fs) acc h
    ∙ frames_loop-payload_bytes fs fuel (acc ++ crypto_segments (f ∷ [])) hs
        (omega (arith, frame_before_size f (payload_bytes fs)))
    ∙ ap ok (
        append_assoc acc (crypto_segments (f ∷ [])) (crypto_segments fs)
        ∙ ap (λ z. acc ++ z) (sym (crypto_segments_cons f fs)))

-- From a payload of padding, ACK (without ECN counts), CRYPTO and CONNECTION_CLOSE frames, in any
-- order and number, the parser returns the offsets and contents of the CRYPTO frames, all of them
-- and in their order. Every number is below 2 ^ 62.
pub parse_crypto_frames-payload_bytes :
    (frames : List Frame)
    → All IsFrame frames
    → parse_crypto_frames (payload_bytes frames) ≡ ok (crypto_segments frames)
unfolding parse_crypto_frames
parse_crypto_frames-payload_bytes frames h =
    frames_loop-payload_bytes frames (length (payload_bytes frames)) [] h (omega arith)
