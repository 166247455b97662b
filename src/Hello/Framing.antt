-- ===== src/Hello/Framing.antt =====
-- minarx/protocols/common.py: the messages of `clear_handshake_messages` against the fragments that
-- they are cut from.
use hndl_dev.Prelude.{
  ℕ, zero, suc, ◌<◌, ◌≡◌, refl, sym, ap, ◌∙◌, false, List, [], ◌∷◌, ◌++◌, append_assoc, append-nil,
  arith, ◌==◌, if◌then◌else◌, Bool-cases, inl, inr, length, All, All-append,
}
use mathlib.Core.Path.{subst}
use hndl_dev.Result.{ok, >>=-eq-ok}
use hndl_dev.Binary.{Bytes}
use hndl_dev.Pcap.{Chunk, IsChunk}
use hndl_dev.Records.{
  TlsRecord, IsRecord, Pending, buffer, with_buffer, no_pending, split_tls_records,
}
use hndl_dev.Records.Split.{wire-split_tls_records}
use hndl_dev.Hello.{Message, drain_messages, handshake_records, clear_handshake_messages}
use hndl_dev.Hello.Drained.{
  IsFramed, Incomplete, message_stream, handshake_stream, message_stream-append, Drained,
  drain_messages-Drained,
}

-- What is known of one side before and after some records.
side_stream : ℕ → Pending → List Message → Bytes
side_stream d p ms = message_stream d ms ++ buffer p d

-- A record's rounds leave the other side as it was, and lose no byte of its own.
step_own :
    (d : ℕ) (p : Pending) (f buf' : Bytes) (ms ms' : List Message)
    → Drained d (buffer p d ++ f) buf' ms ms'
    → message_stream d ms' ++ buf' ≡ (message_stream d ms ++ buffer p d) ++ f
step_own d p f buf' ms ms' r =
    ap (λ z. message_stream d z ++ buf') r.grown
    ∙ ap (λ z. z ++ buf') (message_stream-append d ms r.added)
    ∙ append_assoc (message_stream d ms) (message_stream d r.added) buf'
    ∙ ap (λ z. message_stream d ms ++ z) r.bytes
    ∙ sym (append_assoc (message_stream d ms) (buffer p d) f)

step_other :
    (d k : ℕ) (buf buf' : Bytes) (ms ms' : List Message)
    → (d == k) ≡ false
    → Drained d buf buf' ms ms'
    → message_stream k ms' ≡ message_stream k ms
step_other d k buf buf' ms ms' h r =
    ap (message_stream k) r.grown
    ∙ message_stream-append k ms r.added
    ∙ ap (λ z. message_stream k ms ++ z) (r.other k h)
    ∙ append-nil (message_stream k ms)

step_side :
    (k d : ℕ) (p : Pending) (f buf' : Bytes) (ms ms' : List Message)
    → k < 2
    → d < 2
    → Drained d (buffer p d ++ f) buf' ms ms'
    → message_stream k ms' ++ buffer (with_buffer p d buf') k
      ≡ (message_stream k ms ++ buffer p k) ++ (if d == k then f else [])
step_side zero zero p f buf' ms ms' hk hd r = step_own 0 p f buf' ms ms' r
step_side (suc zero) (suc zero) p f buf' ms ms' hk hd r = step_own 1 p f buf' ms ms' r
step_side zero (suc zero) p f buf' ms ms' hk hd r =
    ap (λ z. z ++ p.client) (step_other 1 0 (buffer p 1 ++ f) buf' ms ms' refl r)
    ∙ sym (append-nil (message_stream 0 ms ++ p.client))
step_side (suc zero) zero p f buf' ms ms' hk hd r =
    ap (λ z. z ++ p.server) (step_other 0 1 (buffer p 0 ++ f) buf' ms ms' refl r)
    ∙ sym (append-nil (message_stream 1 ms ++ p.server))
step_side (suc (suc k)) d p f buf' ms ms' hk hd r = absurd (omega arith)
step_side zero (suc (suc d)) p f buf' ms ms' hk hd r = absurd (omega arith)
step_side (suc zero) (suc (suc d)) p f buf' ms ms' hk hd r = absurd (omega arith)

-- The rest of each side stays incomplete.
step_left :
    (k d : ℕ) (p : Pending) (buf' : Bytes)
    → k < 2
    → d < 2
    → Incomplete (buffer p k)
    → Incomplete buf'
    → Incomplete (buffer (with_buffer p d buf') k)
step_left zero zero p buf' hk hd old new = new
step_left (suc zero) (suc zero) p buf' hk hd old new = new
step_left zero (suc zero) p buf' hk hd old new = old
step_left (suc zero) zero p buf' hk hd old new = old
step_left (suc (suc k)) d p buf' hk hd old new = absurd (omega arith)
step_left zero (suc (suc d)) p buf' hk hd old new = absurd (omega arith)
step_left (suc zero) (suc (suc d)) p buf' hk hd old new = absurd (omega arith)

-- A record of another type adds nothing.
handshake_records-streams :
    (k : ℕ) (rs : List TlsRecord) (p p' : Pending) (ms ms' : List Message)
    → k < 2
    → All (λ r. r.direction < 2) rs
    → All IsFramed ms
    → Incomplete (buffer p k)
    → handshake_records rs p ms ≡ ok (p', ms')
    → (message_stream k ms' ++ buffer p' k
        ≡ (message_stream k ms ++ buffer p k) ++ handshake_stream k rs)
      × All IsFramed ms'
      × Incomplete (buffer p' k)
unfolding handshake_records handshake_stream
handshake_records-streams k [] p p' ms ms' hk hrs hms left h =
    let e1 : p ≡ p' = cc in
    let e2 : ms ≡ ms' = cc in
    (
      ap (λ z. message_stream k z ++ buffer p' k) (sym e2)
          ∙ ap (λ z. message_stream k ms ++ buffer z k) (sym e1)
          ∙ sym (append-nil (message_stream k ms ++ buffer p k)),
      subst (All IsFramed) e2 hms,
      subst (λ q. Incomplete (buffer q k)) e1 left,
    )
handshake_records-streams k (r ∷ rs) p p' ms ms' hk (hr, hrs) hms left h =
    elim (Bool-cases (r.content_type == 22)) [
      | inl handshake ↦ rw handshake (
          let (drained, first, more) =
            >>=-eq-ok
              (drain_messages (length (buffer p r.direction ++ r.fragment)) r.direction
                (buffer p r.direction ++ r.fragment) ms)
              _ (rw handshake at h) in
          let d =
            drain_messages-Drained _ r.direction _ drained.0 ms drained.1 (omega arith) first in
          let (streams, framed, rest) =
            handshake_records-streams k rs (with_buffer p r.direction drained.0) p' drained.1 ms' hk
              hrs (subst (All IsFramed) (sym d.grown) (All-append IsFramed ms d.added hms d.framed))
              (step_left k r.direction p drained.0 hk hr left d.left) more in
          (
            streams
                ∙ ap (λ z. z ++ handshake_stream k rs)
                    (step_side k r.direction p r.fragment drained.0 ms drained.1 hk hr d)
                ∙ append_assoc (message_stream k ms ++ buffer p k) _ (handshake_stream k rs),
            framed,
            rest,
          ))
      | inr other ↦
          rw other (handshake_records-streams k rs p p' ms ms' hk hrs hms left (rw other at h))
    ]

each_direction : (rs : List TlsRecord) → All IsRecord rs → All (λ r. r.direction < 2) rs
each_direction [] h = tt
each_direction (r ∷ rs) (hr, hrs) = (hr.direction_bound, each_direction rs hrs)

nothing_yet : (k : ℕ) → message_stream k [] ++ buffer no_pending k ≡ []
unfolding message_stream
nothing_yet k = ground arith

empty_Incomplete : (k : ℕ) → Incomplete (buffer no_pending k)
empty_Incomplete k = inl (ground arith)

-- Every message that is returned is complete, with the size that its header says, and the messages
-- of a side followed by a rest are the fragments of its records of type 22, which may be encrypted:
-- none of their bytes is lost, added or reordered. The rest is shorter than a header or than the
-- message that it begins, so no complete message is left. The chunks have a direction and consist of
-- bytes.
pub clear_handshake_messages_framing :
    (chunks : List Chunk) (messages : List Message) (k : ℕ)
    → k < 2
    → All IsChunk chunks
    → clear_handshake_messages chunks ≡ ok messages
    → (records : List TlsRecord) × (rest : Bytes) × (split_tls_records chunks ≡ ok records)
      × (message_stream k messages ++ rest ≡ handshake_stream k records)
      × Incomplete rest
      × All IsFramed messages
unfolding clear_handshake_messages
clear_handshake_messages_framing chunks messages k hk hc h =
    let (records, cut, h1) = >>=-eq-ok (split_tls_records chunks) _ h in
    let (client, server, valid) = wire-split_tls_records chunks records hc cut in
    let (state, read, done) = >>=-eq-ok (handshake_records records no_pending []) _ h1 in
    let same : state.1 ≡ messages = cc in
    let (streams, framed, left) =
      handshake_records-streams k records no_pending state.0 [] state.1 hk
        (each_direction records valid) tt (empty_Incomplete k) read in
    (
      records,
      buffer state.0 k,
      cut,
      subst (λ ms. message_stream k ms ++ buffer state.0 k ≡ handshake_stream k records) same
          (streams ∙ ap (λ z. z ++ handshake_stream k records) (nothing_yet k)),
      left,
      subst (All IsFramed) same framed,
    )
