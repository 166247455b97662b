-- ===== src/Quic/Flight/Joined.antt =====
-- decryptor/quic/derive_quic.py: the server's flight against the CRYPTO stream, and its two
-- reassemblies against each other.
use hndl_dev.Prelude.{
  ℕ, zero, suc, ◌+◌, ◌-◌, ◌≤◌, ◌<◌, ◌≡◌, refl, sym, ap, ◌∙◌, max, ◌⊎◌, inl, inr, List, [], ◌∷◌,
  ◌++◌, append_assoc, append-nil, arith, ltb, le→ltb, le→leb, Bool-cases, length, take, drop,
  length-take, length-drop, length-append, drop-all, take-append-drop, All,
}
use mathlib.Core.Path.{subst}
use hndl_dev.Binary.{Bytes}
use hndl_dev.Quic.Packets.Cover.{joined}
use hndl_dev.Quic.Frames.{
  Segment, sorted, extend_prefix, reassemble_crypto_prefix, handshake_length,
}
use hndl_dev.Quic.Flight.{extended, fill_stream, split_messages, flight_messages}

-- No segment of the list begins behind what comes before it; so many bytes are there already.
unfoldable pub NoGap : ℕ → List Segment → Type 0
NoGap n [] = Unit {0}
NoGap n ((offset, contents) ∷ segments) =
    (offset ≤ n) × NoGap (max n (offset + length contents)) segments

-- A segment without a gap, as either loop adds it.
extended_near :
    (out : Bytes) (offset : ℕ) (contents : Bytes)
    → offset ≤ length out
    → extended out offset contents ≡ out ++ drop (length out - offset) contents
extended_near out offset contents h =
    elim (Bool-cases (ltb (length out) (offset + length contents))) [
      | inl longer ↦ rw (le→leb offset (length out) h) (rw longer refl)
      | inr inside ↦ rw (le→leb offset (length out) h) (
          rw inside (
            sym (append-nil out)
            ∙ ap (λ z. out ++ z)
                (sym (drop-all (length out - offset) contents (ground (arith, inside))))))
    ]

fill_stream-extend_prefix :
    (out : Bytes) (segments : List Segment)
    → NoGap (length out) segments
    → fill_stream out segments ≡ extend_prefix out segments
unfolding fill_stream extend_prefix NoGap
fill_stream-extend_prefix out [] h = refl
fill_stream-extend_prefix out ((offset, contents) ∷ segments) (near, h) =
    let out' = out ++ drop (length out - offset) contents in
    let size : max (length out) (offset + length contents) ≡ length out' = omega (
      arith,
      length-append out (drop (length out - offset) contents),
      length-drop (length out - offset) contents,
    ) in
    rw (extended_near out offset contents near) (
      rw (le→ltb (length out) offset near)
        (fill_stream-extend_prefix out' segments (subst (λ n. NoGap n segments) size h)))

-- Where the sorted segments leave no gap, the reassembly of the flight, which fills a gap with
-- zeros, and that of the Initial packets, which stops at a gap, give the same stream.
pub fill_stream-reassemble_crypto_prefix :
    (segments : List Segment)
    → NoGap 0 (sorted segments)
    → fill_stream [] (sorted segments) ≡ reassemble_crypto_prefix segments
unfolding reassemble_crypto_prefix
fill_stream-reassemble_crypto_prefix segments h = fill_stream-extend_prefix [] (sorted segments) h

-- Fewer bytes than the next message has.
abbrev Incomplete : Bytes → Type 0
Incomplete rest = (length rest < 4) ⊎ (length rest < 4 + handshake_length rest)

abbrev IsWhole : Bytes → Type 0
IsWhole m = length m ≡ 4 + handshake_length m

-- Messages and a rest that make up the bytes.
record Cut (bytes : Bytes) (messages : List Bytes) : Type 0 where
  rest : Bytes
  whole : joined messages ++ rest ≡ bytes
  left : Incomplete rest
  framed : All IsWhole messages

handshake_length-take :
    (bytes : Bytes) (k : ℕ)
    → 4 ≤ length bytes
    → handshake_length (take (4 + k) bytes) ≡ handshake_length bytes
handshake_length-take (a ∷ b ∷ c ∷ d ∷ rest) k h =
    ap (λ n. handshake_length (take n (a ∷ b ∷ c ∷ d ∷ rest))) {y = suc (suc (suc (suc k)))}
      (omega arith)
handshake_length-take [] k h = absurd (omega arith)
handshake_length-take (a ∷ []) k h = absurd (omega arith)
handshake_length-take (a ∷ b ∷ []) k h = absurd (omega arith)
handshake_length-take (a ∷ b ∷ c ∷ []) k h = absurd (omega arith)

Cut-none : (bytes : Bytes) → Incomplete bytes → Cut bytes []
unfolding joined
Cut-none bytes h = record { rest = bytes; whole = refl; left = h; framed = tt }

Cut-cons :
    (bytes : Bytes) (messages : List Bytes)
    → 4 + handshake_length bytes ≤ length bytes
    → Cut (drop (4 + handshake_length bytes) bytes) messages
    → Cut bytes (take (4 + handshake_length bytes) bytes ∷ messages)
unfolding joined
Cut-cons bytes messages h c = record {
  rest = c.rest;
  whole =
      append_assoc (take (4 + handshake_length bytes) bytes) (joined messages) c.rest
      ∙ ap (λ z. take (4 + handshake_length bytes) bytes ++ z) c.whole
      ∙ take-append-drop (4 + handshake_length bytes) bytes;
  left = c.left;
  framed = (
    omega (
      arith,
      length-take (4 + handshake_length bytes) bytes,
      handshake_length-take bytes (handshake_length bytes) (omega arith),
    ),
    c.framed,
  );
}

split_messages-Cut :
    (fuel : ℕ) (bytes : Bytes) → length bytes ≤ fuel → Cut bytes (split_messages fuel bytes)
unfolding split_messages
split_messages-Cut zero bytes h = Cut-none bytes (inl (omega arith))
split_messages-Cut (suc fuel) bytes h = elim (Bool-cases (ltb (length bytes) 4)) [
  | inl short ↦ rw short (Cut-none bytes (inl (ground (arith, short))))
  | inr long ↦ elim (Bool-cases (ltb (length bytes) (4 + handshake_length bytes))) [
    | inl part ↦ rw (long, part) (Cut-none bytes (inr (ground (arith, part))))
    | inr all ↦
        rw (long, all)
          (Cut-cons bytes _ (ground (arith, all)) (
            split_messages-Cut fuel (drop (4 + handshake_length bytes) bytes)
              (omega (arith, length-drop (4 + handshake_length bytes) bytes))))
  ]
]

-- The messages of the flight, joined and followed by a rest that is no complete message, are the
-- reassembled stream, and each has the size that its header says: the loop comes to its end, and
-- stops nowhere else.
pub flight_messages-joined :
    (segments : List Segment)
    → (rest : Bytes) × (joined (flight_messages segments) ++ rest
        ≡ fill_stream [] (sorted segments))
      × ((length rest < 4) ⊎ (length rest < 4 + handshake_length rest))
      × All (λ m. length m ≡ 4 + handshake_length m) (flight_messages segments)
unfolding flight_messages
flight_messages-joined segments =
    let stream = fill_stream [] (sorted segments) in
    let c = split_messages-Cut (length stream) stream (omega arith) in
    (c.rest, c.whole, c.left, c.framed)
