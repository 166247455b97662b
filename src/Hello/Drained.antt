-- ===== src/Hello/Drained.antt =====
-- minarx/protocols/common.py: the inner loop of `clear_handshake_messages` on the buffer of a side.
use hndl_dev.Prelude.{
  ℕ, zero, suc, ◌+◌, ◌^◌, ◌<◌, ◌≤◌, ◌≡◌, refl, sym, ap, ◌∙◌, false, List, [], ◌∷◌, ◌++◌,
  append_assoc, append-nil, arith, ltb, ◌==◌, if◌then◌else◌, Bool-cases, inl, inr, length, take,
  drop, take-append-drop, length-take, length-drop, ◌⊎◌, All,
}
use mathlib.Core.Path.{subst}
use hndl_dev.Result.{Result, ok, err≢ok}
use hndl_dev.Binary.{Bytes}
use hndl_dev.Records.{TlsRecord}
use hndl_dev.Hello.{Message, message_length, first_message, drain_messages}

-- The size in the header is that of the body.
pub record IsFramed (m : Message) : Type 0 where
  pub framed : length m.contents ≡ 4 + message_length m.contents

-- Fewer bytes than the next message has.
abbrev pub Incomplete : Bytes → Type 0
Incomplete rest = (length rest < 4) ⊎ (length rest < 4 + message_length rest)

-- What the messages of one side hold, and what its records of type 22 hold. Those are handshake
-- records, the encrypted ones of TLS 1.2 too.
unfoldable pub message_stream : ℕ → List Message → Bytes
message_stream d [] = []
message_stream d (m ∷ ms) =
    if m.direction == d then m.contents ++ message_stream d ms else message_stream d ms

unfoldable pub handshake_stream : ℕ → List TlsRecord → Bytes
handshake_stream d [] = []
handshake_stream d (r ∷ rs) =
    (if r.content_type == 22 then if r.direction == d then r.fragment else [] else [])
    ++ handshake_stream d rs

pub message_stream-append :
    (d : ℕ) (xs ys : List Message)
    → message_stream d (xs ++ ys) ≡ message_stream d xs ++ message_stream d ys
unfolding message_stream
message_stream-append d [] ys = refl
message_stream-append d (m ∷ xs) ys = ground (
  arith,
  message_stream-append d xs ys,
  append_assoc m.contents (message_stream d xs) (message_stream d ys),
)

-- A cut at the size that the header says keeps the header.
message_length-take :
    (buf : Bytes) (k : ℕ) → 4 ≤ length buf → message_length (take (4 + k) buf) ≡ message_length buf
message_length-take (a ∷ b ∷ c ∷ d ∷ rest) k h =
    ap (λ n. message_length (take n (a ∷ b ∷ c ∷ d ∷ rest)))
      (let e : 4 + k ≡ suc (suc (suc (suc k))) = omega arith in e)
message_length-take [] k h = absurd (omega arith)
message_length-take (a ∷ []) k h = absurd (omega arith)
message_length-take (a ∷ b ∷ []) k h = absurd (omega arith)
message_length-take (a ∷ b ∷ c ∷ []) k h = absurd (omega arith)

first_message-IsFramed :
    (d : ℕ) (buf : Bytes) → 4 + message_length buf ≤ length buf → IsFramed (first_message d buf)
first_message-IsFramed d buf h = record {
  framed = omega (
    arith,
    length-take (4 + message_length buf) buf,
    message_length-take buf (message_length buf) (omega arith),
  );
}

-- The rounds of the inner loop on one side's buffer.
pub record Drained (d : ℕ) (buf buf' : Bytes) (old new : List Message) : Type 0 where
  pub added : List Message
  pub grown : new ≡ old ++ added
  pub bytes : message_stream d added ++ buf' ≡ buf
  pub other : (k : ℕ) → (d == k) ≡ false → message_stream k added ≡ []
  pub framed : All IsFramed added
  pub left : Incomplete buf'

Drained-none :
    (d : ℕ) (buf : Bytes) (old : List Message) → Incomplete buf → Drained d buf buf old old
unfolding message_stream
Drained-none d buf old rest = record {
  added = [];
  grown = sym (append-nil old);
  bytes = refl;
  other = λ k h. refl;
  framed = tt;
  left = rest;
}

stream_own :
    (d : ℕ) (m : Bytes) (ms : List Message)
    → message_stream d (record { direction = d; contents = m } ∷ ms) ≡ m ++ message_stream d ms
unfolding message_stream
stream_own d m ms = ground arith

stream_other :
    (d k : ℕ) (m : Bytes) (ms : List Message)
    → (d == k) ≡ false
    → message_stream k (record { direction = d; contents = m } ∷ ms) ≡ message_stream k ms
unfolding message_stream
stream_other d k m ms h = rw h

Drained-cons :
    (d : ℕ) (buf buf' : Bytes) (old new : List Message)
    → 4 + message_length buf ≤ length buf
    → Drained d (drop (4 + message_length buf) buf) buf' (old ++ (first_message d buf ∷ [])) new
    → Drained d buf buf' old new
Drained-cons d buf buf' old new room r = record {
  added = first_message d buf ∷ r.added;
  grown = r.grown ∙ append_assoc old (first_message d buf ∷ []) r.added;
  bytes =
      ap (λ z. z ++ buf') (stream_own d (take (4 + message_length buf) buf) r.added)
      ∙ append_assoc (take (4 + message_length buf) buf) (message_stream d r.added) buf'
      ∙ ap (λ z. take (4 + message_length buf) buf ++ z) r.bytes
      ∙ take-append-drop (4 + message_length buf) buf;
  other = λ k h. stream_other d k (take (4 + message_length buf) buf) r.added h ∙ r.other k h;
  framed = (first_message-IsFramed d buf room, r.framed);
  left = r.left;
}

Drained-nothing :
    {d : ℕ} {buf buf' : Bytes} {old new : List Message}
    → Incomplete buf
    → ◌≡◌ {A = Result (Bytes × List Message)} (ok (buf, old)) (ok (buf', new))
    → Drained d buf buf' old new
Drained-nothing {d} {buf} {buf'} {old} {new} rest h =
    let e1 : buf ≡ buf' = cc in
    let e2 : old ≡ new = cc in
    subst (λ b. Drained d buf b old new) e1
      (subst (Drained d buf buf old) e2 (Drained-none d buf old rest))

pub drain_messages-Drained :
    (fuel d : ℕ) (buf buf' : Bytes) (old new : List Message)
    → length buf ≤ fuel
    → drain_messages fuel d buf old ≡ ok (buf', new)
    → Drained d buf buf' old new
unfolding drain_messages
drain_messages-Drained zero d buf buf' old new size h = Drained-nothing (inl (omega arith)) h
drain_messages-Drained (suc fuel) d buf buf' old new size h =
    elim (Bool-cases (ltb (length buf) 4)) [
      | inl short ↦ Drained-nothing (inl (ground arith)) (rw short at h)
      | inr long ↦ elim (Bool-cases (ltb (2 ^ 24) (message_length buf))) [
        | inl large ↦ absurd (err≢ok (rw (long, large) at h))
        | inr small ↦ elim (Bool-cases (ltb (length buf) (4 + message_length buf))) [
          | inl cut ↦ Drained-nothing (inr (ground arith)) (rw (long, small, cut) at h)
          | inr whole ↦ Drained-cons d buf buf' old new (ground arith) (
              drain_messages-Drained fuel d (drop (4 + message_length buf) buf) buf'
                (old ++ (first_message d buf ∷ [])) new
                (omega (arith, length-drop (4 + message_length buf) buf))
                (rw (long, small, whole) at h))
        ]
      ]
    ]
