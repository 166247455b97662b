-- ===== src/Quic/Packets/Cover.antt =====
-- decryptor/quic/derive_quic.py: the packets of `_iter_coalesced_packets` against the datagram.
use hndl_dev.Prelude.{
  ℕ, zero, suc, ◌≤◌, ◌<◌, ◌≡◌, refl, sym, ap, ◌∙◌, Option, none, some, Option-cases, Bool-cases,
  inl, inr, List, [], ◌∷◌, ◌++◌, append-nil, arith, ltb, length, take, drop, length-drop,
  length-take, take-append-drop, get_or, All,
}
use mathlib.Core.Path.{subst}
use hndl_dev.Binary.{Bytes}
use hndl_dev.Quic.Packets.{
  is_long, past_token, past_payload, past_identifier, ◌and_then◌, long_packet_length, packet_length,
  coalesced_loop, iter_coalesced_packets,
}

-- `b"".join(packets)`
unfoldable pub joined : List Bytes → Bytes
joined [] = []
joined (p ∷ ps) = p ++ joined ps

-- Each step moves on.
past_identifier-lt : (packet : Bytes) (pos n : ℕ) → past_identifier packet pos ≡ some n → pos < n
unfolding past_identifier
past_identifier-lt packet pos n h = ground arith

past_token-le : (packet : Bytes) (pos n : ℕ) → past_token packet pos ≡ some n → pos ≤ n
unfolding past_token
past_token-le packet pos n h = ground arith

past_payload-le : (packet : Bytes) (pos n : ℕ) → past_payload packet pos ≡ some n → pos ≤ n
unfolding past_payload
past_payload-le packet pos n h = ground arith

and_then-eq :
    (o : Option ℕ) (next : ℕ → Option ℕ) (n : ℕ)
    → (o and_then next) ≡ some n
    → (m : ℕ) × (o ≡ some m) × (next m ≡ some n)
and_then-eq none next n h = cc
and_then-eq (some m) next n h = (m, refl, h)

long_packet_length-lt : (packet : Bytes) (n : ℕ) → long_packet_length packet ≡ some n → 5 < n
unfolding long_packet_length
long_packet_length-lt packet n h = elim (Bool-cases (ltb (length packet) 5)) [
  | inl short ↦ let h' : none ≡ some n = rw short at h in cc
  | inr long ↦
      let (c, before, last) = and_then-eq _ (past_payload packet) n (rw long at h) in
      let (b, early, token) = and_then-eq _ (past_token packet) c before in
      let (a, first, second) = and_then-eq _ (past_identifier packet) b early in
      omega (
        arith,
        past_payload-le packet c n last,
        past_token-le packet b c token,
        past_identifier-lt packet a b second,
        past_identifier-lt packet 5 a first,
      )
]

pub packet_length-lt : (packet : Bytes) (n : ℕ) → packet_length packet ≡ some n → 5 < n
unfolding packet_length
packet_length-lt packet n h = elim (Bool-cases (is_long (get_or packet 0 0))) [
  | inl long ↦ long_packet_length-lt packet n (rw long at h)
  | inr short ↦ let h' : none ≡ some n = rw short at h in cc
]

abbrev NonEmpty : Bytes → Type 0
NonEmpty p = 1 ≤ length p

pub coalesced_loop_last :
    (fuel b : ℕ) (bs : Bytes)
    → packet_length (b ∷ bs) ≡ none
    → coalesced_loop (suc fuel) (b ∷ bs) ≡ (b ∷ bs) ∷ []
unfolding coalesced_loop
coalesced_loop_last fuel b bs h = rw (h, coalesced_loop) refl

pub coalesced_loop_more :
    (fuel b n : ℕ) (bs : Bytes)
    → packet_length (b ∷ bs) ≡ some n
    → coalesced_loop (suc fuel) (b ∷ bs) ≡ take n (b ∷ bs) ∷ coalesced_loop fuel (drop n (b ∷ bs))
unfolding coalesced_loop
coalesced_loop_more fuel b n bs h = rw (h, coalesced_loop) refl

-- A list of packets that covers the bytes.
abbrev Covers : Bytes → List Bytes → Type 0
Covers bytes ps = (joined ps ≡ bytes) × All NonEmpty ps

coalesced_loop-Covers :
    (fuel : ℕ) (datagram : Bytes)
    → length datagram ≤ fuel
    → Covers datagram (coalesced_loop fuel datagram)
unfolding coalesced_loop joined
coalesced_loop-Covers zero [] h = (refl, tt)
coalesced_loop-Covers zero (b ∷ bs) h = absurd (omega arith)
coalesced_loop-Covers (suc fuel) [] h = (refl, tt)
coalesced_loop-Covers (suc fuel) (b ∷ bs) h = elim (Option-cases (packet_length (b ∷ bs))) [
  | inl last ↦
      subst (Covers (b ∷ bs)) (sym (coalesced_loop_last fuel b bs last))
        (append-nil (b ∷ bs), (omega arith, tt))
  | inr (n, more) ↦
      let far = packet_length-lt (b ∷ bs) n more in
      let (rest, each) =
        coalesced_loop-Covers fuel (drop n (b ∷ bs)) (omega (arith, length-drop n (b ∷ bs))) in
      subst (Covers (b ∷ bs)) (sym (coalesced_loop_more fuel b n bs more)) (
        ap (λ z. take n (b ∷ bs) ++ z) rest ∙ take-append-drop n (b ∷ bs),
        (omega (arith, length-take n (b ∷ bs)), each),
      )
]

-- The packets of any datagram, joined, are the datagram, and none of them is empty: the loop comes
-- to its end on every input, drops no byte and repeats none.
pub iter_coalesced_packets-joined :
    (datagram : Bytes)
    → (joined (iter_coalesced_packets datagram) ≡ datagram)
      × All (λ p. 1 ≤ length p) (iter_coalesced_packets datagram)
unfolding iter_coalesced_packets
iter_coalesced_packets-joined datagram =
    coalesced_loop-Covers (length datagram) datagram (omega arith)
