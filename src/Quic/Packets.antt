-- ===== src/Quic/Packets.antt =====
-- decryptor/quic/derive_quic.py: `_iter_coalesced_packets`. The packets are a list, and a position
-- counts from the packet's first byte where the code counts from the datagram's.
pub mod Cover
use hndl_dev.Prelude.{
  ℕ, zero, suc, ◌+◌, Bool, true, false, Option, none, some, List, [], ◌∷◌, leb, ltb, ◌==◌,
  if◌then◌else◌, length, take, drop, get_or,
}
use hndl_dev.Prelude.Bits.{shr, low_bits, has_bit}
use hndl_dev.Result.{Result, ok, err}
use hndl_dev.Binary.{Bytes}
use hndl_dev.Quic.Varint.{decode_varint}

-- `first & 0x80` and `(first >> 4) & 0x03`
abbrev pub is_long : ℕ → Bool
is_long first = has_bit first 7

abbrev pub packet_type : ℕ → ℕ
packet_type first = low_bits (shr first 4) 2

-- The size that `decode_varint` reads, and the position behind it; `none` for the `ValueError`.
abbrev pub varint_at : Bytes → ℕ → Option (ℕ × ℕ)
varint_at packet pos = elim (decode_varint (drop pos packet)) [
  | err e ↦ none
  | ok (value, size) ↦ some (value, pos + size)
]

-- Past a field behind its size.
abbrev pub past_field : Bytes → ℕ → Option ℕ
past_field packet pos = elim (varint_at packet pos) [
  | none ↦ none
  | some (size, behind) ↦ some (behind + size)
]

-- Past the token, which only an Initial has; a Retry has no length.
unfoldable pub past_token : Bytes → ℕ → Option ℕ
past_token packet pos =
    if packet_type (get_or packet 0 0) == 0
    then (if leb (length packet) pos then none else past_field packet pos)
    else if packet_type (get_or packet 0 0) == 3
    then none
    else some pos

-- Past the size of the payload, which is the packet's end.
unfoldable pub past_payload : Bytes → ℕ → Option ℕ
past_payload packet pos = if leb (length packet) pos then none else past_field packet pos

-- Past a connection identifier behind its size.
unfoldable pub past_identifier : Bytes → ℕ → Option ℕ
past_identifier packet pos =
    if leb (length packet) pos then none else some (pos + (1 + get_or packet pos 0))

infixl 5 ◌and_then◌
abbrev pub ◌and_then◌ : Option ℕ → (ℕ → Option ℕ) → Option ℕ
none and_then next = none
some n and_then next = next n

-- `total_len` of a packet with a long header, `none` where the rest of the datagram is one packet.
unfoldable pub long_packet_length : Bytes → Option ℕ
long_packet_length packet =
    if ltb (length packet) 5
    then none
    else (past_identifier packet 5
        and_then past_identifier packet
        and_then past_token packet
        and_then past_payload packet)

unfoldable pub packet_length : Bytes → Option ℕ
packet_length packet = if is_long (get_or packet 0 0) then long_packet_length packet else none

-- A round takes a byte at least, so as many rounds as there are bytes are enough.
unfoldable pub coalesced_loop : ℕ → Bytes → List Bytes
coalesced_loop zero datagram = []
coalesced_loop (suc fuel) [] = []
coalesced_loop (suc fuel) (b ∷ bs) = elim (packet_length (b ∷ bs)) [
  | none ↦ (b ∷ bs) ∷ []
  | some total ↦ take total (b ∷ bs) ∷ coalesced_loop fuel (drop total (b ∷ bs))
]

unfoldable pub iter_coalesced_packets : Bytes → List Bytes
iter_coalesced_packets datagram = coalesced_loop (length datagram) datagram
