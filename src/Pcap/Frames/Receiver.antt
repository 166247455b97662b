-- ===== src/Pcap/Frames/Receiver.antt =====
-- What the receiver of a frame tests and reads, by RFC 791, 793, 768 and 1071. It shares
-- with the code that makes the frames only how a field of bytes is read as a number.
use hndl_dev.Prelude.{
  ℕ, suc, ◌+◌, ◌-◌, ◌*◌, ◌%◌, ◌^◌, ◌≤◌, ◌≡◌, Bool, true, false, [], ◌∷◌, ◌++◌, length, take, drop,
}
use hndl_dev.Prelude.Endian.{from_bytes_big, to_bytes_big}
use hndl_dev.Binary.{Bytes}
use hndl_dev.Struct.{unpack}

-- The sum of the words of 16 bits. A byte counts 256 times at an even position and once at an odd
-- one, so that an odd last byte is padded with a zero behind it.
unfoldable pub ones_sum : Bool → Bytes → ℕ
ones_sum high [] = 0
ones_sum true (b ∷ bytes) = b * 256 + ones_sum false bytes
ones_sum false (b ∷ bytes) = b + ones_sum true bytes

-- The one's complement sum, which adds the carries in again, is all ones: the sum is a multiple of
-- 65535, and not zero.
abbrev pub SumsToOnes : Bytes → Type 0
SumsToOnes bytes = (n : ℕ) × (ones_sum true bytes ≡ 65535 * suc n)

-- An Ethernet frame with an IPv4 packet of the whole rest of the frame, without options.
pub record IpReceived (payload source destination : Bytes) (protocol ident : ℕ) (frame : Bytes)
    : Type 0 where
  pub ether_type : take 2 (drop 12 frame) ≡ 8 ∷ 0 ∷ []
  pub fields :
      unpack (1 ∷ 1 ∷ 2 ∷ 2 ∷ 2 ∷ 1 ∷ 1 ∷ []) (drop 14 frame)
      ≡ 69 ∷ 0 ∷ (length frame - 14) ∷ (ident % 2 ^ 16) ∷ 16384 ∷ 64 ∷ protocol ∷ []
  pub addresses : take 8 (drop 26 frame) ≡ source ++ destination
  pub header_sum : SumsToOnes (take 20 (drop 14 frame))
  pub payload_back : drop 34 frame ≡ payload

-- The pseudo header, of the addresses, the protocol and the size of the rest, and the rest.
abbrev pub pseudo_packet : ℕ → Bytes → Bytes
pseudo_packet protocol frame =
    take 8 (drop 26 frame) ++ (0 ∷ protocol ∷ (to_bytes_big 2 (length frame - 34) ++ drop 34 frame))

-- A TCP segment without options, with its ports, sequence and acknowledgement numbers, header size,
-- flags and window.
pub record TcpReceived (contents frame : Bytes) (from_port to_port sequence : ℕ) : Type 0 where
  pub fields :
      unpack (2 ∷ 2 ∷ 4 ∷ 4 ∷ 1 ∷ 1 ∷ 2 ∷ []) (drop 34 frame)
      ≡ from_port ∷ to_port ∷ sequence ∷ 1 ∷ 80 ∷ 24 ∷ 65535 ∷ []
  pub segment_sum : SumsToOnes (pseudo_packet 6 frame)
  pub contents_back : drop 54 frame ≡ contents

-- A UDP datagram of the whole payload. A checksum of zero would say that there is none.
pub record UdpReceived (contents frame : Bytes) (from_port to_port : ℕ) : Type 0 where
  pub fields :
      unpack (2 ∷ 2 ∷ 2 ∷ []) (drop 34 frame) ≡ from_port ∷ to_port ∷ (length frame - 34) ∷ []
  pub present : 1 ≤ from_bytes_big (take 2 (drop 40 frame))
  pub datagram_sum : SumsToOnes (pseudo_packet 17 frame)
  pub contents_back : drop 42 frame ≡ contents
