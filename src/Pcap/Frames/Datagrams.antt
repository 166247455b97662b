-- ===== src/Pcap/Frames/Datagrams.antt =====
-- minarx/pcap.py: the checksum of a UDP datagram over its pseudo header.
use hndl_dev.Prelude.{
  ℕ, ◌+◌, ◌-◌, ◌≤◌, length-drop, take-length-append, ◌<◌, ◌≡◌, refl, sym, ap, ◌∙◌, List, [], ◌∷◌,
  ◌++◌, append_assoc, arith, length, take, drop, length-append, drop-length-append, drop-drop, All,
  All-append,
}
use hndl_dev.Prelude.Endian.{
  from_bytes_big, from_bytes_big-to_bytes_big, IsByte, to_bytes_big, length-to_bytes_big,
}
use mathlib.Core.Path.{subst}
use hndl_dev.Result.{ok, >>=-eq-ok}
use hndl_dev.Binary.{Bytes}
use hndl_dev.Struct.{unpack, pack, unpack-pack, pack-append, pack-IsByte}
use hndl_dev.Pcap.Checksum.{checksum, checksum_bound, or_ones, or_ones_completes}
use hndl_dev.Pcap.Frames.{
  source_ip, destination_ip, source_port, destination_port, pseudo_header, udp_packet, udp_datagram,
  with_word,
}
use hndl_dev.Pcap.Frames.Words.{completed_verifies, two_zeros}
use hndl_dev.Pcap.Frames.Verifies.{ethernet_ipv4-Received}
use hndl_dev.Pcap.Frames.Receiver.{SumsToOnes, IpReceived, UdpReceived}
use hndl_dev.Pcap.Frames.Pseudo.{
  IsAddress, source_ip-IsAddress, destination_ip-IsAddress, pseudo_header-form, pseudo_packet_lem,
}

or_ones_positive : (bytes : Bytes) → 1 ≤ or_ones (checksum bytes)
or_ones_positive bytes = ground (arith, checksum_bound bytes)

or_ones_bound : (bytes : Bytes) → or_ones (checksum bytes) < 65536
or_ones_bound bytes = ground (arith, checksum_bound bytes)

abbrev port_fields : ℕ → ℕ → ℕ → List (ℕ × ℕ)
port_fields direction server_port size =
    (2, source_port direction server_port)
    ∷ (2, destination_port direction server_port)
    ∷ (2, size)
    ∷ []

-- The packed header: six bytes and the word for the checksum.
udp_header-form :
    (direction server_port size : ℕ) (header contents : Bytes)
    → pack (
        (2, source_port direction server_port)
        ∷ (2, destination_port direction server_port)
        ∷ (2, size)
        ∷ (2, 0)
        ∷ [])
      ≡ ok header
    → (first : Bytes) × (length first ≡ 6)
      × All IsByte first
      × (header ++ contents ≡ first ++ (0 ∷ 0 ∷ contents))
      × ((t : Bytes)
          → unpack (2 ∷ 2 ∷ 2 ∷ []) (first ++ t)
            ≡ source_port direction server_port
              ∷ destination_port direction server_port
              ∷ size
              ∷ [])
udp_header-form direction server_port size header contents h =
    let fields = port_fields direction server_port size in
    let (a, z, front, zeros, e) = pack-append fields ((2, 0) ∷ []) header h in
    let (six, values) = unpack-pack fields a [] front in
    (
      a,
      six,
      pack-IsByte fields a front,
      ap (λ t. t ++ contents) (e ∙ ap (λ t. a ++ t) (two_zeros z zeros))
          ∙ append_assoc a (0 ∷ 0 ∷ []) contents,
      λ t. (unpack-pack fields a t front).1,
    )

datagram_form :
    (first contents word : Bytes)
    → length first ≡ 6
    → length word ≡ 2
    → (length (first ++ (word ++ contents)) ≡ 8 + length contents)
      × (drop 8 (first ++ (word ++ contents)) ≡ contents)
datagram_form first contents word hf hw = (
  omega (arith, length-append first (word ++ contents), length-append word contents, hf, hw),
  sym (drop-drop 2 6 (first ++ (word ++ contents)))
      ∙ ap (λ n. drop 2 (drop n (first ++ (word ++ contents)))) (sym hf)
      ∙ ap (drop 2) (drop-length-append first (word ++ contents))
      ∙ ap (λ n. drop n (word ++ contents)) (sym hw)
      ∙ drop-length-append word contents,
)

-- The word of the checksum, read back.
word_behind :
    (first contents : Bytes) (value : ℕ)
    → length first ≡ 6
    → value < 65536
    → from_bytes_big (take 2 (drop 6 (first ++ (to_bytes_big 2 value ++ contents)))) ≡ value
word_behind first contents value size small =
    ap (λ n. from_bytes_big (take 2 (drop n (first ++ (to_bytes_big 2 value ++ contents)))))
      (sym size)
    ∙ ap (λ p. from_bytes_big (take 2 p))
        (drop-length-append first (to_bytes_big 2 value ++ contents))
    ∙ ap (λ n. from_bytes_big (take n (to_bytes_big 2 value ++ contents)))
        (sym (length-to_bytes_big 2 value))
    ∙ ap from_bytes_big (take-length-append (to_bytes_big 2 value) contents)
    ∙ from_bytes_big-to_bytes_big 2 value (omega arith)

record Passes (contents : Bytes) (direction : ℕ) (values : List ℕ) (packet : Bytes) : Type 0 where
  pseudo : Bytes
  pseudo_made : pseudo_header direction 17 (length packet) ≡ ok pseudo
  ones : SumsToOnes (pseudo ++ packet)
  fields : unpack (2 ∷ 2 ∷ 2 ∷ []) packet ≡ values
  size : length packet ≡ 8 + length contents
  present : 1 ≤ from_bytes_big (take 2 (drop 6 packet))
  behind : drop 8 packet ≡ contents

completed_datagram :
    (first contents packet pseudo : Bytes) (direction : ℕ) (values : List ℕ)
    → length first ≡ 6
    → ((t : Bytes) → unpack (2 ∷ 2 ∷ 2 ∷ []) (first ++ t) ≡ values)
    → All IsByte first
    → All IsByte contents
    → pseudo_header direction 17 (length (first ++ (0 ∷ 0 ∷ contents))) ≡ ok pseudo
    → with_word 6
        (or_ones (checksum (pseudo ++ (first ++ (0 ∷ 0 ∷ contents)))))
        (first ++ (0 ∷ 0 ∷ contents))
      ≡ ok packet
    → Passes contents direction values packet
completed_datagram first contents packet pseudo direction values size read bytes hc made set =
    let plain = first ++ (0 ∷ 0 ∷ contents) in
    let (pseudo_size, pseudo_bytes) = pseudo_header-form direction 17 (length plain) pseudo made in
    let (n, completes) = or_ones_completes (pseudo ++ plain) (
      All-append IsByte pseudo plain pseudo_bytes
        (All-append IsByte first _ bytes (omega arith, (omega arith, hc)))) in
    let c = or_ones (checksum (pseudo ++ plain)) in
    let (zero_sum, form, ones) =
      completed_verifies pseudo first contents packet 6 3 c n pseudo_size size pseudo_bytes bytes hc
        (or_ones_bound (pseudo ++ plain)) completes set in
    let (long, behind) =
      datagram_form first contents (to_bytes_big 2 c) size (length-to_bytes_big 2 c) in
    let (plain_long, plain_behind) = datagram_form first contents (0 ∷ 0 ∷ []) size refl in
    record {
      pseudo = pseudo;
      pseudo_made =
          ap (λ n. pseudo_header direction 17 n) (ap length form ∙ long ∙ sym plain_long) ∙ made;
      ones = ones;
      fields = ap (unpack (2 ∷ 2 ∷ 2 ∷ [])) form ∙ read (to_bytes_big 2 c ++ contents);
      size = ap length form ∙ long;
      present =
          subst (λ n. 1 ≤ n)
            (sym (
              ap (λ p. from_bytes_big (take 2 (drop 6 p))) form
              ∙ word_behind first contents c size (or_ones_bound (pseudo ++ plain))))
            (or_ones_positive (pseudo ++ plain));
      behind = ap (drop 8) form ∙ behind;
    }

udp_packet-Passes :
    (contents packet : Bytes) (direction server_port : ℕ)
    → All IsByte contents
    → udp_packet contents direction server_port ≡ ok packet
    → Passes contents direction
        (source_port direction server_port
          ∷ destination_port direction server_port
          ∷ (8 + length contents)
          ∷ [])
        packet
unfolding udp_packet
udp_packet-Passes contents packet direction server_port hc h =
    let (header, packed, h1) = >>=-eq-ok (pack _) _ h in
    let (pseudo, made, set) =
      >>=-eq-ok (pseudo_header direction 17 (length (header ++ contents))) _ h1 in
    let (first, size, bytes, form, read) =
      udp_header-form direction server_port (8 + length contents) header contents packed in
    completed_datagram first contents packet pseudo direction
      (source_port direction server_port
        ∷ destination_port direction server_port
        ∷ (8 + length contents)
        ∷ [])
      size read bytes hc (subst (λ p. pseudo_header direction 17 (length p) ≡ ok pseudo) form made)
      (subst (λ p. with_word 6 (or_ones (checksum (pseudo ++ p))) p ≡ ok packet) form set)

-- Every frame that is built is accepted by a receiver that goes by the RFCs, also where the checksum
-- would be zero and is sent as 65535: it is an IPv4 packet of the frame's size with the addresses of the
-- direction, the protocol UDP and the low sixteen bits of the identity, its header sums to ones, the
-- datagram has a checksum and sums to ones with the pseudo header that the receiver makes of the
-- addresses and the size, it has the ports of the direction and the size of the rest, and the contents
-- stand behind its header. The contents are bytes.
pub udp_datagram-verifies :
    (contents frame : Bytes) (direction server_port ident : ℕ)
    → All IsByte contents
    → udp_datagram contents direction server_port ident ≡ ok frame
    → IpReceived (drop 34 frame) (source_ip direction) (destination_ip direction) 17 ident frame
      × UdpReceived contents frame
          (source_port direction server_port)
          (destination_port direction server_port)
unfolding udp_datagram IsAddress
udp_datagram-verifies contents frame direction server_port ident hc h =
    let (packet, made, framed) = >>=-eq-ok (udp_packet contents direction server_port) _ h in
    let v = udp_packet-Passes contents packet direction server_port hc made in
    let (source_size, source_bytes) = source_ip-IsAddress direction in
    let (destination_size, destination_bytes) = destination_ip-IsAddress direction in
    let (header_sum, r) =
      ethernet_ipv4-Received packet (source_ip direction) (destination_ip direction) frame 17 ident
        source_size destination_size source_bytes destination_bytes framed in
    let size : 8 + length contents ≡ length frame - 34 =
      sym v.size ∙ sym (ap length r.payload_back) ∙ length-drop 34 frame in
    (
      subst (λ p. IpReceived p (source_ip direction) (destination_ip direction) 17 ident frame)
          (sym r.payload_back) r,
      record {
        fields =
            ap (unpack (2 ∷ 2 ∷ 2 ∷ [])) r.payload_back
            ∙ v.fields
            ∙ ap
                (λ n.
                  source_port direction server_port
                  ∷ destination_port direction server_port
                  ∷ n
                  ∷ [])
                size;
        present =
            subst (λ p. 1 ≤ from_bytes_big (take 2 p))
              (sym (sym (drop-drop 6 34 frame) ∙ ap (drop 6) r.payload_back)) v.present;
        datagram_sum =
            subst SumsToOnes
              (pseudo_packet_lem frame packet v.pseudo direction 17 ident (omega arith)
                v.pseudo_made r)
              v.ones;
        contents_back = sym (drop-drop 8 34 frame) ∙ ap (drop 8) r.payload_back ∙ v.behind;
      },
    )
