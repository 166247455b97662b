-- ===== src/Pcap/Frames/Segments.antt =====
-- minarx/pcap.py: the checksum of a TCP segment over its pseudo header.
use hndl_dev.Prelude.{
  ℕ, ◌+◌, ◌≡◌, refl, sym, ap, ◌∙◌, List, [], ◌∷◌, ◌++◌, append_assoc, arith, length, drop,
  length-append, drop-length-append, drop-drop, All, All-append,
}
use hndl_dev.Prelude.Endian.{IsByte, to_bytes_big, length-to_bytes_big}
use mathlib.Core.Path.{subst}
use hndl_dev.Result.{ok, >>=-eq-ok}
use hndl_dev.Binary.{Bytes}
use hndl_dev.Struct.{pack, unpack, unpack-pack, pack-append, pack-IsByte}
use hndl_dev.Pcap.Checksum.{checksum, checksum_bound, checksum_completes}
use hndl_dev.Pcap.Frames.{
  source_ip, destination_ip, source_port, destination_port, tcp_fields_of, pseudo_header,
  tcp_packet, tcp_segment, with_word,
}
use hndl_dev.Pcap.Frames.Words.{completed_verifies, two_zeros}
use hndl_dev.Pcap.Frames.Verifies.{ethernet_ipv4-Received}
use hndl_dev.Pcap.Frames.Receiver.{SumsToOnes, IpReceived, TcpReceived}
use hndl_dev.Pcap.Frames.Pseudo.{
  IsAddress, source_ip-IsAddress, destination_ip-IsAddress, pseudo_header-form, pseudo_packet_lem,
}

abbrev front_fields : ℕ → ℕ → ℕ → List (ℕ × ℕ)
front_fields direction server_port sequence =
    (2, source_port direction server_port)
    ∷ (2, destination_port direction server_port)
    ∷ (4, sequence)
    ∷ (4, 1)
    ∷ (1, 80)
    ∷ (1, 24)
    ∷ (2, 65535)
    ∷ []

-- The packed header: sixteen bytes, the word for the checksum and the urgent pointer.
tcp_header-form :
    (direction server_port sequence : ℕ) (header contents : Bytes)
    → pack (tcp_fields_of direction server_port sequence) ≡ ok header
    → (first : Bytes) × (length first ≡ 16)
      × All IsByte first
      × (header ++ contents ≡ first ++ (0 ∷ 0 ∷ (0 ∷ 0 ∷ contents)))
      × ((t : Bytes)
          → unpack (2 ∷ 2 ∷ 4 ∷ 4 ∷ 1 ∷ 1 ∷ 2 ∷ []) (first ++ t)
            ≡ source_port direction server_port
              ∷ destination_port direction server_port
              ∷ sequence
              ∷ 1
              ∷ 80
              ∷ 24
              ∷ 65535
              ∷ [])
tcp_header-form direction server_port sequence header contents h =
    let fields = front_fields direction server_port sequence in
    let (a, z, front, zeros, e) = pack-append fields ((2, 0) ∷ (2, 0) ∷ []) header h in
    let (y, x, check, urgent, e') = pack-append ((2, 0) ∷ []) ((2, 0) ∷ []) z zeros in
    let (size, values) = unpack-pack fields a [] front in
    let form : header ≡ a ++ (0 ∷ 0 ∷ 0 ∷ 0 ∷ []) =
      e
      ∙ ap (λ t. a ++ t)
          (e' ∙ ap (λ t. t ++ x) (two_zeros y check) ∙ ap (λ t. 0 ∷ 0 ∷ t) (two_zeros x urgent)) in
    (
      a,
      size,
      pack-IsByte fields a front,
      ap (λ t. t ++ contents) form ∙ append_assoc a (0 ∷ 0 ∷ 0 ∷ 0 ∷ []) contents,
      λ t. (unpack-pack fields a t front).1,
    )

record Verifies (contents : Bytes) (direction : ℕ) (values : List ℕ) (packet : Bytes) : Type 0 where
  pseudo : Bytes
  pseudo_made : pseudo_header direction 6 (length packet) ≡ ok pseudo
  ones : SumsToOnes (pseudo ++ packet)
  fields : unpack (2 ∷ 2 ∷ 4 ∷ 4 ∷ 1 ∷ 1 ∷ 2 ∷ []) packet ≡ values
  behind : drop 20 packet ≡ contents

packet_form :
    (first contents word : Bytes)
    → length first ≡ 16
    → length word ≡ 2
    → (length (first ++ (word ++ (0 ∷ 0 ∷ contents))) ≡ 20 + length contents)
      × (drop 20 (first ++ (word ++ (0 ∷ 0 ∷ contents))) ≡ contents)
packet_form first contents word hf hw = (
  omega (arith, length-append first (word ++ rest), length-append word rest, hf, hw),
  sym (drop-drop 4 16 (first ++ (word ++ rest)))
      ∙ ap (λ n. drop 4 (drop n (first ++ (word ++ rest)))) (sym hf)
      ∙ ap (drop 4) (drop-length-append first (word ++ rest))
      ∙ sym (drop-drop 2 2 (word ++ rest))
      ∙ ap (λ n. drop 2 (drop n (word ++ rest))) (sym hw)
      ∙ ap (drop 2) (drop-length-append word rest),
)
  where
    rest : Bytes
    rest = 0 ∷ 0 ∷ contents

completed_segment :
    (first contents packet pseudo : Bytes) (direction : ℕ) (values : List ℕ)
    → length first ≡ 16
    → ((t : Bytes) → unpack (2 ∷ 2 ∷ 4 ∷ 4 ∷ 1 ∷ 1 ∷ 2 ∷ []) (first ++ t) ≡ values)
    → All IsByte first
    → All IsByte contents
    → pseudo_header direction 6 (length (first ++ (0 ∷ 0 ∷ (0 ∷ 0 ∷ contents)))) ≡ ok pseudo
    → with_word 16
        (checksum (pseudo ++ (first ++ (0 ∷ 0 ∷ (0 ∷ 0 ∷ contents)))))
        (first ++ (0 ∷ 0 ∷ (0 ∷ 0 ∷ contents)))
      ≡ ok packet
    → Verifies contents direction values packet
completed_segment first contents packet pseudo direction values size read bytes hc made set =
    let plain = first ++ (0 ∷ 0 ∷ (0 ∷ 0 ∷ contents)) in
    let rest_bytes : All IsByte (0 ∷ 0 ∷ contents) = (omega arith, (omega arith, hc)) in
    let (pseudo_size, pseudo_bytes) = pseudo_header-form direction 6 (length plain) pseudo made in
    let (n, completes) = checksum_completes (pseudo ++ plain) (
      All-append IsByte pseudo plain pseudo_bytes
        (All-append IsByte first _ bytes (omega arith, (omega arith, rest_bytes)))) in
    let c = checksum (pseudo ++ plain) in
    let (zero_sum, form, ones) =
      completed_verifies pseudo first (0 ∷ 0 ∷ contents) packet 6 8 c n pseudo_size size
        pseudo_bytes bytes rest_bytes (checksum_bound (pseudo ++ plain)) completes set in
    let (long, behind) =
      packet_form first contents (to_bytes_big 2 c) size (length-to_bytes_big 2 c) in
    let (plain_long, plain_behind) = packet_form first contents (0 ∷ 0 ∷ []) size refl in
    record {
      pseudo = pseudo;
      pseudo_made =
          ap (λ n. pseudo_header direction 6 n) (ap length form ∙ long ∙ sym plain_long) ∙ made;
      ones = ones;
      fields =
          ap (unpack (2 ∷ 2 ∷ 4 ∷ 4 ∷ 1 ∷ 1 ∷ 2 ∷ [])) form
          ∙ read (to_bytes_big 2 c ++ (0 ∷ 0 ∷ contents));
      behind = ap (drop 20) form ∙ behind;
    }

abbrev values_of : ℕ → ℕ → ℕ → List ℕ
values_of direction server_port sequence =
    source_port direction server_port
    ∷ destination_port direction server_port
    ∷ sequence
    ∷ 1
    ∷ 80
    ∷ 24
    ∷ 65535
    ∷ []

tcp_packet-Verifies :
    (contents packet : Bytes) (direction server_port sequence : ℕ)
    → All IsByte contents
    → tcp_packet contents direction server_port sequence ≡ ok packet
    → Verifies contents direction (values_of direction server_port sequence) packet
unfolding tcp_packet
tcp_packet-Verifies contents packet direction server_port sequence hc h =
    let (header, packed, h1) =
      >>=-eq-ok (pack (tcp_fields_of direction server_port sequence)) _ h in
    let (pseudo, made, set) =
      >>=-eq-ok (pseudo_header direction 6 (length (header ++ contents))) _ h1 in
    let (first, size, bytes, form, read) =
      tcp_header-form direction server_port sequence header contents packed in
    completed_segment first contents packet pseudo direction
      (values_of direction server_port sequence) size read bytes hc
      (subst (λ p. pseudo_header direction 6 (length p) ≡ ok pseudo) form made)
      (subst (λ p. with_word 16 (checksum (pseudo ++ p)) p ≡ ok packet) form set)

-- Every frame that is built is accepted by a receiver that goes by the RFCs: it is an IPv4 packet of the
-- frame's size with the addresses of the direction, the protocol TCP and the low sixteen bits of the
-- identity, its header sums to ones, the segment sums to ones with the pseudo header that the receiver
-- makes of the addresses and the size, the segment has the ports of the direction and the sequence
-- number, and the contents stand behind its header. The contents are bytes.
pub tcp_segment-verifies :
    (contents frame : Bytes) (direction server_port sequence ident : ℕ)
    → All IsByte contents
    → tcp_segment contents direction server_port sequence ident ≡ ok frame
    → IpReceived (drop 34 frame) (source_ip direction) (destination_ip direction) 6 ident frame
      × TcpReceived contents frame
          (source_port direction server_port)
          (destination_port direction server_port)
          sequence
unfolding tcp_segment IsAddress
tcp_segment-verifies contents frame direction server_port sequence ident hc h =
    let (packet, made, framed) =
      >>=-eq-ok (tcp_packet contents direction server_port sequence) _ h in
    let v = tcp_packet-Verifies contents packet direction server_port sequence hc made in
    let (source_size, source_bytes) = source_ip-IsAddress direction in
    let (destination_size, destination_bytes) = destination_ip-IsAddress direction in
    let (header_sum, r) =
      ethernet_ipv4-Received packet (source_ip direction) (destination_ip direction) frame 6 ident
        source_size destination_size source_bytes destination_bytes framed in
    (
      subst (λ p. IpReceived p (source_ip direction) (destination_ip direction) 6 ident frame)
          (sym r.payload_back) r,
      record {
        fields = ap (unpack (2 ∷ 2 ∷ 4 ∷ 4 ∷ 1 ∷ 1 ∷ 2 ∷ [])) r.payload_back ∙ v.fields;
        segment_sum =
            subst SumsToOnes
              (pseudo_packet_lem frame packet v.pseudo direction 6 ident (omega arith) v.pseudo_made
                r)
              v.ones;
        contents_back = sym (drop-drop 20 34 frame) ∙ ap (drop 20) r.payload_back ∙ v.behind;
      },
    )
