-- ===== src/Pcap/Frames/Pseudo.antt =====
-- minarx/pcap.py: the pseudo header of a packet, and that of its receiver.
use hndl_dev.Prelude.{
  ℕ, ◌-◌, ◌<◌, ◌%◌, length-drop, ◌≡◌, refl, sym, ap, ◌∙◌, [], ◌∷◌, ◌++◌, append_assoc, arith,
  length, take, drop, length-append, ◌==◌, if◌then◌else◌, true, false, All, All-append,
}
use hndl_dev.Prelude.Endian.{IsByte, to_bytes_big}
use mathlib.Core.Path.{subst}
use hndl_dev.Result.{ok, >>=-eq-ok}
use hndl_dev.Binary.{Bytes}
use hndl_dev.Struct.{pack-first, pack, unpack-pack, pack-IsByte}
use hndl_dev.Pcap.Frames.{source_ip, destination_ip, pseudo_header}
use hndl_dev.Pcap.Frames.Words.{word_form}
use hndl_dev.Pcap.Frames.Receiver.{IpReceived, pseudo_packet}

unfoldable pub IsAddress : Bytes → Type 0
IsAddress a = (length a ≡ 4) × All IsByte a

pub source_ip-IsAddress : (d : ℕ) → IsAddress (source_ip d)
unfolding IsAddress
source_ip-IsAddress d =
    elim (d == 0) as (λ b. IsAddress (if b then 192 ∷ 0 ∷ 2 ∷ 1 ∷ [] else 192 ∷ 0 ∷ 2 ∷ 2 ∷ [])) [
      | true ↦ (refl, omega arith)
      | false ↦ (refl, omega arith)
    ]

pub destination_ip-IsAddress : (d : ℕ) → IsAddress (destination_ip d)
unfolding IsAddress
destination_ip-IsAddress d =
    elim (d == 0) as (λ b. IsAddress (if b then 192 ∷ 0 ∷ 2 ∷ 2 ∷ [] else 192 ∷ 0 ∷ 2 ∷ 1 ∷ [])) [
      | true ↦ (refl, omega arith)
      | false ↦ (refl, omega arith)
    ]

-- The pseudo header has twelve bytes.
pub pseudo_header-form :
    (d protocol size : ℕ) (pseudo : Bytes)
    → pseudo_header d protocol size ≡ ok pseudo
    → (length pseudo ≡ 12) × All IsByte pseudo
unfolding pseudo_header IsAddress
pseudo_header-form d protocol size pseudo h =
    let fields = (1, 0) ∷ (1, protocol) ∷ (2, size) ∷ [] in
    let (tail, packed, done) = >>=-eq-ok (pack fields) _ h in
    let (tail_size, values) = unpack-pack fields tail [] packed in
    let (source_size, source_bytes) = source_ip-IsAddress d in
    let (destination_size, destination_bytes) = destination_ip-IsAddress d in
    let same : source_ip d ++ (destination_ip d ++ tail) ≡ pseudo = cc in
    subst (λ p. (length p ≡ 12) × All IsByte p) same
      (
        omega (
          arith,
          length-append (source_ip d) (destination_ip d ++ tail),
          length-append (destination_ip d) tail,
          tail_size,
          source_size,
          destination_size,
        ),
        All-append IsByte (source_ip d) _ source_bytes (
            All-append IsByte (destination_ip d) tail destination_bytes
              (pack-IsByte fields tail packed)),
      )

two_bytes :
    (protocol : ℕ) (word : Bytes)
    → protocol < 256
    → to_bytes_big 1 0 ++ (to_bytes_big 1 protocol ++ word) ≡ 0 ∷ protocol ∷ word
unfolding to_bytes_big
two_bytes protocol word small =
    let low : protocol % 256 ≡ protocol = omega arith in ap (λ p. 0 ∷ p ∷ word) low

-- The pseudo header, spelled out.
pseudo_header_lem :
    (direction protocol size : ℕ) (pseudo : Bytes)
    → protocol < 256
    → pseudo_header direction protocol size ≡ ok pseudo
    → pseudo
      ≡ source_ip direction ++ (destination_ip direction ++ (0 ∷ protocol ∷ to_bytes_big 2 size))
unfolding pseudo_header
pseudo_header_lem direction protocol size pseudo small h =
    let (tail, packed, done) = >>=-eq-ok (pack ((1, 0) ∷ (1, protocol) ∷ (2, size) ∷ [])) _ h in
    let (rest, packed1, e1) = pack-first 1 0 ((1, protocol) ∷ (2, size) ∷ []) tail packed in
    let (word, packed2, e2) = pack-first 1 protocol ((2, size) ∷ []) rest packed1 in
    let same : source_ip direction ++ (destination_ip direction ++ tail) ≡ pseudo = cc in
    sym same
    ∙ ap (λ t. source_ip direction ++ (destination_ip direction ++ t))
        (e1
          ∙ ap (λ t. to_bytes_big 1 0 ++ t) e2
          ∙ two_bytes protocol word small
          ∙ ap (λ w. 0 ∷ protocol ∷ w) (word_form size word packed2))

-- The pseudo header of a packet and the packet, as the receiver of its frame puts them together.
pub pseudo_packet_lem :
    (frame packet pseudo : Bytes) (direction protocol ident : ℕ)
    → protocol < 256
    → pseudo_header direction protocol (length packet) ≡ ok pseudo
    → IpReceived packet (source_ip direction) (destination_ip direction) protocol ident frame
    → pseudo ++ packet ≡ pseudo_packet protocol frame
pseudo_packet_lem frame packet pseudo direction protocol ident small made r =
    let source = source_ip direction in
    let destination = destination_ip direction in
    let word = to_bytes_big 2 (length packet) in
    let size : length packet ≡ length frame - 34 =
      sym (ap length r.payload_back) ∙ length-drop 34 frame in
    ap (λ p. p ++ packet) (pseudo_header_lem direction protocol (length packet) pseudo small made)
    ∙ ap (λ p. p ++ packet) (sym (append_assoc source destination (0 ∷ protocol ∷ word)))
    ∙ append_assoc (source ++ destination) (0 ∷ protocol ∷ word) packet
    ∙ ap (λ a. a ++ (0 ∷ protocol ∷ (word ++ packet))) (sym r.addresses)
    ∙ ap (λ n. take 8 (drop 26 frame) ++ (0 ∷ protocol ∷ (to_bytes_big 2 n ++ packet))) size
    ∙ ap (λ p. take 8 (drop 26 frame) ++ (0 ∷ protocol ∷ (to_bytes_big 2 (length frame - 34) ++ p)))
        (sym r.payload_back)
