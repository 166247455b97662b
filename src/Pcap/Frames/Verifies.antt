-- ===== src/Pcap/Frames/Verifies.antt =====
-- minarx/pcap.py: the frame of `_ethernet_ipv4` and its receiver.
use hndl_dev.Prelude.{
  ℕ, ◌+◌, ◌-◌, ◌≡◌, refl, sym, ap, ◌∙◌, List, [], ◌∷◌, ◌++◌, append_assoc, arith, length, take,
  drop, length-append, take-length-append, drop-length-append, drop-drop, ◌^◌, ◌%◌, All, All-append,
}
use hndl_dev.Prelude.Endian.{IsByte, to_bytes_big, length-to_bytes_big}
use mathlib.Core.Path.{subst}
use hndl_dev.Result.{ok, >>=-eq-ok}
use hndl_dev.Binary.{Bytes}
use hndl_dev.Pcap.Frames.Receiver.{SumsToOnes, IpReceived}
use hndl_dev.Struct.{unpack, pack, unpack-pack, pack-append, pack-IsByte}
use hndl_dev.Pcap.Checksum.{checksum, checksum_bound, checksum_completes}
use hndl_dev.Pcap.Frames.{ethernet, ethernet_ipv4, ipv4_fields, with_word}
use hndl_dev.Pcap.Frames.Words.{two_zeros, completed_verifies}

abbrev front_fields : ℕ → ℕ → ℕ → List (ℕ × ℕ)
front_fields payload_size protocol ident =
    (1, 69)
    ∷ (1, 0)
    ∷ (2, 20 + payload_size)
    ∷ (2, ident % 2 ^ 16)
    ∷ (2, 16384)
    ∷ (1, 64)
    ∷ (1, protocol)
    ∷ []

-- The packed fields of the header: ten bytes and the zero word.
header_form :
    (payload_size protocol ident : ℕ) (fields rest : Bytes)
    → pack (ipv4_fields payload_size protocol ident) ≡ ok fields
    → (first : Bytes) × (length first ≡ 10)
      × All IsByte first
      × (fields ++ rest ≡ first ++ (0 ∷ 0 ∷ rest))
      × ((t : Bytes)
          → unpack (1 ∷ 1 ∷ 2 ∷ 2 ∷ 2 ∷ 1 ∷ 1 ∷ []) (first ++ t)
            ≡ 69 ∷ 0 ∷ (20 + payload_size) ∷ (ident % 2 ^ 16) ∷ 16384 ∷ 64 ∷ protocol ∷ [])
header_form payload_size protocol ident fields rest h =
    let (a, z, front, zeros, e) =
      pack-append (front_fields payload_size protocol ident) ((2, 0) ∷ []) fields h in
    let (size, values) = unpack-pack (front_fields payload_size protocol ident) a [] front in
    (
      a,
      size,
      pack-IsByte (front_fields payload_size protocol ident) a front,
      ap (λ f. f ++ rest) (e ∙ ap (λ t. a ++ t) (two_zeros z zeros))
          ∙ append_assoc a (0 ∷ 0 ∷ []) rest,
      λ t. (unpack-pack (front_fields payload_size protocol ident) a t front).1,
    )

header_length :
    (first source destination header : Bytes) (value : ℕ)
    → length first ≡ 10
    → length source ≡ 4
    → length destination ≡ 4
    → header ≡ first ++ (to_bytes_big 2 value ++ (source ++ destination))
    → length header ≡ 20
header_length first source destination header value size hs hd built =
    ap length built
    ∙ omega (
      arith,
      length-append first (to_bytes_big 2 value ++ (source ++ destination)),
      length-append (to_bytes_big 2 value) (source ++ destination),
      length-append source destination,
      length-to_bytes_big 2 value,
      size,
      hs,
      hd,
    )

-- A frame of known parts.
module _ (payload source destination first header : Bytes) (value : ℕ) (twenty : length header ≡ 20)
    (built : header ≡ first ++ (to_bytes_big 2 value ++ (source ++ destination)))
    (size : length first ≡ 10) (hs : length source ≡ 4) (hd : length destination ≡ 4) where
  abbrev frame : Bytes
  frame = ethernet ++ (header ++ payload)

  frame_size : 20 + length payload ≡ length frame - 14
  frame_size = omega (arith, length-append header payload, twenty)

  header_back : take 20 (drop 14 frame) ≡ header
  header_back =
      ap (λ n. take n (header ++ payload)) (sym twenty) ∙ take-length-append header payload

  payload_behind : drop 34 frame ≡ payload
  payload_behind =
      ap (λ n. drop n (header ++ payload)) (sym twenty) ∙ drop-length-append header payload

  addresses_back : take 8 (drop 26 frame) ≡ source ++ destination
  addresses_back =
      ap (take 8) (
        ap (λ h. drop 12 (h ++ payload)) built
        ∙ ap (drop 12) (append_assoc first (word ++ (source ++ destination)) payload)
        ∙ sym (drop-drop 2 10 (first ++ ((word ++ (source ++ destination)) ++ payload)))
        ∙ ap (λ n. drop 2 (drop n (first ++ ((word ++ (source ++ destination)) ++ payload))))
            (sym size)
        ∙ ap (drop 2) (drop-length-append first ((word ++ (source ++ destination)) ++ payload))
        ∙ ap (drop 2) (append_assoc word (source ++ destination) payload)
        ∙ ap (λ n. drop n (word ++ ((source ++ destination) ++ payload)))
            (sym (length-to_bytes_big 2 value))
        ∙ drop-length-append word ((source ++ destination) ++ payload))
      ∙ ap (λ n. take n ((source ++ destination) ++ payload))
          (let e : 8 ≡ length (source ++ destination) =
              omega (arith, length-append source destination, hs, hd) in
            e)
      ∙ take-length-append (source ++ destination) payload
    where
      word : Bytes
      word = to_bytes_big 2 value

-- Every frame is received as an IPv4 packet with the addresses, the protocol, the low sixteen bits
-- of the identity and the payload that were given, and it verifies by the code's checksum as well.
pub ethernet_ipv4-Received :
    (payload source destination frame : Bytes) (protocol ident : ℕ)
    → length source ≡ 4
    → length destination ≡ 4
    → All IsByte source
    → All IsByte destination
    → ethernet_ipv4 payload protocol source destination ident ≡ ok frame
    → (checksum (take 20 (drop 14 frame)) ≡ 0)
      × IpReceived payload source destination protocol ident frame
unfolding ethernet_ipv4
ethernet_ipv4-Received payload source destination frame protocol ident hs hd bs bd h =
    let (fields, packed, h1) = >>=-eq-ok (pack (ipv4_fields (length payload) protocol ident)) _ h in
    let addresses = source ++ destination in
    let (first, size, bytes, form, values) =
      header_form (length payload) protocol ident fields addresses packed in
    let packet = first ++ (0 ∷ 0 ∷ addresses) in
    let bytes_rest : All IsByte addresses = All-append IsByte source destination bs bd in
    let (header, set, done) =
      >>=-eq-ok (with_word 10 (checksum (fields ++ addresses)) (fields ++ addresses)) _ h1 in
    let set' = subst (λ p. with_word 10 (checksum p) p ≡ ok header) form set in
    let (n, completes) = checksum_completes packet (
      All-append IsByte first (0 ∷ 0 ∷ addresses) bytes (omega arith, (omega arith, bytes_rest))) in
    let (zero_sum, built, ones) =
      completed_verifies [] first addresses header 0 5 (checksum packet) n refl size tt bytes
        bytes_rest (checksum_bound packet) completes set' in
    let same : ethernet ++ (header ++ payload) ≡ frame = cc in
    let twenty : length header ≡ 20 =
      header_length first source destination header (checksum packet) size hs hd built in
    let back =
      header_back payload source destination first header (checksum packet) twenty built size hs
        hd in
    subst
      (λ f.
        (checksum (take 20 (drop 14 f)) ≡ 0)
        × IpReceived payload source destination protocol ident f)
      same
      (
        ap checksum back ∙ zero_sum,
        record {
          ether_type = refl;
          fields =
              ap (λ x. unpack (1 ∷ 1 ∷ 2 ∷ 2 ∷ 2 ∷ 1 ∷ 1 ∷ []) (x ++ payload)) built
              ∙ ap (unpack (1 ∷ 1 ∷ 2 ∷ 2 ∷ 2 ∷ 1 ∷ 1 ∷ []))
                  (append_assoc first (to_bytes_big 2 (checksum packet) ++ addresses) payload)
              ∙ values ((to_bytes_big 2 (checksum packet) ++ addresses) ++ payload)
              ∙ ap (λ m. 69 ∷ 0 ∷ m ∷ (ident % 2 ^ 16) ∷ 16384 ∷ 64 ∷ protocol ∷ [])
                  (frame_size payload source destination first header (checksum packet) twenty built
                    size hs hd);
          addresses =
              addresses_back payload source destination first header (checksum packet) twenty built
                size hs hd;
          header_sum = subst SumsToOnes (sym back) ones;
          payload_back =
              payload_behind payload source destination first header (checksum packet) twenty built
                size hs hd;
        },
      )

-- The header of an IPv4 packet, behind the Ethernet header, verifies against its own checksum, and
-- the payload follows it unchanged.
pub ethernet_ipv4-verifies :
    (payload source destination frame : Bytes) (protocol ident : ℕ)
    → length source ≡ 4
    → length destination ≡ 4
    → All IsByte source
    → All IsByte destination
    → ethernet_ipv4 payload protocol source destination ident ≡ ok frame
    → (checksum (take 20 (drop 14 frame)) ≡ 0) × (drop 34 frame ≡ payload)
ethernet_ipv4-verifies payload source destination frame protocol ident hs hd bs bd h =
    let (zero_sum, received) =
      ethernet_ipv4-Received payload source destination frame protocol ident hs hd bs bd h in
    (zero_sum, received.payload_back)
