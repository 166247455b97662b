-- ===== src/Policy/Frames/Checksums.antt =====
-- archive_policy.py: the frames of a policy archive against those of minarx/pcap.py.
use hndl_dev.Prelude.{
  ℕ, ◌+◌, ◌≡◌, refl, sym, ap, ◌∙◌, Bool, true, false, [], ◌∷◌, ◌++◌, arith, length, length-append,
  take, drop, All,
}
use hndl_dev.Prelude.Endian.{IsByte}
use hndl_dev.Result.{Result, ok, err, ◌>>=◌, >>=-eq-ok}
use hndl_dev.Binary.{Bytes}
use hndl_dev.Struct.{pack}
use hndl_dev.Pcap.Checksum.{checksum}
use hndl_dev.Pcap.Frames.{ethernet_ipv4, with_word}
use hndl_dev.Pcap.Frames.Verifies.{ethernet_ipv4-verifies}
use hndl_dev.Policy.Frames.{
  ipv4_header, ipv4_header_fields, ethernet_frame, from_address, to_address, policy_udp_packet,
  from_port, to_port,
}

module _ {ℓ κ ν} {A : Type ℓ} {B : Type κ} {C : Type ν} where
  bind_assoc :
      (r : Result A) (f : A → Result B) (g : B → Result C)
      → ((r >>= f) >>= g) ≡ (r >>= λ x. f x >>= g)
  bind_assoc (ok a) f g = refl
  bind_assoc (err e) f g = refl

-- The builder of the archive policies makes the same frame as that of MinARX, for any payload,
-- protocol, addresses and identity, and refuses the same ones.
pub ipv4_header-ethernet_ipv4 :
    (payload source destination : Bytes) (protocol identity : ℕ)
    → (ipv4_header source destination (length payload) protocol identity >>= λ ip.
        ok (ethernet_frame (ip ++ payload)))
      ≡ ethernet_ipv4 payload protocol source destination identity
unfolding ipv4_header ethernet_ipv4
ipv4_header-ethernet_ipv4 payload source destination protocol identity =
    bind_assoc (pack (ipv4_header_fields (length payload) protocol identity))
      (λ fields.
        with_word 10 (checksum (fields ++ (source ++ destination)))
          (fields ++ (source ++ destination)))
      (λ ip. ok (ethernet_frame (ip ++ payload)))

address_bytes :
    (b : Bool)
    → (length (from_address b) ≡ 4)
      × (length (to_address b) ≡ 4)
      × All IsByte (from_address b)
      × All IsByte (to_address b)
address_bytes true = (refl, refl, omega arith, omega arith)
address_bytes false = (refl, refl, omega arith, omega arith)

-- A packet of either protocol, as a payload of the frame.
framed_verifies :
    (header payload frame : Bytes) (to_server : Bool) (protocol identity : ℕ)
    → (ipv4_header
          (from_address to_server)
          (to_address to_server)
          (length header + length payload)
          protocol
          identity
        >>= λ ip. ok (ethernet_frame (ip ++ (header ++ payload))))
      ≡ ok frame
    → (checksum (take 20 (drop 14 frame)) ≡ 0) × (drop 34 frame ≡ header ++ payload)
framed_verifies header payload frame to_server protocol identity h =
    let (hs, hd, bs, bd) = address_bytes to_server in
    ethernet_ipv4-verifies (header ++ payload) (from_address to_server) (to_address to_server) frame
      protocol identity hs hd bs bd
      (sym (
          ipv4_header-ethernet_ipv4 (header ++ payload) (from_address to_server)
            (to_address to_server) protocol identity)
        ∙ ap
            (λ n.
              ipv4_header (from_address to_server) (to_address to_server) n protocol identity
              >>= λ ip. ok (ethernet_frame (ip ++ (header ++ payload))))
            (length-append header payload)
        ∙ h)

pub policy_udp_packet_verifies :
    (payload frame : Bytes) (to_server : Bool) (service_port client_port identity : ℕ)
    → policy_udp_packet payload to_server service_port client_port identity ≡ ok frame
    → (header : Bytes) × (pack (
          (2, from_port to_server service_port client_port)
          ∷ (2, to_port to_server service_port client_port)
          ∷ (2, 8 + length payload)
          ∷ (2, 0)
          ∷ [])
        ≡ ok header)
      × (checksum (take 20 (drop 14 frame)) ≡ 0)
      × (drop 34 frame ≡ header ++ payload)
unfolding policy_udp_packet
policy_udp_packet_verifies payload frame to_server service_port client_port identity h =
    let (header, packed, h1) =
      >>=-eq-ok
        (pack (
          (2, from_port to_server service_port client_port)
          ∷ (2, to_port to_server service_port client_port)
          ∷ (2, 8 + length payload)
          ∷ (2, 0)
          ∷ []))
        _ h in
    let (zero_sum, behind) = framed_verifies header payload frame to_server 17 identity h1 in
    (header, packed, zero_sum, behind)
