-- ===== src/Container/Accepted.antt =====
-- What holds of every file that `read_container` accepts, whoever wrote it.
use hndl_dev.Prelude.{
  ℕ, zero, suc, [], ◌∷◌, ◌+◌, ◌-◌, ◌≤◌, ◌<◌, ◌≡◌, refl, sym, ap, ◌∙◌, Bool, true, false, some, not,
  arith, ltb, ◌==◌, length, take, drop, bytes_eq, bytes_eq→eq, length-drop, length-take,
}
use hndl_dev.Result.{
  ok, format_error, too_short, digest_mismatch, layout_length_mismatch, opaque_length_mismatch,
  refuse-then, >>=-eq-ok,
}
use mathlib.Core.Path.{subst}
use hndl_dev.Struct.{unpack}
use hndl_dev.Binary.{Bytes}
use hndl_dev.Profiles.Registry.{ProtocolProfile}
use hndl_dev.Container.{Library, magic, header_size, digest_size}
use hndl_dev.Container.Read.{
  Container, Header, header_widths, header_of, check_header, decompress, read_sections, body_of,
  digest_of, read_container, compression_name,
}
use hndl_dev.Profiles.{profile_by_id}

not-false : (b : Bool) → not b ≡ false → b ≡ true
not-false true h = refl
not-false false h = cc

-- The facts about an accepted archive, with the header that stands in it.
pub record Accepted (lib : Library) (encoded : Bytes) (max_payload : ℕ) (c : Container)
    : Type 0 where
  pub header : Header
  pub framed : 66 ≤ length encoded
  pub digest : lib.sha256 (body_of lib encoded) ≡ digest_of lib encoded
  pub front_magic : take 8 encoded ≡ magic
  pub unpacked : header_of (unpack header_widths (drop 8 (take 34 encoded))) ≡ ok header
  pub version_one : header.version ≡ 1
  pub no_flags : header.flags ≡ 0
  pub compression_bound : header.compression_id ≤ 2
  pub registered : profile_by_id header.profile_id ≡ some c.profile
  pub port : header.server_port ≡ c.server_port
  pub raw : header.raw_capture_bytes ≡ c.raw_capture_bytes
  pub transport : header.transport_payload_bytes ≡ c.transport_payload_bytes
  pub stored : header.layout_stored_len ≡ c.stored_layout_bytes
  pub plain : header.layout_plain_len ≡ length c.layout
  pub opaque_size : header.opaque_len ≡ length c.opaque
  pub size : c.archive_bytes ≡ length encoded
  pub accounted : c.archive_bytes ≡ 66 + header.layout_stored_len + header.opaque_len
  pub port_range : (0 < c.server_port) × (c.server_port ≤ 65535)
  pub opaque_bound : length c.opaque ≤ c.transport_payload_bytes
  pub transport_bound : c.transport_payload_bytes ≤ c.raw_capture_bytes
  pub raw_bound : c.raw_capture_bytes ≤ max_payload
  pub stored_bound : c.stored_layout_bytes ≤ max_payload
  pub layout_bound : length c.layout ≤ max_payload

-- The tests of `check_header`, as facts.
record Checked (max_payload body_size : ℕ) (front : Bytes) (h : Header) (p : ProtocolProfile)
    : Type 0 where
  front_magic : front ≡ magic
  version_one : h.version ≡ 1
  no_flags : h.flags ≡ 0
  compression_bound : h.compression_id ≤ 2
  registered : profile_by_id h.profile_id ≡ some p
  port_range : (0 < h.server_port) × (h.server_port ≤ 65535)
  opaque_bound : h.opaque_len ≤ h.transport_payload_bytes
  transport_bound : h.transport_payload_bytes ≤ h.raw_capture_bytes
  raw_bound : h.raw_capture_bytes ≤ max_payload
  stored_bound : h.layout_stored_len ≤ max_payload
  plain_bound : h.layout_plain_len ≤ max_payload
  sections : header_size + h.layout_stored_len + h.opaque_len ≡ body_size

check_header-Checked :
    (max_payload body_size : ℕ) (front : Bytes) (h : Header) (p : ProtocolProfile)
    → check_header max_payload body_size front h ≡ ok p
    → Checked max_payload body_size front h p
unfolding check_header
check_header-Checked max_payload body_size front h p e = ground (arith, bytes_eq→eq front magic)

-- What `read_sections` makes of a header.
record Sections (max_payload size : ℕ) (b : Bytes) (h : Header) (c : Container) : Type 0 where
  checked : Checked max_payload (length b) (take 8 b) h c.profile
  port : h.server_port ≡ c.server_port
  raw : h.raw_capture_bytes ≡ c.raw_capture_bytes
  transport : h.transport_payload_bytes ≡ c.transport_payload_bytes
  stored : h.layout_stored_len ≡ c.stored_layout_bytes
  plain : h.layout_plain_len ≡ length c.layout
  opaque_size : h.opaque_len ≡ length c.opaque
  archive_size : c.archive_bytes ≡ size

module _ (lib : Library) (max_payload size : ℕ) (b : Bytes) (h : Header) (c : Container) where
  read_sections-Sections :
      read_sections lib max_payload size b h ≡ ok c → Sections max_payload size b h c
  unfolding read_sections
  read_sections-Sections e =
      let (p, checked, e1) = >>=-eq-ok (check_header max_payload (length b) (take 8 b) h) _ e in
      let k = check_header-Checked max_payload (length b) (take 8 b) h p checked in
      let stored = take h.layout_stored_len (drop header_size b) in
      let opaque = drop (header_size + h.layout_stored_len) b in
      let (layout, restored, e2) =
        >>=-eq-ok (decompress lib h.compression_id stored h.layout_plain_len) _ e1 in
      let (l, e3) =
        refuse-then (not (length layout == h.layout_plain_len))
          (format_error layout_length_mismatch) _ e2 in
      let (o, e4) =
        refuse-then (not (length opaque == h.opaque_len)) (format_error opaque_length_mismatch) _
          e3 in
      let long : length stored ≡ h.layout_stored_len = omega (
        arith,
        length-take h.layout_stored_len (drop header_size b),
        length-drop header_size b,
        k.sections,
      ) in
      let full : h.layout_plain_len ≡ length layout = ground arith in
      let rest : h.opaque_len ≡ length opaque = ground arith in
      let made : container_of p layout ≡ c = cc in
      subst (Sections max_payload size b h) made (record {
        checked = k;
        port = refl;
        raw = refl;
        transport = refl;
        stored = sym long;
        plain = full;
        opaque_size = rest;
        archive_size = refl;
      })
    where
      container_of : ProtocolProfile → Bytes → Container
      container_of p layout = record {
        profile = p;
        server_port = h.server_port;
        raw_capture_bytes = h.raw_capture_bytes;
        transport_payload_bytes = h.transport_payload_bytes;
        layout = layout;
        opaque = drop (header_size + h.layout_stored_len) b;
        compression = compression_name h.compression_id;
        archive_bytes = size;
        stored_layout_bytes = length (take h.layout_stored_len (drop header_size b));
      }

take-take : (n m : ℕ) (xs : Bytes) → n ≤ m → take n (take m xs) ≡ take n xs
take-take zero m xs h = refl
take-take (suc n) zero xs h = absurd (omega arith)
take-take (suc n) (suc m) [] h = refl
take-take (suc n) (suc m) (x ∷ xs) h = ap (λ t. x ∷ t) (take-take n m xs (omega arith))

-- The front of the file is that of its body.
take-body_of :
    (lib : Library) (encoded : Bytes) (n : ℕ)
    → n ≤ 34
    → 66 ≤ length encoded
    → take n (body_of lib encoded) ≡ take n encoded
take-body_of lib encoded n h k = take-take n (length encoded - digest_size) encoded (omega arith)

-- Whatever file is accepted: its last 32 bytes are the digest of the rest; it begins with the magic
-- and a header of version 1 without flags, with a known compression and the identifier of the
-- container's profile; the port, the counters and the sizes of the three sections that the header
-- declares are those of the container; the fixed framing of 66 bytes and the declared sizes of the
-- stored layout and the opaque section add up to the size of the file; the port is a port, the
-- counters are ordered, and no section or counter is above the limit of the caller.
pub read_container-Accepted :
    (lib : Library) (encoded : Bytes) (max_payload : ℕ) (c : Container)
    → read_container lib encoded max_payload ≡ ok c
    → Accepted lib encoded max_payload c
unfolding read_container
read_container-Accepted lib encoded max_payload c e =
    let b = body_of lib encoded in
    let (long, e1) =
      refuse-then (ltb (length encoded) (header_size + digest_size)) (format_error too_short) _ e in
    let (same, e2) =
      refuse-then (not (bytes_eq (lib.sha256 b) (digest_of lib encoded)))
        (format_error digest_mismatch) _ e1 in
    let (h, unpacked, e3) =
      >>=-eq-ok (header_of (unpack header_widths (drop 8 (take header_size b)))) _ e2 in
    let s = read_sections-Sections lib max_payload (length encoded) b h c e3 in
    let k = s.checked in
    let framed : 66 ≤ length encoded = ground arith in
    record {
      header = h;
      framed = framed;
      digest = bytes_eq→eq (lib.sha256 b) (digest_of lib encoded) (not-false _ same);
      front_magic = sym (take-body_of lib encoded 8 (omega arith) framed) ∙ k.front_magic;
      unpacked =
          ap (λ f. header_of (unpack header_widths (drop 8 f)))
            (sym (take-body_of lib encoded 34 (omega arith) framed))
          ∙ unpacked;
      version_one = k.version_one;
      no_flags = k.no_flags;
      compression_bound = k.compression_bound;
      registered = k.registered;
      port = s.port;
      raw = s.raw;
      transport = s.transport;
      stored = s.stored;
      plain = s.plain;
      opaque_size = s.opaque_size;
      size = s.archive_size;
      accounted = omega (
        arith,
        s.archive_size,
        k.sections,
        framed,
        length-take (length encoded - digest_size) encoded,
      );
      port_range = subst (λ n. (0 < n) × (n ≤ 65535)) s.port k.port_range;
      opaque_bound = omega (arith, s.opaque_size, s.transport, k.opaque_bound);
      transport_bound = omega (arith, s.transport, s.raw, k.transport_bound);
      raw_bound = omega (arith, s.raw, k.raw_bound);
      stored_bound = omega (arith, s.stored, k.stored_bound);
      layout_bound = omega (arith, s.plain, k.plain_bound);
    }
