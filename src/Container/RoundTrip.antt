-- ===== src/Container/RoundTrip.antt =====
-- `read_container` gives back what `write_container` wrote.
use mathlib.Core.Path.{subst}
use hndl_dev.Prelude.{
  ℕ, ◌+◌, ◌≤◌, ◌≡◌, refl, ap, ◌∙◌, String, some, [], append-nil, arith, length, take, drop,
  bytes_eq_refl,
}
use hndl_dev.Result.{ok}
use hndl_dev.Struct.{unpack, unpack-pack}
use hndl_dev.Binary.{Bytes}
use hndl_dev.Profiles.{profile_by_id, profile_named}
use hndl_dev.Profiles.Registry.{ProtocolProfile, profiles}
use hndl_dev.Profiles.Identifiers.{find_profile-name, profile_named-profile_id}
use hndl_dev.Container.{
  Library, IsLibrary, magic, header_size, max_archive_payload, compress, write_container,
}
use hndl_dev.Container.Read.{
  Container, Header, header_widths, header_of, check_header, decompress, compression_name,
  read_sections, body_of, digest_of, read_container,
}
use hndl_dev.Container.Written.{
  Undone, compress-Undone, Written, write_container-Written, body, encoded_size,
  body_of-with_digest, digest_of-with_digest, header_cut, stored_cut, opaque_cut, body_size,
  check_header-written,
}

-- `read_container` on a file whose parts are known.
module _ (lib : Library) where
  read_sections-of :
      (b : Bytes) (h : Header) (p : ProtocolProfile) (stored layout opaque : Bytes)
      (max_payload size : ℕ)
      → take 8 b ≡ magic
      → check_header max_payload (length b) magic h ≡ ok p
      → take h.layout_stored_len (drop header_size b) ≡ stored
      → drop (header_size + h.layout_stored_len) b ≡ opaque
      → decompress lib h.compression_id stored h.layout_plain_len ≡ ok layout
      → length layout ≡ h.layout_plain_len
      → length opaque ≡ h.opaque_len
      → read_sections lib max_payload size b h
        ≡ ok (record {
          profile = p;
          server_port = h.server_port;
          raw_capture_bytes = h.raw_capture_bytes;
          transport_payload_bytes = h.transport_payload_bytes;
          layout = layout;
          opaque = opaque;
          compression = compression_name h.compression_id;
          archive_bytes = size;
          stored_layout_bytes = length stored;
        })
  unfolding read_sections
  read_sections-of b h p stored layout opaque max_payload size front checked s o restored l n =
      rw (front, checked, s, o, restored) (ground arith)

  read_container-of :
      (encoded b : Bytes) (max_payload : ℕ) (h : Header)
      → body_of lib encoded ≡ b
      → digest_of lib encoded ≡ lib.sha256 b
      → 66 ≤ length encoded
      → header_of (unpack header_widths (drop 8 (take header_size b))) ≡ ok h
      → read_container lib encoded max_payload ≡ read_sections lib max_payload (length encoded) b h
  unfolding read_container
  read_container-of encoded b max_payload h cut digest long header =
      rw (cut, digest, header) (ground (arith, bytes_eq_refl (lib.sha256 b)))

module _ (lib : Library) (law : IsLibrary lib) (profile : ProtocolProfile) (port raw transport : ℕ)
    (layout opaque : Bytes) (name : String) (encoded : Bytes)
    (w : Written lib profile port raw transport layout opaque name encoded) where
  -- The header that the reader unpacks.
  written_header : Header
  written_header = record {
    version = 1;
    profile_id = w.identifier;
    compression_id = w.compressed.0;
    flags = 0;
    server_port = port;
    raw_capture_bytes = raw;
    transport_payload_bytes = transport;
    layout_stored_len = length w.compressed.1;
    layout_plain_len = length layout;
    opaque_len = length opaque;
  }

  header_length : length w.header ≡ 26
  header_length = (unpack-pack _ w.header [] w.packed).0

  written_container : ProtocolProfile → Container
  written_container p = record {
    profile = p;
    server_port = port;
    raw_capture_bytes = raw;
    transport_payload_bytes = transport;
    layout = layout;
    opaque = opaque;
    compression = compression_name w.compressed.0;
    archive_bytes = length encoded;
    stored_layout_bytes = length w.compressed.1;
  }

  header_back : header_of (unpack header_widths w.header) ≡ ok written_header
  unfolding header_of written_header
  header_back =
      let fields : unpack header_widths w.header ≡ _ =
        rw (append-nil w.header) at (unpack-pack _ w.header [] w.packed).1 in
      ap header_of fields

  module _ (p : ProtocolProfile) (known : profile_by_id w.identifier ≡ some p)
      (fits : length w.compressed.1 ≤ max_archive_payload) where
    read_sections-written :
        read_sections lib max_archive_payload
          (length encoded)
          (body lib law w.header w.compressed.1 opaque)
          written_header
        ≡ ok (written_container p)
    unfolding read_sections written_header written_container
    read_sections-written =
        read_sections-of lib b written_header p w.compressed.1 layout opaque max_archive_payload
          (length encoded) refl
          (check_header-written written_header p max_archive_payload (length b) refl known
            undone.identifier refl w.port_range (w.opaque_bound, w.transport_bound, w.raw_bound)
            fits w.layout_bound (body_size lib law w.header w.compressed.1 opaque header_length))
          (stored_cut lib law w.header w.compressed.1 opaque header_length)
          (opaque_cut lib law w.header w.compressed.1 opaque header_length) undone.restored refl
          refl
      where
        b : Bytes
        b = body lib law w.header w.compressed.1 opaque

        undone : Undone lib law layout w.compressed
        undone = compress-Undone lib law layout name w.compressed w.stored

    read_container-written :
        read_container lib encoded max_archive_payload ≡ ok (written_container p)
    read_container-written =
        read_container-of lib encoded b max_archive_payload written_header
          (subst (λ e. body_of lib e ≡ b) w.result
            (body_of-with_digest lib law w.header w.compressed.1 opaque))
          (subst (λ e. digest_of lib e ≡ lib.sha256 b) w.result
            (digest_of-with_digest lib law w.header w.compressed.1 opaque))
          (omega (
            arith,
            ap length w.result,
            encoded_size lib law w.header w.compressed.1 opaque,
            body_size lib law w.header w.compressed.1 opaque header_length,
          ))
          (ap (λ t. header_of (unpack header_widths t))
              (header_cut lib law w.header w.compressed.1 opaque header_length)
            ∙ header_back)
        ∙ read_sections-written
      where
        b : Bytes
        b = body lib law w.header w.compressed.1 opaque

-- The container that a reader gets from the bytes of a writer.
pub record Restored (lib : Library) (profile : ProtocolProfile) (port raw transport : ℕ)
    (layout opaque encoded : Bytes) : Type 0 where
  pub container : Container
  pub read : read_container lib encoded max_archive_payload ≡ ok container
  pub registered : profile_named profile.name ≡ some container.profile
  pub server_port : container.server_port ≡ port
  pub raw_capture_bytes : container.raw_capture_bytes ≡ raw
  pub transport_payload_bytes : container.transport_payload_bytes ≡ transport
  pub layout_back : container.layout ≡ layout
  pub opaque_back : container.opaque ≡ opaque
  pub archive_bytes : container.archive_bytes ≡ length encoded

pub write_container-Restored :
    (lib : Library) (profile : ProtocolProfile) (port raw transport : ℕ) (layout opaque : Bytes)
    (name : String) (encoded : Bytes)
    → IsLibrary lib
    → ((c : ℕ × Bytes) → compress lib layout name ≡ ok c → length c.1 ≤ max_archive_payload)
    → write_container lib profile port raw transport layout opaque name ≡ ok encoded
    → Restored lib profile port raw transport layout opaque encoded
unfolding written_container
write_container-Restored lib profile port raw transport layout opaque name encoded law fits h =
    let w = write_container-Written lib profile port raw transport layout opaque name encoded h in
    let (p, known, same) = profile_named-profile_id profile.name w.identifier w.known in
    record {
      container =
          written_container lib law profile port raw transport layout opaque name encoded w p;
      read =
          read_container-written lib law profile port raw transport layout opaque name encoded w p
            known (fits w.compressed w.stored);
      registered = same;
      server_port = refl;
      raw_capture_bytes = refl;
      transport_payload_bytes = refl;
      layout_back = refl;
      opaque_back = refl;
      archive_bytes = refl;
    }

-- An archive that `write_container` wrote for a registered profile is read back with that profile's
-- name, the port, the counters, the layout and the opaque bytes that were written, and with the
-- size of the file. The stored layout is within the limit of a section.
pub read_container-write_container :
    (lib : Library) (profile : ProtocolProfile) (port raw transport : ℕ) (layout opaque : Bytes)
    (name : String) (encoded : Bytes)
    → IsLibrary lib
    → ((c : ℕ × Bytes) → compress lib layout name ≡ ok c → length c.1 ≤ max_archive_payload)
    → write_container lib profile port raw transport layout opaque name ≡ ok encoded
    → (c : Container) × (read_container lib encoded max_archive_payload ≡ ok c)
      × (c.profile.name ≡ profile.name)
      × (c.server_port ≡ port)
      × (c.raw_capture_bytes ≡ raw)
      × (c.transport_payload_bytes ≡ transport)
      × (c.layout ≡ layout)
      × (c.opaque ≡ opaque)
      × (c.archive_bytes ≡ length encoded)
read_container-write_container lib profile port raw transport layout opaque name encoded law fits
      h =
    let r =
      write_container-Restored lib profile port raw transport layout opaque name encoded law fits
        h in
    (
      r.container,
      r.read,
      find_profile-name profile.name profiles r.container.profile r.registered,
      r.server_port,
      r.raw_capture_bytes,
      r.transport_payload_bytes,
      r.layout_back,
      r.opaque_back,
      r.archive_bytes,
    )
