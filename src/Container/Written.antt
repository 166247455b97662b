-- ===== src/Container/Written.antt =====
-- minarx/format.py: what `write_container` has checked and written, and the parts of its file.
use mathlib.Core.Path.{subst}
use text.Mathlib.Text.{◌==◌ as str_eq}
use hndl_dev.Prelude.{
  ℕ, ◌+◌, ◌-◌, ◌≤◌, ◌<◌, ◌≡◌, refl, sym, ap, ◌∙◌, String, ◌&&◌, some, ◌++◌, arith, ltb, leb, length,
  take, drop, bytes_eq_refl, Bool-cases, inl, inr, length-append, take-length-append,
  drop-length-append, drop-drop,
}
use hndl_dev.Result.{
  ok, value_error, port_out_of_range, counters_inconsistent, layout_too_large, require-then,
  refuse-then, >>=-eq-ok,
}
use hndl_dev.Struct.{pack}
use hndl_dev.Binary.{Bytes}
use hndl_dev.Profiles.{profile_id, profile_by_id}
use hndl_dev.Profiles.Registry.{ProtocolProfile}
use hndl_dev.Container.{
  Library, IsLibrary, magic, header_size, digest_size, max_archive_payload, shorter, compress,
  identifier_of, header_fields, with_digest, write_container,
}
use hndl_dev.Container.Read.{Header, check_header, decompress, body_of, digest_of}

module _ (lib : Library) (law : IsLibrary lib) (layout : Bytes) where
  -- A candidate of `_compress` that the reader can undo.
  pub record Undone (c : ℕ × Bytes) : Type 0 where
    pub identifier : c.0 ≤ 2
    pub restored : decompress lib c.0 c.1 (length layout) ≡ ok layout

  plain : Undone (0, layout)
  unfolding decompress
  plain = record { identifier = omega arith; restored = refl }

  deflated : Undone (1, lib.deflate layout)
  unfolding decompress
  deflated = record {
    identifier = omega arith;
    restored = rw (law.inflate-deflate layout (length layout + 1) (omega arith));
  }

  lzma : Undone (2, lib.lzma_compress layout)
  unfolding decompress
  lzma = record {
    identifier = omega arith;
    restored = rw (law.decompress-compress layout (length layout + 1) (omega arith));
  }

  shorter-Undone : (c d : ℕ × Bytes) → Undone c → Undone d → Undone (shorter c d)
  shorter-Undone (i, x) (j, y) hc hd = elim (Bool-cases (ltb (length y) (length x))) [
    | inl less ↦ rw less hd
    | inr more ↦ rw more hc
  ]

  pub compress-Undone : (name : String) (c : ℕ × Bytes) → compress lib layout name ≡ ok c → Undone c
  unfolding compress
  compress-Undone name c h = elim (Bool-cases (str_eq name "none")) [
    | inl a ↦ chosen plain (rw a at h)
    | inr a ↦ elim (Bool-cases (str_eq name "deflate")) [
      | inl b ↦ chosen deflated (rw (a, b) at h)
      | inr b ↦ elim (Bool-cases (str_eq name "lzma")) [
        | inl d ↦ chosen lzma (rw (a, b, d) at h)
        | inr d ↦ elim (Bool-cases (str_eq name "auto")) [
          | inl e ↦
              chosen (shorter-Undone _ _ (shorter-Undone _ _ plain deflated) lzma)
                (rw (a, b, d, e) at h)
          | inr e ↦ let h' = rw (a, b, d, e) at h in cc
        ]
      ]
    ]
  ]
    where
      chosen : {d : ℕ × Bytes} → Undone d → ok d ≡ ok c → Undone c
      chosen {d} u e = let same : d ≡ c = cc in subst Undone same u

module _ (lib : Library) (profile : ProtocolProfile) (port raw transport : ℕ)
    (layout opaque : Bytes) (name : String) where
  -- What a successful `write_container` has checked and written.
  pub record Written (encoded : Bytes) : Type 0 where
    pub identifier : ℕ
    pub compressed : ℕ × Bytes
    pub header : Bytes
    pub known : profile_id profile.name ≡ some identifier
    pub port_range : (0 < port) × (port ≤ 65535)
    pub opaque_bound : length opaque ≤ transport
    pub transport_bound : transport ≤ raw
    pub raw_bound : raw ≤ max_archive_payload
    pub layout_bound : length layout ≤ max_archive_payload
    pub stored : compress lib layout name ≡ ok compressed
    pub packed :
        pack (
          header_fields lib identifier compressed.0 port raw transport
            (length compressed.1)
            (length layout)
            (length opaque))
        ≡ ok header
    pub result : with_digest lib ((magic ++ header) ++ (compressed.1 ++ opaque)) ≡ encoded

  identifier-eq : (i : ℕ) → identifier_of lib profile ≡ ok i → profile_id profile.name ≡ some i
  identifier-eq i h = ground arith

  pub write_container-Written :
      (encoded : Bytes)
      → write_container lib profile port raw transport layout opaque name ≡ ok encoded
      → Written encoded
  unfolding write_container
  write_container-Written encoded h =
      let (i, known, h1) = >>=-eq-ok (identifier_of lib profile) _ h in
      let (port_test, h2) =
        require-then (ltb 0 port && leb port 65535) (value_error port_out_of_range) _ h1 in
      let (counter_test, h3) =
        require-then
          (leb (length opaque) transport && leb transport raw && leb raw max_archive_payload)
          (value_error counters_inconsistent) _ h2 in
      let (size_test, h4) =
        refuse-then (ltb max_archive_payload (length layout)) (value_error layout_too_large) _ h3 in
      let (c, stored, h5) = >>=-eq-ok (compress lib layout name) _ h4 in
      let (header, packed, h6) =
        >>=-eq-ok
          (pack (
            header_fields lib i c.0 port raw transport (length c.1) (length layout)
              (length opaque)))
          _ h5 in
      record {
        identifier = i;
        compressed = c;
        header = header;
        known = identifier-eq i known;
        port_range = ground arith;
        opaque_bound = ground arith;
        transport_bound = ground arith;
        raw_bound = ground arith;
        layout_bound = ground arith;
        stored = stored;
        packed = packed;
        result = cc;
      }

-- The parts of a written archive, cut out again.
module _ (lib : Library) (law : IsLibrary lib) (header stored opaque : Bytes) where
  abbrev pub body : Bytes
  body = (magic ++ header) ++ (stored ++ opaque)

  pub encoded_size : length (with_digest lib body) ≡ length body + 32
  encoded_size =
      length-append body (lib.sha256 body) ∙ ap (λ n. length body + n) (law.digest_size body)

  body_cut : length (with_digest lib body) - digest_size ≡ length body
  body_cut = omega (arith, encoded_size)

  pub body_of-with_digest : body_of lib (with_digest lib body) ≡ body
  body_of-with_digest = rw body_cut (take-length-append body (lib.sha256 body))

  pub digest_of-with_digest : digest_of lib (with_digest lib body) ≡ lib.sha256 body
  digest_of-with_digest = rw body_cut (drop-length-append body (lib.sha256 body))

  module _ (size : length header ≡ 26) where
    front_size : length (magic ++ header) ≡ header_size
    front_size = omega (arith, size)

    pub header_cut : drop 8 (take header_size body) ≡ header
    header_cut =
        ap (λ n. drop 8 (take n body)) (sym front_size)
        ∙ ap (drop 8) (take-length-append (magic ++ header) (stored ++ opaque))

    sections : drop header_size body ≡ stored ++ opaque
    sections =
        ap (λ n. drop n body) (sym front_size)
        ∙ drop-length-append (magic ++ header) (stored ++ opaque)

    pub stored_cut : take (length stored) (drop header_size body) ≡ stored
    stored_cut = ap (take (length stored)) sections ∙ take-length-append stored opaque

    pub opaque_cut : drop (header_size + length stored) body ≡ opaque
    opaque_cut =
        sym (drop-drop (length stored) header_size body)
        ∙ ap (drop (length stored)) sections
        ∙ drop-length-append stored opaque

    pub body_size : header_size + length stored + length opaque ≡ length body
    body_size = omega (
      arith,
      front_size,
      length-append (magic ++ header) (stored ++ opaque),
      length-append stored opaque,
    )

-- The header that is written for checked arguments passes the reader's tests.
pub check_header-written :
    (h : Header) (p : ProtocolProfile) (max_payload body_size : ℕ)
    → h.version ≡ 1
    → profile_by_id h.profile_id ≡ some p
    → h.compression_id ≤ 2
    → h.flags ≡ 0
    → (0 < h.server_port) × (h.server_port ≤ 65535)
    → (h.opaque_len ≤ h.transport_payload_bytes)
      × (h.transport_payload_bytes ≤ h.raw_capture_bytes)
      × (h.raw_capture_bytes ≤ max_payload)
    → h.layout_stored_len ≤ max_payload
    → h.layout_plain_len ≤ max_payload
    → header_size + h.layout_stored_len + h.opaque_len ≡ body_size
    → check_header max_payload body_size magic h ≡ ok p
unfolding check_header
check_header-written h p max_payload body_size v known c f port counters stored plain size =
    ground (arith, bytes_eq_refl magic)
