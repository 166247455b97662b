-- ===== src/Tests/ContainerRuns.antt =====
-- A container with a toy library: a constant digest, and compressors that add one byte in front.
use hndl_dev.Prelude.{ℕ, ◌≤◌, ◌≡◌, refl, ap, Option, none, [], ◌∷◌, arith, length, bytes_eq}
use hndl_dev.Prelude.Endian.{to_bytes_big, from_bytes_big}
use hndl_dev.Result.{ok}
use hndl_dev.Struct.{pack, unpack}
use hndl_dev.Binary.{Bytes}
use hndl_dev.Profiles.{profile_names, index_from, find_profile, profile_by_id}
use hndl_dev.Profiles.Registry.{profiles, tls13_full_aes256gcm}
use hndl_dev.Container.{
  Library, IsLibrary, Inflated, complete, compress, write_container, max_archive_payload,
}
use hndl_dev.Container.Read.{
  Container, header_of, check_header, decompress, compression_name, read_sections, read_container,
}
use hndl_dev.Container.RoundTrip.{read_container-write_container}
use hndl_dev.Container.Accepted.{Accepted, read_container-Accepted}

abbrev constant_digest : Bytes
constant_digest =
    1 ∷ 2 ∷ 3 ∷ 4 ∷ 5 ∷ 6 ∷ 7 ∷ 8 ∷ 1 ∷ 2 ∷ 3 ∷ 4 ∷ 5 ∷ 6 ∷ 7 ∷ 8 ∷ 1 ∷ 2 ∷ 3 ∷ 4 ∷ 5 ∷ 6 ∷ 7 ∷ 8
    ∷ 1 ∷ 2 ∷ 3 ∷ 4 ∷ 5 ∷ 6 ∷ 7 ∷ 8 ∷ []

abbrev without_first : Bytes → ℕ → Option Inflated
without_first [] limit = none
without_first (b ∷ bs) limit = complete bs

abbrev pub toy : Library
toy = record {
  sha256 = λ body. constant_digest;
  deflate = λ layout. 120 ∷ layout;
  inflate = without_first;
  lzma_compress = λ layout. 93 ∷ layout;
  lzma_decompress = without_first;
}

pub toy-IsLibrary : IsLibrary toy
toy-IsLibrary = record {
  digest_size = λ body. refl;
  inflate-deflate = λ layout limit h. refl;
  decompress-compress = λ layout limit h. refl;
}

abbrev written : Bytes
written =
    77 ∷ 73 ∷ 78 ∷ 65 ∷ 82 ∷ 88 ∷ 13 ∷ 10 ∷ 1 ∷ 5 ∷ 1 ∷ 0 ∷ 1 ∷ 187 ∷ 0 ∷ 0 ∷ 0 ∷ 100 ∷ 0 ∷ 0 ∷ 0
    ∷ 50 ∷ 0 ∷ 0 ∷ 0 ∷ 3 ∷ 0 ∷ 0 ∷ 0 ∷ 2 ∷ 0 ∷ 0 ∷ 0 ∷ 1 ∷ 120 ∷ 7 ∷ 8 ∷ 9 ∷ constant_digest

write_run :
    write_container toy tls13_full_aes256gcm 443 100 50 (7 ∷ 8 ∷ []) (9 ∷ []) "deflate" ≡ ok written
unfolding write_container index_from profile_names compress pack to_bytes_big
write_run = refl

small_layout :
    (c : ℕ × Bytes) → compress toy (7 ∷ 8 ∷ []) "deflate" ≡ ok c → length c.1 ≤ max_archive_payload
unfolding compress
small_layout (i, x) h = let e : 120 ∷ 7 ∷ 8 ∷ [] ≡ x = cc in omega (arith, ap length e)

abbrev recovered : Container
recovered = record {
  profile = tls13_full_aes256gcm;
  server_port = 443;
  raw_capture_bytes = 100;
  transport_payload_bytes = 50;
  layout = 7 ∷ 8 ∷ [];
  opaque = 9 ∷ [];
  compression = "deflate";
  archive_bytes = 70;
  stored_layout_bytes = 3;
}

read_run : read_container toy written max_archive_payload ≡ ok recovered
unfolding read_container read_sections unpack from_bytes_big header_of check_header decompress
    profile_by_id profile_names find_profile profiles bytes_eq compression_name
read_run = refl

read_container-write_container_example :
    (c : Container) × (read_container toy written max_archive_payload ≡ ok c)
    × (c.profile.name ≡ "tls13-full-aes256gcm")
    × (c.server_port ≡ 443)
    × (c.raw_capture_bytes ≡ 100)
    × (c.transport_payload_bytes ≡ 50)
    × (c.layout ≡ 7 ∷ 8 ∷ [])
    × (c.opaque ≡ 9 ∷ [])
    × (c.archive_bytes ≡ 70)
read_container-write_container_example =
    read_container-write_container toy tls13_full_aes256gcm 443 100 50 (7 ∷ 8 ∷ []) (9 ∷ [])
      "deflate" written toy-IsLibrary small_layout write_run

read_container-Accepted_example : Accepted toy written max_archive_payload recovered
read_container-Accepted_example =
    read_container-Accepted toy written max_archive_payload recovered read_run
