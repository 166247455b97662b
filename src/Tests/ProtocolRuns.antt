-- ===== src/Tests/ProtocolRuns.antt =====
-- minarx/protocols on small traces.
use hndl_dev.Prelude.{◌≡◌, refl, some, List, [], ◌∷◌, get_or, bytes_eq}
use hndl_dev.Prelude.Endian.{from_bytes_big}
use hndl_dev.Result.{ok}
use hndl_dev.Binary.{Bytes, byte, take_bytes, finish}
use hndl_dev.Pcap.{Chunk, stream}
use hndl_dev.Records.{drain, split_chunks, split_tls_records}
use hndl_dev.Hello.{drain_messages, handshake_records, clear_handshake_messages}
use hndl_dev.Hello.Cursor.{byte_at}
use hndl_dev.Hello.Extensions.{
  after_session_id, after_compression, extension_loop, extension_block, extensions_from,
  hello_extensions,
}
use hndl_dev.Hello.Parameters.{
  first_hellos, server_parameters, optional_server, present, tls_hello_parameters,
}
use hndl_dev.Profiles.Registry.{tls12_rsa_aes128_sha_noems, tls13_full_aes128gcm, profiles}
use hndl_dev.Profiles.{find_profile, profile_named}
use hndl_dev.Protocols.Tls.{check_tls12, validate_tls12, check_tls13, validate_tls13}
use hndl_dev.Protocols.Tls.Unique.{last_index, validate_tls13_unique}
use hndl_dev.Protocols.Ssh.Kexinit.{
  split_names, is_ascii, read_word, name_list, name_lists, kexinit_fields, packet_payload,
  kexinit_loop, from_banner, behind_line, first_kexinit,
}
use hndl_dev.Protocols.Ssh.{is_name_in, negotiate, SshNames, check_ssh, validate_ssh}
use hndl_dev.Protocols.Ssh.Negotiated.{FirstCommon, validate_ssh_negotiated}

abbrev trace12 : List Chunk
trace12 =
    record {
      direction = 0;
      contents =
          22 ∷ 3 ∷ 3 ∷ 0 ∷ 45 ∷ 1 ∷ 0 ∷ 0 ∷ 41 ∷ 3 ∷ 3 ∷ 0 ∷ 0 ∷ 0 ∷ 0 ∷ 0 ∷ 0 ∷ 0 ∷ 0 ∷ 0 ∷ 0 ∷ 0
          ∷ 0 ∷ 0 ∷ 0 ∷ 0 ∷ 0 ∷ 0 ∷ 0 ∷ 0 ∷ 0 ∷ 0 ∷ 0 ∷ 0 ∷ 0 ∷ 0 ∷ 0 ∷ 0 ∷ 0 ∷ 0 ∷ 0 ∷ 0 ∷ 0 ∷ 0
          ∷ 0 ∷ 2 ∷ 19 ∷ 1 ∷ 1 ∷ 0 ∷ [];
    }
    ∷ record {
      direction = 1;
      contents =
          22 ∷ 3 ∷ 3 ∷ 0 ∷ 42 ∷ 2 ∷ 0 ∷ 0 ∷ 38 ∷ 3 ∷ 3 ∷ 0 ∷ 0 ∷ 0 ∷ 0 ∷ 0 ∷ 0 ∷ 0 ∷ 0 ∷ 0 ∷ 0 ∷ 0
          ∷ 0 ∷ 0 ∷ 0 ∷ 0 ∷ 0 ∷ 0 ∷ 0 ∷ 0 ∷ 0 ∷ 0 ∷ 0 ∷ 0 ∷ 0 ∷ 0 ∷ 0 ∷ 0 ∷ 0 ∷ 0 ∷ 0 ∷ 0 ∷ 0 ∷ 0
          ∷ 0 ∷ 47 ∷ 0 ∷ [];
    }
    ∷ []

tls12_named : profile_named "tls12-rsa-aes128-sha-noems" ≡ some tls12_rsa_aes128_sha_noems
unfolding profiles find_profile
tls12_named = refl

tls12_run : validate_tls12 tls12_rsa_aes128_sha_noems trace12 0 ≡ ok tt
unfolding validate_tls12 check_tls12 tls_hello_parameters first_hellos server_parameters
    optional_server present hello_extensions extensions_from extension_block extension_loop
    after_compression after_session_id byte_at clear_handshake_messages handshake_records
    drain_messages split_tls_records split_chunks drain from_bytes_big bytes_eq
tls12_run = refl

abbrev pub trace13 : List Chunk
trace13 =
    record {
      direction = 0;
      contents =
          22 ∷ 3 ∷ 3 ∷ 0 ∷ 45 ∷ 1 ∷ 0 ∷ 0 ∷ 41 ∷ 3 ∷ 3 ∷ 0 ∷ 0 ∷ 0 ∷ 0 ∷ 0 ∷ 0 ∷ 0 ∷ 0 ∷ 0 ∷ 0 ∷ 0
          ∷ 0 ∷ 0 ∷ 0 ∷ 0 ∷ 0 ∷ 0 ∷ 0 ∷ 0 ∷ 0 ∷ 0 ∷ 0 ∷ 0 ∷ 0 ∷ 0 ∷ 0 ∷ 0 ∷ 0 ∷ 0 ∷ 0 ∷ 0 ∷ 0 ∷ 0
          ∷ 0 ∷ 2 ∷ 19 ∷ 1 ∷ 1 ∷ 0 ∷ [];
    }
    ∷ record {
      direction = 1;
      contents =
          22 ∷ 3 ∷ 3 ∷ 0 ∷ 52 ∷ 2 ∷ 0 ∷ 0 ∷ 48 ∷ 3 ∷ 3 ∷ 0 ∷ 0 ∷ 0 ∷ 0 ∷ 0 ∷ 0 ∷ 0 ∷ 0 ∷ 0 ∷ 0 ∷ 0
          ∷ 0 ∷ 0 ∷ 0 ∷ 0 ∷ 0 ∷ 0 ∷ 0 ∷ 0 ∷ 0 ∷ 0 ∷ 0 ∷ 0 ∷ 0 ∷ 0 ∷ 0 ∷ 0 ∷ 0 ∷ 0 ∷ 0 ∷ 0 ∷ 0 ∷ 0
          ∷ 19 ∷ 1 ∷ 0 ∷ 0 ∷ 8 ∷ 0 ∷ 51 ∷ 0 ∷ 4 ∷ 0 ∷ 29 ∷ 0 ∷ 0 ∷ [];
    }
    ∷ []

pub tls13_named : profile_named "tls13-full-aes128gcm" ≡ some tls13_full_aes128gcm
unfolding profiles find_profile
tls13_named = refl

tls13_run : validate_tls13 tls13_full_aes128gcm "1rtt" trace13 (last_index "1rtt") ≡ ok tt
unfolding validate_tls13 check_tls13 tls_hello_parameters first_hellos server_parameters
    optional_server present hello_extensions extensions_from extension_block extension_loop
    after_compression after_session_id byte_at clear_handshake_messages handshake_records
    drain_messages split_tls_records split_chunks drain from_bytes_big bytes_eq
tls13_run = refl

validate_tls13_unique_example : tls13_full_aes128gcm.name ≡ tls13_full_aes128gcm.name
validate_tls13_unique_example =
    validate_tls13_unique "tls13-full-aes128gcm" "tls13-full-aes128gcm" "1rtt" tls13_full_aes128gcm
      tls13_full_aes128gcm trace13 tls13_named tls13_named refl refl refl refl tls13_run tls13_run

-- The client prefers other algorithms that the server does not have.
abbrev ssh_trace : List Chunk
ssh_trace =
    record {
      direction = 0;
      contents =
          83 ∷ 83 ∷ 72 ∷ 45 ∷ 50 ∷ 10 ∷ 0 ∷ 0 ∷ 0 ∷ 81 ∷ 4 ∷ 20 ∷ 0 ∷ 0 ∷ 0 ∷ 0 ∷ 0 ∷ 0 ∷ 0 ∷ 0 ∷ 0
          ∷ 0 ∷ 0 ∷ 0 ∷ 0 ∷ 0 ∷ 0 ∷ 0 ∷ 0 ∷ 0 ∷ 0 ∷ 3 ∷ 122 ∷ 44 ∷ 107 ∷ 0 ∷ 0 ∷ 0 ∷ 1 ∷ 104 ∷ 0 ∷ 0
          ∷ 0 ∷ 3 ∷ 97 ∷ 44 ∷ 99 ∷ 0 ∷ 0 ∷ 0 ∷ 3 ∷ 97 ∷ 44 ∷ 99 ∷ 0 ∷ 0 ∷ 0 ∷ 1 ∷ 109 ∷ 0 ∷ 0 ∷ 0
          ∷ 1 ∷ 109 ∷ 0 ∷ 0 ∷ 0 ∷ 1 ∷ 110 ∷ 0 ∷ 0 ∷ 0 ∷ 1 ∷ 110 ∷ 0 ∷ 0 ∷ 0 ∷ 0 ∷ 0 ∷ 0 ∷ 0 ∷ 0 ∷ 0
          ∷ 0 ∷ 0 ∷ 0 ∷ 0 ∷ 0 ∷ 0 ∷ 0 ∷ 0 ∷ [];
    }
    ∷ record {
      direction = 1;
      contents =
          83 ∷ 83 ∷ 72 ∷ 45 ∷ 50 ∷ 10 ∷ 0 ∷ 0 ∷ 0 ∷ 79 ∷ 4 ∷ 20 ∷ 0 ∷ 0 ∷ 0 ∷ 0 ∷ 0 ∷ 0 ∷ 0 ∷ 0 ∷ 0
          ∷ 0 ∷ 0 ∷ 0 ∷ 0 ∷ 0 ∷ 0 ∷ 0 ∷ 0 ∷ 0 ∷ 0 ∷ 1 ∷ 107 ∷ 0 ∷ 0 ∷ 0 ∷ 1 ∷ 104 ∷ 0 ∷ 0 ∷ 0 ∷ 3
          ∷ 99 ∷ 44 ∷ 97 ∷ 0 ∷ 0 ∷ 0 ∷ 3 ∷ 99 ∷ 44 ∷ 97 ∷ 0 ∷ 0 ∷ 0 ∷ 1 ∷ 109 ∷ 0 ∷ 0 ∷ 0 ∷ 1 ∷ 109
          ∷ 0 ∷ 0 ∷ 0 ∷ 1 ∷ 110 ∷ 0 ∷ 0 ∷ 0 ∷ 1 ∷ 110 ∷ 0 ∷ 0 ∷ 0 ∷ 0 ∷ 0 ∷ 0 ∷ 0 ∷ 0 ∷ 0 ∷ 0 ∷ 0
          ∷ 0 ∷ 0 ∷ 0 ∷ 0 ∷ 0 ∷ 0 ∷ [];
    }
    ∷ []

abbrev ssh_profile : SshNames
ssh_profile = record { key_exchange = 107 ∷ []; cipher_suite = 97 ∷ [] }

ssh_run : validate_ssh ssh_profile ssh_trace ≡ ok tt
unfolding validate_ssh check_ssh negotiate is_name_in stream first_kexinit from_banner behind_line
    kexinit_loop packet_payload kexinit_fields name_lists name_list read_word is_ascii split_names
    byte take_bytes finish from_bytes_big bytes_eq
ssh_run = refl

validate_ssh_negotiated_example :
    (client : List (List Bytes)) × (server : List (List Bytes)) × (first_kexinit
        (stream 0 ssh_trace)
      ≡ ok client)
    × (first_kexinit (stream 1 ssh_trace) ≡ ok server)
    × FirstCommon (get_or client 0 []) (get_or server 0 []) (107 ∷ [])
    × FirstCommon (get_or client 2 []) (get_or server 2 []) (97 ∷ [])
    × FirstCommon (get_or client 3 []) (get_or server 3 []) (97 ∷ [])
validate_ssh_negotiated_example = validate_ssh_negotiated ssh_profile ssh_trace ssh_run
