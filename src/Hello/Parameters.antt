-- ===== src/Hello/Parameters.antt =====
-- minarx/protocols/common.py: `tls_hello_parameters`. A dictionary entry that the code sets only in
-- some cases is an option, and a set of extension types is the list of the dictionary's keys.
use hndl_dev.Prelude.{
  ℕ, ◌+◌, Bool, true, false, ◌&&◌, Option, none, some, List, [], ◌∷◌, ltb, leb, ◌==◌, if◌then◌else◌,
  length, bytes_eq,
}
use hndl_dev.Result.{
  Result, ok, err, refuse_if, value_error, hello_retry_request, no_client_hello,
  truncated_server_hello, truncated_cipher_suite, ◌>>=◌, ◌>>◌,
}
use hndl_dev.Binary.{Bytes}
use hndl_dev.Maps.{find, has_key, keys}
use hndl_dev.Pcap.{Chunk}
use hndl_dev.Hello.{Message, clear_handshake_messages}
use hndl_dev.Hello.Cursor.{byte_at, word_at, slice_at}
use hndl_dev.Hello.Extensions.{hello_extensions}

-- `client_hello` and `server_hello`
pub record Hellos : Type 0 where
  pub client_hello : Option Bytes
  pub server_hello : Option Bytes

abbrev is_none : Option Bytes → Bool
is_none none = true
is_none (some v) = false

-- One round of the loop over the messages.
abbrev pub note_hello : Bytes → ℕ → Hellos → Hellos
note_hello message kind h =
    if kind == 1 && is_none h.client_hello
    then record h { client_hello = some message }
    else if kind == 2 && is_none h.server_hello
    then record h { server_hello = some message }
    else h

unfoldable pub first_hellos : List Message → Hellos → Result Hellos
first_hellos [] h = ok h
first_hellos (m ∷ ms) h = do
  kind ← byte_at m.contents 0
  first_hellos ms (note_hello m.contents kind h)

-- The random of a HelloRetryRequest.
abbrev pub retry_random : Bytes
retry_random =
    207 ∷ 33 ∷ 173 ∷ 116 ∷ 229 ∷ 154 ∷ 97 ∷ 17 ∷ 190 ∷ 29 ∷ 140 ∷ 2 ∷ 30 ∷ 101 ∷ 184 ∷ 145 ∷ 194
    ∷ 162 ∷ 17 ∷ 22 ∷ 122 ∷ 187 ∷ 140 ∷ 94 ∷ 7 ∷ 158 ∷ 9 ∷ 226 ∷ 200 ∷ 168 ∷ 51 ∷ 156 ∷ []

abbrev pub is_retry : Option Bytes → Bool
is_retry none = false
is_retry (some message) = bytes_eq (slice_at message 6 32) retry_random

-- What a ServerHello adds to the result.
pub record ServerParameters : Type 0 where
  pub cipher_suite_id : ℕ
  pub server_extension_types : List ℕ
  pub extended_master_secret : Bool
  pub resumption_selected : Bool
  pub server_key_share_group : Option ℕ

pub record HelloParameters : Type 0 where
  pub client_extension_types : List ℕ
  pub resumption_offered : Bool
  pub early_data_offered : Bool
  pub client_key_share_group : Option ℕ
  pub server : Option ServerParameters

-- The group in a key share: behind the list's size in a ClientHello, in front in a ServerHello.
abbrev pub client_group : Option Bytes → Option ℕ
client_group none = none
client_group (some share) = if leb 4 (length share) then some (word_at share 2) else none

abbrev pub server_group : Option Bytes → Option ℕ
server_group none = none
server_group (some share) = if leb 2 (length share) then some (word_at share 0) else none

unfoldable pub server_parameters : Bytes → Result ServerParameters
server_parameters message = do
  refuse_if (leb (length message) 38) (value_error truncated_server_hello)
  size ← byte_at message 38
  refuse_if (ltb (length message) (38 + (1 + size) + 2)) (value_error truncated_cipher_suite)
  extensions ← hello_extensions message true
  ok (record {
    cipher_suite_id = word_at message (38 + (1 + size));
    server_extension_types = keys extensions;
    extended_master_secret = has_key 23 extensions;
    resumption_selected = has_key 41 extensions;
    server_key_share_group = server_group (find 51 extensions);
  })

unfoldable pub optional_server : Option Bytes → Result (Option ServerParameters)
optional_server none = ok none
optional_server (some message) = do server ← server_parameters message; ok (some server)

unfoldable pub present : Option Bytes → Result Bytes
present none = err (value_error no_client_hello)
present (some message) = ok message

unfoldable pub tls_hello_parameters : List Chunk → Result HelloParameters
tls_hello_parameters chunks = do
  messages ← clear_handshake_messages chunks
  hellos ← first_hellos messages (record { client_hello = none; server_hello = none })
  refuse_if (is_retry hellos.server_hello) (value_error hello_retry_request)
  client_hello ← present hellos.client_hello
  extensions ← hello_extensions client_hello false
  server ← optional_server hellos.server_hello
  ok (record {
    client_extension_types = keys extensions;
    resumption_offered = has_key 41 extensions;
    early_data_offered = has_key 42 extensions;
    client_key_share_group = client_group (find 51 extensions);
    server = server;
  })
