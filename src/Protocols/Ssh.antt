-- ===== src/Protocols/Ssh.antt =====
-- minarx/protocols/ssh.py. The names of a profile are given as their bytes.
pub mod Kexinit
pub mod Negotiated
use text.Mathlib.Text.{◌==◌ as str_eq}
use hndl_dev.Prelude.{
  ℕ, Bool, true, false, not, ◌&&◌, ◌||◌, List, [], ◌∷◌, if◌then◌else◌, get_or, bytes_eq, String,
}
use hndl_dev.Result.{
  Result, ok, err, value_error, unsupported_mode, no_common_name, key_exchange_mismatch,
  ssh_cipher_mismatch, refuse_if, ◌>>=◌, ◌>>◌,
}
use hndl_dev.Binary.{Bytes}
use hndl_dev.Pcap.{Chunk, stream}
use hndl_dev.Chunks.{CaptureFile, Compacted, keep_all, compact_chunk_pcaps}
use Kexinit.{first_kexinit}

-- `name in names`
unfoldable pub is_name_in : Bytes → List Bytes → Bool
is_name_in name [] = false
is_name_in name (n ∷ names) = bytes_eq n name || is_name_in name names

-- `next(name for name in client if name in server)`
unfoldable pub negotiate : List Bytes → List Bytes → Result Bytes
negotiate [] server = err (value_error no_common_name)
negotiate (name ∷ client) server =
    if is_name_in name server then ok name else negotiate client server

-- The names of the profile that the checks compare with.
pub record SshNames : Type 0 where
  pub key_exchange : Bytes
  pub cipher_suite : Bytes

unfoldable pub check_ssh : SshNames → List (List Bytes) → List (List Bytes) → Result (Unit {0})
check_ssh profile client server = do
  kex ← negotiate (get_or client 0 []) (get_or server 0 [])
  client_to_server ← negotiate (get_or client 2 []) (get_or server 2 [])
  server_to_client ← negotiate (get_or client 3 []) (get_or server 3 [])
  refuse_if (not (bytes_eq kex profile.key_exchange)) (value_error key_exchange_mismatch)
  refuse_if
      (not (
        bytes_eq client_to_server profile.cipher_suite
        && bytes_eq server_to_client profile.cipher_suite))
      (value_error ssh_cipher_mismatch)

unfoldable pub validate_ssh : SshNames → List Chunk → Result (Unit {0})
validate_ssh profile chunks = do
  client ← first_kexinit (stream 0 chunks)
  server ← first_kexinit (stream 1 chunks)
  check_ssh profile client server

-- `file` is the one capture of the protocol.
unfoldable pub compact_ssh : String → SshNames → CaptureFile → Result Compacted
compact_ssh mode profile file = do
  refuse_if (not (str_eq mode "default")) (value_error unsupported_mode)
  validate_ssh profile file.chunks
  compact_chunk_pcaps keep_all (file ∷ [])
