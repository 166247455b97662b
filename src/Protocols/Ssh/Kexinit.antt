-- ===== src/Protocols/Ssh/Kexinit.antt =====
-- minarx/protocols/ssh.py: `_name_list` and `_first_kexinit`. A name is the list of its bytes.
use hndl_dev.Prelude.{
  ℕ, zero, suc, ◌-◌, Bool, true, false, ◌&&◌, Option, none, some, List, [], ◌∷◌, ◌++◌, ltb, leb,
  ◌==◌, if◌then◌else◌, length, take, drop, bytes_eq,
}
use hndl_dev.Prelude.Endian.{from_bytes_big}
use hndl_dev.Result.{
  Result, ok, err, decode_error, format_error, pcap_error, value_error, manifest_error,
  runtime_error, archive_fault, archive_error, struct_error, index_error, key_error,
  no_identification, invalid_ssh_length, invalid_ssh_padding, non_ascii_names, truncated_kexinit,
  no_kexinit,
}
use hndl_dev.Exec.{Exec, pure, raise, guard, ◌>>=◌, ◌>>◌}
use hndl_dev.Binary.{Bytes, Reader, open_reader, byte, take_bytes, finish}

-- `value.split(",")`, where the name so far stands in front.
unfoldable pub split_names : Bytes → Bytes → List Bytes
split_names name [] = name ∷ []
split_names name (b ∷ bs) =
    if b == 44 then name ∷ split_names [] bs else split_names (name ++ (b ∷ [])) bs

abbrev pub names_of : Bytes → List Bytes
names_of [] = []
names_of (b ∷ bs) = split_names [] (b ∷ bs)

-- `decode("ascii")` accepts these bytes.
unfoldable pub is_ascii : Bytes → Bool
is_ascii [] = true
is_ascii (b ∷ bs) = ltb b 128 && is_ascii bs

-- `int.from_bytes(reader.take(4), "big")`
unfoldable pub read_word : Exec Reader ℕ
read_word = do word ← take_bytes 4; pure (from_bytes_big word)

unfoldable pub name_list : Exec Reader (List Bytes)
name_list = do
  size ← read_word
  value ← take_bytes size
  if is_ascii value then pure (names_of value) else raise (value_error non_ascii_names)

unfoldable pub name_lists : ℕ → Exec Reader (List (List Bytes))
name_lists zero = pure []
name_lists (suc count) = do names ← name_list; rest ← name_lists count; pure (names ∷ rest)

-- The fields of a KEXINIT behind its number: the cookie, ten lists, a flag and four reserved bytes.
unfoldable pub kexinit_fields : Exec Reader (List (List Bytes))
kexinit_fields = do
  cookie ← take_bytes 16
  lists ← name_lists 10
  follows ← byte
  reserved ← take_bytes 4
  finish
  pure lists

-- The payload of a packet with the given size.
unfoldable pub packet_payload : ℕ → Exec Reader Bytes
packet_payload packet_length = do
  padding_length ← byte
  guard (leb 4 padding_length && ltb padding_length packet_length) (value_error invalid_ssh_padding)
  payload ← take_bytes (packet_length - padding_length - 1)
  padding ← take_bytes padding_length
  finish
  pure payload

-- Another reader, opened on the bytes, inside the loop over this one.
abbrev pub on_bytes : {A : Type 0} → Exec Reader A → Bytes → Exec Reader A
on_bytes m bytes r = elim (m (open_reader bytes)) [ err e ↦ err e | ok (a, t) ↦ ok (a, r) ]

abbrev pub is_kexinit : Bytes → Bool
is_kexinit [] = false
is_kexinit (kind ∷ fields) = kind == 20

-- `while reader.offset < len(reader.data)`. A round takes ten bytes at least, so as many rounds as
-- there are bytes are enough.
unfoldable pub kexinit_loop : ℕ → Exec Reader (List (List Bytes))
kexinit_loop zero r = err (value_error no_kexinit)
kexinit_loop (suc fuel) r =
    let next = kexinit_loop fuel in
    let round = (do
      packet_length ← read_word
      guard (leb 6 packet_length && leb packet_length 35000) (value_error invalid_ssh_length)
      packet ← take_bytes packet_length
      payload ← on_bytes (packet_payload packet_length) packet
      if is_kexinit payload then on_bytes kexinit_fields (drop 1 payload) else next) in
    if leb (length r.contents) r.offset then err (value_error no_kexinit) else round r

-- `except DecodeError`
abbrev pub as_value_error : {A : Type 0} → Result (A × Reader) → Result A
as_value_error (ok (a, r)) = ok a
as_value_error (err (decode_error f)) = err (value_error truncated_kexinit)
as_value_error (err (format_error f)) = err (format_error f)
as_value_error (err (pcap_error f)) = err (pcap_error f)
as_value_error (err (value_error f)) = err (value_error f)
as_value_error (err (manifest_error f)) = err (manifest_error f)
as_value_error (err (runtime_error f)) = err (runtime_error f)
as_value_error (err struct_error) = err struct_error
as_value_error (err index_error) = err index_error
as_value_error (err (archive_fault f)) = err (archive_fault f)
as_value_error (err (archive_error e)) = err (archive_error e)
as_value_error (err key_error) = err key_error

-- What follows the first b"SSH-", from its start on, and what follows the first line end.
unfoldable pub from_banner : Bytes → Option Bytes
from_banner [] = none
from_banner (b ∷ bs) =
    if bytes_eq (take 4 (b ∷ bs)) (83 ∷ 83 ∷ 72 ∷ 45 ∷ []) then some (b ∷ bs) else from_banner bs

unfoldable pub behind_line : Bytes → Option Bytes
behind_line [] = none
behind_line (b ∷ bs) = if b == 10 then some bs else behind_line bs

abbrev pub behind_banner : Option Bytes → Option Bytes
behind_banner none = none
behind_banner (some bytes) = behind_line bytes

unfoldable pub first_kexinit : Bytes → Result (List (List Bytes))
first_kexinit stream = elim (behind_banner (from_banner stream)) [
  | none ↦ err (value_error no_identification)
  | some packets ↦ as_value_error (kexinit_loop (length packets) (open_reader packets))
]
