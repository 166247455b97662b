-- ===== src/Quic/Search/Hellos.antt =====
-- decryptor/quic/derive_quic.py: what `_extract_quic_crypto_data` returns.
use hndl_dev.Prelude.{
  ℕ, ◌+◌, ◌≤◌, ◌≡◌, refl, ◌∙◌, Bool, true, false, not, Option, none, some, List, [], ◌∷◌, arith,
  ◌==◌, if◌then◌else◌, Bool-cases, inl, inr, length, length-take, get_or, bytes_eq,
}
use mathlib.Core.Path.{subst}
use hndl_dev.Result.{Error, Result, ok, err, >>=-eq-ok, ◌>>=◌}
use hndl_dev.Binary.{Bytes}
use hndl_dev.Pcap.Fields.{Text, without_colons, unhexlify}
use hndl_dev.Hello.Cursor.{byte_at, slice_at}
use hndl_dev.Quic.Packets.{iter_coalesced_packets}
use hndl_dev.Quic.Frames.{
  Segment, handshake_length, parse_handshake_from_crypto, reassemble_crypto_prefix,
}
use hndl_dev.Quic.Keys.{Crypto}
use hndl_dev.Quic.Protection.{decrypt_quic_initial}
use hndl_dev.Quic.Search.{
  QuicRow, Search, nothing_found, of_type, front_message, or_found, note_messages, with_frames,
  with_payload, keys_dcid, take_initial, take_retry, take_packet, take_packets, take_row, take_rows,
  both_found, extract_quic_crypto_data,
}

-- A complete message of the type.
abbrev IsHello : ℕ → Option Bytes → Type 0
IsHello kind none = Unit {0}
IsHello kind (some m) = (get_or m 0 0 ≡ kind) × (4 ≤ length m)

parse_handshake-size : (bytes m : Bytes) → parse_handshake_from_crypto bytes ≡ some m → 4 ≤ length m
unfolding parse_handshake_from_crypto
parse_handshake-size bytes m h = ground (arith, length-take (4 + handshake_length bytes) bytes)

of_type-IsHello :
    (kind : ℕ) (o : Option Bytes)
    → ((m : Bytes) → o ≡ some m → 4 ≤ length m)
    → IsHello kind (of_type kind o)
of_type-IsHello kind none h = tt
of_type-IsHello kind (some m) h = elim (Bool-cases (get_or m 0 0 == kind)) [
  | inl same ↦ rw same (ground (arith, same), h m refl)
  | inr other ↦ rw other tt
]

front_message-IsHello :
    (kind : ℕ) (segments : List Segment) → IsHello kind (front_message kind segments)
unfolding front_message
front_message-IsHello kind segments =
    of_type-IsHello kind (parse_handshake_from_crypto (reassemble_crypto_prefix segments))
      (parse_handshake-size (reassemble_crypto_prefix segments))

or_found-IsHello :
    (kind : ℕ) (o found : Option Bytes)
    → IsHello kind o
    → IsHello kind found
    → IsHello kind (or_found o found)
or_found-IsHello kind none found h k = k
or_found-IsHello kind (some m) found h k = h

record Sound (s : Search) : Type 0 where
  client : IsHello 1 s.client_hello
  server : IsHello 2 s.server_hello

note_messages-Sound : (s : Search) → Sound s → Sound (note_messages s)
note_messages-Sound s i = record {
  client = or_found-IsHello 1 s.client_hello _ i.client (front_message-IsHello 1 s.client_crypto);
  server = or_found-IsHello 2 s.server_hello _ i.server (front_message-IsHello 2 s.server_crypto);
}

with_frames-Sound :
    (to_server : Bool) (s : Search) (r : Result (List Segment))
    → Sound s
    → Sound (with_frames to_server s r)
with_frames-Sound to_server s (err e) i = i
with_frames-Sound true s (ok frames) i =
    note_messages-Sound _ (record { client = i.client; server = i.server })
with_frames-Sound false s (ok frames) i =
    note_messages-Sound _ (record { client = i.client; server = i.server })

with_payload-Sound :
    (to_server : Bool) (s : Search) (o : Option Bytes)
    → Sound s
    → Sound (with_payload to_server s o)
with_payload-Sound to_server s none i = i
with_payload-Sound to_server s (some plaintext) i = with_frames-Sound to_server s _ i

-- Every state that a result holds is sound.
data Keeps : Result Search → Type 0 where
  returned : {s : Search} → Sound s → Keeps (ok s)
  raised : (e : Error) → Keeps (err e)

Keeps-bind :
    {A : Type 0} (r : Result A) (next : A → Result Search)
    → ((a : A) → Keeps (next a))
    → Keeps (r >>= next)
Keeps-bind (ok a) next h = h a
Keeps-bind (err e) next h = raised e

Keeps-then :
    (r : Result Search) (next : Search → Result Search)
    → Keeps r
    → ((s : Search) → Sound s → Keeps (next s))
    → Keeps (r >>= next)
Keeps-then _ next (returned {s} i) h = h s i
Keeps-then _ next (raised e) h = raised e

Keeps-if : (b : Bool) (x y : Result Search) → Keeps x → Keeps y → Keeps (if b then x else y)
Keeps-if true x y hx hy = hx
Keeps-if false x y hx hy = hy

noted_Sound :
    (to_server : Bool) (s : Search) (dcid : Bytes)
    → Sound s
    → Sound (if to_server then record s { initial_dcid = some dcid } else s)
noted_Sound true s dcid i = record { client = i.client; server = i.server }
noted_Sound false s dcid i = i

take_initial-Keeps :
    (c : Crypto) (to_server : Bool) (packet : Bytes) (s : Search)
    → Sound s
    → Keeps (take_initial c to_server packet s)
unfolding take_initial
take_initial-Keeps c to_server packet s i = Keeps-bind (byte_at packet 5) _ (λ size.
    let noted : Search =
      if to_server then record s { initial_dcid = some (slice_at packet 6 size) } else s in
    Keeps-bind
      (decrypt_quic_initial c packet (keys_dcid noted.initial_dcid (slice_at packet 6 size))
        (not to_server))
      _
      (λ plaintext. returned (
        with_payload-Sound to_server noted plaintext
          (noted_Sound to_server s (slice_at packet 6 size) i))))

take_retry-Keeps : (packet : Bytes) (s : Search) → Sound s → Keeps (take_retry packet s)
unfolding take_retry
take_retry-Keeps packet s i = Keeps-bind (byte_at packet 5) _ (λ dcid_len.
    Keeps-bind (byte_at packet (6 + dcid_len)) _ (λ scid_len.
      returned {s = record s { retry_scid = some (slice_at packet (6 + dcid_len + 1) scid_len) }}
        (record { client = i.client; server = i.server })))

take_packet-Keeps :
    (c : Crypto) (to_server : Bool) (packet : Bytes) (s : Search)
    → Sound s
    → Keeps (take_packet c to_server packet s)
unfolding take_packet
take_packet-Keeps c to_server packet s i =
    search
      (
        Keeps-if,
        take_retry-Keeps packet s i,
        take_initial-Keeps c to_server packet s i,
        returned {s = s} i,
      )
      depth 9

take_packets-Keeps :
    (c : Crypto) (to_server : Bool) (packets : List Bytes) (s : Search)
    → Sound s
    → Keeps (take_packets c to_server packets s)
unfolding take_packets
take_packets-Keeps c to_server [] s i = returned i
take_packets-Keeps c to_server (packet ∷ packets) s i =
    Keeps-then _ _ (take_packet-Keeps c to_server packet s i) (λ s' i'.
      Keeps-if (both_found s') (ok s') (take_packets c to_server packets s') (returned i')
        (take_packets-Keeps c to_server packets s' i'))

take_row-Keeps :
    (c : Crypto) (port : Text) (row : QuicRow) (s : Search)
    → Sound s
    → Keeps (take_row c port row s)
unfolding take_row
take_row-Keeps c port row s i =
    elim (unhexlify (without_colons row.payload))
      as (λ o. Keeps (elim o [
        | none ↦ ok s
        | some datagram ↦
            take_packets c (bytes_eq row.destination port) (iter_coalesced_packets datagram) s
      ])) [
        | none ↦ returned i
        | some datagram ↦ take_packets-Keeps c _ (iter_coalesced_packets datagram) s i
      ]

take_rows-Keeps :
    (c : Crypto) (port : Text) (rows : List QuicRow) (s : Search)
    → Sound s
    → Keeps (take_rows c port rows s)
unfolding take_rows
take_rows-Keeps c port [] s i = returned i
take_rows-Keeps c port (row ∷ rows) s i = Keeps-then _ _ (take_row-Keeps c port row s i) (λ s' i'.
    Keeps-if (both_found s') (ok s') (take_rows c port rows s') (returned i')
      (take_rows-Keeps c port rows s' i'))

kept : (r : Result Search) (s : Search) → Keeps r → r ≡ ok s → Sound s
kept _ s (returned {s = t} i) h = let e : t ≡ s = cc in subst Sound e i
kept _ s (raised e) h = cc

-- What the search returns as the ClientHello is of type 1 and what it returns as the ServerHello of
-- type 2, and each has a complete header, on any rows and whatever the cryptography computes.
pub extract_quic_crypto_data_types :
    (c : Crypto) (port : Text) (rows : List QuicRow) (ch sh : Option Bytes)
    → extract_quic_crypto_data c port rows ≡ ok (ch, sh)
    → ((m : Bytes) → ch ≡ some m → (get_or m 0 0 ≡ 1) × (4 ≤ length m))
      × ((m : Bytes) → sh ≡ some m → (get_or m 0 0 ≡ 2) × (4 ≤ length m))
unfolding extract_quic_crypto_data
extract_quic_crypto_data_types c port rows ch sh h =
    let (s, run, done) = >>=-eq-ok (take_rows c port rows nothing_found) _ h in
    let i =
      kept (take_rows c port rows nothing_found) s
        (take_rows-Keeps c port rows nothing_found (record { client = tt; server = tt })) run in
    let e1 : s.client_hello ≡ ch = cc in
    let e2 : s.server_hello ≡ sh = cc in
    ((λ m e. subst (IsHello 1) (e1 ∙ e) i.client), (λ m e. subst (IsHello 2) (e2 ∙ e) i.server))
