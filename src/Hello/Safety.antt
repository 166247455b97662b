-- ===== src/Hello/Safety.antt =====
-- minarx/protocols/common.py: which exceptions `tls_hello_parameters` raises.
use hndl_dev.Prelude.{
  ℕ, zero, suc, ◌≡◌, refl, Bool, true, false, Option, none, some, List, [], ◌∷◌, arith, leb, lt→leb,
  if◌then◌else◌, length, All,
}
use hndl_dev.Result.{Result, ok, err, Error, ValueFault, value_error, refuse_if, ◌>>=◌, ◌>>◌}
use hndl_dev.Binary.{Bytes}
use hndl_dev.Pcap.{Chunk, IsChunk}
use hndl_dev.Records.{
  TlsRecord, Pending, with_buffer, no_pending, drain, split_chunks, split_tls_records,
}
use hndl_dev.Hello.{Message, drain_messages, handshake_records, clear_handshake_messages}
use hndl_dev.Hello.Drained.{IsFramed}
use hndl_dev.Hello.Framing.{clear_handshake_messages_framing}
use hndl_dev.Hello.Cursor.{byte_at, byte_at-in_range}
use hndl_dev.Hello.Extensions.{
  after_session_id, after_compression, extension_loop, extension_block, extensions_from,
  hello_extensions,
}
use hndl_dev.Hello.Parameters.{
  Hellos, note_hello, first_hellos, server_parameters, optional_server, present,
  tls_hello_parameters,
}

-- A result, or a `ValueError`.
pub data RaisesValue {ℓ} {A : Type ℓ} : Result A → Type ℓ where
  returned : (a : A) → RaisesValue (ok a)
  raised : (f : ValueFault) → RaisesValue (err (value_error f))

module _ {ℓ κ} {A : Type ℓ} {B : Type κ} where
  pub RaisesValue->>= :
      (r : Result A) (next : A → Result B)
      → RaisesValue r
      → ((a : A) → r ≡ ok a → RaisesValue (next a))
      → RaisesValue (r >>= next)
  RaisesValue->>= _ next (returned a) h = h a refl
  RaisesValue->>= _ next (raised f) h = raised f

pub RaisesValue-refuse {ℓ} :
    {B : Type ℓ} (b : Bool) (f : ValueFault) (rest : Result B)
    → (b ≡ false → RaisesValue rest)
    → RaisesValue (refuse_if b (value_error f) >> rest)
RaisesValue-refuse true f rest h = raised f
RaisesValue-refuse false f rest h = h refl

pub RaisesValue-if {ℓ} :
    {A : Type ℓ} (b : Bool) (x y : Result A)
    → RaisesValue x
    → RaisesValue y
    → RaisesValue (if b then x else y)
RaisesValue-if true x y hx hy = hx
RaisesValue-if false x y hx hy = hy

ruleset raises =
    (RaisesValue-if, RaisesValue->>=, RaisesValue-refuse, RaisesValue.returned, RaisesValue.raised)

drain-RaisesValue :
    (fuel d : ℕ) (buf : Bytes) (rs : List TlsRecord) → RaisesValue (drain fuel d buf rs)
unfolding drain
drain-RaisesValue zero d buf rs = returned _
drain-RaisesValue (suc fuel) d buf rs = search (raises, drain-RaisesValue fuel)

split_chunks-RaisesValue :
    (chunks : List Chunk) (p : Pending) (rs : List TlsRecord)
    → RaisesValue (split_chunks chunks p rs)
unfolding split_chunks
split_chunks-RaisesValue [] p rs = returned _
split_chunks-RaisesValue (c ∷ chunks) p rs =
    RaisesValue->>= _ _ (drain-RaisesValue _ c.direction _ rs)
      (λ s h. split_chunks-RaisesValue chunks (with_buffer p c.direction s.0) s.1)

split_tls_records-RaisesValue : (chunks : List Chunk) → RaisesValue (split_tls_records chunks)
unfolding split_tls_records
split_tls_records-RaisesValue chunks = search (raises, split_chunks-RaisesValue)

drain_messages-RaisesValue :
    (fuel d : ℕ) (buf : Bytes) (ms : List Message) → RaisesValue (drain_messages fuel d buf ms)
unfolding drain_messages
drain_messages-RaisesValue zero d buf ms = returned _
drain_messages-RaisesValue (suc fuel) d buf ms = search (raises, drain_messages-RaisesValue fuel)

handshake_records-RaisesValue :
    (rs : List TlsRecord) (p : Pending) (ms : List Message)
    → RaisesValue (handshake_records rs p ms)
unfolding handshake_records
handshake_records-RaisesValue [] p ms = returned _
handshake_records-RaisesValue (r ∷ rs) p ms =
    search (raises, drain_messages-RaisesValue, handshake_records-RaisesValue rs)

clear_handshake_messages-RaisesValue :
    (chunks : List Chunk) → RaisesValue (clear_handshake_messages chunks)
unfolding clear_handshake_messages
clear_handshake_messages-RaisesValue chunks =
    RaisesValue->>= _ _ (split_tls_records-RaisesValue chunks) (λ rs h.
      RaisesValue->>= _ _ (handshake_records-RaisesValue rs no_pending []) (λ s k. returned _))

-- A guarded index.
byte_at-RaisesValue :
    (message : Bytes) (position : ℕ)
    → leb (length message) position ≡ false
    → RaisesValue (byte_at message position)
byte_at-RaisesValue message position h =
    let (b, e) = byte_at-in_range message position (ground (arith, h)) in rw e (returned b)

after_session_id-RaisesValue : (message : Bytes) → RaisesValue (after_session_id message)
unfolding after_session_id
after_session_id-RaisesValue message = search (raises, byte_at-RaisesValue message)

after_compression-RaisesValue :
    (message : Bytes) (position : ℕ) → RaisesValue (after_compression message position)
unfolding after_compression
after_compression-RaisesValue message position = search (raises, byte_at-RaisesValue message)

extension_loop-RaisesValue :
    (fuel : ℕ) (message : Bytes) (end position : ℕ) (acc : List (ℕ × Bytes))
    → RaisesValue (extension_loop fuel message end position acc)
unfolding extension_loop
extension_loop-RaisesValue zero message end position acc = returned _
extension_loop-RaisesValue (suc fuel) message end position acc =
    search (raises, extension_loop-RaisesValue fuel)

extensions_from-RaisesValue :
    (message : Bytes) (position : ℕ) → RaisesValue (extensions_from message position)
unfolding extensions_from extension_block
extensions_from-RaisesValue message position = search (raises, extension_loop-RaisesValue) depth 9

pub hello_extensions-RaisesValue :
    (message : Bytes) (server : Bool) → RaisesValue (hello_extensions message server)
unfolding hello_extensions
hello_extensions-RaisesValue message server = search (
  raises, after_session_id-RaisesValue, after_compression-RaisesValue, extensions_from-RaisesValue,
)

-- A complete message has a first byte.
first_hellos-RaisesValue :
    (ms : List Message) (h : Hellos) → All IsFramed ms → RaisesValue (first_hellos ms h)
unfolding first_hellos
first_hellos-RaisesValue [] h f = returned _
first_hellos-RaisesValue (m ∷ ms) h (fm, fs) =
    RaisesValue->>= _ _
      (byte_at-RaisesValue m.contents 0 (lt→leb (length m.contents) 0 (omega (arith, fm.framed))))
      (λ kind e. first_hellos-RaisesValue ms (note_hello m.contents kind h) fs)

optional_server-RaisesValue : (o : Option Bytes) → RaisesValue (optional_server o)
unfolding optional_server server_parameters
optional_server-RaisesValue none = returned _
optional_server-RaisesValue (some message) =
    search (raises, byte_at-RaisesValue message, hello_extensions-RaisesValue) depth 9

present-RaisesValue : (o : Option Bytes) → RaisesValue (present o)
unfolding present
present-RaisesValue none = raised _
present-RaisesValue (some message) = returned message

parameters_raise :
    (chunks : List Chunk) → All IsChunk chunks → RaisesValue (tls_hello_parameters chunks)
unfolding tls_hello_parameters
parameters_raise chunks hc =
    RaisesValue->>= _ _ (clear_handshake_messages-RaisesValue chunks) (λ ms h.
      let (records, rest, cut, streams, left, framed) =
        clear_handshake_messages_framing chunks ms 0 (omega arith) hc h in
      RaisesValue->>= _ _ (first_hellos-RaisesValue ms _ framed) (λ hellos e.
        search
          (raises, present-RaisesValue, hello_extensions-RaisesValue, optional_server-RaisesValue)
          depth 9))

raised_value {ℓ} :
    {A : Type ℓ} (r : Result A) (e : Error)
    → RaisesValue r
    → r ≡ err e
    → (f : ValueFault) × (e ≡ value_error f)
raised_value _ e (returned a) h = cc
raised_value _ e (raised f) h = (f, cc)

-- On chunks that have a direction and consist of bytes, whatever else they hold, the reader of the
-- Hellos raises nothing but a `ValueError`: no index runs behind the end of a message.
pub tls_hello_parameters_raises :
    (chunks : List Chunk) (e : Error)
    → All IsChunk chunks
    → tls_hello_parameters chunks ≡ err e
    → (f : ValueFault) × (e ≡ value_error f)
tls_hello_parameters_raises chunks e hc = raised_value _ e (parameters_raise chunks hc)
