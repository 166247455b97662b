-- ===== src/Policy/Wire/RoundTrip.antt =====
-- archive_policy.py: a wire archive is read back.
use hndl_dev.Prelude.{
  ℕ, suc, ◌+◌, ◌<◌, ◌≤◌, ◌^◌, ◌≡◌, refl, sym, ap, ◌∙◌, Bool, true, false, List, [], ◌∷◌, ◌++◌,
  append-nil, arith, ltb, ltb→lt, le→ltb, ◌==◌, if◌then◌else◌, length, take, drop, length-append,
  take-length-append, drop-length-append, drop-drop, bytes_eq,
}
use hndl_dev.Prelude.Endian.{
  from_bytes_big, to_bytes_big, length-to_bytes_big, from_bytes_big-to_bytes_big,
}
use mathlib.Core.Path.{subst}
use hndl_dev.Result.{ok, struct_error, require, >>=-eq-ok}
use hndl_dev.Binary.{Bytes}
use hndl_dev.Struct.{pack, require-true}
use hndl_dev.Policy.{WireEvent}
use hndl_dev.Policy.Wire.{
  archive_magic, event_fields, encode_events, encode_wire_events, event_size, first_event,
  decode_events, decode_wire_events,
}

-- What `pack` wrote for an event, and for the count.
event_header :
    (e : WireEvent) (header : Bytes)
    → pack (event_fields e) ≡ ok header
    → (header ≡ (if e.to_server then 0 else 1) ∷ to_bytes_big 4 (length e.payload))
      × (length e.payload < 256 ^ 4)
unfolding pack to_bytes_big
event_header e header h =
    let (u, side, h1) =
      >>=-eq-ok (require (ltb (if e.to_server then 0 else 1) (256 ^ 1)) struct_error) _ h in
    let (size, rest, done) = >>=-eq-ok (pack ((4, length e.payload) ∷ [])) _ h1 in
    let (v, fits, last) =
      >>=-eq-ok (require (ltb (length e.payload) (256 ^ 4)) struct_error) _ rest in
    let e1 : to_bytes_big 4 (length e.payload) ++ [] ≡ size = cc in
    let e2 : to_bytes_big 1 (if e.to_server then 0 else 1) ++ size ≡ header = cc in
    (
      sym e2
          ∙ ap (λ z. to_bytes_big 1 (if e.to_server then 0 else 1) ++ z) (sym e1 ∙ append-nil _)
          ∙ one_byte e.to_server _,
      ltb→lt (length e.payload) (256 ^ 4) (require-true _ _ fits),
    )
  where
    one_byte :
        (b : Bool) (bytes : Bytes)
        → to_bytes_big 1 (if b then 0 else 1) ++ bytes ≡ (if b then 0 else 1) ∷ bytes
    one_byte true bytes = refl
    one_byte false bytes = refl

event_size_lem :
    (b n : ℕ) (rest : Bytes) → n < 256 ^ 4 → event_size (b ∷ (to_bytes_big 4 n ++ rest)) ≡ n
event_size_lem b n rest h =
    ap (λ k. from_bytes_big (take k (to_bytes_big 4 n ++ rest))) (sym (length-to_bytes_big 4 n))
    ∙ ap from_bytes_big (take-length-append (to_bytes_big 4 n) rest)
    ∙ from_bytes_big-to_bytes_big 4 n h

behind_header : (b n : ℕ) (rest : Bytes) → drop 5 (b ∷ (to_bytes_big 4 n ++ rest)) ≡ rest
behind_header b n rest =
    ap (λ k. drop k (to_bytes_big 4 n ++ rest)) (sym (length-to_bytes_big 4 n))
    ∙ drop-length-append (to_bytes_big 4 n) rest

side_test : (b : Bool) → ((if b then 0 else 1) == 0) ≡ b
side_test true = refl
side_test false = refl

side_bound : (b : Bool) → ltb 1 (if b then 0 else 1) ≡ false
side_bound true = refl
side_bound false = refl

-- An event as it was encoded, before the rest.
abbrev event_bytes : WireEvent → Bytes → Bytes
event_bytes e rest =
    (if e.to_server then 0 else 1) ∷ (to_bytes_big 4 (length e.payload) ++ (e.payload ++ rest))

first_event_lem :
    (e : WireEvent) (rest : Bytes)
    → length e.payload < 256 ^ 4
    → first_event (event_bytes e rest) ≡ e
first_event_lem e rest h =
    let side = if e.to_server then 0 else 1 in
    ap
      (λ b. record {
        to_server = b;
        payload = take (event_size (event_bytes e rest)) (drop 5 (event_bytes e rest));
      })
      (side_test e.to_server)
    ∙ ap (λ p. record { to_server = e.to_server; payload = p })
        (ap (λ n. take n (drop 5 (event_bytes e rest)))
            (event_size_lem side (length e.payload) (e.payload ++ rest) h)
          ∙ ap (take (length e.payload)) (behind_header side (length e.payload) (e.payload ++ rest))
          ∙ take-length-append e.payload rest)

decode_one :
    (count : ℕ) (e : WireEvent) (rest : Bytes) (events : List WireEvent) (left : Bytes)
    → length e.payload < 256 ^ 4
    → decode_events count rest ≡ ok (events, left)
    → decode_events (suc count) (event_bytes e rest) ≡ ok (e ∷ events, left)
unfolding decode_events
decode_one count e rest events left h ih =
    let side : ℕ = if e.to_server then 0 else 1 in
    let bytes = event_bytes e rest in
    let size = event_size_lem side (length e.payload) (e.payload ++ rest) h in
    let long : 5 + length e.payload ≤ length bytes = omega (
      arith,
      length-append (to_bytes_big 4 (length e.payload)) (e.payload ++ rest),
      length-append e.payload rest,
      length-to_bytes_big 4 (length e.payload),
    ) in
    let behind : drop (5 + event_size bytes) bytes ≡ rest =
      ap (λ n. drop (5 + n) bytes) size
      ∙ sym (drop-drop (length e.payload) 5 bytes)
      ∙ ap (drop (length e.payload)) (behind_header side (length e.payload) (e.payload ++ rest))
      ∙ drop-length-append e.payload rest in
    let whole : 5 + event_size bytes ≤ length bytes = omega (arith, size, long) in
    rw (le→ltb (length bytes) 5 (omega (arith, long))) (
      rw (side_bound e.to_server) (
        rw (le→ltb (length bytes) (5 + event_size bytes) whole)
          (rw behind (rw ih (ap (λ x. ok (x ∷ events, left)) (first_event_lem e rest h))))))

decode_events-encode_events :
    (events : List WireEvent) (encoded : Bytes)
    → encode_events events ≡ ok encoded
    → decode_events (length events) encoded ≡ ok (events, [])
unfolding encode_events decode_events
decode_events-encode_events [] encoded h = let e : [] ≡ encoded = cc in ap (λ z. ok ([], z)) (sym e)
decode_events-encode_events (e ∷ events) encoded h =
    let (header, packed, h1) = >>=-eq-ok (pack (event_fields e)) _ h in
    let (rest, more, done) = >>=-eq-ok (encode_events events) _ h1 in
    let (form, small) = event_header e header packed in
    let same : header ++ (e.payload ++ rest) ≡ encoded = cc in
    subst (λ z. decode_events (suc (length events)) z ≡ ok (e ∷ events, []))
      (sym (ap (λ z. z ++ (e.payload ++ rest)) form) ∙ same)
      (decode_one (length events) e rest events [] small
        (decode_events-encode_events events rest more))

count_form :
    (n : ℕ) (count : Bytes)
    → pack ((4, n) ∷ []) ≡ ok count
    → (count ≡ to_bytes_big 4 n) × (n < 256 ^ 4)
unfolding pack
count_form n count h =
    let (u, fits, done) = >>=-eq-ok (require (ltb n (256 ^ 4)) struct_error) _ h in
    let same : to_bytes_big 4 n ++ [] ≡ count = cc in
    (sym same ∙ append-nil (to_bytes_big 4 n), ltb→lt n (256 ^ 4) (require-true _ _ fits))

-- Every list of events that can be encoded is decoded to the same events: their order, directions
-- and payloads, with nothing left over.
pub decode_wire_events-encode_wire_events :
    (events : List WireEvent) (bytes : Bytes)
    → encode_wire_events events ≡ ok bytes
    → decode_wire_events bytes ≡ ok events
unfolding encode_wire_events decode_wire_events bytes_eq
decode_wire_events-encode_wire_events events bytes h =
    let (count, packed, h1) = >>=-eq-ok (pack ((4, length events) ∷ [])) _ h in
    let (encoded, each, done) = >>=-eq-ok (encode_events events) _ h1 in
    let (form, small) = count_form (length events) count packed in
    let same : archive_magic ++ (to_bytes_big 4 (length events) ++ encoded) ≡ bytes =
      ap (λ c. archive_magic ++ (c ++ encoded)) (sym form) ∙ (cc) in
    let size =
      ap (λ k. from_bytes_big (take k (to_bytes_big 4 (length events) ++ encoded)))
        (sym (length-to_bytes_big 4 (length events)))
      ∙ ap from_bytes_big (take-length-append (to_bytes_big 4 (length events)) encoded)
      ∙ from_bytes_big-to_bytes_big 4 (length events) small in
    let behind =
      ap (λ k. drop k (to_bytes_big 4 (length events) ++ encoded))
        (sym (length-to_bytes_big 4 (length events)))
      ∙ drop-length-append (to_bytes_big 4 (length events)) encoded in
    subst (λ b. decode_wire_events b ≡ ok events) same
      (rw
        (le→ltb (length (archive_magic ++ (to_bytes_big 4 (length events) ++ encoded))) 12 (
          omega (
            arith,
            length-append (to_bytes_big 4 (length events)) encoded,
            length-to_bytes_big 4 (length events),
          )))
        (rw size (rw behind (rw (decode_events-encode_events events encoded each) refl))))
