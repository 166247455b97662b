-- ===== src/Pcap/Extract/Segments.antt =====
-- minarx/pcap.py: the segments that `extract_tcp_chunks` reads from a row.
use hndl_dev.Prelude.{
  ℕ, ◌+◌, ◌*◌, ◌<◌, ◌≡◌, refl, Bool, true, false, ◌||◌, Option, none, some, [], ◌∷◌, arith,
  if◌then◌else◌, All,
}
use hndl_dev.Prelude.Endian.{IsByte}
use mathlib.Core.Path.{subst}
use hndl_dev.Result.{Result, ok, err, pcap_error, invalid_fields, >>=-eq-ok}
use hndl_dev.Binary.{Bytes}
use hndl_dev.Pcap.Fields.{
  Text, first_part, without_colons, hex_digit, hex_pair, unhexlify, direction_of,
}
use hndl_dev.Pcap.Extract.{
  Segment, TcpRow, blank, segment, number, read_fields, payload_bytes, tcp_fields,
}

hex_digit_bound : (c h : ℕ) → hex_digit c ≡ some h → h < 16
unfolding hex_digit
hex_digit_bound c h e = ground arith

hex_pair-IsByte :
    (x y : Option ℕ) (rest : Option Bytes) (bytes : Bytes)
    → ((h : ℕ) → x ≡ some h → h < 16)
    → ((h : ℕ) → y ≡ some h → h < 16)
    → ((r : Bytes) → rest ≡ some r → All IsByte r)
    → hex_pair x y rest ≡ some bytes
    → All IsByte bytes
hex_pair-IsByte (some h) (some l) (some r) bytes hx hy hr e =
    let same : (h * 16 + l) ∷ r ≡ bytes = cc in
    subst (All IsByte) same (omega (arith, hx h refl, hy l refl), hr r refl)
hex_pair-IsByte (some h) (some l) none bytes hx hy hr e = cc
hex_pair-IsByte (some h) none rest bytes hx hy hr e = cc
hex_pair-IsByte none y rest bytes hx hy hr e = cc

unhexlify-IsByte : (text : Text) (bytes : Bytes) → unhexlify text ≡ some bytes → All IsByte bytes
unfolding unhexlify
unhexlify-IsByte [] bytes e = let same : [] ≡ bytes = cc in subst (All IsByte) same tt
unhexlify-IsByte (c ∷ []) bytes e = cc
unhexlify-IsByte (c ∷ d ∷ cs) bytes e =
    hex_pair-IsByte (hex_digit c) (hex_digit d) (unhexlify cs) bytes (hex_digit_bound c)
      (hex_digit_bound d) (unhexlify-IsByte cs) e

payload_bytes-IsByte :
    (text : Text) (bytes : Bytes) → payload_bytes text ≡ ok bytes → All IsByte bytes
payload_bytes-IsByte text bytes h = go (unhexlify (first_part (without_colons text))) refl h
  where
    go :
        (o : Option Bytes)
        → unhexlify (first_part (without_colons text)) ≡ o
        → elim o as (λ _. Result Bytes) [ none ↦ err (pcap_error invalid_fields) | some b ↦ ok b ]
          ≡ ok bytes
        → All IsByte bytes
    go none at e = cc
    go (some b) at e =
        let same : b ≡ bytes = cc in
        subst (All IsByte) same (unhexlify-IsByte (first_part (without_colons text)) b at)

-- A direction is 0 or 1 and a payload consists of bytes.
pub record IsSegment (s : Segment) : Type 0 where
  pub direction_bound : s.direction < 2
  pub bytes : All IsByte s.contents

direction_of_bound : (port src dst d : ℕ) → direction_of port src dst ≡ some d → d < 2
unfolding direction_of
direction_of_bound port src dst d h = ground arith

segment-IsSegment :
    (o : Option ℕ) (flow sequence : ℕ) (contents : Bytes) (s : Segment)
    → ((d : ℕ) → o ≡ some d → d < 2)
    → All IsByte contents
    → segment o flow sequence contents ≡ some s
    → IsSegment s
segment-IsSegment none flow sequence contents s hd hc e = cc
segment-IsSegment (some d) flow sequence contents s hd hc e =
    let same : ◌≡◌ {A = Segment}
        (record { flow = flow; direction = d; sequence = sequence; contents = contents }) s =
      cc in
    subst IsSegment same (record { direction_bound = hd d refl; bytes = hc })

read_fields-IsSegment :
    (port : ℕ) (row : TcpRow) (s : Segment) → read_fields port row ≡ ok (some s) → IsSegment s
unfolding read_fields
read_fields-IsSegment port row s h =
    let (flow, at1, h1) = >>=-eq-ok (number row.stream) _ h in
    let (src, at2, h2) = >>=-eq-ok (number row.source) _ h1 in
    let (dst, at3, h3) = >>=-eq-ok (number row.destination) _ h2 in
    let (seq, at4, h4) = >>=-eq-ok (number row.sequence) _ h3 in
    let (contents, at5, h5) = >>=-eq-ok (payload_bytes row.payload) _ h4 in
    let same : segment (direction_of port src dst) flow seq contents ≡ some s = cc in
    segment-IsSegment (direction_of port src dst) flow seq contents s
      (direction_of_bound port src dst) (payload_bytes-IsByte row.payload contents at5) same

not_skipped :
    (b : Bool) (r : Result (Option Segment)) (s : Segment)
    → (if b then ok none else r) ≡ ok (some s)
    → r ≡ ok (some s)
not_skipped true r s h = cc
not_skipped false r s h = h

pub tcp_fields-IsSegment :
    (port : ℕ) (row : TcpRow) (s : Segment) → tcp_fields port row ≡ ok (some s) → IsSegment s
unfolding tcp_fields
tcp_fields-IsSegment port row s h = read_fields-IsSegment port row s (
    not_skipped (blank row.payload || blank row.stream || blank row.sequence) (read_fields port row)
      s h)
