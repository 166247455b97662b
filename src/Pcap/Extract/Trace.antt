-- ===== src/Pcap/Extract/Trace.antt =====
-- minarx/pcap.py: the form of the chunks that `extract_tcp_chunks` returns.
use hndl_dev.Prelude.{
  ℕ, ◌<◌, ◌≤◌, ◌-◌, ◌≡◌, false, Option, none, some, List, [], ◌∷◌, arith, leb, ltb, ◌==◌, length,
  drop, length-append, length-drop, All, All-append, All-drop, Bool-cases, inl, inr,
}
use hndl_dev.Prelude.Endian.{IsByte}
use mathlib.Core.Path.{subst}
use hndl_dev.Result.{ok, pcap_error, several_flows, tcp_gap, refuse-then, >>=-eq-ok}
use hndl_dev.Binary.{Bytes}
use hndl_dev.Pcap.{Chunk, IsChunk}
use hndl_dev.Pcap.Extract.Segments.{IsSegment, tcp_fields-IsSegment}
use hndl_dev.Pcap.Extract.{
  Segment, Extraction, TcpRow, add_chunk, deliver, accept, add_stream, lookup, or_else, take_row,
  take_rows, tcp_fields, nothing_seen, some_payload, extract_tcp_chunks,
}

-- Neighbours have different directions, and no chunk is empty.
unfoldable pub Alternating : List Chunk → Type 0
Alternating [] = Unit {0}
Alternating (c ∷ []) = 1 ≤ length c.contents
Alternating (c ∷ d ∷ cs) =
    (1 ≤ length c.contents) × ((c.direction == d.direction) ≡ false) × Alternating (d ∷ cs)

some_payload-eq : (cs ds : List Chunk) → some_payload cs ≡ ok ds → (cs ≡ ds) × (1 ≤ length ds)
some_payload-eq [] ds h = cc
some_payload-eq (c ∷ cs) ds h =
    let same : c ∷ cs ≡ ds = cc in (same, subst (λ l. 1 ≤ length l) same (omega arith))

-- A chunk that is added keeps the form, and every chunk stays one.
pub record IsTrace (cs : List Chunk) : Type 0 where
  pub chunks : All IsChunk cs
  pub alternating : Alternating cs

Alternating-add_chunk :
    (cs : List Chunk) (direction : ℕ) (novel : Bytes)
    → 1 ≤ length novel
    → Alternating cs
    → Alternating (add_chunk cs direction novel)
unfolding Alternating add_chunk
Alternating-add_chunk [] direction novel h a = h
Alternating-add_chunk (c ∷ []) direction novel h a = elim (Bool-cases (c.direction == direction)) [
  | inl same ↦ rw same (omega (arith, length-append c.contents novel, h))
  | inr other ↦ rw other (a, other, h)
]
Alternating-add_chunk (c ∷ d ∷ []) direction novel h (size, differ, more) =
    elim (Bool-cases (d.direction == direction)) [
      | inl same ↦ rw same (
        size,
        subst (λ k. (c.direction == k) ≡ false) (ground (arith, same)) differ,
        omega (arith, length-append d.contents novel, h),
      )
      | inr other ↦ rw other (size, differ, (more, other, h))
    ]
Alternating-add_chunk (c ∷ d ∷ e ∷ cs) direction novel h (size, differ, a) =
    (size, differ, Alternating-add_chunk (d ∷ e ∷ cs) direction novel h a)

All-add_chunk :
    (cs : List Chunk) (direction : ℕ) (novel : Bytes)
    → direction < 2
    → All IsByte novel
    → All IsChunk cs
    → All IsChunk (add_chunk cs direction novel)
unfolding add_chunk
All-add_chunk [] direction novel hd hn h = (record { direction_bound = hd; bytes = hn }, tt)
All-add_chunk (c ∷ []) direction novel hd hn (hc, h) =
    elim (Bool-cases (c.direction == direction)) [
      | inl same ↦ rw same (
        record { direction_bound = hd; bytes = All-append IsByte c.contents novel hc.bytes hn },
        tt,
      )
      | inr other ↦ rw other (hc, (record { direction_bound = hd; bytes = hn }, tt))
    ]
All-add_chunk (c ∷ d ∷ cs) direction novel hd hn (hc, h) =
    (hc, All-add_chunk (d ∷ cs) direction novel hd hn h)

IsTrace-deliver :
    (e : Extraction) (flows : List ℕ) (s : Segment) (expected : ℕ)
    → IsSegment s
    → IsTrace e.chunks
    → IsTrace (deliver e flows s expected).chunks
unfolding deliver
IsTrace-deliver e flows s expected hs t =
    elim (Bool-cases (leb (length s.contents) (expected - s.sequence))) [
      | inl old ↦ rw old t
      | inr new ↦ rw new (record {
        chunks =
            All-add_chunk e.chunks s.direction (drop k s.contents) hs.direction_bound
              (All-drop IsByte k s.contents hs.bytes) t.chunks;
        alternating =
            Alternating-add_chunk e.chunks s.direction (drop k s.contents)
              (ground (arith, length-drop k s.contents, new)) t.alternating;
      })
    ]
  where
    k : ℕ
    k = expected - s.sequence

IsTrace-accept :
    (e e' : Extraction) (s : Segment)
    → IsSegment s
    → IsTrace e.chunks
    → accept e s ≡ ok e'
    → IsTrace e'.chunks
unfolding accept
IsTrace-accept e e' s hs t h =
    let flows = add_stream s.flow e.payload_streams in
    let expected = or_else s.sequence (lookup s.flow s.direction e.next_seq) in
    let (single, h1) = refuse-then (ltb 1 (length flows)) (pcap_error several_flows) _ h in
    let (no_gap, h2) = refuse-then (ltb expected s.sequence) (pcap_error tcp_gap) _ h1 in
    let same : deliver e flows s expected ≡ e' = cc in
    subst (λ x. IsTrace x.chunks) same (IsTrace-deliver e flows s expected hs t)

IsTrace-take_row :
    (port : ℕ) (row : TcpRow) (o : Option Segment) (e e' : Extraction)
    → tcp_fields port row ≡ ok o
    → IsTrace e.chunks
    → take_row e o ≡ ok e'
    → IsTrace e'.chunks
IsTrace-take_row port row none e e' h t k =
    let same : e ≡ e' = cc in subst (λ x. IsTrace x.chunks) same t
IsTrace-take_row port row (some s) e e' h t k =
    IsTrace-accept e e' s (tcp_fields-IsSegment port row s h) t k

IsTrace-take_rows :
    (port : ℕ) (rows : List TcpRow) (e e' : Extraction)
    → IsTrace e.chunks
    → take_rows port rows e ≡ ok e'
    → IsTrace e'.chunks
unfolding take_rows
IsTrace-take_rows port [] e e' t h = let same : e ≡ e' = cc in subst (λ x. IsTrace x.chunks) same t
IsTrace-take_rows port (row ∷ rows) e e' t h =
    let (o, fields, h1) = >>=-eq-ok (tcp_fields port row) _ h in
    let (mid, taken, h2) = >>=-eq-ok (take_row e o) _ h1 in
    IsTrace-take_rows port rows mid e' (IsTrace-take_row port row o e mid fields t taken) h2

-- Whatever rows tshark prints, the chunks that are returned have a direction and consist of bytes,
-- no chunk is empty, neighbours have different directions, and there is at least one chunk.
pub extract_tcp_chunks-IsTrace :
    (port : ℕ) (rows : List TcpRow) (chunks : List Chunk)
    → extract_tcp_chunks port rows ≡ ok chunks
    → IsTrace chunks × (1 ≤ length chunks)
unfolding extract_tcp_chunks Alternating
extract_tcp_chunks-IsTrace port rows chunks h =
    let (e, taken, h1) = >>=-eq-ok (take_rows port rows nothing_seen) _ h in
    let (same, size) = some_payload-eq e.chunks chunks h1 in
    (
      subst IsTrace same (
          IsTrace-take_rows port rows nothing_seen e (record { chunks = tt; alternating = tt })
            taken),
      size,
    )
