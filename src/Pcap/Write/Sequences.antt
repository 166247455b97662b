-- ===== src/Pcap/Write/Sequences.antt =====
-- minarx/pcap.py: the packets that `write_pcap` writes, as segments that `extract_tcp_chunks` accepts.
use hndl_dev.Prelude.{
  ℕ, zero, suc, ◌+◌, ◌-◌, ◌<◌, ◌≤◌, ◌≡◌, refl, sym, ap, ◌∙◌, false, List, [], ◌∷◌, ◌++◌,
  append_assoc, append-nil, arith, length, length-append, leb, le→ltb,
}
use mathlib.Core.Path.{subst}
use hndl_dev.Result.{Result, ok, >>=-eq-ok, ◌>>=◌}
use hndl_dev.Binary.{Bytes}
use hndl_dev.Pcap.{stream}
use hndl_dev.Pcap.Frames.{tcp_segment}
use hndl_dev.Pcap.Extract.{
  Segment, Extraction, lookup, add_stream, add_chunk, or_else, deliver, accept,
}
use hndl_dev.Pcap.Extract.Tracking.{add_known}
use hndl_dev.Pcap.Write.{tcp, Writer, sequence_of, move_sequence, pack_words}

-- The segment that carries a piece.
abbrev pub segment_of : Writer → ℕ → Bytes → Segment
segment_of w d piece = record {
  flow = 0;
  direction = d;
  sequence = sequence_of w d;
  contents = piece;
}

-- The extraction has read what the writer has written.
pub record Ready (w : Writer) (e : Extraction) : Type 0 where
  pub flows : add_stream 0 e.payload_streams ≡ 0 ∷ []
  pub client : or_else w.client_sequence (lookup 0 0 e.next_seq) ≡ w.client_sequence
  pub server : or_else w.server_sequence (lookup 0 1 e.next_seq) ≡ w.server_sequence

Ready-sequence :
    (w : Writer) (e : Extraction) (d : ℕ)
    → d < 2
    → Ready w e
    → or_else (sequence_of w d) (lookup 0 d e.next_seq) ≡ sequence_of w d
Ready-sequence w e zero h r = r.client
Ready-sequence w e (suc zero) h r = r.server
Ready-sequence w e (suc (suc d)) h r = absurd (omega arith)

unfoldable pub accepted_extraction : Writer → Extraction → ℕ → Bytes → Extraction
accepted_extraction w e d piece = record {
  next_seq = record { flow = 0; direction = d; next = sequence_of w d + length piece } ∷ e.next_seq;
  payload_streams = 0 ∷ [];
  chunks = add_chunk e.chunks d piece;
}

self_sub : (n : ℕ) → n - n ≡ 0
self_sub n = omega arith

leb-zero : (n : ℕ) → 1 ≤ n → leb n 0 ≡ false
leb-zero n h = ground arith

deliver_whole :
    (w : Writer) (e : Extraction) (d : ℕ) (piece : Bytes)
    → 1 ≤ length piece
    → deliver e (0 ∷ []) (segment_of w d piece) (sequence_of w d) ≡ accepted_extraction w e d piece
unfolding deliver accepted_extraction
deliver_whole w e d piece h = rw (self_sub (sequence_of w d)) (rw (leb-zero (length piece) h) refl)

pub accept_segment :
    (w : Writer) (e : Extraction) (d : ℕ) (piece : Bytes)
    → d < 2
    → 1 ≤ length piece
    → Ready w e
    → accept e (segment_of w d piece) ≡ ok (accepted_extraction w e d piece)
unfolding accept
accept_segment w e d piece hd h r =
    rw (r.flows, Ready-sequence w e d hd r)
      (rw (le→ltb (sequence_of w d) (sequence_of w d) (omega arith))
        (ap ok (deliver_whole w e d piece h)))

pub accepted-Ready :
    (w : Writer) (e : Extraction) (d : ℕ) (piece : Bytes)
    → d < 2
    → Ready w e
    → Ready (move_sequence tcp d (length piece) w) (accepted_extraction w e d piece)
unfolding accepted_extraction lookup
accepted-Ready w e zero piece hd r = record {
  flows = add_known 0;
  client = refl;
  server = r.server;
}
accepted-Ready w e (suc zero) piece hd r = record {
  flows = add_known 0;
  client = r.client;
  server = refl;
}
accepted-Ready w e (suc (suc d)) piece hd r = absurd (omega arith)

-- The extraction of segments in order: `accept` for each.
unfoldable pub take_segments : List Segment → Extraction → Result Extraction
take_segments [] e = ok e
take_segments (s ∷ ss) e = do e' ← accept e s; take_segments ss e'

-- The packets of segments, with consecutive times and identifications.
unfoldable pub packets : ℕ → ℕ → ℕ → List Segment → Result Bytes
packets server_port timestamp ident [] = ok []
packets server_port timestamp ident (s ∷ ss) = do
  frame ← tcp_segment s.contents s.direction server_port s.sequence ident
  header ← pack_words (timestamp ∷ 0 ∷ length frame ∷ length frame ∷ [])
  rest ← packets server_port (timestamp + 1) (ident + 1) ss
  ok (header ++ (frame ++ rest))

-- From `w` the writer came to `w'`, and the extraction from `e` to `after`, by the same segments;
-- each side grew by what was added.
pub record Wrote (port : ℕ) (w : Writer) (e : Extraction) (w' : Writer) (added : ℕ → Bytes)
    : Type 0 where
  pub segments : List Segment
  pub after : Extraction
  pub bytes : Bytes
  pub accepted : take_segments segments e ≡ ok after
  pub ready : Ready w' after
  pub encoded : w'.encoded ≡ w.encoded ++ bytes
  pub packed : packets port w.timestamp w.ident segments ≡ ok bytes
  pub time : w'.timestamp ≡ w.timestamp + length segments
  pub number : w'.ident ≡ w.ident + length segments
  pub grown : (d : ℕ) → stream d after.chunks ≡ stream d e.chunks ++ added d

take_segments-append :
    (xs ys : List Segment) (e f : Extraction)
    → take_segments xs e ≡ ok f
    → take_segments (xs ++ ys) e ≡ take_segments ys f
unfolding take_segments
take_segments-append [] ys e f h = let same : e ≡ f = cc in ap (take_segments ys) same
take_segments-append (x ∷ xs) ys e f h =
    let (m, first, rest) = >>=-eq-ok (accept e x) _ h in
    rw first (take_segments-append xs ys m f rest)

pub packets_cons :
    (s : Segment) (ss : List Segment) (port t i : ℕ) (frame header rest : Bytes)
    → tcp_segment s.contents s.direction port s.sequence i ≡ ok frame
    → pack_words (t ∷ 0 ∷ length frame ∷ length frame ∷ []) ≡ ok header
    → packets port (t + 1) (i + 1) ss ≡ ok rest
    → packets port t i (s ∷ ss) ≡ ok (header ++ (frame ++ rest))
unfolding packets
packets_cons s ss port t i frame header rest framed headed more =
    rw framed (rw headed (rw more refl))

packets_at :
    (ss : List Segment) (port t i t' i' : ℕ)
    → t ≡ t'
    → i ≡ i'
    → packets port t i ss ≡ packets port t' i' ss
packets_at ss port t i t' i' ht hi =
    ap (λ n. packets port n i ss) ht ∙ ap (λ n. packets port t' n ss) hi

packets-append :
    (xs ys : List Segment) (port t i : ℕ) (a b : Bytes)
    → packets port t i xs ≡ ok a
    → packets port (t + length xs) (i + length xs) ys ≡ ok b
    → packets port t i (xs ++ ys) ≡ ok (a ++ b)
unfolding packets
packets-append [] ys port t i a b h k =
    let same : [] ≡ a = cc in
    subst (λ z. packets port t i ys ≡ ok (z ++ b)) same
      (packets_at ys port t i (t + 0) (i + 0) (omega arith) (omega arith) ∙ k)
packets-append (x ∷ xs) ys port t i a b h k =
    let (frame, framed, h1) =
      >>=-eq-ok (tcp_segment x.contents x.direction port x.sequence i) _ h in
    let (header, headed, h2) =
      >>=-eq-ok (pack_words (t ∷ 0 ∷ length frame ∷ length frame ∷ [])) _ h1 in
    let (rest, more, h3) = >>=-eq-ok (packets port (t + 1) (i + 1) xs) _ h2 in
    let same : header ++ (frame ++ rest) ≡ a = cc in
    let tail = packets-append xs ys port (t + 1) (i + 1) rest b more (
      packets_at ys port (t + 1 + length xs) (i + 1 + length xs) (t + suc (length xs))
        (i + suc (length xs)) (omega arith) (omega arith)
      ∙ k) in
    packets_cons x (xs ++ ys) port t i frame header (rest ++ b) framed headed tail
    ∙ ap ok (
        ap (λ z. header ++ z) (sym (append_assoc frame rest b))
        ∙ sym (append_assoc header (frame ++ rest) b)
        ∙ ap (λ z. z ++ b) same)

-- One run after another.
pub Wrote-then :
    (port : ℕ) (w : Writer) (e : Extraction) (m w' : Writer) (a b : ℕ → Bytes)
    → (first : Wrote port w e m a) → Wrote port m first.after w' b
    → Wrote port w e w' (λ d. a d ++ b d)
Wrote-then port w e m w' a b x y = record {
  segments = x.segments ++ y.segments;
  after = y.after;
  bytes = x.bytes ++ y.bytes;
  accepted = take_segments-append x.segments y.segments e x.after x.accepted ∙ y.accepted;
  ready = y.ready;
  encoded = y.encoded ∙ ap (λ z. z ++ y.bytes) x.encoded ∙ append_assoc w.encoded x.bytes y.bytes;
  packed =
      packets-append x.segments y.segments port w.timestamp w.ident x.bytes y.bytes x.packed
        (packets_at y.segments port _ _ m.timestamp m.ident (sym x.time) (sym x.number) ∙ y.packed);
  time = omega (arith, y.time, x.time, length-append x.segments y.segments);
  number = omega (arith, y.number, x.number, length-append x.segments y.segments);
  grown = λ d.
      y.grown d ∙ ap (λ z. z ++ b d) (x.grown d) ∙ append_assoc (stream d e.chunks) (a d) (b d);
}

pub Wrote-nothing :
    (port : ℕ) (w : Writer) (e : Extraction) → Ready w e → Wrote port w e w (λ d. [])
unfolding take_segments packets
Wrote-nothing port w e r = record {
  segments = [];
  after = e;
  bytes = [];
  accepted = refl;
  ready = r;
  encoded = sym (append-nil w.encoded);
  packed = refl;
  time = omega arith;
  number = omega arith;
  grown = λ d. sym (append-nil (stream d e.chunks));
}
