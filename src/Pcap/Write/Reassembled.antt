-- ===== src/Pcap/Write/Reassembled.antt =====
-- minarx/pcap.py: what `write_pcap` writes is reassembled by `extract_tcp_chunks`.
use hndl_dev.Prelude.{
  ℕ, zero, suc, ◌+◌, ◌<◌, ◌≤◌, ◌≡◌, refl, sym, ap, ◌∙◌, List, [], ◌∷◌, ◌++◌, append-nil, arith,
  length, take, drop, take-append-drop, length-drop, All,
}
use mathlib.Core.Path.{subst}
use hndl_dev.Result.{ok, >>=-eq-ok}
use hndl_dev.Binary.{Bytes}
use hndl_dev.Pcap.{Chunk, IsChunk, stream}
use hndl_dev.Pcap.Frames.{tcp_segment}
use hndl_dev.Pcap.Extract.{Segment, Extraction, lookup, nothing_seen}
use hndl_dev.Pcap.Extract.Slices.{side, side-append, stream_cons, stream-add_chunk}
use hndl_dev.Pcap.Extract.Tracking.{first_flow}
use hndl_dev.Pcap.Write.{
  tcp, Writer, sequence_of, move_sequence, pack_words, frame_of, write_piece, write_pieces,
  write_chunks, new_writer, write_pcap, pieces, pieces_of, file_header,
}
use hndl_dev.Pcap.Write.Sequences.{
  Ready, segment_of, accepted_extraction, accept_segment, accepted-Ready, take_segments, packets,
  packets_cons, Wrote, Wrote-then, Wrote-nothing,
}

abbrev written_piece : ℕ → Writer → Bytes → Bytes → Bytes → Writer
written_piece d w piece frame header = record (move_sequence tcp d (length piece) w) {
  encoded = w.encoded ++ (header ++ frame);
  timestamp = w.timestamp + 1;
  ident = w.ident + 1;
}

written_piece-Wrote :
    (port d : ℕ) (w : Writer) (e : Extraction) (piece frame header : Bytes)
    → d < 2
    → 1 ≤ length piece
    → Ready w e
    → tcp_segment piece d port (sequence_of w d) w.ident ≡ ok frame
    → pack_words (w.timestamp ∷ 0 ∷ length frame ∷ length frame ∷ []) ≡ ok header
    → Wrote port w e (written_piece d w piece frame header) (λ k. side k d piece)
unfolding take_segments packets accepted_extraction
written_piece-Wrote port d w e piece frame header hd hp r framed headed =
    let r' = accepted-Ready w e d piece hd r in
    record {
      segments = segment_of w d piece ∷ [];
      after = accepted_extraction w e d piece;
      bytes = header ++ (frame ++ []);
      accepted = rw (accept_segment w e d piece hd hp r) refl;
      ready = record { flows = r'.flows; client = r'.client; server = r'.server };
      encoded = ap (λ z. w.encoded ++ (header ++ z)) (sym (append-nil frame));
      packed =
          packets_cons (segment_of w d piece) [] port w.timestamp w.ident frame header [] framed
            headed refl;
      time = refl;
      number = refl;
      grown = λ k. stream-add_chunk e.chunks k d piece;
    }

write_piece-Wrote :
    (port d : ℕ) (w w' : Writer) (e : Extraction) (piece : Bytes)
    → d < 2
    → 1 ≤ length piece
    → Ready w e
    → write_piece tcp d port w piece ≡ ok w'
    → Wrote port w e w' (λ k. side k d piece)
unfolding write_piece frame_of
write_piece-Wrote port d w w' e piece hd hp r h =
    let (frame, framed, h1) = >>=-eq-ok (tcp_segment piece d port (sequence_of w d) w.ident) _ h in
    let (header, headed, h2) =
      >>=-eq-ok (pack_words (w.timestamp ∷ 0 ∷ length frame ∷ length frame ∷ [])) _ h1 in
    let same : written_piece d w piece frame header ≡ w' = cc in
    subst (λ v. Wrote port w e v (λ k. side k d piece)) same
      (written_piece-Wrote port d w e piece frame header hd hp r framed headed)

joined : List Bytes → Bytes
joined [] = []
joined (p ∷ ps) = p ++ joined ps

Wrote-added :
    (port : ℕ) (w : Writer) (e : Extraction) (w' : Writer) (a b : ℕ → Bytes)
    → ((k : ℕ) → a k ≡ b k)
    → Wrote port w e w' a
    → Wrote port w e w' b
Wrote-added port w e w' a b same x = record {
  segments = x.segments;
  after = x.after;
  bytes = x.bytes;
  accepted = x.accepted;
  ready = x.ready;
  encoded = x.encoded;
  packed = x.packed;
  time = x.time;
  number = x.number;
  grown = λ k. x.grown k ∙ ap (λ z. stream k e.chunks ++ z) (same k);
}

side-nil : (k d : ℕ) → [] ≡ side k d []
side-nil k d = ground arith

write_pieces-Wrote :
    (port d : ℕ) (ps : List Bytes) (w w' : Writer) (e : Extraction)
    → d < 2
    → All (λ p. 1 ≤ length p) ps
    → Ready w e
    → write_pieces tcp d port w ps ≡ ok w'
    → Wrote port w e w' (λ k. side k d (joined ps))
unfolding write_pieces joined
write_pieces-Wrote port d [] w w' e hd hps r h =
    let same : w ≡ w' = cc in
    subst (λ v. Wrote port w e v (λ k. side k d [])) same
      (Wrote-added port w e w (λ k. []) (λ k. side k d []) (λ k. side-nil k d)
        (Wrote-nothing port w e r))
write_pieces-Wrote port d (p ∷ ps) w w' e hd (hp, hps) r h =
    let (m, one, more) = >>=-eq-ok (write_piece tcp d port w p) _ h in
    let x = write_piece-Wrote port d w m e p hd hp r one in
    let y = write_pieces-Wrote port d ps m w' x.after hd hps x.ready more in
    Wrote-added port w e w' (λ k. side k d p ++ side k d (joined ps))
      (λ k. side k d (p ++ joined ps)) (λ k. sym (side-append k d p (joined ps)))
      (Wrote-then port w e m w' (λ k. side k d p) (λ k. side k d (joined ps)) x y)

-- The pieces of a chunk are its contents, and none is empty.
pieces_of-joined :
    (fuel : ℕ) (bytes : Bytes)
    → length bytes ≤ fuel
    → (joined (pieces_of fuel bytes) ≡ bytes) × All (λ p. 1 ≤ length p) (pieces_of fuel bytes)
unfolding pieces_of joined
pieces_of-joined zero [] h = (refl, tt)
pieces_of-joined zero (b ∷ bs) h = absurd (omega arith)
pieces_of-joined (suc fuel) [] h = (refl, tt)
pieces_of-joined (suc fuel) (b ∷ bs) h =
    let (same, sizes) =
      pieces_of-joined fuel (drop 1400 (b ∷ bs)) (omega (arith, length-drop 1400 (b ∷ bs))) in
    (ap (λ z. take 1400 (b ∷ bs) ++ z) same ∙ take-append-drop 1400 (b ∷ bs), (omega arith, sizes))

write_chunks-Wrote :
    (port : ℕ) (cs : List Chunk) (w w' : Writer) (e : Extraction)
    → All IsChunk cs
    → Ready w e
    → write_chunks tcp port w cs ≡ ok w'
    → Wrote port w e w' (λ k. stream k cs)
unfolding write_chunks stream
write_chunks-Wrote port [] w w' e hcs r h =
    let same : w ≡ w' = cc in
    subst (λ v. Wrote port w e v (λ k. [])) same (Wrote-nothing port w e r)
write_chunks-Wrote port (c ∷ cs) w w' e (hc, hcs) r h =
    let (m, one, more) =
      >>=-eq-ok (write_pieces tcp c.direction port w (pieces tcp c.contents)) _ h in
    let (same, sizes) = pieces_of-joined (length c.contents) c.contents (omega arith) in
    let x =
      write_pieces-Wrote port c.direction (pieces tcp c.contents) w m e hc.direction_bound sizes r
        one in
    let y = write_chunks-Wrote port cs m w' x.after hcs x.ready more in
    Wrote-added port w e w'
      (λ k. side k c.direction (joined (pieces tcp c.contents)) ++ stream k cs)
      (λ k. stream k (c ∷ cs))
      (λ k. ap (λ z. side k c.direction z ++ stream k cs) same ∙ sym (stream_cons k c cs))
      (Wrote-then port w e m w' _ (λ k. stream k cs) x y)

-- A TCP capture that is written consists, behind the file header, of the packets of a list of
-- segments. The extraction accepts these segments in their order without a gap, and then holds of
-- each side exactly what the chunks held.
pub write_pcap-reassembled :
    (chunks : List Chunk) (port : ℕ) (bytes : Bytes)
    → All IsChunk chunks
    → write_pcap chunks tcp port ≡ ok bytes
    → (segments : List Segment) × (after : Extraction) × (body : Bytes) × (bytes
        ≡ file_header ++ body)
      × (packets port 1 1 segments ≡ ok body)
      × (take_segments segments nothing_seen ≡ ok after)
      × ((d : ℕ) → stream d after.chunks ≡ stream d chunks)
unfolding write_pcap stream lookup
write_pcap-reassembled chunks port bytes hcs h =
    let (w, written, done) = >>=-eq-ok (write_chunks tcp port new_writer chunks) _ h in
    let x = write_chunks-Wrote port chunks new_writer w nothing_seen hcs ready written in
    let same : w.encoded ≡ bytes = cc in
    (x.segments, x.after, x.bytes, sym same ∙ x.encoded, x.packed, x.accepted, x.grown)
  where
    ready : Ready new_writer nothing_seen
    ready = record { flows = first_flow 0; client = refl; server = refl }
