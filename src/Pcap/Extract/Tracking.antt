-- ===== src/Pcap/Extract/Tracking.antt =====
-- minarx/pcap.py: what `extract_tcp_chunks` knows of each side while it reads the rows.
use hndl_dev.Prelude.{
  ℕ, ◌+◌, ◌-◌, ◌≤◌, ◌≡◌, refl, sym, ap, ◌∙◌, false, Option, none, some, List, [], ◌∷◌, ◌++◌,
  append-nil, arith, ltb, leb, ◌==◌, length, drop, length-append, Bool-cases, inl, inr,
}
use mathlib.Core.Path.{subst}
use hndl_dev.Result.{ok, pcap_error, several_flows, tcp_gap, refuse-then}
use hndl_dev.Binary.{Bytes}
use hndl_dev.Pcap.{stream}
use hndl_dev.Pcap.Extract.{
  Segment, Extraction, Expected, lookup, add_chunk, or_else, deliver, add_stream, is_member, accept,
}
use hndl_dev.Pcap.Extract.Slices.{SliceAt, drop-SliceAt, append-SliceAt, side, stream-add_chunk}

-- What is known of one side: nothing was seen of it, or what was got is a slice of what it sent that
-- ends before the next expected byte.
pub data Tracked (sent got : Bytes) (next : Option ℕ) : Type 0 where
  unseen : next ≡ none → got ≡ [] → Tracked sent got next
  seen :
      (first : ℕ)
      → next ≡ some (first + length got)
      → SliceAt sent first got
      → Tracked sent got next

advance :
    (sent got novel : Bytes) (expected sequence : ℕ) (next : Option ℕ)
    → or_else sequence next ≡ expected
    → Tracked sent got next
    → SliceAt sent expected novel
    → Tracked sent (got ++ novel) (some (expected + length novel))
advance sent got novel expected sequence next e (unseen blank empty) s =
    subst (λ g. Tracked sent (g ++ novel) (some (expected + length novel))) (sym empty)
      (seen expected refl s)
advance sent got novel expected sequence next e (seen first at before) s =
    let here : expected ≡ first + length got = sym e ∙ ap (or_else sequence) at in
    seen first (ap some (omega (arith, here, length-append got novel)))
      (append-SliceAt sent got novel first before (subst (λ m. SliceAt sent m novel) here s))

-- The segment carries what its side sent from its sequence number on.
pub record Carries (sent : ℕ → Bytes) (s : Segment) : Type 0 where
  pub carried : SliceAt (sent s.direction) s.sequence s.contents

-- Both sides of a flow are tracked.
abbrev pub Follows : (ℕ → Bytes) → Extraction → ℕ → Type 0
Follows sent e flow = (d : ℕ) → Tracked (sent d) (stream d e.chunks) (lookup flow d e.next_seq)

novel_at :
    (sent : Bytes) (s : Segment) (expected : ℕ)
    → SliceAt sent s.sequence s.contents
    → s.sequence ≤ expected
    → SliceAt sent expected (drop (expected - s.sequence) s.contents)
novel_at sent s expected c le =
    subst (λ m. SliceAt sent m (drop (expected - s.sequence) s.contents))
      {x = s.sequence + (expected - s.sequence)} (omega arith)
      (drop-SliceAt sent s.contents s.sequence (expected - s.sequence) c)

pub lookup_first :
    (flow direction next : ℕ) (es : List Expected)
    → lookup flow direction (record { flow = flow; direction = direction; next = next } ∷ es)
      ≡ some next
unfolding lookup
lookup_first flow direction next es = ground arith

pub lookup_other :
    (flow direction d next : ℕ) (es : List Expected)
    → (direction == d) ≡ false
    → lookup flow d (record { flow = flow; direction = direction; next = next } ∷ es)
      ≡ lookup flow d es
unfolding lookup
lookup_other flow direction d next es h = ground arith

side_same : (d : ℕ) (novel : Bytes) → side d d novel ≡ novel
side_same d novel = ground arith

pub deliver-Follows :
    (sent : ℕ → Bytes) (e : Extraction) (flows : List ℕ) (s : Segment) (expected : ℕ)
    → or_else s.sequence (lookup s.flow s.direction e.next_seq) ≡ expected
    → s.sequence ≤ expected
    → Carries sent s
    → Follows sent e s.flow
    → Follows sent (deliver e flows s expected) s.flow
unfolding deliver
deliver-Follows sent e flows s expected at le c f d =
    elim (Bool-cases (leb (length s.contents) (expected - s.sequence))) [
      | inl old ↦ rw old (f d)
      | inr new ↦ rw new (elim (Bool-cases (s.direction == d)) [
        | inl own ↦
            subst
              (λ k.
                Tracked (sent k) (stream k (add_chunk e.chunks s.direction novel))
                  (lookup s.flow k (entry ∷ e.next_seq)))
              (ground (arith, own)) own_side
        | inr other ↦
            rw (lookup_other s.flow s.direction d (expected + length novel) e.next_seq other) (
              rw (stream-add_chunk e.chunks d s.direction novel)
                (rw other (rw (append-nil (stream d e.chunks)) (f d))))
      ])
    ]
  where
    novel : Bytes
    novel = drop (expected - s.sequence) s.contents

    entry : Expected
    entry = record { flow = s.flow; direction = s.direction; next = expected + length novel }

    own_side :
        Tracked
          (sent s.direction)
          (stream s.direction (add_chunk e.chunks s.direction novel))
          (lookup s.flow s.direction (entry ∷ e.next_seq))
    own_side = rw (lookup_first s.flow s.direction (expected + length novel) e.next_seq) (
        rw (stream-add_chunk e.chunks s.direction s.direction novel) (
          rw (side_same s.direction novel) (
            advance (sent s.direction) (stream s.direction e.chunks) novel expected s.sequence
              (lookup s.flow s.direction e.next_seq) at (f s.direction)
              (novel_at (sent s.direction) s expected c.carried le))))

-- Before the first segment nothing is known, and from then on there is one flow.
pub data Tracks (sent : ℕ → Bytes) (e : Extraction) : Type 0 where
  idle : e.payload_streams ≡ [] → e.next_seq ≡ [] → e.chunks ≡ [] → Tracks sent e
  following : (flow : ℕ) → e.payload_streams ≡ flow ∷ [] → Follows sent e flow → Tracks sent e

idle-Follows :
    (sent : ℕ → Bytes) (e : Extraction) (flow : ℕ)
    → e.next_seq ≡ []
    → e.chunks ≡ []
    → Follows sent e flow
unfolding lookup stream
idle-Follows sent e flow h k d = unseen (ap (lookup flow d) h) (ap (stream d) k)

one_flow : (x y : ℕ) → ltb 1 (length (add_stream x (y ∷ []))) ≡ false → y ≡ x
unfolding add_stream is_member
one_flow x y h = ground (arith, h)

pub first_flow : (x : ℕ) → add_stream x [] ≡ x ∷ []
unfolding add_stream is_member
first_flow x = refl

pub add_known : (x : ℕ) → add_stream x (x ∷ []) ≡ x ∷ []
unfolding add_stream is_member
add_known x = ground arith

known_flow :
    (sent : ℕ → Bytes) (e : Extraction) (flow : ℕ)
    → Tracks sent e
    → ltb 1 (length (add_stream flow e.payload_streams)) ≡ false
    → (add_stream flow e.payload_streams ≡ flow ∷ []) × Follows sent e flow
known_flow sent e flow (idle flows next chunks) h =
    (ap (add_stream flow) flows ∙ first_flow flow, idle-Follows sent e flow next chunks)
known_flow sent e flow (following y flows f) h =
    let same : y ≡ flow =
      one_flow flow y (subst (λ l. ltb 1 (length (add_stream flow l)) ≡ false) flows h) in
    (
      ap (add_stream flow) (flows ∙ ap (λ k. k ∷ []) same) ∙ add_known flow,
      subst (Follows sent e) same f,
    )

deliver-payload_streams :
    (e : Extraction) (flows : List ℕ) (s : Segment) (expected : ℕ)
    → (deliver e flows s expected).payload_streams ≡ flows
unfolding deliver
deliver-payload_streams e flows s expected = ground arith

pub accept-Tracks :
    (sent : ℕ → Bytes) (e e' : Extraction) (s : Segment)
    → Carries sent s
    → Tracks sent e
    → accept e s ≡ ok e'
    → Tracks sent e'
unfolding accept
accept-Tracks sent e e' s c t h =
    let flows = add_stream s.flow e.payload_streams in
    let expected = or_else s.sequence (lookup s.flow s.direction e.next_seq) in
    let (single, h1) = refuse-then (ltb 1 (length flows)) (pcap_error several_flows) _ h in
    let (no_gap, h2) = refuse-then (ltb expected s.sequence) (pcap_error tcp_gap) _ h1 in
    let le : s.sequence ≤ expected = ground (arith, no_gap) in
    let same : deliver e flows s expected ≡ e' = cc in
    let (flow, f) = known_flow sent e s.flow t single in
    subst (Tracks sent) same (
      following s.flow (deliver-payload_streams e flows s expected ∙ flow)
        (deliver-Follows sent e flows s expected refl le c f))
