-- ===== src/Quic/Frames/Prefix.antt =====
-- decryptor/quic/derive_quic.py: `_reassemble_crypto_prefix` against the stream that was cut.
use hndl_dev.Prelude.{
  ℕ, ◌+◌, ◌-◌, ◌≤◌, ◌<◌, ◌≡◌, refl, sym, true, false, List, [], ◌∷◌, ◌++◌, arith, leb, ltb, leb→le,
  ltb→lt, length, take, drop, length-append, length-drop, All, Bool-cases, inl, inr, ◌⊎◌,
}
use mathlib.Core.Path.{subst}
use hndl_dev.Binary.{Bytes}
use hndl_dev.Pcap.Extract.Slices.{SliceAt, drop-SliceAt, append-SliceAt}
use hndl_dev.Quic.Frames.{Segment, place, sorted, extend_prefix, reassemble_crypto_prefix}

-- A position of the stream that some segment holds.
unfoldable pub Covered : ℕ → List Segment → Type 0
Covered p [] = ⊥
Covered p ((offset, contents) ∷ segments) =
    ((offset ≤ p) × (p < offset + length contents)) ⊎ Covered p segments

-- Segments in the order of their offsets.
abbrev From : ℕ → List Segment → Type 0
From k segments = All (λ s. k ≤ s.0) segments

abbrev IsSorted : List Segment → Type 0
IsSorted [] = Unit {0}
IsSorted ((k, c) ∷ segments) = From k segments × IsSorted segments

From-le : (j k : ℕ) (segments : List Segment) → j ≤ k → From k segments → From j segments
From-le j k [] h f = tt
From-le j k ((i, c) ∷ segments) h (f, fs) = (omega arith, From-le j k segments h fs)

place-From :
    (i k : ℕ) (c : Bytes) (segments : List Segment)
    → i ≤ k
    → From i segments
    → From i (place (k, c) segments)
unfolding place
place-From i k c [] h f = (h, tt)
place-From i k c ((j, d) ∷ segments) h (f, fs) = elim (Bool-cases (leb k j)) [
  | inl before ↦ rw before (h, (f, fs))
  | inr behind ↦ rw behind (f, place-From i k c segments h fs)
]

place-IsSorted :
    (k : ℕ) (c : Bytes) (segments : List Segment)
    → IsSorted segments
    → IsSorted (place (k, c) segments)
unfolding place
place-IsSorted k c [] h = (tt, tt)
place-IsSorted k c ((j, d) ∷ segments) (f, s) = elim (Bool-cases (leb k j)) [
  | inl before ↦ rw before ((leb→le k j before, From-le k j segments (leb→le k j before) f), (f, s))
  | inr behind ↦
      rw behind (place-From j k c segments (ground arith) f, place-IsSorted k c segments s)
]

sorted-IsSorted : (segments : List Segment) → IsSorted (sorted segments)
unfolding sorted
sorted-IsSorted [] = tt
sorted-IsSorted ((k, c) ∷ segments) =
    place-IsSorted k c (sorted segments) (sorted-IsSorted segments)

-- Sorting keeps what is known of each segment, and covers what was covered.
module _ (P : Segment → Type 0) where
  place-All :
      (s : Segment) (segments : List Segment) → P s → All P segments → All P (place s segments)
  unfolding place
  place-All s [] h hs = (h, tt)
  place-All (k, c) ((j, d) ∷ segments) h (hj, hs) = elim (Bool-cases (leb k j)) [
    | inl before ↦ rw before (h, (hj, hs))
    | inr behind ↦ rw behind (hj, place-All (k, c) segments h hs)
  ]

  sorted-All : (segments : List Segment) → All P segments → All P (sorted segments)
  unfolding sorted
  sorted-All [] h = tt
  sorted-All (s ∷ segments) (h, hs) = place-All s (sorted segments) h (sorted-All segments hs)

reorder : {A B C D : Type 0} → (A ⊎ C → D) → A ⊎ (B ⊎ C) → B ⊎ D
reorder f (inl a) = inr (f (inl a))
reorder f (inr (inl b)) = inl b
reorder f (inr (inr c)) = inr (f (inr c))

place-Covered :
    (p : ℕ) (s : Segment) (segments : List Segment)
    → Covered p (s ∷ segments)
    → Covered p (place s segments)
unfolding place Covered
place-Covered p s [] h = h
place-Covered p (k, c) ((j, d) ∷ segments) h = elim (Bool-cases (leb k j)) [
  | inl before ↦ rw before h
  | inr behind ↦ rw behind (reorder (place-Covered p (k, c) segments) h)
]

sorted-Covered :
    (p : ℕ) (segments : List Segment) → Covered p segments → Covered p (sorted segments)
unfolding sorted Covered
sorted-Covered p [] h = h
sorted-Covered p (s ∷ segments) (inl here) = place-Covered p s (sorted segments) (inl here)
sorted-Covered p (s ∷ segments) (inr far) =
    place-Covered p s (sorted segments) (inr (sorted-Covered p segments far))

-- No segment that begins behind a position covers it.
From-uncovered :
    (p k : ℕ) (segments : List Segment) → p < k → From k segments → ¬ Covered p segments
unfolding Covered
From-uncovered p k [] h f c = c
From-uncovered p k ((j, d) ∷ segments) h (f, fs) (inl here) = omega arith
From-uncovered p k ((j, d) ∷ segments) h (f, fs) (inr far) = From-uncovered p k segments h fs far

extend_prefix-grows :
    (out : Bytes) (segments : List Segment) → length out ≤ length (extend_prefix out segments)
unfolding extend_prefix
extend_prefix-grows out [] = omega arith
extend_prefix-grows out ((offset, contents) ∷ segments) =
    let grown = out ++ drop (length out - offset) contents in
    ground (
      arith,
      extend_prefix-grows grown segments,
      length-append out (drop (length out - offset) contents),
    )

-- The stream's length so far is not covered by a segment that was used.
used_up :
    (out : Bytes) (offset : ℕ) (contents : Bytes) (segments : List Segment)
    → offset ≤ length out
    → offset + length contents
      ≤ length (extend_prefix (out ++ drop (length out - offset) contents) segments)
used_up out offset contents segments h = omega (
  arith,
  extend_prefix-grows (out ++ drop (length out - offset) contents) segments,
  length-append out (drop (length out - offset) contents),
  length-drop (length out - offset) contents,
)

not_both : {A B : Type 0} → ¬ A → ¬ B → ¬ (A ⊎ B)
not_both f g (inl a) = f a
not_both f g (inr b) = g b

extend_gap :
    (out : Bytes) (offset : ℕ) (contents : Bytes) (segments : List Segment)
    → ltb (length out) offset ≡ true
    → extend_prefix out ((offset, contents) ∷ segments) ≡ out
unfolding extend_prefix
extend_gap out offset contents segments h = rw h refl

extend_near :
    (out : Bytes) (offset : ℕ) (contents : Bytes) (segments : List Segment)
    → ltb (length out) offset ≡ false
    → extend_prefix out ((offset, contents) ∷ segments)
      ≡ extend_prefix (out ++ drop (length out - offset) contents) segments
unfolding extend_prefix
extend_near out offset contents segments h = rw h refl

extend_prefix-stops :
    (out : Bytes) (segments : List Segment)
    → IsSorted segments
    → ¬ Covered (length (extend_prefix out segments)) segments
unfolding Covered
extend_prefix-stops out [] s = λ c. c
extend_prefix-stops out ((offset, contents) ∷ segments) (f, s) =
    elim (Bool-cases (ltb (length out) offset)) [
      | inl gap ↦
          subst (λ o. ¬ Covered (length o) ((offset, contents) ∷ segments))
            (sym (extend_gap out offset contents segments gap))
            (not_both (λ here. omega (arith, here.0, ltb→lt _ _ gap))
              (From-uncovered (length out) offset segments (ltb→lt _ _ gap) f))
      | inr near ↦
          subst (λ o. ¬ Covered (length o) ((offset, contents) ∷ segments))
            (sym (extend_near out offset contents segments near))
            (not_both
              (λ here.
                omega (arith, here.1, used_up out offset contents segments (ground (arith, near))))
              (extend_prefix-stops (out ++ drop (length out - offset) contents) segments s))
    ]

abbrev CutFrom : Bytes → Segment → Type 0
CutFrom sent s = SliceAt sent s.0 s.1

extend_prefix-SliceAt :
    (sent out : Bytes) (segments : List Segment)
    → SliceAt sent 0 out
    → All (CutFrom sent) segments
    → SliceAt sent 0 (extend_prefix out segments)
unfolding extend_prefix
extend_prefix-SliceAt sent out [] s h = s
extend_prefix-SliceAt sent out ((offset, contents) ∷ segments) s (h, hs) =
    elim (Bool-cases (ltb (length out) offset)) [
      | inl gap ↦ rw gap s
      | inr near ↦ rw near (
          let at : offset + (length out - offset) ≡ 0 + length out = ground (arith, near) in
          extend_prefix-SliceAt sent (out ++ drop (length out - offset) contents) segments
            (append-SliceAt sent out (drop (length out - offset) contents) 0 s (
              subst (λ n. SliceAt sent n (drop (length out - offset) contents)) at
                (drop-SliceAt sent contents offset (length out - offset) h)))
            hs)
    ]

each_cut :
    (sent : Bytes) (segments : List Segment)
    → All (λ s. s.1 ≡ take (length s.1) (drop s.0 sent)) segments
    → All (CutFrom sent) segments
each_cut sent [] h = tt
each_cut sent (s ∷ segments) (h, hs) = (record { slice = h }, each_cut sent segments hs)

-- Where every segment was cut out of one stream at its offset, in whatever order they came and
-- however they overlap, the result is that stream's beginning, and it ends at the first position
-- that no segment covers.
pub reassemble_crypto_prefix_prefix :
    (sent : Bytes) (segments : List Segment)
    → All (λ s. s.1 ≡ take (length s.1) (drop s.0 sent)) segments
    → (reassemble_crypto_prefix segments ≡ take (length (reassemble_crypto_prefix segments)) sent)
      × (¬ Covered (length (reassemble_crypto_prefix segments)) segments)
unfolding reassemble_crypto_prefix
reassemble_crypto_prefix_prefix sent segments h = (
  (extend_prefix-SliceAt sent [] (sorted segments) (record { slice = refl })
      (sorted-All (CutFrom sent) segments (each_cut sent segments h))).slice,
  λ c.
      extend_prefix-stops [] (sorted segments) (sorted-IsSorted segments)
        (sorted-Covered (length (extend_prefix [] (sorted segments))) segments c),
)
