-- ===== src/Policy/Events/Slices.antt =====
-- archive_policy.py: the events of `_tcp_events` against what each side sent.
use hndl_dev.Prelude.{
  ℕ, ◌+◌, ◌-◌, ◌≡◌, refl, sym, ap, ◌∙◌, Bool, true, false, Option, none, some, List, [], ◌∷◌, ◌++◌,
  append-nil, arith, leb, ltb, if◌then◌else◌, Bool-cases, ◌⊎◌, inl, inr, length, take, drop,
  length-append, All,
}
use mathlib.Core.Path.{subst}
use hndl_dev.Result.{ok, err≢ok, >>=-eq-ok}
use hndl_dev.Binary.{Bytes}
use hndl_dev.Pcap.Fields.{Text}
use hndl_dev.Pcap.Extract.Slices.{SliceAt, drop-SliceAt, append-SliceAt}
use hndl_dev.Pcap.Extract.Tracking.{Tracked, unseen, seen}
use hndl_dev.Policy.{WireEvent, same_side, side_bytes}
use hndl_dev.Policy.Records.Preserves.{side_bytes-append}
use hndl_dev.Policy.Events.{
  PolicyRow, Arrival, row_arrival, Assembly, next_of, append_event, assemble, assemble_row,
  assemble_rows, nothing_assembled, some_tcp, tcp_events,
}

-- A row that counts carries what its side sent, at its sequence number.
pub record CarriesSent (sent : Bool → Bytes) (port : Text) (row : PolicyRow) : Type 0 where
  pub carried :
      (a : Arrival)
      → row_arrival port row ≡ some a
      → a.payload ≡ take (length a.payload) (drop a.sequence (sent a.to_server))

-- Both sides are tracked.
abbrev Follows : (Bool → Bytes) → Assembly → Type 0
Follows sent s = (k : Bool) → Tracked (sent k) (side_bytes k s.events) (next_of s k)

-- The payload begins where its side is expected to go on.
grow :
    (sent got payload : Bytes) (next : Option ℕ) (sequence : ℕ)
    → ((next ≡ none) ⊎ (next ≡ some sequence))
    → SliceAt sent sequence payload
    → Tracked sent got next
    → Tracked sent (got ++ payload) (some (sequence + length payload))
grow sent got payload next sequence at s (unseen blank empty) =
    subst (λ g. Tracked sent (g ++ payload) (some (sequence + length payload))) (sym empty)
      (seen sequence refl s)
grow sent got payload next sequence (inl none_yet) s (seen first here before) = cc
grow sent got payload next sequence (inr there) s (seen first here before) =
    let e : some sequence ≡ some (first + length got) = cc in
    let same : sequence ≡ first + length got = cc in
    seen first (ap some (omega (arith, same, length-append got payload)))
      (append-SliceAt sent got payload first before (subst (λ n. SliceAt sent n payload) same s))

one_event :
    (d k : Bool) (events : List WireEvent) (payload : Bytes)
    → side_bytes k (events ++ (record { to_server = d; payload = payload } ∷ []))
      ≡ side_bytes k events ++ (if same_side d k then payload else [])
unfolding side_bytes
one_event d k events payload =
    side_bytes-append k events (record { to_server = d; payload = payload } ∷ [])
    ∙ ap (λ z. side_bytes k events ++ z) (ground (arith, append-nil payload))

append_event-Follows :
    (sent : Bool → Bytes) (s : Assembly) (d : Bool) (sequence : ℕ) (payload : Bytes)
    → ((next_of s d ≡ none) ⊎ (next_of s d ≡ some sequence))
    → SliceAt (sent d) sequence payload
    → Follows sent s
    → Follows sent (append_event s d sequence payload)
append_event-Follows sent s true sequence payload at p f true =
    subst (λ g. Tracked (sent true) g (some (sequence + length payload)))
      (sym (one_event true true s.events payload))
      (grow (sent true) (side_bytes true s.events) payload s.next_client sequence at p (f true))
append_event-Follows sent s false sequence payload at p f false =
    subst (λ g. Tracked (sent false) g (some (sequence + length payload)))
      (sym (one_event false false s.events payload))
      (grow (sent false) (side_bytes false s.events) payload s.next_server sequence at p (f false))
append_event-Follows sent s true sequence payload at p f false =
    subst (λ g. Tracked (sent false) g s.next_server)
      (sym (one_event true false s.events payload ∙ append-nil (side_bytes false s.events)))
      (f false)
append_event-Follows sent s false sequence payload at p f true =
    subst (λ g. Tracked (sent true) g s.next_client)
      (sym (one_event false true s.events payload ∙ append-nil (side_bytes true s.events))) (f true)

assemble-Follows :
    (sent : Bool → Bytes) (s s' : Assembly) (a : Arrival) (next : Option ℕ)
    → next_of s a.to_server ≡ next
    → SliceAt (sent a.to_server) a.sequence a.payload
    → Follows sent s
    → assemble s a next ≡ ok s'
    → Follows sent s'
assemble-Follows sent s s' a none e p f h =
    let same : append_event s a.to_server a.sequence a.payload ≡ s' = cc in
    subst (Follows sent) same
      (append_event-Follows sent s a.to_server a.sequence a.payload (inl e) p f)
assemble-Follows sent s s' a (some expected) e p f h = elim (Bool-cases (ltb expected a.sequence)) [
  | inl gap ↦ absurd (err≢ok (rw gap at h))
  | inr near ↦ elim (Bool-cases (leb (length a.payload) (expected - a.sequence))) [
    | inl seen_before ↦
        let h' : ok s ≡ ok s' = rw (near, seen_before) at h in
        let same : s ≡ s' = cc in subst (Follows sent) same f
    | inr novel ↦
        let k = expected - a.sequence in
        let h' : ok (append_event s a.to_server (a.sequence + k) (drop k a.payload)) ≡ ok s' =
          rw (near, novel) at h in
        let same : append_event s a.to_server (a.sequence + k) (drop k a.payload) ≡ s' = cc in
        let there : expected ≡ a.sequence + k = ground (arith, near) in
        subst (Follows sent) same (
          append_event-Follows sent s a.to_server (a.sequence + k) (drop k a.payload)
            (inr (e ∙ ap some there)) (drop-SliceAt (sent a.to_server) a.payload a.sequence k p) f)
  ]
]

assemble_row-Follows :
    (sent : Bool → Bytes) (s s' : Assembly) (o : Option Arrival)
    → ((a : Arrival) → o ≡ some a → SliceAt (sent a.to_server) a.sequence a.payload)
    → Follows sent s
    → assemble_row s o ≡ ok s'
    → Follows sent s'
assemble_row-Follows sent s s' none p f h = let same : s ≡ s' = cc in subst (Follows sent) same f
assemble_row-Follows sent s s' (some a) p f h =
    assemble-Follows sent s s' a (next_of s a.to_server) refl (p a refl) f h

assemble_rows-Follows :
    (sent : Bool → Bytes) (port : Text) (rows : List PolicyRow) (s s' : Assembly)
    → All (CarriesSent sent port) rows
    → Follows sent s
    → assemble_rows port rows s ≡ ok s'
    → Follows sent s'
unfolding assemble_rows
assemble_rows-Follows sent port [] s s' c f h =
    let same : s ≡ s' = cc in subst (Follows sent) same f
assemble_rows-Follows sent port (row ∷ rows) s s' (c, cs) f h =
    let (mid, first, more) = >>=-eq-ok (assemble_row s (row_arrival port row)) _ h in
    assemble_rows-Follows sent port rows mid s' cs
      (assemble_row-Follows sent s mid (row_arrival port row)
        (λ a e. record { slice = c.carried a e }) f first)
      more

Tracked-slice :
    (sent got : Bytes) (next : Option ℕ)
    → Tracked sent got next
    → (first : ℕ) × (got ≡ take (length got) (drop first sent))
Tracked-slice sent got next (unseen blank empty) =
    (0, empty ∙ ap (λ g. take (length g) sent) (sym empty))
Tracked-slice sent got next (seen first at s) = (first, s.slice)

some_tcp-eq : (es xs : List WireEvent) → some_tcp es ≡ ok xs → es ≡ xs
some_tcp-eq [] xs h = cc
some_tcp-eq (e ∷ es) xs h = cc

nothing-Follows : (sent : Bool → Bytes) → Follows sent nothing_assembled
unfolding side_bytes
nothing-Follows sent true = unseen refl refl
nothing-Follows sent false = unseen refl refl

-- Every row that counts carries bytes that its side sent, at their sequence number; rows may repeat
-- or overlap others. Then the events of a side, joined, are one contiguous piece of what it sent.
pub tcp_events_contiguous :
    (sent : Bool → Bytes) (port : Text) (rows : List PolicyRow) (events : List WireEvent)
    (side : Bool)
    → All (CarriesSent sent port) rows
    → tcp_events port rows ≡ ok events
    → (first : ℕ) × (side_bytes side events
        ≡ take (length (side_bytes side events)) (drop first (sent side)))
unfolding tcp_events
tcp_events_contiguous sent port rows events side c h =
    let (s, run, done) = >>=-eq-ok (assemble_rows port rows nothing_assembled) _ h in
    subst
      (λ es.
        (first : ℕ) × (side_bytes side es
          ≡ take (length (side_bytes side es)) (drop first (sent side))))
      (some_tcp-eq s.events events done)
      (Tracked-slice (sent side) (side_bytes side s.events) (next_of s side) (
        assemble_rows-Follows sent port rows nothing_assembled s c (nothing-Follows sent) run side))
