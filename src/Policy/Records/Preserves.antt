-- ===== src/Policy/Records/Preserves.antt =====
-- archive_policy.py: the records of `_tls_record_events` against the events that they are cut from.
use hndl_dev.Prelude.{
  ℕ, zero, suc, ◌+◌, ◌≤◌, ◌≡◌, refl, sym, ap, ◌∙◌, Bool, true, false, not, ◌||◌, List, [], ◌∷◌,
  ◌++◌, append_assoc, append-nil, arith, ltb, ◌==◌, if◌then◌else◌, Bool-cases, inl, inr, length,
  take, drop, take-append-drop, length-take, All, All-append,
}
use mathlib.Core.Path.{subst}
use hndl_dev.Result.{Result, ok, err≢ok, refuse-then, >>=-eq-ok}
use hndl_dev.Binary.{Bytes}
use hndl_dev.Records.{record_length}
use hndl_dev.Policy.{WireEvent, same_side, side_bytes}
use hndl_dev.Policy.Records.{
  not_tls, first_unit, drain_units, Buffers, buffer_of, put_buffer, gather, complete_units,
  all_units,
}

pub side_bytes-append :
    (d : Bool) (xs ys : List WireEvent)
    → side_bytes d (xs ++ ys) ≡ side_bytes d xs ++ side_bytes d ys
unfolding side_bytes
side_bytes-append d [] ys = refl
side_bytes-append d (e ∷ xs) ys =
    ground
      (arith, side_bytes-append d xs ys, append_assoc e.payload (side_bytes d xs) (side_bytes d ys))

pub same_side_self : (d : Bool) → same_side d d ≡ true
same_side_self true = refl
same_side_self false = refl

-- A complete TLS record: its type, its version's first byte, and its size.
pub record IsUnit (e : WireEvent) : Type 0 where
  pub tls : not_tls e.payload ≡ false
  pub limit : record_length e.payload ≤ 18432
  pub size : length e.payload ≡ 5 + record_length e.payload

-- The header stands in the first five bytes.
same_header :
    (bytes : Bytes) (k : ℕ)
    → 5 ≤ length bytes
    → (not_tls (take (5 + k) bytes) ≡ not_tls bytes)
      × (record_length (take (5 + k) bytes) ≡ record_length bytes)
same_header (a ∷ b ∷ c ∷ d ∷ e ∷ rest) k h =
    let n : 5 + k ≡ suc (suc (suc (suc (suc k)))) = omega arith in
    (
      ap (λ n. not_tls (take n (a ∷ b ∷ c ∷ d ∷ e ∷ rest))) n,
      ap (λ n. record_length (take n (a ∷ b ∷ c ∷ d ∷ e ∷ rest))) n,
    )
same_header [] k h = absurd (omega arith)
same_header (a ∷ []) k h = absurd (omega arith)
same_header (a ∷ b ∷ []) k h = absurd (omega arith)
same_header (a ∷ b ∷ c ∷ []) k h = absurd (omega arith)
same_header (a ∷ b ∷ c ∷ d ∷ []) k h = absurd (omega arith)

first_unit-IsUnit :
    (d : Bool) (bytes : Bytes)
    → not_tls bytes ≡ false
    → record_length bytes ≤ 18432
    → 5 + record_length bytes ≤ length bytes
    → IsUnit (first_unit d bytes)
first_unit-IsUnit d bytes t l h =
    let (kind, size) = same_header bytes (record_length bytes) (omega arith) in
    record {
      tls = kind ∙ t;
      limit = omega (arith, size);
      size = omega (arith, size, length-take (5 + record_length bytes) bytes);
    }

-- The rounds of the inner loop on one side's buffer.
record Drained (d : Bool) (bytes bytes' : Bytes) (old new : List WireEvent) : Type 0 where
  added : List WireEvent
  grown : new ≡ old ++ added
  whole : side_bytes d added ++ bytes' ≡ bytes
  other : side_bytes (not d) added ≡ []
  units : All IsUnit added

Drained-none : (d : Bool) (bytes : Bytes) (old : List WireEvent) → Drained d bytes bytes old old
unfolding side_bytes
Drained-none d bytes old = record {
  added = [];
  grown = sym (append-nil old);
  whole = refl;
  other = refl;
  units = tt;
}

own_first :
    (d : Bool) (bytes : Bytes) (es : List WireEvent)
    → side_bytes d (first_unit d bytes ∷ es)
      ≡ take (5 + record_length bytes) bytes ++ side_bytes d es
unfolding side_bytes
own_first true bytes es = refl
own_first false bytes es = refl

other_first :
    (d : Bool) (bytes : Bytes) (es : List WireEvent)
    → side_bytes (not d) (first_unit d bytes ∷ es) ≡ side_bytes (not d) es
unfolding side_bytes
other_first true bytes es = refl
other_first false bytes es = refl

Drained-cons :
    (d : Bool) (bytes bytes' : Bytes) (old new : List WireEvent)
    → IsUnit (first_unit d bytes)
    → Drained d (drop (5 + record_length bytes) bytes) bytes' (old ++ (first_unit d bytes ∷ [])) new
    → Drained d bytes bytes' old new
Drained-cons d bytes bytes' old new u r = record {
  added = first_unit d bytes ∷ r.added;
  grown = r.grown ∙ append_assoc old (first_unit d bytes ∷ []) r.added;
  whole =
      ap (λ z. z ++ bytes') (own_first d bytes r.added)
      ∙ append_assoc (take (5 + record_length bytes) bytes) (side_bytes d r.added) bytes'
      ∙ ap (λ z. take (5 + record_length bytes) bytes ++ z) r.whole
      ∙ take-append-drop (5 + record_length bytes) bytes;
  other = other_first d bytes r.added ∙ r.other;
  units = (u, r.units);
}

Drained-nothing :
    {d : Bool} {bytes bytes' : Bytes} {old new : List WireEvent}
    → ◌≡◌ {A = Result (Bytes × List WireEvent)} (ok (bytes, old)) (ok (bytes', new))
    → Drained d bytes bytes' old new
Drained-nothing {d} {bytes} {bytes'} {old} {new} h =
    let e1 : bytes ≡ bytes' = cc in
    let e2 : old ≡ new = cc in
    subst (λ b. Drained d bytes b old new) e1
      (subst (Drained d bytes bytes old) e2 (Drained-none d bytes old))

drain_units-Drained :
    (fuel : ℕ) (d : Bool) (bytes bytes' : Bytes) (old new : List WireEvent)
    → drain_units fuel d bytes old ≡ ok (bytes', new)
    → Drained d bytes bytes' old new
unfolding drain_units
drain_units-Drained zero d bytes bytes' old new h = Drained-nothing h
drain_units-Drained (suc fuel) d bytes bytes' old new h = elim (Bool-cases (ltb (length bytes) 5)) [
  | inl short ↦ Drained-nothing (rw short at h)
  | inr long ↦ elim (Bool-cases (not_tls bytes)) [
    | inl bad ↦ absurd (err≢ok (rw (long, bad) at h))
    | inr good ↦ elim (Bool-cases (ltb 18432 (record_length bytes))) [
      | inl large ↦ absurd (err≢ok (rw (long, good, large) at h))
      | inr small ↦ elim (Bool-cases (ltb (length bytes) (5 + record_length bytes))) [
        | inl cut ↦ Drained-nothing (rw (long, good, small, cut) at h)
        | inr whole ↦
            Drained-cons d bytes bytes' old new
              (first_unit-IsUnit d bytes good (ground (arith, small)) (ground (arith, whole)))
              (drain_units-Drained fuel d (drop (5 + record_length bytes) bytes) bytes'
                (old ++ (first_unit d bytes ∷ [])) new (rw (long, good, small, whole) at h))
      ]
    ]
  ]
]

-- One event: the other side stays as it was, and its own side grows by the payload.
step_own :
    (d : Bool) (buf f buf' : Bytes) (old new : List WireEvent)
    → Drained d (buf ++ f) buf' old new
    → side_bytes d new ++ buf' ≡ (side_bytes d old ++ buf) ++ f
step_own d buf f buf' old new r =
    ap (λ z. side_bytes d z ++ buf') r.grown
    ∙ ap (λ z. z ++ buf') (side_bytes-append d old r.added)
    ∙ append_assoc (side_bytes d old) (side_bytes d r.added) buf'
    ∙ ap (λ z. side_bytes d old ++ z) r.whole
    ∙ sym (append_assoc (side_bytes d old) buf f)

step_other :
    (d : Bool) (bytes buf' : Bytes) (old new : List WireEvent)
    → Drained d bytes buf' old new
    → side_bytes (not d) new ≡ side_bytes (not d) old
step_other d bytes buf' old new r =
    ap (side_bytes (not d)) r.grown
    ∙ side_bytes-append (not d) old r.added
    ∙ ap (λ z. side_bytes (not d) old ++ z) r.other
    ∙ append-nil (side_bytes (not d) old)

step_side :
    (k d : Bool) (b : Buffers) (f buf' : Bytes) (old new : List WireEvent)
    → Drained d (buffer_of b d ++ f) buf' old new
    → side_bytes k new ++ buffer_of (put_buffer b d buf') k
      ≡ (side_bytes k old ++ buffer_of b k) ++ (if same_side d k then f else [])
step_side true true b f buf' old new r = step_own true b.client f buf' old new r
step_side false false b f buf' old new r = step_own false b.server f buf' old new r
step_side false true b f buf' old new r =
    ap (λ z. z ++ b.server) (step_other true (b.client ++ f) buf' old new r)
    ∙ sym (append-nil (side_bytes false old ++ b.server))
step_side true false b f buf' old new r =
    ap (λ z. z ++ b.client) (step_other false (b.server ++ f) buf' old new r)
    ∙ sym (append-nil (side_bytes true old ++ b.client))

side_bytes_cons :
    (k : Bool) (e : WireEvent) (events : List WireEvent)
    → side_bytes k (e ∷ events)
      ≡ (if same_side e.to_server k then e.payload else []) ++ side_bytes k events
unfolding side_bytes
side_bytes_cons k e events = ground arith

gather-sides :
    (events : List WireEvent) (k : Bool) (b b' : Buffers) (old new : List WireEvent)
    → All IsUnit old
    → gather events b old ≡ ok (b', new)
    → (side_bytes k new ++ buffer_of b' k
        ≡ (side_bytes k old ++ buffer_of b k) ++ side_bytes k events)
      × All IsUnit new
unfolding gather
gather-sides [] k b b' old new u h =
    let e1 : b ≡ b' = cc in
    let e2 : old ≡ new = cc in
    (
      ap (λ z. side_bytes k z ++ buffer_of b' k) (sym e2)
          ∙ ap (λ z. side_bytes k old ++ buffer_of z k) (sym e1)
          ∙ sym (append-nil (side_bytes k old ++ buffer_of b k))
          ∙ ap (λ z. (side_bytes k old ++ buffer_of b k) ++ z) (unfold side_bytes in refl),
      subst (All IsUnit) e2 u,
    )
gather-sides (e ∷ events) k b b' old new u h =
    let (drained, first, more) =
      >>=-eq-ok
        (drain_units (length (buffer_of b e.to_server ++ e.payload)) e.to_server
          (buffer_of b e.to_server ++ e.payload) old)
        _ h in
    let r = drain_units-Drained _ e.to_server _ drained.0 old drained.1 first in
    let (sides, units) =
      gather-sides events k (put_buffer b e.to_server drained.0) b' drained.1 new
        (subst (All IsUnit) (sym r.grown) (All-append IsUnit old r.added u r.units)) more in
    (
      sides
          ∙ ap (λ z. z ++ side_bytes k events)
              (step_side k e.to_server b e.payload drained.0 old drained.1 r)
          ∙ append_assoc (side_bytes k old ++ buffer_of b k) _ (side_bytes k events)
          ∙ ap (λ z. (side_bytes k old ++ buffer_of b k) ++ z) (sym (side_bytes_cons k e events)),
      units,
    )

both_empty :
    (a b : Bytes) → (not (length a == 0) || not (length b == 0)) ≡ false → (a ≡ []) × (b ≡ [])
both_empty [] [] h = (refl, refl)
both_empty [] (y ∷ b) h = absurd (ground (arith, h))
both_empty (x ∷ a) b h = absurd (ground (arith, h))

no_buffer : (k : Bool) (b : Buffers) → b.client ≡ [] → b.server ≡ [] → buffer_of b k ≡ []
no_buffer true b c s = c
no_buffer false b c s = s

complete_units-eq : (rs xs : List WireEvent) → complete_units rs ≡ ok xs → rs ≡ xs
complete_units-eq [] xs h = cc
complete_units-eq (r ∷ rs) xs h = cc

nothing_before :
    (k : Bool) → side_bytes k [] ++ buffer_of (record { client = []; server = [] }) k ≡ []
unfolding side_bytes
nothing_before true = refl
nothing_before false = refl

-- Where the splitter returns records, each is a complete TLS record of an allowed type, version and
-- size, and the records of a side, joined, are what its events carried, joined: no byte is lost or
-- added, and none is left in a buffer.
pub all_units_preserves :
    (events records : List WireEvent) (side : Bool)
    → all_units events ≡ ok records
    → (side_bytes side records ≡ side_bytes side events) × All IsUnit records
unfolding all_units
all_units_preserves events records side h =
    let ((b, rs), gathered, h1) =
      >>=-eq-ok (gather events (record { client = []; server = [] }) []) _ h in
    let (empty, done) = refuse-then _ _ _ h1 in
    let (c, s) = both_empty b.client b.server empty in
    let same = complete_units-eq rs records done in
    let (sides, units) =
      gather-sides events side (record { client = []; server = [] }) b [] rs tt gathered in
    (
      ap (side_bytes side) (sym same)
          ∙ sym (append-nil (side_bytes side rs))
          ∙ ap (λ z. side_bytes side rs ++ z) (sym (no_buffer side b c s))
          ∙ sides
          ∙ ap (λ z. z ++ side_bytes side events) (nothing_before side),
      subst (All IsUnit) same units,
    )
