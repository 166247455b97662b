-- ===== src/Records/Split.antt =====
-- `split_tls_records` cuts what each side sent into records, and loses no byte.
use mathlib.Core.Path.{subst, subst₂}
use hndl_dev.Prelude.{
  ℕ, zero, suc, ◌+◌, ◌*◌, ◌/◌, ◌%◌, ◌≤◌, ◌<◌, ◌≡◌, ◌≢◌, refl, sym, ap, ◌∙◌, List, [], ◌∷◌, ◌++◌,
  append-nil, append_assoc, arith, ltb, ◌==◌, if◌then◌else◌, length, take, drop, All, All-append,
  All-take, All-drop, length-take, take-append-drop, drop-drop, Bool-cases, inl, inr,
}
use hndl_dev.Prelude.Endian.{to_bytes_big, from_bytes_two, IsByte}
use hndl_dev.Result.{err≢ok, Result, ok, err, value_error, truncated_stream, >>=-eq-ok}
use hndl_dev.Binary.{Bytes}
use hndl_dev.Pcap.{Chunk, IsChunk, stream}
use hndl_dev.Records.{
  TlsRecord, Pending, buffer, with_buffer, record_length, first_record, drain, split_chunks,
  no_pending, is_empty, split_tls_records, record_bytes, wire, IsRecord,
}

-- Five bytes of header, spelled out.
header_split :
    (buf : Bytes)
    → 5 ≤ length buf
    → (a b c d e : ℕ) × (rest : Bytes) × (buf ≡ a ∷ b ∷ c ∷ d ∷ e ∷ rest)
header_split (a ∷ b ∷ c ∷ d ∷ e ∷ rest) h = (a, b, c, d, e, rest, refl)
header_split buf h = absurd (omega arith)

two_bytes : (a b : ℕ) → a < 256 → b < 256 → to_bytes_big 2 (a * 256 + b) ≡ a ∷ b ∷ []
unfolding to_bytes_big
two_bytes a b ha hb =
    let high : (a * 256 + b) / 256 % 256 ≡ a = omega arith in
    let low : (a * 256 + b) % 256 ≡ b = omega arith in rw (high, low)

-- A complete record in front of a buffer: its bytes, and that it is well formed.
module _ (direction : ℕ) where
  pub first_record-bytes :
      (buf : Bytes)
      → All IsByte buf
      → 5 ≤ length buf
      → 5 + record_length buf ≤ length buf
      → record_bytes (first_record direction buf) ++ drop (5 + record_length buf) buf ≡ buf
  unfolding record_bytes
  first_record-bytes (a ∷ b ∷ c ∷ d ∷ e ∷ rest) (ha, (hb, (hc, (hd, (he, hr))))) long fits =
      rw (size_field, behind) (ap (λ t. a ∷ b ∷ c ∷ d ∷ e ∷ t) (take-append-drop n rest))
    where
      n : ℕ
      n = record_length (a ∷ b ∷ c ∷ d ∷ e ∷ rest)

      size_field : to_bytes_big 2 (length (take n rest)) ≡ d ∷ e ∷ []
      size_field =
          let size : length (take n rest) ≡ d * 256 + e =
            omega (arith, length-take n rest, from_bytes_two d e) in
          rw size (two_bytes d e hd he)

      behind : drop (5 + n) (a ∷ b ∷ c ∷ d ∷ e ∷ rest) ≡ drop n rest
      behind = sym (drop-drop n 5 (a ∷ b ∷ c ∷ d ∷ e ∷ rest))
  first_record-bytes buf bytes long fits = absurd (omega arith)

  first_record-IsRecord :
      (buf : Bytes)
      → direction < 2
      → All IsByte buf
      → 5 ≤ length buf
      → record_length buf ≤ 18432
      → IsRecord (first_record direction buf)
  first_record-IsRecord (a ∷ b ∷ c ∷ d ∷ e ∷ rest) side (ha, (hb, (hc, (hd, (he, hr))))) long fits =
      record {
        direction_bound = side;
        type_byte = ha;
        version_size = refl;
        version_bytes = (hb, (hc, tt));
        fragment_size = omega (arith, length-take (record_length (a ∷ b ∷ c ∷ d ∷ e ∷ rest)) rest);
        fragment_bytes = All-take IsByte (record_length (a ∷ b ∷ c ∷ d ∷ e ∷ rest)) rest hr;
      }
  first_record-IsRecord buf side bytes long fits = absurd (omega arith)

wire-append : (d : ℕ) (xs ys : List TlsRecord) → wire d (xs ++ ys) ≡ wire d xs ++ wire d ys
unfolding wire
wire-append d [] ys = refl
wire-append d (x ∷ xs) ys =
    ground (arith, wire-append d xs ys, append_assoc (record_bytes x) (wire d xs) (wire d ys))

-- What `drain` has done: `new` records of one side were cut off the front of the buffer.
pub record Drained (direction : ℕ) (buf : Bytes) (old : List TlsRecord) (buf' : Bytes)
    (all : List TlsRecord) : Type 0 where
  pub new : List TlsRecord
  pub appended : all ≡ old ++ new
  pub one_side : All (λ r. r.direction ≡ direction) new
  pub kept : wire direction new ++ buf' ≡ buf
  pub valid : All IsRecord new
  pub bytes : All IsByte buf'

Drained-none :
    {direction : ℕ} {buf buf' : Bytes} {old all : List TlsRecord}
    → All IsByte buf
    → ◌≡◌ {A = Result (Bytes × List TlsRecord)} (ok (buf, old)) (ok (buf', all))
    → Drained direction buf old buf' all
unfolding wire
Drained-none {buf} {buf'} {old} {all} bytes h = record {
  new = [];
  appended = let same : old ≡ all = cc in sym same ∙ sym (append-nil old);
  one_side = tt;
  kept = cc;
  valid = tt;
  bytes = let same : buf ≡ buf' = cc in subst (All IsByte) same bytes;
}

pub wire-cons_self :
    (d : ℕ) (r : TlsRecord) (rs : List TlsRecord)
    → r.direction ≡ d
    → wire d (r ∷ rs) ≡ record_bytes r ++ wire d rs
unfolding wire
wire-cons_self d r rs h = ground arith

pub wire-cons_other :
    (d : ℕ) (r : TlsRecord) (rs : List TlsRecord) → r.direction ≢ d → wire d (r ∷ rs) ≡ wire d rs
unfolding wire
wire-cons_other d r rs h = ground arith

Drained-cons :
    {direction : ℕ} {buf buf' : Bytes} {old all : List TlsRecord}
    → direction < 2
    → All IsByte buf
    → 5 ≤ length buf
    → record_length buf ≤ 18432
    → 5 + record_length buf ≤ length buf
    → Drained direction
        (drop (5 + record_length buf) buf)
        (old ++ (first_record direction buf ∷ []))
        buf'
        all
    → Drained direction buf old buf' all
Drained-cons {direction} {buf} {buf'} {old} side bytes long small whole d = record {
  new = first_record direction buf ∷ d.new;
  appended = d.appended ∙ append_assoc old (first_record direction buf ∷ []) d.new;
  one_side = (refl, d.one_side);
  kept =
      ap (λ t. t ++ buf') (wire-cons_self direction (first_record direction buf) d.new refl)
      ∙ append_assoc (record_bytes (first_record direction buf)) (wire direction d.new) buf'
      ∙ ap (λ t. record_bytes (first_record direction buf) ++ t) d.kept
      ∙ first_record-bytes direction buf bytes long whole;
  valid = (first_record-IsRecord direction buf side bytes long small, d.valid);
  bytes = d.bytes;
}

drain-Drained :
    (fuel direction : ℕ) (buf buf' : Bytes) (old all : List TlsRecord)
    → direction < 2
    → All IsByte buf
    → drain fuel direction buf old ≡ ok (buf', all)
    → Drained direction buf old buf' all
unfolding drain
drain-Drained zero direction buf buf' old all side bytes h = Drained-none bytes h
drain-Drained (suc fuel) direction buf buf' old all side bytes h =
    elim (Bool-cases (ltb (length buf) 5)) [
      | inl short ↦ Drained-none bytes (rw short at h)
      | inr long ↦ elim (Bool-cases (ltb 18432 (record_length buf))) [
        | inl large ↦ absurd (err≢ok (rw (long, large) at h))
        | inr small ↦ elim (Bool-cases (ltb (length buf) (5 + record_length buf))) [
          | inl cut ↦ Drained-none bytes (rw (long, small, cut) at h)
          | inr whole ↦ Drained-cons side bytes (ground arith) (ground arith) (ground arith) (
              drain-Drained fuel direction (drop (5 + record_length buf) buf) buf'
                (old ++ (first_record direction buf ∷ [])) all side
                (All-drop IsByte (5 + record_length buf) buf bytes) (rw (long, small, whole) at h))
        ]
      ]
    ]

wire_other :
    (d e : ℕ) (new : List TlsRecord) → d ≢ e → All (λ r. r.direction ≡ d) new → wire e new ≡ []
wire_other d e [] ne h = unfold wire in refl
wire_other d e (r ∷ rs) ne (hr, hrs) =
    wire-cons_other e r rs (λ q. ne (sym hr ∙ q)) ∙ wire_other d e rs ne hrs

-- What `drain` does to the account of its own side, and of the other.
module _ (d : ℕ) (x buf buf' : Bytes) (old all : List TlsRecord) where
  own_account :
      {sent : Bytes}
      → Drained d (buf ++ x) old buf' all
      → wire d old ++ buf ≡ sent
      → wire d all ++ buf' ≡ sent ++ x
  own_account q h =
      ap (λ t. wire d t ++ buf') q.appended
      ∙ ap (λ t. t ++ buf') (wire-append d old q.new)
      ∙ append_assoc (wire d old) (wire d q.new) buf'
      ∙ ap (λ t. wire d old ++ t) q.kept
      ∙ sym (append_assoc (wire d old) buf x)
      ∙ ap (λ t. t ++ x) h

  other_account :
      (e : ℕ) (rest : Bytes) {sent : Bytes}
      → d ≢ e
      → Drained d (buf ++ x) old buf' all
      → wire e old ++ rest ≡ sent
      → wire e all ++ rest ≡ sent
  other_account e rest ne q h =
      ap (λ t. wire e t ++ rest) q.appended
      ∙ ap (λ t. t ++ rest) (wire-append e old q.new)
      ∙ ap (λ t. (wire e old ++ t) ++ rest) (wire_other d e q.new ne q.one_side)
      ∙ ap (λ t. t ++ rest) (append-nil (wire e old))
      ∙ h

  each_valid : All IsRecord old → Drained d (buf ++ x) old buf' all → All IsRecord all
  each_valid h q = rw q.appended (All-append IsRecord old q.new h q.valid)

-- The state of `split_chunks` accounts for every byte that either side has sent.
pub record Accounts (c s : Bytes) (p : Pending) (rs : List TlsRecord) : Type 0 where
  pub client : wire 0 rs ++ p.client ≡ c
  pub server : wire 1 rs ++ p.server ≡ s
  pub valid : All IsRecord rs
  pub client_bytes : All IsByte p.client
  pub server_bytes : All IsByte p.server

-- What one chunk adds to what side `d` has sent.
abbrev part : ℕ → ℕ → Bytes → Bytes
part d direction x = if direction == d then x else []

stream-cons :
    (d : ℕ) (chunk : Chunk) (chunks : List Chunk)
    → stream d (chunk ∷ chunks) ≡ part d chunk.direction chunk.contents ++ stream d chunks
unfolding stream
stream-cons d chunk chunks = ground arith

chunk-Accounts :
    (direction : ℕ) (x buf' c s : Bytes) (p : Pending) (old all : List TlsRecord)
    → direction < 2
    → All IsByte x
    → Accounts c s p old
    → drain (length (buffer p direction ++ x)) direction (buffer p direction ++ x) old
      ≡ ok (buf', all)
    → Accounts
        (c ++ part 0 direction x)
        (s ++ part 1 direction x)
        (with_buffer p direction buf')
        all
chunk-Accounts zero x buf' c s p old all side hx a cut = record {
  client = own_account 0 x p.client buf' old all q a.client;
  server =
      other_account 0 x p.client buf' old all 1 p.server (omega arith) q a.server
      ∙ sym (append-nil s);
  valid = each_valid 0 x p.client buf' old all a.valid q;
  client_bytes = q.bytes;
  server_bytes = a.server_bytes;
}
  where
    q : Drained 0 (p.client ++ x) old buf' all
    q = drain-Drained _ 0 _ buf' old all side (All-append IsByte p.client x a.client_bytes hx) cut
chunk-Accounts (suc zero) x buf' c s p old all side hx a cut = record {
  client =
      other_account 1 x p.server buf' old all 0 p.client (omega arith) q a.client
      ∙ sym (append-nil c);
  server = own_account 1 x p.server buf' old all q a.server;
  valid = each_valid 1 x p.server buf' old all a.valid q;
  client_bytes = a.client_bytes;
  server_bytes = q.bytes;
}
  where
    q : Drained 1 (p.server ++ x) old buf' all
    q = drain-Drained _ 1 _ buf' old all side (All-append IsByte p.server x a.server_bytes hx) cut
chunk-Accounts (suc (suc n)) x buf' c s p old all side hx a cut = absurd (omega arith)

split_chunks-Accounts :
    (chunks : List Chunk) (c s : Bytes) (p p' : Pending) (old all : List TlsRecord)
    → All IsChunk chunks
    → Accounts c s p old
    → split_chunks chunks p old ≡ ok (p', all)
    → Accounts (c ++ stream 0 chunks) (s ++ stream 1 chunks) p' all
unfolding split_chunks
split_chunks-Accounts [] c s p p' old all hc a h =
    unfold stream in rw (append-nil c, append-nil s) (subst₂ (Accounts c s) same_p same_rs a)
  where
    same_p : p ≡ p'
    same_p = cc

    same_rs : old ≡ all
    same_rs = cc
split_chunks-Accounts (chunk ∷ chunks) c s p p' old all (hc, hcs) a h =
    let buf = buffer p chunk.direction ++ chunk.contents in
    let ((buf', mid), cut, later) = >>=-eq-ok (drain (length buf) chunk.direction buf old) _ h in
    rw (stream-cons 0 chunk chunks, stream-cons 1 chunk chunks)
      (rw (← append_assoc c _ _, ← append_assoc s _ _)
        (split_chunks-Accounts chunks _ _ (with_buffer p chunk.direction buf') p' mid all hcs
          (chunk-Accounts chunk.direction chunk.contents buf' c s p old mid hc.direction_bound
            hc.bytes a cut)
          later))

-- `split_tls_records` returns only if no buffer holds an unfinished record.
both_empty :
    (c s : Bytes) (rs records : List TlsRecord)
    → (if is_empty c
        then if is_empty s then ok rs else err (value_error truncated_stream)
        else err (value_error truncated_stream))
      ≡ ok records
    → (c ≡ []) × (s ≡ []) × (rs ≡ records)
unfolding is_empty
both_empty [] [] rs records h = (refl, refl, cc)
both_empty [] (b ∷ s) rs records h = cc
both_empty (b ∷ c) s rs records h = cc

start : Accounts [] [] no_pending []
unfolding wire
start = record { client = refl; server = refl; valid = tt; client_bytes = tt; server_bytes = tt }

account_closed : {xs ys zs : Bytes} → ys ≡ [] → xs ++ ys ≡ zs → xs ≡ zs
account_closed {xs} {ys} e h = sym (append-nil xs) ∙ ap (λ t. xs ++ t) (sym e) ∙ h

-- Every byte that a side has sent stands in its records, in order, and each record is well formed.
pub wire-split_tls_records :
    (chunks : List Chunk) (records : List TlsRecord)
    → All IsChunk chunks
    → split_tls_records chunks ≡ ok records
    → (wire 0 records ≡ stream 0 chunks) × (wire 1 records ≡ stream 1 chunks) × All IsRecord records
unfolding split_tls_records
wire-split_tls_records chunks records hc h =
    let ((p, rs), read, done) = >>=-eq-ok (split_chunks chunks no_pending []) _ h in
    let a = split_chunks-Accounts chunks [] [] no_pending p [] rs hc start read in
    let (no_client, no_server, same) = both_empty p.client p.server rs records done in
    subst (λ t. (wire 0 t ≡ stream 0 chunks) × (wire 1 t ≡ stream 1 chunks) × All IsRecord t) same
      (account_closed no_client a.client, account_closed no_server a.server, a.valid)
