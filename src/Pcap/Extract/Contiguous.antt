-- ===== src/Pcap/Extract/Contiguous.antt =====
-- minarx/pcap.py: `extract_tcp_chunks` keeps what each side sent, whatever was sent twice.
use hndl_dev.Prelude.{
  ℕ, ◌≡◌, refl, sym, ap, ◌∙◌, Option, none, some, List, [], ◌∷◌, length, take, drop, All,
}
use mathlib.Core.Path.{subst}
use hndl_dev.Result.{ok, >>=-eq-ok}
use hndl_dev.Binary.{Bytes}
use hndl_dev.Pcap.{Chunk, stream}
use hndl_dev.Pcap.Extract.{
  Segment, Extraction, TcpRow, take_row, take_rows, tcp_fields, nothing_seen, some_payload,
  extract_tcp_chunks,
}
use hndl_dev.Pcap.Extract.Tracking.{
  Tracked, unseen, seen, Carries, Tracks, idle, following, accept-Tracks,
}

-- A row whose fields can be read carries what its side sent.
pub record Honest (sent : ℕ → Bytes) (server_port : ℕ) (row : TcpRow) : Type 0 where
  pub honest : (s : Segment) → tcp_fields server_port row ≡ ok (some s) → Carries sent s

take_row-Tracks :
    (sent : ℕ → Bytes) (server_port : ℕ) (row : TcpRow) (o : Option Segment) (e e' : Extraction)
    → Honest sent server_port row
    → tcp_fields server_port row ≡ ok o
    → Tracks sent e
    → take_row e o ≡ ok e'
    → Tracks sent e'
take_row-Tracks sent server_port row none e e' r h t k =
    let same : e ≡ e' = cc in subst (Tracks sent) same t
take_row-Tracks sent server_port row (some s) e e' r h t k =
    accept-Tracks sent e e' s (r.honest s h) t k

take_rows-Tracks :
    (sent : ℕ → Bytes) (server_port : ℕ) (rows : List TcpRow) (e e' : Extraction)
    → All (Honest sent server_port) rows
    → Tracks sent e
    → take_rows server_port rows e ≡ ok e'
    → Tracks sent e'
unfolding take_rows
take_rows-Tracks sent server_port [] e e' rs t h =
    let same : e ≡ e' = cc in subst (Tracks sent) same t
take_rows-Tracks sent server_port (row ∷ rows) e e' (r, rs) t h =
    let (o, fields, h1) = >>=-eq-ok (tcp_fields server_port row) _ h in
    let (mid, taken, h2) = >>=-eq-ok (take_row e o) _ h1 in
    take_rows-Tracks sent server_port rows mid e' rs
      (take_row-Tracks sent server_port row o e mid r fields t taken) h2

Tracked-slice :
    (sent got : Bytes) (next : Option ℕ)
    → Tracked sent got next
    → (first : ℕ) × (got ≡ take (length got) (drop first sent))
Tracked-slice sent got next (unseen blank empty) =
    (0, empty ∙ ap (λ g. take (length g) sent) (sym empty))
Tracked-slice sent got next (seen first at s) = (first, s.slice)

Tracks-slice :
    (sent : ℕ → Bytes) (e : Extraction) (d : ℕ)
    → Tracks sent e
    → (first : ℕ) × (stream d e.chunks ≡ take (length (stream d e.chunks)) (drop first (sent d)))
unfolding stream
Tracks-slice sent e d (idle flows next chunks) =
    Tracked-slice (sent d) (stream d e.chunks) none (unseen refl (ap (stream d) chunks))
Tracks-slice sent e d (following flow flows f) = Tracked-slice (sent d) (stream d e.chunks) _ (f d)

some_payload-eq : (cs ds : List Chunk) → some_payload cs ≡ ok ds → cs ≡ ds
some_payload-eq [] ds h = cc
some_payload-eq (c ∷ cs) ds h = cc

-- Every row carries bytes that its side sent, at their sequence number; rows may repeat or overlap
-- others. Then what the chunks hold of each side is one contiguous piece of what it sent: nothing
-- is missing inside it and nothing stands twice.
pub extract_tcp_chunks-contiguous :
    (sent : ℕ → Bytes) (server_port : ℕ) (rows : List TcpRow) (chunks : List Chunk) (d : ℕ)
    → All (Honest sent server_port) rows
    → extract_tcp_chunks server_port rows ≡ ok chunks
    → (first : ℕ) × (stream d chunks ≡ take (length (stream d chunks)) (drop first (sent d)))
unfolding extract_tcp_chunks
extract_tcp_chunks-contiguous sent server_port rows chunks d rs h =
    let (e, taken, h1) = >>=-eq-ok (take_rows server_port rows nothing_seen) _ h in
    subst (λ cs. (first : ℕ) × (stream d cs ≡ take (length (stream d cs)) (drop first (sent d))))
      (some_payload-eq e.chunks chunks h1)
      (Tracks-slice sent e d
        (take_rows-Tracks sent server_port rows nothing_seen e rs (idle refl refl refl) taken))
