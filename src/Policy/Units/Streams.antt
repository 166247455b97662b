-- ===== src/Policy/Units/Streams.antt =====
-- archive_policy.py: `_ssh_stream_events` on the payloads of a connection in any order of the sides.
use hndl_dev.Prelude.{
  ◌≡◌, refl, sym, ap, ◌∙◌, true, false, List, [], ◌∷◌, ◌++◌, Bool-cases, inl, inr, take,
  take-append-drop, drop, bytes_eq, bytes_eq→eq, ◌⊎◌,
}
use hndl_dev.Result.{ok, err, runtime_error, incomplete_ssh_exchange}
use hndl_dev.Binary.{Bytes}
use hndl_dev.Quic.Packets.Cover.{joined}
use hndl_dev.Policy.{WireEvent, side_bytes}
use hndl_dev.Policy.Units.{ssh_prefix, starts_ssh, ssh_stream_events}

-- The events of a connection on which the client sends the first payloads in their order, and the
-- server the second ones in theirs.
pub data Interleaving : List Bytes → List Bytes → List WireEvent → Type 0 where
  silence : Interleaving [] [] []
  from_client :
      (b : Bytes) (client server : List Bytes) (events : List WireEvent)
      → Interleaving client server events
      → Interleaving (b ∷ client) server (record { to_server = true; payload = b } ∷ events)
  from_server :
      (b : Bytes) (client server : List Bytes) (events : List WireEvent)
      → Interleaving client server events
      → Interleaving client (b ∷ server) (record { to_server = false; payload = b } ∷ events)

-- A stream that begins with "SSH-".
abbrev pub IsSsh : Bytes → Type 0
IsSsh stream = (rest : Bytes) × (stream ≡ 83 ∷ 83 ∷ 72 ∷ 45 ∷ rest)

Interleaving-side_bytes :
    {client server : List Bytes} {events : List WireEvent}
    → Interleaving client server events
    → (side_bytes true events ≡ joined client) × (side_bytes false events ≡ joined server)
unfolding side_bytes joined
Interleaving-side_bytes silence = (refl, refl)
Interleaving-side_bytes (from_client b client server events i) =
    let (c, s) = Interleaving-side_bytes i in (ap (λ z. b ++ z) c, s)
Interleaving-side_bytes (from_server b client server events i) =
    let (c, s) = Interleaving-side_bytes i in (c, ap (λ z. b ++ z) s)

starts_ssh-IsSsh : (stream : Bytes) → starts_ssh stream ≡ true → IsSsh stream
starts_ssh-IsSsh stream h = (
  drop 4 stream,
  sym (take-append-drop 4 stream)
      ∙ ap (λ z. z ++ drop 4 stream) (bytes_eq→eq (take 4 stream) ssh_prefix h),
)

IsSsh-starts_ssh : (stream : Bytes) → IsSsh stream → starts_ssh stream ≡ true
unfolding bytes_eq
IsSsh-starts_ssh stream (rest, h) = rw h refl

not-IsSsh : (stream : Bytes) → starts_ssh stream ≡ false → ¬ (IsSsh stream)
not-IsSsh stream h i = let t = IsSsh-starts_ssh stream i in cc

-- However the payloads of the two sides are interleaved, the events are kept as exactly two, the
-- client's payloads joined in their order and then the server's, if both begin with "SSH-"; if one of
-- them does not, the error for an incomplete exchange is raised.
pub ssh_stream_events-Interleaving :
    (client server : List Bytes) (events : List WireEvent)
    → Interleaving client server events
    → (IsSsh (joined client)
        × IsSsh (joined server)
        × (ssh_stream_events events
            ≡ ok (
                record { to_server = true; payload = joined client }
                ∷ record { to_server = false; payload = joined server }
                ∷ [])))
      ⊎ ((¬ (IsSsh (joined client) × IsSsh (joined server)))
          × (ssh_stream_events events ≡ err (runtime_error incomplete_ssh_exchange)))
unfolding ssh_stream_events
ssh_stream_events-Interleaving client server events i =
    let (c, s) = Interleaving-side_bytes i in
    elim (Bool-cases (starts_ssh (joined client))) [
      | inr other ↦ inr ((λ both. not-IsSsh (joined client) other both.0), rw (c, s, other) refl)
      | inl first ↦ elim (Bool-cases (starts_ssh (joined server))) [
        | inr other ↦
            inr ((λ both. not-IsSsh (joined server) other both.1), rw (c, s, first, other) refl)
        | inl second ↦ inl (
          starts_ssh-IsSsh (joined client) first,
          starts_ssh-IsSsh (joined server) second,
          rw (c, s, first, second) refl,
        )
      ]
    ]
