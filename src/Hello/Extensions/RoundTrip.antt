-- ===== src/Hello/Extensions/RoundTrip.antt =====
-- minarx/protocols/common.py: `_hello_extensions` on a Hello that is laid out as the RFCs say.
use hndl_dev.Prelude.{
  ℕ, zero, suc, ◌+◌, ◌<◌, ◌≤◌, ◌≡◌, refl, sym, ap, ◌∙◌, false, List, [], ◌∷◌, ◌++◌, append_assoc,
  append-nil, arith, le→ltb, lt→leb, lt→==, eq_self, length, length-append, All,
}
use hndl_dev.Prelude.Endian.{to_bytes_big, length-to_bytes_big}
use mathlib.Core.Path.{subst}
use hndl_dev.Result.{ok}
use hndl_dev.Binary.{Bytes}
use hndl_dev.Maps.{insert}
use hndl_dev.Hello.Cursor.{
  word_at, slice_at, At, At-start, At-append, At-byte, At-next, At-slice, At-word, At-past_word,
}
use hndl_dev.Hello.Extensions.{
  after_session_id, after_compression, extension_loop, extension_block, extensions_from,
  hello_extensions,
}

-- An extension: its type and its contents, each behind two bytes.
abbrev pub Extension : Type 0
Extension = ℕ × Bytes

unfoldable pub extension_bytes : Extension → Bytes
extension_bytes (t, v) = to_bytes_big 2 t ++ (to_bytes_big 2 (length v) ++ v)

unfoldable pub extensions_bytes : List Extension → Bytes
unfolding extension_bytes
extensions_bytes [] = []
extensions_bytes (e ∷ es) = extension_bytes e ++ extensions_bytes es

pub record IsExtension (e : Extension) : Type 0 where
  pub type_word : e.0 < 65536
  pub size_word : length e.1 < 65536

-- The dictionary after entering the extensions in their order.
unfoldable pub enter : List (ℕ × Bytes) → List Extension → List (ℕ × Bytes)
enter d [] = d
enter d ((t, v) ∷ es) = enter (insert t v d) es

abbrev LoopStep : ℕ → Bytes → ℕ → ℕ → List (ℕ × Bytes) → ℕ → ℕ → Bytes → Type 0
LoopStep fuel message end position acc t size v =
    extension_loop (suc fuel) message end position acc
    ≡ extension_loop fuel message end (position + 4 + size) (insert t v acc)

-- One round, where an extension stands at the position.
loop_round :
    (fuel : ℕ) (message : Bytes) (end position : ℕ) (acc : List (ℕ × Bytes)) (t size : ℕ)
    (v : Bytes)
    → word_at message position ≡ t
    → word_at message (position + 2) ≡ size
    → slice_at message (position + 4) size ≡ v
    → position + 4 + size ≤ end
    → LoopStep fuel message end position acc t size v
unfolding extension_loop
loop_round fuel message end position acc t size v ht hs hv room =
    rw (hs, ht, hv)
      (rw (le→ltb end (position + 4) (omega arith), le→ltb end (position + 4 + size) (omega arith))
        refl)

loop_done :
    (fuel : ℕ) (message : Bytes) (position : ℕ) (acc : List (ℕ × Bytes))
    → extension_loop fuel message position position acc ≡ ok (acc, position)
unfolding extension_loop
loop_done zero message position acc = refl
loop_done (suc fuel) message position acc = ground arith

-- Behind the two words of an extension.
At-contents :
    (message : Bytes) (position : ℕ) (t : ℕ) (v rest : Bytes)
    → At message position (extension_bytes (t, v) ++ rest)
    → At message position (to_bytes_big 2 t ++ (to_bytes_big 2 (length v) ++ (v ++ rest)))
unfolding extension_bytes
At-contents message position t v rest a =
    subst (At message position)
      (append_assoc (to_bytes_big 2 t) (to_bytes_big 2 (length v) ++ v) rest
        ∙ ap (λ z. to_bytes_big 2 t ++ z) (append_assoc (to_bytes_big 2 (length v)) v rest))
      a

size_of : (t : ℕ) (v : Bytes) → length (extension_bytes (t, v)) ≡ 4 + length v
unfolding extension_bytes
size_of t v = omega (
  arith,
  length-append (to_bytes_big 2 t) (to_bytes_big 2 (length v) ++ v),
  length-append (to_bytes_big 2 (length v)) v,
  length-to_bytes_big 2 t,
  length-to_bytes_big 2 (length v),
)

extension_loop-extensions_bytes :
    (es : List Extension) (fuel : ℕ) (message : Bytes) (end position : ℕ) (acc : List (ℕ × Bytes))
    (rest : Bytes)
    → All IsExtension es
    → length (extensions_bytes es) ≤ fuel
    → end ≡ position + length (extensions_bytes es)
    → At message position (extensions_bytes es ++ rest)
    → extension_loop fuel message end position acc ≡ ok (enter acc es, end)
unfolding extensions_bytes enter
extension_loop-extensions_bytes [] fuel message end position acc rest h room e a =
    let same : end ≡ position = omega arith in rw same (loop_done fuel message position acc)
extension_loop-extensions_bytes ((t, v) ∷ es) zero message end position acc rest (h, hs) room e a =
    absurd
      (omega (arith, length-append (extension_bytes (t, v)) (extensions_bytes es), size_of t v))
extension_loop-extensions_bytes ((t, v) ∷ es) (suc fuel) message end position acc rest (h, hs) room
      e a =
    let b = At-contents message position t v (extensions_bytes es ++ rest) (
      subst (At message position) (append_assoc (extension_bytes (t, v)) (extensions_bytes es) rest)
        a) in
    let c = At-past_word message position t _ b in
    let d =
      subst (λ p. At message p (v ++ (extensions_bytes es ++ rest))) {x = position + 2 + 2}
        (omega arith) (At-past_word message (position + 2) (length v) _ c) in
    loop_round fuel message end position acc t (length v) v
      (At-word message position t _ h.type_word b)
      (At-word message (position + 2) (length v) _ h.size_word c)
      (At-slice message (position + 4) v _ (length v) refl d)
      (omega (arith, length-append (extension_bytes (t, v)) (extensions_bytes es), size_of t v))
    ∙ extension_loop-extensions_bytes es fuel message end (position + 4 + length v) (insert t v acc)
        rest hs
        (omega (arith, length-append (extension_bytes (t, v)) (extensions_bytes es), size_of t v))
        (omega (arith, length-append (extension_bytes (t, v)) (extensions_bytes es), size_of t v))
        (At-append message (position + 4) v _ (length v) refl d)

-- The part of a Hello behind the compression methods: nothing, or a block of extensions.
pub block_bytes : List Extension → Bytes
block_bytes es = to_bytes_big 2 (length (extensions_bytes es)) ++ extensions_bytes es

extensions_from-block_bytes :
    (es : List Extension) (message : Bytes) (position : ℕ)
    → All IsExtension es
    → length (extensions_bytes es) < 65536
    → At message position (block_bytes es)
    → extensions_from message position ≡ ok (enter [] es)
unfolding extensions_from extension_block block_bytes
extensions_from-block_bytes es message position h small a =
    let total = length (extensions_bytes es) in
    let c = At-past_word message position total (extensions_bytes es) a in
    let size = At-word message position total (extensions_bytes es) small a in
    let loop =
      extension_loop-extensions_bytes es (length message) message (position + 2 + total)
        (position + 2) [] [] h (omega (arith, c.size)) refl
        (subst (At message (position + 2)) (sym (append-nil (extensions_bytes es))) c) in
    rw (lt→== position (length message) (omega (arith, c.size))) (
      rw size (
        rw
          (
            le→ltb (length message) (position + 2) (omega (arith, c.size)),
            le→ltb (length message) (position + 2 + total) (omega (arith, c.size)),
          )
          (rw loop (rw (eq_self (position + 2 + total)) refl))))

-- A ClientHello: `front` is the header, the version and the random.
pub record ClientHello : Type 0 where
  pub front : Bytes
  pub session_id : Bytes
  pub cipher_suites : Bytes
  pub compression : Bytes
  pub extensions : List Extension

pub record IsClientHello (h : ClientHello) : Type 0 where
  pub front_size : length h.front ≡ 38
  pub session_id_byte : length h.session_id < 256
  pub suites_word : length h.cipher_suites < 65536
  pub compression_byte : length h.compression < 256
  pub extensions_valid : All IsExtension h.extensions
  pub extensions_word : length (extensions_bytes h.extensions) < 65536

-- The message, read from right to left by its parts.
abbrev behind_suites : ClientHello → Bytes
behind_suites h = length h.compression ∷ (h.compression ++ block_bytes h.extensions)

abbrev behind_session : ClientHello → Bytes
behind_session h = to_bytes_big 2 (length h.cipher_suites) ++ (h.cipher_suites ++ behind_suites h)

unfoldable pub client_hello_bytes : ClientHello → Bytes
client_hello_bytes h = h.front ++ (length h.session_id ∷ (h.session_id ++ behind_session h))

after_session_id-session :
    (front session rest : Bytes)
    → length front ≡ 38
    → (after_session_id (front ++ (length session ∷ (session ++ rest)))
        ≡ ok (38 + (1 + length session)))
      × At (front ++ (length session ∷ (session ++ rest))) (38 + (1 + length session)) rest
unfolding after_session_id
after_session_id-session front session rest size =
    let message = front ++ (length session ∷ (session ++ rest)) in
    let a =
      At-append message 0 front (length session ∷ (session ++ rest)) 38 size (At-start message) in
    let b = At-next message 38 (length session) (session ++ rest) a in
    (
      rw (lt→leb (length message) 38 (omega (arith, a.size)))
          (rw (At-byte message 38 (length session) (session ++ rest) a) refl),
      subst (λ p. At message p rest) {x = 38 + 1 + length session} (omega arith)
          (At-append message (38 + 1) session rest (length session) refl b),
    )

after_compression-suites :
    (message suites compression rest : Bytes) (position : ℕ)
    → length suites < 65536
    → At message position
        (to_bytes_big 2 (length suites) ++ (suites ++ (length compression ∷ (compression ++ rest))))
    → (after_compression message position
        ≡ ok (position + (2 + length suites) + (1 + length compression)))
      × At message (position + (2 + length suites) + (1 + length compression)) rest
unfolding after_compression
after_compression-suites message suites compression rest position small a =
    let tail = length compression ∷ (compression ++ rest) in
    let b = At-past_word message position (length suites) (suites ++ tail) a in
    let c =
      subst (λ p. At message p tail) {x = position + 2 + length suites}
        {y = position + (2 + length suites)} (omega arith)
        (At-append message (position + 2) suites tail (length suites) refl b) in
    let behind : ℕ = position + (2 + length suites) in
    let d = At-next message behind (length compression) (compression ++ rest) c in
    (
      rw (At-word message position (length suites) (suites ++ tail) small a) (
          rw
            (
              le→ltb (length message) (position + 2) (omega (arith, b.size)),
              lt→leb (length message) behind (omega (arith, c.size)),
            )
            (rw (At-byte message behind (length compression) (compression ++ rest) c) refl)),
      subst (λ p. At message p rest) {x = behind + 1 + length compression}
          {y = behind + (1 + length compression)} (omega arith)
          (At-append message (behind + 1) compression rest (length compression) refl d),
    )

-- A ClientHello of that layout is read to the dictionary of its extensions, a later one of a type
-- in place of an earlier one, whatever its session identifier, suites and compression methods are.
pub hello_extensions-client_hello_bytes :
    (h : ClientHello)
    → IsClientHello h
    → hello_extensions (client_hello_bytes h) false ≡ ok (enter [] h.extensions)
unfolding hello_extensions client_hello_bytes
hello_extensions-client_hello_bytes h v =
    let (session, a) =
      after_session_id-session h.front h.session_id (behind_session h) v.front_size in
    let (suites, b) =
      after_compression-suites (client_hello_bytes h) h.cipher_suites h.compression
        (block_bytes h.extensions) (38 + (1 + length h.session_id)) v.suites_word a in
    rw session (
      rw suites (
        extensions_from-block_bytes h.extensions (client_hello_bytes h) _ v.extensions_valid
          v.extensions_word b))
