-- ===== src/Hello/Cursor.antt =====
-- Reading bytes at a position: `message[position]` and `message[position : position + 2]`.
use hndl_dev.Prelude.{
  ℕ, zero, suc, ◌+◌, ◌<◌, ◌≡◌, refl, sym, ap, ◌∙◌, none, some, [], ◌∷◌, ◌++◌, arith, length, take,
  drop, get_elem?, drop-drop, drop-length-append, take-length-append, length-append,
}
use hndl_dev.Prelude.Endian.{
  from_bytes_big, to_bytes_big, length-to_bytes_big, from_bytes_big-to_bytes_big,
}
use hndl_dev.Result.{Result, ok, err, index_error}
use hndl_dev.Binary.{Bytes}

-- `message[position]`
unfoldable pub byte_at : Bytes → ℕ → Result ℕ
byte_at message position = elim (get_elem? message position) [
  | none ↦ err index_error
  | some b ↦ ok b
]

-- `int.from_bytes(message[position : position + 2], "big")`
abbrev pub word_at : Bytes → ℕ → ℕ
word_at message position = from_bytes_big (take 2 (drop position message))

-- `message[position : position + size]`
abbrev pub slice_at : Bytes → ℕ → ℕ → Bytes
slice_at message position size = take size (drop position message)

byte_at-cons :
    (message : Bytes) (position b : ℕ) (rest : Bytes)
    → drop position message ≡ b ∷ rest
    → byte_at message position ≡ ok b
unfolding byte_at
byte_at-cons [] zero b rest h = cc
byte_at-cons [] (suc p) b rest h = cc
byte_at-cons (m ∷ message) zero b rest h = cc
byte_at-cons (m ∷ message) (suc p) b rest h = byte_at-cons message p b rest h

-- A position in the message is in range.
pub byte_at-in_range :
    (message : Bytes) (position : ℕ)
    → position < length message
    → (b : ℕ) × (byte_at message position ≡ ok b)
unfolding byte_at
byte_at-in_range [] position h = absurd (omega arith)
byte_at-in_range (m ∷ message) zero h = (m, refl)
byte_at-in_range (m ∷ message) (suc p) h = byte_at-in_range message p (omega arith)

-- The message from a position on is `rest`.
pub record At (message : Bytes) (position : ℕ) (rest : Bytes) : Type 0 where
  pub behind : drop position message ≡ rest
  pub size : length message ≡ position + length rest

pub At-start : (message : Bytes) → At message 0 message
At-start message = record { behind = refl; size = omega arith }

module _ (message : Bytes) (position : ℕ) where
  -- Past a field of a known size.
  pub At-append :
      (field rest : Bytes) (k : ℕ)
      → length field ≡ k
      → At message position (field ++ rest)
      → At message (position + k) rest
  At-append field rest k e a = record {
    behind =
        sym (drop-drop k position message)
        ∙ ap (drop k) a.behind
        ∙ ap (λ n. drop n (field ++ rest)) (sym e)
        ∙ drop-length-append field rest;
    size = omega (arith, a.size, e, length-append field rest);
  }

  pub At-byte :
      (b : ℕ) (rest : Bytes) → At message position (b ∷ rest) → byte_at message position ≡ ok b
  At-byte b rest a = byte_at-cons message position b rest a.behind

  pub At-next :
      (b : ℕ) (rest : Bytes) → At message position (b ∷ rest) → At message (position + 1) rest
  At-next b rest a = At-append (b ∷ []) rest 1 refl a

  -- A field is what stands at its position.
  pub At-slice :
      (field rest : Bytes) (k : ℕ)
      → length field ≡ k
      → At message position (field ++ rest)
      → slice_at message position k ≡ field
  At-slice field rest k e a =
      ap (take k) a.behind
      ∙ ap (λ n. take n (field ++ rest)) (sym e)
      ∙ take-length-append field rest

  pub At-word :
      (value : ℕ) (rest : Bytes)
      → value < 65536
      → At message position (to_bytes_big 2 value ++ rest)
      → word_at message position ≡ value
  At-word value rest small a =
      ap from_bytes_big (At-slice (to_bytes_big 2 value) rest 2 (length-to_bytes_big 2 value) a)
      ∙ from_bytes_big-to_bytes_big 2 value small

  -- Past a word.
  pub At-past_word :
      (value : ℕ) (rest : Bytes)
      → At message position (to_bytes_big 2 value ++ rest)
      → At message (position + 2) rest
  At-past_word value rest a =
      At-append (to_bytes_big 2 value) rest 2 (length-to_bytes_big 2 value) a
