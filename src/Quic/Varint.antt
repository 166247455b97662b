-- ===== src/Quic/Varint.antt =====
-- decryptor/quic/derive_quic.py: `_decode_varint`, the variable-length integers of RFC 9000.
use hndl_dev.Prelude.{
  ℕ, suc, ◌+◌, ◌-◌, ◌*◌, ◌/◌, ◌%◌, ◌^◌, ◌<◌, ◌≤◌, ◌≡◌, refl, ap, ◌∙◌, bit_or, [], ◌∷◌, ◌++◌, arith,
  ltb, if◌then◌else◌, length, take, All, Bool-cases, inl, inr, length-append, le→ltb, ltb→lt,
  take-length-append,
}
use hndl_dev.Prelude.Bits.{shr, shl, low_bits, bit_or-disjoint}
use hndl_dev.Prelude.Endian.{IsByte}
use hndl_dev.Result.{Result, ok, err, value_error, truncated_varint}
use hndl_dev.Binary.{Bytes}

-- `1 << (first >> 6)`
abbrev pub varint_size : ℕ → ℕ
varint_size first = 2 ^ shr first 6

-- `for i in range(1, length): val = (val << 8) | data[i]`
unfoldable pub shift_bytes : ℕ → Bytes → ℕ
shift_bytes val [] = val
shift_bytes val (b ∷ bs) = shift_bytes (bit_or b (shl val 8)) bs

-- The value and the number of bytes read.
unfoldable pub decode_varint : Bytes → Result (ℕ × ℕ)
decode_varint [] = err (value_error truncated_varint)
decode_varint (first ∷ rest) =
    if ltb (length (first ∷ rest)) (varint_size first)
    then err (value_error truncated_varint)
    else ok (shift_bytes (low_bits first 6) (take (varint_size first - 1) rest), varint_size first)

-- How RFC 9000, section 16, writes a number below 2 ^ 62 in the fewest bytes.
unfoldable pub encode_varint : ℕ → Bytes
encode_varint v =
    if ltb v 64
    then v ∷ []
    else if ltb v 16384
    then (64 + v / 256) ∷ v % 256 ∷ []
    else if ltb v 1073741824
    then (128 + v / 16777216) ∷ v / 65536 % 256 ∷ v / 256 % 256 ∷ v % 256 ∷ []
    else (192 + v / 72057594037927936)
      ∷ v / 281474976710656 % 256
      ∷ v / 1099511627776 % 256
      ∷ v / 4294967296 % 256
      ∷ v / 16777216 % 256
      ∷ v / 65536 % 256
      ∷ v / 256 % 256
      ∷ v % 256
      ∷ []

-- A first byte of a known class.
decode_varint-class :
    (first k : ℕ) (rest : Bytes)
    → shr first 6 ≡ k
    → 2 ^ k ≤ suc (length rest)
    → decode_varint (first ∷ rest)
      ≡ ok (shift_bytes (low_bits first 6) (take (2 ^ k - 1) rest), 2 ^ k)
unfolding decode_varint
decode_varint-class first k rest e h = rw e (rw (le→ltb (suc (length rest)) (2 ^ k) h) refl)

pub one_byte : (v : ℕ) (rest : Bytes) → v < 64 → decode_varint (v ∷ rest) ≡ ok (v, 1)
unfolding shift_bytes
one_byte v rest h =
    decode_varint-class v 0 rest (omega arith) (omega arith) ∙ ap (λ n. ok (n, 1)) (omega arith)

-- The same without bit operations.
abbrev horner : ℕ → Bytes → ℕ
horner val [] = val
horner val (b ∷ bs) = horner (val * 256 + b) bs

shift_bytes-horner : (val : ℕ) (bs : Bytes) → All IsByte bs → shift_bytes val bs ≡ horner val bs
unfolding shift_bytes
shift_bytes-horner val [] h = refl
shift_bytes-horner val (b ∷ bs) (hb, hs) =
    ap (λ n. shift_bytes n bs) (bit_or-disjoint 8 b val hb ∙ omega arith)
    ∙ shift_bytes-horner (val * 256 + b) bs hs

-- A number of a known class, written in its size.
several_bytes :
    (v first k size : ℕ) (bs rest : Bytes)
    → shr first 6 ≡ k
    → 2 ^ k ≡ size
    → suc (length bs) ≡ size
    → All IsByte bs
    → horner (low_bits first 6) bs ≡ v
    → decode_varint (first ∷ (bs ++ rest)) ≡ ok (v, size)
several_bytes v first k size bs rest class power count bytes value =
    decode_varint-class first k (bs ++ rest) class (omega (arith, length-append bs rest))
    ∙ ap (λ n. ok (n, 2 ^ k))
        (ap (λ n. shift_bytes (low_bits first 6) (take n (bs ++ rest))) {x = 2 ^ k - 1}
            {y = length bs} (omega arith)
          ∙ ap (shift_bytes (low_bits first 6)) (take-length-append bs rest)
          ∙ shift_bytes-horner (low_bits first 6) bs bytes
          ∙ value)
    ∙ ap (λ n. ok (v, n)) power

-- A number below 2 ^ 62 is read back, whatever follows, and the size is that of its bytes.
pub decode_varint-encode_varint :
    (v : ℕ) (rest : Bytes)
    → v < 2 ^ 62
    → decode_varint (encode_varint v ++ rest) ≡ ok (v, length (encode_varint v))
unfolding encode_varint
decode_varint-encode_varint v rest h = elim (Bool-cases (ltb v 64)) [
  | inl one ↦ rw one (one_byte v rest (ltb→lt v 64 one))
  | inr more ↦ elim (Bool-cases (ltb v 16384)) [
    | inl two ↦
        rw (more, two)
          (let small = ltb→lt v 16384 two in
            several_bytes v (64 + v / 256) 1 2 (v % 256 ∷ []) rest (omega arith) refl refl
              (omega arith) (omega arith))
    | inr many ↦ elim (Bool-cases (ltb v 1073741824)) [
      | inl four ↦
          rw (more, many, four)
            (let small = ltb→lt v 1073741824 four in
              several_bytes v (128 + v / 16777216) 2 4
                (v / 65536 % 256 ∷ v / 256 % 256 ∷ v % 256 ∷ []) rest (omega arith) refl refl
                (omega arith) (omega arith))
      | inr eight ↦
          rw (more, many, eight)
            (several_bytes v (192 + v / 72057594037927936) 3 8
              (v / 281474976710656 % 256
                ∷ v / 1099511627776 % 256
                ∷ v / 4294967296 % 256
                ∷ v / 16777216 % 256
                ∷ v / 65536 % 256
                ∷ v / 256 % 256
                ∷ v % 256
                ∷ [])
              rest (omega arith) refl refl (omega arith) (omega arith))
    ]
  ]
]
