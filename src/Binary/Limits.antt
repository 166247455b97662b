-- ===== src/Binary/Limits.antt =====
-- `encode_uvarint` writes the shortest form, and `uvarint` on input of any kind.
use native.Mathlib.Nat.{pow-suc}
use native.Mathlib.Decide.{dec_lt}
use hndl_dev.Prelude.{
  ℕ, zero, suc, ◌+◌, ◌*◌, ◌/◌, ◌%◌, ◌^◌, ◌≤◌, ◌<◌, ◌≡◌, bit_or, [], ◌∷◌, arith, length, All,
  Option-cases, inl, inr, get_elem?, some,
}
use hndl_dev.Prelude.Endian.{IsByte}
use hndl_dev.Result.{ok}
use hndl_dev.Binary.{Bytes, Reader, encode_uvarint, byte, uvarint_loop, uvarint}
use hndl_dev.Binary.RoundTrip.{encode_uvarint_lem, last_test, more_test}

-- Each byte of an encoding is below 256.
encode_uvarint-IsByte_fuel : (n v : ℕ) → v < n → All IsByte (encode_uvarint v)
encode_uvarint-IsByte_fuel zero v h = absurd (omega arith)
encode_uvarint-IsByte_fuel (suc n) v h = elim (dec_lt v 128) [
  | yes small ↦ rw (encode_uvarint_lem, last_test v small) (omega arith)
  | no large ↦
      rw (encode_uvarint_lem, more_test v large)
        (omega arith, encode_uvarint-IsByte_fuel n (v / 128) (omega arith))
]

pub encode_uvarint-IsByte : (v : ℕ) → All IsByte (encode_uvarint v)
encode_uvarint-IsByte v = encode_uvarint-IsByte_fuel (suc v) v (omega arith)

length_pos : (v : ℕ) → 1 ≤ length (encode_uvarint v)
length_pos v = elim (dec_lt v 128) [
  | yes small ↦ rw (encode_uvarint_lem, last_test v small) (omega arith)
  | no large ↦ rw (encode_uvarint_lem, more_test v large) (omega arith)
]

pow_pos : (k : ℕ) → 1 ≤ 128 ^ k
pow_pos zero = omega arith
pow_pos (suc k) = omega (arith, pow-suc 128 k, pow_pos k)

-- A number takes at most `k + 1` bytes exactly if it has at most `7 * (k + 1)` bits.
pub length-encode_uvarint :
    (k v : ℕ)
    → ((v < 128 ^ suc k) → length (encode_uvarint v) ≤ suc k)
      × ((length (encode_uvarint v) ≤ suc k) → v < 128 ^ suc k)
length-encode_uvarint zero v = elim (dec_lt v 128) [
  | yes small ↦ rw (encode_uvarint_lem, last_test v small) (omega arith)
  | no large ↦ rw (encode_uvarint_lem, more_test v large) (omega (arith, length_pos (v / 128)))
]
length-encode_uvarint (suc k) v = elim (dec_lt v 128) [
  | yes small ↦
      rw (encode_uvarint_lem, last_test v small)
        (omega (arith, pow-suc 128 (suc k), pow_pos (suc k)))
  | no large ↦
      let (up, down) = length-encode_uvarint k (v / 128) in
      rw (encode_uvarint_lem, more_test v large)
        (
          λ h. omega (arith, up (omega (arith, pow-suc 128 (suc k)))),
          λ h. omega (arith, pow-suc 128 (suc k), down (omega arith)),
        )
]

get_elem?-lt : (xs : Bytes) (n b : ℕ) → get_elem? xs n ≡ some b → n < length xs
get_elem?-lt [] n b h = cc
get_elem?-lt (x ∷ xs) zero b h = omega arith
get_elem?-lt (x ∷ xs) (suc n) b h = omega (arith, get_elem?-lt xs n b h)

pub record Advanced (least most : ℕ) (r t : Reader) : Type 0 where
  pub same : t.contents ≡ r.contents
  pub onward : r.offset + least ≤ t.offset
  pub bounded : t.offset ≤ r.offset + most
  pub within : t.offset ≤ length r.contents

byte-Advanced : (r t : Reader) (b : ℕ) → byte r ≡ ok (b, t) → Advanced 1 1 r t
unfolding byte
byte-Advanced r t b h = ground (arith, get_elem?-lt r.contents r.offset b)

uvarint_loop-Advanced :
    (rounds maximum acc s : ℕ) (r t : Reader) (v : ℕ)
    → uvarint_loop rounds maximum acc s r ≡ ok (v, t)
    → (v ≤ maximum) × Advanced 1 rounds r t
unfolding uvarint_loop byte
uvarint_loop-Advanced zero maximum acc s r t v h = cc
uvarint_loop-Advanced (suc rounds) maximum acc s r t v h =
    elim (Option-cases (get_elem? r.contents r.offset)) [
      | inl over ↦ ground arith
      | inr (b, found) ↦ ground (
        arith,
        get_elem?-lt r.contents r.offset b,
        uvarint_loop-Advanced rounds maximum (bit_or acc (b % 128 * 2 ^ s)) (s + 7)
            (record r { offset = r.offset + 1 }) t v,
      )
    ]

-- Whatever the input, a number that `uvarint` returns is within the limit, and 1 to 10 bytes of
-- the input were read for it.
pub uvarint-Advanced :
    (maximum : ℕ) (r t : Reader) (v : ℕ)
    → uvarint maximum r ≡ ok (v, t)
    → (v ≤ maximum) × Advanced 1 10 r t
unfolding uvarint
uvarint-Advanced maximum r t v h = uvarint_loop-Advanced 10 maximum 0 0 r t v h
