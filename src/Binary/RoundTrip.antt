-- ===== src/Binary/RoundTrip.antt =====
-- What `Reader.uvarint` and `Reader.blob` read back from `encode_uvarint` and `encode_blob`.
use native.Mathlib.Nat.{pow-suc, div-add-mod}
use native.Mathlib.Decide.{dec_lt}
use mathlib.Core.Path.{subst}
use native.Mathlib.Numerals.{towards_suc}
use hndl_dev.Prelude.{
  ℕ, zero, suc, ◌+◌, ◌*◌, ◌/◌, ◌%◌, ◌^◌, ◌≤◌, ◌<◌, ◌≡◌, refl, ap, bit_or, true, false, [], ◌∷◌,
  ◌++◌, append_assoc, arith, ltb, leb, le→ltb, if◌then◌else◌, length,
}
use hndl_dev.Prelude.Bits.{bit_or-disjoint, has_bit}
use hndl_dev.Exec.{Yields, Yields-bind, Yields-pure}
use hndl_dev.Binary.{
  Bytes, Reader, encode_loop, encode_uvarint, encode_blob, uvarint_loop, uvarint, blob,
}
use hndl_dev.Binary.View.{Unread, byte-Yields, take_bytes-Yields}

set_top_bit : (x : ℕ) → x < 128 → bit_or x 0x80 ≡ x + 128
set_top_bit x h = bit_or-disjoint 7 x 1 h

-- Fuel beyond the value changes nothing, and what is written first stays in front.
encode_loop-append :
    (f g v : ℕ) (out : Bytes) → v ≤ f → v ≤ g → encode_loop f v out ≡ out ++ encode_loop g v []
unfolding encode_loop
encode_loop-append zero zero v out hf hg = refl
encode_loop-append zero (suc g) v out hf hg = ground arith
encode_loop-append (suc f) zero v out hf hg = ground arith
encode_loop-append (suc f) (suc g) v out hf hg =
    let x = bit_or (v % 128) 128 in
    ground (
      arith,
      encode_loop-append f g (v / 128) (out ++ (x ∷ [])) (omega arith) (omega arith),
      encode_loop-append g g (v / 128) (x ∷ []) (omega arith) (omega arith),
      append_assoc out (x ∷ []) (encode_loop g (v / 128) []),
    )

-- One round of the encoder.
pub encode_uvarint_lem :
    (v : ℕ)
    → encode_uvarint v ≡ (if leb 128 v then (v % 128 + 128) ∷ encode_uvarint (v / 128) else v ∷ [])
unfolding encode_uvarint encode_loop
encode_uvarint_lem zero = refl
encode_uvarint_lem (suc v) = ground (
  arith,
  set_top_bit (suc v % 128),
  encode_loop-append v (suc v / 128) (suc v / 128) ((suc v % 128 + 128) ∷ []) (omega arith)
      (omega arith),
)

shift_seven : (s : ℕ) → 2 ^ (s + 7) ≡ 128 * 2 ^ s
shift_seven s = simp towards_suc (omega arith)

-- The lowest seven bits of `v` and the rest, both shifted by `s`.
split_group : (v s : ℕ) → v * 2 ^ s ≡ v % 128 * 2 ^ s + v / 128 * 2 ^ (s + 7)
split_group v s = omega (
  arith,
  ap (λ (t : ℕ). t * 2 ^ s) (div-add-mod v 128),
  ap (λ (t : ℕ). v / 128 * t) (shift_seven s),
)

-- The bits read so far stay below the next group.
group_fits : (acc g s : ℕ) → acc < 2 ^ s → g < 128 → acc + g * 2 ^ s < 2 ^ (s + 7)
group_fits acc g s h k = rw (shift_seven s) (grind arith)

-- A byte of the encoding with the top bit set, and the last one.
module _ (rounds maximum acc s b : ℕ) (r : Reader) (ys : Bytes) (u : Unread r (b ∷ ys)) where
  more_byte :
      (g : ℕ) {a : ℕ} {Q : Reader → Type 0}
      → b ≡ g + 128
      → g < 128
      → acc < 2 ^ s
      → ((t : Reader)
          → Unread t ys
          → Yields (uvarint_loop rounds maximum (acc + g * 2 ^ s) (s + 7)) t a Q)
      → Yields (uvarint_loop (suc rounds) maximum acc s) r a Q
  unfolding uvarint_loop
  more_byte g e hg h k = Yields-bind _ (byte-Yields r b ys u) λ t v. rw (top, value) (k t v)
    where
      top : has_bit b 7 ≡ true
      top = ground arith

      value : bit_or acc (b % 128 * 2 ^ s) ≡ acc + g * 2 ^ s
      value = let low : b % 128 ≡ g = omega arith in rw low (bit_or-disjoint s acc g h)

  last_byte :
      b < 128
      → acc < 2 ^ s
      → acc + b * 2 ^ s ≤ maximum
      → Yields (uvarint_loop (suc rounds) maximum acc s) r (acc + b * 2 ^ s) (λ t. Unread t ys)
  unfolding uvarint_loop
  last_byte hb h fits =
      Yields-bind _ (byte-Yields r b ys u) λ t v. rw (top, value, in_limit) (Yields-pure _ v)
    where
      top : has_bit b 7 ≡ false
      top = ground arith

      value : bit_or acc (b % 128 * 2 ^ s) ≡ acc + b * 2 ^ s
      value = let low : b % 128 ≡ b = omega arith in rw low (bit_or-disjoint s acc b h)

      in_limit : ltb maximum (acc + b * 2 ^ s) ≡ false
      in_limit = le→ltb _ _ fits

pub last_test : (v : ℕ) → v < 128 → leb 128 v ≡ false
last_test v h = ground arith

pub more_test : (v : ℕ) → ¬ (v < 128) → leb 128 v ≡ true
more_test v h = ground arith

rejoined : (acc v s : ℕ) → acc + v * 2 ^ s ≡ acc + v % 128 * 2 ^ s + v / 128 * 2 ^ (s + 7)
rejoined acc v s = omega (arith, split_group v s)

-- `v` is what is still to be read; it counts from bit `s` on.
uvarint_loop-encode_uvarint :
    (rounds maximum v acc s : ℕ) (r : Reader) (ys : Bytes)
    → Unread r (encode_uvarint v ++ ys)
    → v < 128 ^ suc rounds
    → acc < 2 ^ s
    → acc + v * 2 ^ s ≤ maximum
    → Yields (uvarint_loop (suc rounds) maximum acc s) r (acc + v * 2 ^ s) (λ t. Unread t ys)
uvarint_loop-encode_uvarint zero maximum v acc s r ys u hv h fits =
    let small : v < 128 = omega arith in
    last_byte 0 maximum acc s v r ys (rw (encode_uvarint_lem, last_test v small) at u) small h fits
uvarint_loop-encode_uvarint (suc rounds) maximum v acc s r ys u hv h fits = elim (dec_lt v 128) [
  | yes small ↦
      last_byte (suc rounds) maximum acc s v r ys (rw (encode_uvarint_lem, last_test v small) at u)
        small h fits
  | no large ↦
      more_byte (suc rounds) maximum acc s (v % 128 + 128) r (encode_uvarint (v / 128) ++ ys)
        (rw (encode_uvarint_lem, more_test v large) at u) (v % 128) refl (omega arith) h
        λ t w. rw (rejoined acc v s) (
          uvarint_loop-encode_uvarint rounds maximum (v / 128) (acc + v % 128 * 2 ^ s) (s + 7) t ys
            w (omega (arith, pow-suc 128 (suc rounds))) (group_fits acc (v % 128) s h (omega arith))
            (omega (arith, rejoined acc v s)))
]

-- `uvarint` reads back every encoded number that is below 128 ^ 10 and within its limit, and stops
-- behind the encoding.
pub uvarint-encode_uvarint :
    (maximum v : ℕ) (r : Reader) (ys : Bytes)
    → v ≤ maximum
    → v < 128 ^ 10
    → Unread r (encode_uvarint v ++ ys)
    → Yields (uvarint maximum) r v (λ t. Unread t ys)
unfolding uvarint
uvarint-encode_uvarint maximum v r ys h k u =
    subst (λ n. Yields (uvarint maximum) r n (λ t. Unread t ys)) (omega arith)
      (uvarint_loop-encode_uvarint 9 maximum v 0 0 r ys u k (omega arith) (omega arith))

-- `blob` reads back an encoded blob that is within its limit and shorter than 128 ^ 10 bytes, and
-- stops behind it.
pub blob-encode_blob :
    (maximum : ℕ) (value : Bytes) (r : Reader) (ys : Bytes)
    → length value ≤ maximum
    → length value < 128 ^ 10
    → Unread r (encode_blob value ++ ys)
    → Yields (blob maximum) r value (λ t. Unread t ys)
unfolding blob encode_blob
blob-encode_blob maximum value r ys h k u =
    Yields-bind _
      (uvarint-encode_uvarint maximum (length value) r (value ++ ys) h k (rw append_assoc at u))
      (λ t v. take_bytes-Yields t value ys v)
