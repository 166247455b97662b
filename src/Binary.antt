-- ===== src/Binary.antt =====
-- minarx/binary.py: variable-length integers, length-prefixed blobs, and the bounded `Reader`.
pub mod View
pub mod RoundTrip
pub mod Limits
use hndl_dev.Prelude.{
  ℕ, zero, suc, ◌+◌, ◌-◌, ◌/◌, ◌^◌, ◌<◌, ◌≤◌, bit_or, Bool, true, false, Option, none, some, List,
  [], ◌∷◌, ◌++◌, arith, ltb, leb, ◌==◌, if◌then◌else◌, length, take, drop, get_elem?,
}
use hndl_dev.Prelude.Bits.{shr, shl, low_bits, has_bit}
use hndl_dev.Result.{
  Error, decode_error, DecodeFault, truncated_byte, integer_exceeds_limit, overlong_uvarint,
  truncated_field, trailing_payload_bytes, Result, ok, err,
}
use hndl_dev.Exec.{Exec, pure, raise, guard, ◌>>=◌, ◌>>◌}

-- `bytes`: each element is below 256 where a theorem needs it.
abbrev pub Bytes : Type 0
Bytes = List ℕ

abbrev pub max_field_size : ℕ
max_field_size = 2 ^ 31

-- The loop of `encode_uvarint`, `out` being what is written so far. Every caller encodes a length
-- or a count, so the guard against negative values has no case here. A round divides `value` by
-- 128, so `value` rounds of fuel are enough: without fuel `value` is 0 and the loop has ended.
encode_loop : ℕ → ℕ → Bytes → Bytes
encode_loop zero value out = out ++ (value ∷ [])
encode_loop (suc fuel) value out =
    let more = encode_loop fuel (shr value 7) (out ++ (bit_or (low_bits value 7) 0x80 ∷ [])) in
    if leb 0x80 value then more else out ++ (value ∷ [])

unfoldable pub encode_uvarint : ℕ → Bytes
unfolding encode_loop
encode_uvarint value = encode_loop value value []

unfoldable pub encode_blob : Bytes → Bytes
encode_blob value = encode_uvarint (length value) ++ value

-- `Reader.data` is the field `contents`.
pub record Reader : Type 0 where
  pub contents : Bytes
  pub offset : ℕ

-- `Reader(data)`
abbrev pub open_reader : Bytes → Reader
open_reader bytes = record { contents = bytes; offset = 0 }

-- There is no element at `offset` exactly if `offset >= len(self.data)`.
unfoldable pub byte : Exec Reader ℕ
byte r = elim (get_elem? r.contents r.offset) [
  | none ↦ err (decode_error truncated_byte)
  | some value ↦ ok (value, record r { offset = r.offset + 1 })
]

-- The rounds left of `for _ in range(10)`, the limit, and the variables `value` and `shift`.
unfoldable pub uvarint_loop : ℕ → ℕ → ℕ → ℕ → Exec Reader ℕ
uvarint_loop zero maximum value shift = raise (decode_error overlong_uvarint)
uvarint_loop (suc rounds) maximum value shift = do
  octet ← byte
  let value' = bit_or value (shl (low_bits octet 7) shift)
  let more = uvarint_loop rounds maximum value' (shift + 7)
  if has_bit octet 7
      then more
      else if ltb maximum value'
      then raise (decode_error integer_exceeds_limit)
      else pure value'

unfoldable pub uvarint : ℕ → Exec Reader ℕ
uvarint maximum = uvarint_loop 10 maximum 0 0

-- No caller passes a negative length.
unfoldable pub take_bytes : ℕ → Exec Reader Bytes
take_bytes count r =
    if ltb (length r.contents) (r.offset + count)
    then err (decode_error truncated_field)
    else ok (take count (drop r.offset r.contents), record r { offset = r.offset + count })

unfoldable pub blob : ℕ → Exec Reader Bytes
blob maximum = do count ← uvarint maximum; take_bytes count

unfoldable pub finish : Exec Reader (Unit {0})
finish r =
    if r.offset == length r.contents then ok (tt, r) else err (decode_error trailing_payload_bytes)
